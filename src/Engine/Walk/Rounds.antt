-- ===== src/Engine/Walk/Rounds.antt =====
-- One round of the walk keeps its invariant and comes closer to the end; so the walk ends.
use oc_earley.Prelude.{
  ℕ, suc, ◌+◌, ◌≤◌, ◌<◌, ◌≡◌, ◌⊎◌, inl, inr, true, false, some, List, [], ◌∷◌, length, get_elem?,
  lt_of_get_elem?, leb, leb→le, ◌==◌, ==→eq, Bool-cases, u64_max, checked_add, saturating_add, refl,
  sym, ap, ◌≢◌, ◌∙◌, arith, subst,
}
use mathlib.Core.Option.{some-injective}
use oc_earley.Error.{RuntimeError, IsLimit}
use oc_earley.Outcome.{ok}
use oc_earley.Outcome.Rules.{
  or_fail_ok, Ensures-stop, Ensures, Ensures-step, Ensures-last, Ensures-get, Ensures-modify,
  Ensures-guard, Ensures-cases,
}
use oc_earley.Vocabulary.Trie.{TrieNode, TrieEdge}
use oc_earley.Engine.Mask.{MaskStats}
use oc_earley.Engine.Recognizer.{
  Advance, rejected, live, accepting, RecognizerState, checkpoint, restore, try_advance_bytes,
}
use oc_earley.Engine.Walk.{TrieFrame, Walk, leave, follow, take_edge}
use oc_earley.Engine.Walk.Spec.{is_allowed, Enabled, below, Stepped, Follows}
use oc_earley.Engine.Walk.Chain.{
  Setting, Beyond, Pending, FrameOk, Chain, Inv, Chain-map, Chain-After, on_recognizer_ok,
  on_recognizer_err,
}
use oc_earley.Engine.Walk.Emitting.{Settled}

module _ (c : Setting) where
  -- A run that fails has met a limit, and can go back to the root.
  abbrev pub Failed : RuntimeError → Walk → Type 0
  Failed e u = IsLimit e × c.After c.root u.recognizer

  module _ (f : TrieFrame) (rest : List TrieFrame) (visited : ℕ) (node : TrieNode)
      (found : get_elem? c.trie.nodes f.node ≡ some node) where
    back_to_frame :
        (w : Walk) (s : Settled c f rest visited w) → restore f.checkpoint w.recognizer ≡ ok tt s.at
    back_to_frame w s =
        subst (λ k. restore k w.recognizer ≡ ok tt s.at) (sym s.frame.at)
          (c.laws.back s.at w.recognizer s.frame.good s.frame.after)

    pub leave-Inv :
        {Q : RuntimeError → Walk → Type 0} (w : Walk)
        → Settled c f rest visited w
        → visited ≤ c.limits.max_mask_trie_edges
        → node.edge_len ≤ f.next_edge
        → Ensures (λ _ u. Inv c u × (u.stack ≡ rest) × (u.visited ≡ visited)) Q (leave f rest w)
    unfolding leave
    leave-Inv w s small last =
        let back = back_to_frame w s in
        Ensures-step _ (on_recognizer_ok (restore f.checkpoint) w back) (
          Ensures-last _ _ (
            record {
              size = s.size;
              sound = s.sound;
              chain =
                  Chain-map c rest s.at
                    (λ h. elim h [
                      | inl p ↦ p
                      | inr b ↦
                          let same = some-injective _ _ (sym b.is_node ∙ found) in
                          let i : b.index < node.edge_len =
                            subst (λ x. b.index < x.edge_len) same b.inside in
                          absurd (omega (arith, b.ahead))
                    ])
                    s.chain;
              within = omega (arith, s.visited_same);
            },
            refl,
            s.visited_same,
          ))

    -- The frame after one more edge.
    abbrev taken : TrieFrame
    taken = record f { next_edge = f.next_edge + 1; emitted = true }

    module _ (edge : TrieEdge)
        (is_edge : get_elem? c.trie.edges (node.edge_start + f.next_edge) ≡ some edge)
        (inside : f.next_edge < node.edge_len) (leads : edge.child < length c.trie.nodes) where
      -- What lies behind the edges left lies behind this one or a later one.
      split-Beyond :
          (r : RecognizerState)
          → Beyond c f.node f.next_edge r
          → ((t : RecognizerState) × Follows c.fuel edge.byte r t
              × Enabled c.fuel c.trie edge.child t c.token)
            ⊎ Beyond c f.node (f.next_edge + 1) r
      split-Beyond r b = elim (Bool-cases (b.index == f.next_edge)) [
        | inl q ↦
            let same = some-injective _ _ (sym b.is_node ∙ found) in
            let at : b.node.edge_start + b.index ≡ node.edge_start + f.next_edge =
              omega (arith, ap (λ x. x.edge_start) same, ==→eq _ _ q) in
            let this : b.edge ≡ edge =
              some-injective _ _ (sym b.is_edge ∙ ap (get_elem? c.trie.edges) at ∙ is_edge) in
            inl (
              b.target,
              subst (λ x. Follows c.fuel x.byte r b.target) this b.follows,
              subst (λ x. Enabled c.fuel c.trie x.child b.target c.token) this b.enabled,
            )
        | inr q ↦ inr (record {
          node = b.node;
          index = b.index;
          edge = b.edge;
          target = b.target;
          is_node = b.is_node;
          ahead = ground (arith, b.ahead);
          inside = b.inside;
          is_edge = b.is_edge;
          follows = b.follows;
          enabled = b.enabled;
        })
      ]

      abbrev Entered : Walk → Type 0
      Entered u = Inv c u × (u.visited ≡ visited) × (length u.stack ≤ suc (suc (length rest)))

      -- After the trial of the edge's byte, at the recognizer of the frame.
      module _ (w : Walk) (r : RecognizerState) (a : Advance)
          (size : length w.destination ≡ c.words)
          (sound : is_allowed w.destination c.token ≡ true → c.Goal) (good : c.Good r)
          (at : f.checkpoint ≡ checkpoint r)
          (from_frame : Enabled c.fuel c.trie f.node r c.token → c.Goal)
          (chain : Chain c rest r
            ((is_allowed w.destination c.token ≡ true) ⊎ Beyond c f.node f.next_edge r))
          (stack : w.stack ≡ taken ∷ rest) (small : w.visited ≤ c.limits.max_mask_trie_edges)
          (same : w.visited ≡ visited)
          (tries : try_advance_bytes c.fuel (edge.byte ∷ []) r ≡ ok a w.recognizer) where
        frame_taken : c.After r w.recognizer → FrameOk c taken r w.recognizer
        frame_taken after = record {
          at = at;
          good = good;
          after = after;
          fresh = λ e. cc;
          exists = lt_of_get_elem? c.trie.nodes f.node found;
          sound = from_frame;
        }

        pruned :
            (s : MaskStats) → a ≡ rejected → w.recognizer ≡ r → Entered (record w { stats = s })
        pruned s q t = (
          record {
            size = size;
            sound = sound;
            chain =
                subst (λ st. Chain c st w.recognizer (is_allowed w.destination c.token ≡ true))
                  (sym stack)
                  (
                    r,
                    frame_taken (subst (c.After r) (sym t) (c.laws.same r good)),
                    Chain-map c rest r
                        (λ h. elim h [
                          | inl p ↦ inl p
                          | inr b ↦ elim (split-Beyond r b) [
                            | inl (u, (a', e, ne), _) ↦
                                let e' : a' ≡ rejected = cc in absurd (ne e')
                            | inr b' ↦ inr (inr (refl, b'))
                          ]
                        ])
                        chain,
                  );
            within = small;
          },
          same,
          omega (arith, ap length stack),
        )

        abbrev child : TrieFrame
        child = record {
          node = edge.child;
          next_edge = 0;
          emitted = false;
          checkpoint = checkpoint w.recognizer;
        }

        frame_child : a ≢ rejected → c.Good w.recognizer → FrameOk c child w.recognizer w.recognizer
        frame_child ne fine = record {
          at = refl;
          good = fine;
          after = c.laws.same w.recognizer fine;
          fresh = λ e. (refl, refl);
          exists = leads;
          sound = λ h. from_frame (below f.next_edge found inside is_edge (a, tries, ne) h);
        }

        entered :
            a ≢ rejected
            → c.Good w.recognizer
            → c.After r w.recognizer
            → Entered (record w { stack = child ∷ w.stack })
        entered ne fine after = (
          record {
            size = size;
            sound = sound;
            chain = (
              w.recognizer,
              frame_child ne fine,
              subst
                  (λ st.
                    Chain c st w.recognizer
                      ((is_allowed w.destination c.token ≡ true) ⊎ Pending c child w.recognizer))
                  (sym stack)
                  (
                    r,
                    frame_taken after,
                    Chain-map c rest r
                        (λ h. elim h [
                          | inl p ↦ inl (inl p)
                          | inr b ↦ elim (split-Beyond r b) [
                            | inl (u, (a', e, _), h) ↦
                                let at_child : u ≡ w.recognizer = cc in
                                inl (
                                  inr (
                                    inl (
                                      refl,
                                      subst (λ x. Enabled c.fuel c.trie edge.child x c.token)
                                          at_child h,
                                    )))
                            | inr b' ↦ inr (inr (refl, b'))
                          ]
                        ])
                        chain,
                  ),
            );
            within = small;
          },
          same,
          omega (arith, ap length stack),
        )

      follow-Entered :
          {Q : RuntimeError → Walk → Type 0} (w : Walk) (r : RecognizerState) (a : Advance)
          → length w.destination ≡ c.words
          → (is_allowed w.destination c.token ≡ true → c.Goal)
          → c.Good r
          → f.checkpoint ≡ checkpoint r
          → (Enabled c.fuel c.trie f.node r c.token → c.Goal)
          → Chain c rest r
              ((is_allowed w.destination c.token ≡ true) ⊎ Beyond c f.node f.next_edge r)
          → w.stack ≡ taken ∷ rest
          → w.visited ≤ c.limits.max_mask_trie_edges
          → w.visited ≡ visited
          → try_advance_bytes c.fuel (edge.byte ∷ []) r ≡ ok a w.recognizer
          → Stepped c.Good c.After r a w.recognizer
          → Ensures (λ _ u. Entered u) Q (follow edge a w)
      unfolding follow
      follow-Entered w r rejected si so g at fr ch st sm sa tr t =
          Ensures-last _ _ (pruned w r rejected si so g at fr ch st sm sa tr _ refl t)
      follow-Entered w r live si so g at fr ch st sm sa tr (fine, after) =
          Ensures-last _ _ (entered w r live si so g at fr ch st sm sa tr (λ e. cc) fine after)
      follow-Entered w r accepting si so g at fr ch st sm sa tr (fine, after) =
          Ensures-last _ _ (entered w r accepting si so g at fr ch st sm sa tr (λ e. cc) fine after)

  module _ (f : TrieFrame) (rest : List TrieFrame) (node : TrieNode)
      (found : get_elem? c.trie.nodes f.node ≡ some node) where
    pub take_edge-Inv :
        (w : Walk)
        → Settled c f rest w.visited w
        → w.visited ≤ c.limits.max_mask_trie_edges
        → f.next_edge < node.edge_len
        → Ensures
            (λ _ u.
              Inv c u × (u.visited ≡ suc w.visited) × (length u.stack ≤ suc (suc (length rest))))
            Failed
            (take_edge c.fuel c.limits c.trie f rest node w)
    unfolding take_edge
    take_edge-Inv w s small inside =
        let fine = c.trie_ok.nodes f.node node found in
        let (edge, is_edge, leads) = fine.edges f.next_edge inside in
        let fits : leb (node.edge_start + f.next_edge) u64_max ≡ true =
          ground (arith, fine.edge_end) in
        let index : checked_add node.edge_start f.next_edge ≡ some (node.edge_start + f.next_edge) =
          rw fits refl in
        let more : saturating_add w.visited 1 ≡ suc w.visited = omega (arith, c.edges) in
        let back = back_to_frame f rest w.visited node found w s in
        let from_root = Chain-After c rest s.at _ s.chain in
        let trial = try_advance_bytes c.fuel (edge.byte ∷ []) in
        let v : Walk = record w {
          recognizer = s.at;
          stack = taken f rest w.visited node found ∷ rest;
          visited = saturating_add w.visited 1;
          stats = record w.stats {
            trie_edges_visited = saturating_add w.stats.trie_edges_visited 1;
          };
        } in
        Ensures-modify _ w _ (
          Ensures-step _ (or_fail_ok _ _ _ index) (
            Ensures-step _ (or_fail_ok _ _ _ is_edge) (
              Ensures-get _ _ (
                Ensures-guard _ _ _ _
                  (λ open_limit. Ensures-modify _ _ _ (
                    Ensures-modify _ _ _ (
                      Ensures-step _ (on_recognizer_ok (restore f.checkpoint) _ back)
                        (elim (Ensures-cases (c.laws.tries s.at (edge.byte ∷ []) s.frame.good)) [
                          | inl (a, t, e, stepped) ↦ Ensures-step _ (on_recognizer_ok trial v e) (
                              follow-Entered f rest (suc w.visited) node found edge is_edge inside
                                leads (record v { recognizer = t }) s.at a s.size s.sound
                                s.frame.good s.frame.at s.frame.sound s.chain refl
                                (leb→le _ _ open_limit) more e stepped)
                          | inr (x, t, e, (limit, same)) ↦
                              Ensures-stop _ (on_recognizer_err trial v e)
                                (limit, subst (c.After c.root) (sym same) from_root)
                        ]))))
                  (λ over.
                    (tt, c.laws.further c.root s.at w.recognizer from_root s.frame.after))))))
