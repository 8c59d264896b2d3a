-- ===== src/Engine/Walk/Ending.antt =====
-- The loop of the walk ends within its rounds.
use oc_earley.Prelude.{
  ℕ, zero, suc, ◌+◌, ◌-◌, ◌*◌, ◌<◌, ◌≡◌, ◌⊎◌, inl, inr, true, List, [], ◌∷◌, length, get_elem?-lt,
  leb, leb→le, leb→gt, refl, sym, ap, arith, subst,
}
use oc_earley.Outcome.{pure}
use oc_earley.Outcome.Rules.{
  or_fail_ok, Ensures, Ensures-bind, Ensures-step, Ensures-if, Ensures-pure, Ensures-weaken,
  Ensures-get, Ensures-modify, Ensures-list,
}
use oc_earley.Engine.Mask.{MaskStats}
use oc_earley.Engine.Recognizer.{RecognizerState}
use oc_earley.Engine.Walk.{TrieFrame, Walk, emit, leave, take_edge, walk_frame, walk}
use oc_earley.Engine.Walk.Spec.{is_allowed}
use oc_earley.Engine.Walk.Chain.{Setting, Pending, FrameOk, Chain, Inv, Chain-map}
use oc_earley.Engine.Walk.Emitting.{Settled, emit-Settled}
use oc_earley.Engine.Walk.Rounds.{Failed, leave-Inv, take_edge-Inv}

module _ (c : Setting) where
  -- Every round makes this smaller: an edge that is taken adds at most one frame.
  abbrev pub rounds_left : Walk → ℕ
  rounds_left w = (c.limits.max_mask_trie_edges - w.visited) * 2 + length w.stack

  -- The statistics play no part.
  restat : (w : Walk) (t : MaskStats) → Inv c w → Inv c (record w { stats = t })
  restat w t i = record { size = i.size; sound = i.sound; chain = i.chain; within = i.within }

  was_emitted :
      (f : TrieFrame) (rest : List TrieFrame) (w : Walk) (r : RecognizerState)
      → f.emitted ≡ true
      → Inv c w
      → FrameOk c f r w.recognizer
      → Chain c rest r ((is_allowed w.destination c.token ≡ true) ⊎ Pending c f r)
      → Settled c f rest w.visited w
  was_emitted f rest w r done i frame chain = record {
    size = i.size;
    sound = i.sound;
    visited_same = refl;
    at = r;
    frame = frame;
    chain =
        Chain-map c rest r
          (λ h. elim h [ inl p ↦ inl p | inr (inl (fresh, _)) ↦ cc | inr (inr (_, b)) ↦ inr b ])
          chain;
  }

  walk_frame-Inv :
      (f : TrieFrame) (rest : List TrieFrame) (w : Walk)
      → Inv c w
      → w.stack ≡ f ∷ rest
      → Ensures
          (λ _ u. Inv c u × (rounds_left u < rounds_left w))
          (Failed c)
          (walk_frame c.fuel c.limits c.trie f rest w)
  unfolding walk_frame
  walk_frame-Inv f rest w i stack =
      let P : Type 0 = is_allowed w.destination c.token ≡ true in
      let (r, frame, chain) = subst (λ st. Chain c st w.recognizer P) stack i.chain in
      let (node, found) = get_elem?-lt c.trie.nodes f.node frame.exists in
      Ensures-get _ _ (
        Ensures-modify _ _ _ (
          Ensures-step _ (or_fail_ok _ _ _ found) (
            Ensures-bind {P = λ _ u. Settled c f rest w.visited u} _
              (Ensures-if f.emitted (pure tt) (emit c.fuel c.trie f rest node) _
                (λ done. Ensures-pure tt _ (was_emitted f rest _ r done (restat w _ i) frame chain))
                (λ fresh. emit-Settled c f rest _ r node found fresh (restat w _ i) frame chain))
              (λ _ u s.
                Ensures-if (leb node.edge_len f.next_edge) (leave f rest)
                  (take_edge c.fuel c.limits c.trie f rest node) u
                  (λ last.
                    Ensures-weaken
                      (λ _ v (i', st, vis). (i', omega (arith, ap length st, ap length stack)))
                      (λ _ _ q. q)
                      (leave-Inv c f rest w.visited node found u s i.within (leb→le _ _ last)))
                  (λ more.
                    Ensures-weaken
                      (λ _ v (i', vis, st).
                        (i', omega (arith, i'.within, vis, s.visited_same, st, ap length stack)))
                      (λ _ _ q. q)
                      (take_edge-Inv c f rest node found u
                        (subst (λ n. Settled c f rest n u) (sym s.visited_same) s)
                        (omega (arith, i.within, s.visited_same)) (leb→gt _ _ more)))))))

  -- The loop ends before its rounds do, with an empty stack.
  pub walk-Inv :
      (n : ℕ) (w : Walk)
      → Inv c w
      → rounds_left w < n
      → Ensures (λ _ u. Inv c u × (u.stack ≡ [])) (Failed c) (walk c.fuel c.limits c.trie n w)
  unfolding walk
  walk-Inv zero w i short = absurd (omega arith)
  walk-Inv (suc n) w i short = Ensures-get _ _ (
      Ensures-list w.stack (pure tt) _ w (λ none_left. Ensures-pure tt w (i, none_left))
        (λ f rest stack.
          Ensures-bind _ (walk_frame-Inv f rest w i stack)
            (λ _ u (i', less). walk-Inv n u i' (omega (arith, less)))))
