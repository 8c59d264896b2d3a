-- ===== src/Engine/Walk/Emitting.antt =====
-- The tokens that end at a node are enabled when the node is first met.
use oc_earley.Prelude.{
  ℕ, zero, suc, ◌+◌, ◌-◌, ◌≤◌, ◌<◌, ◌/◌, ◌≡◌, ◌⊎◌, inl, inr, Bool, true, false, ◌||◌, ◌&&◌, some,
  List, [], ◌∷◌, length, get_elem?, take, drop, get_elem?-take, get_elem?-drop, lt_of_take, leb,
  contains, ◌==◌, ==→eq, Bool-cases, All, All-get_elem?, u64_max, checked_add, refl, sym, ap, ◌∙◌,
  arith, subst,
}
use mathlib.Core.Option.{some-injective}
use oc_earley.Error.{RuntimeError}
use oc_earley.Outcome.{ok, pure}
use oc_earley.Outcome.Rules.{
  or_fail_ok, Ensures, Ensures-bind, Ensures-step, Ensures-if, Ensures-pure, Ensures-last,
  Ensures-weaken,
}
use oc_earley.Vocabulary.Trie.{TrieNode, TrieEdge, TokenTrie}
use oc_earley.Engine.Recognizer.{RecognizerState, is_live}
use oc_earley.Engine.Walk.{TrieFrame, Walk, get_range, emit_tokens, emit}
use oc_earley.Engine.Walk.Spec.{is_allowed, Enabled, here, below, Follows, IsToken, NodeOk}
use oc_earley.Engine.Walk.Marking.{Kept, enable_each-is_allowed}
use oc_earley.Engine.Walk.Chain.{
  Setting, Beyond, Pending, FrameOk, Chain, Inv, Chain-map, on_recognizer_ok,
}

-- A list contains exactly its entries.
contains-get_elem? :
    (xs : List ℕ) (k : ℕ) → contains k xs ≡ true → (j : ℕ) × (get_elem? xs j ≡ some k)
unfolding contains
contains-get_elem? [] k h = cc
contains-get_elem? (x ∷ xs) k h = elim (Bool-cases (k == x)) [
  | inl q ↦ (0, ap some (sym (==→eq k x q)))
  | inr q ↦ let (j, e) = contains-get_elem? xs k (ground arith) in (suc j, e)
]

get_elem?-contains : (xs : List ℕ) (k j : ℕ) → get_elem? xs j ≡ some k → contains k xs ≡ true
unfolding contains
get_elem?-contains [] k j h = cc
get_elem?-contains (x ∷ xs) k zero h = ground arith
get_elem?-contains (x ∷ xs) k (suc j) h = ground (arith, get_elem?-contains xs k j h)

All-of_get_elem? {κ} :
    {P : ℕ → Type κ} (xs : List ℕ) → ((j x : ℕ) → get_elem? xs j ≡ some x → P x) → All P xs
All-of_get_elem? [] f = tt
All-of_get_elem? (x ∷ xs) f = (f 0 x refl, All-of_get_elem? xs (λ j y e. f (suc j) y e))

pub or_right : (b c : Bool) → c ≡ true → (b || c) ≡ true
or_right true c h = refl
or_right false c h = h

pub or_cases : (b c : Bool) → (b || c) ≡ true → (b ≡ true) ⊎ (c ≡ true)
or_cases true c h = inl refl
or_cases false c h = inr h

-- A token below a node ends at the node itself, or lies behind one of its edges.
split-Enabled :
    {fuel : ℕ} {trie : TokenTrie} {n : ℕ} {r : RecognizerState} {token : ℕ} (node : TrieNode)
    → get_elem? trie.nodes n ≡ some node
    → Enabled fuel trie n r token
    → ((is_live fuel r ≡ ok true r) × IsToken trie node token)
      ⊎ ((i : ℕ) × (edge : TrieEdge) × (t : RecognizerState) × (i < node.edge_len)
          × (get_elem? trie.edges (node.edge_start + i) ≡ some edge)
          × Follows fuel edge.byte r t
          × Enabled fuel trie edge.child t token)
split-Enabled {trie} {token} node found (here e live tok) =
    inl (live, subst (λ x. IsToken trie x token) (some-injective _ _ (sym e ∙ found)) tok)
split-Enabled {trie} node found (below {node = node'} {edge} i e inside is_edge follows enabled) =
    let same : node' ≡ node = some-injective _ _ (sym e ∙ found) in
    inr (
      i,
      edge,
      _,
      subst (λ x. i < x.edge_len) same inside,
      subst (λ x. get_elem? trie.edges (x.edge_start + i) ≡ some edge) same is_edge,
      follows,
      enabled,
    )

-- The range of a node's tokens.
module _ (trie : TokenTrie) (node : TrieNode)
    (inside : node.token_start + node.token_len ≤ length trie.terminal_ids) where
  abbrev pub ids_of : List ℕ
  ids_of = take node.token_len (drop node.token_start trie.terminal_ids)

  ids_range :
      get_range trie.terminal_ids node.token_start (node.token_start + node.token_len) ≡ some ids_of
  ids_range =
      let both : (leb node.token_start (node.token_start + node.token_len)
            && leb (node.token_start + node.token_len) (length trie.terminal_ids))
          ≡ true =
        ground arith in
      let len : node.token_start + node.token_len - node.token_start ≡ node.token_len =
        omega arith in
      rw (both, len) refl

  ids_of-get_elem? : (j k : ℕ) → get_elem? ids_of j ≡ some k → IsToken trie node k
  ids_of-get_elem? j k e =
      let short = lt_of_take node.token_len (drop node.token_start trie.terminal_ids) j e in
      (
        j,
        short,
        sym (get_elem?-drop node.token_start trie.terminal_ids j)
            ∙ sym (get_elem?-take node.token_len (drop node.token_start trie.terminal_ids) j short)
            ∙ e,
      )

  IsToken-contains : (k : ℕ) → IsToken trie node k → contains k ids_of ≡ true
  IsToken-contains k (j, short, e) = get_elem?-contains ids_of k j (
      get_elem?-take node.token_len (drop node.token_start trie.terminal_ids) j short
      ∙ get_elem?-drop node.token_start trie.terminal_ids j
      ∙ e)

module _ (c : Setting) where
  -- The frame's node is done with its own tokens.
  pub record Settled (f : TrieFrame) (rest : List TrieFrame) (visited : ℕ) (w : Walk) : Type 0 where
    pub size : length w.destination ≡ c.words
    pub sound : is_allowed w.destination c.token ≡ true → c.Goal
    pub visited_same : w.visited ≡ visited
    pub at : RecognizerState
    pub frame : FrameOk c f at w.recognizer
    pub chain :
        Chain c rest at ((is_allowed w.destination c.token ≡ true) ⊎ Beyond c f.node f.next_edge at)

  -- The node's tokens are enabled, and no bit is taken away.
  record Marked (node : TrieNode) (w u : Walk) : Type 0 where
    kept : Kept w u
    new : IsToken c.trie node c.token → is_allowed u.destination c.token ≡ true
    old : is_allowed w.destination c.token ≡ true → is_allowed u.destination c.token ≡ true
    only :
        is_allowed u.destination c.token ≡ true
        → (is_allowed w.destination c.token ≡ true) ⊎ IsToken c.trie node c.token

  to_Marked :
      (node : TrieNode) (inside : node.token_start + node.token_len ≤ length c.trie.terminal_ids)
      (w u : Walk)
      → Kept w u
      → is_allowed u.destination c.token
        ≡ (contains c.token (ids_of c.trie node inside) || is_allowed w.destination c.token)
      → Marked node w u
  to_Marked node inside w u kept mark = record {
    kept = kept;
    new = λ t.
        mark
        ∙ ap (λ b. b || is_allowed w.destination c.token)
            (IsToken-contains c.trie node inside c.token t);
    old = λ h. mark ∙ or_right _ _ h;
    only = λ h. elim (or_cases _ _ (sym mark ∙ h)) [
      | inl q ↦
          let (j, e) = contains-get_elem? (ids_of c.trie node inside) c.token q in
          inr (ids_of-get_elem? c.trie node inside j c.token e)
      | inr q ↦ inl q
    ];
  }

  emit_tokens-Marked :
      {Q : RuntimeError → Walk → Type 0} (node : TrieNode) (w : Walk)
      → NodeOk c.trie node
      → length w.destination ≡ c.words
      → Ensures (λ _ u. Marked node w u) Q (emit_tokens c.trie node w)
  unfolding emit_tokens
  emit_tokens-Marked node w fine size =
      let ids = ids_of c.trie node fine.token_end in
      let small : leb (node.token_start + node.token_len) u64_max ≡ true =
        ground (arith, fine.token_end, c.trie_ok.size) in
      let end : checked_add node.token_start node.token_len
          ≡ some (node.token_start + node.token_len) =
        rw small refl in
      Ensures-step _ (or_fail_ok _ _ w end) (
        Ensures-step _ (or_fail_ok _ _ w (ids_range c.trie node fine.token_end)) (
          Ensures-weaken (λ _ u (kept, mark). to_Marked node fine.token_end w u kept mark)
            (λ _ _ q. q)
            (enable_each-is_allowed ids c.token w (
              All-of_get_elem? ids (λ j x e.
                let (i, _, q) = ids_of-get_elem? c.trie node fine.token_end j x e in
                subst (λ n. x / 32 < n) (sym size)
                  (All-get_elem? _ c.trie.terminal_ids (node.token_start + i) c.trie_ok.ids q))))))

  module _ (f : TrieFrame) (rest : List TrieFrame) (w : Walk) (r : RecognizerState)
      (node : TrieNode) (found : get_elem? c.trie.nodes f.node ≡ some node)
      (fresh : f.emitted ≡ false) (invariant : Inv c w) (frame : FrameOk c f r w.recognizer)
      (chain : Chain c rest r ((is_allowed w.destination c.token ≡ true) ⊎ Pending c f r)) where
    still-Pending :
        (P : Type 0)
        → (is_live c.fuel r ≡ ok true r → IsToken c.trie node c.token → P)
        → Pending c f r
        → P ⊎ Beyond c f.node f.next_edge r
    still-Pending P new (inl (_, whole)) = elim (split-Enabled node found whole) [
      | inl (live, tok) ↦ inl (new live tok)
      | inr (i, edge, t, inside, is_edge, follows, enabled) ↦ inr (record {
        node = node;
        index = i;
        edge = edge;
        target = t;
        is_node = found;
        ahead = omega (arith, (frame.fresh fresh).1);
        inside = inside;
        is_edge = is_edge;
        follows = follows;
        enabled = enabled;
      })
    ]
    still-Pending P new (inr (done, _)) = cc

    -- The node's tokens are enabled if the recognizer is live.
    Emitted : Bool → Walk → Type 0
    Emitted b u =
        Kept w u
        × (b ≡ true → IsToken c.trie node c.token → is_allowed u.destination c.token ≡ true)
        × (is_allowed w.destination c.token ≡ true → is_allowed u.destination c.token ≡ true)
        × (is_allowed u.destination c.token ≡ true
            → (is_allowed w.destination c.token ≡ true)
              ⊎ ((b ≡ true) × IsToken c.trie node c.token))

    Emitted-Settled :
        (b : Bool) (stack : List TrieFrame) (u : Walk)
        → is_live c.fuel r ≡ ok b r
        → Emitted b u
        → Settled f rest w.visited (record u { stack = stack })
    unfolding Emitted
    Emitted-Settled b stack u says (kept, new, old, only) = record {
      size = kept.size ∙ invariant.size;
      sound = λ h. elim (only h) [
        | inl q ↦ invariant.sound q
        | inr (alive, tok) ↦ frame.sound (here found (says ∙ ap (λ b. ok b r) alive) tok)
      ];
      visited_same = kept.visited;
      at = r;
      frame = subst (FrameOk c f r) (sym kept.recognizer) frame;
      chain =
          Chain-map c rest r
            (λ h. elim h [
              | inl q ↦ inl (old q)
              | inr q ↦
                  still-Pending (is_allowed u.destination c.token ≡ true)
                    (λ live. let e : b ≡ true = cc in new e) q
            ])
            chain;
    }

    pub emit-Settled :
        {Q : RuntimeError → Walk → Type 0}
        → Ensures (λ _ u. Settled f rest w.visited u) Q (emit c.fuel c.trie f rest node w)
    unfolding emit Emitted
    emit-Settled =
        let (b, says) = c.laws.says_live r frame.good in
        let same = (frame.fresh fresh).0 in
        let says' : is_live c.fuel w.recognizer ≡ ok b w.recognizer =
          subst (λ x. is_live c.fuel x ≡ ok b x) (sym same) says in
        Ensures-step _ (on_recognizer_ok (is_live c.fuel) w says') (
          Ensures-bind {P = λ _. Emitted b} _
            (Ensures-if b (emit_tokens c.trie node) (pure tt) w
              (λ q.
                Ensures-weaken
                  (λ _ u m. (
                    m.kept,
                    λ _. m.new,
                    m.old,
                    λ h. elim (m.only h) [ inl p ↦ inl p | inr tok ↦ inr (q, tok) ],
                  ))
                  (λ _ _ h. h)
                  (emit_tokens-Marked node w (c.trie_ok.nodes f.node node found) invariant.size))
              (λ q. Ensures-pure tt w (
                record { recognizer = refl; stack = refl; visited = refl; size = refl },
                λ yes_live. cc,
                λ h. h,
                λ h. inl h,
              )))
            (λ _ u h. Ensures-last _ _ (Emitted-Settled b _ u says h)))
