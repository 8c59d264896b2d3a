-- ===== src/Vocabulary/Build/Growing.antt =====
-- src/vocabulary/reverse.rs: the nodes that grow as tokens are inserted, and the whole of `build`.
use oc_earley.Prelude.{
  ℕ, suc, ◌≤◌, ◌<◌, ◌≡◌, inl, inr, Bool-cases, Option, none, some, List, [], ◌∷◌, ◌++◌, length,
  length-append_one, length-set, get_elem?, get_elem?-lt, set, All, All-map, All-append, All-set,
  All-get_elem?, All-find, All-sort_by_key, All-dedup_by_key, find, ltb, lex_eq, refl, sym, ap, ◌∙◌,
  subst, arith,
}
use oc_earley.Outcome.{guard}
use oc_earley.Outcome.Rules.{
  Ensures, holds, fails, Ensures-bind, Ensures-get, Ensures-guard, Ensures-modify, Ensures-last,
  Ensures-pure, Ensures-weaken, Ensures-or_panic, Ensures-option, Ensures-for_each,
}
use oc_earley.Error.{CompileLimits}
use oc_earley.Vocabulary.Build.{
  BuildError, BuildNode, Building, insert_child, add_child, step_byte, insert_bytes, claim_slot,
  add_id, sorted_ids, insert_entry,
}
use oc_earley.Vocabulary.Build.Layout.{Sound}

-- The nodes so far, for so many slots and tokens that all fit.
pub record Grown (slots : ℕ) (Fits : ℕ → Type 0) (b : Building) : Type 0 where
  pub sound : All (Sound (length b.build_nodes) Fits) b.build_nodes
  pub some_node : 0 < length b.build_nodes
  pub reverse : length b.reverse ≡ slots

Sound-wider :
    (n m : ℕ) (Fits : ℕ → Type 0) (nodes : List BuildNode)
    → n ≤ m
    → All (Sound n Fits) nodes
    → All (Sound m Fits) nodes
Sound-wider n m Fits nodes h all =
    All-map nodes (λ x (cs, ids). (All-map x.children (λ c lt. omega (arith, lt)) cs, ids)) all

pub All-insert_child :
    (P : ℕ × ℕ → Type 0) (byte child : ℕ) (cs : List (ℕ × ℕ))
    → P (byte, child)
    → All P cs
    → All P (insert_child byte child cs)
unfolding insert_child
All-insert_child P byte child [] p h = (p, tt)
All-insert_child P byte child ((b, c) ∷ rest) p h = elim (Bool-cases (ltb byte b)) [
  | inl q ↦ rw q (p, h)
  | inr q ↦ rw q (h.0, All-insert_child P byte child rest p h.1)
]

-- Every error is allowed.
abbrev pub Fails : {S : Type 0} → BuildError → S → Type 0
Fails e s = Unit {0}

module _ (limits : CompileLimits) (slots : ℕ) (Fits : ℕ → Type 0) where
  -- A node that was reached, among at least as many nodes.
  abbrev Reached : Building → ℕ → Building → Type 0
  Reached b node u =
      Grown slots Fits u
      × (node < length u.build_nodes)
      × (length b.build_nodes ≤ length u.build_nodes)

  abbrev new_node : BuildNode
  new_node = record { children = []; terminal_ids = [] }

  abbrev with_child : ℕ → BuildNode → ℕ → Building → Building
  with_child node here byte b = record b {
    build_nodes =
        set (b.build_nodes ++ new_node ∷ []) node
          (record here { children = insert_child byte (length b.build_nodes) here.children });
  }

  child_added :
      (node : ℕ) (here : BuildNode) (byte : ℕ) (b : Building)
      → Grown slots Fits b
      → get_elem? b.build_nodes node ≡ some here
      → Reached b (length b.build_nodes) (with_child node here byte b)
  child_added node here byte b g found =
      let count = length b.build_nodes in
      let (cs, ids) = All-get_elem? _ b.build_nodes node g.sound found in
      let u = with_child node here byte b in
      let size : length u.build_nodes ≡ suc count =
        length-set (b.build_nodes ++ new_node ∷ []) node _
        ∙ length-append_one b.build_nodes new_node in
      (
        record {
          sound =
              subst (λ n. All (Sound n Fits) u.build_nodes) (sym size)
                (All-set _ (b.build_nodes ++ new_node ∷ []) node _
                  (
                    All-insert_child _ byte count here.children (omega arith)
                        (All-map here.children (λ c lt. omega (arith, lt)) cs),
                    ids,
                  )
                  (All-append _ b.build_nodes (new_node ∷ [])
                    (Sound-wider count (suc count) Fits b.build_nodes (omega arith) g.sound)
                    ((tt, tt), tt)));
          some_node = omega (arith, size);
          reverse = g.reverse;
        },
        omega (arith, size),
        omega (arith, size),
      )

  add_child-Reached :
      (node : ℕ) (here : BuildNode) (byte : ℕ) (b : Building)
      → Grown slots Fits b
      → get_elem? b.build_nodes node ≡ some here
      → Ensures (Reached b) Fails (add_child limits node here byte b)
  unfolding add_child
  add_child-Reached node here byte b g found = Ensures-get b _ (
      Ensures-guard _ _ b _
        (λ _. Ensures-modify _ b _ (Ensures-pure _ _ (child_added node here byte b g found)))
        (λ _. tt))

  step_byte-Reached :
      (node byte : ℕ) (b : Building)
      → Grown slots Fits b
      → node < length b.build_nodes
      → Ensures (Reached b) Fails (step_byte limits node byte b)
  unfolding step_byte
  step_byte-Reached node byte b g lt =
      let (here, found) = get_elem?-lt b.build_nodes node lt in
      let (cs, ids) = All-get_elem? _ b.build_nodes node g.sound found in
      Ensures-get b _ (
        Ensures-or_panic _ b _ found (
          Ensures-option (find byte here.children) (add_child limits node here byte) _ b
            (λ _. add_child-Reached node here byte b g found)
            (λ child e. Ensures-pure child b (
              g,
              All-find (λ _ v. v < length b.build_nodes) byte here.children cs e,
              omega arith,
            ))))

  insert_bytes-Reached :
      (bytes : List ℕ) (node : ℕ) (b : Building)
      → Grown slots Fits b
      → node < length b.build_nodes
      → Ensures (Reached b) Fails (insert_bytes limits node bytes b)
  unfolding insert_bytes
  insert_bytes-Reached [] node b g lt = Ensures-pure node b (g, lt, omega arith)
  insert_bytes-Reached (byte ∷ bytes) node b g lt =
      Ensures-bind _ (step_byte-Reached node byte b g lt) λ child u (g', lt', more).
        Ensures-weaken (λ c v (g'', l, m). (g'', l, omega (arith, more, m))) (λ _ _ q. q)
          (insert_bytes-Reached bytes child u g' lt')

  -- The slots and the nodes' number stay, and a token is noted at its node.
  claim_slot-Grown :
      (bytes : List ℕ) (id : ℕ) (entry : Option (List ℕ)) (b : Building)
      → Grown slots Fits b
      → Ensures
          (λ _ u. Grown slots Fits u × (u.build_nodes ≡ b.build_nodes))
          Fails
          (claim_slot bytes id entry b)
  unfolding claim_slot guard
  claim_slot-Grown bytes id none b g = Ensures-last _ b (
    record {
      sound = g.sound;
      some_node = g.some_node;
      reverse = length-set b.reverse id _ ∙ g.reverse;
    },
    refl,
  )
  claim_slot-Grown bytes id (some existing) b g = elim (Bool-cases (lex_eq existing bytes)) [
    | inl q ↦ rw q (holds (g, refl))
    | inr q ↦ rw q (fails tt)
  ]

  add_id-Grown :
      (bytes : List ℕ) (node id : ℕ) (b : Building)
      → id < slots
      → Fits id
      → Grown slots Fits b × (node < length b.build_nodes)
      → Ensures
          (λ _ u. Grown slots Fits u × (node < length u.build_nodes))
          Fails
          (add_id bytes node id b)
  unfolding add_id
  add_id-Grown bytes node id b fits bit (g, lt) =
      let (entry, slot) = get_elem?-lt b.reverse id (omega (arith, g.reverse)) in
      Ensures-get b _ (
        Ensures-or_panic _ b _ slot (
          Ensures-bind _ (claim_slot-Grown bytes id entry b g) λ _ u (g', same).
            let lt' : node < length u.build_nodes = omega (arith, lt, ap length same) in
            let (here, found) = get_elem?-lt u.build_nodes node lt' in
            let (cs, ids) = All-get_elem? _ u.build_nodes node g'.sound found in
            let v : BuildNode = record here { terminal_ids = here.terminal_ids ++ id ∷ [] } in
            let size = length-set u.build_nodes node v in
            Ensures-get u _ (
              Ensures-or_panic _ u _ found (
                Ensures-last _ u (
                  record {
                    sound =
                        subst (λ n. All (Sound n Fits) (set u.build_nodes node v)) (sym size)
                          (All-set _ u.build_nodes node v
                            (cs, All-append _ here.terminal_ids (id ∷ []) ids (bit, tt)) g'.sound);
                    some_node = omega (arith, size, lt');
                    reverse = g'.reverse;
                  },
                  omega (arith, size, lt'),
                )))))

  pub insert_entry-Grown :
      (bytes ids : List ℕ) (b : Building)
      → All (λ id. (id < slots) × (Fits id)) ids
      → Grown slots Fits b
      → Ensures (λ _ u. Grown slots Fits u) Fails (insert_entry limits (bytes, ids) b)
  unfolding insert_entry
  insert_entry-Grown bytes ids b fit g =
      Ensures-bind _ (insert_bytes-Reached bytes 0 b g g.some_node) λ node u (g', lt, _).
        Ensures-weaken (λ _ v (g'', _). g'') (λ _ _ q. q)
          (Ensures-for_each (λ v. Grown slots Fits v × (node < length v.build_nodes))
            (λ id. (id < slots) × (Fits id)) (add_id bytes node) (sorted_ids ids)
            (λ id v (fits, bit) h. add_id-Grown bytes node id v fits bit h)
            (All-dedup_by_key _ _ _ (All-sort_by_key _ _ ids fit)) u (g', lt))
