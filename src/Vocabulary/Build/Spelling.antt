-- ===== src/Vocabulary/Build/Spelling.antt =====
-- src/vocabulary/reverse.rs: every node that grows stands for the bytes on the way to it, and the
-- slots of its tokens hold those bytes.
use oc_earley.Prelude.{
  ℕ, suc, ◌<◌, ◌≤◌, ◌≡◌, inl, inr, Bool-cases, true, Option, none, some, List, [], ◌∷◌, ◌++◌,
  length, length-append_one, length-set, get_elem?, get_elem?-lt, lt_of_get_elem?,
  get_elem?-append_cases, get_elem?-set_same, get_elem?-set_other, get_elem?-set_either, set, All,
  All-map, All-append, All-find, All-sort_by_key, All-dedup_by_key, find, lex_eq, ◌==◌, ==→eq,
  ==→neq, if◌then◌else◌, append-nil, append_assoc, refl, sym, ap, ◌∙◌, arith,
}
use mathlib.Core.Option.{some-injective}
use oc_earley.Outcome.{guard}
use oc_earley.Outcome.Rules.{
  Ensures, holds, fails, Ensures-bind, Ensures-get, Ensures-guard, Ensures-modify, Ensures-last,
  Ensures-pure, Ensures-weaken, Ensures-or_panic, Ensures-option, Ensures-for_each,
}
use oc_earley.Error.{CompileLimits}
use oc_earley.Vocabulary.Build.{
  BuildNode, Building, insert_child, add_child, step_byte, insert_bytes, claim_slot, add_id,
  sorted_ids, insert_entry,
}
use oc_earley.Vocabulary.Build.Growing.{All-insert_child, Fails}

-- What the node at an index says: its children stand for one byte more, and the slots of its tokens
-- hold its bytes.
pub record Says (label : ℕ → List ℕ) (b : Building) (n : ℕ) (node : BuildNode) : Type 0 where
  pub children :
      All
        (λ (c : ℕ × ℕ). (c.1 < length b.build_nodes) × (label c.1 ≡ label n ++ c.0 ∷ []))
        node.children
  pub ids : All (λ id. get_elem? b.reverse id ≡ some (some (label n))) node.terminal_ids

-- All nodes do, the first for no bytes.
pub record Spelled (slots : ℕ) (label : ℕ → List ℕ) (b : Building) : Type 0 where
  pub root : label 0 ≡ []
  pub some_node : 0 < length b.build_nodes
  pub reverse : length b.reverse ≡ slots
  pub nodes :
      (n : ℕ) (node : BuildNode) → get_elem? b.build_nodes n ≡ some node → Says label b n node

Says-carried :
    (label : ℕ → List ℕ) (b u : Building) (n : ℕ) (node : BuildNode)
    → length b.build_nodes ≤ length u.build_nodes
    → u.reverse ≡ b.reverse
    → Says label b n node
    → Says label u n node
Says-carried label b u n node h same s = record {
  children = All-map node.children (λ c (lt, e). (omega (arith, lt), e)) s.children;
  ids = All-map node.terminal_ids (λ id e. ap (λ r. get_elem? r id) same ∙ e) s.ids;
}

-- A label for one more node.
abbrev relabel : (ℕ → List ℕ) → ℕ → List ℕ → ℕ → List ℕ
relabel label k bytes i = if i == k then bytes else label i

relabel_same : (label : ℕ → List ℕ) (k : ℕ) (bytes : List ℕ) → relabel label k bytes k ≡ bytes
relabel_same label k bytes = elim (Bool-cases (k == k)) [
  | inl q ↦ rw q refl
  | inr q ↦ absurd (==→neq k k q refl)
]

relabel_other :
    (label : ℕ → List ℕ) (k : ℕ) (bytes : List ℕ) (i : ℕ)
    → i < k
    → relabel label k bytes i ≡ label i
relabel_other label k bytes i h = elim (Bool-cases (i == k)) [
  | inl q ↦ absurd (omega (arith, ==→eq i k q))
  | inr q ↦ rw q refl
]

lex_eq→eq : (xs ys : List ℕ) → lex_eq xs ys ≡ true → xs ≡ ys
unfolding lex_eq
lex_eq→eq [] [] h = refl
lex_eq→eq [] (y ∷ ys) h = cc
lex_eq→eq (x ∷ xs) [] h = cc
lex_eq→eq (x ∷ xs) (y ∷ ys) h = elim (Bool-cases (x == y)) [
  | inl q ↦ rw (==→eq x y q) (ap (◌∷◌ y) (lex_eq→eq xs ys (rw q at h)))
  | inr q ↦ cc (rw q at h)
]

module _ (limits : CompileLimits) (slots : ℕ) where
  -- A node that stands for these bytes.
  abbrev pub Stands : List ℕ → ℕ → Building → Type 0
  Stands bytes node b =
      (label : ℕ → List ℕ) × Spelled slots label b
      × (node < length b.build_nodes)
      × (label node ≡ bytes)

  abbrev new_node : BuildNode
  new_node = record { children = []; terminal_ids = [] }

  module _ (label : ℕ → List ℕ) (b : Building) (s : Spelled slots label b) (node : ℕ)
      (here : BuildNode) (found : get_elem? b.build_nodes node ≡ some here) (byte : ℕ) where
    abbrev count : ℕ
    count = length b.build_nodes

    abbrev label' : ℕ → List ℕ
    label' = relabel label count (label node ++ byte ∷ [])

    abbrev grown : BuildNode
    grown = record here { children = insert_child byte count here.children }

    abbrev u : Building
    u = record b { build_nodes = set (b.build_nodes ++ new_node ∷ []) node grown }

    size : length u.build_nodes ≡ suc count
    size =
        length-set (b.build_nodes ++ new_node ∷ []) node grown
        ∙ length-append_one b.build_nodes new_node

    kept : (i : ℕ) → i < count → label' i ≡ label i
    kept i h = relabel_other label count (label node ++ byte ∷ []) i h

    child_kept :
        (n : ℕ) (c : ℕ × ℕ)
        → n < count
        → (c.1 < count) × (label c.1 ≡ label n ++ c.0 ∷ [])
        → (c.1 < length u.build_nodes) × (label' c.1 ≡ label' n ++ c.0 ∷ [])
    child_kept n c before (lt, e) =
        (omega (arith, lt, size), kept c.1 lt ∙ e ∙ ap (λ l. l ++ c.0 ∷ []) (sym (kept n before)))

    Says-kept : (n : ℕ) (x : BuildNode) → n < count → Says label b n x → Says label' u n x
    Says-kept n x before w = record {
      children = All-map x.children (λ c h. child_kept n c before h) w.children;
      ids =
          All-map x.terminal_ids (λ id e. e ∙ ap (λ l. some (some l)) (sym (kept n before))) w.ids;
    }

    Says-grown : Says label' u node grown
    Says-grown =
        let before = lt_of_get_elem? b.build_nodes node found in
        let w = Says-kept node here before (s.nodes node here found) in
        record {
          children =
              All-insert_child _ byte count here.children
                (
                  omega (arith, size),
                  relabel_same label count (label node ++ byte ∷ [])
                      ∙ ap (λ l. l ++ byte ∷ []) (sym (kept node before)),
                )
                w.children;
          ids = w.ids;
        }

    grown-Spelled : Spelled slots label' u
    grown-Spelled = record {
      root = kept 0 s.some_node ∙ s.root;
      some_node = omega (arith, size);
      reverse = s.reverse;
      nodes = λ n x e. elim (get_elem?-set_either (b.build_nodes ++ new_node ∷ []) node grown n e) [
        | inl (at, same) ↦ rw (at, same) Says-grown
        | inr e' ↦ elim (get_elem?-append_cases b.build_nodes new_node n e') [
          | inl old ↦ Says-kept n x (lt_of_get_elem? b.build_nodes n old) (s.nodes n x old)
          | inr (_, same) ↦ rw (← same) (record { children = tt; ids = tt })
        ]
      ];
    }

    pub add_child-Stands :
        Ensures (Stands (label node ++ byte ∷ [])) Fails (add_child limits node here byte b)
    unfolding add_child
    add_child-Stands = Ensures-get b _ (
        Ensures-guard _ _ b _
          (λ _. Ensures-modify _ b _ (
            Ensures-pure _ _ (
              label',
              grown-Spelled,
              omega (arith, size),
              relabel_same label count (label node ++ byte ∷ []),
            )))
          (λ _. tt))

  step_byte-Stands :
      (label : ℕ → List ℕ) (b : Building) (node byte : ℕ)
      → Spelled slots label b
      → node < length b.build_nodes
      → Ensures (Stands (label node ++ byte ∷ [])) Fails (step_byte limits node byte b)
  unfolding step_byte
  step_byte-Stands label b node byte s lt =
      let (here, found) = get_elem?-lt b.build_nodes node lt in
      Ensures-get b _ (
        Ensures-or_panic _ b _ found (
          Ensures-option (find byte here.children) (add_child limits node here byte) _ b
            (λ _. add_child-Stands label b s node here found byte)
            (λ child e.
              let (small, same) =
                All-find (λ k c. (c < length b.build_nodes) × (label c ≡ label node ++ k ∷ [])) byte
                  here.children (s.nodes node here found).children e in
              Ensures-pure child b (label, s, small, same))))

  insert_bytes-Stands :
      (bytes : List ℕ) (label : ℕ → List ℕ) (b : Building) (node : ℕ)
      → Spelled slots label b
      → node < length b.build_nodes
      → Ensures (Stands (label node ++ bytes)) Fails (insert_bytes limits node bytes b)
  unfolding insert_bytes
  insert_bytes-Stands [] label b node s lt =
      Ensures-pure node b (label, s, lt, sym (append-nil (label node)))
  insert_bytes-Stands (byte ∷ bytes) label b node s lt =
      Ensures-bind _ (step_byte-Stands label b node byte s lt) λ child v (label₁, s₁, lt₁, e₁).
        Ensures-weaken
          (λ c w (label₂, s₂, lt₂, e₂). (
            label₂,
            s₂,
            lt₂,
            e₂ ∙ ap (λ l. l ++ bytes) e₁ ∙ append_assoc (label node) (byte ∷ []) bytes,
          ))
          (λ _ _ q. q) (insert_bytes-Stands bytes label₁ v child s₁ lt₁)

  module _ (label : ℕ → List ℕ) (bytes : List ℕ) where
    claimed :
        (b : Building) (id id' : ℕ) (l : List ℕ)
        → get_elem? b.reverse id ≡ some none
        → get_elem? b.reverse id' ≡ some (some l)
        → get_elem? (set b.reverse id (some bytes)) id' ≡ some (some l)
    claimed b id id' l empty full = elim (Bool-cases (id == id')) [
      | inl q ↦
          let same = ==→eq id id' q in
          let c : none ≡ some l = some-injective _ _ (sym (rw same at empty) ∙ full) in cc
      | inr q ↦ get_elem?-set_other b.reverse id id' (some bytes) (==→neq id id' q) ∙ full
    ]

    -- The token's slot holds the bytes afterwards.
    claim_slot-Spelled :
        (id : ℕ) (entry : Option (List ℕ)) (b : Building)
        → get_elem? b.reverse id ≡ some entry
        → Spelled slots label b
        → Ensures
            (λ _ u.
              Spelled slots label u
              × (u.build_nodes ≡ b.build_nodes)
              × (get_elem? u.reverse id ≡ some (some bytes)))
            Fails
            (claim_slot bytes id entry b)
    unfolding claim_slot guard
    claim_slot-Spelled id none b slot s = Ensures-last _ b (
      record {
        root = s.root;
        some_node = s.some_node;
        reverse = length-set b.reverse id _ ∙ s.reverse;
        nodes = λ n x e.
            let w = s.nodes n x e in
            record {
              children = w.children;
              ids = All-map x.terminal_ids (λ id' full. claimed b id id' (label n) slot full) w.ids;
            };
      },
      refl,
      get_elem?-set_same b.reverse id (some bytes) slot,
    )
    claim_slot-Spelled id (some existing) b slot s = elim (Bool-cases (lex_eq existing bytes)) [
      | inl q ↦ rw q (holds (s, refl, slot ∙ ap (λ l. some (some l)) (lex_eq→eq existing bytes q)))
      | inr q ↦ rw q (fails tt)
    ]

    module _ (node : ℕ) (stands : label node ≡ bytes) where
      with_id-Spelled :
          (id : ℕ) (b : Building) (here : BuildNode)
          → Spelled slots label b
          → get_elem? b.reverse id ≡ some (some bytes)
          → get_elem? b.build_nodes node ≡ some here
          → Spelled slots label (record b {
            build_nodes =
                set b.build_nodes node
                  (record here { terminal_ids = here.terminal_ids ++ id ∷ [] });
          })
      with_id-Spelled id b here s slot found =
          let v : BuildNode = record here { terminal_ids = here.terminal_ids ++ id ∷ [] } in
          let size = length-set b.build_nodes node v in
          let w : Building = record b { build_nodes = set b.build_nodes node v } in
          let old = s.nodes node here found in
          record {
            root = s.root;
            some_node = omega (arith, size, s.some_node);
            reverse = s.reverse;
            nodes = λ n x e. elim (get_elem?-set_either b.build_nodes node v n e) [
              | inl (at, same) ↦
                  rw (at, same)
                    (Says-carried label b w node v (omega (arith, size)) refl (record {
                      children = old.children;
                      ids =
                          All-append _ here.terminal_ids (id ∷ []) old.ids
                            (slot ∙ ap (λ l. some (some l)) (sym stands), tt);
                    }))
              | inr e' ↦ Says-carried label b w n x (omega (arith, size)) refl (s.nodes n x e')
            ];
          }

      add_id-Spelled :
          (id : ℕ) (b : Building)
          → id < slots
          → Spelled slots label b × (node < length b.build_nodes)
          → Ensures
              (λ _ u. Spelled slots label u × (node < length u.build_nodes))
              Fails
              (add_id bytes node id b)
      unfolding add_id
      add_id-Spelled id b fits (s, lt) =
          let (entry, slot) = get_elem?-lt b.reverse id (omega (arith, s.reverse)) in
          Ensures-get b _ (
            Ensures-or_panic _ b _ slot (
              Ensures-bind _ (claim_slot-Spelled id entry b slot s) λ _ u (s', same, held).
                let lt' : node < length u.build_nodes = omega (arith, lt, ap length same) in
                let (here, found) = get_elem?-lt u.build_nodes node lt' in
                Ensures-get u _ (
                  Ensures-or_panic _ u _ found (
                    Ensures-last _ u (
                      with_id-Spelled id u here s' held found,
                      omega (
                        arith,
                        lt',
                        length-set u.build_nodes node
                            (record here { terminal_ids = here.terminal_ids ++ id ∷ [] }),
                      ),
                    )))))

  -- Some labels spell the nodes.
  abbrev pub IsSpelled : Building → Type 0
  IsSpelled b = (label : ℕ → List ℕ) × Spelled slots label b

  pub insert_entry-IsSpelled :
      (bytes ids : List ℕ) (b : Building)
      → All (λ id. id < slots) ids
      → IsSpelled b
      → Ensures (λ _. IsSpelled) Fails (insert_entry limits (bytes, ids) b)
  unfolding insert_entry
  insert_entry-IsSpelled bytes ids b fit (label, s) =
      Ensures-bind _ (insert_bytes-Stands bytes label b 0 s s.some_node)
        λ node u (label₁, s₁, lt, e).
          let stands : label₁ node ≡ bytes = e ∙ ap (λ l. l ++ bytes) s.root in
          Ensures-weaken (λ _ v (s₂, _). (label₁, s₂)) (λ _ _ q. q)
            (Ensures-for_each (λ v. Spelled slots label₁ v × (node < length v.build_nodes))
              (λ id. id < slots) (add_id bytes node) (sorted_ids ids)
              (λ id v fits h. add_id-Spelled label₁ bytes node stands id v fits h)
              (All-dedup_by_key _ _ _ (All-sort_by_key _ _ ids fit)) u (s₁, lt))
