-- ===== src/Prelude/Sorting.antt =====
-- `sort_by_key`, `sort_unstable` and `dedup` of the standard library, over keys that are tuples of
-- numbers, written as lists and compared lexicographically.
use Prim.Native.Nat.{ℕ}
use mathlib.Core.Bool.{Bool, true, false}
use mathlib.Core.Path.{◌≡◌, refl, sym, ◌∙◌}
use mathlib.Core.Logic.{◌⊎◌, inl, inr}
use native.Mathlib.Omega.{arith}
use mathlib.Core.List.{List, [], ◌∷◌, ◌++◌}
use oc_earley.Prelude.Tests.{ltb, ◌==◌, if◌then◌else◌, Bool-cases, ==→eq}
use oc_earley.Prelude.Maps.{contains}
use oc_earley.Prelude.Alls.{All}

-- The order of tuples.
unfoldable pub lex_lt : List ℕ → List ℕ → Bool
lex_lt [] [] = false
lex_lt [] (b ∷ bs) = true
lex_lt (a ∷ as') [] = false
lex_lt (a ∷ as') (b ∷ bs) = if ltb a b then true else if ltb b a then false else lex_lt as' bs

unfoldable pub lex_eq : List ℕ → List ℕ → Bool
lex_eq [] [] = true
lex_eq [] (b ∷ bs) = false
lex_eq (a ∷ as') [] = false
lex_eq (a ∷ as') (b ∷ bs) = if a == b then lex_eq as' bs else false

module _ {ℓ} {A : Type ℓ} (key : A → List ℕ) where
  insert_sorted : A → List A → List A
  insert_sorted a [] = a ∷ []
  insert_sorted a (x ∷ xs) = if lex_lt (key x) (key a) then x ∷ insert_sorted a xs else a ∷ x ∷ xs

  -- Stable, as `sort_by_key` is: an entry goes before the later ones with its key.
  unfoldable pub sort_by_key : List A → List A
  unfolding insert_sorted lex_lt
  sort_by_key [] = []
  sort_by_key (x ∷ xs) = insert_sorted x (sort_by_key xs)

  -- `dedup` where the key tells the entries apart.
  drop_first : A → List A → List A
  drop_first a [] = []
  drop_first a (x ∷ xs) = if lex_eq (key a) (key x) then xs else x ∷ xs

  unfoldable pub dedup_by_key : List A → List A
  unfolding drop_first lex_eq
  dedup_by_key [] = []
  dedup_by_key (x ∷ xs) = x ∷ drop_first x (dedup_by_key xs)

module _ {ℓ κ} {A : Type ℓ} (key : A → List ℕ) (P : A → Type κ) where
  All-insert_sorted : (a : A) (xs : List A) → P a → All P xs → All P (insert_sorted key a xs)
  unfolding insert_sorted
  All-insert_sorted a [] p h = (p, tt)
  All-insert_sorted a (x ∷ xs) p h = elim (Bool-cases (lex_lt (key x) (key a))) [
    | inl q ↦ rw q (h.0, All-insert_sorted a xs p h.1)
    | inr q ↦ rw q (p, h)
  ]

  pub All-sort_by_key : (xs : List A) → All P xs → All P (sort_by_key key xs)
  unfolding sort_by_key
  All-sort_by_key [] h = tt
  All-sort_by_key (x ∷ xs) h = All-insert_sorted x (sort_by_key key xs) h.0 (All-sort_by_key xs h.1)

  All-drop_first : (a : A) (xs : List A) → All P xs → All P (drop_first key a xs)
  unfolding drop_first
  All-drop_first a [] h = tt
  All-drop_first a (x ∷ xs) h = elim (Bool-cases (lex_eq (key a) (key x))) [
    | inl q ↦ rw q h.1
    | inr q ↦ rw q h
  ]

  pub All-dedup_by_key : (xs : List A) → All P xs → All P (dedup_by_key key xs)
  unfolding dedup_by_key
  All-dedup_by_key [] h = tt
  All-dedup_by_key (x ∷ xs) h =
      (h.0, All-drop_first x (dedup_by_key key xs) (All-dedup_by_key xs h.1))

-- What a list of numbers contains stays when it is sorted and repetitions are dropped.
contains-nil : (k : ℕ) → contains k [] ≡ true → ⊥
unfolding contains
contains-nil k h = cc

pub contains-head : (k : ℕ) (xs : List ℕ) → contains k (k ∷ xs) ≡ true
unfolding contains
contains-head k xs = ground arith

pub contains-tail : (k x : ℕ) (xs : List ℕ) → contains k xs ≡ true → contains k (x ∷ xs) ≡ true
unfolding contains
contains-tail k x xs h = elim (Bool-cases (k == x)) [ inl q ↦ rw q refl | inr q ↦ rw q h ]

contains-cons_cases :
    (k x : ℕ) (xs : List ℕ) → contains k (x ∷ xs) ≡ true → (k ≡ x) ⊎ (contains k xs ≡ true)
unfolding contains
contains-cons_cases k x xs h = elim (Bool-cases (k == x)) [
  | inl q ↦ inl (==→eq k x q)
  | inr q ↦ inr (rw q at h)
]

abbrev id_key : ℕ → List ℕ
id_key id = id ∷ []

contains-insert_sorted :
    (k a : ℕ) (xs : List ℕ)
    → contains k (a ∷ xs) ≡ true
    → contains k (insert_sorted id_key a xs) ≡ true
unfolding insert_sorted
contains-insert_sorted k a [] h = h
contains-insert_sorted k a (x ∷ xs) h = elim (Bool-cases (lex_lt (id_key x) (id_key a))) [
  | inr q ↦ rw q h
  | inl q ↦ rw q (elim (contains-cons_cases k a (x ∷ xs) h) [
    | inl e ↦
        contains-tail k x (insert_sorted id_key a xs)
          (contains-insert_sorted k a xs (rw e (contains-head a xs)))
    | inr h' ↦ elim (contains-cons_cases k x xs h') [
      | inl e ↦ rw e (contains-head x (insert_sorted id_key a xs))
      | inr h'' ↦
          contains-tail k x (insert_sorted id_key a xs)
            (contains-insert_sorted k a xs (contains-tail k a xs h''))
    ]
  ])
]

pub contains-sort_by_key :
    (k : ℕ) (xs : List ℕ) → contains k xs ≡ true → contains k (sort_by_key id_key xs) ≡ true
unfolding sort_by_key
contains-sort_by_key k [] h = h
contains-sort_by_key k (x ∷ xs) h =
    contains-insert_sorted k x (sort_by_key id_key xs) (elim (contains-cons_cases k x xs h) [
      | inl e ↦ rw e (contains-head x (sort_by_key id_key xs))
      | inr h' ↦ contains-tail k x (sort_by_key id_key xs) (contains-sort_by_key k xs h')
    ])

contains-drop_first :
    (k a : ℕ) (xs : List ℕ)
    → contains k (a ∷ xs) ≡ true
    → contains k (a ∷ drop_first id_key a xs) ≡ true
unfolding drop_first lex_eq
contains-drop_first k a [] h = h
contains-drop_first k a (x ∷ xs) h = elim (Bool-cases (a == x)) [
  | inr q ↦ rw q h
  | inl q ↦ rw q (elim (contains-cons_cases k a (x ∷ xs) h) [
    | inl e ↦ rw e (contains-head a xs)
    | inr h' ↦ elim (contains-cons_cases k x xs h') [
      | inl e ↦ rw (e ∙ sym (==→eq a x q)) (contains-head a xs)
      | inr h'' ↦ contains-tail k a xs h''
    ]
  ])
]

pub contains-dedup_by_key :
    (k : ℕ) (xs : List ℕ) → contains k xs ≡ true → contains k (dedup_by_key id_key xs) ≡ true
unfolding dedup_by_key
contains-dedup_by_key k [] h = h
contains-dedup_by_key k (x ∷ xs) h =
    contains-drop_first k x (dedup_by_key id_key xs) (elim (contains-cons_cases k x xs h) [
      | inl e ↦ rw e (contains-head x (dedup_by_key id_key xs))
      | inr h' ↦ contains-tail k x (dedup_by_key id_key xs) (contains-dedup_by_key k xs h')
    ])

pub contains-append_left :
    (k : ℕ) (xs ys : List ℕ) → contains k xs ≡ true → contains k (xs ++ ys) ≡ true
contains-append_left k [] ys h = let c = contains-nil k h in absurd c
contains-append_left k (x ∷ xs) ys h = elim (contains-cons_cases k x xs h) [
  | inl e ↦ rw e (contains-head x (xs ++ ys))
  | inr h' ↦ contains-tail k x (xs ++ ys) (contains-append_left k xs ys h')
]

pub contains-append_right :
    (k : ℕ) (xs ys : List ℕ) → contains k ys ≡ true → contains k (xs ++ ys) ≡ true
contains-append_right k [] ys h = h
contains-append_right k (x ∷ xs) ys h =
    contains-tail k x (xs ++ ys) (contains-append_right k xs ys h)
