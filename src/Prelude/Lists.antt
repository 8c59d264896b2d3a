-- ===== src/Prelude/Lists.antt =====
-- Lists measured and indexed by native numbers, under the library's names.
use Prim.Native.Nat.{ℕ, zero, suc, ◌+◌, ◌<◌, ◌≤◌}
use mathlib.Core.Path.{◌≡◌, refl, sym, ap}
use mathlib.Core.Bool.{Bool, true, false}
use mathlib.Core.List.{List, [], ◌∷◌, ◌++◌, map}
use mathlib.Core.Option.{Option, none, some, some-injective}
use mathlib.Core.Logic.{◌≢◌, ◌⊎◌, inl, inr}
use native.Mathlib.Omega.{arith}
use oc_earley.Prelude.Tests.{◌==◌, if◌then◌else◌}

module _ {ℓ} {A : Type ℓ} where
  abbrev pub length : List A → ℕ
  length [] = 0
  length (x ∷ xs) = suc (length xs)

  abbrev pub get_elem? : List A → ℕ → Option A
  get_elem? [] i = none
  get_elem? (x ∷ xs) zero = some x
  get_elem? (x ∷ xs) (suc i) = get_elem? xs i

  -- A write out of bounds changes nothing.
  abbrev pub set : List A → ℕ → A → List A
  set [] i v = []
  set (x ∷ xs) zero v = v ∷ xs
  set (x ∷ xs) (suc i) v = x ∷ set xs i v

  abbrev pub take : ℕ → List A → List A
  take zero xs = []
  take (suc n) [] = []
  take (suc n) (x ∷ xs) = x ∷ take n xs

  abbrev pub drop : ℕ → List A → List A
  drop zero xs = xs
  drop (suc n) [] = []
  drop (suc n) (x ∷ xs) = drop n xs

  abbrev pub replicate : ℕ → A → List A
  replicate zero a = []
  replicate (suc n) a = a ∷ replicate n a

  abbrev pub is_empty : List A → Bool
  is_empty [] = true
  is_empty (x ∷ xs) = false

  abbrev pub get_last? : List A → Option A
  get_last? [] = none
  get_last? (x ∷ []) = some x
  get_last? (x ∷ y ∷ ys) = get_last? (y ∷ ys)

  pub length-append : (xs ys : List A) → length (xs ++ ys) ≡ length xs + length ys
  length-append [] ys = omega arith
  length-append (x ∷ xs) ys = omega (arith, length-append xs ys)

  pub length-replicate : (n : ℕ) (a : A) → length (replicate n a) ≡ n
  length-replicate zero a = refl
  length-replicate (suc n) a = ap suc (length-replicate n a)

  -- The last entry of a list that ends in `x`, and a write to it.
  pub get_elem?-append_last : (xs : List A) (x : A) → get_elem? (xs ++ x ∷ []) (length xs) ≡ some x
  get_elem?-append_last [] x = refl
  get_elem?-append_last (y ∷ xs) x = get_elem?-append_last xs x

  pub set-append_last : (xs : List A) (x y : A) → set (xs ++ x ∷ []) (length xs) y ≡ xs ++ y ∷ []
  set-append_last [] x y = refl
  set-append_last (z ∷ xs) x y = ap (◌∷◌ z) (set-append_last xs x y)

  pub get_elem?-append_left :
      (xs ys : List A) (i : ℕ) → i < length xs → get_elem? (xs ++ ys) i ≡ get_elem? xs i
  get_elem?-append_left [] ys i h = elim h [ ]
  get_elem?-append_left (x ∷ xs) ys zero h = refl
  get_elem?-append_left (x ∷ xs) ys (suc i) h = get_elem?-append_left xs ys i (omega arith)

  pub get_elem?-lt : (xs : List A) (i : ℕ) → i < length xs → (x : A) × (get_elem? xs i ≡ some x)
  get_elem?-lt [] i h = elim h [ ]
  get_elem?-lt (x ∷ xs) zero h = (x, refl)
  get_elem?-lt (x ∷ xs) (suc i) h = get_elem?-lt xs i (omega arith)

  pub lt_of_get_elem? : (xs : List A) (i : ℕ) {x : A} → get_elem? xs i ≡ some x → i < length xs
  lt_of_get_elem? [] i h = cc
  lt_of_get_elem? (x ∷ xs) zero h = omega arith
  lt_of_get_elem? (x ∷ xs) (suc i) h = omega (arith, lt_of_get_elem? xs i h)

  pub take-append_left : (xs ys : List A) → take (length xs) (xs ++ ys) ≡ xs
  take-append_left [] [] = refl
  take-append_left [] (y ∷ ys) = refl
  take-append_left (x ∷ xs) ys = ap (◌∷◌ x) (take-append_left xs ys)

  -- One more element of a prefix.
  pub take-suc :
      (xs : List A) (n : ℕ) {x : A}
      → get_elem? xs n ≡ some x
      → take (suc n) xs ≡ take n xs ++ x ∷ []
  take-suc [] n h = cc
  take-suc (y ∷ xs) zero h = cc
  take-suc (y ∷ xs) (suc n) h = ap (◌∷◌ y) (take-suc xs n h)

  pub take-all : (xs : List A) (n : ℕ) → get_elem? xs n ≡ none → take n xs ≡ xs
  take-all [] zero h = refl
  take-all [] (suc n) h = refl
  take-all (y ∷ xs) zero h = cc
  take-all (y ∷ xs) (suc n) h = ap (◌∷◌ y) (take-all xs n h)

  pub get_elem?-eq_none : (xs : List A) (n : ℕ) → length xs ≤ n → get_elem? xs n ≡ none
  get_elem?-eq_none [] n h = refl
  get_elem?-eq_none (x ∷ xs) zero h = absurd (omega arith)
  get_elem?-eq_none (x ∷ xs) (suc n) h = get_elem?-eq_none xs n (omega arith)

  -- An entry of a list that ends in `x`.
  pub get_elem?-append_cases :
      (xs : List A) (x : A) (i : ℕ) {y : A}
      → get_elem? (xs ++ x ∷ []) i ≡ some y
      → (get_elem? xs i ≡ some y) ⊎ ((i ≡ length xs) × (x ≡ y))
  get_elem?-append_cases [] x zero e = inr (refl, some-injective x _ e)
  get_elem?-append_cases [] x (suc i) e = cc
  get_elem?-append_cases (z ∷ xs) x zero e = inl e
  get_elem?-append_cases (z ∷ xs) x (suc i) e = elim (get_elem?-append_cases xs x i e) [
    | inl h ↦ inl h
    | inr (h, q) ↦ inr (ap suc h, q)
  ]

  pub take-length : (xs : List A) → take (length xs) xs ≡ xs
  take-length [] = refl
  take-length (x ∷ xs) = ap (◌∷◌ x) (take-length xs)

  pub length-append_one : (xs : List A) (x : A) → length (xs ++ x ∷ []) ≡ suc (length xs)
  length-append_one xs x = omega (arith, length-append xs (x ∷ []))

  pub get_last?-get_elem? :
      (xs : List A) {n : ℕ} {x : A}
      → length xs ≡ suc n
      → get_last? xs ≡ some x
      → get_elem? xs n ≡ some x
  get_last?-get_elem? [] l e = cc
  get_last?-get_elem? (y ∷ []) {n = zero} l e = e
  get_last?-get_elem? (y ∷ []) {n = suc n} l e = absurd (omega arith)
  get_last?-get_elem? (y ∷ z ∷ zs) {n = zero} l e = absurd (omega arith)
  get_last?-get_elem? (y ∷ z ∷ zs) {n = suc n} l e = get_last?-get_elem? (z ∷ zs) (omega arith) e

  pub take-take : (n m : ℕ) (xs : List A) → n ≤ m → take n (take m xs) ≡ take n xs
  take-take zero m xs h = refl
  take-take (suc n) zero xs h = absurd (omega arith)
  take-take (suc n) (suc m) [] h = refl
  take-take (suc n) (suc m) (x ∷ xs) h = ap (◌∷◌ x) (take-take n m xs (omega arith))

  pub get_elem?-append_right :
      (xs ys : List A) (i : ℕ) → get_elem? (xs ++ ys) (length xs + i) ≡ get_elem? ys i
  get_elem?-append_right [] ys i = let e : 0 + i ≡ i = omega arith in rw e refl
  get_elem?-append_right (x ∷ xs) ys i =
      let e : suc (length xs) + i ≡ suc (length xs + i) = omega arith in
      rw e (get_elem?-append_right xs ys i)

  -- An entry of two lists together.
  pub get_elem?-append :
      (xs ys : List A) (i : ℕ) {y : A}
      → get_elem? (xs ++ ys) i ≡ some y
      → (get_elem? xs i ≡ some y) ⊎ ((j : ℕ) × (i ≡ length xs + j) × (get_elem? ys j ≡ some y))
  get_elem?-append [] ys i e = inr (i, omega arith, e)
  get_elem?-append (x ∷ xs) ys zero e = inl e
  get_elem?-append (x ∷ xs) ys (suc i) e = elim (get_elem?-append xs ys i e) [
    | inl h ↦ inl h
    | inr (j, q, h) ↦ inr (j, omega (arith, q), h)
  ]

  pub length-set : (xs : List A) (i : ℕ) (v : A) → length (set xs i v) ≡ length xs
  length-set [] i v = refl
  length-set (x ∷ xs) zero v = refl
  length-set (x ∷ xs) (suc i) v = ap suc (length-set xs i v)

module _ {ℓ} {A : Type ℓ} where
  pub get_elem?-set_same :
      (xs : List A) (i : ℕ) (v : A) {x : A}
      → get_elem? xs i ≡ some x
      → get_elem? (set xs i v) i ≡ some v
  get_elem?-set_same [] i v e = cc
  get_elem?-set_same (x ∷ xs) zero v e = refl
  get_elem?-set_same (x ∷ xs) (suc i) v e = get_elem?-set_same xs i v e

  pub get_elem?-set_either :
      (xs : List A) (i : ℕ) (v : A) (j : ℕ) {x : A}
      → get_elem? (set xs i v) j ≡ some x
      → ((j ≡ i) × (x ≡ v)) ⊎ (get_elem? xs j ≡ some x)
  get_elem?-set_either [] i v j e = cc
  get_elem?-set_either (y ∷ xs) zero v zero e = inl (refl, some-injective _ _ (sym e))
  get_elem?-set_either (y ∷ xs) zero v (suc j) e = inr e
  get_elem?-set_either (y ∷ xs) (suc i) v zero e = inr e
  get_elem?-set_either (y ∷ xs) (suc i) v (suc j) e = elim (get_elem?-set_either xs i v j e) [
    | inl (p, q) ↦ inl (ap suc p, q)
    | inr h ↦ inr h
  ]

  pub get_elem?-set_other :
      (xs : List A) (i j : ℕ) (v : A) → i ≢ j → get_elem? (set xs i v) j ≡ get_elem? xs j
  get_elem?-set_other [] i j v h = refl
  get_elem?-set_other (x ∷ xs) zero zero v h = absurd (h refl)
  get_elem?-set_other (x ∷ xs) zero (suc j) v h = refl
  get_elem?-set_other (x ∷ xs) (suc i) zero v h = refl
  get_elem?-set_other (x ∷ xs) (suc i) (suc j) v h =
      get_elem?-set_other xs i j v (λ e. h (ap suc e))

module _ {ℓ κ} {A : Type ℓ} {B : Type κ} (f : A → B) where
  pub length-map : (xs : List A) → length (map f xs) ≡ length xs
  length-map [] = refl
  length-map (x ∷ xs) = ap suc (length-map xs)

  pub get_elem?-map :
      (xs : List A) (i : ℕ) {y : B}
      → get_elem? (map f xs) i ≡ some y
      → (x : A) × (get_elem? xs i ≡ some x) × (f x ≡ y)
  get_elem?-map [] i e = cc
  get_elem?-map (x ∷ xs) zero e = (x, refl, some-injective _ _ e)
  get_elem?-map (x ∷ xs) (suc i) e = get_elem?-map xs i e

module _ {ℓ} {A : Type ℓ} where
  pub get_elem?-take :
      (n : ℕ) (xs : List A) (i : ℕ) → i < n → get_elem? (take n xs) i ≡ get_elem? xs i
  get_elem?-take zero xs i h = absurd (omega arith)
  get_elem?-take (suc n) [] i h = refl
  get_elem?-take (suc n) (x ∷ xs) zero h = refl
  get_elem?-take (suc n) (x ∷ xs) (suc i) h = get_elem?-take n xs i (omega arith)

  pub lt_of_take : (n : ℕ) (xs : List A) (i : ℕ) {y : A} → get_elem? (take n xs) i ≡ some y → i < n
  lt_of_take zero xs i h = cc
  lt_of_take (suc n) [] i h = cc
  lt_of_take (suc n) (x ∷ xs) zero h = omega arith
  lt_of_take (suc n) (x ∷ xs) (suc i) h = omega (arith, lt_of_take n xs i h)

  pub get_elem?-drop :
      (n : ℕ) (xs : List A) (i : ℕ) → get_elem? (drop n xs) i ≡ get_elem? xs (n + i)
  get_elem?-drop zero xs i = let e : 0 + i ≡ i = omega arith in rw e refl
  get_elem?-drop (suc n) [] i = refl
  get_elem?-drop (suc n) (x ∷ xs) i =
      let e : suc n + i ≡ suc (n + i) = omega arith in rw e (get_elem?-drop n xs i)

  pub get_elem?-set :
      (xs : List A) (i j : ℕ) (v : A) {y : A}
      → get_elem? xs i ≡ some y
      → get_elem? (set xs i v) j ≡ (if j == i then some v else get_elem? xs j)
  get_elem?-set [] i j v h = cc
  get_elem?-set (x ∷ xs) zero zero v h = refl
  get_elem?-set (x ∷ xs) zero (suc j) v h = ground arith
  get_elem?-set (x ∷ xs) (suc i) zero v h = ground arith
  get_elem?-set (x ∷ xs) (suc i) (suc j) v h =
      let e : (suc j == suc i) ≡ (j == i) = ground arith in rw e (get_elem?-set xs i j v h)
