-- ===== src/Prelude/Alls.antt =====
-- A predicate that holds of every entry of a list.
use Prim.Native.Nat.{ℕ, zero, suc, ◌≤◌}
use mathlib.Core.Path.{◌≡◌, subst, sym}
use mathlib.Core.List.{List, [], ◌∷◌, ◌++◌}
use mathlib.Core.Logic.{inl, inr}
use mathlib.Core.Option.{some}
use mathlib.Core.Bool.{true}
use native.Mathlib.Omega.{arith}
use oc_earley.Prelude.Tests.{◌==◌, Bool-cases, Option-cases, ==→eq}
use oc_earley.Prelude.Lists.{get_elem?, set, length}
use oc_earley.Prelude.Maps.{contains, find, insert, keys, push, or_default}

abbrev pub All {ℓ κ} : {A : Type ℓ} → (A → Type κ) → List A → Type κ
All P [] = Unit
All P (x ∷ xs) = P x × All P xs

module _ {ℓ κ} {A : Type ℓ} (P : A → Type κ) where
  pub All-append : (xs ys : List A) → All P xs → All P ys → All P (xs ++ ys)
  All-append [] ys hx hy = hy
  All-append (x ∷ xs) ys hx hy = (hx.0, All-append xs ys hx.1 hy)

  pub All-get_elem? : (xs : List A) (i : ℕ) {x : A} → All P xs → get_elem? xs i ≡ some x → P x
  All-get_elem? [] i h e = cc
  All-get_elem? (x ∷ xs) zero h e = subst P (cc) (h.0)
  All-get_elem? (x ∷ xs) (suc i) h e = All-get_elem? xs i h.1 e

  pub All-set : (xs : List A) (i : ℕ) (v : A) → P v → All P xs → All P (set xs i v)
  All-set [] i v p h = tt
  All-set (x ∷ xs) zero v p h = (p, h.1)
  All-set (x ∷ xs) (suc i) v p h = (h.0, All-set xs i v p h.1)

pub All-map {ℓ κ κ'} :
    {A : Type ℓ} {P : A → Type κ} {Q : A → Type κ'} (xs : List A)
    → ((x : A) → P x → Q x)
    → All P xs
    → All Q xs
All-map [] f h = tt
All-map (x ∷ xs) f h = (f x h.0, All-map xs f h.1)

module _ {ℓ κ} {V : Type ℓ} (P : ℕ → V → Type κ) where
  -- What holds of every entry of a map holds of what a lookup finds.
  pub All-find :
      (k : ℕ) (m : List (ℕ × V)) {v : V} → All (λ e. P e.0 e.1) m → find k m ≡ some v → P k v
  unfolding find
  All-find k [] h e = cc
  All-find k ((j, w) ∷ m) h e = elim (Bool-cases (k == j)) [
    | inl q ↦ subst (P k) (ground arith) (subst (λ i. P i w) (sym (==→eq k j q)) h.0)
    | inr q ↦ All-find k m h.1 (ground arith)
  ]

  pub All-insert :
      (k : ℕ) (v : V) (m : List (ℕ × V))
      → P k v
      → All (λ e. P e.0 e.1) m
      → All (λ e. P e.0 e.1) (insert k v m)
  unfolding insert
  All-insert k v [] p h = (p, tt)
  All-insert k v ((j, w) ∷ m) p h = elim (Bool-cases (k == j)) [
    | inl q ↦ rw q (p, h.1)
    | inr q ↦ rw q (h.0, All-insert k v m p h.1)
  ]

pub length-insert {ℓ} :
    {V : Type ℓ} (k : ℕ) (v : V) (m : List (ℕ × V)) → length (insert k v m) ≤ suc (length m)
unfolding insert
length-insert k v [] = omega arith
length-insert k v ((j, w) ∷ m) = elim (Bool-cases (k == j)) [
  | inl q ↦ rw q (omega arith)
  | inr q ↦ rw q (omega (arith, length-insert k v m))
]

module _ {ℓ κ} {V : Type ℓ} (P : ℕ → V → Type κ) where
  pub All-push :
      (k : ℕ) (v : V) (m : List (ℕ × List V))
      → P k v
      → All (λ e. All (P e.0) e.1) m
      → All (λ e. All (P e.0) e.1) (push k v m)
  unfolding push
  All-push k v [] p h = ((p, tt), tt)
  All-push k v ((j, vs) ∷ m) p h = elim (Bool-cases (k == j)) [
    | inl q ↦ rw q (All-append (P j) vs (v ∷ []) h.0 (subst (λ i. P i v) (==→eq k j q) p, tt), h.1)
    | inr q ↦ rw q (h.0, All-push k v m p h.1)
  ]

  -- The entries that a lookup in a map of lists yields.
  pub All-or_default :
      (k : ℕ) (m : List (ℕ × List V))
      → All (λ e. All (P e.0) e.1) m
      → All (P k) (or_default (find k m))
  All-or_default k m h = elim (Option-cases (find k m)) [
    | inl e ↦ rw e tt
    | inr (vs, e) ↦ rw e (All-find (λ i us. All (P i) us) k m h e)
  ]

-- A key that a set contains has the property that all its entries have.
pub All-contains {κ} :
    (P : ℕ → Type κ) (k : ℕ) (xs : List ℕ) → All P xs → contains k xs ≡ true → P k
unfolding contains
All-contains P k [] h e = cc
All-contains P k (x ∷ xs) h e = elim (Bool-cases (k == x)) [
  | inl q ↦ subst P (sym (==→eq k x q)) h.0
  | inr q ↦ All-contains P k xs h.1 (ground arith)
]

-- Every key of a map can be looked up.
pub All-keys {ℓ} :
    {V : Type ℓ} (m : List (ℕ × V)) → All (λ k. (v : V) × (find k m ≡ some v)) (keys m)
unfolding keys find
All-keys [] = tt
All-keys ((j, w) ∷ m) = (
  (w, ground arith),
  All-map (keys m)
      (λ k (v, e). elim (Bool-cases (k == j)) [ inl q ↦ (w, rw q) | inr q ↦ (v, rw q e) ])
      (All-keys m),
)
