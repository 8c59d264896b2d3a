-- ===== src/Prelude/Maps.antt =====
-- Hash maps and sets of numbers as lists, with the operations that the source calls on them.
use Prim.Native.Nat.{ℕ}
use mathlib.Core.Bool.{Bool, true, false}
use mathlib.Core.List.{List, [], ◌∷◌, ◌++◌}
use mathlib.Core.Option.{Option, none, some}
use oc_earley.Prelude.Tests.{◌==◌, if◌then◌else◌}

-- `HashSet::contains`
unfoldable pub contains : ℕ → List ℕ → Bool
contains k [] = false
contains k (x ∷ xs) = if k == x then true else contains k xs

module _ {ℓ} {V : Type ℓ} where
  -- `HashMap::get`
  unfoldable pub find : ℕ → List (ℕ × V) → Option V
  find k [] = none
  find k ((j, v) ∷ m) = if k == j then some v else find k m

  -- `HashMap::insert`
  unfoldable pub insert : ℕ → V → List (ℕ × V) → List (ℕ × V)
  insert k v [] = (k, v) ∷ []
  insert k v ((j, w) ∷ m) = if k == j then (k, v) ∷ m else (j, w) ∷ insert k v m

  -- `HashMap::keys`
  unfoldable pub keys : List (ℕ × V) → List ℕ
  keys [] = []
  keys ((k, v) ∷ m) = k ∷ keys m

  -- `entry(k).or_default().push(v)`
  unfoldable pub push : ℕ → V → List (ℕ × List V) → List (ℕ × List V)
  push k v [] = (k, v ∷ []) ∷ []
  push k v ((j, vs) ∷ m) = if k == j then (j, vs ++ v ∷ []) ∷ m else (j, vs) ∷ push k v m

  -- `.cloned().unwrap_or_default()` of a map of lists
  abbrev pub or_default : Option (List V) → List V
  or_default none = []
  or_default (some vs) = vs
