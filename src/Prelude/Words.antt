-- ===== src/Prelude/Words.antt =====
-- Machine words: the largest values, saturating and checked addition.
use Prim.Native.Nat.{ℕ, ◌+◌, min}
use mathlib.Core.Path.{◌≡◌}
use mathlib.Core.Logic.{inl, inr}
use native.Mathlib.Omega.{arith}
use mathlib.Core.Option.{Option, none, some}
use oc_earley.Prelude.Tests.{leb, if◌then◌else◌, Bool-cases}

-- `u32::MAX`
abbrev pub u32_max : ℕ
u32_max = 4294967295

-- `usize::MAX` and `u64::MAX` on a 64-bit target
abbrev pub u64_max : ℕ
u64_max = 18446744073709551615

-- `saturating_add` of `usize` and `u64`
abbrev pub saturating_add : ℕ → ℕ → ℕ
saturating_add a b = min (a + b) u64_max

-- `checked_add` of `usize`
abbrev pub checked_add : ℕ → ℕ → Option ℕ
checked_add a b = if leb (a + b) u64_max then some (a + b) else none

pub checked_sum : (a b : ℕ) {c : ℕ} → checked_add a b ≡ some c → c ≡ a + b
checked_sum a b e = elim (Bool-cases (leb (a + b) u64_max)) [
  | inl q ↦ ground arith
  | inr q ↦ ground arith
]
