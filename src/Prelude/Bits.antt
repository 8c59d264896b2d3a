-- ===== src/Prelude/Bits.antt =====
-- Single bits of a word: `word | (1 << bit)` and `word & (1 << bit) != 0`.
use Prim.Native.Nat.{
  ℕ, zero, suc, ◌+◌, ◌*◌, ◌/◌, ◌%◌, ◌^◌, ◌≤◌, min, max, bit_and, bit_or, digits, bit_and-bitwise,
  bit_or-bitwise,
}
use mathlib.Core.Path.{◌≡◌, refl, sym, ap, ◌∙◌}
use mathlib.Core.Bool.{Bool, false, not, ◌||◌}
use native.Mathlib.Omega.{arith}
use native.Mathlib.Numerals.{unary_clauses}
use oc_earley.Prelude.Tests.{◌==◌}

abbrev pub with_bit : ℕ → ℕ → ℕ
with_bit word bit = bit_or word (2 ^ bit)

abbrev pub has_bit : ℕ → ℕ → Bool
has_bit word bit = not (bit_and word (2 ^ bit) == 0)

-- More fuel than digits makes no difference.
digits_fuel :
    (z : ℕ → ℕ) (f : ℕ → ℕ → ℕ) (n m a b : ℕ) → a ≤ n → a ≤ m → digits z f n a b ≡ digits z f m a b
digits_fuel z f zero zero a b p q = refl
digits_fuel z f zero (suc m) zero b p q = refl
digits_fuel z f zero (suc m) (suc a) b p q = absurd (omega arith)
digits_fuel z f (suc n) zero zero b p q = refl
digits_fuel z f (suc n) zero (suc a) b p q = absurd (omega arith)
digits_fuel z f (suc n) (suc m) zero b p q = refl
digits_fuel z f (suc n) (suc m) (suc a) b p q =
    ap (λ d. d * 2 + f (suc a % 2) (b % 2))
      (digits_fuel z f n m (suc a / 2) (b / 2) (omega arith) (omega arith))

zero-bit_or : (b : ℕ) → bit_or 0 b ≡ b
zero-bit_or b = bit_or-bitwise 0 b

zero-bit_and : (b : ℕ) → bit_and 0 b ≡ 0
zero-bit_and b = bit_and-bitwise 0 b

-- No bit of 0 is set.
pub no_bit : (b : ℕ) → has_bit 0 b ≡ false
no_bit b = rw (zero-bit_and (2 ^ b)) refl

or_step : (a b : ℕ) → bit_or a b ≡ bit_or (a / 2) (b / 2) * 2 + max (a % 2) (b % 2)
or_step zero b = omega (arith, zero-bit_or b, zero-bit_or (b / 2))
or_step (suc a) b = omega (
  arith,
  bit_or-bitwise (suc a) b,
  bit_or-bitwise (suc a / 2) (b / 2),
  digits_fuel (λ b. b) max a (suc a / 2) (suc a / 2) (b / 2) (omega arith) (omega arith),
)

and_step : (a b : ℕ) → bit_and a b ≡ bit_and (a / 2) (b / 2) * 2 + min (a % 2) (b % 2)
and_step zero b = omega (arith, zero-bit_and b, zero-bit_and (b / 2))
and_step (suc a) b = omega (
  arith,
  bit_and-bitwise (suc a) b,
  bit_and-bitwise (suc a / 2) (b / 2),
  digits_fuel (λ b. zero) min a (suc a / 2) (suc a / 2) (b / 2) (omega arith) (omega arith),
)

and_zero_fuel : (n a : ℕ) → a ≤ n → bit_and a 0 ≡ 0
and_zero_fuel n zero h = refl
and_zero_fuel zero (suc a) h = absurd (omega arith)
and_zero_fuel (suc n) (suc a) h =
    omega (arith, and_step (suc a) 0, and_zero_fuel n (suc a / 2) (omega arith))

and_zero : (a : ℕ) → bit_and a 0 ≡ 0
and_zero a = and_zero_fuel a a (omega arith)

or_zero_fuel : (n a : ℕ) → a ≤ n → bit_or a 0 ≡ a
or_zero_fuel n zero h = refl
or_zero_fuel zero (suc a) h = absurd (omega arith)
or_zero_fuel (suc n) (suc a) h =
    omega (arith, or_step (suc a) 0, or_zero_fuel n (suc a / 2) (omega arith))

or_zero : (a : ℕ) → bit_or a 0 ≡ a
or_zero a = or_zero_fuel a a (omega arith)

-- A bit of a word is the lowest bit, or a bit of the half.
has_bit-zero : (w : ℕ) → has_bit w 0 ≡ (w % 2 == 1)
has_bit-zero w =
    let e : bit_and w 1 ≡ w % 2 = omega (arith, and_step w 1, and_zero (w / 2)) in
    rw e (ground arith)

power_suc : (k : ℕ) → 2 ^ suc k ≡ 2 ^ k * 2
power_suc k = simp unary_clauses (grind arith)

and_double : (w p : ℕ) → bit_and w (p * 2) ≡ bit_and (w / 2) p * 2
and_double w p =
    let half : p * 2 / 2 ≡ p = omega arith in
    let low : min (w % 2) (p * 2 % 2) ≡ 0 = omega arith in
    and_step w (p * 2) ∙ rw (half, low) (omega arith)

or_double : (w p : ℕ) → bit_or w (p * 2) ≡ bit_or (w / 2) p * 2 + w % 2
or_double w p =
    let half : p * 2 / 2 ≡ p = omega arith in
    let low : max (w % 2) (p * 2 % 2) ≡ w % 2 = omega arith in
    or_step w (p * 2) ∙ rw (half, low) refl

doubled : (n : ℕ) → (n * 2 == 0) ≡ (n == 0)
doubled n = ground arith

has_bit-suc : (w k : ℕ) → has_bit w (suc k) ≡ has_bit (w / 2) k
has_bit-suc w k =
    let e : bit_and w (2 ^ suc k) ≡ bit_and (w / 2) (2 ^ k) * 2 =
      rw (power_suc k) (and_double w (2 ^ k)) in
    rw e (ap not (doubled (bit_and (w / 2) (2 ^ k))))

with_bit-zero : (w : ℕ) → with_bit w 0 ≡ w / 2 * 2 + 1
with_bit-zero w = omega (arith, or_step w 1, or_zero (w / 2))

with_bit-suc : (w k : ℕ) → with_bit w (suc k) ≡ with_bit (w / 2) k * 2 + w % 2
with_bit-suc w k = rw (power_suc k) (or_double w (2 ^ k))

half_with : (n m : ℕ) → (n * 2 + m % 2) / 2 ≡ n
half_with n m = omega arith

suc_same : (k b : ℕ) → (suc k == suc b) ≡ (k == b)
suc_same k b = ground arith

zero_other : (b : ℕ) → (0 == suc b) ≡ false
zero_other b = ground arith

suc_other : (b : ℕ) → (suc b == 0) ≡ false
suc_other b = ground arith

-- Setting a bit sets that bit and leaves the others.
pub has_bit-with_bit : (w b k : ℕ) → has_bit (with_bit w b) k ≡ ((k == b) || has_bit w k)
has_bit-with_bit w zero zero =
    let odd : (w / 2 * 2 + 1) % 2 ≡ 1 = omega arith in
    has_bit-zero (with_bit w 0) ∙ rw (with_bit-zero w, odd)
has_bit-with_bit w zero (suc k) =
    let half : (w / 2 * 2 + 1) / 2 ≡ w / 2 = omega arith in
    has_bit-suc (with_bit w 0) k ∙ rw (with_bit-zero w, half, suc_other k) (sym (has_bit-suc w k))
has_bit-with_bit w (suc b) zero =
    let low : (with_bit (w / 2) b * 2 + w % 2) % 2 ≡ w % 2 = omega arith in
    has_bit-zero (with_bit w (suc b))
    ∙ rw (with_bit-suc w b, low, zero_other b) (sym (has_bit-zero w))
has_bit-with_bit w (suc b) (suc k) =
    has_bit-suc (with_bit w (suc b)) k
    ∙ rw (with_bit-suc w b, half_with (with_bit (w / 2) b) w, suc_same k b, has_bit-suc w k)
        (has_bit-with_bit (w / 2) b k)
