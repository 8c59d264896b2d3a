-- ===== src/Grammar/Language/Segments.antt =====
-- From positions to strings: what `Spans` says of two positions, `Derives` says of the bytes
-- between them.
use native.Mathlib.Nat.{zero-add, add-zero}
use oc_earley.Prelude.{
  ℕ, zero, suc, ◌+◌, ◌-◌, ◌≤◌, ◌≡◌, refl, ap, inl, inr, some, Option-cases, List, [], ◌∷◌, ◌++◌,
  get_elem?, length, arith, ◌∙◌,
}
use oc_earley.Grammar.Dfa.{unwrap_or}
use oc_earley.Grammar.Terminal.{CompiledTerminal, TerminalCursorState, advance, is_accepting, run}
use oc_earley.Grammar.Terminal
use oc_earley.Grammar.Residual.{Symbol, ResidualGrammar}
use oc_earley.Grammar.Language.{
  Derives, Runs, begin, next, Spans, stop, read, expand, Runs-le, Spans-le,
}

-- The `n` bytes from position `i` on.
abbrev pub segment : (ℕ → ℕ) → ℕ → ℕ → List ℕ
segment input i zero = []
segment input i (suc n) = input i ∷ segment input (suc i) n

segment-append :
    (input : ℕ → ℕ) (i n m : ℕ)
    → segment input i (n + m) ≡ segment input i n ++ segment input (i + n) m
segment-append input i zero m = rw (zero-add, add-zero)
segment-append input i (suc n) m =
    let e : suc n + m ≡ suc (n + m) = omega arith in
    let e' : i + suc n ≡ suc i + n = omega arith in
    rw (e, e') (ap (◌∷◌ (input i)) (segment-append input (suc i) n m))

-- The bytes between two positions.
abbrev pub between : (ℕ → ℕ) → ℕ → ℕ → List ℕ
between input i j = segment input i (j - i)

between-append :
    (input : ℕ → ℕ) (i k j : ℕ)
    → i ≤ k
    → k ≤ j
    → between input i j ≡ between input i k ++ between input k j
between-append input i k j p q =
    let e : j - i ≡ (k - i) + (j - k) = omega arith in
    let e' : i + (k - i) ≡ k = omega arith in rw e (segment-append input i (k - i) (j - k) ∙ rw e')

between-suc :
    (input : ℕ → ℕ) (i k : ℕ) → i ≤ k → between input i (suc k) ≡ between input i k ++ input k ∷ []
between-suc input i k h =
    let e : suc k - k ≡ 1 = omega arith in between-append input i k (suc k) h (omega arith) ∙ rw e

run-append :
    (t : CompiledTerminal) (c : TerminalCursorState) (u v : List ℕ) {c' : TerminalCursorState}
    → run t c u ≡ some c'
    → run t c (u ++ v) ≡ run t c' v
unfolding run
run-append t c [] v e = cc
run-append t c (b ∷ u) v e = elim (Option-cases (advance t c b)) [
  | inl q ↦ cc (rw (q, run) at e)
  | inr (c₁, q) ↦ rw (q, run) (run-append t c₁ u v (rw (q, run) at e))
]

run-between :
    {input : ℕ → ℕ} {t : CompiledTerminal} {i j : ℕ} {c : TerminalCursorState}
    → Runs input t i j c
    → run t (Terminal.start t) (between input i j) ≡ some c
unfolding run
run-between {input} {t} {i} begin = let e : i - i ≡ 0 = omega arith in rw e
run-between {input} {t} {i} (next {k} r e) = rw (between-suc input i k (Runs-le r)) (
    run-append t (Terminal.start t) (between input i k) (input k ∷ []) (run-between r)
    ∙ rw (e, run))

pub Derives-between :
    {g : ResidualGrammar} {input : ℕ → ℕ} {xs : List Symbol} {i j : ℕ}
    → Spans g input xs i j
    → Derives g xs (between input i j)
Derives-between {i = i} stop = let e : i - i ≡ 0 = omega arith in rw e Derives.stop
Derives-between {g} {input} (read {c = c} {i = i} {j = j} {k = k} e r a p) =
    Derives.read (between input i k) (between input k j) e (c, run-between r, a) (Derives-between p)
      (between-append input i k j (Runs-le r) (Spans-le p))
Derives-between {g} {input} (expand {i = i} {j = j} {k = k} r s p) =
    Derives.expand (between input i k) (between input k j) r (Derives-between s) (Derives-between p)
      (between-append input i k j (Spans-le s) (Spans-le p))

-- A list as the input of its positions.
abbrev pub input_of : List ℕ → ℕ → ℕ
input_of bytes i = unwrap_or (get_elem? bytes i) 0

segment-shift :
    (b : ℕ) (bytes : List ℕ) (i n : ℕ)
    → segment (input_of (b ∷ bytes)) (suc i) n ≡ segment (input_of bytes) i n
segment-shift b bytes i zero = refl
segment-shift b bytes i (suc n) = ap (◌∷◌ (input_of bytes i)) (segment-shift b bytes (suc i) n)

segment-input_of : (bytes : List ℕ) → segment (input_of bytes) 0 (length bytes) ≡ bytes
segment-input_of [] = refl
segment-input_of (b ∷ bytes) =
    ap (◌∷◌ b) (segment-shift b bytes 0 (length bytes) ∙ segment-input_of bytes)

pub between-input_of : (bytes : List ℕ) → between (input_of bytes) 0 (length bytes) ≡ bytes
between-input_of bytes =
    let e : length bytes - 0 ≡ length bytes = omega arith in rw e (segment-input_of bytes)
