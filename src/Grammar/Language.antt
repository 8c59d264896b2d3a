-- ===== src/Grammar/Language.antt =====
-- The language of a residual grammar: which byte strings a sequence of symbols derives. `Derives`
-- is about strings; `Spans` says the same between two positions of a given input.
pub mod Segments
use oc_earley.Prelude.{
  ℕ, zero, suc, ◌+◌, ◌≤◌, ◌<◌, ◌≡◌, refl, ap, sym, subst, Bool, true, false, Option, none, some,
  List, [], ◌∷◌, ◌++◌, append_assoc, get_elem?, arith, ◌∙◌,
}
use oc_earley.Grammar.Terminal.{CompiledTerminal, TerminalCursorState, advance, is_accepting, run}
use oc_earley.Grammar.Terminal
use oc_earley.Grammar.Residual.{Symbol, nonterminal, terminal, ResidualProduction, ResidualGrammar}

-- A terminal matches the strings that lead its cursor to acceptance.
abbrev pub Matches : CompiledTerminal → List ℕ → Type 0
Matches t w =
    (c : TerminalCursorState) × (run t (Terminal.start t) w ≡ some c) × (is_accepting t c ≡ true)

abbrev pub Rule : ResidualGrammar → ℕ → List Symbol → Type 0
Rule g lhs rhs =
    (p : ℕ) × (production : ResidualProduction) × (get_elem? g.productions p ≡ some production)
    × (production.lhs ≡ lhs)
    × (production.rhs ≡ rhs)

pub data Derives (g : ResidualGrammar) : List Symbol → List ℕ → Type 0 where
  stop : Derives g [] []
  read :
      {t : ℕ} {term : CompiledTerminal} {rest : List Symbol} (u v : List ℕ) {w : List ℕ}
      → get_elem? g.terminals t ≡ some term
      → Matches term u
      → Derives g rest v
      → w ≡ u ++ v
      → Derives g (terminal t ∷ rest) w
  expand :
      {a : ℕ} {rhs rest : List Symbol} (u v : List ℕ) {w : List ℕ}
      → Rule g a rhs
      → Derives g rhs u
      → Derives g rest v
      → w ≡ u ++ v
      → Derives g (nonterminal a ∷ rest) w

-- The sequences of symbols that derive the empty string.
pub data Vanishes (g : ResidualGrammar) : List Symbol → Type 0 where
  stop : Vanishes g []
  expand :
      {a : ℕ} {rhs rest : List Symbol}
      → Rule g a rhs
      → Vanishes g rhs
      → Vanishes g rest
      → Vanishes g (nonterminal a ∷ rest)

-- `Runs input t i j c`: started at position `i`, the cursor of `t` is `c` at position `j`.
pub data Runs (input : ℕ → ℕ) (t : CompiledTerminal) (i : ℕ)
    : ℕ → TerminalCursorState → Type 0 where
  begin : Runs input t i i (Terminal.start t)
  next :
      {k : ℕ} {c c' : TerminalCursorState}
      → Runs input t i k c
      → advance t c (input k) ≡ some c'
      → Runs input t i (suc k) c'

pub data Spans (g : ResidualGrammar) (input : ℕ → ℕ) : List Symbol → ℕ → ℕ → Type 0 where
  stop : {i : ℕ} → Spans g input [] i i
  read :
      {t : ℕ} {term : CompiledTerminal} {c : TerminalCursorState} {rest : List Symbol} {i j k : ℕ}
      → get_elem? g.terminals t ≡ some term
      → Runs input term i k c
      → is_accepting term c ≡ true
      → Spans g input rest k j
      → Spans g input (terminal t ∷ rest) i j
  expand :
      {a : ℕ} {rhs rest : List Symbol} {i j k : ℕ}
      → Rule g a rhs
      → Spans g input rhs i k
      → Spans g input rest k j
      → Spans g input (nonterminal a ∷ rest) i j

module _ {g : ResidualGrammar} {input : ℕ → ℕ} where
  pub Spans-append :
      {xs ys : List Symbol} {i j k : ℕ}
      → Spans g input xs i k
      → Spans g input ys k j
      → Spans g input (xs ++ ys) i j
  Spans-append stop q = q
  Spans-append (read e r a p) q = read e r a (Spans-append p q)
  Spans-append (expand r s p) q = expand r s (Spans-append p q)

  pub Spans-of_Vanishes : {xs : List Symbol} (i : ℕ) → Vanishes g xs → Spans g input xs i i
  Spans-of_Vanishes i stop = stop
  Spans-of_Vanishes i (expand r p q) = expand r (Spans-of_Vanishes i p) (Spans-of_Vanishes i q)

pub Runs-le :
    {input : ℕ → ℕ} {t : CompiledTerminal} {i j : ℕ} {c : TerminalCursorState}
    → Runs input t i j c
    → i ≤ j
Runs-le begin = omega arith
Runs-le (next r e) = omega (arith, Runs-le r)

pub Spans-le :
    {g : ResidualGrammar} {input : ℕ → ℕ} {xs : List Symbol} {i j : ℕ}
    → Spans g input xs i j
    → i ≤ j
Spans-le stop = omega arith
Spans-le (read e r a p) = omega (arith, Runs-le r, Spans-le p)
Spans-le (expand r s p) = omega (arith, Spans-le s, Spans-le p)

pub Spans-nil :
    {g : ResidualGrammar} {input : ℕ → ℕ} {xs : List Symbol} {i j : ℕ}
    → Spans g input xs i j
    → xs ≡ []
    → i ≡ j
Spans-nil stop e = refl
Spans-nil (read t r a p) e = cc
Spans-nil (expand r s p) e = cc
