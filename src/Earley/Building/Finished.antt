-- ===== src/Earley/Building/Finished.antt =====
-- What `build` returns is well formed, for a grammar whose symbols exist.
use oc_earley.Prelude.{ℕ, ◌+◌, ◌<◌, ◌≡◌, true, some, [], ◌∷◌, map, length, get_elem?, All}
use oc_earley.Grammar.Residual.{Symbol, nonterminal, terminal, ResidualProduction, ResidualGrammar}
use oc_earley.Grammar.Language.{Vanishes}
use oc_earley.Earley.Types.{EarleyProduction, CompiledEarley}
use oc_earley.Earley.Compile.{Tables, count_true, ends_in_nonterminal, with_augmented}
use oc_earley.Earley.WellFormed.{WellFormed}
use oc_earley.Earley.Building.Filled.{Filled}

abbrev pub Exists : ResidualGrammar → Symbol → Type 0
Exists g (nonterminal a) = a < length g.nonterminals
Exists g (terminal t) = t < length g.terminals

-- The symbols of the grammar exist, and its nullable nonterminals do derive the empty string.
pub record GrammarOk (g : ResidualGrammar) : Type 0 where
  pub start : g.start < length g.nonterminals
  pub lhs : All (λ (p : ResidualProduction). p.lhs < length g.nonterminals) g.productions
  pub rhs : All (λ (p : ResidualProduction). All (Exists g) p.rhs) g.productions
  pub marks : length g.nullable ≡ length g.nonterminals
  pub nullable : (a : ℕ) → get_elem? g.nullable a ≡ some true → Vanishes g (nonterminal a ∷ [])

abbrev plain : ResidualProduction → EarleyProduction
plain production = record { lhs = production.lhs; rhs = production.rhs }

module _ (g : ResidualGrammar) (ok : GrammarOk g) where
  abbrev augmented : EarleyProduction
  augmented = record { lhs = length g.nonterminals; rhs = nonterminal g.start ∷ [] }

  -- The result of `build`.
  abbrev compiled : Tables → ℕ → CompiledEarley
  compiled t offset = record {
    grammar = g;
    productions = with_augmented g;
    dotted = t.dotted;
    dotted_offsets = t.dotted_offsets;
    starts_by_lhs = t.starts_by_lhs;
    augmented_production = length g.productions;
    augmented_complete = offset + 1;
    nullable_nonterminals = count_true g.nullable;
    leo_eligible_rules = count_true (map ends_in_nonterminal (with_augmented g));
  }

  module _ (t : Tables) (f : Filled (length g.nonterminals + 1) (with_augmented g) t) (offset : ℕ)
      (at : get_elem? t.dotted_offsets (length g.productions) ≡ some offset) where
    abbrev c : CompiledEarley
    c = compiled t offset
