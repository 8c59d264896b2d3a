-- ===== src/Grammar/Residual.antt =====
-- src/grammar.rs, `Symbol` and `ResidualGrammar`: what the parsers are built from.
use Prim.Native.String.{String}
use oc_earley.Prelude.{ℕ, Bool, List}
use oc_earley.Error.{Provenance}
use oc_earley.Grammar.Terminal.{CompiledTerminal}

pub data Symbol : Type 0 where
  nonterminal : ℕ → Symbol
  terminal : ℕ → Symbol

pub record ResidualNonterminal : Type 0 where
  pub id : ℕ
  pub original : ℕ
  pub name : String
  pub provenance : Provenance

pub record ResidualProduction : Type 0 where
  pub id : ℕ
  pub original : ℕ
  pub lhs : ℕ
  pub rhs : List Symbol
  pub provenance : Provenance

pub record ResidualGrammar : Type 0 where
  pub start : ℕ
  pub nonterminals : List ResidualNonterminal
  pub terminals : List CompiledTerminal
  pub terminal_provenance : List Provenance
  pub productions : List ResidualProduction
  pub productions_by_lhs : List (List ℕ)
  pub nullable : List Bool
  pub productive_suffixes : List (List Bool)
  pub collapsed_nonterminals : ℕ
  pub collapsed_regions : ℕ
  pub terminal_dfa_states : ℕ
  pub terminal_dfa_bytes : ℕ
