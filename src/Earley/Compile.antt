-- ===== src/Earley/Compile.antt =====
-- src/earley.rs, `CompiledEarley::build`: the augmented production and the table of dotted rules.
use oc_earley.Prelude.{
  ℕ, zero, suc, ◌+◌, Bool, true, false, none, some, List, [], ◌∷◌, ◌++◌, length, get_elem?, set,
  replicate, get_last?, map, ltb, leb, if◌then◌else◌, min, u32_max, saturating_add,
}
use oc_earley.Outcome.{Outcome, M, ◌>>=◌, ◌>>◌, pure, get, modify, or_panic, guard}
use oc_earley.Error.{CompileError, earley_preparation, CompileLimits, enforce_compile_limit}
use oc_earley.Grammar.Residual.{nonterminal, terminal, ResidualGrammar}
use oc_earley.Earley.Types.{DottedRule, EarleyProduction, CompiledEarley}

-- The local variables of `build` that its loops write.
pub record Tables : Type 0 where
  pub dotted : List DottedRule
  pub dotted_offsets : List ℕ
  pub starts_by_lhs : List (List ℕ)

-- `u32::try_from(value)`, with the limit's error
abbrev pub to_u32 : {S : Type 0} → ℕ → M CompileError S (Unit {0})
to_u32 value =
    guard (leb value u32_max)
      (CompileError.resource_limit_exceeded earley_preparation value u32_max)

abbrev pub dotted_rule : ℕ → EarleyProduction → ℕ → ℕ → DottedRule
dotted_rule production_id production dot id = record {
  production = production_id;
  dot = dot;
  next = get_elem? production.rhs dot;
  advanced = if ltb dot (length production.rhs) then some (min (id + 1) u32_max) else none;
  lhs = production.lhs;
}

-- `for dot in 0..=production.rhs.len()`: the third argument is the dot, the last the rounds left.
unfoldable pub add_dots : ℕ → EarleyProduction → ℕ → ℕ → M CompileError Tables (Unit {0})
add_dots production_id production dot zero = pure tt
add_dots production_id production dot (suc rounds) = do
  tables ← get
  to_u32 (length tables.dotted)
  guard (leb dot u32_max) (CompileError.internal_invariant "production length does not fit u32")
  modify λ t. record t {
    dotted = t.dotted ++ dotted_rule production_id production dot (length t.dotted) ∷ [];
  }
  add_dots production_id production (suc dot) rounds

-- `starts_by_lhs[lhs].push(offset)`
unfoldable pub add_start : ℕ → ℕ → M CompileError Tables (Unit {0})
add_start lhs offset = do
  tables ← get
  starts ← or_panic (get_elem? tables.starts_by_lhs lhs)
  modify λ t. record t { starts_by_lhs = set t.starts_by_lhs lhs (starts ++ offset ∷ []) }

-- The body of the loop over the productions.
unfoldable pub add_production :
    CompileLimits → ℕ → EarleyProduction → M CompileError Tables (Unit {0})
add_production limits production_id production = do
  tables ← get
  let offset = length tables.dotted
  enforce_compile_limit earley_preparation
      (saturating_add (saturating_add offset (length production.rhs)) 1) limits.max_lr_items
  to_u32 offset
  modify λ t. record t { dotted_offsets = t.dotted_offsets ++ offset ∷ [] }
  add_start production.lhs offset
  to_u32 production_id
  add_dots production_id production 0 (suc (length production.rhs))

unfoldable pub add_productions :
    CompileLimits → ℕ → List EarleyProduction → M CompileError Tables (Unit {0})
add_productions limits production_id [] = pure tt
add_productions limits production_id (production ∷ rest) = do
  add_production limits production_id production
  add_productions limits (suc production_id) rest

unfoldable pub count_true : List Bool → ℕ
count_true [] = 0
count_true (b ∷ bs) = (if b then 1 else 0) + count_true bs

abbrev pub ends_in_nonterminal : EarleyProduction → Bool
ends_in_nonterminal production = elim (get_last? production.rhs) [
  | none ↦ false
  | some (nonterminal a) ↦ true
  | some (terminal t) ↦ false
]

-- The grammar's productions, and the augmented one behind them.
abbrev pub with_augmented : ResidualGrammar → List EarleyProduction
with_augmented grammar =
    map (λ production. record { lhs = production.lhs; rhs = production.rhs }) grammar.productions
    ++ record { lhs = length grammar.nonterminals; rhs = nonterminal grammar.start ∷ [] } ∷ []

abbrev pub no_tables : ResidualGrammar → Tables
no_tables grammar = record {
  dotted = [];
  dotted_offsets = [];
  starts_by_lhs = replicate (length grammar.nonterminals + 1) [];
}

unfoldable pub build : ResidualGrammar → CompileLimits → Outcome CompileError Tables CompiledEarley
build grammar limits = run (no_tables grammar)
  where
    run : M CompileError Tables CompiledEarley
    run = do
      to_u32 (length grammar.nonterminals)
      to_u32 (length grammar.productions)
      add_productions limits 0 (with_augmented grammar)
      tables ← get
      offset ← or_panic (get_elem? tables.dotted_offsets (length grammar.productions))
      guard (leb (offset + 1) u32_max)
          (CompileError.internal_invariant "augmented dotted rule overflowed")
      pure (record {
        grammar = grammar;
        productions = with_augmented grammar;
        dotted = tables.dotted;
        dotted_offsets = tables.dotted_offsets;
        starts_by_lhs = tables.starts_by_lhs;
        augmented_production = length grammar.productions;
        augmented_complete = offset + 1;
        nullable_nonterminals = count_true grammar.nullable;
        leo_eligible_rules = count_true (map ends_in_nonterminal (with_augmented grammar));
      })
