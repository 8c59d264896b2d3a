-- ===== src/Lalr/Table.antt =====
-- src/lalr.rs, `build_table`: the action and goto tables from the merged item sets.
use oc_earley.Prelude.{
  ℕ, suc, ◌+◌, Bool, true, false, ◌&&◌, Option, none, some, List, [], ◌∷◌, length, get_elem?, leb,
  ◌==◌, if◌then◌else◌, insert, sort_by_key, u32_max, is_empty,
}
use oc_earley.Outcome.{
  Outcome, ok, err, panic, out_of_fuel, M, ◌>>=◌, ◌>>◌, pure, get, modify, or_fail, or_panic, guard,
  for_each, bind,
}
use oc_earley.Error.{CompileError, lalr_table, CompileLimits, enforce_compile_limit}
use oc_earley.Grammar.Residual.{Symbol, nonterminal}
use oc_earley.Grammar.Residual as Residual
use oc_earley.Lalr.Types.{
  Lookahead, terminal, eof, Action, shift, reduce, accept, LalrConflict, ParserProduction,
  LalrTable, CompiledLalr,
}
use oc_earley.Lalr.Actions.{Row, insert_action}

pub record Lr1Item : Type 0 where
  pub production : ℕ
  pub dot : ℕ
  pub lookahead : Lookahead

abbrev pub symbol_key : Symbol → ℕ × ℕ
symbol_key (Residual.terminal id) = (0, id)
symbol_key (nonterminal id) = (1, id)

unfoldable pub symbol_after_dot :
    {S : Type 0} → List ParserProduction → Lr1Item → M CompileError S (Option Symbol)
symbol_after_dot productions item = do
  production ←
      or_fail (get_elem? productions item.production)
        (CompileError.internal_invariant "LR item production does not exist")
  pure (get_elem? production.rhs item.dot)

-- The maps of one state, and the conflicts of all.
pub record Work : Type 0 where
  pub entries : Row
  pub gotos : List (ℕ × ℕ)

abbrev pub on_entries : {A : Type 0} → M CompileError Row A → M CompileError Work A
on_entries m w = elim (m w.entries) [
  | ok a r ↦ ok a (record w { entries = r })
  | err e r ↦ err e (record w { entries = r })
  | panic ↦ panic
  | out_of_fuel ↦ out_of_fuel
]

abbrev pub is_eof : Lookahead → Bool
is_eof eof = true
is_eof (terminal t) = false

-- The arguments of `build_table` but the states. A map is a function.
pub record Build : Type 0 where
  pub transitions : ℕ → ℕ × ℕ → Option ℕ
  pub productions : List ParserProduction
  pub augmented : ℕ
  pub limits : CompileLimits

unfoldable pub at_symbol : Build → ℕ → Lr1Item → Option Symbol → M CompileError Work (Unit {0})
at_symbol b state item (some (Residual.terminal t)) = do
  target ← or_panic (b.transitions state (symbol_key (Residual.terminal t)))
  on_entries
      (insert_action b.limits b.productions state (terminal t) (shift target) item.production)
at_symbol b state item (some (nonterminal a)) = do
  target ← or_panic (b.transitions state (symbol_key (nonterminal a)))
  modify λ w. record w { gotos = insert a target w.gotos }
at_symbol b state item none =
    if item.production == b.augmented && is_eof item.lookahead
    then on_entries (insert_action b.limits b.productions state eof accept item.production)
    else on_entries (
        insert_action b.limits b.productions state item.lookahead (reduce item.production)
          item.production)

unfoldable pub add_item : Build → ℕ → Lr1Item → M CompileError Work (Unit {0})
add_item b state item = do
  symbol ← symbol_after_dot b.productions item
  at_symbol b state item symbol

-- The order of `Lookahead`
abbrev pub lookahead_key : Lookahead → List ℕ
lookahead_key (terminal t) = 0 ∷ t ∷ []
lookahead_key eof = 1 ∷ []

abbrev pub Rows : Type 0
Rows = List (List (Lookahead × Action)) × List (List (ℕ × ℕ))

-- The maps of a state are empty at first, and no other state writes them.
abbrev pub work_from : List LalrConflict → Work
work_from conflicts = record {
  entries = record { row = []; sources = []; conflicts = conflicts };
  gotos = [];
}

-- The body of the loop over the states.
unfoldable pub add_state : Build → ℕ → List Lr1Item → M CompileError Work (Unit {0})
add_state b state items = do
  guard (leb state u32_max) (CompileError.resource_limit_exceeded lalr_table state u32_max)
  for_each items λ item. add_item b state item

unfoldable pub build_rows :
    Build → ℕ → List (List Lr1Item) → List LalrConflict → Outcome CompileError Work Rows
build_rows b state [] conflicts = ok ([], []) (work_from conflicts)
build_rows b state (items ∷ states) conflicts =
    bind (add_state b state items (work_from conflicts)) λ _ w.
      bind (build_rows b (suc state) states w.entries.conflicts) λ (actions, gotos) last.
        ok
          (
            sort_by_key (λ (e : Lookahead × Action). lookahead_key e.0) w.entries.row ∷ actions,
            sort_by_key (λ (e : ℕ × ℕ). e.0 ∷ []) w.gotos ∷ gotos,
          )
          last

abbrev pub total_length {ℓ} : {A : Type ℓ} → List (List A) → ℕ
total_length [] = 0
total_length (row ∷ rows) = length row + total_length rows

unfoldable pub build_table :
    Build → List (List Lr1Item) → Outcome CompileError Work (LalrTable × List LalrConflict)
build_table b states = run (work_from [])
  where
    run : M CompileError Work (LalrTable × List LalrConflict)
    run = do
      (actions, gotos) ← λ _. build_rows b 0 states []
      enforce_compile_limit lalr_table (total_length actions) b.limits.max_action_entries
      enforce_compile_limit lalr_table (total_length gotos) b.limits.max_goto_entries
      w ← get
      pure (record { actions = actions; gotos = gotos }, w.entries.conflicts)

-- Only tables without a conflict, whose terminals can be told apart byte by byte, are used.
unfoldable pub is_usable : CompiledLalr → Bool
is_usable self = is_empty self.conflicts && self.lexical_safe
