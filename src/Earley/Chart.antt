-- ===== src/Earley/Chart.antt =====
-- src/earley.rs, the work on one column of the chart: inserting items, prediction, completion, the
-- nullable closure, and Leo's entries.
use oc_earley.Prelude.{
  ℕ, zero, suc, ◌+◌, ◌*◌, Option, none, some, List, [], ◌∷◌, ◌++◌, length, get_elem?, set, ◌==◌,
  if◌then◌else◌, contains, find, push, or_default, u64_max, saturating_add, checked_add,
}
use oc_earley.Outcome.{M, exhausted, ◌>>=◌, ◌>>◌, pure, get, modify, or_fail, or_panic, for_each}
use oc_earley.Error.{RuntimeError, enforce_runtime_limit, items_per_column, total_items}
use oc_earley.Grammar.Terminal.{CompiledTerminal}
use oc_earley.Grammar.Terminal
use oc_earley.Grammar.Residual.{Symbol, nonterminal, terminal}
use oc_earley.Earley.Types.{
  DottedRule, EarleyItem, EarleyStats, ChartColumn, ActiveScan, Setup, State,
}

-- A call of a method of the recognizer.
abbrev pub Step : Type 0 → Type 0
Step A = M RuntimeError State A

-- `(u64::from(item.dotted) << 32) | u64::from(item.origin)`: both are `u32`, so the bits of the two
-- parts do not meet and their sum is the same number.
abbrev pub item_key : EarleyItem → ℕ
item_key item = item.dotted * 4294967296 + item.origin

-- `self.chart[column]`, read and written
abbrev pub column_at : ℕ → Step ChartColumn
column_at column s = or_panic (get_elem? s.chart column) s

abbrev pub write_column : ℕ → ChartColumn → Step (Unit {0})
write_column column col = modify λ s. record s { chart = set s.chart column col }

abbrev pub count : (EarleyStats → EarleyStats) → Step (Unit {0})
count f = modify λ s. record s { stats = f s.stats }

unfoldable pub insert_new : Setup → ℕ → EarleyItem → Step (Unit {0})
insert_new self column item = do
  col ← column_at column
  enforce_runtime_limit items_per_column (saturating_add (length col.items) 1)
      self.limits.max_items_per_column
  s ← get
  total ←
      or_fail (checked_add s.total_items 1)
        (RuntimeError.resource_limit_exceeded total_items u64_max self.limits.max_total_items)
  enforce_runtime_limit total_items total self.limits.max_total_items
  write_column column (record col { items = col.items ++ item ∷ [] })
  modify λ s. record s { total_items = total }
  count λ t. record t { items_inserted = saturating_add t.items_inserted 1 }

unfoldable pub insert_item : Setup → ℕ → EarleyItem → Step (Unit {0})
insert_item self column item = do
  col ← column_at column
  if contains (item_key item) col.membership
      then count (λ t. record t { duplicate_items = saturating_add t.duplicate_items 1 })
      else do
        write_column column (record col { membership = item_key item ∷ col.membership })
        insert_new self column item

unfoldable pub dotted : Setup → EarleyItem → Step DottedRule
dotted self item =
    or_fail (get_elem? self.compiled.dotted item.dotted)
      (RuntimeError.internal_invariant "Earley dotted rule does not exist")

unfoldable pub advance_item : Setup → EarleyItem → Step EarleyItem
advance_item self item = do
  rule ← dotted self item
  advanced ←
      or_fail rule.advanced (RuntimeError.internal_invariant "completed Earley item cannot advance")
  pure (record { dotted = advanced; origin = item.origin })

-- `let advanced = self.advance_item(waiter)?; self.insert_item(column, advanced)?`
unfoldable pub advance_into : Setup → ℕ → EarleyItem → Step (Unit {0})
advance_into self column item = do
  advanced ← advance_item self item
  insert_item self column advanced

unfoldable pub leo_completion : Setup → EarleyItem → Step (Option EarleyItem)
leo_completion self item = do
  rule ← dotted self item
  s ← get
  origin ←
      or_fail (get_elem? s.chart item.origin)
        (RuntimeError.internal_invariant "Earley item origin column does not exist")
  pure (find rule.lhs origin.leo_by_postdot)

-- The loop over the waiters of a completed item.
unfoldable pub complete_waiters : Setup → ℕ → EarleyItem → ℕ → Step (Unit {0})
complete_waiters self column item lhs = do
  origin ← column_at item.origin
  for_each (or_default (find lhs origin.waiting_nonterminal)) λ waiter. do
    count λ t. record t { completions = saturating_add t.completions 1 }
    advance_into self column waiter

-- `leo_completion`, only when Leo items are on
unfoldable pub leo_top : Setup → EarleyItem → Step (Option EarleyItem)
leo_top self item = if self.leo_enabled then leo_completion self item else pure none

-- The two ends of `complete`: at the Leo item, or at the waiters.
unfoldable pub complete_with : Setup → ℕ → EarleyItem → ℕ → Option EarleyItem → Step (Unit {0})
complete_with self column item lhs none = complete_waiters self column item lhs
complete_with self column item lhs (some top) = do
  count λ t. record t { leo_hits = saturating_add t.leo_hits 1 }
  insert_item self column top

unfoldable pub complete : Setup → ℕ → EarleyItem → Step (Unit {0})
complete self column item = do
  rule ← dotted self item
  if rule.production == self.compiled.augmented_production
      then pure tt
      else do top ← leo_top self item; complete_with self column item rule.lhs top

-- The loop over the rules of a predicted nonterminal.
unfoldable pub predict : Setup → ℕ → List ℕ → Step (Unit {0})
predict self column starts = for_each starts λ start. do
  count λ t. record t { predictions = saturating_add t.predictions 1 }
  col ← column_at column
  insert_item self column (record { dotted = start; origin = col.position })

-- A nullable nonterminal is skipped over at once.
unfoldable pub skip_nullable : Setup → ℕ → EarleyItem → ℕ → Step (Unit {0})
skip_nullable self column item a = do
  nullable ← or_panic (get_elem? self.compiled.grammar.nullable a)
  if nullable
      then (do
        count λ t. record t { nullable_advances = saturating_add t.nullable_advances 1 }
        advance_into self column item)
      else pure tt

-- `match dotted.next` at a nonterminal
unfoldable pub at_nonterminal : Setup → ℕ → EarleyItem → ℕ → Step (Unit {0})
at_nonterminal self column item a = do
  col ← column_at column
  write_column column (record col { waiting_nonterminal = push a item col.waiting_nonterminal })
  starts ← or_panic (get_elem? self.compiled.starts_by_lhs a)
  predict self column starts
  skip_nullable self column item a

-- `match dotted.next` at a terminal: the scan to be pushed
unfoldable pub at_terminal : Setup → ℕ → EarleyItem → ℕ → Step ActiveScan
at_terminal self column item t = do
  col ← column_at column
  write_column column (record col { waiting_terminal = push t item col.waiting_terminal })
  term ← or_panic (get_elem? self.compiled.grammar.terminals t)
  pure (record { terminal = t; start = col.position; cursor = Terminal.start term })

unfoldable pub process_next :
    Setup → ℕ → EarleyItem → List ActiveScan → Option Symbol → Step (List ActiveScan)
process_next self column item scans (some (nonterminal a)) = do
  at_nonterminal self column item a
  pure scans
process_next self column item scans (some (terminal t)) = do
  scan ← at_terminal self column item t
  pure (scans ++ scan ∷ [])
process_next self column item scans none = do complete self column item; pure scans

-- The body of the loop of `saturate`.
unfoldable pub process : Setup → ℕ → EarleyItem → List ActiveScan → Step (List ActiveScan)
process self column item scans = do
  rule ← dotted self item
  process_next self column item scans rule.next

-- `while agenda < self.chart[column].items.len()`, with fuel
unfoldable pub saturate_loop : Setup → ℕ → ℕ → ℕ → List ActiveScan → Step (List ActiveScan)
saturate_loop self zero column agenda scans = exhausted
saturate_loop self (suc fuel) column agenda scans = do
  col ← column_at column
  elim (get_elem? col.items agenda) [
    | none ↦ pure scans
    | some item ↦ do
      scans' ← process self column item scans
      saturate_loop self fuel column (suc agenda) scans'
  ]
