-- ===== src/Earley/Leo.antt =====
-- src/earley.rs, the end of a column's saturation: Leo's entries, and `saturate` itself.
use oc_earley.Prelude.{
  ℕ, suc, ◌+◌, none, some, List, [], ◌∷◌, length, get_elem?, ltb, ◌==◌, if◌then◌else◌, find, insert,
  keys, sort_by_key, dedup_by_key, u64_max, saturating_add, checked_add,
}
use oc_earley.Outcome.{◌>>=◌, ◌>>◌, pure, get, modify, or_fail, or_panic, for_each}
use oc_earley.Error.{RuntimeError, enforce_runtime_limit, leo_items}
use oc_earley.Earley.Types.{EarleyItem, ActiveScan, Setup, scan_key}
use oc_earley.Earley.Chart.{
  Step, column_at, write_column, count, dotted, advance_item, saturate_loop,
}

-- The target of the Leo item for a waiter that has been advanced over its last symbol.
unfoldable pub leo_target : Setup → ℕ → EarleyItem → ℕ → Step EarleyItem
leo_target self column advanced lhs =
    if ltb advanced.origin column
    then (do
      origin ← column_at advanced.origin
      pure (elim (find lhs origin.leo_by_postdot) [ none ↦ advanced | some top ↦ top ]))
    else pure advanced

unfoldable pub add_leo : Setup → ℕ → ℕ → EarleyItem → Step (Unit {0})
add_leo self column postdot target = do
  s ← get
  next_count ←
      or_fail (checked_add s.leo_items 1)
        (RuntimeError.resource_limit_exceeded leo_items u64_max self.limits.max_leo_items)
  enforce_runtime_limit leo_items next_count self.limits.max_leo_items
  col ← column_at column
  write_column column (record col { leo_by_postdot = insert postdot target col.leo_by_postdot })
  modify λ s. record s { leo_items = next_count }
  count λ t. record t { leo_candidates = saturating_add t.leo_candidates 1 }

unfoldable pub leo_waiter : Setup → ℕ → ℕ → EarleyItem → Step (Unit {0})
leo_waiter self column postdot waiter = do
  rule ← dotted self waiter
  production ← or_panic (get_elem? self.compiled.productions rule.production)
  if rule.dot + 1 == length production.rhs
      then (do
        advanced ← advance_item self waiter
        advanced_rule ← dotted self advanced
        target ← leo_target self column advanced advanced_rule.lhs
        add_leo self column postdot target)
      else pure tt

-- Only a single waiter is of use.
unfoldable pub leo_waiters : Setup → ℕ → ℕ → List EarleyItem → Step (Unit {0})
leo_waiters self column postdot (waiter ∷ []) = leo_waiter self column postdot waiter
leo_waiters self column postdot _ = pure tt

unfoldable pub leo_postdot : Setup → ℕ → ℕ → Step (Unit {0})
leo_postdot self column postdot = do
  col ← column_at column
  waiters ← or_panic (find postdot col.waiting_nonterminal)
  leo_waiters self column postdot waiters

unfoldable pub finish_leo_column : Setup → ℕ → Step (Unit {0})
finish_leo_column self column = do
  col ← column_at column
  for_each (sort_by_key (λ k. k ∷ []) (keys col.waiting_nonterminal))
      λ postdot. leo_postdot self column postdot

-- `sort_by_key` with the scan's key, and `dedup`
abbrev pub sort_scans : List ActiveScan → List ActiveScan
sort_scans scans = dedup_by_key scan_key (sort_by_key scan_key scans)

-- Each round of the loop reads one more item of the column, and `insert_item` keeps their number
-- within `max_items_per_column`, so one round more than that is enough.
unfoldable pub saturate : Setup → ℕ → Step (List ActiveScan)
saturate self column = do
  scans ← saturate_loop self (suc self.limits.max_items_per_column) column 0 []
  if self.leo_enabled then finish_leo_column self column else pure tt
  pure (sort_scans scans)
