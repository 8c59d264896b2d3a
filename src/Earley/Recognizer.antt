-- ===== src/Earley/Recognizer.antt =====
-- src/earley.rs: making a recognizer, reading a byte, acceptance, checkpoints.
use oc_earley.Prelude.{
  ℕ, ◌+◌, ◌*◌, Bool, false, not, ◌&&◌, ◌||◌, none, some, List, [], ◌∷◌, ◌++◌, length, get_elem?,
  get_last?, take, ltb, leb, ◌==◌, if◌then◌else◌, max, contains, find, or_default, u32_max, u64_max,
  saturating_add, min, is_empty,
}
use oc_earley.Outcome.{Outcome, ◌>>=◌, ◌>>◌, pure, get, modify, or_panic, guard, for_each}
use oc_earley.Error.{RuntimeError, enforce_runtime_limit, input_bytes, chart_columns, active_scans}
use oc_earley.Grammar.Terminal.{CompiledTerminal, TerminalCursorState, advance}
use oc_earley.Grammar.Terminal
use oc_earley.Earley.Types.{ActiveScan, Setup, State, EarleyCheckpoint, new_column, no_stats}
use oc_earley.Earley.Chart.{Step, column_at, count, insert_item, advance_into}
use oc_earley.Earley.Leo.{saturate, sort_scans}

-- `usize::saturating_mul`
abbrev pub saturating_mul : ℕ → ℕ → ℕ
saturating_mul a b = min (a * b) u64_max

unfoldable pub finish_column_stats : Setup → ℕ → Step (Unit {0})
finish_column_stats self column = do
  s ← get
  col ← column_at column
  let item_bytes = saturating_mul s.total_items self.layout.size_of_item
  let column_bytes = saturating_mul (length s.chart) self.layout.size_of_column
  let scan_bytes = saturating_mul (self.layout.capacity s.active_scans) self.layout.size_of_scan
  count λ t. record t {
    columns = length s.chart;
    max_column_items = max t.max_column_items (length col.items);
    max_active_scans = max t.max_active_scans (length s.active_scans);
    estimated_bytes = saturating_add (saturating_add item_bytes column_bytes) scan_bytes;
  }

-- The key of the completed augmented rule that starts at position 0.
abbrev pub accepting_key : Setup → ℕ
accepting_key self = self.compiled.augmented_complete * 4294967296

unfoldable pub is_accepting : Setup → State → Bool
is_accepting self s = elim (get_last? s.chart) [
  | none ↦ false
  | some column ↦ contains (accepting_key self) column.membership
]

unfoldable pub is_live : Setup → State → Bool
is_live self s = is_accepting self s || not (is_empty s.active_scans)

-- The accepted terminal's waiters move on.
unfoldable pub accept_scan : Setup → ℕ → ActiveScan → Step (Unit {0})
accept_scan self column scan = do
  start ← column_at scan.start
  for_each (or_default (find scan.terminal start.waiting_terminal))
      λ waiter. advance_into self column waiter

-- A scan whose cursor has moved to `cursor`: the scans that go on.
unfoldable pub scan_moved :
    Setup → ℕ → ActiveScan → CompiledTerminal → TerminalCursorState → Step (List ActiveScan)
scan_moved self column scan term cursor = do
  count λ t. record t { scans = saturating_add t.scans 1 }
  if Terminal.is_accepting term cursor then accept_scan self column scan else pure tt
  pure (if Terminal.is_live term cursor then record scan { cursor = cursor } ∷ [] else [])

-- The body of the loop over the active scans.
unfoldable pub scan_byte : Setup → ℕ → ℕ → ActiveScan → Step (List ActiveScan)
scan_byte self column byte scan = do
  term ← or_panic (get_elem? self.compiled.grammar.terminals scan.terminal)
  elim (advance term scan.cursor byte) [
    | none ↦ pure []
    | some cursor ↦ scan_moved self column scan term cursor
  ]

unfoldable pub scan_bytes :
    Setup → ℕ → ℕ → List ActiveScan → List ActiveScan → Step (List ActiveScan)
scan_bytes self column byte [] continuing = pure continuing
scan_bytes self column byte (scan ∷ scans) continuing = do
  kept ← scan_byte self column byte scan
  scan_bytes self column byte scans (continuing ++ kept)

-- From the new column on.
unfoldable pub fill_column : Setup → ℕ → ℕ → ℕ → List ActiveScan → Step Bool
fill_column self byte next_position column scans = do
  continuing ← scan_bytes self column byte scans []
  created ← saturate self column
  let all = sort_scans (continuing ++ created)
  enforce_runtime_limit active_scans (length all) self.limits.max_active_scans
  modify λ s. record s { active_scans = all; byte_position = next_position }
  finish_column_stats self column
  s ← get
  pure (is_live self s)

unfoldable pub advance_byte : Setup → ℕ → Step Bool
advance_byte self byte = do
  s ← get
  let next_position = s.byte_position + 1
  enforce_runtime_limit input_bytes next_position self.limits.max_input_bytes
  enforce_runtime_limit chart_columns (saturating_add (length s.chart) 1)
      self.limits.max_chart_columns
  guard (leb next_position u32_max)
      (RuntimeError.resource_limit_exceeded input_bytes next_position u32_max)
  modify λ s. record s { chart = s.chart ++ new_column next_position ∷ []; active_scans = [] }
  fill_column self byte next_position (length s.chart) s.active_scans

-- The fields of a recognizer that has just been made.
abbrev pub initial_state : State
initial_state = record {
  chart = new_column 0 ∷ [];
  active_scans = [];
  byte_position = 0;
  total_items = 0;
  leo_items = 0;
  stats = no_stats;
}

unfoldable pub start_recognizer : Setup → Step (Unit {0})
start_recognizer self = do
  enforce_runtime_limit chart_columns 1 self.limits.max_chart_columns
  start ← or_panic (get_elem? self.compiled.dotted_offsets self.compiled.augmented_production)
  insert_item self 0 (record { dotted = start; origin = 0 })
  scans ← saturate self 0
  enforce_runtime_limit active_scans (length scans) self.limits.max_active_scans
  modify λ s. record s { active_scans = scans }
  finish_column_stats self 0

-- `CompiledEarley::recognizer`: the setup holds its arguments and the new generation.
unfoldable pub recognizer : Setup → Outcome RuntimeError State (Unit {0})
recognizer self = start_recognizer self initial_state

unfoldable pub checkpoint : Setup → State → EarleyCheckpoint
checkpoint self s = record {
  generation = self.generation;
  column_count = length s.chart;
  active_scans = s.active_scans;
  byte_position = s.byte_position;
  total_items = s.total_items;
  leo_items = s.leo_items;
  stats = s.stats;
}

unfoldable pub restore : Setup → EarleyCheckpoint → Step (Unit {0})
restore self saved = do
  s ← get
  guard (saved.generation == self.generation)
      (RuntimeError.invalid_checkpoint self.generation saved.generation)
  guard (ltb 0 saved.column_count && leb saved.column_count (length s.chart))
      (RuntimeError.internal_invariant "Earley checkpoint column count is invalid")
  modify λ s. record {
    chart = take saved.column_count s.chart;
    active_scans = saved.active_scans;
    byte_position = saved.byte_position;
    total_items = saved.total_items;
    leo_items = saved.leo_items;
    stats = saved.stats;
  }
