-- ===== src/Earley/Types.antt =====
-- src/earley.rs, the structs. Hash maps and sets are lists; `EarleyRecognizer` is split into what
-- no method writes (`Setup`) and what they do (`State`).
use oc_earley.Prelude.{ℕ, Bool, Option, List, [], ◌∷◌}
use oc_earley.Error.{RuntimeLimits}
use oc_earley.Grammar.Terminal.{TerminalCursorState, cursor_key}
use oc_earley.Grammar.Residual.{Symbol, ResidualGrammar}

pub record DottedRule : Type 0 where
  pub production : ℕ
  pub dot : ℕ
  pub next : Option Symbol
  pub advanced : Option ℕ
  pub lhs : ℕ

pub record EarleyItem : Type 0 where
  pub dotted : ℕ
  pub origin : ℕ

pub record EarleyStats : Type 0 where
  pub columns : ℕ
  pub items_inserted : ℕ
  pub duplicate_items : ℕ
  pub predictions : ℕ
  pub scans : ℕ
  pub completions : ℕ
  pub nullable_advances : ℕ
  pub leo_candidates : ℕ
  pub leo_hits : ℕ
  pub max_column_items : ℕ
  pub max_active_scans : ℕ
  pub estimated_bytes : ℕ

pub record ChartColumn : Type 0 where
  pub position : ℕ
  pub items : List EarleyItem
  pub membership : List ℕ
  pub waiting_nonterminal : List (ℕ × List EarleyItem)
  pub waiting_terminal : List (ℕ × List EarleyItem)
  pub leo_by_postdot : List (ℕ × EarleyItem)

-- `ChartColumn::new`
abbrev pub new_column : ℕ → ChartColumn
new_column position = record {
  position = position;
  items = [];
  membership = [];
  waiting_nonterminal = [];
  waiting_terminal = [];
  leo_by_postdot = [];
}

pub record ActiveScan : Type 0 where
  pub terminal : ℕ
  pub start : ℕ
  pub cursor : TerminalCursorState

pub record EarleyProduction : Type 0 where
  pub lhs : ℕ
  pub rhs : List Symbol

pub record CompiledEarley : Type 0 where
  pub grammar : ResidualGrammar
  pub productions : List EarleyProduction
  pub dotted : List DottedRule
  pub dotted_offsets : List ℕ
  pub starts_by_lhs : List (List ℕ)
  pub augmented_production : ℕ
  pub augmented_complete : ℕ
  pub nullable_nonterminals : ℕ
  pub leo_eligible_rules : ℕ

-- `size_of` of the structs and `Vec::capacity`, which the compiler and the allocator choose.
pub record Layout : Type 0 where
  pub size_of_item : ℕ
  pub size_of_column : ℕ
  pub size_of_scan : ℕ
  pub capacity : List ActiveScan → ℕ

-- The fields of `EarleyRecognizer` that its methods leave alone.
pub record Setup : Type 0 where
  pub compiled : CompiledEarley
  pub limits : RuntimeLimits
  pub leo_enabled : Bool
  pub generation : ℕ
  pub layout : Layout

-- The fields of `EarleyRecognizer` that its methods write.
pub record State : Type 0 where
  pub chart : List ChartColumn
  pub active_scans : List ActiveScan
  pub byte_position : ℕ
  pub total_items : ℕ
  pub leo_items : ℕ
  pub stats : EarleyStats

pub record EarleyCheckpoint : Type 0 where
  pub generation : ℕ
  pub column_count : ℕ
  pub active_scans : List ActiveScan
  pub byte_position : ℕ
  pub total_items : ℕ
  pub leo_items : ℕ
  pub stats : EarleyStats

-- `EarleyStats::default`
abbrev pub no_stats : EarleyStats
no_stats = record {
  columns = 0;
  items_inserted = 0;
  duplicate_items = 0;
  predictions = 0;
  scans = 0;
  completions = 0;
  nullable_advances = 0;
  leo_candidates = 0;
  leo_hits = 0;
  max_column_items = 0;
  max_active_scans = 0;
  estimated_bytes = 0;
}

-- The tuple by which active scans are sorted. It determines the scan.
unfoldable pub scan_key : ActiveScan → List ℕ
unfolding cursor_key
scan_key scan = scan.terminal ∷ scan.start ∷ cursor_key scan.cursor
