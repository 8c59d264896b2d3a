-- ===== src/Earley/WellFormed.antt =====
-- src/earley.rs: what the tables that `CompiledEarley::build` makes satisfy, and what a recognizer
-- keeps true of its chart with respect to the language of the grammar.
use oc_earley.Prelude.{
  ℕ, suc, ◌+◌, ◌<◌, ◌≤◌, ◌≡◌, ◌≢◌, Bool, true, none, some, List, [], ◌∷◌, ◌++◌, length, get_elem?,
  take, All, u64_max,
}
use oc_earley.Error.{RuntimeError, RuntimeLimits, IsLimit}
use oc_earley.Grammar.Terminal.{CompiledTerminal}
use oc_earley.Grammar.Residual.{Symbol, nonterminal, terminal}
use oc_earley.Grammar.Language.{Rule, Vanishes, Runs, Spans}
use oc_earley.Earley.Types.{
  DottedRule, EarleyItem, ChartColumn, ActiveScan, EarleyProduction, CompiledEarley, Setup, State,
}
use oc_earley.Earley.Chart.{item_key}

-- The indices that a symbol stands for exist.
abbrev pub SymbolOk : CompiledEarley → Symbol → Type 0
SymbolOk c (nonterminal a) =
    ((starts : List ℕ) × (get_elem? c.starts_by_lhs a ≡ some starts))
    × ((b : Bool) × (get_elem? c.grammar.nullable a ≡ some b))
SymbolOk c (terminal t) = (term : CompiledTerminal) × (get_elem? c.grammar.terminals t ≡ some term)

-- The rule behind this one, with the dot moved on.
pub record Advanced (c : CompiledEarley) (rule : DottedRule) : Type 0 where
  pub id : ℕ
  pub target : DottedRule
  pub advanced : rule.advanced ≡ some id
  pub found : get_elem? c.dotted id ≡ some target
  pub production : target.production ≡ rule.production
  pub dot : target.dot ≡ suc rule.dot

pub record RuleOk (c : CompiledEarley) (rule : DottedRule) : Type 0 where
  pub body : EarleyProduction
  pub found : get_elem? c.productions rule.production ≡ some body
  pub lhs : rule.lhs ≡ body.lhs
  pub next : rule.next ≡ get_elem? body.rhs rule.dot
  pub moves : (x : Symbol) → rule.next ≡ some x → Advanced c rule

abbrev pub IsStart : CompiledEarley → ℕ → Type 0
IsStart c d = (rule : DottedRule) × (get_elem? c.dotted d ≡ some rule) × (rule.dot ≡ 0)

-- The row of a left side lists this rule.
abbrev pub Listed : List (List ℕ) → ℕ → ℕ → Type 0
Listed starts lhs d =
    (ds : List ℕ) × (i : ℕ) × (get_elem? starts lhs ≡ some ds) × (get_elem? ds i ≡ some d)

-- A production is predicted with its left side: the row of that lists the rule that begins it.
abbrev pub Predicted : CompiledEarley → ℕ → EarleyProduction → Type 0
Predicted c p body =
    (d : ℕ) × (rule : DottedRule) × Listed c.starts_by_lhs body.lhs d
    × (get_elem? c.dotted d ≡ some rule)
    × (rule.production ≡ p)
    × (rule.dot ≡ 0)

pub record WellFormed (c : CompiledEarley) : Type 0 where
  pub rules : (d : ℕ) (rule : DottedRule) → get_elem? c.dotted d ≡ some rule → RuleOk c rule
  pub starts : (a : ℕ) (ds : List ℕ) → get_elem? c.starts_by_lhs a ≡ some ds → All (IsStart c) ds
  pub predicted :
      (p : ℕ) (body : EarleyProduction) → get_elem? c.productions p ≡ some body → Predicted c p body
  pub symbols :
      (p i : ℕ) (body : EarleyProduction) (x : Symbol)
      → get_elem? c.productions p ≡ some body
      → get_elem? body.rhs i ≡ some x
      → SymbolOk c x
  pub sources :
      (p : ℕ) (body : EarleyProduction)
      → get_elem? c.productions p ≡ some body
      → p ≢ c.augmented_production
      → Rule c.grammar body.lhs body.rhs
  pub nullable :
      (a : ℕ) → get_elem? c.grammar.nullable a ≡ some true → Vanishes c.grammar (nonterminal a ∷ [])
  pub augmented :
      (body : EarleyProduction)
      → get_elem? c.productions c.augmented_production ≡ some body
      → body.rhs ≡ nonterminal c.grammar.start ∷ []
  pub begin : (d : ℕ) × (get_elem? c.dotted_offsets c.augmented_production ≡ some d) × IsStart c d
  pub complete :
      (rule : DottedRule) × (get_elem? c.dotted c.augmented_complete ≡ some rule)
      × (rule.production ≡ c.augmented_production)
      × (rule.dot ≡ 1)

-- The part of the rule's right side before the dot.
abbrev pub rhs_of : CompiledEarley → ℕ → List Symbol
rhs_of c p = elim (get_elem? c.productions p) [ none ↦ [] | some body ↦ body.rhs ]

abbrev pub before_dot : CompiledEarley → DottedRule → List Symbol
before_dot c rule = take rule.dot (rhs_of c rule.production)

module _ (c : CompiledEarley) (input : ℕ → ℕ) where
  -- The item's rule is recognized up to its dot between its origin and position `j`.
  pub record ItemOk (j : ℕ) (item : EarleyItem) : Type 0 where
    pub rule : DottedRule
    pub found : get_elem? c.dotted item.dotted ≡ some rule
    pub origin : item.origin ≤ j
    pub spans : Spans c.grammar input (before_dot c rule) item.origin j

  pub record WaitsFor (j : ℕ) (x : Symbol) (item : EarleyItem) : Type 0 where
    pub item_ok : ItemOk j item
    pub next : item_ok.rule.next ≡ some x

  -- Whenever `a` is recognized from position `j` on, so is this item.
  abbrev pub LeoOk : ℕ → ℕ → EarleyItem → Type 0
  LeoOk j a item = (k : ℕ) → Spans c.grammar input (nonterminal a ∷ []) j k → ItemOk k item

  pub record KeyOk (j key : ℕ) : Type 0 where
    pub item : EarleyItem
    pub same : key ≡ item_key item
    pub item_ok : ItemOk j item

  pub record ColumnOk (j : ℕ) (col : ChartColumn) : Type 0 where
    pub position : col.position ≡ j
    pub items : All (ItemOk j) col.items
    pub membership : All (KeyOk j) col.membership
    pub nonterminals : All (λ e. All (WaitsFor j (nonterminal e.0)) e.1) col.waiting_nonterminal
    pub terminals : All (λ e. All (WaitsFor j (terminal e.0)) e.1) col.waiting_terminal
    pub leo : All (λ e. LeoOk j e.0 e.1) col.leo_by_postdot

  pub record ScanOk (j : ℕ) (scan : ActiveScan) : Type 0 where
    pub term : CompiledTerminal
    pub found : get_elem? c.grammar.terminals scan.terminal ≡ some term
    pub start : scan.start ≤ j
    pub runs : Runs input term scan.start j scan.cursor

-- The limits are `usize` values below the largest.
pub record LimitsOk (limits : RuntimeLimits) : Type 0 where
  pub items : limits.max_items_per_column < u64_max
  pub columns : limits.max_chart_columns < u64_max

-- The number of items in the columns, and of Leo's entries.
unfoldable pub items_in : List ChartColumn → ℕ
items_in [] = 0
items_in (col ∷ cols) = length col.items + items_in cols

unfoldable pub leo_in : List ChartColumn → ℕ
leo_in [] = 0
leo_in (col ∷ cols) = length col.leo_by_postdot + leo_in cols

module _ (self : Setup) (input : ℕ → ℕ) (old : List ChartColumn) where
  -- A state in the middle of the work on the column behind `old`, which is left as it is.
  pub record Working (s : State) : Type 0 where
    pub col : ChartColumn
    pub chart : s.chart ≡ old ++ col ∷ []
    pub column_ok : ColumnOk self.compiled input (length old) col
    pub size : length col.items ≤ self.limits.max_items_per_column
    pub total : s.total_items ≤ self.limits.max_total_items
    pub counted : items_in old + length col.items ≡ s.total_items
    pub leo : s.leo_items ≤ self.limits.max_leo_items
    pub leo_counted : leo_in old + length col.leo_by_postdot ≤ s.leo_items
    pub position : s.byte_position ≤ length old

  -- The only errors are limits, and they leave the older columns as they are.
  pub record Stopped (e : RuntimeError) (s : State) : Type 0 where
    pub is_limit : IsLimit e
    pub col : ChartColumn
    pub chart : s.chart ≡ old ++ col ∷ []
