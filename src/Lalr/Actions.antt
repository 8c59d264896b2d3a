-- ===== src/Lalr/Actions.antt =====
-- src/lalr.rs, `insert_action`: one entry of the action table, or the conflict it makes. Of a
-- `BTreeMap` the model keeps the entries, not their order.
pub mod Entering
use oc_earley.Prelude.{
  ℕ, Bool, true, false, Option, none, some, List, [], ◌∷◌, ◌++◌, length, get_elem?, ◌==◌,
  if◌then◌else◌, contains, or_default, sort_by_key, dedup_by_key, saturating_add,
}
use oc_earley.Outcome.{M, ◌>>=◌, ◌>>◌, get, modify}
use oc_earley.Error.{CompileError, lalr_table, Provenance, CompileLimits, enforce_compile_limit}
use oc_earley.Lalr.Types.{
  Lookahead, terminal, eof, Action, shift, reduce, accept, ConflictKind, shift_reduce,
  reduce_reduce, accept_conflict, LalrConflict, ParserProduction, same_lookahead,
}
use oc_earley.Lalr.Recognizer.{find_in}

-- What `insert_action` writes: a row of the table, the productions behind its entries, and the
-- conflicts found so far.
pub record Row : Type 0 where
  pub row : List (Lookahead × Action)
  pub sources : List (Lookahead × List ℕ)
  pub conflicts : List LalrConflict

-- `==` on `Action`
abbrev pub same_action : Action → Action → Bool
same_action (shift a) (shift b) = a == b
same_action (reduce a) (reduce b) = a == b
same_action accept accept = true
same_action _ _ = false

abbrev pub conflict_kind : Action → Action → ConflictKind
conflict_kind (shift a) (reduce b) = shift_reduce
conflict_kind (reduce a) (shift b) = shift_reduce
conflict_kind (reduce a) (reduce b) = reduce_reduce
conflict_kind _ _ = accept_conflict

-- `sources.entry(lookahead).or_default()`, with the production added unless it is there
unfoldable pub add_source : Lookahead → ℕ → List (Lookahead × List ℕ) → List (Lookahead × List ℕ)
add_source lookahead source [] = (lookahead, source ∷ []) ∷ []
add_source lookahead source ((l, known) ∷ sources) =
    let rest = add_source lookahead source sources in
    if same_lookahead lookahead l
    then (l, (if contains source known then known else known ++ source ∷ [])) ∷ sources
    else (l, known) ∷ rest

abbrev pub reduced_by : Action → List ℕ
reduced_by (reduce production) = production ∷ []
reduced_by _ = []

-- The productions that a conflict names, sorted and each once.
abbrev pub involved : List ℕ → ℕ → Action → Action → List ℕ
involved known source existing action =
    dedup_by_key (λ id. id ∷ [])
      (sort_by_key (λ id. id ∷ []) (known ++ (source ∷ (reduced_by existing ++ reduced_by action))))

-- `filter_map` over the productions that exist
unfoldable pub provenance_of : List ParserProduction → List ℕ → List Provenance
provenance_of productions [] = []
provenance_of productions (id ∷ ids) =
    let rest = provenance_of productions ids in
    elim (get_elem? productions id) [ none ↦ rest | some production ↦ production.provenance ∷ rest ]

abbrev pub conflict :
    ℕ → Lookahead → Action → Action → List ParserProduction → List ℕ → LalrConflict
conflict state lookahead existing action productions ids = record {
  kind = conflict_kind existing action;
  state = state;
  lookahead = lookahead;
  first = existing;
  second = action;
  productions = ids;
  provenance = provenance_of productions ids;
}

unfoldable pub add_conflict :
    CompileLimits
    → List ParserProduction
    → ℕ
    → Lookahead
    → Action
    → Action
    → ℕ
    → M CompileError Row (Unit {0})
add_conflict limits productions state lookahead existing action source = do
  t ← get
  enforce_compile_limit lalr_table (saturating_add (length t.conflicts) 1)
      limits.max_reported_conflicts
  modify λ s. record s {
    conflicts =
        s.conflicts
        ++ conflict state lookahead existing action productions (
            involved (or_default (find_in same_lookahead lookahead s.sources)) source existing
              action)
          ∷ [];
  }

unfoldable pub insert_action :
    CompileLimits
    → List ParserProduction
    → ℕ
    → Lookahead
    → Action
    → ℕ
    → M CompileError Row (Unit {0})
insert_action limits productions state lookahead action source = do
  t ← get
  elim (find_in same_lookahead lookahead t.row) [
    | none ↦ modify λ s. record s {
      row = s.row ++ (lookahead, action) ∷ [];
      sources = s.sources ++ (lookahead, source ∷ []) ∷ [];
    }
    | some existing ↦
        if same_action existing action
        then modify (λ s. record s { sources = add_source lookahead source s.sources })
        else add_conflict limits productions state lookahead existing action source
  ]
