-- ===== src/Lalr/Actions/Entering.antt =====
-- src/lalr.rs, `insert_action`: an entry is never changed, and a conflict says what it is between.
use oc_earley.Prelude.{
  ℕ, ◌≡◌, ◌≢◌, ◌⊎◌, true, none, some, List, [], ◌∷◌, ◌++◌, length, contains, or_default,
  saturating_add,
}
use oc_earley.Error.{CompileError, lalr_table, CompileLimits}
use oc_earley.Lalr.Types.{
  Lookahead, Action, shift, reduce, accept, ConflictKind, shift_reduce, reduce_reduce,
  accept_conflict, LalrConflict, ParserProduction, same_lookahead,
}
use oc_earley.Lalr.Recognizer.{find_in}
use oc_earley.Lalr.Actions.{Row, provenance_of}

-- An entry that the first row has is the same in the second.
abbrev pub Keeps : Lookahead → Row → Row → Type 0
Keeps l s t =
    (find_in same_lookahead l s.row ≡ none)
    ⊎ (find_in same_lookahead l t.row ≡ find_in same_lookahead l s.row)

-- The kind of a conflict between two actions.
pub data Clash : Action → Action → ConflictKind → Type 0 where
  shift_then_reduce : {a b : ℕ} → Clash (shift a) (reduce b) shift_reduce
  reduce_then_shift : {a b : ℕ} → Clash (reduce a) (shift b) shift_reduce
  two_reduces : {a b : ℕ} → Clash (reduce a) (reduce b) reduce_reduce
  accept_first : {b : Action} → Clash accept b accept_conflict
  accept_second : {a : Action} → Clash a accept accept_conflict
  two_shifts : {a b : ℕ} → Clash (shift a) (shift b) accept_conflict

-- The productions known for a lookahead.
abbrev pub sources_of : Lookahead → Row → List ℕ
sources_of lookahead s = or_default (find_in same_lookahead lookahead s.sources)

-- A conflict of the new action with the entry that is there.
pub record Reported (productions : List ParserProduction) (state : ℕ) (lookahead : Lookahead)
    (action : Action) (source : ℕ) (s : Row) (c : LalrConflict) : Type 0 where
  pub first : find_in same_lookahead lookahead s.row ≡ some c.first
  pub second : c.second ≡ action
  pub differ : c.first ≢ action
  pub kind : Clash c.first action c.kind
  pub at_state : c.state ≡ state
  pub at_lookahead : c.lookahead ≡ lookahead
  pub source_named : contains source c.productions ≡ true
  pub known_named :
      (p : ℕ) → contains p (sources_of lookahead s) ≡ true → contains p c.productions ≡ true
  pub reduced_named :
      (p : ℕ) → (c.first ≡ reduce p) ⊎ (action ≡ reduce p) → contains p c.productions ≡ true
  pub provenance : c.provenance ≡ provenance_of productions c.productions

-- Either there was no entry, and the new one is there; or it was there before; or another was, and
-- the conflict of the two is reported.
abbrev pub Entered : List ParserProduction → ℕ → Lookahead → Action → ℕ → Row → Row → Type 0
Entered productions state lookahead action source s t =
    ((find_in same_lookahead lookahead s.row ≡ none)
      × (find_in same_lookahead lookahead t.row ≡ some action)
      × (t.sources ≡ s.sources ++ (lookahead, source ∷ []) ∷ [])
      × (t.conflicts ≡ s.conflicts))
    ⊎ ((find_in same_lookahead lookahead s.row ≡ some action)
        × (t.row ≡ s.row)
        × (contains source (sources_of lookahead t) ≡ true)
        × (t.conflicts ≡ s.conflicts))
    ⊎ ((c : LalrConflict) × Reported productions state lookahead action source s c
        × (t ≡ record s { conflicts = s.conflicts ++ c ∷ [] }))

-- Another entry is there, and no more conflicts may be reported.
pub record TooMany (limits : CompileLimits) (lookahead : Lookahead) (action : Action) (s : Row)
    (e : CompileError) : Type 0 where
  pub existing : Action
  pub present : find_in same_lookahead lookahead s.row ≡ some existing
  pub differ : existing ≢ action
  pub error :
      e
      ≡ CompileError.resource_limit_exceeded lalr_table
          (saturating_add (length s.conflicts) 1)
          limits.max_reported_conflicts
