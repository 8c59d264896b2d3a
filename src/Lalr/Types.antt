-- ===== src/Lalr/Types.antt =====
-- src/lalr.rs, the structs. `LalrRecognizer` is split into what no method writes (`Setup`) and what
-- they do (`State`).
use oc_earley.Prelude.{ℕ, Bool, Option, List, ◌==◌, false}
use oc_earley.Error.{Provenance, RuntimeLimits}
use oc_earley.Grammar.Terminal.{TerminalCursorState}
use oc_earley.Grammar.Residual.{Symbol, ResidualGrammar}

pub data Lookahead : Type 0 where
  terminal : ℕ → Lookahead
  eof : Lookahead

pub data Action : Type 0 where
  shift : ℕ → Action
  reduce : ℕ → Action
  accept : Action

pub data ConflictKind : Type 0 where
  shift_reduce reduce_reduce accept_conflict : ConflictKind

pub record LalrConflict : Type 0 where
  pub kind : ConflictKind
  pub state : ℕ
  pub lookahead : Lookahead
  pub first : Action
  pub second : Action
  pub productions : List ℕ
  pub provenance : List Provenance

pub record LalrBuildStats : Type 0 where
  pub canonical_states : ℕ
  pub merged_states : ℕ
  pub lr_items : ℕ
  pub action_entries : ℕ
  pub goto_entries : ℕ
  pub conflicts : ℕ

pub record LalrRuntimeStats : Type 0 where
  pub shifts : ℕ
  pub reductions : ℕ
  pub max_stack_depth : ℕ
  pub bytes : ℕ

pub record ParserProduction : Type 0 where
  pub lhs : ℕ
  pub rhs : List Symbol
  pub provenance : Provenance
  pub original : Option ℕ

pub record LalrTable : Type 0 where
  pub actions : List (List (Lookahead × Action))
  pub gotos : List (List (ℕ × ℕ))

pub record CompiledLalr : Type 0 where
  pub grammar : ResidualGrammar
  pub productions : List ParserProduction
  pub table : LalrTable
  pub conflicts : List LalrConflict
  pub lexical_safe : Bool
  pub stats : LalrBuildStats

pub record TerminalCandidate : Type 0 where
  pub terminal : ℕ
  pub cursor : TerminalCursorState
  pub stack : List ℕ
  pub shift : ℕ
  pub reductions : ℕ

pub record LalrCheckpoint : Type 0 where
  pub generation : ℕ
  pub stack : List ℕ
  pub candidates : List TerminalCandidate
  pub byte_position : ℕ
  pub stats : LalrRuntimeStats

-- The fields of `LalrRecognizer` that its methods leave alone.
pub record Setup : Type 0 where
  pub compiled : CompiledLalr
  pub limits : RuntimeLimits
  pub generation : ℕ

-- The fields of `LalrRecognizer` that its methods write.
pub record State : Type 0 where
  pub stack : List ℕ
  pub candidates : List TerminalCandidate
  pub byte_position : ℕ
  pub stats : LalrRuntimeStats

-- `==` on `Lookahead`
unfoldable pub same_lookahead : Lookahead → Lookahead → Bool
same_lookahead (terminal a) (terminal b) = a == b
same_lookahead eof eof = Bool.true
same_lookahead _ _ = false
