-- ===== src/Lalr/Recognizer.antt =====
-- src/lalr.rs, `LalrRecognizer`: reading a byte, acceptance, checkpoints. `fuel` bounds the
-- reductions of one call of `action_after_reductions`, whose loop has no bound in the source.
use oc_earley.Prelude.{
  ℕ, zero, suc, ◌+◌, ◌-◌, Bool, true, false, not, Option, none, some, List, [], ◌∷◌, ◌++◌, length,
  get_elem?, get_last?, take, leb, ltb, ◌==◌, if◌then◌else◌, max, u32_max, saturating_add, is_empty,
}
use oc_earley.Outcome.{
  ok, err, panic, out_of_fuel, M, ◌>>=◌, ◌>>◌, pure, fail, exhausted, get, modify, or_fail,
  or_panic, guard,
}
use oc_earley.Error.{
  RuntimeError, internal_invariant, enforce_runtime_limit, input_bytes, parse_stack, active_scans,
}
use oc_earley.Grammar.Terminal.{CompiledTerminal, TerminalCursorState, start, advance}
use oc_earley.Grammar.Terminal
use oc_earley.Lalr.Types.{
  Lookahead, eof, terminal, Action, shift, reduce, accept, LalrRuntimeStats, LalrTable,
  TerminalCandidate, LalrCheckpoint, Setup, State, same_lookahead,
}

abbrev pub Step : Type 0 → Type 0
Step A = M RuntimeError State A

-- The entry under a key of a row. The rows are sorted by distinct keys, as
-- `binary_search_by_key` asks.
unfoldable pub find_in : {K V : Type 0} → (K → K → Bool) → K → List (K × V) → Option V
find_in same key [] = none
find_in same key ((k, v) ∷ row) =
    let rest = find_in same key row in if same key k then some v else rest

abbrev pub find_in_row : {K V : Type 0} → (K → K → Bool) → List (List (K × V)) → ℕ → K → Option V
find_in_row same rows state key = elim (get_elem? rows state) [
  | none ↦ none
  | some row ↦ find_in same key row
]

unfoldable pub find_action : LalrTable → ℕ → Lookahead → Option Action
find_action table state lookahead = find_in_row same_lookahead table.actions state lookahead

unfoldable pub find_goto : LalrTable → ℕ → ℕ → Option ℕ
find_goto table state nonterminal = find_in_row (λ a b. a == b) table.gotos state nonterminal

abbrev pub count : (LalrRuntimeStats → LalrRuntimeStats) → Step (Unit {0})
count f = modify λ s. record s { stats = f s.stats }

-- `CompiledLalr::recognizer`: the setup holds its arguments and the new generation.
abbrev pub initial_state : State
initial_state = record {
  stack = 0 ∷ [];
  candidates = [];
  byte_position = 0;
  stats = record { shifts = 0; reductions = 0; max_stack_depth = 1; bytes = 0 };
}

-- The production that the action reduces by.
abbrev pub reduction : Option Action → Option ℕ
reduction (some (reduce production)) = some production
reduction _ = none

-- One turn of the loop of `action_after_reductions`: the stack after a reduction.
unfoldable pub reduce_stack : Setup → ℕ → List ℕ → Step (List ℕ)
reduce_stack self production stack = do
  body ← or_panic (get_elem? self.compiled.productions production)
  guard (ltb (length body.rhs) (length stack))
      (internal_invariant "LALR reduction underflowed the state stack")
  let rest = take (length stack - length body.rhs) stack
  base ← or_fail (get_last? rest) (internal_invariant "LALR stack is empty after reduction")
  target ←
      or_fail (find_goto self.compiled.table base body.lhs)
        (internal_invariant "LALR goto is missing after reduction")
  enforce_runtime_limit parse_stack (length (rest ++ target ∷ [])) self.limits.max_parse_stack
  count λ t. record t { reductions = saturating_add t.reductions 1 }
  pure (rest ++ target ∷ [])

-- The action, and the stack that the reductions before it lead to.
unfoldable pub action_after_reductions :
    Setup → ℕ → List ℕ → Lookahead → Step (Option Action × List ℕ)
action_after_reductions self zero stack lookahead = exhausted
action_after_reductions self (suc fuel) stack lookahead = do
  top ← or_fail (get_last? stack) (internal_invariant "LALR stack is empty")
  elim (reduction (find_action self.compiled.table top lookahead)) [
    | none ↦ pure (find_action self.compiled.table top lookahead, stack)
    | some production ↦ do
      reduced ← reduce_stack self production stack
      action_after_reductions self fuel reduced lookahead
  ]

-- The state that the action shifts to.
abbrev pub shifted : Option Action → Option ℕ
shifted (some (shift target)) = some target
shifted _ = none

-- The body of the loop over the terminals.
unfoldable pub start_candidate : Setup → ℕ → ℕ → CompiledTerminal → Step (List TerminalCandidate)
start_candidate self fuel id term = do
  guard (leb id u32_max) (internal_invariant "terminal ID does not fit u32")
  before ← get
  (action, stack) ← action_after_reductions self fuel before.stack (terminal id)
  after ← get
  count λ t. record t { reductions = before.stats.reductions }
  elim (shifted action) [
    | none ↦ pure []
    | some target ↦ pure (
        record {
          terminal = id;
          cursor = start term;
          stack = stack;
          shift = target;
          reductions = after.stats.reductions - before.stats.reductions;
        }
        ∷ [])
  ]

unfoldable pub candidates_from :
    Setup → ℕ → ℕ → List CompiledTerminal → Step (List TerminalCandidate)
candidates_from self fuel id [] = pure []
candidates_from self fuel id (term ∷ terms) = do
  here ← start_candidate self fuel id term
  rest ← candidates_from self fuel (suc id) terms
  pure (here ++ rest)

unfoldable pub start_candidates : Setup → ℕ → Step (Unit {0})
start_candidates self fuel = do
  candidates ← candidates_from self fuel 0 self.compiled.grammar.terminals
  enforce_runtime_limit active_scans (length candidates) self.limits.max_active_scans
  modify λ s. record s { candidates = candidates }

-- A candidate whose cursor has moved: those that have accepted and those that go on.
abbrev pub sort_candidate :
    CompiledTerminal
    → TerminalCandidate
    → List TerminalCandidate × List TerminalCandidate
    → List TerminalCandidate × List TerminalCandidate
sort_candidate term moved (accepted, next) = (
  if Terminal.is_accepting term moved.cursor then accepted ++ moved ∷ [] else accepted,
  if Terminal.is_live term moved.cursor then next ++ moved ∷ [] else next,
)

-- The loop over the candidates.
unfoldable pub move_candidates :
    Setup
    → ℕ
    → List TerminalCandidate
    → List TerminalCandidate × List TerminalCandidate
    → Step (List TerminalCandidate × List TerminalCandidate)
move_candidates self byte [] sorted = pure sorted
move_candidates self byte (candidate ∷ candidates) sorted = do
  term ← or_panic (get_elem? self.compiled.grammar.terminals candidate.terminal)
  elim (advance term candidate.cursor byte) [
    | none ↦ move_candidates self byte candidates sorted
    | some cursor ↦
        move_candidates self byte candidates
          (sort_candidate term (record candidate { cursor = cursor }) sorted)
  ]

-- The accepted candidate's terminal is shifted.
unfoldable pub shift_candidate : Setup → TerminalCandidate → Step (Unit {0})
shift_candidate self candidate = do
  let stack = candidate.stack ++ candidate.shift ∷ []
  enforce_runtime_limit parse_stack (length stack) self.limits.max_parse_stack
  modify λ s. record s {
    stack = stack;
    candidates = [];
    stats = record s.stats {
      shifts = saturating_add s.stats.shifts 1;
      reductions = saturating_add s.stats.reductions candidate.reductions;
      max_stack_depth = max s.stats.max_stack_depth (length stack);
    };
  }

-- The end of a call that goes on.
unfoldable pub count_byte : ℕ → Step Bool
count_byte next_position = do
  guard (leb next_position u32_max)
      (RuntimeError.resource_limit_exceeded input_bytes next_position u32_max)
  modify λ s. record s {
    byte_position = next_position;
    stats = record s.stats { bytes = saturating_add s.stats.bytes 1 };
  }
  pure true

-- From the accepted candidates on.
unfoldable pub take_accepted :
    Setup → ℕ → List TerminalCandidate → List TerminalCandidate → Step Bool
take_accepted self next_position [] [] = do modify λ s. record s { candidates = [] }; pure false
take_accepted self next_position [] (candidate ∷ next) = do
  modify λ s. record s { candidates = candidate ∷ next }
  count_byte next_position
take_accepted self next_position (candidate ∷ []) next = do
  shift_candidate self candidate
  count_byte next_position
take_accepted self next_position (first ∷ second ∷ accepted) next =
    fail (internal_invariant "lexically safe LALR state accepted multiple terminals")

unfoldable pub advance_byte : Setup → ℕ → ℕ → Step Bool
advance_byte self fuel byte = do
  s ← get
  let next_position = s.byte_position + 1
  enforce_runtime_limit input_bytes next_position self.limits.max_input_bytes
  if is_empty s.candidates then start_candidates self fuel else pure tt
  started ← get
  modify λ s. record s { candidates = [] }
  (accepted, next) ← move_candidates self byte started.candidates ([], [])
  take_accepted self next_position accepted next

-- A call on a clone, of whose errors the caller only sees that there is one.
abbrev pub on_clone : {A : Type 0} → Bool → (A → State → Bool) → Step A → Step Bool
on_clone otherwise test m s = elim (m s) [
  | ok a t ↦ ok (test a t) s
  | err e t ↦ ok otherwise s
  | panic ↦ panic
  | out_of_fuel ↦ out_of_fuel
]

abbrev pub is_accept : Option Action → Bool
is_accept (some accept) = true
is_accept _ = false

unfoldable pub is_accepting : Setup → ℕ → Step Bool
is_accepting self fuel s =
    if is_empty s.candidates
    then on_clone false (λ r _. is_accept r.0) (action_after_reductions self fuel s.stack eof) s
    else ok false s

unfoldable pub can_start : Setup → ℕ → Step Bool
can_start self fuel =
    on_clone false (λ _ t. not (is_empty t.candidates)) (start_candidates self fuel)

unfoldable pub accepts_or_starts : Setup → ℕ → Step Bool
accepts_or_starts self fuel = do
  accepting ← is_accepting self fuel
  if accepting then pure true else can_start self fuel

unfoldable pub is_live : Setup → ℕ → Step Bool
is_live self fuel s = if is_empty s.candidates then accepts_or_starts self fuel s else ok true s

unfoldable pub checkpoint : Setup → State → LalrCheckpoint
checkpoint self s = record {
  generation = self.generation;
  stack = s.stack;
  candidates = s.candidates;
  byte_position = s.byte_position;
  stats = s.stats;
}

unfoldable pub restore : Setup → LalrCheckpoint → Step (Unit {0})
restore self saved = do
  guard (saved.generation == self.generation)
      (RuntimeError.invalid_checkpoint self.generation saved.generation)
  modify λ s. record {
    stack = saved.stack;
    candidates = saved.candidates;
    byte_position = saved.byte_position;
    stats = saved.stats;
  }
