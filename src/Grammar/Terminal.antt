-- ===== src/Grammar/Terminal.antt =====
-- src/grammar.rs, `CompiledTerminal`: a terminal reads bytes with a cursor.
use oc_earley.Prelude.{
  ℕ, ◌+◌, Bool, false, Option, none, some, List, [], ◌∷◌, length, get_elem?, ltb, leb, ◌==◌,
  if◌then◌else◌, u32_max,
}
use oc_earley.Grammar.Dfa.{CompiledByteDfa}
use oc_earley.Grammar.Dfa

pub data CompiledTerminal : Type 0 where
  literal : List ℕ → CompiledTerminal
  dfa : CompiledByteDfa → CompiledTerminal

pub data TerminalCursorState : Type 0 where
  literal : ℕ → TerminalCursorState
  dfa : ℕ → TerminalCursorState

unfoldable pub start : CompiledTerminal → TerminalCursorState
start (CompiledTerminal.literal bytes) = TerminalCursorState.literal 0
start (CompiledTerminal.dfa d) = TerminalCursorState.dfa (Dfa.start_state d)

unfoldable pub advance_literal : List ℕ → ℕ → ℕ → Option TerminalCursorState
advance_literal bytes offset byte = elim (get_elem? bytes offset) [
  | none ↦ none
  | some expected ↦
      if expected == byte
      then if leb (offset + 1) u32_max
        then some (TerminalCursorState.literal (offset + 1))
        else none
      else none
]

advance_dfa : CompiledByteDfa → ℕ → ℕ → Option TerminalCursorState
advance_dfa d state byte =
    if Dfa.is_dead d (Dfa.next_state d state byte)
    then none
    else some (TerminalCursorState.dfa (Dfa.next_state d state byte))

unfoldable pub advance : CompiledTerminal → TerminalCursorState → ℕ → Option TerminalCursorState
unfolding advance_literal advance_dfa
advance (CompiledTerminal.literal bytes) (TerminalCursorState.literal offset) byte =
    advance_literal bytes offset byte
advance (CompiledTerminal.dfa d) (TerminalCursorState.dfa state) byte = advance_dfa d state byte
advance terminal cursor byte = none

unfoldable pub is_accepting : CompiledTerminal → TerminalCursorState → Bool
is_accepting (CompiledTerminal.literal bytes) (TerminalCursorState.literal offset) =
    offset == length bytes
is_accepting (CompiledTerminal.dfa d) (TerminalCursorState.dfa state) = Dfa.is_accepting d state
is_accepting terminal cursor = false

unfoldable pub is_live : CompiledTerminal → TerminalCursorState → Bool
is_live (CompiledTerminal.literal bytes) (TerminalCursorState.literal offset) =
    ltb offset (length bytes)
is_live (CompiledTerminal.dfa d) (TerminalCursorState.dfa state) = Dfa.is_live d state
is_live terminal cursor = false

unfoldable pub accepts_empty : CompiledTerminal → Bool
unfolding start is_accepting
accepts_empty terminal = is_accepting terminal (start terminal)

-- `cursor_key` of earley.rs and lalr.rs
unfoldable pub cursor_key : TerminalCursorState → List ℕ
cursor_key (TerminalCursorState.literal offset) = 0 ∷ offset ∷ []
cursor_key (TerminalCursorState.dfa state) = 1 ∷ state ∷ []

-- The cursor after a byte string.
unfoldable pub run : CompiledTerminal → TerminalCursorState → List ℕ → Option TerminalCursorState
run terminal cursor [] = some cursor
run terminal cursor (byte ∷ bytes) = elim (advance terminal cursor byte) [
  | none ↦ none
  | some next ↦ run terminal next bytes
]
