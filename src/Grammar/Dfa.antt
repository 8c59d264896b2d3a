-- ===== src/Grammar/Dfa.antt =====
-- src/grammar.rs, `CompiledByteDfa`: the accessors that the recognizers use. The tables are built
-- by the regex-automata crate and are data here.
use oc_earley.Prelude.{
  ℕ, Bool, false, ◌||◌, Option, none, some, List, [], ◌∷◌, length, get_elem?, leb, ◌==◌,
  if◌then◌else◌, u32_max,
}

pub record CompiledByteDfa : Type 0 where
  pub transitions : List (List ℕ)
  pub accepting : List Bool
  pub live : List Bool
  pub nfa_states : ℕ
  pub nfa_transitions : ℕ
  pub memory_bytes : ℕ

-- `DEAD_DFA_STATE`
abbrev pub dead_dfa_state : ℕ
dead_dfa_state = u32_max

abbrev pub unwrap_or {ℓ} : {A : Type ℓ} → Option A → A → A
unwrap_or none d = d
unwrap_or (some a) d = a

unfoldable pub start_state : CompiledByteDfa → ℕ
start_state dfa = 0

-- A row is an array of 256 entries and the byte is below 256, so the inner read never misses.
unfoldable pub next_state : CompiledByteDfa → ℕ → ℕ → ℕ
next_state dfa state byte = elim (get_elem? dfa.transitions state) [
  | none ↦ dead_dfa_state
  | some row ↦ unwrap_or (get_elem? row byte) dead_dfa_state
]

unfoldable pub is_dead : CompiledByteDfa → ℕ → Bool
is_dead dfa state = state == dead_dfa_state || leb (length dfa.transitions) state

unfoldable pub is_accepting : CompiledByteDfa → ℕ → Bool
is_accepting dfa state = unwrap_or (get_elem? dfa.accepting state) false

unfoldable pub is_live : CompiledByteDfa → ℕ → Bool
is_live dfa state = unwrap_or (get_elem? dfa.live state) false

unfoldable pub state_count : CompiledByteDfa → ℕ
state_count dfa = length dfa.transitions

accepts_from : CompiledByteDfa → ℕ → List ℕ → Bool
unfolding next_state is_dead is_accepting
accepts_from dfa state [] = is_accepting dfa state
accepts_from dfa state (byte ∷ bytes) =
    let rest = accepts_from dfa (next_state dfa state byte) bytes in
    if is_dead dfa (next_state dfa state byte) then false else rest

unfoldable pub accepts : CompiledByteDfa → List ℕ → Bool
unfolding accepts_from start_state
accepts dfa bytes = accepts_from dfa (start_state dfa) bytes
