-- ===== src/Tests/Backends.antt =====
-- The theorems about the automaton and LALR backends and the action table, applied.
use oc_earley.Prelude.{true, false, none, [], ◌∷◌, replicate, ◌++◌, u32_max}
use oc_earley.Outcome.Rules.{Ensures}
use oc_earley.Grammar.Residual.{nonterminal}
use oc_earley.Lalr.Types.{terminal, eof, shift, reduce, accept, Setup}
use oc_earley.Lalr.Recognizer.{initial_state}
use oc_earley.Lalr.Actions.{Row}
use oc_earley.Engine.Recognizer.{DfaRecognizer, lalr, dfa, try_advance_bytes}
use oc_earley.Engine.DfaTrial.{TriedFrom, UntouchedDfa, try_advance_bytes-Dfa}
use oc_earley.Engine.LalrTrial.{Undone, try_advance_bytes-Lalr}
use oc_earley.Tests.Earley.{nested, nowhere, runtime_limits}

-- The automaton of the string `a`.
abbrev only_a : DfaRecognizer
only_a = record {
  dfa = record {
    transitions = (replicate 97 u32_max ++ 1 ∷ replicate 158 u32_max) ∷ replicate 256 u32_max ∷ [];
    accepting = false ∷ true ∷ [];
    live = true ∷ true ∷ [];
    nfa_states = 2;
    nfa_transitions = 1;
    memory_bytes = 2048;
  };
  state = 0;
  position = 0;
  generation = 1;
  limits = runtime_limits;
}

try_advance_bytes-Dfa_example :
    Ensures
      (TriedFrom only_a 0 0 (97 ∷ []))
      (UntouchedDfa only_a)
      (try_advance_bytes 0 (97 ∷ []) (dfa only_a))
try_advance_bytes-Dfa_example = try_advance_bytes-Dfa only_a 0 (97 ∷ [])

-- The table of S' → S, S → ε.
abbrev empty_lalr : Setup
empty_lalr = record {
  compiled = record {
    grammar = nested;
    productions =
        record { lhs = 0; rhs = []; provenance = nowhere; original = none }
        ∷ record { lhs = 1; rhs = nonterminal 0 ∷ []; provenance = nowhere; original = none }
        ∷ [];
    table = record {
      actions = ((eof, reduce 0) ∷ []) ∷ ((eof, accept) ∷ []) ∷ [];
      gotos = ((0, 1) ∷ []) ∷ [] ∷ [];
    };
    conflicts = [];
    lexical_safe = true;
    stats = record {
      canonical_states = 2;
      merged_states = 2;
      lr_items = 3;
      action_entries = 2;
      goto_entries = 1;
      conflicts = 0;
    };
  };
  limits = runtime_limits;
  generation = 1;
}

try_advance_bytes-Lalr_example :
    Undone
      (lalr empty_lalr initial_state)
      (try_advance_bytes 3 (97 ∷ []) (lalr empty_lalr initial_state))
try_advance_bytes-Lalr_example = try_advance_bytes-Lalr empty_lalr initial_state 3 (97 ∷ [])

abbrev one_entry : Row
one_entry = record {
  row = (terminal 0, shift 2) ∷ [];
  sources = (terminal 0, 0 ∷ []) ∷ [];
  conflicts = [];
}
