-- ===== src/Tests/Earley.antt =====
-- A small grammar for the Earley recognizer, and runs on it.
use oc_earley.Prelude.{
  ℕ, ◌≡◌, refl, Bool, true, false, Option, none, some, List, [], ◌∷◌, contains, find, insert, keys,
  push, sort_by_key, dedup_by_key,
}
use oc_earley.Outcome.{
  Outcome, ok, ◌>>=◌, pure, get, for_each, bind, fail, exhausted, modify, or_fail, or_panic, guard,
}
use oc_earley.Error.{RuntimeLimits, CompileLimits, Provenance, CompileError}
use oc_earley.Grammar.Terminal.{literal, start, advance, is_accepting, is_live, cursor_key}
use oc_earley.Grammar.Residual.{nonterminal, terminal, ResidualGrammar}
use oc_earley.Earley.Types.{CompiledEarley, Setup, scan_key}
use oc_earley.Earley.Compile.{
  Tables, add_dots, add_start, add_production, add_productions, count_true, build,
}
use oc_earley.Earley.Chart.{
  insert_new, insert_item, dotted, advance_item, advance_into, leo_completion, complete_waiters,
  leo_top, complete_with, complete, predict, skip_nullable, at_nonterminal, at_terminal,
  process_next, process, saturate_loop,
}
use oc_earley.Earley.Leo.{
  leo_target, add_leo, leo_waiter, leo_waiters, leo_postdot, finish_leo_column, saturate,
}
use oc_earley.Earley.Recognizer
use oc_earley.Earley.Recognizer.{
  finish_column_stats, accept_scan, scan_moved, scan_byte, scan_bytes, fill_column, advance_byte,
  start_recognizer, recognizer, checkpoint, restore,
}

-- Everything that a run computes with.
unfoldable pub program : Unit {0}
unfolding contains find insert keys push sort_by_key dedup_by_key for_each start advance
    is_accepting is_live cursor_key scan_key add_dots add_start add_production add_productions
    count_true build insert_new insert_item dotted advance_item advance_into leo_completion
    complete_waiters leo_top complete_with complete predict skip_nullable at_nonterminal at_terminal
    process_next process saturate_loop leo_target add_leo leo_waiter leo_waiters leo_postdot
    finish_leo_column saturate finish_column_stats Recognizer.is_accepting Recognizer.is_live
    accept_scan scan_moved scan_byte scan_bytes fill_column advance_byte start_recognizer recognizer
    checkpoint restore bind pure fail exhausted get modify or_fail or_panic guard
program = tt

abbrev pub nowhere : Provenance
nowhere = record { resource = 0; pointer = ""; keyword = none }

-- S → a S b | ε
abbrev pub nested : ResidualGrammar
nested = record {
  start = 0;
  nonterminals = record { id = 0; original = 0; name = "S"; provenance = nowhere } ∷ [];
  terminals = literal (97 ∷ []) ∷ literal (98 ∷ []) ∷ [];
  terminal_provenance = nowhere ∷ nowhere ∷ [];
  productions =
      record {
        id = 0;
        original = 0;
        lhs = 0;
        rhs = terminal 0 ∷ nonterminal 0 ∷ terminal 1 ∷ [];
        provenance = nowhere;
      }
      ∷ record { id = 1; original = 1; lhs = 0; rhs = []; provenance = nowhere }
      ∷ [];
  productions_by_lhs = (0 ∷ 1 ∷ []) ∷ [];
  nullable = true ∷ [];
  productive_suffixes = [];
  collapsed_nonterminals = 0;
  collapsed_regions = 0;
  terminal_dfa_states = 0;
  terminal_dfa_bytes = 0;
}

abbrev pub compile_limits : CompileLimits
compile_limits = record {
  max_schema_bytes = 100;
  max_schema_nodes = 100;
  max_ref_edges = 100;
  max_symbols = 100;
  max_productions = 100;
  max_rhs_symbols = 100;
  max_nfa_states = 100;
  max_nfa_transitions = 100;
  max_dfa_states = 100;
  max_dfa_bytes = 100;
  max_terminal_dfa_states = 100;
  max_terminal_dfa_bytes = 100;
  max_lr_states = 100;
  max_lr_items = 100;
  max_action_entries = 100;
  max_goto_entries = 100;
  max_reported_conflicts = 100;
  max_vocabulary_slots = 100;
  max_total_token_bytes = 100;
  max_token_bytes = 100;
  max_trie_nodes = 100;
  max_trie_edges = 100;
  max_trie_terminal_ids = 100;
}

abbrev pub runtime_limits : RuntimeLimits
runtime_limits = record {
  max_input_bytes = 100;
  max_parse_stack = 100;
  max_chart_columns = 100;
  max_items_per_column = 100;
  max_total_items = 1000;
  max_active_scans = 100;
  max_leo_items = 100;
  max_checkpoint_history = 100;
  max_mask_trie_edges = 100;
  max_committed_tokens = 100;
}

abbrev pub setup_of : CompiledEarley → Setup
setup_of compiled = record {
  compiled = compiled;
  limits = runtime_limits;
  leo_enabled = true;
  generation = 1;
  layout = record {
    size_of_item = 8;
    size_of_column = 100;
    size_of_scan = 16;
    capacity = λ scans. 4;
  };
}

abbrev accepts : ResidualGrammar → List ℕ → Option Bool
accepts grammar bytes = elim (build grammar compile_limits) [
  | ok compiled t ↦
      elim (bind (recognizer (setup_of compiled))
        λ _ s. for_each bytes (λ byte. advance_byte (setup_of compiled) byte >>= λ _. pure tt) s) [
          | ok _ s ↦ some (Recognizer.is_accepting (setup_of compiled) s)
          | _ ↦ none
        ]
  | _ ↦ none
]

nested_runs :
    (accepts nested (97 ∷ 97 ∷ 98 ∷ 98 ∷ []) ≡ some true)
    × (accepts nested (97 ∷ 97 ∷ 98 ∷ []) ≡ some false)
    × (accepts nested [] ≡ some true)
unfolding program
nested_runs = (refl, refl, refl)

-- The tables of the grammar.
abbrev pub compiled_nested : CompiledEarley
compiled_nested = record {
  grammar = nested;
  productions =
      record { lhs = 0; rhs = terminal 0 ∷ nonterminal 0 ∷ terminal 1 ∷ [] }
      ∷ record { lhs = 0; rhs = [] }
      ∷ record { lhs = 1; rhs = nonterminal 0 ∷ [] }
      ∷ [];
  dotted =
      record { production = 0; dot = 0; next = some (terminal 0); advanced = some 1; lhs = 0 }
      ∷ record { production = 0; dot = 1; next = some (nonterminal 0); advanced = some 2; lhs = 0 }
      ∷ record { production = 0; dot = 2; next = some (terminal 1); advanced = some 3; lhs = 0 }
      ∷ record { production = 0; dot = 3; next = none; advanced = none; lhs = 0 }
      ∷ record { production = 1; dot = 0; next = none; advanced = none; lhs = 0 }
      ∷ record { production = 2; dot = 0; next = some (nonterminal 0); advanced = some 6; lhs = 1 }
      ∷ record { production = 2; dot = 1; next = none; advanced = none; lhs = 1 }
      ∷ [];
  dotted_offsets = 0 ∷ 4 ∷ 5 ∷ [];
  starts_by_lhs = (0 ∷ 4 ∷ []) ∷ (5 ∷ []) ∷ [];
  augmented_production = 2;
  augmented_complete = 6;
  nullable_nonterminals = 1;
  leo_eligible_rules = 1;
}

built : Outcome CompileError Tables CompiledEarley → Option CompiledEarley
built (ok c t) = some c
built _ = none

nested_tables : built (build nested compile_limits) ≡ some compiled_nested
unfolding program built
nested_tables = refl
