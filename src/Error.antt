-- ===== src/Error.antt =====
-- src/error.rs (the errors of the compiler's stages and of the recognizers) and the limits of
-- src/schema.rs that they report.
use Prim.Native.String.{String}
use oc_earley.Prelude.{ℕ, Option, leb}
use oc_earley.Outcome.{M, guard}

pub data CompileStage : Type 0 where
  parse schema_index reference_resolution normalization lowering grammar_reduction scc_analysis
        regular_certification nfa_construction dfa_determinization vocabulary_projection
        residual_grammar terminal_compilation lr_construction lalr_merge lalr_table
        earley_preparation leo_preparation :
      CompileStage

pub data RuntimeResource : Type 0 where
  input_bytes parse_stack chart_columns items_per_column total_items active_scans leo_items
        checkpoint_history mask_traversal committed_tokens :
      RuntimeResource

pub data RuntimeError : Type 0 where
  rejected_byte : ℕ → ℕ → RuntimeError
  resource_limit_exceeded : RuntimeResource → ℕ → ℕ → RuntimeError
  invalid_checkpoint : ℕ → ℕ → RuntimeError
  guide_finished : RuntimeError
  eos_not_accepting : RuntimeError
  unknown_token_id : ℕ → RuntimeError
  token_not_allowed : ℕ → RuntimeError
  rollback_unavailable : ℕ → ℕ → RuntimeError
  allocation_failed : RuntimeResource → RuntimeError
  state_id_unavailable : RuntimeError
  internal_invariant : String → RuntimeError

-- `Provenance` and `DiagnosticLocation`, which have the same fields
pub record Provenance : Type 0 where
  pub resource : ℕ
  pub pointer : String
  pub keyword : Option String

pub data CompileError : Type 0 where
  invalid_json : String → CompileError
  duplicate_schema_key : Provenance → String → CompileError
  unsupported_dialect : String → CompileError
  invalid_keyword_value : Provenance → String → String → CompileError
  unsupported_keyword : Provenance → String → CompileError
  unsupported_combination : Provenance → String → CompileError
  remote_reference_unsupported : Provenance → String → CompileError
  reference_not_found : Provenance → String → CompileError
  invalid_json_pointer : Provenance → String → String → CompileError
  resource_limit_exceeded : CompileStage → ℕ → ℕ → CompileError
  structural_backend_required : Provenance → CompileError
  backend_unavailable : String → Provenance → String → CompileError
  incompatible_compiled_format : ℕ → ℕ → CompileError
  automaton_build : String → String → CompileError
  internal_invariant : String → CompileError

pub record RuntimeLimits : Type 0 where
  pub max_input_bytes : ℕ
  pub max_parse_stack : ℕ
  pub max_chart_columns : ℕ
  pub max_items_per_column : ℕ
  pub max_total_items : ℕ
  pub max_active_scans : ℕ
  pub max_leo_items : ℕ
  pub max_checkpoint_history : ℕ
  pub max_mask_trie_edges : ℕ
  pub max_committed_tokens : ℕ

pub record CompileLimits : Type 0 where
  pub max_schema_bytes : ℕ
  pub max_schema_nodes : ℕ
  pub max_ref_edges : ℕ
  pub max_symbols : ℕ
  pub max_productions : ℕ
  pub max_rhs_symbols : ℕ
  pub max_nfa_states : ℕ
  pub max_nfa_transitions : ℕ
  pub max_dfa_states : ℕ
  pub max_dfa_bytes : ℕ
  pub max_terminal_dfa_states : ℕ
  pub max_terminal_dfa_bytes : ℕ
  pub max_lr_states : ℕ
  pub max_lr_items : ℕ
  pub max_action_entries : ℕ
  pub max_goto_entries : ℕ
  pub max_reported_conflicts : ℕ
  pub max_vocabulary_slots : ℕ
  pub max_total_token_bytes : ℕ
  pub max_token_bytes : ℕ
  pub max_trie_nodes : ℕ
  pub max_trie_edges : ℕ
  pub max_trie_terminal_ids : ℕ

-- `enforce_runtime_limit`: fails if `observed > limit`
abbrev pub enforce_runtime_limit :
    {S : Type 0} → RuntimeResource → ℕ → ℕ → M RuntimeError S (Unit {0})
enforce_runtime_limit resource observed limit =
    guard (leb observed limit) (RuntimeError.resource_limit_exceeded resource observed limit)

-- `enforce_compile_limit`
abbrev pub enforce_compile_limit : {S : Type 0} → CompileStage → ℕ → ℕ → M CompileError S (Unit {0})
enforce_compile_limit stage observed limit =
    guard (leb observed limit) (CompileError.resource_limit_exceeded stage observed limit)

-- The errors that report a limit.
abbrev pub IsLimit : RuntimeError → Type 0
IsLimit (RuntimeError.resource_limit_exceeded r observed limit) = Unit {0}
IsLimit _ = ⊥

abbrev pub IsCompileLimit : CompileError → Type 0
IsCompileLimit (CompileError.resource_limit_exceeded s observed limit) = Unit {0}
IsCompileLimit _ = ⊥
