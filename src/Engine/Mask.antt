-- ===== src/Engine/Mask.antt =====
-- src/engine.rs, `set_mask_bit`, `validate_rollback_limit` and the statistics of the masks.
use oc_earley.Prelude.{ℕ, ◌/◌, ◌%◌, List, get_elem?, set, with_bit}
use oc_earley.Outcome.{M, ◌>>=◌, get, modify, or_fail}
use oc_earley.Error.{RuntimeError, RuntimeLimits, checkpoint_history, enforce_runtime_limit}

pub record MaskStats : Type 0 where
  pub queries : ℕ
  pub cache_hits : ℕ
  pub cache_misses : ℕ
  pub cache_bytes : ℕ
  pub trie_edges_visited : ℕ
  pub trie_edges_pruned : ℕ
  pub token_ids_enabled : ℕ
  pub peak_stack_depth : ℕ
  pub errors : ℕ

-- `MaskStats::default`
abbrev pub no_stats : MaskStats
no_stats = record {
  queries = 0;
  cache_hits = 0;
  cache_misses = 0;
  cache_bytes = 0;
  trie_edges_visited = 0;
  trie_edges_pruned = 0;
  token_ids_enabled = 0;
  peak_stack_depth = 0;
  errors = 0;
}

unfoldable pub set_mask_bit : ℕ → M RuntimeError (List ℕ) (Unit {0})
set_mask_bit token = do
  destination ← get
  slot ←
      or_fail (get_elem? destination (token / 32))
        (RuntimeError.internal_invariant "token ID exceeds the validated mask width")
  modify λ words. set words (token / 32) (with_bit slot (token % 32))

unfoldable pub validate_rollback_limit :
    {S : Type 0} → ℕ → RuntimeLimits → M RuntimeError S (Unit {0})
validate_rollback_limit max_rollback limits =
    enforce_runtime_limit checkpoint_history max_rollback limits.max_checkpoint_history
