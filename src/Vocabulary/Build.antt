-- ===== src/Vocabulary/Build.antt =====
-- src/vocabulary/reverse.rs, `DerivedVocabulary::build`: the token trie of a vocabulary, given as the
-- tokens' bytes, all different, with their ids. Allocations succeed.
pub mod Layout
pub mod Growing
pub mod Spelling
pub mod Tracing
pub mod Whole
pub mod Paths
use oc_earley.Prelude.{
  ℕ, zero, suc, ◌+◌, ◌/◌, Bool, true, false, Option, none, some, List, [], ◌∷◌, ◌++◌, length,
  get_elem?, set, replicate, is_empty, leb, ltb, ◌==◌, if◌then◌else◌, max, find, not,
  saturating_add, checked_add, u32_max, u64_max, lex_eq, sort_by_key, dedup_by_key,
}
use oc_earley.Outcome.{
  Outcome, ok, err, panic, out_of_fuel, M, ◌>>=◌, ◌>>◌, pure, fail, get, modify, guard, or_fail,
  or_panic, for_each,
}
use oc_earley.Error.{CompileError, CompileLimits, vocabulary_projection, resource_limit_exceeded}
use oc_earley.Vocabulary.Trie.{TrieNode, TrieEdge, TokenTrie, DerivedVocabulary}

-- The errors of src/error.rs that the function returns.
pub data BuildError : Type 0 where
  empty_token_disallowed : BuildError
  ambiguous_token_id : ℕ → BuildError
  compile : CompileError → BuildError

-- The children are sorted by byte, as in a `BTreeMap`.
pub record BuildNode : Type 0 where
  pub children : List (ℕ × ℕ)
  pub terminal_ids : List ℕ

pub record Totals : Type 0 where
  pub max_id : ℕ
  pub total_token_bytes : ℕ
  pub alias_count : ℕ

pub record Building : Type 0 where
  pub build_nodes : List BuildNode
  pub reverse : List (Option (List ℕ))

abbrev pub limit_error : ℕ → ℕ → BuildError
limit_error observed limit =
    compile (CompileError.resource_limit_exceeded vocabulary_projection observed limit)

-- `enforce`
abbrev pub enforce : {S : Type 0} → ℕ → ℕ → M BuildError S (Unit {0})
enforce observed limit = guard (leb observed limit) (limit_error observed limit)

-- `checked_u32`
unfoldable pub checked_u32 : {S : Type 0} → ℕ → ℕ → M BuildError S ℕ
checked_u32 value limit = do guard (leb value u32_max) (limit_error value limit); pure value

-- `ids.iter().max()`, with the largest id so far.
unfoldable pub max_of : ℕ → List ℕ → ℕ
max_of so_far [] = so_far
max_of so_far (id ∷ ids) = max_of (max so_far id) ids

-- The body of the first loop over the entries.
unfoldable pub measure_entry : CompileLimits → List ℕ × List ℕ → M BuildError Totals (Unit {0})
measure_entry limits (bytes, ids) = do
  guard (not (is_empty bytes)) empty_token_disallowed
  enforce (length bytes) limits.max_token_bytes
  t ← get
  total ←
      or_fail (checked_add t.total_token_bytes (length bytes))
        (limit_error u64_max limits.max_total_token_bytes)
  enforce total limits.max_total_token_bytes
  aliases ←
      or_fail (checked_add t.alias_count (length ids))
        (limit_error u64_max limits.max_trie_terminal_ids)
  enforce aliases limits.max_trie_terminal_ids
  modify λ t. record t {
    max_id = max_of t.max_id ids;
    total_token_bytes = total;
    alias_count = aliases;
  }

-- `BTreeMap::insert` of a new key
unfoldable pub insert_child : ℕ → ℕ → List (ℕ × ℕ) → List (ℕ × ℕ)
insert_child byte child [] = (byte, child) ∷ []
insert_child byte child ((b, c) ∷ rest) =
    if ltb byte b then (byte, child) ∷ (b, c) ∷ rest else (b, c) ∷ insert_child byte child rest

-- The node has no child for the byte.
unfoldable pub add_child : CompileLimits → ℕ → BuildNode → ℕ → M BuildError Building ℕ
add_child limits node here byte = do
  s ← get
  let child = length s.build_nodes
  enforce (saturating_add child 1) limits.max_trie_nodes
  modify λ t. record t {
    build_nodes =
        set (t.build_nodes ++ record { children = []; terminal_ids = [] } ∷ []) node
          (record here { children = insert_child byte child here.children });
  }
  pure child

-- The body of the loop over a token's bytes.
unfoldable pub step_byte : CompileLimits → ℕ → ℕ → M BuildError Building ℕ
step_byte limits node byte = do
  s ← get
  here ← or_panic (get_elem? s.build_nodes node)
  elim (find byte here.children) [
    | some child ↦ pure child
    | none ↦ add_child limits node here byte
  ]

-- The loop over a token's bytes, from a node.
unfoldable pub insert_bytes : CompileLimits → ℕ → List ℕ → M BuildError Building ℕ
insert_bytes limits node [] = pure node
insert_bytes limits node (byte ∷ bytes) = do
  child ← step_byte limits node byte
  insert_bytes limits child bytes

-- The match on `reverse[slot]`
unfoldable pub claim_slot : List ℕ → ℕ → Option (List ℕ) → M BuildError Building (Unit {0})
claim_slot bytes id (some existing) = guard (lex_eq existing bytes) (ambiguous_token_id id)
claim_slot bytes id none = modify λ s. record s { reverse = set s.reverse id (some bytes) }

-- The body of the loop over a token's ids.
unfoldable pub add_id : List ℕ → ℕ → ℕ → M BuildError Building (Unit {0})
add_id bytes node id = do
  s ← get
  entry ← or_panic (get_elem? s.reverse id)
  claim_slot bytes id entry
  s ← get
  here ← or_panic (get_elem? s.build_nodes node)
  modify λ t. record t {
    build_nodes =
        set t.build_nodes node (record here { terminal_ids = here.terminal_ids ++ id ∷ [] });
  }

abbrev pub sorted_ids : List ℕ → List ℕ
sorted_ids ids = dedup_by_key (λ id. id ∷ []) (sort_by_key (λ id. id ∷ []) ids)

-- The body of the second loop over the entries.
unfoldable pub insert_entry : CompileLimits → List ℕ × List ℕ → M BuildError Building (Unit {0})
insert_entry limits (bytes, ids) = do
  node ← insert_bytes limits 0 bytes
  for_each (sorted_ids ids) (add_id bytes node)

-- `build_nodes.iter().try_fold(0usize, ...)`
unfoldable pub edge_total : List BuildNode → ℕ → Option ℕ
edge_total [] total = some total
edge_total (node ∷ nodes) total = elim (checked_add total (length node.children)) [
  | none ↦ none
  | some more ↦ edge_total nodes more
]

unfoldable pub push_edge : CompileLimits → ℕ × ℕ → M BuildError TokenTrie (Unit {0})
push_edge limits (byte, child) = do
  target ← checked_u32 child limits.max_trie_nodes
  modify λ t. record t { edges = t.edges ++ record { byte = byte; child = target } ∷ [] }

-- The body of the loop that lays the nodes out.
unfoldable pub push_node : CompileLimits → BuildNode → M BuildError TokenTrie (Unit {0})
push_node limits node = do
  let ids = sorted_ids node.terminal_ids
  t ← get
  edge_start ← checked_u32 (length t.edges) limits.max_trie_edges
  for_each node.children (push_edge limits)
  token_start ← checked_u32 (length t.terminal_ids) limits.max_trie_terminal_ids
  modify λ t. record t { terminal_ids = t.terminal_ids ++ ids }
  edge_len ← checked_u32 (length node.children) limits.max_trie_edges
  token_len ← checked_u32 (length ids) limits.max_trie_terminal_ids
  modify λ t. record t {
    nodes =
        t.nodes
        ++ record {
          edge_start = edge_start;
          edge_len = edge_len;
          token_start = token_start;
          token_len = token_len;
        }
          ∷ [];
  }

-- A loop on variables of its own, and what follows it.
unfoldable pub with_locals :
    {S T A : Type 0} → M BuildError T (Unit {0}) → T → (T → M BuildError S A) → M BuildError S A
with_locals loop start next s = elim (loop start) [
  | ok a t ↦ next t s
  | err e t ↦ err e s
  | panic ↦ panic
  | out_of_fuel ↦ out_of_fuel
]

abbrev pub empty_trie : TokenTrie
empty_trie = record { nodes = []; edges = []; terminal_ids = [] }

-- What follows the second loop over the entries.
unfoldable pub lay_out :
    CompileLimits → ℕ → ℕ → ℕ → ℕ → Building → M BuildError (Unit {0}) DerivedVocabulary
lay_out limits eos_token_id vocab_size mask_words total_token_bytes built = do
  edge_count ← or_fail (edge_total built.build_nodes 0) (limit_error u64_max limits.max_trie_edges)
  enforce edge_count limits.max_trie_edges
  with_locals (for_each built.build_nodes (push_node limits)) empty_trie λ trie. pure (record {
    trie = trie;
    reverse = built.reverse;
    eos_token_id = eos_token_id;
    vocab_size = vocab_size;
    mask_words = mask_words;
    total_token_bytes = total_token_bytes;
  })

-- What follows the first loop over the sorted entries.
unfoldable pub build_trie :
    CompileLimits → ℕ → List (List ℕ × List ℕ) → Totals → M BuildError (Unit {0}) DerivedVocabulary
build_trie limits eos_token_id entries totals = do
  vocab_size ←
      or_fail (checked_add totals.max_id 1) (limit_error u64_max limits.max_vocabulary_slots)
  enforce vocab_size limits.max_vocabulary_slots
  rounded ← or_fail (checked_add vocab_size 31) (limit_error u64_max limits.max_vocabulary_slots)
  let start : Building = record {
    build_nodes = record { children = []; terminal_ids = [] } ∷ [];
    reverse = replicate vocab_size none;
  }
  with_locals (for_each entries (insert_entry limits)) start
      λ built. lay_out limits eos_token_id vocab_size (rounded / 32) totals.total_token_bytes built

-- `DerivedVocabulary::build`
unfoldable pub build :
    CompileLimits → ℕ → List (List ℕ × List ℕ) → Outcome BuildError (Unit {0}) DerivedVocabulary
build limits eos_token_id tokens =
    (do
      enforce (length tokens) limits.max_trie_nodes
      let entries = sort_by_key (λ e. e.0) tokens
      let start : Totals = record { max_id = eos_token_id; total_token_bytes = 0; alias_count = 0 }
      with_locals (for_each entries (measure_entry limits)) start
          λ totals. build_trie limits eos_token_id entries totals)
      tt
