-- ===== src/Tests/Guide.antt =====
-- The theorems about guides and masks, applied: a structural guide on a small grammar, and a guide
-- on an index.
use oc_earley.Prelude.{
  contains, keys, ℕ, zero, suc, ◌+◌, ◌<◌, ◌≡◌, ◌↔◌, refl, subst, true, false, none, some, [], ◌∷◌,
  length, get_elem?, arith, find,
}
use mathlib.Core.Option.{some-injective}
use oc_earley.Outcome.{bind, get, modify, guard, or_fail, pure}
use oc_earley.Outcome.Rules.{Ensures, Ensures-ok}
use oc_earley.Error.{IsLimit}
use oc_earley.Index.{Index, next_state, allowed_tokens, is_final_state}
use oc_earley.Vocabulary.Trie.{TrieNode, TrieEdge, TokenTrie, DerivedVocabulary}
use oc_earley.Engine.Recognizer.{RecognizerState, earley}
use oc_earley.Engine.Recognizer as Recognizer
use oc_earley.Engine.Mask.{no_stats, validate_rollback_limit}
use oc_earley.Engine.Walk.{Walk, fill_structural_mask}
use oc_earley.Engine.Walk.Spec.{is_allowed, TrieOk, NodeOk}
use oc_earley.Engine.Walk.Exact.{Allowed, fill_structural_mask-Enabled}
use oc_earley.Engine.Walk.Backends.{IsEarley, LongerChart, Revertible-earley, Revertible-dfa}
use oc_earley.Engine.Guide.{
  GuideRuntime, GuideCheckpoint, Guide, from_index, advance, rollback, advance_token,
  advance_runtime, bytes_of, retain_checkpoint, drop_oldest, invalidate_mask, checkpoint,
  checkpoint_of, rolling_back, run_call,
}
use oc_earley.Engine.Guide.Advancing.{RuntimeGood, Committed, advance-Committed}
use oc_earley.Engine.Guide.Undoing.{Advanced, start, more, Restored, rollback-advance}
use oc_earley.Engine.Guide.Sound.{GuideOk, Refused, from_index-GuideOk, run_call-GuideOk}
use oc_earley.Engine.Guide.Filling.{Filling, fill_mask, get_tokens}
use oc_earley.Engine.Guide.Caching.{RightMask, NoMask, fill_mask-Offered}
use oc_earley.Engine.Guide.Masking.{Offered}
use oc_earley.Engine.Guide.Listing.{get_tokens-Offered}
use oc_earley.Engine.Guide.Agreement.{RefusesToken, advance-Offered}
use oc_earley.Tests.Earley.{runtime_limits}
use oc_earley.Tests.Nested.{runtime_limits-LimitsOk}
use oc_earley.Tests.Witnesses.{setup, begun, begun-HasRead, wf}

-- The token `a` is 0, and the end of the sequence 1.
abbrev root_node : TrieNode
root_node = record { edge_start = 0; edge_len = 1; token_start = 0; token_len = 0 }

abbrev node_a : TrieNode
node_a = record { edge_start = 1; edge_len = 0; token_start = 0; token_len = 1 }

abbrev trie_a : TokenTrie
trie_a = record {
  nodes = root_node ∷ node_a ∷ [];
  edges = record { byte = 97; child = 1 } ∷ [];
  terminal_ids = 0 ∷ [];
}

abbrev vocabulary_a : DerivedVocabulary
vocabulary_a = record {
  trie = trie_a;
  reverse = some (97 ∷ []) ∷ none ∷ [];
  eos_token_id = 1;
  vocab_size = 2;
  mask_words = 1;
  total_token_bytes = 1;
}

root_edges :
    (i : ℕ)
    → i < 1
    → (edge : TrieEdge) × (get_elem? trie_a.edges (0 + i) ≡ some edge) × (edge.child < 2)
root_edges zero h = (record { byte = 97; child = 1 }, refl, omega arith)
root_edges (suc i) h = absurd (omega arith)

root-NodeOk : NodeOk trie_a root_node
root-NodeOk = record { edges = root_edges; edge_end = omega arith; token_end = omega arith }

a-NodeOk : NodeOk trie_a node_a
a-NodeOk = record {
  edges = λ i h. absurd (omega arith);
  edge_end = omega arith;
  token_end = omega arith;
}

nodes-NodeOk : (n : ℕ) (node : TrieNode) → get_elem? trie_a.nodes n ≡ some node → NodeOk trie_a node
nodes-NodeOk zero node e = subst (NodeOk trie_a) (some-injective _ _ e) root-NodeOk
nodes-NodeOk (suc zero) node e = subst (NodeOk trie_a) (some-injective _ _ e) a-NodeOk
nodes-NodeOk (suc (suc n)) node e = cc

trie_a-TrieOk : TrieOk trie_a 1
trie_a-TrieOk = record {
  root = omega arith;
  nodes = nodes-NodeOk;
  size = omega arith;
  ids = (omega arith, tt);
}

-- The recognizer that has read nothing.
abbrev at_begin : RecognizerState
at_begin = earley setup begun

begin-IsEarley : IsEarley setup wf runtime_limits-LimitsOk at_begin
begin-IsEarley = (begun, [], begun-HasRead, refl)

abbrev walk_a : Walk
walk_a = record {
  recognizer = at_begin;
  destination = 0 ∷ [];
  stats = no_stats;
  stack = [];
  visited = 0;
}

fill_structural_mask-Enabled_example :
    Ensures
      (λ _ u.
        (u.recognizer ≡ at_begin)
        × (length u.destination ≡ 1)
        × ((is_allowed u.destination 0 ≡ true) ↔ Allowed 0 vocabulary_a walk_a 0))
      (λ e u. IsLimit e × (u.recognizer ≡ at_begin))
      (fill_structural_mask 0 runtime_limits vocabulary_a walk_a)
fill_structural_mask-Enabled_example =
    fill_structural_mask-Enabled 0 (Revertible-earley setup wf runtime_limits-LimitsOk 0)
      runtime_limits (omega arith) vocabulary_a walk_a trie_a-TrieOk (omega arith) begin-IsEarley 0

abbrev guide_a : Guide
guide_a = record {
  runtime = GuideRuntime.structural at_begin;
  vocabulary = some vocabulary_a;
  eos_token_id = 1;
  vocab_size = 2;
  mask_words = 1;
  initial = GuideCheckpoint.structural (Recognizer.checkpoint at_begin) 0 0 false;
  history = [];
  max_rollback = 2;
  finished = false;
  committed_token_ids = [];
  committed_bytes = [];
  limits = runtime_limits;
  mask_stats = no_stats;
  cached_mask = none;
}

abbrev filling_a : Filling
filling_a = record { guide = guide_a; destination = 7 ∷ 7 ∷ [] }

fill_mask-Offered_example :
    Ensures
      (λ _. RightMask 0 (Revertible-earley setup wf runtime_limits-LimitsOk 0) filling_a)
      (NoMask 0 (Revertible-earley setup wf runtime_limits-LimitsOk 0) filling_a)
      (fill_mask 0 filling_a)
fill_mask-Offered_example =
    fill_mask-Offered 0 (Revertible-earley setup wf runtime_limits-LimitsOk 0) filling_a
      (omega arith) (omega arith) (trie_a-TrieOk, omega arith, begin-IsEarley) (λ cached e. cc)

advance-Committed_example :
    Ensures
      (λ _.
        Committed 0
          (IsEarley setup wf runtime_limits-LimitsOk)
          (LongerChart setup wf runtime_limits-LimitsOk)
          0
          guide_a)
      (λ _ u. u ≡ guide_a)
      (advance 0 0 guide_a)
advance-Committed_example =
    advance-Committed 0 (Revertible-earley setup wf runtime_limits-LimitsOk 0) 0 guide_a
      (RuntimeGood.by_recognizer begin-IsEarley)

-- The tokens 5 and 6 in a row.
abbrev index_56 : Index
index_56 = record {
  initial_state = 0;
  final_states = 2 ∷ [];
  transitions = (0, (5, 1) ∷ []) ∷ (1, (6, 2) ∷ []) ∷ (2, (7, 2) ∷ []) ∷ [];
  eos_token_id = 7;
  vocab_size = 8;
}

abbrev guide_56 : Guide
guide_56 = record {
  runtime = GuideRuntime.dfa index_56 0;
  vocabulary = none;
  eos_token_id = 7;
  vocab_size = 8;
  mask_words = 1;
  initial = GuideCheckpoint.dfa 0 0 0 false;
  history = [];
  max_rollback = 2;
  finished = false;
  committed_token_ids = [];
  committed_bytes = [];
  limits = runtime_limits;
  mask_stats = no_stats;
  cached_mask = none;
}

abbrev after_5 : Guide
after_5 = record guide_56 {
  runtime = GuideRuntime.dfa index_56 1;
  history = GuideCheckpoint.dfa 0 0 0 false ∷ [];
  committed_token_ids = 5 ∷ [];
}

abbrev after_56 : Guide
after_56 = record guide_56 {
  runtime = GuideRuntime.dfa index_56 2;
  history = GuideCheckpoint.dfa 0 0 0 false ∷ GuideCheckpoint.dfa 1 1 0 false ∷ [];
  committed_token_ids = 5 ∷ 6 ∷ [];
}

both_tokens : Advanced 0 2 guide_56 after_56
unfolding advance advance_token advance_runtime bytes_of retain_checkpoint drop_oldest
    invalidate_mask checkpoint checkpoint_of next_state find bind get modify guard or_fail pure
both_tokens = more {u = after_5} 6 (more {u = guide_56} 5 start refl) refl

rollback-advance_example : Ensures (λ _. Restored guide_56) (λ _ _. ⊥) (rollback 2 after_56)
rollback-advance_example =
    rollback-advance 0 (Revertible-dfa 0) 1 guide_56 after_56 RuntimeGood.by_index both_tokens
      (omega arith)

guide_56-GuideOk : GuideOk 0 (Revertible-dfa 0) guide_56
unfolding from_index validate_rollback_limit bind guard pure
guide_56-GuideOk =
    Ensures-ok (from_index-GuideOk 0 (Revertible-dfa 0) runtime_limits index_56 2) refl

run_call-GuideOk_example :
    Ensures
      (λ _. GuideOk 0 (Revertible-dfa 0))
      (λ e u.
        GuideOk 0 (Revertible-dfa 0) u × Refused 0 (Revertible-dfa 0) (rolling_back 1) guide_56 e)
      (run_call 0 (rolling_back 1) guide_56)
run_call-GuideOk_example =
    run_call-GuideOk 0 (Revertible-dfa 0) (rolling_back 1) guide_56 guide_56-GuideOk

get_tokens-Offered_example :
    Ensures
      (λ tokens t.
        RightMask 0
          (Revertible-earley setup wf runtime_limits-LimitsOk 0)
          (record { guide = guide_a; destination = 0 ∷ [] })
          t
        × ((k : ℕ) → (contains k tokens ≡ true) ↔ ((k < 2) × Offered 0 guide_a k)))
      (NoMask 0
        (Revertible-earley setup wf runtime_limits-LimitsOk 0)
        (record { guide = guide_a; destination = 0 ∷ [] }))
      (get_tokens 0 filling_a)
get_tokens-Offered_example =
    get_tokens-Offered 0 (Revertible-earley setup wf runtime_limits-LimitsOk 0) filling_a
      (omega arith) (trie_a-TrieOk, omega arith, begin-IsEarley) (λ cached e. cc) (omega arith)

advance-Offered_example :
    Ensures
      (λ _ _. Offered 0 guide_56 5)
      (RefusesToken 0 index_56 0 guide_56 refl refl refl 5)
      (advance 0 5 guide_56)
unfolding allowed_tokens is_final_state contains keys find
advance-Offered_example =
    advance-Offered 0 index_56 0 guide_56 refl refl refl 5 refl (omega arith) (omega arith)
