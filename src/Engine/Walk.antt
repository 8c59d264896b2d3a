-- ===== src/Engine/Walk.antt =====
-- src/engine.rs, `fill_structural_mask`: the walk over the token trie that fills a mask.
pub mod Spec
pub mod Marking
pub mod Chain
pub mod Emitting
pub mod Rounds
pub mod Ending
pub mod Exact
pub mod Backends
use oc_earley.Prelude.{
  ℕ, zero, suc, ◌+◌, ◌-◌, ◌*◌, Bool, true, false, ◌&&◌, Option, none, some, List, [], ◌∷◌, length,
  get_elem?, take, drop, leb, if◌then◌else◌, max, saturating_add, checked_add,
}
use oc_earley.Outcome.{
  Outcome, ok, err, panic, out_of_fuel, M, ◌>>=◌, ◌>>◌, pure, fail, exhausted, get, modify, or_fail,
  for_each,
}
use oc_earley.Error.{
  RuntimeError, RuntimeLimits, internal_invariant, mask_traversal, enforce_runtime_limit,
}
use oc_earley.Vocabulary.Trie.{TrieNode, TrieEdge, TokenTrie, DerivedVocabulary}
use oc_earley.Engine.Recognizer.{
  Advance, rejected, RecognizerState, RecognizerCheckpoint, is_accepting, is_live, checkpoint,
  restore, try_advance_bytes,
}
use oc_earley.Engine.Mask.{MaskStats, set_mask_bit}

pub record TrieFrame : Type 0 where
  pub node : ℕ
  pub next_edge : ℕ
  pub emitted : Bool
  pub checkpoint : RecognizerCheckpoint

-- What `fill_structural_mask` writes: its `&mut` arguments and its local variables. The stack has
-- its last frame first.
pub record Walk : Type 0 where
  pub recognizer : RecognizerState
  pub destination : List ℕ
  pub stats : MaskStats
  pub stack : List TrieFrame
  pub visited : ℕ

abbrev pub Step : Type 0 → Type 0
Step A = M RuntimeError Walk A

-- A call on the recognizer, and one on the mask.
abbrev pub on_recognizer : {A : Type 0} → M RuntimeError RecognizerState A → Step A
on_recognizer m w = elim (m w.recognizer) [
  | ok a r ↦ ok a (record w { recognizer = r })
  | err e r ↦ err e (record w { recognizer = r })
  | panic ↦ panic
  | out_of_fuel ↦ out_of_fuel
]

abbrev pub on_destination : {A : Type 0} → M RuntimeError (List ℕ) A → Step A
on_destination m w = elim (m w.destination) [
  | ok a d ↦ ok a (record w { destination = d })
  | err e d ↦ err e (record w { destination = d })
  | panic ↦ panic
  | out_of_fuel ↦ out_of_fuel
]

abbrev pub count : (MaskStats → MaskStats) → Step (Unit {0})
count f = modify λ w. record w { stats = f w.stats }

-- `set_mask_bit` and the count of it
unfoldable pub enable : ℕ → Step (Unit {0})
enable token = do
  on_destination (set_mask_bit token)
  count λ t. record t { token_ids_enabled = saturating_add t.token_ids_enabled 1 }

-- `xs.get(start..end)`
abbrev pub get_range {ℓ} : {A : Type ℓ} → List A → ℕ → ℕ → Option (List A)
get_range xs start end =
    if leb start end && leb end (length xs) then some (take (end - start) (drop start xs)) else none

-- The tokens that end at a node whose bytes are live.
unfoldable pub emit_tokens : TokenTrie → TrieNode → Step (Unit {0})
emit_tokens trie node = do
  end ←
      or_fail (checked_add node.token_start node.token_len)
        (internal_invariant "token trie terminal range overflowed")
  ids ←
      or_fail (get_range trie.terminal_ids node.token_start end)
        (internal_invariant "token trie terminal range is invalid")
  for_each ids enable

-- `if !stack[frame_index].emitted`
unfoldable pub emit : ℕ → TokenTrie → TrieFrame → List TrieFrame → TrieNode → Step (Unit {0})
emit fuel trie frame rest node = do
  live ← on_recognizer (is_live fuel)
  if live then emit_tokens trie node else pure tt
  modify λ w. record w { stack = record frame { emitted = true } ∷ rest }

-- The last edge of a node is behind: back to the frame before.
unfoldable pub leave : TrieFrame → List TrieFrame → Step (Unit {0})
leave frame rest = do
  on_recognizer (restore frame.checkpoint)
  modify λ w. record w { stack = rest }

-- What a trial of the edge's byte leads to.
unfoldable pub follow : TrieEdge → Advance → Step (Unit {0})
follow edge rejected =
    count λ t. record t { trie_edges_pruned = saturating_add t.trie_edges_pruned 1 }
follow edge _ = modify λ w. record w {
  stack =
      record {
        node = edge.child;
        next_edge = 0;
        emitted = false;
        checkpoint = checkpoint w.recognizer;
      }
      ∷ w.stack;
}

unfoldable pub take_edge :
    ℕ → RuntimeLimits → TokenTrie → TrieFrame → List TrieFrame → TrieNode → Step (Unit {0})
take_edge fuel limits trie frame rest node = do
  modify λ w. record w {
    stack = record frame { next_edge = frame.next_edge + 1; emitted = true } ∷ rest;
  }
  index ←
      or_fail (checked_add node.edge_start frame.next_edge)
        (internal_invariant "token trie edge range overflowed")
  edge ←
      or_fail (get_elem? trie.edges index) (internal_invariant "token trie edge is out of bounds")
  w ← get
  let observed = saturating_add w.visited 1
  enforce_runtime_limit mask_traversal observed limits.max_mask_trie_edges
  modify λ u. record u { visited = observed }
  count λ t. record t { trie_edges_visited = saturating_add t.trie_edges_visited 1 }
  on_recognizer (restore frame.checkpoint)
  advance ← on_recognizer (try_advance_bytes fuel (edge.byte ∷ []))
  follow edge advance

-- The body of the loop, for the last frame of the stack.
unfoldable pub walk_frame :
    ℕ → RuntimeLimits → TokenTrie → TrieFrame → List TrieFrame → Step (Unit {0})
walk_frame fuel limits trie frame rest = do
  w ← get
  count λ t. record t { peak_stack_depth = max t.peak_stack_depth (length w.stack) }
  node ←
      or_fail (get_elem? trie.nodes frame.node)
        (internal_invariant "token trie node is out of bounds")
  if frame.emitted then pure tt else emit fuel trie frame rest node
  if leb node.edge_len frame.next_edge
      then leave frame rest
      else take_edge fuel limits trie frame rest node

-- `while !stack.is_empty()`, with fuel for the rounds
unfoldable pub walk : ℕ → RuntimeLimits → TokenTrie → ℕ → Step (Unit {0})
walk fuel limits trie zero = exhausted
walk fuel limits trie (suc rounds) = do
  w ← get
  elim w.stack [
    | [] ↦ pure tt
    | frame ∷ rest ↦ do walk_frame fuel limits trie frame rest; walk fuel limits trie rounds
  ]

-- A round takes an edge or leaves a node. The limit bounds the edges, and every node but the root
-- is entered by one.
abbrev pub rounds_of : RuntimeLimits → ℕ
rounds_of limits = suc (suc (limits.max_mask_trie_edges * 2))

-- The closure of `fill_structural_mask`
unfoldable pub fill_from_root : ℕ → RuntimeLimits → DerivedVocabulary → Step (Unit {0})
fill_from_root fuel limits vocabulary = do
  accepting ← on_recognizer (is_accepting fuel)
  if accepting then enable vocabulary.eos_token_id else pure tt
  modify λ w. record w {
    stack =
        record { node = 0; next_edge = 0; emitted = false; checkpoint = checkpoint w.recognizer }
        ∷ [];
    visited = 0;
  }
  walk fuel limits vocabulary.trie (rounds_of limits)

-- `recognizer.restore(&root)` after the closure, and the match on both results: an error of the
-- restoring comes first.
unfoldable pub back_to :
    RecognizerCheckpoint
    → Outcome RuntimeError Walk (Unit {0})
    → Outcome RuntimeError Walk (Unit {0})
back_to root (ok u w) = on_recognizer (restore root) w
back_to root (err e w) = (do on_recognizer (restore root); fail e) w
back_to root panic = panic
back_to root out_of_fuel = out_of_fuel

unfoldable pub fill_structural_mask : ℕ → RuntimeLimits → DerivedVocabulary → Step (Unit {0})
fill_structural_mask fuel limits vocabulary w =
    back_to (checkpoint w.recognizer) (fill_from_root fuel limits vocabulary w)
