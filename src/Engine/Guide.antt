-- ===== src/Engine/Guide.antt =====
-- src/engine.rs, `Guide`: commits tokens on a recognizer or an index, with a bounded history to roll
-- back to, and a mask that is cached between commits. Allocations succeed.
pub mod Advancing
pub mod Undoing
pub mod Sound
pub mod Filling
pub mod Masking
pub mod Caching
pub mod Agreement
pub mod Listing
use oc_earley.Prelude.{
  ℕ, zero, suc, ◌+◌, ◌*◌, ◌/◌, ◌%◌, Bool, true, false, not, ◌&&◌, Option, none, some, List, [], ◌∷◌,
  ◌++◌, length, is_empty, take, replicate, leb, ltb, ◌==◌, if◌then◌else◌, min, saturating_add,
  checked_add, u64_max, contains,
}
use oc_earley.Outcome.{
  Outcome, ok, err, panic, out_of_fuel, M, ◌>>=◌, ◌>>◌, pure, fail, get, modify, guard, or_fail,
  for_each,
}
use oc_earley.Error.{
  RuntimeError, RuntimeLimits, committed_tokens, guide_finished, eos_not_accepting,
  unknown_token_id, token_not_allowed, rollback_unavailable, resource_limit_exceeded,
  internal_invariant, enforce_runtime_limit,
}
use oc_earley.Index.{Index}
use oc_earley.Index as Index
use oc_earley.Vocabulary.Trie.{DerivedVocabulary, shared_bytes}
use oc_earley.Engine.Recognizer.{
  Advance, rejected, RecognizerState, RecognizerCheckpoint, try_advance_bytes,
}
use oc_earley.Engine.Recognizer as Recognizer
use oc_earley.Engine.Mask.{MaskStats, no_stats, set_mask_bit, validate_rollback_limit}
use oc_earley.Engine.Walk.{Walk, fill_structural_mask}

pub data GuideRuntime : Type 0 where
  dfa : Index → ℕ → GuideRuntime
  structural : RecognizerState → GuideRuntime

-- The last three fields of both are the lengths of the committed tokens and bytes, and `finished`.
pub data GuideCheckpoint : Type 0 where
  dfa : ℕ → ℕ → ℕ → Bool → GuideCheckpoint
  structural : RecognizerCheckpoint → ℕ → ℕ → Bool → GuideCheckpoint

-- The history has its oldest checkpoint first.
pub record Guide : Type 0 where
  pub runtime : GuideRuntime
  pub vocabulary : Option DerivedVocabulary
  pub eos_token_id : ℕ
  pub vocab_size : ℕ
  pub mask_words : ℕ
  pub initial : GuideCheckpoint
  pub history : List GuideCheckpoint
  pub max_rollback : ℕ
  pub finished : Bool
  pub committed_token_ids : List ℕ
  pub committed_bytes : List ℕ
  pub limits : RuntimeLimits
  pub mask_stats : MaskStats
  pub cached_mask : Option (List ℕ)

abbrev pub Step : Type 0 → Type 0
Step A = M RuntimeError Guide A

-- `Guide::from_index`, where the limits are the default ones, and the branch of `from_compiled` for
-- an index.
unfoldable pub from_index : RuntimeLimits → Index → ℕ → Outcome RuntimeError (Unit {0}) Guide
from_index limits index max_rollback =
    (do
      validate_rollback_limit max_rollback limits
      pure (record {
        runtime = GuideRuntime.dfa index index.initial_state;
        vocabulary = none;
        eos_token_id = index.eos_token_id;
        vocab_size = index.vocab_size;
        mask_words = (index.vocab_size + 31) / 32;
        initial = GuideCheckpoint.dfa index.initial_state 0 0 false;
        history = [];
        max_rollback = max_rollback;
        finished = false;
        committed_token_ids = [];
        committed_bytes = [];
        limits = limits;
        mask_stats = no_stats;
        cached_mask = none;
      }))
      tt

-- The part of `Guide::from_compiled` after the structural recognizer is made.
unfoldable pub from_recognizer :
    RuntimeLimits → RecognizerState → DerivedVocabulary → ℕ → Outcome RuntimeError (Unit {0}) Guide
from_recognizer limits recognizer vocabulary max_rollback =
    (do
      validate_rollback_limit max_rollback limits
      pure (record {
        runtime = GuideRuntime.structural recognizer;
        vocabulary = some vocabulary;
        eos_token_id = vocabulary.eos_token_id;
        vocab_size = vocabulary.vocab_size;
        mask_words = vocabulary.mask_words;
        initial = GuideCheckpoint.structural (Recognizer.checkpoint recognizer) 0 0 false;
        history = [];
        max_rollback = max_rollback;
        finished = false;
        committed_token_ids = [];
        committed_bytes = [];
        limits = limits;
        mask_stats = no_stats;
        cached_mask = none;
      }))
      tt

-- A call on the recognizer of a structural guide.
abbrev pub on_recognizer :
    {A : Type 0} → M RuntimeError RecognizerState A → RecognizerState → Step A
on_recognizer m r g = elim (m r) [
  | ok a t ↦ ok a (record g { runtime = GuideRuntime.structural t })
  | err e t ↦ err e (record g { runtime = GuideRuntime.structural t })
  | panic ↦ panic
  | out_of_fuel ↦ out_of_fuel
]

unfoldable pub accepting_runtime : ℕ → GuideRuntime → Step Bool
accepting_runtime fuel (GuideRuntime.dfa index state) = pure (Index.is_final_state index state)
accepting_runtime fuel (GuideRuntime.structural r) = on_recognizer (Recognizer.is_accepting fuel) r

-- `Guide::is_accepting`
unfoldable pub is_accepting : ℕ → Step Bool
is_accepting fuel = do
  self ← get
  if self.finished then pure false else accepting_runtime fuel self.runtime

unfoldable pub invalidate_mask : Step (Unit {0})
invalidate_mask = modify λ self. record self {
  cached_mask = none;
  mask_stats = record self.mask_stats { cache_bytes = 0 };
}

unfoldable pub checkpoint_of : GuideRuntime → ℕ → ℕ → Bool → GuideCheckpoint
checkpoint_of (GuideRuntime.dfa index state) = GuideCheckpoint.dfa state
checkpoint_of (GuideRuntime.structural r) = GuideCheckpoint.structural (Recognizer.checkpoint r)

-- `Guide::checkpoint`
unfoldable pub checkpoint : Guide → GuideCheckpoint
checkpoint self =
    checkpoint_of self.runtime (length self.committed_token_ids) (length self.committed_bytes)
      self.finished

-- `while history.len() >= max_rollback { history.pop_front(); }`
unfoldable pub drop_oldest : ℕ → List GuideCheckpoint → List GuideCheckpoint
drop_oldest max_rollback [] = []
drop_oldest max_rollback (c ∷ cs) =
    if leb max_rollback (length (c ∷ cs)) then drop_oldest max_rollback cs else c ∷ cs

unfoldable pub retain_checkpoint : GuideCheckpoint → Step (Unit {0})
retain_checkpoint saved = modify λ self.
    if self.max_rollback == 0
    then self
    else record self { history = drop_oldest self.max_rollback self.history ++ saved ∷ [] }

unfoldable pub restore_runtime : GuideRuntime → GuideCheckpoint → Step (ℕ × ℕ × Bool)
restore_runtime (GuideRuntime.dfa index state) (GuideCheckpoint.dfa saved tokens bytes done) = do
  modify λ self. record self { runtime = GuideRuntime.dfa index saved }
  pure (tokens, bytes, done)
restore_runtime (GuideRuntime.structural r) (GuideCheckpoint.structural saved tokens bytes done) =
    do on_recognizer (Recognizer.restore saved) r; pure (tokens, bytes, done)
restore_runtime _ _ = fail (internal_invariant "guide checkpoint belongs to a different backend")

unfoldable pub restore_guide : GuideCheckpoint → Step (Unit {0})
restore_guide saved = do
  self ← get
  lengths ← restore_runtime self.runtime saved
  modify λ g. record g {
    committed_token_ids = take lengths.0 g.committed_token_ids;
    committed_bytes = take lengths.1 g.committed_bytes;
    finished = lengths.2;
  }

-- The end of the sequence.
unfoldable pub advance_eos : ℕ → ℕ → GuideCheckpoint → Step (Unit {0})
advance_eos fuel token before = do
  accepts ← is_accepting fuel
  guard accepts eos_not_accepting
  retain_checkpoint before
  modify λ self. record self {
    finished = true;
    committed_token_ids = self.committed_token_ids ++ token ∷ [];
  }
  invalidate_mask

unfoldable pub bytes_of : Option DerivedVocabulary → ℕ → Option (List ℕ)
bytes_of none token = none
bytes_of (some vocabulary) token = shared_bytes vocabulary token

-- `!matches!(advance, Advance::Rejected)`
abbrev pub is_taken : Advance → Bool
is_taken rejected = false
is_taken _ = true

-- The match on the runtime, with the test for an unknown token that stands before it.
unfoldable pub advance_runtime : ℕ → ℕ → Option (List ℕ) → GuideRuntime → Step (Unit {0})
advance_runtime fuel token bytes (GuideRuntime.dfa index state) = do
  next ← or_fail (Index.next_state index state token) (token_not_allowed token)
  modify λ self. record self { runtime = GuideRuntime.dfa index next }
advance_runtime fuel token none (GuideRuntime.structural r) = fail (unknown_token_id token)
advance_runtime fuel token (some bytes) (GuideRuntime.structural r) = do
  advance ← on_recognizer (try_advance_bytes fuel bytes) r
  guard (is_taken advance) (token_not_allowed token)

-- `if let Some(bytes) = token_bytes { committed_bytes.extend_from_slice(&bytes); }`
abbrev pub extend_bytes : List ℕ → Option (List ℕ) → List ℕ
extend_bytes committed none = committed
extend_bytes committed (some bytes) = committed ++ bytes

unfoldable pub advance_token : ℕ → ℕ → GuideCheckpoint → Step (Unit {0})
advance_token fuel token before = do
  self ← get
  let token_bytes = bytes_of self.vocabulary token
  advance_runtime fuel token token_bytes self.runtime
  retain_checkpoint before
  modify λ g. record g {
    committed_bytes = extend_bytes g.committed_bytes token_bytes;
    committed_token_ids = g.committed_token_ids ++ token ∷ [];
  }
  invalidate_mask

-- `Guide::advance`
unfoldable pub advance : ℕ → ℕ → Step (Unit {0})
advance fuel token = do
  self ← get
  guard (not self.finished) guide_finished
  next_count ←
      or_fail (checked_add (length self.committed_token_ids) 1)
        (resource_limit_exceeded committed_tokens u64_max self.limits.max_committed_tokens)
  enforce_runtime_limit committed_tokens next_count self.limits.max_committed_tokens
  if token == self.eos_token_id
      then advance_eos fuel token (checkpoint self)
      else advance_token fuel token (checkpoint self)

-- `VecDeque::pop_back`
unfoldable pub pop_back : List GuideCheckpoint → Option GuideCheckpoint × List GuideCheckpoint
pop_back [] = (none, [])
pop_back (c ∷ []) = (some c, [])
pop_back (c ∷ d ∷ cs) = let (last, rest) = pop_back (d ∷ cs) in (last, c ∷ rest)

-- `for _ in 0..count { target = history.pop_back(); }`
unfoldable pub pop_each :
    ℕ
    → Option GuideCheckpoint
    → List GuideCheckpoint
    → Option GuideCheckpoint × List GuideCheckpoint
pop_each zero target history = (target, history)
pop_each (suc count) target history =
    let (last, rest) = pop_back history in pop_each count last rest

-- `Guide::rollback`, for a count that is not 0
unfoldable pub rollback_some : ℕ → Step (Unit {0})
rollback_some count = do
  self ← get
  guard (leb count (length self.history)) (rollback_unavailable count (length self.history))
  let popped = pop_each count none self.history
  modify λ g. record g { history = popped.1 }
  target ← or_fail popped.0 (internal_invariant "rollback history changed during rollback")
  restore_guide target
  invalidate_mask

unfoldable pub rollback : ℕ → Step (Unit {0})
rollback count = if count == 0 then pure tt else rollback_some count

unfoldable pub reset : Step (Unit {0})
reset = do
  self ← get
  restore_guide self.initial
  modify λ g. record g { history = []; mask_stats = no_stats; cached_mask = none }

-- The calls that change a guide, besides the filling of masks.
pub data GuideCall : Type 0 where
  committing : ℕ → GuideCall
  rolling_back : ℕ → GuideCall
  resetting : GuideCall

abbrev pub run_call : ℕ → GuideCall → Step (Unit {0})
run_call fuel (committing token) = advance fuel token
run_call fuel (rolling_back count) = rollback count
run_call fuel resetting = reset
