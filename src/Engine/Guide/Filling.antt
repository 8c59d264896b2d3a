-- ===== src/Engine/Guide/Filling.antt =====
-- src/engine.rs, `Guide::fill_mask`, `remember_mask` and `get_tokens`.
use oc_earley.Prelude.{
  ℕ, zero, suc, ◌+◌, ◌*◌, ◌/◌, ◌%◌, Option, none, some, List, [], ◌∷◌, ◌++◌, length, get_elem?,
  take, drop, replicate, has_bit, leb, ◌==◌, if◌then◌else◌, min, saturating_add, u64_max,
}
use oc_earley.Outcome.{
  ok, err, panic, out_of_fuel, M, ◌>>=◌, ◌>>◌, pure, get, modify, guard, or_fail, or_panic,
  for_each,
}
use oc_earley.Error.{RuntimeError, internal_invariant}
use oc_earley.Index.{allowed_tokens}
use oc_earley.Vocabulary.Trie.{DerivedVocabulary}
use oc_earley.Engine.Recognizer.{RecognizerState}
use oc_earley.Engine.Mask.{MaskStats, set_mask_bit}
use oc_earley.Engine.Walk.{fill_structural_mask}
use oc_earley.Engine.Guide.{GuideRuntime, Guide}

-- What `fill_mask` writes: the guide and the caller's words.
pub record Filling : Type 0 where
  pub guide : Guide
  pub destination : List ℕ

abbrev pub Fill : Type 0 → Type 0
Fill A = M RuntimeError Filling A

abbrev pub count : (MaskStats → MaskStats) → Fill (Unit {0})
count f = modify λ s. record s { guide = record s.guide { mask_stats = f s.guide.mask_stats } }

-- `destination.fill(0)`
abbrev pub zeros : List ℕ → List ℕ
zeros words = replicate (length words) 0

unfoldable pub remember_mask : Fill (Unit {0})
remember_mask = modify λ s. record s {
  guide = record s.guide {
    mask_stats = record s.guide.mask_stats { cache_bytes = min (s.guide.mask_words * 4) u64_max };
    cached_mask = some (take s.guide.mask_words s.destination);
  };
}

-- The body of the loop over the index's tokens.
unfoldable pub enable_token : ℕ → Fill (Unit {0})
enable_token token s = elim (set_mask_bit token s.destination) [
  | ok a d ↦
      count (λ t. record t { token_ids_enabled = saturating_add t.token_ids_enabled 1 })
        (record s { destination = d })
  | err e d ↦ err e (record s { destination = d })
  | panic ↦ panic
  | out_of_fuel ↦ out_of_fuel
]

abbrev pub tokens_of : Option (List ℕ) → List ℕ
tokens_of none = []
tokens_of (some tokens) = tokens

-- The call of `fill_structural_mask`, and what follows it if it fails.
unfoldable pub fill_structural : ℕ → DerivedVocabulary → RecognizerState → Fill (Unit {0})
fill_structural fuel vocabulary r s =
    elim (fill_structural_mask fuel s.guide.limits vocabulary (record {
      recognizer = r;
      destination = s.destination;
      stats = s.guide.mask_stats;
      stack = [];
      visited = 0;
    })) [
      | ok a w ↦ ok a (record s {
        destination = w.destination;
        guide = record s.guide {
          runtime = GuideRuntime.structural w.recognizer;
          mask_stats = w.stats;
        };
      })
      | err e w ↦ err e (record s {
        destination = zeros w.destination;
        guide = record s.guide {
          runtime = GuideRuntime.structural w.recognizer;
          mask_stats = record w.stats { errors = saturating_add w.stats.errors 1 };
        };
      })
      | panic ↦ panic
      | out_of_fuel ↦ out_of_fuel
    ]

unfoldable pub fill_runtime : ℕ → GuideRuntime → Fill (Unit {0})
fill_runtime fuel (GuideRuntime.dfa index state) =
    for_each (tokens_of (allowed_tokens index state)) enable_token
fill_runtime fuel (GuideRuntime.structural r) = do
  s ← get
  vocabulary ←
      or_fail s.guide.vocabulary (internal_invariant "structural guide has no derived vocabulary")
  fill_structural fuel vocabulary r

-- `destination[..mask_words].copy_from_slice(cached)`, which panics if the lengths differ.
unfoldable pub copy_cached : List ℕ → Fill (Unit {0})
copy_cached cached = do
  s ← get
  words ← or_panic (
      if length cached == s.guide.mask_words
      then some (cached ++ drop s.guide.mask_words s.destination)
      else none)
  modify λ t. record t { destination = words }
  count λ t. record t { cache_hits = saturating_add t.cache_hits 1 }

-- No mask is cached.
unfoldable pub fill_fresh : ℕ → Fill (Unit {0})
fill_fresh fuel = do
  count λ t. record t { cache_misses = saturating_add t.cache_misses 1 }
  s ← get
  if s.guide.finished then remember_mask else (do fill_runtime fuel s.guide.runtime; remember_mask)

unfoldable pub fill_mask : ℕ → Fill (Unit {0})
fill_mask fuel = do
  s ← get
  guard (leb s.guide.mask_words (length s.destination))
      (internal_invariant "mask destination is shorter than mask_words")
  modify λ t. record t { destination = zeros t.destination }
  count λ t. record t { queries = saturating_add t.queries 1 }
  elim s.guide.cached_mask [ none ↦ fill_fresh fuel | some cached ↦ copy_cached cached ]

-- The loop of `get_tokens`, from a token on, for so many tokens.
unfoldable pub scan_mask : List ℕ → ℕ → ℕ → Fill (List ℕ)
scan_mask mask token zero = pure []
scan_mask mask token (suc left) = do
  word ← or_panic (get_elem? mask (token / 32))
  rest ← scan_mask mask (token + 1) left
  pure (if has_bit word (token % 32) then token ∷ rest else rest)

-- The words of `get_tokens` are its own, and take the caller's place here.
unfoldable pub get_tokens : ℕ → Fill (List ℕ)
get_tokens fuel = do
  modify λ s. record s { destination = replicate s.guide.mask_words 0 }
  fill_mask fuel
  s ← get
  scan_mask s.destination 0 s.guide.vocab_size
