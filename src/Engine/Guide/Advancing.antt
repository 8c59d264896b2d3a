-- ===== src/Engine/Guide/Advancing.antt =====
-- src/engine.rs, `Guide::advance`: a token that is refused changes nothing, and one that is taken is
-- recorded.
use oc_earley.Prelude.{
  ℕ, ◌≡◌, inl, inr, Bool, true, false, not, Bool-cases, Option, none, some, List, [], ◌∷◌, ◌++◌,
  ◌==◌, if◌then◌else◌, refl, sym, ap, ◌∙◌, subst, append-nil, or_default, get_elem?, ◌⊎◌, ◌≢◌,
  ==→eq, ==→neq,
}
use oc_earley.Error.{RuntimeError}
use oc_earley.Outcome.{ok, err, M, bind, get, pure, fail, modify, guard}
use oc_earley.Outcome.Rules.{
  Ensures, holds, fails, Ensures-bind, Ensures-step, Ensures-if, Ensures-modify, Ensures-last,
  Ensures-get, Ensures-guard, Ensures-or_fail, Ensures-cases, Ensures-stop,
}
use oc_earley.Index.{Index, next_state}
use oc_earley.Vocabulary.Trie.{DerivedVocabulary, shared_bytes}
use oc_earley.Engine.Recognizer.{
  Advance, rejected, live, accepting, RecognizerState, try_advance_bytes,
}
use oc_earley.Engine.Recognizer as Recognizer
use oc_earley.Engine.Walk.Spec.{Revertible, Stepped}
use oc_earley.Engine.Guide.{
  GuideRuntime, GuideCheckpoint, Guide, on_recognizer, accepting_runtime, is_accepting,
  invalidate_mask, checkpoint, drop_oldest, retain_checkpoint, advance_eos, bytes_of, is_taken,
  advance_runtime, extend_bytes, advance_token, advance,
}

-- A recognizer that can be tried, and one that was reached from it, behind a guide.
pub data RuntimeGood (Good : RecognizerState → Type 0) : GuideRuntime → Type 0 where
  by_index : {index : Index} {state : ℕ} → RuntimeGood Good (GuideRuntime.dfa index state)
  by_recognizer : {r : RecognizerState} → Good r → RuntimeGood Good (GuideRuntime.structural r)

pub data RuntimeAfter (After : RecognizerState → RecognizerState → Type 0)
    : GuideRuntime → GuideRuntime → Type 0 where
  by_index :
      {index : Index} {state next : ℕ}
      → RuntimeAfter After (GuideRuntime.dfa index state) (GuideRuntime.dfa index next)
  by_recognizer :
      {r t : RecognizerState}
      → After r t
      → RuntimeAfter After (GuideRuntime.structural r) (GuideRuntime.structural t)

-- The history after a checkpoint is retained.
abbrev pub retained : ℕ → List GuideCheckpoint → GuideCheckpoint → List GuideCheckpoint
retained max_rollback history saved =
    if max_rollback == 0 then history else drop_oldest max_rollback history ++ saved ∷ []

-- The bytes that the vocabulary has for a token.
abbrev pub known_bytes : Option DerivedVocabulary → ℕ → Option (List ℕ)
known_bytes none token = none
known_bytes (some vocabulary) token = elim (get_elem? vocabulary.reverse token) [
  | none ↦ none
  | some entry ↦ entry
]

bytes_of_lem :
    (vocabulary : Option DerivedVocabulary) (token : ℕ)
    → bytes_of vocabulary token ≡ known_bytes vocabulary token
unfolding bytes_of shared_bytes
bytes_of_lem none token = refl
bytes_of_lem (some vocabulary) token = refl

-- The bytes that the guide commits with a token: the vocabulary's, and none for the end of the
-- sequence or for a token that it has no bytes for.
abbrev pub bytes_behind : Guide → ℕ → List ℕ
bytes_behind g token =
    if token == g.eos_token_id then [] else or_default (known_bytes g.vocabulary token)

-- The step of the runtime for a token that is not the end of the sequence: along the edge of the
-- index, or to where the token's bytes lead the recognizer, which does not reject them.
pub data Moved (fuel token : ℕ) (bytes : Option (List ℕ))
    : GuideRuntime → GuideRuntime → Type 0 where
  by_index :
      {index : Index} {state next : ℕ}
      → next_state index state token ≡ some next
      → Moved fuel token bytes (GuideRuntime.dfa index state) (GuideRuntime.dfa index next)
  by_recognizer :
      {r t : RecognizerState} {read : List ℕ} {a : Advance}
      → bytes ≡ some read
      → try_advance_bytes fuel read r ≡ ok a t
      → a ≢ rejected
      → Moved fuel token bytes (GuideRuntime.structural r) (GuideRuntime.structural t)

-- At the end of the sequence the runtime accepts and stays.
abbrev pub StepsBy : ℕ → ℕ → Guide → Guide → Type 0
StepsBy fuel token g u =
    ((token ≡ g.eos_token_id) × (is_accepting fuel g ≡ ok true g) × (u.runtime ≡ g.runtime))
    ⊎ ((token ≢ g.eos_token_id)
        × Moved fuel token (known_bytes g.vocabulary token) g.runtime u.runtime)

-- A guide that has committed the token.
pub record Committed (fuel : ℕ) (Good : RecognizerState → Type 0)
    (After : RecognizerState → RecognizerState → Type 0) (token : ℕ) (g u : Guide) : Type 0 where
  pub good : RuntimeGood Good u.runtime
  pub after : RuntimeAfter After g.runtime u.runtime
  pub step : StepsBy fuel token g u
  pub was_open : g.finished ≡ false
  pub finished : u.finished ≡ (token == g.eos_token_id)
  pub history : u.history ≡ retained g.max_rollback g.history (checkpoint g)
  pub max_rollback : u.max_rollback ≡ g.max_rollback
  pub tokens : u.committed_token_ids ≡ g.committed_token_ids ++ token ∷ []
  pub bytes : u.committed_bytes ≡ g.committed_bytes ++ bytes_behind g token
  pub cache : u.cached_mask ≡ none
  pub limits : u.limits ≡ g.limits
  pub initial : u.initial ≡ g.initial
  pub vocabulary : u.vocabulary ≡ g.vocabulary
  pub eos_token_id : u.eos_token_id ≡ g.eos_token_id
  pub vocab_size : u.vocab_size ≡ g.vocab_size
  pub mask_words : u.mask_words ≡ g.mask_words

pub retain_checkpoint_lem :
    (saved : GuideCheckpoint) (g : Guide)
    → retain_checkpoint saved g
      ≡ ok tt (record g { history = retained g.max_rollback g.history saved })
unfolding retain_checkpoint modify
retain_checkpoint_lem saved g = elim (Bool-cases (g.max_rollback == 0)) [
  | inl q ↦ rw q refl
  | inr q ↦ rw q refl
]

either_same :
    (c : Bool) (m n : M RuntimeError Guide Bool) (g : Guide)
    → ((b : Bool) × (m g ≡ ok b g))
    → ((b : Bool) × (n g ≡ ok b g))
    → (b : Bool) × ((if c then m else n) g ≡ ok b g)
either_same true m n g p q = p
either_same false m n g p q = q

extended : (xs : List ℕ) (bytes : Option (List ℕ)) → extend_bytes xs bytes ≡ xs ++ or_default bytes
extended xs none = sym (append-nil xs)
extended xs (some bytes) = refl

false_of_not : (b : Bool) → not b ≡ true → b ≡ false
false_of_not true h = cc
false_of_not false h = refl

-- What a call on the recognizer returns and leaves, for the guide.
pub passed_on :
    {A : Type 0} (m : M RuntimeError RecognizerState A) (r : RecognizerState) (g : Guide) {a : A}
    {t : RecognizerState}
    → m r ≡ ok a t
    → on_recognizer m r g ≡ ok a (record g { runtime = GuideRuntime.structural t })
passed_on m r g p = rw (p, on_recognizer) refl

passed_error :
    {A : Type 0} (m : M RuntimeError RecognizerState A) (r : RecognizerState) (g : Guide)
    {x : RuntimeError} {t : RecognizerState}
    → m r ≡ err x t
    → on_recognizer m r g ≡ err x (record g { runtime = GuideRuntime.structural t })
passed_error m r g p = rw (p, on_recognizer) refl

module _ {Good : RecognizerState → Type 0} {After : RecognizerState → RecognizerState → Type 0}
    (fuel : ℕ) (laws : Revertible fuel Good After) where
  pub RuntimeAfter-refl : (rt : GuideRuntime) → RuntimeGood Good rt → RuntimeAfter After rt rt
  RuntimeAfter-refl (GuideRuntime.dfa index state) RuntimeGood.by_index = RuntimeAfter.by_index
  RuntimeAfter-refl (GuideRuntime.structural r) (RuntimeGood.by_recognizer good) =
      RuntimeAfter.by_recognizer (laws.same r good)

  -- A call on the recognizer of the guide that leaves it alone leaves the guide alone.
  same_guide :
      {A : Type 0} (m : M RuntimeError RecognizerState A) (r : RecognizerState) (g : Guide) {a : A}
      → g.runtime ≡ GuideRuntime.structural r
      → m r ≡ ok a r
      → on_recognizer m r g ≡ ok a g
  same_guide m r g {a} e p =
      rw (p, on_recognizer) (ap (λ x. ok a (record g { runtime = x })) (sym e))

  accepting_same :
      (rt : GuideRuntime) (g : Guide)
      → g.runtime ≡ rt
      → RuntimeGood Good rt
      → (b : Bool) × (accepting_runtime fuel rt g ≡ ok b g)
  unfolding accepting_runtime pure
  accepting_same (GuideRuntime.dfa index state) g e good = (_, refl)
  accepting_same (GuideRuntime.structural r) g e (RuntimeGood.by_recognizer good) =
      let (b, says) = laws.says_accepting r good in
      (b, same_guide (Recognizer.is_accepting fuel) r g e says)

  -- What the match on the runtime leaves.
  Reached : ℕ → Option (List ℕ) → Guide → Guide → Type 0
  Reached token bytes g u =
      (rt : GuideRuntime) × (u ≡ record g { runtime = rt })
      × RuntimeGood Good rt
      × RuntimeAfter After g.runtime rt
      × Moved fuel token bytes g.runtime rt

  taken :
      (token : ℕ) (read : List ℕ) (r : RecognizerState) (g : Guide) (a : Advance)
      (t : RecognizerState)
      → try_advance_bytes fuel read r ≡ ok a t
      → g.runtime ≡ GuideRuntime.structural r
      → Stepped Good After r a t
      → Ensures
          (λ _. Reached token (some read) g)
          (λ _ u. u ≡ g)
          (guard
            (is_taken a)
            (RuntimeError.token_not_allowed token)
            (record g { runtime = GuideRuntime.structural t }))
  unfolding guard Reached
  taken token read r g rejected t q e same = fails (
      ap (λ x. record g { runtime = GuideRuntime.structural x }) same
      ∙ ap (λ x. record g { runtime = x }) (sym e))
  taken token read r g live t q e (good, after) = holds (
    GuideRuntime.structural t,
    refl,
    RuntimeGood.by_recognizer good,
    subst (λ x. RuntimeAfter After x (GuideRuntime.structural t)) (sym e)
        (RuntimeAfter.by_recognizer after),
    subst (λ x. Moved fuel token (some read) x (GuideRuntime.structural t)) (sym e)
        (Moved.by_recognizer refl q (λ c. cc)),
  )
  taken token read r g accepting t q e (good, after) = holds (
    GuideRuntime.structural t,
    refl,
    RuntimeGood.by_recognizer good,
    subst (λ x. RuntimeAfter After x (GuideRuntime.structural t)) (sym e)
        (RuntimeAfter.by_recognizer after),
    subst (λ x. Moved fuel token (some read) x (GuideRuntime.structural t)) (sym e)
        (Moved.by_recognizer refl q (λ c. cc)),
  )

  advance_runtime-Reached :
      (token : ℕ) (bytes : Option (List ℕ)) (rt : GuideRuntime) (g : Guide)
      → g.runtime ≡ rt
      → RuntimeGood Good rt
      → Ensures (λ _. Reached token bytes g) (λ _ u. u ≡ g) (advance_runtime fuel token bytes rt g)
  unfolding advance_runtime Reached fail
  advance_runtime-Reached token bytes (GuideRuntime.dfa index state) g e good =
      Ensures-or_fail _ _ g _
        (λ next found. Ensures-last _ g (
          GuideRuntime.dfa index next,
          refl,
          RuntimeGood.by_index,
          subst (λ x. RuntimeAfter After x (GuideRuntime.dfa index next)) (sym e)
              RuntimeAfter.by_index,
          subst (λ x. Moved fuel token bytes x (GuideRuntime.dfa index next)) (sym e)
              (Moved.by_index found),
        ))
        (λ _. refl)
  advance_runtime-Reached token none (GuideRuntime.structural r) g e good = fails refl
  advance_runtime-Reached token (some bytes) (GuideRuntime.structural r) g e
        (RuntimeGood.by_recognizer good) =
      elim (Ensures-cases (laws.tries r bytes good)) [
        | inl (a, t, q, stepped) ↦
            Ensures-step _ (passed_on (try_advance_bytes fuel bytes) r g q)
              (taken token bytes r g a t q e stepped)
        | inr (x, t, q, (limit, same)) ↦
            Ensures-stop _ (passed_error (try_advance_bytes fuel bytes) r g q) (
              ap (λ y. record g { runtime = GuideRuntime.structural y }) same
              ∙ ap (λ y. record g { runtime = y }) (sym e))
      ]

  is_accepting_same :
      (g : Guide) → RuntimeGood Good g.runtime → (b : Bool) × (is_accepting fuel g ≡ ok b g)
  unfolding is_accepting bind pure get
  is_accepting_same g good =
      either_same g.finished (pure false) (accepting_runtime fuel g.runtime) g (false, refl)
        (accepting_same g.runtime g refl good)

  advance_eos-Committed :
      (token : ℕ) (g : Guide)
      → RuntimeGood Good g.runtime
      → g.finished ≡ false
      → (token == g.eos_token_id) ≡ true
      → Ensures
          (λ _. Committed fuel Good After token g)
          (λ _ u. u ≡ g)
          (advance_eos fuel token (checkpoint g) g)
  unfolding advance_eos invalidate_mask
  advance_eos-Committed token g good is_open eos =
      let (b, says) = is_accepting_same g good in
      Ensures-step _ says (
        Ensures-guard _ _ g _
          (λ accepts. Ensures-step _ (retain_checkpoint_lem (checkpoint g) g) (
            Ensures-modify _ _ _ (
              Ensures-last _ _ (record {
                good = good;
                after = RuntimeAfter-refl g.runtime good;
                step = inl (==→eq token g.eos_token_id eos, says ∙ ap (λ x. ok x g) accepts, refl);
                was_open = is_open;
                finished = sym eos;
                history = refl;
                max_rollback = refl;
                tokens = refl;
                bytes = rw eos (sym (append-nil g.committed_bytes));
                cache = refl;
                limits = refl;
                initial = refl;
                vocabulary = refl;
                eos_token_id = refl;
                vocab_size = refl;
                mask_words = refl;
              }))))
          (λ _. refl))

  advance_token-Committed :
      (token : ℕ) (g : Guide)
      → RuntimeGood Good g.runtime
      → g.finished ≡ false
      → (token == g.eos_token_id) ≡ false
      → Ensures
          (λ _. Committed fuel Good After token g)
          (λ _ u. u ≡ g)
          (advance_token fuel token (checkpoint g) g)
  unfolding advance_token invalidate_mask Reached
  advance_token-Committed token g good is_open other =
      let bytes = bytes_of g.vocabulary token in
      Ensures-get g _ (
        Ensures-bind _ (advance_runtime-Reached token bytes g.runtime g refl good)
          (λ _ u (rt, same, fine, after, moved).
            Ensures-step _ (retain_checkpoint_lem (checkpoint g) u) (
              Ensures-modify _ _ _ (
                Ensures-last _ _ (record {
                  good = subst (λ v. RuntimeGood Good v.runtime) (sym same) fine;
                  after = subst (λ v. RuntimeAfter After g.runtime v.runtime) (sym same) after;
                  step = inr (
                    ==→neq token g.eos_token_id other,
                    subst (λ bs. Moved fuel token bs g.runtime u.runtime)
                        (bytes_of_lem g.vocabulary token)
                        (subst (λ v. Moved fuel token bytes g.runtime v.runtime) (sym same) moved),
                  );
                  was_open = is_open;
                  finished = ap (λ v. v.finished) same ∙ is_open ∙ sym other;
                  history = ap (λ v. retained v.max_rollback v.history (checkpoint g)) same;
                  max_rollback = ap (λ v. v.max_rollback) same;
                  tokens = ap (λ v. v.committed_token_ids ++ token ∷ []) same;
                  bytes = rw other (
                      ap (λ v. extend_bytes v.committed_bytes bytes) same
                      ∙ extended g.committed_bytes bytes
                      ∙ ap (λ bs. g.committed_bytes ++ or_default bs)
                          (bytes_of_lem g.vocabulary token));
                  cache = refl;
                  limits = ap (λ v. v.limits) same;
                  initial = ap (λ v. v.initial) same;
                  vocabulary = ap (λ v. v.vocabulary) same;
                  eos_token_id = ap (λ v. v.eos_token_id) same;
                  vocab_size = ap (λ v. v.vocab_size) same;
                  mask_words = ap (λ v. v.mask_words) same;
                })))))

  -- A commit of a token, or of the end of the sequence, ends. If it succeeds, the guide was not
  -- finished and has recorded the token behind the others and a checkpoint of itself at the end of
  -- the bounded history, has added to its bytes those that the vocabulary has for the token, and none
  -- for the end of the sequence, is finished if the token was the end of the sequence, and has
  -- dropped its cached mask. At the end of the sequence its runtime accepts and stays; for another
  -- token it has moved along the token's edge of the index, or to where the token's bytes lead the
  -- recognizer, which did not reject them. If it fails, nothing at all has changed.
  pub advance-Committed :
      (token : ℕ) (g : Guide)
      → RuntimeGood Good g.runtime
      → Ensures (λ _. Committed fuel Good After token g) (λ _ u. u ≡ g) (advance fuel token g)
  unfolding advance
  advance-Committed token g good = Ensures-get g _ (
      Ensures-guard _ _ g _
        (λ is_open.
          Ensures-or_fail _ _ g _
            (λ next _.
              Ensures-guard _ _ g _
                (λ fits.
                  Ensures-if (token == g.eos_token_id) (advance_eos fuel token (checkpoint g))
                    (advance_token fuel token (checkpoint g)) g
                    (λ eos. advance_eos-Committed token g good (false_of_not _ is_open) eos)
                    (λ other. advance_token-Committed token g good (false_of_not _ is_open) other))
                (λ _. refl))
            (λ _. refl))
        (λ _. refl))
