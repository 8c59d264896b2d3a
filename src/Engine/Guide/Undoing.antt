-- ===== src/Engine/Guide/Undoing.antt =====
-- src/engine.rs, `Guide::rollback`: the way back over tokens that were committed.
use oc_earley.Prelude.{
  ℕ, zero, suc, ◌≤◌, ◌<◌, ◌≡◌, inl, inr, Bool, true, false, Bool-cases, Option, none, some, List,
  [], ◌∷◌, ◌++◌, length, length-append, length-append_one, append_assoc, append-nil, take,
  take-append_left, leb, ◌==◌, refl, ap, ◌∙◌, arith,
}
use oc_earley.Outcome.{ok, bind, get, pure, modify}
use oc_earley.Outcome.Rules.{
  Ensures, Ensures-step, Ensures-modify, Ensures-last, Ensures-get, Ensures-guard, Ensures-ok,
  or_fail_ok,
}
use oc_earley.Engine.Recognizer.{RecognizerState}
use oc_earley.Engine.Recognizer as Recognizer
use oc_earley.Engine.Walk.Spec.{Revertible}
use oc_earley.Engine.Guide.{
  GuideRuntime, GuideCheckpoint, Guide, checkpoint, checkpoint_of, drop_oldest, restore_runtime,
  restore_guide, invalidate_mask, pop_back, pop_each, rollback, rollback_some, advance,
}
use oc_earley.Engine.Guide.Advancing.{
  bytes_behind, RuntimeGood, RuntimeAfter, retained, advance-Committed, passed_on,
}

-- So many tokens are committed one after the other, each with success.
pub data Advanced (fuel : ℕ) : ℕ → Guide → Guide → Type 0 where
  start : {g : Guide} → Advanced fuel zero g g
  more :
      {n : ℕ} {g u v : Guide} (token : ℕ)
      → Advanced fuel n g u
      → advance fuel token u ≡ ok tt v
      → Advanced fuel (suc n) g v

-- A guide that is as it was, but for its history and its statistics.
pub record Restored (g v : Guide) : Type 0 where
  pub runtime : v.runtime ≡ g.runtime
  pub tokens : v.committed_token_ids ≡ g.committed_token_ids
  pub bytes : v.committed_bytes ≡ g.committed_bytes
  pub finished : v.finished ≡ g.finished
  pub cache : v.cached_mask ≡ none

-- The newest entries of a bounded history stay.
pub drop_oldest-append :
    (max_rollback : ℕ) (older newer : List GuideCheckpoint)
    → length newer < max_rollback
    → (rest : List GuideCheckpoint) × (drop_oldest max_rollback (older ++ newer) ≡ rest ++ newer)
unfolding drop_oldest
drop_oldest-append max_rollback [] [] h = ([], refl)
drop_oldest-append max_rollback [] (c ∷ cs) h =
    let room : leb max_rollback (length (c ∷ cs)) ≡ false = ground arith in ([], rw room refl)
drop_oldest-append max_rollback (c ∷ cs) newer h =
    let (rest, e) = drop_oldest-append max_rollback cs newer h in
    elim (Bool-cases (leb max_rollback (length (c ∷ cs ++ newer)))) [
      | inl q ↦ (rest, rw q e)
      | inr q ↦ (c ∷ cs, rw q refl)
    ]

pop_back-append :
    (xs : List GuideCheckpoint) (y : GuideCheckpoint) (ys : List GuideCheckpoint)
    → pop_back (xs ++ y ∷ ys) ≡ ((pop_back (y ∷ ys)).0, xs ++ (pop_back (y ∷ ys)).1)
unfolding pop_back
pop_back-append [] y ys = refl
pop_back-append (x ∷ []) y ys = refl
pop_back-append (x ∷ z ∷ xs) y ys = rw (pop_back-append (z ∷ xs) y ys) refl

length-pop_back :
    (y : GuideCheckpoint) (ys : List GuideCheckpoint) → length (pop_back (y ∷ ys)).1 ≡ length ys
unfolding pop_back
length-pop_back y [] = refl
length-pop_back y (z ∷ zs) = ap suc (length-pop_back z zs)

pub pop_each-append :
    (n : ℕ) (older : List GuideCheckpoint) (c : GuideCheckpoint) (newer : List GuideCheckpoint)
    (target : Option GuideCheckpoint)
    → length newer ≡ n
    → pop_each (suc n) target (older ++ c ∷ newer) ≡ (some c, older)
unfolding pop_each pop_back
pop_each-append zero older c [] target h =
    pop_back-append older c [] ∙ ap (λ xs. (some c, xs)) (append-nil older)
pop_each-append zero older c (d ∷ ds) target h = absurd (omega (arith, h))
pop_each-append (suc n) older c [] target h = absurd (omega (arith, h))
pop_each-append (suc n) older c (d ∷ ds) target h =
    ap (λ p. pop_each (suc n) p.0 p.1) (pop_back-append older c (d ∷ ds))
    ∙ pop_each-append n older c (pop_back (d ∷ ds)).1 (pop_back (d ∷ ds)).0
        (omega (arith, h, length-pop_back d ds))

pub suc_some : (n : ℕ) → (suc n == 0) ≡ false
suc_some n = ground arith

module _ {Good : RecognizerState → Type 0} {After : RecognizerState → RecognizerState → Type 0}
    (fuel : ℕ) (laws : Revertible fuel Good After) where
  pub RuntimeAfter-trans :
      (a b c : GuideRuntime)
      → RuntimeAfter After a b
      → RuntimeAfter After b c
      → RuntimeAfter After a c
  RuntimeAfter-trans a b c RuntimeAfter.by_index RuntimeAfter.by_index = RuntimeAfter.by_index
  RuntimeAfter-trans a b c (RuntimeAfter.by_recognizer p) (RuntimeAfter.by_recognizer q) =
      RuntimeAfter.by_recognizer (laws.further _ _ _ p q)

  pub restore_runtime_lem :
      (a b : GuideRuntime) (tokens bytes : ℕ) (done : Bool) (u : Guide)
      → RuntimeGood Good a
      → RuntimeAfter After a b
      → restore_runtime b (checkpoint_of a tokens bytes done) u
        ≡ ok (tokens, bytes, done) (record u { runtime = a })
  unfolding restore_runtime checkpoint_of bind modify pure
  restore_runtime_lem a b tokens bytes done u good RuntimeAfter.by_index = refl
  restore_runtime_lem a b tokens bytes done u (RuntimeGood.by_recognizer good)
        (RuntimeAfter.by_recognizer {r} {t} p) =
      ap (λ o. bind o (λ _. pure (tokens, bytes, done)))
        (passed_on (Recognizer.restore (Recognizer.checkpoint r)) t u (laws.back r t good p))

  -- What the later guide keeps of the earlier one, `n + 1` tokens before.
  record Held (n : ℕ) (g u : Guide) : Type 0 where
    good : RuntimeGood Good u.runtime
    after : RuntimeAfter After g.runtime u.runtime
    max_rollback : u.max_rollback ≡ g.max_rollback
    tokens : (more : List ℕ) × (u.committed_token_ids ≡ g.committed_token_ids ++ more)
    bytes : (more : List ℕ) × (u.committed_bytes ≡ g.committed_bytes ++ more)
    older : List GuideCheckpoint
    newer : List GuideCheckpoint
    history : u.history ≡ older ++ checkpoint g ∷ newer
    length_newer : length newer ≡ n

  kept_history :
      (n max_rollback : ℕ) (history older newer : List GuideCheckpoint)
      (first last : GuideCheckpoint)
      → suc (suc n) ≤ max_rollback
      → history ≡ older ++ first ∷ newer
      → length newer ≡ n
      → (rest : List GuideCheckpoint) × (retained max_rollback history last
          ≡ rest ++ first ∷ (newer ++ last ∷ []))
  kept_history n max_rollback history older newer first last room e l =
      let some_room : (max_rollback == 0) ≡ false = ground arith in
      let (rest, q) = drop_oldest-append max_rollback older (first ∷ newer) (omega arith) in
      (rest, rw (some_room, e, q) (append_assoc rest (first ∷ newer) (last ∷ [])))

  held :
      (n : ℕ) (g u : Guide)
      → RuntimeGood Good g.runtime
      → suc n ≤ g.max_rollback
      → Advanced fuel (suc n) g u
      → Held n g u
  held zero g u good room (more token start e) =
      let c = Ensures-ok (advance-Committed fuel laws token g good) e in
      let some_room : (g.max_rollback == 0) ≡ false = ground arith in
      record {
        good = c.good;
        after = c.after;
        max_rollback = c.max_rollback;
        tokens = (_, c.tokens);
        bytes = (_, c.bytes);
        older = drop_oldest g.max_rollback g.history;
        newer = [];
        history = c.history ∙ rw some_room refl;
        length_newer = refl;
      }
  held (suc n) g v good room (more {u} token before e) =
      let h = held n g u good (omega arith) before in
      let c = Ensures-ok (advance-Committed fuel laws token u h.good) e in
      let (rest, kept) =
        kept_history n u.max_rollback u.history h.older h.newer (checkpoint g) (checkpoint u)
          (omega (arith, h.max_rollback)) h.history h.length_newer in
      let (bs, b) = h.bytes in
      let cs = bytes_behind u token in
      record {
        good = c.good;
        after = RuntimeAfter-trans g.runtime u.runtime v.runtime h.after c.after;
        max_rollback = c.max_rollback ∙ h.max_rollback;
        tokens = (
          h.tokens.0 ++ token ∷ [],
          c.tokens
              ∙ ap (λ xs. xs ++ token ∷ []) h.tokens.1
              ∙ append_assoc g.committed_token_ids h.tokens.0 (token ∷ []),
        );
        bytes = (bs ++ cs, c.bytes ∙ ap (λ xs. xs ++ cs) b ∙ append_assoc g.committed_bytes bs cs);
        older = rest;
        newer = h.newer ++ checkpoint u ∷ [];
        history = c.history ∙ kept;
        length_newer = omega (arith, length-append_one h.newer (checkpoint u), h.length_newer);
      }

  restore_guide_lem :
      (g u : Guide)
      → RuntimeGood Good g.runtime
      → RuntimeAfter After g.runtime u.runtime
      → restore_guide (checkpoint g) u
        ≡ ok tt (record u {
          runtime = g.runtime;
          committed_token_ids = take (length g.committed_token_ids) u.committed_token_ids;
          committed_bytes = take (length g.committed_bytes) u.committed_bytes;
          finished = g.finished;
        })
  unfolding restore_guide checkpoint bind get modify
  restore_guide_lem g u good after =
      rw
        (restore_runtime_lem g.runtime u.runtime (length g.committed_token_ids)
          (length g.committed_bytes) g.finished u good after)
        refl

  popped_Restored :
      (g u : Guide) (xs ys : List ℕ)
      → RuntimeGood Good g.runtime
      → RuntimeAfter After g.runtime u.runtime
      → u.committed_token_ids ≡ g.committed_token_ids ++ xs
      → u.committed_bytes ≡ g.committed_bytes ++ ys
      → Ensures
          (λ _. Restored g)
          (λ _ _. ⊥)
          (bind (restore_guide (checkpoint g) u) (λ _. invalidate_mask))
  unfolding invalidate_mask
  popped_Restored g u xs ys good after e e' = Ensures-step _ (restore_guide_lem g u good after) (
      Ensures-last _ _ (record {
        runtime = refl;
        tokens =
            ap (take (length g.committed_token_ids)) e ∙ take-append_left g.committed_token_ids xs;
        bytes = ap (take (length g.committed_bytes)) e' ∙ take-append_left g.committed_bytes ys;
        finished = refl;
        cache = refl;
      }))

  -- After a number of tokens is committed, one or more and at most as many as the bound on the history, rolling back
  -- that number of tokens succeeds. The guide is in the state it was in before them, with the same
  -- tokens and bytes committed, finished if it was finished then, and without a cached mask.
  pub rollback-advance :
      (n : ℕ) (g u : Guide)
      → RuntimeGood Good g.runtime
      → Advanced fuel (suc n) g u
      → suc n ≤ g.max_rollback
      → Ensures (λ _. Restored g) (λ _ _. ⊥) (rollback (suc n) u)
  unfolding rollback rollback_some
  rollback-advance n g u good steps room =
      let h = held n g u good room steps in
      let popped =
        ap (pop_each (suc n) none) h.history
        ∙ pop_each-append n h.older (checkpoint g) h.newer none h.length_newer in
      let enough : leb (suc n) (length u.history) ≡ true = ground (
        arith,
        ap length h.history,
        length-append h.older (checkpoint g ∷ h.newer),
        h.length_newer,
      ) in
      rw (suc_some n) (
        Ensures-get u _ (
          Ensures-guard _ _ u _
            (λ _. Ensures-modify _ u _ (
              Ensures-step _ (or_fail_ok _ _ _ (ap (λ p. p.0) popped))
                (popped_Restored g _ h.tokens.0 h.bytes.0 good h.after h.tokens.1 h.bytes.1)))
            (λ short. cc)))
