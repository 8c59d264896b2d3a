-- ===== src/Engine/Guide/Sound.antt =====
-- src/engine.rs, `Guide`: the invariant that every call keeps, whether it succeeds or not.
use oc_earley.Prelude.{
  ℕ, zero, suc, ◌≤◌, ◌<◌, ◌≡◌, inl, inr, Bool, true, false, Bool-cases, none, List, [], ◌∷◌, ◌++◌,
  length, length-append, length-append_one, take, leb, leb→le, leb→gt, ◌==◌, refl, sym, ap, ◌∙◌,
  subst, arith,
}
use oc_earley.Error.{RuntimeError, RuntimeLimits}
use oc_earley.Outcome.{ok, err, bind, get, guard, modify}
use oc_earley.Outcome.Rules.{
  Ensures, fails, Ensures-step, Ensures-modify, Ensures-last, Ensures-get, Ensures-guard,
  Ensures-weaken, Ensures-pure, or_fail_ok,
}
use oc_earley.Index.{Index}
use oc_earley.Engine.Recognizer.{RecognizerState}
use oc_earley.Engine.Walk.Spec.{Revertible}
use oc_earley.Vocabulary.Trie.{DerivedVocabulary}
use oc_earley.Engine.Mask.{validate_rollback_limit}
use oc_earley.Engine.Guide.{
  GuideRuntime, GuideCheckpoint, Guide, checkpoint, checkpoint_of, drop_oldest, restore_guide,
  invalidate_mask, pop_each, rollback, rollback_some, reset, GuideCall, committing, rolling_back,
  resetting, run_call, from_index, from_recognizer,
}
use oc_earley.Engine.Guide.Advancing.{
  RuntimeGood, RuntimeAfter, RuntimeAfter-refl, Committed, retained, advance-Committed,
}
use oc_earley.Engine.Guide.Undoing.{
  RuntimeAfter-trans, restore_runtime_lem, pop_each-append, suc_some,
}

-- A history splits at the checkpoint that so many calls of `pop_back` end with.
split_history :
    (h : List GuideCheckpoint) (n : ℕ)
    → suc n ≤ length h
    → (older : List GuideCheckpoint) × (c : GuideCheckpoint) × (newer : List GuideCheckpoint) × (h
        ≡ older ++ c ∷ newer)
      × (length newer ≡ n)
split_history [] n h = absurd (omega arith)
split_history (x ∷ xs) n h = elim (Bool-cases (leb (suc n) (length xs))) [
  | inl q ↦
      let (older, c, newer, e, l) = split_history xs n (leb→le _ _ q) in
      (x ∷ older, c, newer, ap (◌∷◌ x) e, l)
  | inr q ↦ ([], x, xs, refl, omega (arith, leb→gt _ _ q))
]

-- Retaining a checkpoint keeps the bound.
length-drop_oldest :
    (max_rollback : ℕ) (h : List GuideCheckpoint)
    → 0 < max_rollback
    → length (drop_oldest max_rollback h) < max_rollback
unfolding drop_oldest
length-drop_oldest max_rollback [] p = p
length-drop_oldest max_rollback (c ∷ cs) p =
    elim (Bool-cases (leb max_rollback (length (c ∷ cs)))) [
      | inl q ↦ rw q (length-drop_oldest max_rollback cs p)
      | inr q ↦ rw q (leb→gt _ _ q)
    ]

length-retained :
    (max_rollback : ℕ) (h : List GuideCheckpoint) (c : GuideCheckpoint)
    → length h ≤ max_rollback
    → length (retained max_rollback h c) ≤ max_rollback
length-retained max_rollback h c l = elim (Bool-cases (max_rollback == 0)) [
  | inl q ↦ rw q l
  | inr q ↦ rw q (
      omega (
        arith,
        length-append_one (drop_oldest max_rollback h) c,
        length-drop_oldest max_rollback h (ground arith),
      ))
]

module _ {Good : RecognizerState → Type 0} {After : RecognizerState → RecognizerState → Type 0}
    (fuel : ℕ) (laws : Revertible fuel Good After) where
  -- The checkpoint was taken at the runtime.
  abbrev pub TakenAt : GuideCheckpoint → GuideRuntime → Type 0
  TakenAt c rt =
      (tokens : ℕ) × (bytes : ℕ) × (done : Bool) × (c ≡ checkpoint_of rt tokens bytes done)
      × RuntimeGood Good rt

  -- Each checkpoint of a history was taken at a runtime that was reached from the one before.
  abbrev pub Linked : GuideRuntime → List GuideCheckpoint → GuideRuntime → Type 0
  Linked from [] cur = RuntimeAfter After from cur
  Linked from (c ∷ cs) cur =
      (rt : GuideRuntime) × TakenAt c rt × RuntimeAfter After from rt × Linked rt cs cur

  pub record GuideOk (g : Guide) : Type 0 where
    pub good : RuntimeGood Good g.runtime
    pub bounded : length g.history ≤ g.max_rollback
    pub allowed : g.max_rollback ≤ g.limits.max_checkpoint_history
    pub first : GuideRuntime
    pub initial : TakenAt g.initial first
    pub linked : Linked first g.history g.runtime

  taken_first : (rt : GuideRuntime) → RuntimeGood Good rt → TakenAt (checkpoint_of rt 0 0 false) rt
  taken_first rt good = (0, 0, false, refl, good)

  Linked-from :
      (a b cur : GuideRuntime) (cs : List GuideCheckpoint)
      → RuntimeAfter After a b
      → Linked b cs cur
      → Linked a cs cur
  Linked-from a b cur [] p l = RuntimeAfter-trans fuel laws a b cur p l
  Linked-from a b cur (c ∷ cs) p (rt, at, q, l) =
      (rt, at, RuntimeAfter-trans fuel laws a b rt p q, l)

  Linked-drop :
      (max_rollback : ℕ) (from cur : GuideRuntime) (cs : List GuideCheckpoint)
      → Linked from cs cur
      → Linked from (drop_oldest max_rollback cs) cur
  unfolding drop_oldest
  Linked-drop max_rollback from cur [] l = l
  Linked-drop max_rollback from cur (c ∷ cs) (rt, at, p, l) =
      elim (Bool-cases (leb max_rollback (length (c ∷ cs)))) [
        | inl q ↦ rw q (
            Linked-from from rt cur (drop_oldest max_rollback cs) p
              (Linked-drop max_rollback rt cur cs l))
        | inr q ↦ rw q (rt, at, p, l)
      ]

  Linked-append :
      (from cur next : GuideRuntime) (cs : List GuideCheckpoint) (c : GuideCheckpoint)
      → Linked from cs cur
      → TakenAt c cur
      → RuntimeAfter After cur next
      → Linked from (cs ++ c ∷ []) next
  Linked-append from cur next [] c l at p = (cur, at, l, p)
  Linked-append from cur next (d ∷ ds) c (rt, at', q, l) at p =
      (rt, at', q, Linked-append rt cur next ds c l at p)

  Linked-to :
      (from cur next : GuideRuntime) (cs : List GuideCheckpoint)
      → Linked from cs cur
      → RuntimeAfter After cur next
      → Linked from cs next
  Linked-to from cur next [] l p = RuntimeAfter-trans fuel laws from cur next l p
  Linked-to from cur next (c ∷ cs) (rt, at, q, l) p = (rt, at, q, Linked-to rt cur next cs l p)

  -- Everything that was reached comes after the checkpoint that the history is cut at.
  Linked-After :
      (from cur : GuideRuntime) (cs : List GuideCheckpoint)
      → Linked from cs cur
      → RuntimeAfter After from cur
  Linked-After from cur [] l = l
  Linked-After from cur (c ∷ cs) (rt, at, p, l) =
      RuntimeAfter-trans fuel laws from rt cur p (Linked-After rt cur cs l)

  Linked-cut :
      (from cur : GuideRuntime) (older : List GuideCheckpoint) (c : GuideCheckpoint)
      (newer : List GuideCheckpoint)
      → Linked from (older ++ c ∷ newer) cur
      → (rt : GuideRuntime) × TakenAt c rt × Linked from older rt × RuntimeAfter After rt cur
  Linked-cut from cur [] c newer (rt, at, p, l) = (rt, at, p, Linked-After rt cur newer l)
  Linked-cut from cur (d ∷ older) c newer (rd, at, p, l) =
      let (rt, at', l', q) = Linked-cut rd cur older c newer l in (rt, at', (rd, at, p, l'), q)

  retained-Linked :
      (max_rollback : ℕ) (from cur next : GuideRuntime) (cs : List GuideCheckpoint)
      (c : GuideCheckpoint)
      → Linked from cs cur
      → TakenAt c cur
      → RuntimeAfter After cur next
      → Linked from (retained max_rollback cs c) next
  retained-Linked max_rollback from cur next cs c l at p = elim (Bool-cases (max_rollback == 0)) [
    | inl q ↦ rw q (Linked-to from cur next cs l p)
    | inr q ↦ rw q (
        Linked-append from cur next (drop_oldest max_rollback cs) c
          (Linked-drop max_rollback from cur cs l) at p)
  ]

  Committed-GuideOk :
      (token : ℕ) (g u : Guide) → GuideOk g → Committed fuel Good After token g u → GuideOk u
  unfolding checkpoint
  Committed-GuideOk token g u k c = record {
    good = c.good;
    bounded =
        rw (c.history, c.max_rollback)
          (length-retained g.max_rollback g.history (checkpoint g) k.bounded);
    allowed = rw (c.limits, c.max_rollback) k.allowed;
    first = k.first;
    initial = subst (λ x. TakenAt x k.first) (sym c.initial) k.initial;
    linked =
        subst (λ h. Linked k.first h u.runtime) (sym c.history)
          (retained-Linked g.max_rollback k.first g.runtime u.runtime g.history (checkpoint g)
            k.linked (_, _, _, refl, k.good) c.after);
  }

  -- Going back to a checkpoint that was taken on the way succeeds.
  restore_guide-step :
      (c : GuideCheckpoint) (rt : GuideRuntime) (u : Guide)
      → TakenAt c rt
      → RuntimeAfter After rt u.runtime
      → (tokens : List ℕ) × (bytes : List ℕ) × (done : Bool) × (restore_guide c u
          ≡ ok tt (record u {
            runtime = rt;
            committed_token_ids = tokens;
            committed_bytes = bytes;
            finished = done;
          }))
  unfolding restore_guide bind get modify
  restore_guide-step c rt u (tokens, bytes, done, e, good) p = (
    take tokens u.committed_token_ids,
    take bytes u.committed_bytes,
    done,
    rw (e, restore_runtime_lem fuel laws rt u.runtime tokens bytes done u good p) refl,
  )

  rollback-GuideOk :
      {Q : RuntimeError → Guide → Type 0} (n : ℕ) (g : Guide)
      → GuideOk g
      → n ≤ length g.history
      → Ensures (λ _. GuideOk) Q (rollback n g)
  unfolding rollback rollback_some invalidate_mask
  rollback-GuideOk zero g k enough = Ensures-pure tt g k
  rollback-GuideOk (suc n) g k enough =
      let (older, c, newer, e, l) = split_history g.history n enough in
      let (rt, at, linked, p) =
        Linked-cut k.first g.runtime older c newer
          (subst (λ h. Linked k.first h g.runtime) e k.linked) in
      let popped = ap (pop_each (suc n) none) e ∙ pop_each-append n older c newer none l in
      let found : leb (suc n) (length g.history) ≡ true = ground arith in
      let u : Guide = record g { history = (pop_each (suc n) none g.history).1 } in
      let (_, _, _, restored) = restore_guide-step c rt u at p in
      rw (suc_some n) (
        Ensures-get g _ (
          Ensures-guard _ _ g _
            (λ _. Ensures-modify _ g _ (
              Ensures-step _ (or_fail_ok _ _ u (ap (λ x. x.0) popped)) (
                Ensures-step _ restored (
                  Ensures-last _ _ (record {
                    good = at.4;
                    bounded = omega (
                      arith,
                      k.bounded,
                      ap length e,
                      ap (λ x. length x.1) popped,
                      length-append older (c ∷ newer),
                    );
                    allowed = k.allowed;
                    first = k.first;
                    initial = k.initial;
                    linked = subst (λ h. Linked k.first h rt) (sym (ap (λ x. x.1) popped)) linked;
                  })))))
            (λ short. cc)))

  reset-GuideOk :
      {Q : RuntimeError → Guide → Type 0} (g : Guide)
      → GuideOk g
      → Ensures (λ _. GuideOk) Q (reset g)
  unfolding reset
  reset-GuideOk g k =
      let (_, _, _, e) =
        restore_guide-step g.initial k.first g k.initial
          (Linked-After k.first g.runtime g.history k.linked) in
      Ensures-get g _ (
        Ensures-step _ e (
          Ensures-last _ _ (record {
            good = k.initial.4;
            bounded = omega arith;
            allowed = k.allowed;
            first = k.first;
            initial = k.initial;
            linked = RuntimeAfter-refl fuel laws k.first k.initial.4;
          })))

  -- A fresh guide, if the limits allow its bound.
  pub from_index-GuideOk :
      (limits : RuntimeLimits) (index : Index) (max_rollback : ℕ)
      → Ensures
          (λ g _. GuideOk g)
          (λ e _. limits.max_checkpoint_history < max_rollback)
          (from_index limits index max_rollback)
  unfolding from_index checkpoint_of validate_rollback_limit
  from_index-GuideOk limits index max_rollback =
      Ensures-guard _ _ tt _
        (λ fits. Ensures-pure _ tt (record {
          good = RuntimeGood.by_index;
          bounded = omega arith;
          allowed = leb→le _ _ fits;
          first = GuideRuntime.dfa index index.initial_state;
          initial = taken_first (GuideRuntime.dfa index index.initial_state) RuntimeGood.by_index;
          linked = RuntimeAfter.by_index;
        }))
        (λ over. leb→gt _ _ over)

  pub from_recognizer-GuideOk :
      (limits : RuntimeLimits) (r : RecognizerState) (vocabulary : DerivedVocabulary)
      (max_rollback : ℕ)
      → Good r
      → Ensures
          (λ g _. GuideOk g)
          (λ e _. limits.max_checkpoint_history < max_rollback)
          (from_recognizer limits r vocabulary max_rollback)
  unfolding from_recognizer checkpoint_of validate_rollback_limit
  from_recognizer-GuideOk limits r vocabulary max_rollback good =
      Ensures-guard _ _ tt _
        (λ fits. Ensures-pure _ tt (record {
          good = RuntimeGood.by_recognizer good;
          bounded = omega arith;
          allowed = leb→le _ _ fits;
          first = GuideRuntime.structural r;
          initial = taken_first (GuideRuntime.structural r) (RuntimeGood.by_recognizer good);
          linked = RuntimeAfter.by_recognizer (laws.same r good);
        }))
        (λ over. leb→gt _ _ over)

  -- Why a call may fail.
  abbrev pub Refused : GuideCall → Guide → RuntimeError → Type 0
  Refused (committing token) g e = Unit {0}
  Refused (rolling_back count) g e =
      (length g.history < count) × (e ≡ RuntimeError.rollback_unavailable count (length g.history))
  Refused resetting g e = ⊥

  rollback-beyond :
      (count : ℕ) (g : Guide)
      → length g.history < count
      → rollback count g ≡ err (RuntimeError.rollback_unavailable count (length g.history)) g
  unfolding rollback rollback_some bind get guard
  rollback-beyond zero g h = absurd (omega arith)
  rollback-beyond (suc n) g h =
      let short : leb (suc n) (length g.history) ≡ false = ground arith in
      rw (suc_some n, short) refl

  -- Every call on a guide whose history was taken on the way ends, and keeps it so, whether it
  -- succeeds or fails: the history is no longer than the bound given, which the limits allow, and
  -- each of its checkpoints can be restored, as the initial one can. Resetting never fails, and
  -- rolling back fails only beyond the history.
  pub run_call-GuideOk :
      (call : GuideCall) (g : Guide)
      → GuideOk g
      → Ensures (λ _. GuideOk) (λ e u. GuideOk u × Refused call g e) (run_call fuel call g)
  run_call-GuideOk (committing token) g k =
      Ensures-weaken (λ _ u c. Committed-GuideOk token g u k c)
        (λ e u same. (subst GuideOk (sym same) k, tt)) (advance-Committed fuel laws token g k.good)
  run_call-GuideOk (rolling_back count) g k = elim (Bool-cases (leb count (length g.history))) [
    | inl q ↦ rollback-GuideOk count g k (leb→le _ _ q)
    | inr q ↦
        let beyond = leb→gt _ _ q in rw (rollback-beyond count g beyond) (fails (k, (beyond, refl)))
  ]
  run_call-GuideOk resetting g k = reset-GuideOk g k
