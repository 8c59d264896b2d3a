-- ===== src/Engine/Walk/Exact.antt =====
-- What `fill_structural_mask` writes: a bit for every token that the recognizer allows, and no other.
use oc_earley.Prelude.{
  ℕ, ◌/◌, ◌<◌, ◌≡◌, ◌⊎◌, ◌↔◌, inl, inr, Bool, true, false, ◌||◌, ◌==◌, ==→eq, [], ◌∷◌, length,
  u64_max, if◌then◌else◌, refl, sym, ap, ◌∙◌, arith, subst,
}
use oc_earley.Error.{RuntimeError, RuntimeLimits, IsLimit}
use oc_earley.Outcome.{ok, bind, pure, fail}
use oc_earley.Outcome.Rules.{
  Ensures, holds, fails, Ensures-bind, Ensures-step, Ensures-pure, Ensures-modify, Ensures-cases,
}
use oc_earley.Vocabulary.Trie.{DerivedVocabulary}
use oc_earley.Engine.Recognizer.{RecognizerState, is_accepting, checkpoint, restore}
use oc_earley.Engine.Walk.{
  TrieFrame, Walk, enable, walk, rounds_of, fill_from_root, back_to, fill_structural_mask,
}
use oc_earley.Engine.Walk.Spec.{is_allowed, Revertible, Enabled, TrieOk}
use oc_earley.Engine.Walk.Marking.{Kept, enable-is_allowed}
use oc_earley.Engine.Walk.Chain.{Setting, Pending, Chain, Inv, on_recognizer_ok}
use oc_earley.Engine.Walk.Emitting.{or_right, or_cases}
use oc_earley.Engine.Walk.Rounds.{Failed}
use oc_earley.Engine.Walk.Ending.{walk-Inv}

-- The tokens that a mask is to hold: those it holds already, the end of the sequence where the
-- recognizer accepts, and those whose bytes it can read.
abbrev pub Allowed : ℕ → DerivedVocabulary → Walk → ℕ → Type 0
Allowed fuel vocabulary w token =
    (is_allowed w.destination token ≡ true)
    ⊎ ((token ≡ vocabulary.eos_token_id) × (is_accepting fuel w.recognizer ≡ ok true w.recognizer))
    ⊎ Enabled fuel vocabulary.trie 0 w.recognizer token

module _ {Good : RecognizerState → Type 0} {After : RecognizerState → RecognizerState → Type 0}
    (fuel : ℕ) (laws : Revertible fuel Good After) (limits : RuntimeLimits)
    (edges : limits.max_mask_trie_edges < u64_max) (vocabulary : DerivedVocabulary) (w : Walk)
    (trie_ok : TrieOk vocabulary.trie (length w.destination))
    (eos_fits : vocabulary.eos_token_id / 32 < length w.destination) (good : Good w.recognizer)
    (token : ℕ) where
  abbrev setting : Setting
  setting = record {
    fuel = fuel;
    limits = limits;
    trie = vocabulary.trie;
    Good = Good;
    After = After;
    laws = laws;
    token = token;
    words = length w.destination;
    trie_ok = trie_ok;
    edges = edges;
    root = w.recognizer;
    root_good = good;
    Goal = Allowed fuel vocabulary w token;
  }

  abbrev root_frame : TrieFrame
  root_frame = record {
    node = 0;
    next_edge = 0;
    emitted = false;
    checkpoint = checkpoint w.recognizer;
  }

  abbrev Marked : Bool → Walk → Type 0
  Marked b u =
      Kept w u
      × (is_allowed u.destination token ≡ (
          if b
          then (token == vocabulary.eos_token_id) || is_allowed w.destination token
          else is_allowed w.destination token))

  marked :
      {Q : RuntimeError → Walk → Type 0} (b : Bool)
      → Ensures (λ _. Marked b) Q ((if b then enable vocabulary.eos_token_id else pure tt) w)
  marked true = enable-is_allowed vocabulary.eos_token_id token w eos_fits
  marked false =
      Ensures-pure tt w
        (record { recognizer = refl; stack = refl; visited = refl; size = refl }, refl)

  begun :
      (b : Bool) (u : Walk)
      → is_accepting fuel w.recognizer ≡ ok b w.recognizer
      → Marked b u
      → (is_allowed u.destination token ≡ true)
      → Allowed fuel vocabulary w token
  begun true u says (kept, mark) h = elim (or_cases _ _ (sym mark ∙ h)) [
    | inl q ↦ inr (inl (==→eq _ _ q, says))
    | inr q ↦ inl q
  ]
  begun false u says (kept, mark) h = inl (sym mark ∙ h)

  to_come :
      (b : Bool) (u : Walk)
      → is_accepting fuel w.recognizer ≡ ok b w.recognizer
      → Marked b u
      → Allowed fuel vocabulary w token
      → (is_allowed u.destination token ≡ true) ⊎ Pending setting root_frame w.recognizer
  to_come b u says m (inr (inr h)) = inr (inl (refl, h))
  to_come true u says (kept, mark) (inl h) = inl (mark ∙ or_right _ _ h)
  to_come false u says (kept, mark) (inl h) = inl (mark ∙ h)
  to_come true u says (kept, mark) (inr (inl (q, _))) =
      let e : (token == vocabulary.eos_token_id) ≡ true = ground arith in
      inl (mark ∙ ap (λ b. b || is_allowed w.destination token) e)
  to_come false u says (kept, mark) (inr (inl (_, accepts))) = cc

  begins :
      (b : Bool) (u : Walk)
      → is_accepting fuel w.recognizer ≡ ok b w.recognizer
      → Marked b u
      → Inv setting (record u { stack = root_frame ∷ []; visited = 0 })
  begins b u says m = record {
    size = m.0.size;
    sound = begun b u says m;
    chain =
        subst (λ cur. Chain setting (root_frame ∷ []) cur (is_allowed u.destination token ≡ true))
          (sym m.0.recognizer)
          (
            w.recognizer,
            record {
              at = refl;
              good = good;
              after = laws.same w.recognizer good;
              fresh = λ _. (refl, refl);
              exists = trie_ok.root;
              sound = λ h. inr (inr h);
            },
            (laws.same w.recognizer good, to_come b u says m),
          );
    within = omega arith;
  }

  -- The walk, and the way back.
  fill_from_root-Inv :
      Ensures
        (λ _ u. Inv setting u × (u.stack ≡ []))
        (Failed setting)
        (fill_from_root fuel limits vocabulary w)
  unfolding fill_from_root
  fill_from_root-Inv =
      let (b, says) = laws.says_accepting w.recognizer good in
      Ensures-step _ (on_recognizer_ok (is_accepting fuel) w says) (
        Ensures-bind {P = λ _. Marked b} _ (marked b) (λ _ u m. Ensures-modify _ u _ (
          subst
            (λ r.
              Ensures (λ _ u. Inv setting u × (u.stack ≡ [])) (Failed setting)
                (walk fuel limits vocabulary.trie (rounds_of limits) (record u {
                  stack = record root_frame { checkpoint = checkpoint r } ∷ [];
                  visited = 0;
                })))
            (sym m.0.recognizer)
            (walk-Inv setting (rounds_of limits) _ (begins b u says m) (omega arith)))))

  -- The filling of a mask ends. A token is in the mask it leaves exactly if it was in it before, or
  -- is the end of the sequence and the recognizer accepts, or the token trie has a path to it whose
  -- bytes the recognizer can read one after the other, ending live. It fails only if it meets a
  -- limit; both ways the recognizer is the one it began with, and a mask that is filled keeps its width.
  pub fill_structural_mask-Enabled :
      Ensures
        (λ _ u.
          (u.recognizer ≡ w.recognizer)
          × (length u.destination ≡ length w.destination)
          × ((is_allowed u.destination token ≡ true) ↔ Allowed fuel vocabulary w token))
        (λ e u. IsLimit e × (u.recognizer ≡ w.recognizer))
        (fill_structural_mask fuel limits vocabulary w)
  unfolding fill_structural_mask back_to bind fail
  fill_structural_mask-Enabled = elim (Ensures-cases fill_from_root-Inv) [
    | inl (a, u, e, (i, done)) ↦
        let (after, all) =
          subst (λ st. Chain setting st u.recognizer (is_allowed u.destination token ≡ true)) done
            i.chain in
        rw
          (
            e,
            on_recognizer_ok (restore (checkpoint w.recognizer)) u
                (laws.back w.recognizer u.recognizer good after),
          )
          (holds (refl, i.size, (i.sound, all)))
    | inr (x, u, e, (limit, after)) ↦
        rw
          (
            e,
            on_recognizer_ok (restore (checkpoint w.recognizer)) u
                (laws.back w.recognizer u.recognizer good after),
          )
          (fails (limit, refl))
  ]
