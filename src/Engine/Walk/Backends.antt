-- ===== src/Engine/Walk/Backends.antt =====
-- The backends that the walk goes back and forth on: the automaton, and the Earley recognizer.
use oc_earley.Prelude.{ℕ, ◌≡◌, List, ◌++◌, refl, sym, ap, ◌∙◌, subst}
use oc_earley.Outcome.{ok, pure}
use oc_earley.Outcome.Rules.{Ensures-weaken}
use oc_earley.Grammar.Dfa as Dfa
use oc_earley.Engine.Recognizer.{
  Advance, rejected, live, accepting, DfaRecognizer, RecognizerState, dfa, earley, is_accepting,
  is_live, checkpoint, restore,
}
use oc_earley.Engine.DfaTrial.{moved, try_advance_bytes-Dfa, TriedFrom}
use oc_earley.Engine.DfaTrial as DfaTrial
use oc_earley.Engine.Trial.{Tried, try_advance_bytes-Earley}
use oc_earley.Engine.Trial as Trial
use oc_earley.Earley.Types.{Setup, State}
use oc_earley.Earley.Recognizer as Earley
use oc_earley.Earley.WellFormed.{WellFormed, LimitsOk}
use oc_earley.Earley.Soundness.Invariant.{Extends, Extends-refl}
use oc_earley.Earley.Reading.{HasRead, HasRead-one_more}
use oc_earley.Earley.Undo.{Extends-trans}
use oc_earley.Engine.Walk.Spec.{Stepped, Revertible}

abbrev pub IsDfa : RecognizerState → Type 0
IsDfa r = (d : DfaRecognizer) × (r ≡ dfa d)

-- The same automaton, perhaps in another state and at another position.
abbrev pub SameDfa : RecognizerState → RecognizerState → Type 0
SameDfa r t = (d : DfaRecognizer) × (q : ℕ) × (n : ℕ) × (r ≡ dfa d) × (t ≡ dfa (moved d q n))

dfa-Stepped :
    (d : DfaRecognizer) (bytes : List ℕ) (a : Advance) (t : RecognizerState)
    → TriedFrom d d.state d.position bytes a t
    → Stepped IsDfa SameDfa (dfa d) a t
dfa-Stepped d bytes rejected t (same, _) = same
dfa-Stepped d bytes live t (same, _, _) = ((_, same), (d, _, _, refl, same))
dfa-Stepped d bytes accepting t (same, _, _) = ((_, same), (d, _, _, refl, same))

-- The automaton.
pub Revertible-dfa : (fuel : ℕ) → Revertible fuel IsDfa SameDfa
unfolding is_live is_accepting pure
Revertible-dfa fuel = record {
  same = λ r (d, e). (d, d.state, d.position, e, e);
  further = λ r s t (d, q, n, e, e') (f, q', n', g, g').
      let same : f ≡ moved d q n = cc in (d, q', n', e, g' ∙ ap (λ x. dfa (moved x q' n')) same);
  back = λ r t good (d, q, n, e, e').
      subst (λ x. restore (checkpoint x) t ≡ ok tt x) (sym e)
        (subst (λ x. restore (checkpoint (dfa d)) x ≡ ok tt (dfa d)) (sym e')
          (DfaTrial.undo d q n));
  says_live = λ r (d, e). (Dfa.is_live d.dfa d.state, rw e refl);
  says_accepting = λ r (d, e). (Dfa.is_accepting d.dfa d.state, rw e refl);
  tries = λ r bytes (d, e). rw e (
      Ensures-weaken (λ a t h. dfa-Stepped d bytes a t h) (λ _ _ h. h)
        (try_advance_bytes-Dfa d fuel bytes));
}

module _ (self : Setup) (wf : WellFormed self.compiled) (limits : LimitsOk self.limits) where
  -- An Earley recognizer that has read some bytes, and one with a longer chart.
  abbrev pub IsEarley : RecognizerState → Type 0
  IsEarley r = (s : State) × (bytes : List ℕ) × HasRead self bytes s × (r ≡ earley self s)

  abbrev pub LongerChart : RecognizerState → RecognizerState → Type 0
  LongerChart r t =
      (s : State) × (u : State) × (r ≡ earley self s) × (t ≡ earley self u) × Extends s u

  earley-Stepped :
      (s : State) (bytes : List ℕ) (a : Advance) (t : RecognizerState)
      → Tried self wf limits bytes s a t
      → Stepped IsEarley LongerChart (earley self s) a t
  earley-Stepped s bytes rejected t same = same
  earley-Stepped s bytes live t (u, same, read, _, longer) =
      ((u, bytes, read, same), (s, u, refl, same, longer))
  earley-Stepped s bytes accepting t (u, same, read, _, longer) =
      ((u, bytes, read, same), (s, u, refl, same, longer))

  -- The Earley recognizer.
  pub Revertible-earley : (fuel : ℕ) → Revertible fuel IsEarley LongerChart
  unfolding is_live is_accepting pure checkpoint
  Revertible-earley fuel = record {
    same = λ r (s, bytes, read, e). (s, s, e, e, Extends-refl s);
    further = λ r s t (x, y, e, e', p) (y', z, g, g', q).
        let same : y' ≡ y = cc in
        (x, z, e, g', Extends-trans x y z p (subst (λ v. Extends v z) same q));
    back = λ r t (s', bytes, read, e0) (s, u, e, e', longer).
        let same : s' ≡ s = cc in
        let begun =
          HasRead-one_more self wf limits bytes s (subst (HasRead self bytes) same read) in
        subst (λ x. restore (checkpoint x) t ≡ ok tt x) (sym e)
          (subst (λ x. restore (checkpoint (earley self s)) x ≡ ok tt (earley self s)) (sym e')
            (Trial.undo self wf limits s u begun longer));
    says_live = λ r (s, _, _, e). (Earley.is_live self s, rw e refl);
    says_accepting = λ r (s, _, _, e). (Earley.is_accepting self s, rw e refl);
    tries = λ r more (s, bytes, read, e). rw e (
        Ensures-weaken (λ a t h. earley-Stepped s (bytes ++ more) a t h) (λ _ _ h. h)
          (try_advance_bytes-Earley self wf limits fuel bytes more s read));
  }
