-- ===== src/Engine/Trial.antt =====
-- src/engine.rs, `RecognizerState::try_advance_bytes`: a trial of several bytes either reads them
-- all or changes nothing.
use oc_earley.Prelude.{
  ℕ, suc, ◌≡◌, refl, subst, inl, inr, true, false, Bool-cases, List, [], ◌∷◌, ◌++◌, length,
  append_assoc, append-nil,
}
use oc_earley.Outcome.{ok, bind, pure, fail}
use oc_earley.Outcome.Rules.{Ensures, holds, fails, Ensures-cases}
use oc_earley.Error.{RuntimeError, IsLimit}
use oc_earley.Grammar.Residual.{nonterminal}
use oc_earley.Grammar.Language.{Derives}
use oc_earley.Earley.Types.{Setup, State}
use oc_earley.Earley.Recognizer as Earley
use oc_earley.Earley.WellFormed.{WellFormed, LimitsOk}
use oc_earley.Earley.Soundness.Invariant.{Extends, Extends-refl}
use oc_earley.Earley.Reading.{HasRead, advance_byte-HasRead, HasRead-one_more}
use oc_earley.Earley.Undo.{Extends-trans, restore-Extends}
use oc_earley.Earley.Acceptance.{is_accepting-Derives}
use oc_earley.Engine.Recognizer.{
  Advance, rejected, live, accepting, RecognizerState, earley, within, advance_byte, is_accepting,
  checkpoint, restore, settle, try_bytes, try_advance_bytes,
}

module _ (self : Setup) (wf : WellFormed self.compiled) (limits : LimitsOk self.limits) where
  -- What a trial that starts at `s` returns, and the recognizer it leaves, where the bytes read
  -- before it and its own make up `bytes`.
  abbrev pub Tried : List ℕ → State → Advance → RecognizerState → Type 0
  Tried bytes s rejected r = r ≡ earley self s
  Tried bytes s live r =
      (t : State) × (r ≡ earley self t)
      × HasRead self bytes t
      × (Earley.is_accepting self t ≡ false)
      × Extends s t
  Tried bytes s accepting r =
      (t : State) × (r ≡ earley self t)
      × HasRead self bytes t
      × Derives self.compiled.grammar (nonterminal self.compiled.grammar.start ∷ []) bytes
      × Extends s t

  -- A trial that fails has met a limit, and has changed nothing.
  abbrev pub Untouched : State → RuntimeError → RecognizerState → Type 0
  Untouched s e r = IsLimit e × (r ≡ earley self s)

  pub undo :
      (s t : State)
      → length s.chart ≡ suc s.byte_position
      → Extends s t
      → restore (earley (Earley.checkpoint self s)) (earley self t) ≡ ok tt (earley self s)
  unfolding restore within
  undo s t h x = rw (restore-Extends self s t h x)

  at_end :
      (fuel : ℕ) (bytes : List ℕ) (s t : State)
      → HasRead self bytes t
      → Extends s t
      → Ensures
          (Tried bytes s)
          (Untouched s)
          (try_bytes fuel (earley (Earley.checkpoint self s)) [] (earley self t))
  unfolding try_bytes is_accepting bind pure
  at_end fuel bytes s t h x = elim (Bool-cases (Earley.is_accepting self t)) [
    | inl q ↦ rw q (holds (t, refl, h, is_accepting-Derives self wf bytes t h q, x))
    | inr q ↦ rw q (holds (t, refl, h, q, x))
  ]

  trial :
      (fuel : ℕ) (done bytes : List ℕ) (s t : State)
      → length s.chart ≡ suc s.byte_position
      → HasRead self done t
      → Extends s t
      → Ensures
          (Tried (done ++ bytes) s)
          (Untouched s)
          (try_bytes fuel (earley (Earley.checkpoint self s)) bytes (earley self t))
  unfolding try_bytes settle advance_byte within bind pure fail
  trial fuel done [] s t l h x = rw (append-nil done) (at_end fuel done s t h x)
  trial fuel done (byte ∷ bytes) s t l h x =
      elim (Ensures-cases (advance_byte-HasRead self wf limits done t byte h)) [
        | inl (true, u, q, (next, longer, alive)) ↦ rw q (
            subst
              (λ whole.
                Ensures (Tried whole s) (Untouched s)
                  (try_bytes fuel (earley (Earley.checkpoint self s)) bytes (earley self u)))
              (append_assoc done (byte ∷ []) bytes)
              (trial fuel (done ++ byte ∷ []) bytes s u l next (Extends-trans s t u x longer)))
        | inl (false, u, q, (next, longer, alive)) ↦
            rw (q, undo s u l (Extends-trans s t u x longer)) (holds refl)
        | inr (e, u, q, (limit, longer)) ↦
            rw (q, undo s u l (Extends-trans s t u x longer)) (fails (limit, refl))
      ]

  -- A trial on an Earley recognizer that has read some bytes ends: it has read its own bytes too,
  -- keeps the chart it began with as a prefix, and then accepts only if the grammar derives them
  -- all, or the recognizer is the same as before.
  pub try_advance_bytes-Earley :
      (fuel : ℕ) (read bytes : List ℕ) (s : State)
      → HasRead self read s
      → Ensures
          (Tried (read ++ bytes) s)
          (Untouched s)
          (try_advance_bytes fuel bytes (earley self s))
  unfolding try_advance_bytes checkpoint
  try_advance_bytes-Earley fuel read bytes s h =
      trial fuel read bytes s s (HasRead-one_more self wf limits read s h) h (Extends-refl s)
