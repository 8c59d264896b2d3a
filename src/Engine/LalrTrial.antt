-- ===== src/Engine/LalrTrial.antt =====
-- src/engine.rs, `try_advance_bytes` on the LALR backend, and `restore` on any backend.
use oc_earley.Prelude.{
  ℕ, ◌≡◌, ◌≢◌, refl, Bool, true, false, List, [], ◌∷◌, ◌==◌, arith, inl, inr, Bool-cases, is_empty,
  if◌then◌else◌,
}
use oc_earley.Outcome.{Outcome, ok, err, panic, out_of_fuel, bind, pure, fail, modify, guard}
use oc_earley.Error.{RuntimeError}
use oc_earley.Lalr.Types.{eof, Setup, State}
use oc_earley.Lalr.Recognizer as Lalr
use oc_earley.Engine.Recognizer.{
  Advance, rejected, live, accepting, RecognizerState, lalr, within, advance_byte, is_accepting,
  checkpoint, restore, settle, try_bytes, try_advance_bytes,
}

-- A trial that began with `r`: if it is rejected or ends in an error, it leaves `r` behind.
abbrev pub Undone : RecognizerState → Outcome RuntimeError RecognizerState Advance → Type 0
Undone r (ok rejected t) = t ≡ r
Undone r (ok live t) = Unit
Undone r (ok accepting t) = Unit
Undone r (err e t) = t ≡ r
Undone r panic = Unit
Undone r out_of_fuel = Unit

clone_never_fails :
    {A : Type 0} (b : Bool) (test : A → State → Bool) (s : State) (e : RuntimeError) (u : State)
    (o : Outcome RuntimeError State A)
    → Lalr.on_clone b test (λ _. o) s ≢ err e u
clone_never_fails b test s e u (ok a t) h = cc
clone_never_fails b test s e u (err x t) h = cc
clone_never_fails b test s e u panic h = cc
clone_never_fails b test s e u out_of_fuel h = cc

module _ (self : Setup) (s : State) where
  same_generation : (self.generation == self.generation) ≡ true
  same_generation = ground arith

  undo : (t : State) → restore (checkpoint (lalr self s)) (lalr self t) ≡ ok tt (lalr self s)
  unfolding restore checkpoint within Lalr.restore Lalr.checkpoint bind guard modify
  undo t = rw same_generation

  -- What the end of a trial leaves, by what `is_accepting` returns.
  ended :
      (o : Outcome RuntimeError State Bool)
      → ((e : RuntimeError) (t : State) → o ≢ err e t)
      → Undone
          (lalr self s)
          (bind (within (lalr self) o) (λ accepted. pure (if accepted then accepting else live)))
  unfolding bind within pure
  ended (ok true t) h = tt
  ended (ok false t) h = tt
  ended (err e t) h = absurd (h e t refl)
  ended panic h = tt
  ended out_of_fuel h = tt

  never_fails :
      (fuel : ℕ) (t : State) (e : RuntimeError) (u : State)
      → Lalr.is_accepting self fuel t ≢ err e u
  unfolding Lalr.is_accepting
  never_fails fuel t e u h = elim (Bool-cases (is_empty t.candidates)) [
    | inl q ↦
        clone_never_fails false (λ r _. Lalr.is_accept r.0) t e u
          (Lalr.action_after_reductions self fuel t.stack eof t) (rw q at h)
    | inr q ↦ cc (rw q at h)
  ]

  settled :
      (o : Outcome RuntimeError State Bool)
      (rest : RecognizerState → Outcome RuntimeError RecognizerState Advance)
      → ((t : State) → Undone (lalr self s) (rest (lalr self t)))
      → Undone (lalr self s) (settle (checkpoint (lalr self s)) (within (lalr self) o) rest)
  unfolding settle within bind pure fail
  settled (ok true t) rest h = h t
  settled (ok false t) rest h = rw (undo t) refl
  settled (err e t) rest h = rw (undo t) refl
  settled panic rest h = tt
  settled out_of_fuel rest h = tt

  trial :
      (fuel : ℕ) (bytes : List ℕ) (t : State)
      → Undone (lalr self s) (try_bytes fuel (checkpoint (lalr self s)) bytes (lalr self t))
  unfolding try_bytes advance_byte is_accepting
  trial fuel [] t = ended (Lalr.is_accepting self fuel t) (never_fails fuel t)
  trial fuel (byte ∷ bytes) t = settled (Lalr.advance_byte self fuel byte t) _ (trial fuel bytes)

  -- A trial on an LALR recognizer that is rejected or ends in an error leaves the recognizer as it
  -- was, whatever the tables are.
  pub try_advance_bytes-Lalr :
      (fuel : ℕ) (bytes : List ℕ)
      → Undone (lalr self s) (try_advance_bytes fuel bytes (lalr self s))
  unfolding try_advance_bytes
  try_advance_bytes-Lalr fuel bytes = trial fuel bytes s
