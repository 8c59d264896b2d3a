-- ===== src/Engine/DfaTrial.antt =====
-- src/engine.rs, `try_advance_bytes` on the whole-automaton backend: it runs the automaton.
use oc_earley.Prelude.{
  ℕ, suc, ◌+◌, ◌≡◌, refl, ap, ◌∙◌, inl, inr, Bool, true, false, not, ◌&&◌, ◌||◌, Bool-cases, List,
  [], ◌∷◌, length, arith, ◌==◌,
}
use oc_earley.Outcome.{ok, bind, pure, fail, get, modify, guard}
use oc_earley.Outcome.Rules.{
  Ensures, holds, fails, Ensures-cases, Ensures-get, Ensures-guard, Ensures-pure, Ensures-modify,
  Ensures-weaken,
}
use oc_earley.Error.{RuntimeError, IsLimit}
use oc_earley.Grammar.Dfa.{CompiledByteDfa}
use oc_earley.Grammar.Dfa as Dfa
use oc_earley.Engine.Recognizer.{
  Advance, rejected, live, accepting, DfaRecognizer, RecognizerState, dfa, within, move_dfa,
  advance_dfa, restore_dfa, advance_byte, is_accepting, checkpoint, restore, settle, try_bytes,
  try_advance_bytes,
}

-- The state that the automaton is in after some bytes.
abbrev pub run : CompiledByteDfa → ℕ → List ℕ → ℕ
run auto state [] = state
run auto state (byte ∷ bytes) = run auto (Dfa.next_state auto state byte) bytes

abbrev pub alive : CompiledByteDfa → ℕ → Bool
alive auto state = not (Dfa.is_dead auto state || not (Dfa.is_live auto state))

-- Every state on the way can still lead to acceptance.
abbrev pub survives : CompiledByteDfa → ℕ → List ℕ → Bool
survives auto state [] = true
survives auto state (byte ∷ bytes) =
    alive auto (Dfa.next_state auto state byte)
    && survives auto (Dfa.next_state auto state byte) bytes

abbrev pub moved : DfaRecognizer → ℕ → ℕ → DfaRecognizer
moved self state position = record self { state = state; position = position }

-- What a trial returns from state `q` at position `n`, and the recognizer it leaves, where `self` is
-- the one that it began with.
abbrev pub TriedFrom : DfaRecognizer → ℕ → ℕ → List ℕ → Advance → RecognizerState → Type 0
TriedFrom self q n bytes rejected r = (r ≡ dfa self) × (survives self.dfa q bytes ≡ false)
TriedFrom self q n bytes live r =
    (r ≡ dfa (moved self (run self.dfa q bytes) (n + length bytes)))
    × (survives self.dfa q bytes ≡ true)
    × (Dfa.is_accepting self.dfa (run self.dfa q bytes) ≡ false)
TriedFrom self q n bytes accepting r =
    (r ≡ dfa (moved self (run self.dfa q bytes) (n + length bytes)))
    × (survives self.dfa q bytes ≡ true)
    × (Dfa.is_accepting self.dfa (run self.dfa q bytes) ≡ true)

abbrev pub UntouchedDfa : DfaRecognizer → RuntimeError → RecognizerState → Type 0
UntouchedDfa self e r = IsLimit e × (r ≡ dfa self)

module _ (self : DfaRecognizer) where
  -- What one byte does, from state `q` at position `n`.
  abbrev Moved : ℕ → ℕ → ℕ → Bool → DfaRecognizer → Type 0
  Moved q n byte true t =
      (t ≡ moved self (Dfa.next_state self.dfa q byte) (n + 1))
      × (alive self.dfa (Dfa.next_state self.dfa q byte) ≡ true)
  Moved q n byte false t =
      (t ≡ moved self q n) × (alive self.dfa (Dfa.next_state self.dfa q byte) ≡ false)

  abbrev Stuck : RuntimeError → DfaRecognizer → Type 0
  Stuck e t = IsLimit e × (q : ℕ) × (n : ℕ) × (t ≡ moved self q n)

  advance_dfa-Moved :
      (q n byte : ℕ) → Ensures (Moved q n byte) Stuck (advance_dfa byte (moved self q n))
  unfolding advance_dfa move_dfa
  advance_dfa-Moved q n byte = Ensures-get (moved self q n) _ (
      Ensures-guard _ _ (moved self q n) _
        (λ fits. elim (Bool-cases dead) [
          | inl d ↦ rw d (Ensures-pure false (moved self q n) (refl, rw d))
          | inr d ↦ rw d (
              Ensures-modify _ (moved self q n) _ (
                Ensures-guard _ _ _ _
                  (λ small. Ensures-modify _ _ _ (Ensures-pure true _ (refl, rw d)))
                  (λ large. (tt, _, _, refl))))
        ])
        (λ over. (tt, q, n, refl)))
    where
      dead : Bool
      dead =
          Dfa.is_dead self.dfa (Dfa.next_state self.dfa q byte)
          || not (Dfa.is_live self.dfa (Dfa.next_state self.dfa q byte))

  same_generation : (self.generation == self.generation) ≡ true
  same_generation = ground arith

  pub undo : (q n : ℕ) → restore (checkpoint (dfa self)) (dfa (moved self q n)) ≡ ok tt (dfa self)
  unfolding restore checkpoint within restore_dfa bind get guard modify
  undo q n = rw same_generation

  at_end :
      (fuel q n : ℕ)
      → Ensures
          (TriedFrom self q n [])
          (UntouchedDfa self)
          (try_bytes fuel (checkpoint (dfa self)) [] (dfa (moved self q n)))
  unfolding try_bytes is_accepting bind pure
  at_end fuel q n =
      let here : moved self q n ≡ moved self q (n + 0) = ap (moved self q) (omega arith) in
      elim (Bool-cases (Dfa.is_accepting self.dfa q)) [
        | inl e ↦ rw e (holds (ap dfa here, refl, e))
        | inr e ↦ rw e (holds (ap dfa here, refl, e))
      ]

  -- The bytes after one that was read.
  after :
      (q n byte : ℕ) (bytes : List ℕ) (a : Advance) (r : RecognizerState)
      → alive self.dfa (Dfa.next_state self.dfa q byte) ≡ true
      → TriedFrom self (Dfa.next_state self.dfa q byte) (n + 1) bytes a r
      → TriedFrom self q n (byte ∷ bytes) a r
  after q n byte bytes rejected r e (same, dies) = (same, rw e dies)
  after q n byte bytes live r e (same, lives, final) =
      let m : (n + 1) + length bytes ≡ n + suc (length bytes) = omega arith in
      (same ∙ rw m, rw e lives, final)
  after q n byte bytes accepting r e (same, lives, final) =
      let m : (n + 1) + length bytes ≡ n + suc (length bytes) = omega arith in
      (same ∙ rw m, rw e lives, final)

  trial :
      (fuel q n : ℕ) (bytes : List ℕ)
      → Ensures
          (TriedFrom self q n bytes)
          (UntouchedDfa self)
          (try_bytes fuel (checkpoint (dfa self)) bytes (dfa (moved self q n)))
  unfolding try_bytes settle advance_byte within bind pure fail
  trial fuel q n [] = at_end fuel q n
  trial fuel q n (byte ∷ bytes) = elim (Ensures-cases (advance_dfa-Moved q n byte)) [
    | inl (true, t, e, (same, lives)) ↦
        rw (e, same)
          (Ensures-weaken (λ a r. after q n byte bytes a r lives) (λ e r h. h)
            (trial fuel (Dfa.next_state self.dfa q byte) (n + 1) bytes))
    | inl (false, t, e, (same, dies)) ↦ rw (e, same, undo q n) (holds (refl, rw dies))
    | inr (x, t, e, (limit, q', n', same)) ↦ rw (e, same, undo q' n') (fails (limit, refl))
  ]

  -- A trial on the whole automaton ends. It is accepted or live if every state on the way can still
  -- lead to acceptance, and then the recognizer is in the state that the bytes lead to, which
  -- accepts if the trial says so; it is rejected if some state on the way cannot. A trial that is
  -- rejected, or that meets the limit on the input, leaves the recognizer as it was.
  pub try_advance_bytes-Dfa :
      (fuel : ℕ) (bytes : List ℕ)
      → Ensures
          (TriedFrom self self.state self.position bytes)
          (UntouchedDfa self)
          (try_advance_bytes fuel bytes (dfa self))
  unfolding try_advance_bytes
  try_advance_bytes-Dfa fuel bytes = trial fuel self.state self.position bytes
