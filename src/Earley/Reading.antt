-- ===== src/Earley/Reading.antt =====
-- src/earley.rs, the recognizer as a whole: the states that reading a byte string leads to.
use oc_earley.Prelude.{
  ℕ, suc, ◌≡◌, sym, ap, ◌∙◌, inl, inr, Bool, some, List, [], ◌∷◌, ◌++◌, length, get_elem?,
  get_elem?-append_left, get_elem?-append_last, lt_of_get_elem?, length-append_one,
}
use oc_earley.Outcome.Rules.{Ensures, holds, fails, Ensures-ok, Ensures-cases}
use oc_earley.Error.{IsLimit}
use oc_earley.Grammar.Language.Segments.{input_of}
use oc_earley.Earley.Types.{Setup, State}
use oc_earley.Earley.Recognizer.{is_live, advance_byte, recognizer}
use oc_earley.Earley.WellFormed.{WellFormed, LimitsOk}
use oc_earley.Earley.Soundness.Invariant.{
  Bounded, Sound, Extends, Undoable, advance_byte-Advances, recognizer-Sound,
}

-- The input begins with these bytes.
abbrev pub Agrees : (ℕ → ℕ) → List ℕ → Type 0
Agrees input bytes = (i b : ℕ) → get_elem? bytes i ≡ some b → input i ≡ b

-- The state has read these bytes: its chart is sound for every input that begins with them, which
-- includes those that go on in another way than the bytes tried so far.
pub record HasRead (self : Setup) (bytes : List ℕ) (s : State) : Type 0 where
  pub sound : (input : ℕ → ℕ) → Agrees input bytes → Sound self input s
  pub position : s.byte_position ≡ length bytes

pub Agrees-input_of : (bytes : List ℕ) → Agrees (input_of bytes) bytes
Agrees-input_of bytes i b e = rw e

Agrees-prefix :
    (input : ℕ → ℕ) (bytes : List ℕ) (byte : ℕ)
    → Agrees input (bytes ++ byte ∷ [])
    → Agrees input bytes × (input (length bytes) ≡ byte)
Agrees-prefix input bytes byte h = (
  λ i b e. h i b (get_elem?-append_left bytes (byte ∷ []) i (lt_of_get_elem? bytes i e) ∙ e),
  h (length bytes) byte (get_elem?-append_last bytes byte),
)

module _ (self : Setup) (wf : WellFormed self.compiled) (limits : LimitsOk self.limits) where
  pub HasRead-Bounded : (bytes : List ℕ) (s : State) → HasRead self bytes s → Bounded self s
  HasRead-Bounded bytes s h = (h.sound (input_of bytes) (Agrees-input_of bytes)).bounded

  pub HasRead-one_more :
      (bytes : List ℕ) (s : State) → HasRead self bytes s → length s.chart ≡ suc s.byte_position
  HasRead-one_more bytes s h = (h.sound (input_of bytes) (Agrees-input_of bytes)).one_more

  -- `recognizer` ends, either in an error that reports a limit or with a recognizer that has read
  -- nothing: its chart is sound for every input.
  pub recognizer-HasRead : Ensures (λ _ t. HasRead self [] t) (λ e _. IsLimit e) (recognizer self)
  recognizer-HasRead =
      let first = recognizer-Sound self (input_of []) wf limits in
      elim (Ensures-cases first) [
        | inr (e, t, q, h) ↦ rw q (fails h)
        | inl (_, t, q, (sound, position)) ↦ rw q (
            holds (record {
              sound = λ input a. (Ensures-ok (recognizer-Sound self input wf limits) q).0;
              position = position;
            }))
      ]

  -- What a successful `advance_byte` leads to.
  abbrev pub Reads : List ℕ → State → ℕ → Bool → State → Type 0
  Reads bytes s byte live t =
      HasRead self (bytes ++ byte ∷ []) t × Extends s t × (live ≡ is_live self t)

  -- `advance_byte` on a recognizer that has read some bytes ends, without a panic. If it succeeds,
  -- the recognizer has read this byte too, its chart has only been added to, and the result says
  -- whether it is live. If it fails, the error reports a limit, and the chart has only been added to.
  pub advance_byte-HasRead :
      (bytes : List ℕ) (s : State) (byte : ℕ)
      → HasRead self bytes s
      → Ensures (Reads bytes s byte) (Undoable s) (advance_byte self byte s)
  advance_byte-HasRead bytes s byte h =
      elim (Ensures-cases (advanced (input_of whole) (Agrees-input_of whole))) [
        | inr (e, t, q, x) ↦ rw q (fails x)
        | inl (live, t, q, (sound, longer, position, alive)) ↦ rw q (
            holds (
              record {
                sound = λ input a. (Ensures-ok (advanced input a) q).0;
                position = position ∙ ap suc h.position ∙ sym (length-append_one bytes byte);
              },
              longer,
              alive,
            ))
      ]
    where
      whole : List ℕ
      whole = bytes ++ byte ∷ []

      advanced :
          (input : ℕ → ℕ)
          → Agrees input (bytes ++ byte ∷ [])
          → Ensures
              (λ live t.
                Sound self input t
                × Extends s t
                × (t.byte_position ≡ suc s.byte_position)
                × (live ≡ is_live self t))
              (Undoable s)
              (advance_byte self byte s)
      advanced input a =
          let (old, new) = Agrees-prefix input bytes byte a in
          advance_byte-Advances self input wf limits byte s (ap input h.position ∙ new)
            (h.sound input old)
