-- ===== src/Earley/Undo.antt =====
-- src/earley.rs, `checkpoint` and `restore`: trying a byte and going back.
use oc_earley.Prelude.{
  ℕ, suc, ◌≤◌, ◌≡◌, sym, ◌∙◌, true, ◌&&◌, List, length, take-take, arith, ltb, leb, ◌==◌,
}
use oc_earley.Outcome.{ok, bind, get, guard, modify}
use oc_earley.Outcome.Rules.{Ensures, Ensures-weaken}
use oc_earley.Earley.Types.{Setup, State}
use oc_earley.Earley.Recognizer.{advance_byte, checkpoint, restore}
use oc_earley.Earley.WellFormed.{WellFormed, LimitsOk}
use oc_earley.Earley.Soundness.Invariant.{Extends}
use oc_earley.Earley.Reading.{HasRead, HasRead-one_more, advance_byte-HasRead}

same_generation : (n : ℕ) → (n == n) ≡ true
same_generation n = ground arith

in_chart : (n m : ℕ) → suc n ≤ m → (ltb 0 (suc n) && leb (suc n) m) ≡ true
in_chart n m h = ground arith

pub Extends-trans : (s t u : State) → Extends s t → Extends t u → Extends s u
Extends-trans s t u p q = record {
  begins =
      sym (take-take (length s.chart) (length t.chart) u.chart p.longer) ∙ (rw q.begins p.begins);
  longer = omega (arith, p.longer, q.longer);
}

module _ (self : Setup) where
  pub restore-Extends :
      (s t : State)
      → length s.chart ≡ suc s.byte_position
      → Extends s t
      → restore self (checkpoint self s) t ≡ ok tt s
  unfolding restore checkpoint bind get guard modify
  restore-Extends s t h x =
      let inside : (ltb 0 (length s.chart) && leb (length s.chart) (length t.chart)) ≡ true =
        rw h (in_chart s.byte_position (length t.chart) (omega (arith, x.longer))) in
      rw (same_generation self.generation, inside, x.begins)

module _ (self : Setup) (wf : WellFormed self.compiled) (limits : LimitsOk self.limits) where
  -- However reading a byte ends, restoring the checkpoint taken before it succeeds and gives back
  -- the recognizer as it was then, for a recognizer that has read some bytes.
  pub restore-advance_byte :
      (bytes : List ℕ) (s : State) (byte : ℕ)
      → HasRead self bytes s
      → Ensures
          (λ live t. restore self (checkpoint self s) t ≡ ok tt s)
          (λ e t. restore self (checkpoint self s) t ≡ ok tt s)
          (advance_byte self byte s)
  restore-advance_byte bytes s byte h =
      let begun = HasRead-one_more self wf limits bytes s h in
      Ensures-weaken (λ live t (read, longer, alive). restore-Extends self s t begun longer)
        (λ e t (limit, longer). restore-Extends self s t begun longer)
        (advance_byte-HasRead self wf limits bytes s byte h)
