-- ===== src/Tests/Witnesses.antt =====
-- The theorems applied to the recognizers of small grammars.
use oc_earley.Prelude.{◌≡◌, ◌⊎◌, refl, Bool, true, false, [], ◌∷◌}
use oc_earley.Outcome.{Outcome, ok, err, panic, out_of_fuel}
use oc_earley.Outcome.Rules.{Ensures, Ensures-ok}
use oc_earley.Error.{IsLimit}
use oc_earley.Grammar.Residual.{nonterminal}
use oc_earley.Grammar.Language.{Derives}
use oc_earley.Earley.Types.{Setup, State}
use oc_earley.Earley.Recognizer as Earley
use oc_earley.Earley.Recognizer.{initial_state}
use oc_earley.Earley.WellFormed.{WellFormed}
use oc_earley.Earley.Soundness.Invariant.{Bounded, Undoable}
use oc_earley.Earley.Reading.{HasRead, Reads, recognizer-HasRead, advance_byte-HasRead}
use oc_earley.Earley.Acceptance.{is_accepting-Derives, read_all, read_all-Derives}
use oc_earley.Earley.Undo.{restore-advance_byte}
use oc_earley.Engine.Recognizer.{earley, try_advance_bytes}
use oc_earley.Engine.Trial.{Tried, Untouched, try_advance_bytes-Earley}
use oc_earley.Tests.Earley.{program, nested, compiled_nested, setup_of}
use oc_earley.Tests.Nested.{nested-WellFormed, runtime_limits-LimitsOk}

abbrev pub setup : Setup
setup = setup_of compiled_nested

-- The state that a run leaves.
abbrev reached : {E A : Type 0} → Outcome E State A → State
reached (ok a s) = s
reached _ = initial_state

abbrev succeeds : {E A : Type 0} → Outcome E State A → Bool
succeeds (ok a s) = true
succeeds _ = false

abbrev returned : {E : Type 0} → Outcome E State Bool → Bool
returned (ok live s) = live
returned _ = false

-- A run that succeeds, in terms of what it returns and leaves.
run_of :
    {E : Type 0} (o : Outcome E State Bool) → succeeds o ≡ true → o ≡ ok (returned o) (reached o)
run_of (ok live s) h = refl
run_of (err e s) h = cc
run_of panic h = cc
run_of out_of_fuel h = cc

pub begun : State
begun = reached (Earley.recognizer setup)

begun-recognizer : Earley.recognizer setup ≡ ok tt begun
unfolding begun program
begun-recognizer = refl

pub begun-HasRead : HasRead setup [] begun
begun-HasRead =
    Ensures-ok (recognizer-HasRead setup nested-WellFormed runtime_limits-LimitsOk) begun-recognizer

after_a : State
after_a = reached (Earley.advance_byte setup 97 begun)

after_ab : State
after_ab = reached (Earley.advance_byte setup 98 after_a)

after_a-succeeds : succeeds (Earley.advance_byte setup 97 begun) ≡ true
unfolding begun program
after_a-succeeds = refl

after_ab-succeeds : succeeds (Earley.advance_byte setup 98 after_a) ≡ true
unfolding after_a begun program
after_ab-succeeds = refl

pub wf : WellFormed compiled_nested
wf = nested-WellFormed

after_a-HasRead : HasRead setup (97 ∷ []) after_a
unfolding after_a
after_a-HasRead =
    (Ensures-ok (advance_byte-HasRead setup wf runtime_limits-LimitsOk [] begun 97 begun-HasRead)
      (run_of (Earley.advance_byte setup 97 begun) after_a-succeeds)).0

after_ab-HasRead : HasRead setup (97 ∷ 98 ∷ []) after_ab
unfolding after_ab
after_ab-HasRead =
    (Ensures-ok
      (advance_byte-HasRead setup wf runtime_limits-LimitsOk (97 ∷ []) after_a 98 after_a-HasRead)
      (run_of (Earley.advance_byte setup 98 after_a) after_ab-succeeds)).0

after_ab-is_accepting : Earley.is_accepting setup after_ab ≡ true
unfolding after_ab after_a begun program
after_ab-is_accepting = refl

is_accepting-Derives_example : Derives nested (nonterminal 0 ∷ []) (97 ∷ 98 ∷ [])
is_accepting-Derives_example =
    is_accepting-Derives setup wf (97 ∷ 98 ∷ []) after_ab after_ab-HasRead after_ab-is_accepting

advance_byte-HasRead_example :
    Ensures
      (Reads setup wf runtime_limits-LimitsOk (97 ∷ []) after_a 98)
      (Undoable after_a)
      (Earley.advance_byte setup 98 after_a)
advance_byte-HasRead_example =
    advance_byte-HasRead setup wf runtime_limits-LimitsOk (97 ∷ []) after_a 98 after_a-HasRead

recognizer-HasRead_example :
    Ensures (λ _ t. HasRead setup [] t) (λ e _. IsLimit e) (Earley.recognizer setup)
recognizer-HasRead_example = recognizer-HasRead setup wf runtime_limits-LimitsOk

read_all-Derives_example :
    Ensures
      (λ _ t.
        Bounded setup t
        × ((Earley.is_accepting setup t ≡ false)
            ⊎ Derives nested (nonterminal 0 ∷ []) (97 ∷ 98 ∷ [])))
      (λ e _. IsLimit e)
      (read_all setup (97 ∷ 98 ∷ []))
read_all-Derives_example = read_all-Derives setup wf runtime_limits-LimitsOk (97 ∷ 98 ∷ [])

restore-advance_byte_example :
    Ensures
      (λ live t. Earley.restore setup (Earley.checkpoint setup after_a) t ≡ ok tt after_a)
      (λ e t. Earley.restore setup (Earley.checkpoint setup after_a) t ≡ ok tt after_a)
      (Earley.advance_byte setup 98 after_a)
restore-advance_byte_example =
    restore-advance_byte setup wf runtime_limits-LimitsOk (97 ∷ []) after_a 98 after_a-HasRead

try_advance_bytes-Earley_example :
    Ensures
      (Tried setup wf runtime_limits-LimitsOk (97 ∷ 97 ∷ 98 ∷ 98 ∷ []) after_a)
      (Untouched setup wf runtime_limits-LimitsOk after_a)
      (try_advance_bytes 0 (97 ∷ 98 ∷ 98 ∷ []) (earley setup after_a))
try_advance_bytes-Earley_example =
    try_advance_bytes-Earley setup wf runtime_limits-LimitsOk 0 (97 ∷ []) (97 ∷ 98 ∷ 98 ∷ [])
      after_a after_a-HasRead
