-- ===== src/Engine/Recognizer.antt =====
-- src/engine.rs: `DfaRecognizer`, `RecognizerState` and its operations, which pass a call on to the
-- backend and undo a trial that fails.
use oc_earley.Prelude.{
  ℕ, ◌+◌, Bool, true, false, ◌||◌, not, List, [], ◌∷◌, leb, ◌==◌, if◌then◌else◌, u32_max,
}
use oc_earley.Outcome.{
  Outcome, ok, err, panic, out_of_fuel, M, ◌>>=◌, ◌>>◌, pure, fail, get, modify, guard, bind,
}
use oc_earley.Error.{
  RuntimeError, RuntimeLimits, internal_invariant, enforce_runtime_limit, input_bytes,
}
use oc_earley.Grammar.Dfa.{CompiledByteDfa}
use oc_earley.Grammar.Dfa as Dfa
use oc_earley.Earley.Types as EarleyTypes
use oc_earley.Earley.Types.{EarleyCheckpoint}
use oc_earley.Earley.Recognizer as Earley
use oc_earley.Lalr.Types as LalrTypes
use oc_earley.Lalr.Types.{LalrCheckpoint}
use oc_earley.Lalr.Recognizer as Lalr

pub data Advance : Type 0 where
  rejected live accepting : Advance

pub record DfaCheckpoint : Type 0 where
  pub generation : ℕ
  pub state : ℕ
  pub position : ℕ

pub data RecognizerCheckpoint : Type 0 where
  dfa : DfaCheckpoint → RecognizerCheckpoint
  lalr : LalrCheckpoint → RecognizerCheckpoint
  earley : EarleyCheckpoint → RecognizerCheckpoint

pub record DfaRecognizer : Type 0 where
  pub dfa : CompiledByteDfa
  pub state : ℕ
  pub position : ℕ
  pub generation : ℕ
  pub limits : RuntimeLimits

-- A structural recognizer is the part that no method writes and its state.
pub data RecognizerState : Type 0 where
  dfa : DfaRecognizer → RecognizerState
  lalr : LalrTypes.Setup → LalrTypes.State → RecognizerState
  earley : EarleyTypes.Setup → EarleyTypes.State → RecognizerState

-- The rest of `DfaRecognizer::advance_byte` once the next state is live.
unfoldable pub move_dfa : ℕ → ℕ → M RuntimeError DfaRecognizer Bool
move_dfa next next_position = do
  modify λ self. record self { state = next }
  guard (leb next_position u32_max)
      (RuntimeError.resource_limit_exceeded input_bytes next_position u32_max)
  modify λ self. record self { position = next_position }
  pure true

-- `DfaRecognizer::advance_byte`
unfoldable pub advance_dfa : ℕ → M RuntimeError DfaRecognizer Bool
advance_dfa byte = do
  self ← get
  let next_position = self.position + 1
  enforce_runtime_limit input_bytes next_position self.limits.max_input_bytes
  let next = Dfa.next_state self.dfa self.state byte
  if Dfa.is_dead self.dfa next || not (Dfa.is_live self.dfa next)
      then pure false
      else move_dfa next next_position

unfoldable pub restore_dfa : DfaCheckpoint → M RuntimeError DfaRecognizer (Unit {0})
restore_dfa saved = do
  self ← get
  guard (saved.generation == self.generation)
      (RuntimeError.invalid_checkpoint self.generation saved.generation)
  modify λ t. record t { state = saved.state; position = saved.position }

-- A call on the recognizer inside.
unfoldable pub within :
    {S T A : Type 0} → (S → T) → Outcome RuntimeError S A → Outcome RuntimeError T A
within wrap (ok a s) = ok a (wrap s)
within wrap (err e s) = err e (wrap s)
within wrap panic = panic
within wrap out_of_fuel = out_of_fuel

abbrev pub Step : Type 0 → Type 0
Step A = M RuntimeError RecognizerState A

-- The match at the head of the loop of `try_advance_bytes`. `fuel` is for the LALR reductions.
unfoldable pub advance_byte : ℕ → ℕ → Step Bool
advance_byte fuel byte (dfa self) = within dfa (advance_dfa byte self)
advance_byte fuel byte (lalr self s) = within (lalr self) (Lalr.advance_byte self fuel byte s)
advance_byte fuel byte (earley self s) = within (earley self) (Earley.advance_byte self byte s)

unfoldable pub is_accepting : ℕ → Step Bool
is_accepting fuel (dfa self) = pure (Dfa.is_accepting self.dfa self.state) (dfa self)
is_accepting fuel (lalr self s) = within (lalr self) (Lalr.is_accepting self fuel s)
is_accepting fuel (earley self s) = pure (Earley.is_accepting self s) (earley self s)

unfoldable pub is_live : ℕ → Step Bool
is_live fuel (dfa self) = pure (Dfa.is_live self.dfa self.state) (dfa self)
is_live fuel (lalr self s) = within (lalr self) (Lalr.is_live self fuel s)
is_live fuel (earley self s) = pure (Earley.is_live self s) (earley self s)

unfoldable pub checkpoint : RecognizerState → RecognizerCheckpoint
checkpoint (dfa self) =
    dfa (record { generation = self.generation; state = self.state; position = self.position })
checkpoint (lalr self s) = lalr (Lalr.checkpoint self s)
checkpoint (earley self s) = earley (Earley.checkpoint self s)

unfoldable pub restore : RecognizerCheckpoint → Step (Unit {0})
restore (dfa saved) (dfa self) = within dfa (restore_dfa saved self)
restore (lalr saved) (lalr self s) = within (lalr self) (Lalr.restore self saved s)
restore (earley saved) (earley self s) = within (earley self) (Earley.restore self saved s)
restore _ self =
    err (internal_invariant "checkpoint belongs to a different recognizer backend") self

-- What follows a byte: the next one, or the end of the trial.
unfoldable pub settle :
    RecognizerCheckpoint
    → Outcome RuntimeError RecognizerState Bool
    → Step Advance
    → Outcome RuntimeError RecognizerState Advance
settle saved (ok true t) rest = rest t
settle saved (ok false t) rest = bind (restore saved t) λ _. pure rejected
settle saved (err e t) rest = bind (restore saved t) λ _. fail e
settle saved panic rest = panic
settle saved out_of_fuel rest = out_of_fuel

-- The loop over the bytes and what comes after it.
unfoldable pub try_bytes : ℕ → RecognizerCheckpoint → List ℕ → Step Advance
try_bytes fuel saved [] self =
    bind (is_accepting fuel self) λ accepted. pure (if accepted then accepting else live)
try_bytes fuel saved (byte ∷ bytes) self =
    settle saved (advance_byte fuel byte self) (try_bytes fuel saved bytes)

unfoldable pub try_advance_bytes : ℕ → List ℕ → Step Advance
try_advance_bytes fuel bytes self = try_bytes fuel (checkpoint self) bytes self
