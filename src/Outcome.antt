-- ===== src/Outcome.antt =====
-- What a call on mutable state does: it returns a value or an error, and leaves the state that it
-- has reached in both cases, since the source's methods take `&mut self` and return `Result`. An
-- index out of bounds is a panic. `out_of_fuel` has no counterpart in the program.
pub mod Rules
use oc_earley.Prelude.{
  ℕ, ◌+◌, ◌≡◌, refl, Bool, true, false, Option, none, some, List, [], ◌∷◌, get_elem?,
}

pub data Outcome (E S A : Type 0) : Type 0 where
  ok : A → S → Outcome E S A
  err : E → S → Outcome E S A
  panic : Outcome E S A
  out_of_fuel : Outcome E S A

abbrev pub M : Type 0 → Type 0 → Type 0 → Type 0
M E S A = S → Outcome E S A

unfoldable pub bind : {E S A B : Type 0} → Outcome E S A → (A → S → Outcome E S B) → Outcome E S B
bind (ok a s) f = f a s
bind (err e s) f = err e s
bind panic f = panic
bind out_of_fuel f = out_of_fuel

-- The parts of a `do` block stay shut, so that the rules of `Rules` apply to them one by one.
infixl 5 ◌>>=◌ ◌>>◌
abbrev pub ◌>>=◌ : {E S A B : Type 0} → M E S A → (A → M E S B) → M E S B
◌>>=◌ m f s = bind (m s) f

abbrev pub ◌>>◌ : {E S A B : Type 0} → M E S A → M E S B → M E S B
◌>>◌ m k s = bind (m s) (λ _. k)

unfoldable pub pure : {E S A : Type 0} → A → S → Outcome E S A
pure a s = ok a s

unfoldable pub fail : {E S A : Type 0} → E → S → Outcome E S A
fail e s = err e s

unfoldable pub exhausted : {E S A : Type 0} → S → Outcome E S A
exhausted s = out_of_fuel

-- The state as a value, and a change of it.
unfoldable pub get : {E S : Type 0} → S → Outcome E S S
get s = ok s s

unfoldable pub modify : {E S : Type 0} → (S → S) → S → Outcome E S (Unit {0})
modify f s = ok tt (f s)

-- `.ok_or(e)?`
unfoldable pub or_fail : {E S A : Type 0} → Option A → E → S → Outcome E S A
or_fail none e s = err e s
or_fail (some a) e s = ok a s

-- `xs[i]`
unfoldable pub or_panic : {E S A : Type 0} → Option A → S → Outcome E S A
or_panic none s = panic
or_panic (some a) s = ok a s

-- Goes on if the test holds.
unfoldable pub guard : {E S : Type 0} → Bool → E → S → Outcome E S (Unit {0})
guard true e s = ok tt s
guard false e s = err e s

-- `for x in xs { body }`
unfoldable pub for_each : {E S A : Type 0} → List A → (A → M E S (Unit {0})) → M E S (Unit {0})
for_each [] body = pure tt
for_each (x ∷ xs) body = do body x; for_each xs body
