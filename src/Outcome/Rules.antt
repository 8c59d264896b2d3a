-- ===== src/Outcome/Rules.antt =====
-- Postconditions of runs. A run that satisfies one has neither panicked nor used up its fuel.
use oc_earley.Prelude.{
  ◌≡◌, refl, ◌⊎◌, inl, inr, Bool, true, false, Option, none, some, List, [], ◌∷◌, All, subst,
  if◌then◌else◌,
}
use oc_earley.Outcome.{
  Outcome, ok, err, M, bind, pure, get, modify, or_fail, or_panic, guard, for_each,
}

-- `P` holds of the result and the final state, or `Q` of the error and the state it leaves.
pub data Ensures {E S A : Type 0} (P : A → S → Type 0) (Q : E → S → Type 0)
    : Outcome E S A → Type 0 where
  holds : {a : A} {s : S} → P a s → Ensures P Q (ok a s)
  fails : {e : E} {s : S} → Q e s → Ensures P Q (err e s)

module _ {E S A : Type 0} {P : A → S → Type 0} {Q : E → S → Type 0} where
  pub Ensures-ok : {o : Outcome E S A} {a : A} {s : S} → Ensures P Q o → o ≡ ok a s → P a s
  Ensures-ok (holds {a = a'} {s = s'} h) e = subst (λ (r : Outcome E S A). Ok r) e h
    where
      Ok : Outcome E S A → Type 0
      Ok (ok a s) = P a s
      Ok _ = Unit
  Ensures-ok (fails h) e = cc

  pub Ensures-err : {o : Outcome E S A} {x : E} {s : S} → Ensures P Q o → o ≡ err x s → Q x s
  Ensures-err (holds h) e = cc
  Ensures-err (fails h) e = subst (λ (r : Outcome E S A). Err r) e h
    where
      Err : Outcome E S A → Type 0
      Err (err x s) = Q x s
      Err _ = Unit

  -- Such a run ends, in one of two ways.
  pub Ensures-cases :
      {o : Outcome E S A}
      → Ensures P Q o
      → ((a : A) × (s : S) × (o ≡ ok a s) × P a s) ⊎ ((e : E) × (s : S) × (o ≡ err e s) × Q e s)
  Ensures-cases (holds {a} {s} h) = inl (a, s, refl, h)
  Ensures-cases (fails {e} {s} h) = inr (e, s, refl, h)

  pub Ensures-bind :
      {B : Type 0} {P' : B → S → Type 0} {o : Outcome E S A} (k : A → S → Outcome E S B)
      → Ensures P Q o
      → ((a : A) (s : S) → P a s → Ensures P' Q (k a s))
      → Ensures P' Q (bind o k)
  unfolding bind
  Ensures-bind k (holds {a} {s} h) f = f a s h
  Ensures-bind k (fails h) f = fails h

  pub Ensures-pure : (a : A) (s : S) → P a s → Ensures P Q (pure a s)
  unfolding pure
  Ensures-pure a s h = holds h

  pub Ensures-weaken :
      {P' : A → S → Type 0} {Q' : E → S → Type 0} {o : Outcome E S A}
      → ((a : A) (s : S) → P a s → P' a s)
      → ((e : E) (s : S) → Q e s → Q' e s)
      → Ensures P Q o
      → Ensures P' Q' o
  Ensures-weaken p q (holds {a} {s} h) = holds (p a s h)
  Ensures-weaken p q (fails {e} {s} h) = fails (q e s h)

module _ {E S B : Type 0} {P : B → S → Type 0} {Q : E → S → Type 0} where
  -- The steps that leave the state alone, with what follows them.
  pub Ensures-or_fail :
      {A : Type 0} (o : Option A) (e : E) (s : S) (k : A → S → Outcome E S B)
      → ((a : A) → o ≡ some a → Ensures P Q (k a s))
      → (o ≡ none → Q e s)
      → Ensures P Q (bind (or_fail o e s) k)
  unfolding bind or_fail
  Ensures-or_fail none e s k p q = fails (q refl)
  Ensures-or_fail (some a) e s k p q = p a refl

  pub Ensures-or_panic :
      {A : Type 0} (o : Option A) (s : S) (k : A → S → Outcome E S B) {a : A}
      → o ≡ some a
      → Ensures P Q (k a s)
      → Ensures P Q (bind (or_panic o s) k)
  unfolding bind or_panic
  Ensures-or_panic none s k h p = cc
  Ensures-or_panic (some b) s k h p = subst (λ x. Ensures P Q (k x s)) (cc) p

  pub Ensures-guard :
      (b : Bool) (e : E) (s : S) (k : Unit {0} → S → Outcome E S B)
      → (b ≡ true → Ensures P Q (k tt s))
      → (b ≡ false → Q e s)
      → Ensures P Q (bind (guard b e s) k)
  unfolding bind guard
  Ensures-guard true e s k p q = p refl
  Ensures-guard false e s k p q = fails (q refl)

  -- A test between two calls.
  pub Ensures-if :
      (b : Bool) (m n : M E S B) (s : S)
      → (b ≡ true → Ensures P Q (m s))
      → (b ≡ false → Ensures P Q (n s))
      → Ensures P Q ((if b then m else n) s)
  Ensures-if true m n s p q = p refl
  Ensures-if false m n s p q = q refl

  -- A match on a list or an option between two calls.
  pub Ensures-list :
      {A : Type 0} (l : List A) (m : M E S B) (k : A → List A → M E S B) (s : S)
      → (l ≡ [] → Ensures P Q (m s))
      → ((x : A) (xs : List A) → l ≡ x ∷ xs → Ensures P Q (k x xs s))
      → Ensures P Q ((elim l as (λ _. M E S B) [ [] ↦ m | x ∷ xs ↦ k x xs ]) s)
  Ensures-list [] m k s p q = p refl
  Ensures-list (x ∷ xs) m k s p q = q x xs refl

  pub Ensures-option :
      {A : Type 0} (o : Option A) (m : M E S B) (k : A → M E S B) (s : S)
      → (o ≡ none → Ensures P Q (m s))
      → ((a : A) → o ≡ some a → Ensures P Q (k a s))
      → Ensures P Q ((elim o as (λ _. M E S B) [ none ↦ m | some a ↦ k a ]) s)
  Ensures-option none m k s p q = p refl
  Ensures-option (some a) m k s p q = q a refl

  pub Ensures-get :
      (s : S) (k : S → S → Outcome E S B) → Ensures P Q (k s s) → Ensures P Q (bind (get s) k)
  unfolding bind get
  Ensures-get s k h = h

  pub Ensures-modify :
      (f : S → S) (s : S) (k : Unit {0} → S → Outcome E S B)
      → Ensures P Q (k tt (f s))
      → Ensures P Q (bind (modify f s) k)
  unfolding bind modify
  Ensures-modify f s k h = h

  pub Ensures-step :
      {A : Type 0} {o : Outcome E S A} {a : A} {s : S} (k : A → S → Outcome E S B)
      → o ≡ ok a s
      → Ensures P Q (k a s)
      → Ensures P Q (bind o k)
  unfolding bind
  Ensures-step k e h = rw e h

  pub Ensures-skip :
      {A : Type 0} (a : A) (s : S) (k : A → S → Outcome E S B)
      → Ensures P Q (k a s)
      → Ensures P Q (bind (pure a s) k)
  unfolding bind pure
  Ensures-skip a s k h = h

module _ {E S : Type 0} {Q : E → S → Type 0} where
  pub Ensures-last :
      {P : Unit {0} → S → Type 0} (f : S → S) (s : S) → P tt (f s) → Ensures P Q (modify f s)
  unfolding modify
  Ensures-last f s h = holds h

  -- An invariant that the body keeps, for entries with the property `R`, holds after the loop.
  pub Ensures-for_each :
      {A : Type 0} (I : S → Type 0) (R : A → Type 0) (body : A → M E S (Unit {0})) (xs : List A)
      → ((x : A) (s : S) → R x → I s → Ensures (λ _ s'. I s') Q (body x s))
      → All R xs
      → (s : S) → I s
      → Ensures (λ _ s'. I s') Q (for_each xs body s)
  unfolding for_each pure
  Ensures-for_each I R body [] keep r s i = holds i
  Ensures-for_each I R body (x ∷ xs) keep r s i =
      Ensures-bind _ (keep x s r.0 i) (λ _ s' i'. Ensures-for_each I R body xs keep r.1 s' i')

-- A step that fails ends the run.
pub Ensures-stop :
    {E S A B : Type 0} {P : B → S → Type 0} {Q : E → S → Type 0} {o : Outcome E S A} {e : E} {s : S}
    (k : A → S → Outcome E S B)
    → o ≡ err e s
    → Q e s
    → Ensures P Q (bind o k)
unfolding bind
Ensures-stop k p q = rw p (fails q)

pub or_fail_ok :
    {E S A : Type 0} (o : Option A) (e : E) (s : S) {a : A} → o ≡ some a → or_fail o e s ≡ ok a s
unfolding or_fail
or_fail_ok o e s h = rw h refl
