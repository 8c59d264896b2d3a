-- ===== src/Engine/Walk/Marking.antt =====
-- Setting the bits of tokens, one or several.
use oc_earley.Prelude.{
  ℕ, ◌/◌, ◌%◌, ◌<◌, ◌≡◌, refl, sym, ap, ◌∙◌, subst, inl, inr, Bool, true, false, ◌||◌, ◌&&◌,
  Bool-cases, some, List, [], ◌∷◌, length, get_elem?, get_elem?-lt, get_elem?-set, length-set, set,
  with_bit, has_bit-with_bit, contains, ◌==◌, ==→eq, All, All-map, arith,
}
use oc_earley.Outcome.{ok, M, bind, get, modify, or_fail, for_each}
use oc_earley.Outcome.Rules.{
  Ensures, Ensures-bind, Ensures-step, Ensures-pure, Ensures-last, Ensures-weaken,
}
use oc_earley.Error.{RuntimeError}
use oc_earley.Engine.Mask.{set_mask_bit}
use oc_earley.Engine.Walk.{Walk, on_destination, enable}
use oc_earley.Engine.Walk.Spec.{is_allowed}

-- Two tokens have the same bit only if they are the same.
same_bit : (k t : ℕ) → (k == t) ≡ ((k / 32 == t / 32) && (k % 32 == t % 32))
same_bit k t = ground arith

pub set_mask_bit-is_allowed :
    (t : ℕ) (d : List ℕ)
    → t / 32 < length d
    → (d' : List ℕ) × (set_mask_bit t d ≡ ok tt d')
      × (length d' ≡ length d)
      × ((k : ℕ) → is_allowed d' k ≡ ((k == t) || is_allowed d k))
unfolding set_mask_bit bind get or_fail modify
set_mask_bit-is_allowed t d room =
    let (word, found) = get_elem?-lt d (t / 32) room in
    let d' = set d (t / 32) (with_bit word (t % 32)) in
    (d', rw found refl, length-set d (t / 32) _, λ k. marked word found k)
  where
    marked :
        (word : ℕ)
        → get_elem? d (t / 32) ≡ some word
        → (k : ℕ)
        → is_allowed (set d (t / 32) (with_bit word (t % 32))) k ≡ ((k == t) || is_allowed d k)
    marked word found k =
        rw
          (
            is_allowed,
            get_elem?-set d (t / 32) (k / 32) (with_bit word (t % 32)) found,
            same_bit k t,
          )
          (elim (Bool-cases (k / 32 == t / 32)) [
            | inl q ↦
                let e = ==→eq (k / 32) (t / 32) q in
                let found' : get_elem? d (k / 32) ≡ some word = rw e found in
                rw (q, is_allowed, found') (has_bit-with_bit word (t % 32) (k % 32))
            | inr q ↦ rw q refl
          ])

-- What the marking of tokens leaves alone.
pub record Kept (w u : Walk) : Type 0 where
  pub recognizer : u.recognizer ≡ w.recognizer
  pub stack : u.stack ≡ w.stack
  pub visited : u.visited ≡ w.visited
  pub size : length u.destination ≡ length w.destination

pub Kept-trans : (w u v : Walk) → Kept w u → Kept u v → Kept w v
Kept-trans w u v p q = record {
  recognizer = q.recognizer ∙ p.recognizer;
  stack = q.stack ∙ p.stack;
  visited = q.visited ∙ p.visited;
  size = q.size ∙ p.size;
}

-- A call that is known to succeed, on the mask.
on_destination_ok :
    {A : Type 0} (m : M RuntimeError (List ℕ) A) (w : Walk) {a : A} {d : List ℕ}
    → m w.destination ≡ ok a d
    → on_destination m w ≡ ok a (record w { destination = d })
on_destination_ok m w e = rw (e, on_destination)

pub or_moved : (c x b : Bool) → (c || (x || b)) ≡ ((x || c) || b)
or_moved true true b = refl
or_moved true false b = refl
or_moved false true b = refl
or_moved false false b = refl

pub contains-cons : (k t : ℕ) (ts : List ℕ) → contains k (t ∷ ts) ≡ ((k == t) || contains k ts)
unfolding contains
contains-cons k t ts = elim (Bool-cases (k == t)) [ inl q ↦ rw q refl | inr q ↦ rw q refl ]

module _ {Q : RuntimeError → Walk → Type 0} where
  pub enable-is_allowed :
      (t k : ℕ) (w : Walk)
      → t / 32 < length w.destination
      → Ensures
          (λ _ u.
            Kept w u × (is_allowed u.destination k ≡ ((k == t) || is_allowed w.destination k)))
          Q
          (enable t w)
  unfolding enable
  enable-is_allowed t k w room =
      let (d', done, size, marks) = set_mask_bit-is_allowed t w.destination room in
      Ensures-step _ (on_destination_ok (set_mask_bit t) w done) (
        Ensures-last _ _
          (record { recognizer = refl; stack = refl; visited = refl; size = size }, marks k))

  pub enable_each-is_allowed :
      (ts : List ℕ) (k : ℕ) (w : Walk)
      → All (λ t. t / 32 < length w.destination) ts
      → Ensures
          (λ _ u.
            Kept w u × (is_allowed u.destination k ≡ (contains k ts || is_allowed w.destination k)))
          Q
          (for_each ts enable w)
  unfolding for_each contains
  enable_each-is_allowed [] k w h =
      Ensures-pure tt w
        (record { recognizer = refl; stack = refl; visited = refl; size = refl }, refl)
  enable_each-is_allowed (t ∷ ts) k w h =
      Ensures-bind _ (enable-is_allowed t k w h.0) λ _ u (kept, mark).
        Ensures-weaken
          (λ _ v (kept', mark'). (
            Kept-trans w u v kept kept',
            mark'
                ∙ ap (λ b. contains k ts || b) mark
                ∙ or_moved (contains k ts) (k == t) (is_allowed w.destination k)
                ∙ ap (λ b. b || is_allowed w.destination k) (sym (contains-cons k t ts)),
          ))
          (λ _ _ q. q)
          (enable_each-is_allowed ts k u
            (All-map ts (λ x lt. subst (λ n. x / 32 < n) (sym kept.size) lt) h.1))
