-- ===== src/Engine/Guide/Listing.antt =====
-- src/engine.rs, `Guide::get_tokens`: it lists the tokens that the guide offers.
use oc_earley.Prelude.{
  ℕ, zero, suc, ◌+◌, ◌*◌, ◌/◌, ◌%◌, ◌≤◌, ◌<◌, ◌≡◌, ◌↔◌, inl, inr, Bool, true, false, ◌&&◌, ◌||◌,
  Bool-cases, some, List, [], ◌∷◌, length, length-replicate, get_elem?, get_elem?-lt, replicate,
  has_bit, leb, ltb, ◌==◌, ==→eq, if◌then◌else◌, contains, u64_max, refl, sym, ap, ◌∙◌, subst,
  arith,
}
use oc_earley.Error.{RuntimeError}
use oc_earley.Outcome.Rules.{
  Ensures, Ensures-bind, Ensures-modify, Ensures-get, Ensures-pure, Ensures-or_panic,
  Ensures-weaken,
}
use oc_earley.Engine.Recognizer.{RecognizerState}
use oc_earley.Engine.Walk.Spec.{is_allowed, Revertible}
use oc_earley.Engine.Walk.Marking.{contains-cons}
use oc_earley.Engine.Guide.Filling.{Filling, scan_mask, get_tokens}
use oc_earley.Engine.Guide.Masking.{Offered, Fits, CacheOk}
use oc_earley.Engine.Guide.Caching.{RightMask, NoMask, fill_mask-Offered}

-- The token is in a range.
abbrev between : ℕ → ℕ → ℕ → Bool
between token left k = leb token k && ltb k (token + left)

nothing_between : (token k : ℕ) (b : Bool) → false ≡ (between token 0 k && b)
nothing_between token k b = ground arith

one_more :
    (token left k : ℕ) → between token (suc left) k ≡ ((k == token) || between (token + 1) left k)
one_more token left k = ground arith

not_again : (token left : ℕ) → between (token + 1) left token ≡ false
not_again token left = ground arith

within : (n k : ℕ) (b : Bool) → (between 0 n k && b) ≡ true → (k < n) × (b ≡ true)
within n k b h = ground arith

within_back : (n k : ℕ) (b : Bool) → k < n → b ≡ true → (between 0 n k && b) ≡ true
within_back n k b p q = ground arith

when_set : (c b a : Bool) → (c ≡ true → a ≡ true) → (c || (b && a)) ≡ ((c || b) && a)
when_set true b a h = sym (h refl)
when_set false b a h = refl

when_clear : (c b a : Bool) → (c ≡ true → a ≡ false) → (b && a) ≡ ((c || b) && a)
when_clear true true a h = refl
when_clear true false a h = sym (h refl)
when_clear false b a h = refl

-- One more token at the front of those that are listed.
module _ (mask : List ℕ) where
  abbrev Listed : ℕ → ℕ → Filling → List ℕ → Filling → Type 0
  Listed token left u ts t =
      (t ≡ u) × ((k : ℕ) → contains k ts ≡ (between token left k && is_allowed mask k))

  listed :
      (token left k word : ℕ) (ts : List ℕ)
      → get_elem? mask (token / 32) ≡ some word
      → contains k ts ≡ (between (token + 1) left k && is_allowed mask k)
      → contains k (if has_bit word (token % 32) then token ∷ ts else ts)
        ≡ (between token (suc left) k && is_allowed mask k)
  listed token left k word ts found rest =
      let here : is_allowed mask token ≡ has_bit word (token % 32) = rw (is_allowed, found) refl in
      let there : (k == token) ≡ true → is_allowed mask k ≡ has_bit word (token % 32) = λ q.
        subst (λ x. is_allowed mask x ≡ has_bit word (token % 32)) (sym (==→eq k token q)) here in
      let whole = ap (λ x. x && is_allowed mask k) (sym (one_more token left k)) in
      elim (Bool-cases (has_bit word (token % 32))) [
        | inl b ↦
            ap (λ x. contains k (if x then token ∷ ts else ts)) b
            ∙ contains-cons k token ts
            ∙ ap (λ x. (k == token) || x) rest
            ∙ when_set (k == token) (between (token + 1) left k) (is_allowed mask k)
                (λ q. there q ∙ b)
            ∙ whole
        | inr b ↦
            ap (λ x. contains k (if x then token ∷ ts else ts)) b
            ∙ rest
            ∙ when_clear (k == token) (between (token + 1) left k) (is_allowed mask k)
                (λ q. there q ∙ b)
            ∙ whole
      ]

  scan_mask-Listed :
      {Q : RuntimeError → Filling → Type 0} (token left : ℕ) (u : Filling)
      → token + left ≤ length mask * 32
      → Ensures (Listed token left u) Q (scan_mask mask token left u)
  unfolding scan_mask contains
  scan_mask-Listed token zero u room =
      Ensures-pure [] u (refl, λ k. nothing_between token k (is_allowed mask k))
  scan_mask-Listed token (suc left) u room =
      let (word, found) = get_elem?-lt mask (token / 32) (omega (arith, room)) in
      Ensures-or_panic _ u _ found (
        Ensures-bind _ (scan_mask-Listed (token + 1) left u (omega (arith, room)))
          λ ts t (same, rest).
            Ensures-pure _ t (same, λ k. listed token left k word ts found (rest k)))

module _ {Good : RecognizerState → Type 0} {After : RecognizerState → RecognizerState → Type 0}
    (fuel : ℕ) (laws : Revertible fuel Good After) (s : Filling)
    (edges : s.guide.limits.max_mask_trie_edges < u64_max)
    (fits : Fits Good s.guide.mask_words s.guide.vocabulary s.guide.runtime)
    (right : CacheOk fuel s.guide) where
  -- The guide with the words that `get_tokens` makes.
  abbrev pub with_words : Filling
  with_words = record s { destination = replicate s.guide.mask_words 0 }

  -- For a guide whose cached mask, if there is one, holds what it offers, and whose vocabulary has no
  -- more tokens than its masks have bits, `get_tokens` ends without a panic. It fails only if it meets
  -- a limit, and else lists of the vocabulary's tokens exactly those that the guide offers.
  pub get_tokens-Offered :
      s.guide.vocab_size ≤ s.guide.mask_words * 32
      → Ensures
          (λ tokens t.
            RightMask fuel laws with_words t
            × ((k : ℕ)
                → (contains k tokens ≡ true) ↔ ((k < s.guide.vocab_size) × Offered fuel s.guide k)))
          (NoMask fuel laws with_words)
          (get_tokens fuel s)
  unfolding get_tokens
  get_tokens-Offered enough =
      let size = length-replicate {A = ℕ} s.guide.mask_words 0 in
      Ensures-modify _ s _ (
        Ensures-bind _
          (fill_mask-Offered fuel laws with_words (omega (arith, size)) edges fits right)
          (λ _ t mask. Ensures-get t _ (
            let words = ap (λ g. g.vocab_size) mask.guide in
            Ensures-weaken
              (λ ts u (same, list). (
                subst (RightMask fuel laws with_words) (sym same) mask,
                λ k.
                    let small : k < s.guide.vocab_size → k / 32 < s.guide.mask_words =
                      λ p. omega (arith, enough) in
                    (
                      (λ h.
                          let (lt, bit) =
                            within t.guide.vocab_size k (is_allowed t.destination k)
                              (sym (list k) ∙ h) in
                          let lt' : k < s.guide.vocab_size = omega (arith, lt, words) in
                          (lt', (mask.exact k (small lt')).0 bit)),
                      (λ (lt, offered).
                          list k
                          ∙ within_back t.guide.vocab_size k (is_allowed t.destination k)
                              (omega (arith, lt, words)) ((mask.exact k (small lt)).1 offered)),
                    ),
              ))
              (λ _ _ q. q)
              (scan_mask-Listed t.destination 0 t.guide.vocab_size t
                (omega (arith, words, enough, mask.size, size))))))
