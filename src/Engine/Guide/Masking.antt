-- ===== src/Engine/Guide/Masking.antt =====
-- src/engine.rs, `Guide::fill_mask`: the mask of a guide holds exactly the tokens that it allows,
-- from the cache or not.
use oc_earley.Prelude.{
  ℕ, zero, suc, ◌/◌, ◌%◌, ◌≤◌, ◌<◌, ◌≡◌, ◌⊎◌, ◌↔◌, inl, inr, Bool, true, false, ◌||◌, Option, none,
  some, List, [], ◌∷◌, length, get_elem?, replicate, ◌==◌, contains, no_bit, u64_max, All, All-map,
  refl, sym, ap, ◌∙◌, subst, arith,
}
use oc_earley.Error.{RuntimeError, IsLimit}
use oc_earley.Outcome.{ok, modify, for_each}
use oc_earley.Outcome.Rules.{
  Ensures, holds, fails, Ensures-bind, Ensures-step, Ensures-get, Ensures-weaken, Ensures-pure,
  Ensures-cases, Ensures-ok, or_fail_ok,
}
use oc_earley.Index.{allowed_tokens}
use oc_earley.Vocabulary.Trie.{DerivedVocabulary}
use oc_earley.Engine.Mask.{MaskStats}
use oc_earley.Engine.Recognizer.{RecognizerState}
use oc_earley.Engine.Recognizer as Recognizer
use oc_earley.Engine.Walk.{Walk}
use oc_earley.Engine.Walk.Spec.{is_allowed, Revertible, Enabled, TrieOk}
use oc_earley.Engine.Walk.Marking.{set_mask_bit-is_allowed, contains-cons, or_moved}
use oc_earley.Engine.Walk.Emitting.{or_cases}
use oc_earley.Engine.Walk.Exact.{fill_structural_mask-Enabled}
use oc_earley.Engine.Guide.{GuideRuntime, Guide}
use oc_earley.Engine.Guide.Filling.{Filling, enable_token, tokens_of, fill_structural, fill_runtime}

-- The tokens that a guide offers: none once it is finished; else the index's edges, or the end of
-- the sequence where the recognizer accepts and the tokens at the end of a path of the trie that it
-- can read.
abbrev pub Offers : ℕ → Bool → Option DerivedVocabulary → GuideRuntime → ℕ → Type 0
Offers fuel true vocabulary runtime token = ⊥
Offers fuel false vocabulary (GuideRuntime.dfa index state) token =
    contains token (tokens_of (allowed_tokens index state)) ≡ true
Offers fuel false none (GuideRuntime.structural r) token = ⊥
Offers fuel false (some vocabulary) (GuideRuntime.structural r) token =
    ((token ≡ vocabulary.eos_token_id) × (Recognizer.is_accepting fuel r ≡ ok true r))
    ⊎ Enabled fuel vocabulary.trie 0 r token

abbrev pub Offered : ℕ → Guide → ℕ → Type 0
Offered fuel g token = Offers fuel g.finished g.vocabulary g.runtime token

abbrev pub with_stats : MaskStats → Guide → Guide
with_stats t g = record g { mask_stats = t }

-- The guide stays the same but for its statistics, and the words keep their number.
abbrev pub SameGuide : Filling → Filling → Type 0
SameGuide s t =
    (t.guide ≡ with_stats t.guide.mask_stats s.guide)
    × (length t.destination ≡ length s.destination)

get_elem?-zeros :
    (n i : ℕ)
    → (get_elem? {A = ℕ} (replicate n 0) i ≡ none) ⊎ (get_elem? {A = ℕ} (replicate n 0) i ≡ some 0)
get_elem?-zeros zero i = inl refl
get_elem?-zeros (suc n) zero = inr refl
get_elem?-zeros (suc n) (suc i) = get_elem?-zeros n i

pub is_allowed-zeros : (n k : ℕ) → is_allowed (replicate n 0) k ≡ false
is_allowed-zeros n k = elim (get_elem?-zeros n (k / 32)) [
  | inl e ↦ rw (e, is_allowed) refl
  | inr e ↦ rw (e, is_allowed) (no_bit (k % 32))
]

module _ {Q : RuntimeError → Filling → Type 0} where
  enable_token-is_allowed :
      (t : ℕ) (s : Filling)
      → t / 32 < length s.destination
      → Ensures
          (λ _ u.
            SameGuide s u
            × ((k : ℕ) → is_allowed u.destination k ≡ ((k == t) || is_allowed s.destination k)))
          Q
          (enable_token t s)
  unfolding enable_token modify
  enable_token-is_allowed t s room =
      let (d, done, size, marks) = set_mask_bit-is_allowed t s.destination room in
      rw (done, enable_token) (holds ((refl, size), marks))

  enable_tokens-is_allowed :
      (ts : List ℕ) (s : Filling)
      → All (λ t. t / 32 < length s.destination) ts
      → Ensures
          (λ _ u.
            SameGuide s u
            × ((k : ℕ)
                → is_allowed u.destination k ≡ (contains k ts || is_allowed s.destination k)))
          Q
          (for_each ts enable_token s)
  unfolding for_each contains
  enable_tokens-is_allowed [] s h = Ensures-pure tt s ((refl, refl), λ k. refl)
  enable_tokens-is_allowed (t ∷ ts) s h =
      Ensures-bind _ (enable_token-is_allowed t s h.0) λ _ u ((same, size), mark).
        Ensures-weaken
          (λ _ v ((same', size'), mark'). (
            (same' ∙ ap (with_stats v.guide.mask_stats) same, size' ∙ size),
            λ k.
                mark' k
                ∙ ap (λ b. contains k ts || b) (mark k)
                ∙ or_moved (contains k ts) (k == t) (is_allowed s.destination k)
                ∙ ap (λ b. b || is_allowed s.destination k) (sym (contains-cons k t ts)),
          ))
          (λ _ _ q. q)
          (enable_tokens-is_allowed ts u
            (All-map ts (λ x lt. subst (λ n. x / 32 < n) (sym size) lt) h.1))

-- What the guide must be for its masks to be right: its tokens have bits in a mask of its width.
abbrev pub Fits : (RecognizerState → Type 0) → ℕ → Option DerivedVocabulary → GuideRuntime → Type 0
Fits Good words vocabulary (GuideRuntime.dfa index state) =
    All (λ t. t / 32 < words) (tokens_of (allowed_tokens index state))
Fits Good words none (GuideRuntime.structural r) = ⊥
Fits Good words (some vocabulary) (GuideRuntime.structural r) =
    TrieOk vocabulary.trie words × (vocabulary.eos_token_id / 32 < words) × Good r

-- A mask that is cached has the guide's width and holds exactly the tokens that it offers.
abbrev pub CacheOk : ℕ → Guide → Type 0
CacheOk fuel g =
    (cached : List ℕ)
    → g.cached_mask ≡ some cached
    → (length cached ≡ g.mask_words)
      × ((k : ℕ) → k / 32 < g.mask_words → (is_allowed cached k ≡ true) ↔ Offered fuel g k)

pub TrieOk-wider :
    (vocabulary : DerivedVocabulary) (n m : ℕ)
    → n ≤ m
    → TrieOk vocabulary.trie n
    → TrieOk vocabulary.trie m
TrieOk-wider vocabulary n m h t = record {
  root = t.root;
  nodes = t.nodes;
  size = t.size;
  ids = All-map vocabulary.trie.terminal_ids (λ x lt. omega (arith, lt)) t.ids;
}

module _ {Good : RecognizerState → Type 0} {After : RecognizerState → RecognizerState → Type 0}
    (fuel : ℕ) (laws : Revertible fuel Good After) where
  -- After one that fails: the words are empty.
  abbrev pub Unfilled : Filling → RuntimeError → Filling → Type 0
  Unfilled s e t =
      IsLimit e
      × (t.guide ≡ with_stats t.guide.mask_stats s.guide)
      × ((k : ℕ) → is_allowed t.destination k ≡ false)

  structural :
      (vocabulary : DerivedVocabulary) (r : RecognizerState) (s : Filling)
      → s.guide.runtime ≡ GuideRuntime.structural r
      → ((k : ℕ) → is_allowed s.destination k ≡ false)
      → s.guide.limits.max_mask_trie_edges < u64_max
      → TrieOk vocabulary.trie (length s.destination)
      → vocabulary.eos_token_id / 32 < length s.destination
      → Good r
      → Ensures
          (λ _ t.
            SameGuide s t
            × ((k : ℕ)
                → (is_allowed t.destination k ≡ true)
                  ↔ Offers fuel false (some vocabulary) (GuideRuntime.structural r) k))
          (Unfilled s)
          (fill_structural fuel vocabulary r s)
  unfolding fill_structural
  structural vocabulary r s e empty edges trie eos good =
      let w0 : Walk = record {
        recognizer = r;
        destination = s.destination;
        stats = s.guide.mask_stats;
        stack = [];
        visited = 0;
      } in
      let filled =
        fill_structural_mask-Enabled fuel laws s.guide.limits edges vocabulary w0 trie eos good in
      let back = λ (x : RecognizerState) (t : MaskStats) (p : x ≡ r).
        ap (λ y. record s.guide { runtime = y; mask_stats = t })
          (ap (λ z. GuideRuntime.structural z) p ∙ sym e) in
      let none_set : (k : ℕ) → is_allowed s.destination k ≡ true → ⊥ =
        λ k p. let c : false ≡ true = sym (empty k) ∙ p in cc in
      elim (Ensures-cases (filled 0)) [
        | inl (a, w, q, (same, size, _)) ↦
            rw (q, fill_structural)
              (holds (
                (back w.recognizer w.stats same, size),
                λ k.
                    let both = (Ensures-ok (filled k) q).2 in
                    (
                      (λ h. elim (both.0 h) [ inl p ↦ absurd (none_set k p) | inr p ↦ p ]),
                      (λ h. both.1 (inr h)),
                    ),
              ))
        | inr (x, w, q, (limit, same)) ↦
            rw (q, fill_structural)
              (fails
                (limit, back w.recognizer _ same, λ k. is_allowed-zeros (length w.destination) k))
      ]

  pub fill_runtime-Filled :
      (vocabulary : Option DerivedVocabulary) (rt : GuideRuntime) (s : Filling)
      → s.guide.runtime ≡ rt
      → s.guide.vocabulary ≡ vocabulary
      → ((k : ℕ) → is_allowed s.destination k ≡ false)
      → s.guide.limits.max_mask_trie_edges < u64_max
      → Fits Good (length s.destination) vocabulary rt
      → Ensures
          (λ _ t.
            SameGuide s t
            × ((k : ℕ) → (is_allowed t.destination k ≡ true) ↔ Offers fuel false vocabulary rt k))
          (Unfilled s)
          (fill_runtime fuel rt s)
  unfolding fill_runtime
  fill_runtime-Filled vocabulary (GuideRuntime.dfa index state) s e v empty edges fits =
      Ensures-weaken
        (λ _ t (same, marks). (
          same,
          λ k. (
            (λ h. elim (or_cases _ _ (sym (marks k) ∙ h)) [
              | inl p ↦ p
              | inr q ↦ absurd (none_set k q)
            ]),
            (λ h. marks k ∙ ap (λ b. b || is_allowed s.destination k) h),
          ),
        ))
        (λ _ _ q. q) (enable_tokens-is_allowed (tokens_of (allowed_tokens index state)) s fits)
    where
      none_set : (k : ℕ) → is_allowed s.destination k ≡ true → ⊥
      none_set k q = let c : false ≡ true = sym (empty k) ∙ q in cc
  fill_runtime-Filled none (GuideRuntime.structural r) s e v empty edges fits = absurd fits
  fill_runtime-Filled (some vocabulary) (GuideRuntime.structural r) s e v empty edges
        (trie, eos, good) =
      Ensures-get s _ (
        Ensures-step _ (or_fail_ok _ _ s v) (structural vocabulary r s e empty edges trie eos good))
