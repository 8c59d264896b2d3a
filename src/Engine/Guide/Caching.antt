-- ===== src/Engine/Guide/Caching.antt =====
-- src/engine.rs, `Guide::fill_mask`: the cached mask of a guide is the one that it would fill.
use oc_earley.Prelude.{
  ℕ, zero, suc, ◌+◌, ◌/◌, ◌≤◌, ◌<◌, ◌≡◌, ◌↔◌, true, false, Option, none, some, List, [], ◌∷◌, ◌++◌,
  length, length-append, get_elem?-take, get_elem?-append_left, take, drop, length-replicate,
  saturating_add, leb→gt, ◌==◌, if◌then◌else◌, u64_max, All-map, refl, sym, ap, ◌∙◌, subst, arith,
}
use mathlib.Core.Option.{some-injective}
use oc_earley.Error.{RuntimeError, IsLimit}
use oc_earley.Outcome.{bind}
use oc_earley.Outcome.Rules.{
  Ensures, Ensures-bind, Ensures-if, Ensures-modify, Ensures-last, Ensures-get, Ensures-guard,
  Ensures-weaken, Ensures-or_panic, Ensures-option,
}
use oc_earley.Index.{allowed_tokens}
use oc_earley.Vocabulary.Trie.{DerivedVocabulary}
use oc_earley.Engine.Mask.{MaskStats}
use oc_earley.Engine.Recognizer.{RecognizerState}
use oc_earley.Engine.Walk.Spec.{is_allowed, Revertible}
use oc_earley.Engine.Guide.{GuideRuntime, Guide}
use oc_earley.Engine.Guide.Filling.{
  Filling, zeros, remember_mask, tokens_of, fill_runtime, copy_cached, fill_fresh, fill_mask,
}
use oc_earley.Engine.Guide.Masking.{
  Offers, Offered, with_stats, is_allowed-zeros, Fits, CacheOk, TrieOk-wider, fill_runtime-Filled,
}

length-take : (n : ℕ) (xs : List ℕ) → n ≤ length xs → length (take n xs) ≡ n
length-take zero xs h = refl
length-take (suc n) [] h = absurd (omega arith)
length-take (suc n) (x ∷ xs) h = ap suc (length-take n xs (omega arith))

length-drop : (n : ℕ) (xs : List ℕ) → n ≤ length xs → length (drop n xs) + n ≡ length xs
length-drop zero xs h = omega arith
length-drop (suc n) [] h = absurd (omega arith)
length-drop (suc n) (x ∷ xs) h = omega (arith, length-drop n xs (omega arith))

-- The words in front of a mask hold the bits of small tokens.
is_allowed-take :
    (n : ℕ) (xs : List ℕ) (k : ℕ) → k / 32 < n → is_allowed (take n xs) k ≡ is_allowed xs k
is_allowed-take n xs k h = rw (get_elem?-take n xs (k / 32) h, is_allowed) refl

is_allowed-append :
    (xs ys : List ℕ) (k : ℕ) → k / 32 < length xs → is_allowed (xs ++ ys) k ≡ is_allowed xs k
is_allowed-append xs ys k h = rw (get_elem?-append_left xs ys (k / 32) h, is_allowed) refl

Fits-wider :
    (Good : RecognizerState → Type 0) (n m : ℕ) (vocabulary : Option DerivedVocabulary)
    (rt : GuideRuntime)
    → n ≤ m
    → Fits Good n vocabulary rt
    → Fits Good m vocabulary rt
Fits-wider Good n m vocabulary (GuideRuntime.dfa index state) h f =
    All-map (tokens_of (allowed_tokens index state)) (λ x lt. omega (arith, lt)) f
Fits-wider Good n m none (GuideRuntime.structural r) h f = f
Fits-wider Good n m (some vocabulary) (GuideRuntime.structural r) h (trie, eos, good) =
    (TrieOk-wider vocabulary n m h trie, omega (arith, eos), good)

abbrev remade : MaskStats → Option (List ℕ) → Guide → Guide
remade stats cached g = record g { mask_stats = stats; cached_mask = cached }

module _ {Good : RecognizerState → Type 0} {After : RecognizerState → RecognizerState → Type 0}
    (fuel : ℕ) (laws : Revertible fuel Good After) where
  -- The guide is the same but for its statistics and its cache, and the words in front hold exactly
  -- the tokens that it offers.
  pub record RightMask (s t : Filling) : Type 0 where
    pub guide :
        t.guide
        ≡ record s.guide { mask_stats = t.guide.mask_stats; cached_mask = t.guide.cached_mask }
    pub size : length t.destination ≡ length s.destination
    pub cache : CacheOk fuel t.guide
    pub exact :
        (k : ℕ)
        → k / 32 < s.guide.mask_words
        → (is_allowed t.destination k ≡ true) ↔ Offered fuel s.guide k

  -- A mask that is right is remembered.
  remembered :
      {Q : RuntimeError → Filling → Type 0} (s u : Filling)
      → s.guide.mask_words ≤ length s.destination
      → u.guide ≡ with_stats u.guide.mask_stats s.guide
      → length u.destination ≡ length s.destination
      → ((k : ℕ) → (is_allowed u.destination k ≡ true) ↔ Offered fuel s.guide k)
      → Ensures (λ _. RightMask s) Q (remember_mask u)
  unfolding remember_mask
  remembered s u room same size exact =
      let words = ap (λ g. g.mask_words) same in
      let wide : u.guide.mask_words ≤ length u.destination = omega (arith, words, size, room) in
      let offered : (k : ℕ) → (is_allowed u.destination k ≡ true) ↔ Offered fuel u.guide k = λ k.
        subst (λ g. (is_allowed u.destination k ≡ true) ↔ Offered fuel g k) (sym same) (exact k) in
      Ensures-last _ _ (record {
        guide = ap (remade _ _) same;
        size = size;
        cache = λ cached e.
            let is_front : take u.guide.mask_words u.destination ≡ cached = some-injective _ _ e in
            (
              ap length (sym is_front) ∙ length-take u.guide.mask_words u.destination wide,
              λ k small.
                  subst (λ c. (is_allowed c k ≡ true) ↔ Offered fuel u.guide k) is_front
                    (subst (λ b. (b ≡ true) ↔ Offered fuel u.guide k)
                      (sym (is_allowed-take u.guide.mask_words u.destination k small)) (offered k)),
            );
        exact = λ k _. exact k;
      })

  -- The words are empty, and the guide is the same but for its statistics.
  abbrev pub NoMask : Filling → RuntimeError → Filling → Type 0
  NoMask s e t =
      IsLimit e
      × (t.guide ≡ with_stats t.guide.mask_stats s.guide)
      × ((k : ℕ) → is_allowed t.destination k ≡ false)

  module _ (s : Filling) (room : s.guide.mask_words ≤ length s.destination)
      (edges : s.guide.limits.max_mask_trie_edges < u64_max)
      (fits : Fits Good s.guide.mask_words s.guide.vocabulary s.guide.runtime) (u : Filling)
      (same : u.guide ≡ with_stats u.guide.mask_stats s.guide)
      (size : length u.destination ≡ length s.destination)
      (empty : (k : ℕ) → is_allowed u.destination k ≡ false) where
    none-Offered :
        s.guide.finished ≡ true
        → (k : ℕ) → (is_allowed u.destination k ≡ true) ↔ Offered fuel s.guide k
    none-Offered done k =
        subst
          (λ b.
            (is_allowed u.destination k ≡ true)
            ↔ Offers fuel b s.guide.vocabulary s.guide.runtime k)
          (sym done) ((λ h. let c : false ≡ true = sym (empty k) ∙ h in cc), (λ h. absurd h))

    filled :
        s.guide.finished ≡ false
        → Ensures
            (λ _. RightMask s)
            (NoMask s)
            (bind (fill_runtime fuel u.guide.runtime u) (λ _. remember_mask))
    filled more =
        let wide : s.guide.mask_words ≤ length u.destination = omega (arith, size, room) in
        let fits_u =
          subst (λ g. Fits Good (length u.destination) g.vocabulary g.runtime) (sym same)
            (Fits-wider Good s.guide.mask_words (length u.destination) s.guide.vocabulary
              s.guide.runtime wide fits) in
        Ensures-bind _
          (Ensures-weaken (λ _ t h. h)
            (λ e t (limit, unchanged, none_set).
              (limit, unchanged ∙ ap (with_stats t.guide.mask_stats) same, none_set))
            (fill_runtime-Filled fuel laws u.guide.vocabulary u.guide.runtime u refl refl empty
              (subst (λ g. g.limits.max_mask_trie_edges < u64_max) (sym same) edges) fits_u))
          (λ _ t ((unchanged, kept), exact).
            remembered s t room (unchanged ∙ ap (with_stats t.guide.mask_stats) same) (kept ∙ size)
              λ k.
                subst
                  (λ b.
                    (is_allowed t.destination k ≡ true)
                    ↔ Offers fuel b s.guide.vocabulary s.guide.runtime k)
                  (sym more)
                  (subst
                    (λ g.
                      (is_allowed t.destination k ≡ true)
                      ↔ Offers fuel false g.vocabulary g.runtime k)
                    same (exact k)))

  module _ (s : Filling) (room : s.guide.mask_words ≤ length s.destination)
      (edges : s.guide.limits.max_mask_trie_edges < u64_max)
      (fits : Fits Good s.guide.mask_words s.guide.vocabulary s.guide.runtime) where
    fill_fresh-RightMask :
        (u : Filling)
        → u.guide ≡ with_stats u.guide.mask_stats s.guide
        → length u.destination ≡ length s.destination
        → ((k : ℕ) → is_allowed u.destination k ≡ false)
        → Ensures (λ _. RightMask s) (NoMask s) (fill_fresh fuel u)
    unfolding fill_fresh
    fill_fresh-RightMask u same size empty =
        let missed : MaskStats = record u.guide.mask_stats {
          cache_misses = saturating_add u.guide.mask_stats.cache_misses 1;
        } in
        let v : Filling = record u { guide = with_stats missed u.guide } in
        let same' : v.guide ≡ with_stats missed s.guide = ap (with_stats missed) same in
        let finished = ap (λ g. g.finished) same in
        Ensures-modify _ u _ (
          Ensures-get v _ (
            Ensures-if v.guide.finished remember_mask _ v
              (λ done.
                remembered s v room same' size
                  (none-Offered s room edges fits v same' size empty (sym finished ∙ done)))
              (λ more. filled s room edges fits v same' size empty (sym finished ∙ more))))

    -- The words from the cache, and those behind them.
    copy_cached-RightMask :
        (cached : List ℕ) (u : Filling)
        → CacheOk fuel s.guide
        → s.guide.cached_mask ≡ some cached
        → u.guide ≡ with_stats u.guide.mask_stats s.guide
        → length u.destination ≡ length s.destination
        → Ensures (λ _. RightMask s) (NoMask s) (copy_cached cached u)
    unfolding copy_cached
    copy_cached-RightMask cached u right e same size =
        let (len, bits) = right cached e in
        let words = ap (λ g. g.mask_words) same in
        let fits_in : (length cached == u.guide.mask_words) ≡ true = ground (arith, len, words) in
        let hits : MaskStats = record u.guide.mask_stats {
          cache_hits = saturating_add u.guide.mask_stats.cache_hits 1;
        } in
        let behind = drop u.guide.mask_words u.destination in
        let found : (if length cached == u.guide.mask_words then some (cached ++ behind) else none)
            ≡ some (cached ++ behind) =
          rw fits_in refl in
        Ensures-get u _ (
          Ensures-or_panic _ u _ found (
            Ensures-modify _ u _ (
              Ensures-last _ _ (record {
                guide = ap (remade hits u.guide.cached_mask) same;
                size = omega (
                  arith,
                  length-append cached behind,
                  length-drop u.guide.mask_words u.destination (omega (arith, words, size, room)),
                  len,
                  words,
                  size,
                );
                cache = subst (CacheOk fuel) (sym (ap (with_stats hits) same)) right;
                exact = λ k small.
                    subst (λ b. (b ≡ true) ↔ Offered fuel s.guide k)
                      (sym (is_allowed-append cached behind k (omega (arith, len, small))))
                      (bits k small);
              }))))

    -- The filling of a mask ends, for words that are enough for the guide's mask and a cached mask,
    -- if there is one, that holds what the guide offers. If it succeeds, a token whose bit is in the
    -- guide's words is in the mask exactly if the guide offers it, whether the mask was cached or
    -- not: the guide is not finished, and the index has an edge for the token, or the token is the
    -- end of the sequence and the recognizer accepts, or the recognizer can read a path of the token
    -- trie at the end of which the token stands.
    -- The guide stays the same but for its statistics and its cache, which is right again. It fails
    -- only if it meets a limit, and then it leaves the words empty.
    pub fill_mask-Offered :
        CacheOk fuel s.guide → Ensures (λ _. RightMask s) (NoMask s) (fill_mask fuel s)
    unfolding fill_mask
    fill_mask-Offered right = Ensures-get s _ (
        Ensures-guard _ _ s _
          (λ _. Ensures-modify _ s _ (
            Ensures-modify _ _ _ (
              let u : Filling = record {
                guide =
                    with_stats
                      (record s.guide.mask_stats {
                        queries = saturating_add s.guide.mask_stats.queries 1;
                      })
                      s.guide;
                destination = zeros s.destination;
              } in
              let size = length-replicate (length s.destination) 0 in
              Ensures-option s.guide.cached_mask (fill_fresh fuel) copy_cached u
                (λ _. fill_fresh-RightMask u refl size (is_allowed-zeros (length s.destination)))
                (λ cached e. copy_cached-RightMask cached u right e refl size))))
          (λ short. absurd (omega (arith, room, leb→gt _ _ short))))
