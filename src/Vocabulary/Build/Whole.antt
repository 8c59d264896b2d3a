-- ===== src/Vocabulary/Build/Whole.antt =====
-- src/vocabulary/reverse.rs: `DerivedVocabulary::build` as a whole.
use oc_earley.Prelude.{
  ℕ, ◌*◌, ◌/◌, ◌≤◌, ◌<◌, ◌≡◌, inl, inr, none, List, [], ◌∷◌, length, length-replicate, All, All-map,
  max, sort_by_key, refl, arith, checked_sum,
}
use oc_earley.Outcome.{M, for_each}
use oc_earley.Outcome.Rules.{
  Ensures, fails, Ensures-bind, Ensures-get, Ensures-guard, Ensures-last, Ensures-pure,
  Ensures-weaken, Ensures-or_fail, Ensures-cases, Ensures-for_each,
}
use oc_earley.Error.{CompileLimits}
use oc_earley.Vocabulary.Trie.{DerivedVocabulary}
use oc_earley.Vocabulary.Build.{
  BuildError, Totals, Building, max_of, measure_entry, insert_entry, with_locals, lay_out,
  build_trie, build,
}
use oc_earley.Vocabulary.Build.Layout.{Slotted, push_nodes-TrieOk}
use oc_earley.Vocabulary.Build.Growing.{Grown, Fails, insert_entry-Grown}
use oc_earley.Engine.Walk.Spec.{TrieOk}

max_of-le : (m : ℕ) (ids : List ℕ) → (m ≤ max_of m ids) × All (λ id. id ≤ max_of m ids) ids
unfolding max_of
max_of-le m [] = (omega arith, tt)
max_of-le m (id ∷ ids) =
    let (h, hs) = max_of-le (max m id) ids in (omega (arith, h), (omega (arith, h), hs))

-- No id of the entries is larger.
abbrev pub Below : ℕ → List (List ℕ × List ℕ) → Type 0
Below n entries = All (λ (e : List ℕ × List ℕ). All (λ id. id ≤ n) e.1) entries

Below-map : (n m : ℕ) (entries : List (List ℕ × List ℕ)) → n ≤ m → Below n entries → Below m entries
Below-map n m entries h all =
    All-map entries (λ e ids. All-map e.1 (λ id lt. omega (arith, lt)) ids) all

measure_entry-Below :
    (limits : CompileLimits) (bytes ids : List ℕ) (t : Totals)
    → Ensures
        (λ _ u. (t.max_id ≤ u.max_id) × All (λ id. id ≤ u.max_id) ids)
        Fails
        (measure_entry limits (bytes, ids) t)
unfolding measure_entry
measure_entry-Below limits bytes ids t =
    Ensures-guard _ _ t _
      (λ _.
        Ensures-guard _ _ t _
          (λ _. Ensures-get t _ (
            Ensures-or_fail _ _ t _
              (λ total _.
                Ensures-guard _ _ t _
                  (λ _.
                    Ensures-or_fail _ _ t _
                      (λ aliases _.
                        Ensures-guard _ _ t _ (λ _. Ensures-last _ t (max_of-le t.max_id ids))
                          (λ _. tt))
                      (λ _. tt))
                  (λ _. tt))
              (λ _. tt)))
          (λ _. tt))
      (λ _. tt)

pub measure_entries-Below :
    (limits : CompileLimits) (entries : List (List ℕ × List ℕ)) (t : Totals)
    → Ensures
        (λ _ u. (t.max_id ≤ u.max_id) × Below u.max_id entries)
        Fails
        (for_each entries (measure_entry limits) t)
unfolding for_each
measure_entries-Below limits [] t = Ensures-pure tt t (omega arith, tt)
measure_entries-Below limits ((bytes, ids) ∷ entries) t =
    Ensures-bind _ (measure_entry-Below limits bytes ids t) λ _ u (h, hs).
      Ensures-weaken
        (λ _ v (g, gs). (omega (arith, h, g), (All-map ids (λ id lt. omega (arith, lt, g)) hs, gs)))
        (λ _ _ q. q) (measure_entries-Below limits entries u)

pub Ensures-with_locals :
    {S T A : Type 0} {P : T → Type 0} {R : A → S → Type 0} {E : BuildError → T → Type 0}
    (loop : M BuildError T (Unit {0})) (start : T) (next : T → M BuildError S A) (s : S)
    → Ensures (λ _. P) E (loop start)
    → ((t : T) → P t → Ensures R Fails (next t s))
    → Ensures R Fails (with_locals loop start next s)
unfolding with_locals
Ensures-with_locals loop start next s h f = elim (Ensures-cases h) [
  | inl (a, t, e, p) ↦ rw (e, with_locals) (f t p)
  | inr (x, t, e, _) ↦ rw (e, with_locals) (fails tt)
]

-- What the guide asks of a vocabulary.
pub record Usable (eos_token_id : ℕ) (v : DerivedVocabulary) : Type 0 where
  pub trie : TrieOk v.trie v.mask_words
  pub eos : v.eos_token_id ≡ eos_token_id
  pub tokens : All (λ id. id < v.vocab_size) v.trie.terminal_ids
  pub eos_slot : v.eos_token_id < v.vocab_size
  pub eos_fits : v.eos_token_id / 32 < v.mask_words
  pub slots : length v.reverse ≡ v.vocab_size
  pub enough : v.vocab_size ≤ v.mask_words * 32

lay_out-Usable :
    (limits : CompileLimits) (eos slots words bytes : ℕ) (b : Building)
    → Grown slots (Slotted slots words) b
    → eos < slots
    → eos / 32 < words
    → slots ≤ words * 32
    → Ensures (λ v _. Usable eos v) Fails (lay_out limits eos slots words bytes b tt)
unfolding lay_out
lay_out-Usable limits eos slots words bytes b g slot fits enough =
    Ensures-or_fail _ _ tt _
      (λ edges _.
        Ensures-guard _ _ tt _
          (λ _.
            Ensures-with_locals _ _ _ tt
              (push_nodes-TrieOk limits slots words b.build_nodes g.some_node g.sound)
              (λ trie (sound, slotted). Ensures-pure _ tt (record {
                trie = sound;
                eos = refl;
                tokens = slotted;
                eos_slot = slot;
                eos_fits = fits;
                slots = g.reverse;
                enough = enough;
              })))
          (λ _. tt))
      (λ _. tt)

build_trie-Usable :
    (limits : CompileLimits) (eos : ℕ) (entries : List (List ℕ × List ℕ)) (t : Totals)
    → eos ≤ t.max_id
    → Below t.max_id entries
    → Ensures (λ v _. Usable eos v) Fails (build_trie limits eos entries t tt)
unfolding build_trie
build_trie-Usable limits eos entries t below all =
    Ensures-or_fail _ _ tt _
      (λ slots is_slots.
        Ensures-guard _ _ tt _
          (λ _.
            Ensures-or_fail _ _ tt _
              (λ rounded is_rounded.
                let s = checked_sum t.max_id 1 is_slots in
                let r = checked_sum slots 31 is_rounded in
                let Fits : ℕ → Type 0 = Slotted slots (rounded / 32) in
                Ensures-with_locals _ _ _ tt
                  (Ensures-for_each (Grown slots Fits)
                    (λ (e : List ℕ × List ℕ). All (λ id. (id < slots) × Fits id) e.1)
                    (insert_entry limits) entries
                    (λ (bytes, ids) b fit g. insert_entry-Grown limits slots Fits bytes ids b fit g)
                    (All-map entries
                      (λ e ids.
                        All-map e.1
                          (λ id le. (omega (arith, s), (omega (arith, s), omega (arith, s, r))))
                          ids)
                      all)
                    _
                    (record {
                      sound = ((tt, tt), tt);
                      some_node = omega arith;
                      reverse = length-replicate slots none;
                    }))
                  (λ b g.
                    lay_out-Usable limits eos slots (rounded / 32) t.total_token_bytes b g
                      (omega (arith, s)) (omega (arith, s, r)) (omega (arith, r))))
              (λ _. tt))
          (λ _. tt))
      (λ _. tt)

-- Building the token trie of any vocabulary ends without a panic. If it succeeds, every index in the
-- trie exists, every token of it and the end of the sequence have a bit in a mask of `mask_words`
-- words and are below `vocab_size`, which is the number of the slots, and the masks have a bit for
-- every slot.
pub build-Usable :
    (limits : CompileLimits) (eos : ℕ) (tokens : List (List ℕ × List ℕ))
    → Ensures (λ v _. Usable eos v) Fails (build limits eos tokens)
unfolding build
build-Usable limits eos tokens =
    Ensures-guard _ _ tt _
      (λ _.
        Ensures-with_locals _ _ _ tt
          (measure_entries-Below limits (sort_by_key (λ e. e.0) tokens) _)
          (λ t (below, all). build_trie-Usable limits eos _ t below all))
      (λ _. tt)
