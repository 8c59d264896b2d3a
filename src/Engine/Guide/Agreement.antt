-- ===== src/Engine/Guide/Agreement.antt =====
-- src/engine.rs and src/index.rs: on an index, a guide commits exactly the tokens that its mask offers.
use oc_earley.Prelude.{
  ℕ, ◌+◌, ◌≤◌, ◌<◌, ◌≡◌, inl, inr, Bool, true, false, not, Bool-cases, Option, none, some,
  Option-cases, List, [], ◌∷◌, length, leb, leb→gt, ◌==◌, ==→eq, if◌then◌else◌, contains, find,
  keys, u64_max, checked_add, refl, sym, ap, ◌∙◌, subst, arith,
}
use mathlib.Core.Option.{some-injective}
use oc_earley.Error.{RuntimeError}
use oc_earley.Outcome.{ok, M, bind, get, pure}
use oc_earley.Outcome.Rules.{
  Ensures, Ensures-bind, Ensures-step, Ensures-if, Ensures-modify, Ensures-last, Ensures-get,
  Ensures-guard, Ensures-or_fail,
}
use oc_earley.Index.{Index, allowed_tokens, next_state, is_final_state}
use oc_earley.Engine.Guide.{
  GuideRuntime, Guide, is_accepting, accepting_runtime, invalidate_mask, checkpoint, bytes_of,
  advance_eos, advance_runtime, advance_token, advance,
}
use oc_earley.Engine.Guide.Advancing.{retain_checkpoint_lem}
use oc_earley.Engine.Guide.Filling.{tokens_of}
use oc_earley.Engine.Guide.Masking.{Offers, Offered}

-- The keys of a map are what can be looked up.
contains-keys : (k : ℕ) (m : List (ℕ × ℕ)) {v : ℕ} → find k m ≡ some v → contains k (keys m) ≡ true
unfolding contains find keys
contains-keys k [] h = cc
contains-keys k ((j, w) ∷ m) {v} h = elim (Bool-cases (k == j)) [
  | inl q ↦ rw q refl
  | inr q ↦ rw q (contains-keys k m {v = v} (ground arith))
]

contains-keys-none : (k : ℕ) (m : List (ℕ × ℕ)) → find k m ≡ none → contains k (keys m) ≡ false
unfolding contains find keys
contains-keys-none k [] h = refl
contains-keys-none k ((j, w) ∷ m) h = elim (Bool-cases (k == j)) [
  | inl q ↦ ground arith
  | inr q ↦ rw q (contains-keys-none k m (ground arith))
]

abbrev offered_by : Index → ℕ → ℕ → Bool
offered_by index state token = contains token (tokens_of (allowed_tokens index state))

some_allowed :
    (index : Index) (state : ℕ) {edges : List (ℕ × ℕ)}
    → find state index.transitions ≡ some edges
    → tokens_of (allowed_tokens index state) ≡ keys edges
unfolding allowed_tokens
some_allowed index state e = rw (e, allowed_tokens, tokens_of) refl

none_allowed :
    (index : Index) (state : ℕ)
    → find state index.transitions ≡ none
    → tokens_of (allowed_tokens index state) ≡ []
unfolding allowed_tokens
none_allowed index state e = rw (e, allowed_tokens, tokens_of) refl

next_state-some :
    (index : Index) (state token : ℕ) {edges : List (ℕ × ℕ)}
    → find state index.transitions ≡ some edges
    → (token == index.eos_token_id) ≡ false
    → next_state index state token ≡ find token edges
unfolding next_state
next_state-some index state token e q = rw (q, e) refl

-- Besides the end of the sequence, an index goes on by the tokens that it lists.
next_state-offered :
    (index : Index) (state token : ℕ) {next : ℕ}
    → (token == index.eos_token_id) ≡ false
    → next_state index state token ≡ some next
    → offered_by index state token ≡ true
unfolding next_state
next_state-offered index state token {next} q h =
    elim (Option-cases (find state index.transitions)) [
      | inl e ↦ let c : none ≡ some next = sym (rw (q, e) refl) ∙ h in cc
      | inr (edges, e) ↦
          ap (contains token) (some_allowed index state e)
          ∙ contains-keys token edges (sym (next_state-some index state token e q) ∙ h)
    ]

next_state-none :
    (index : Index) (state token : ℕ)
    → (token == index.eos_token_id) ≡ false
    → next_state index state token ≡ none
    → offered_by index state token ≡ false
unfolding contains
next_state-none index state token q h = elim (Option-cases (find state index.transitions)) [
  | inl e ↦ ap (contains token) (none_allowed index state e)
  | inr (edges, e) ↦
      ap (contains token) (some_allowed index state e)
      ∙ contains-keys-none token edges (sym (next_state-some index state token e q) ∙ h)
]

-- Why a token is not committed.
abbrev pub refusal : Guide → ℕ → RuntimeError
refusal g token =
    if token == g.eos_token_id
    then RuntimeError.eos_not_accepting
    else RuntimeError.token_not_allowed token

still_open :
    {A : Type 0} (c : Bool) (m n : M RuntimeError Guide A) (g : Guide)
    → c ≡ false
    → (if c then m else n) g ≡ n g
still_open true m n g h = cc
still_open false m n g h = refl

counted : (n : ℕ) → n < u64_max → checked_add n 1 ≡ some (n + 1)
counted n h = let small : leb (n + 1) u64_max ≡ true = ground arith in rw small refl

some_of : (n : ℕ) {m : ℕ} → n < u64_max → checked_add n 1 ≡ some m → m ≡ n + 1
some_of n h e = some-injective _ _ (sym e ∙ counted n h)

module _ (fuel : ℕ) (index : Index) (state : ℕ) (g : Guide)
    (on_index : g.runtime ≡ GuideRuntime.dfa index state) (is_open : g.finished ≡ false)
    (same_eos : index.eos_token_id ≡ g.eos_token_id) (token : ℕ) where
  offers : offered_by index state token ≡ true → Offered fuel g token
  offers h =
      subst (λ b. Offers fuel b g.vocabulary g.runtime token) (sym is_open)
        (subst (λ rt. Offers fuel false g.vocabulary rt token) (sym on_index) h)

  offers_not : offered_by index state token ≡ false → Offered fuel g token → ⊥
  offers_not n h =
      let h' : offered_by index state token ≡ true =
        subst (λ rt. Offers fuel false g.vocabulary rt token) on_index
          (subst (λ b. Offers fuel b g.vocabulary g.runtime token) is_open h) in
      let c : false ≡ true = sym n ∙ h' in cc

  -- A guide that does not offer the token refuses it, and does not change.
  abbrev pub RefusesToken : RuntimeError → Guide → Type 0
  RefusesToken e u = (Offered fuel g token → ⊥) × (e ≡ refusal g token) × (u ≡ g)

  is_accepting_index : is_accepting fuel g ≡ ok (is_final_state index state) g
  unfolding is_accepting accepting_runtime bind get pure
  is_accepting_index =
      still_open g.finished (pure false) (accepting_runtime fuel g.runtime) g is_open
      ∙ ap (λ rt. accepting_runtime fuel rt g) on_index

  eos_agrees :
      (token == g.eos_token_id) ≡ true
      → offered_by index state token ≡ is_final_state index state
      → Ensures (λ _ _. Offered fuel g token) RefusesToken (advance_eos fuel token (checkpoint g) g)
  unfolding advance_eos invalidate_mask
  eos_agrees q same = Ensures-step _ is_accepting_index (
      Ensures-guard _ _ g _
        (λ accepts.
          Ensures-step _ (retain_checkpoint_lem (checkpoint g) g)
            (Ensures-modify _ _ _ (Ensures-last _ _ (offers (same ∙ accepts)))))
        (λ rejects. (offers_not (same ∙ rejects), rw q refl, refl)))

  runtime_agrees :
      (bytes : Option (List ℕ))
      → (token == g.eos_token_id) ≡ false
      → Ensures
          (λ _ _. Offered fuel g token)
          RefusesToken
          (advance_runtime fuel token bytes (GuideRuntime.dfa index state) g)
  unfolding advance_runtime
  runtime_agrees bytes q =
      let q' : (token == index.eos_token_id) ≡ false = ap (λ e. token == e) same_eos ∙ q in
      Ensures-or_fail _ _ g _
        (λ next found. Ensures-last _ g (offers (next_state-offered index state token q' found)))
        (λ nowhere. (offers_not (next_state-none index state token q' nowhere), rw q refl, refl))

  token_agrees :
      (token == g.eos_token_id) ≡ false
      → Ensures
          (λ _ _. Offered fuel g token)
          RefusesToken
          (advance_token fuel token (checkpoint g) g)
  unfolding advance_token invalidate_mask
  token_agrees q =
      let bytes = bytes_of g.vocabulary token in
      Ensures-get g _ (
        Ensures-bind _
          (subst
            (λ rt.
              Ensures (λ _ _. Offered fuel g token) RefusesToken
                (advance_runtime fuel token bytes rt g))
            (sym on_index) (runtime_agrees bytes q))
          (λ _ u offered.
            Ensures-step _ (retain_checkpoint_lem (checkpoint g) u)
              (Ensures-modify _ _ _ (Ensures-last _ _ offered))))

  -- A guide on an index whose final states are those with an edge for the end of the sequence, that
  -- is not finished and has room for one more token, commits a token if and only if it offers it,
  -- which is what its mask holds. Else it says why, and does not change.
  pub advance-Offered :
      offered_by index state g.eos_token_id ≡ is_final_state index state
      → length g.committed_token_ids < g.limits.max_committed_tokens
      → g.limits.max_committed_tokens ≤ u64_max
      → Ensures (λ _ _. Offered fuel g token) RefusesToken (advance fuel token g)
  unfolding advance
  advance-Offered eos_edges room small =
      let n = length g.committed_token_ids in
      let small_enough : n < u64_max = omega (arith, room, small) in
      Ensures-get g _ (
        Ensures-guard _ _ g _
          (λ _.
            Ensures-or_fail _ _ g _
              (λ next is_next.
                Ensures-guard _ _ g _
                  (λ fits.
                    Ensures-if (token == g.eos_token_id) (advance_eos fuel token (checkpoint g))
                      (advance_token fuel token (checkpoint g)) g
                      (λ q. eos_agrees q (ap (offered_by index state) (==→eq _ _ q) ∙ eos_edges))
                      (λ q. token_agrees q))
                  (λ over.
                    let e = some_of n small_enough is_next in
                    absurd (omega (arith, e, leb→gt _ _ over, room))))
              (λ overflow.
                let c : none ≡ some (n + 1) = sym overflow ∙ counted n small_enough in cc))
          (λ done. let c : true ≡ false = ap not (sym is_open) ∙ done in cc))
