-- ===== src/Earley/Building/Dots.antt =====
-- The dotted rules of one production, and the loop of `build` that appends them.
use oc_earley.Prelude.{
  ℕ, zero, suc, ◌+◌, ◌≤◌, ◌<◌, ◌≡◌, refl, sym, ap, ◌∙◌, some, List, [], ◌∷◌, ◌++◌, append_assoc,
  append-nil, length, length-append_one, get_elem?, leb→le, leb→gt, u32_max, arith,
}
use oc_earley.Outcome.Rules.{
  Ensures, Ensures-weaken, Ensures-get, Ensures-guard, Ensures-modify, Ensures-pure,
}
use oc_earley.Error.{IsCompileLimit}
use oc_earley.Earley.Types.{DottedRule, EarleyProduction}
use oc_earley.Earley.Compile.{Tables, dotted_rule, add_dots}

-- The rules with the dot at `dot` and the `rounds - 1` places behind it, the first at index `id`.
abbrev pub rules_from : ℕ → EarleyProduction → ℕ → ℕ → ℕ → List DottedRule
rules_from p body dot zero id = []
rules_from p body dot (suc rounds) id =
    dotted_rule p body dot id ∷ rules_from p body (suc dot) rounds (suc id)

pub get_elem?-rules_from :
    (p : ℕ) (body : EarleyProduction) (dot rounds id i : ℕ)
    → i < rounds
    → get_elem? (rules_from p body dot rounds id) i ≡ some (dotted_rule p body (dot + i) (id + i))
get_elem?-rules_from p body dot zero id i h = absurd (omega arith)
get_elem?-rules_from p body dot (suc rounds) id zero h =
    let e : dot + 0 ≡ dot = omega arith in let e' : id + 0 ≡ id = omega arith in rw (e, e') refl
get_elem?-rules_from p body dot (suc rounds) id (suc i) h =
    let e : dot + suc i ≡ suc dot + i = omega arith in
    let e' : id + suc i ≡ suc id + i = omega arith in
    rw (e, e') (get_elem?-rules_from p body (suc dot) rounds (suc id) i (omega arith))

pub length-rules_from :
    (p : ℕ) (body : EarleyProduction) (dot rounds id : ℕ)
    → length (rules_from p body dot rounds id) ≡ rounds
length-rules_from p body dot zero id = refl
length-rules_from p body dot (suc rounds) id =
    ap suc (length-rules_from p body (suc dot) rounds (suc id))

-- The tables with the rules behind them.
abbrev pub with_rules : Tables → List DottedRule → Tables
with_rules t rules = record t { dotted = t.dotted ++ rules }

pub add_dots-with_rules :
    (p : ℕ) (body : EarleyProduction) (dot rounds : ℕ) (t : Tables)
    → dot ≤ length t.dotted
    → length t.dotted ≤ suc u32_max
    → Ensures
        (λ _ t'.
          (t' ≡ with_rules t (rules_from p body dot rounds (length t.dotted)))
          × (length t'.dotted ≤ suc u32_max))
        (λ e _. IsCompileLimit e)
        (add_dots p body dot rounds t)
unfolding add_dots
add_dots-with_rules p body dot zero t before small =
    Ensures-pure tt t (ap (λ rules. record t { dotted = rules }) (sym (append-nil t.dotted)), small)
add_dots-with_rules p body dot (suc rounds) t before small = Ensures-get t _ (
    Ensures-guard _ _ t _
      (λ fits.
        let room = leb→le (length t.dotted) u32_max fits in
        Ensures-guard _ _ t _
          (λ _. Ensures-modify _ t _ (
            Ensures-weaken (λ _ t' (same, small'). (same ∙ regroup, small')) (λ e _ limit. limit)
              (add_dots-with_rules p body (suc dot) rounds (with_rules t (here ∷ []))
                (rw one (omega (arith, before))) (rw one (omega (arith, room))))))
          (λ over. omega (arith, before, room, leb→gt dot u32_max over)))
      (λ _. tt))
  where
    here : DottedRule
    here = dotted_rule p body dot (length t.dotted)

    one : length (t.dotted ++ here ∷ []) ≡ suc (length t.dotted)
    one = length-append_one t.dotted here

    regroup :
        with_rules
          (with_rules t (here ∷ []))
          (rules_from p body (suc dot) rounds (length (t.dotted ++ here ∷ [])))
        ≡ with_rules t (rules_from p body dot (suc rounds) (length t.dotted))
    regroup =
        rw
          (
            one,
            append_assoc t.dotted (here ∷ [])
                (rules_from p body (suc dot) rounds (suc (length t.dotted))),
          )
          refl
