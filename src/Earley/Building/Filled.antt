-- ===== src/Earley/Building/Filled.antt =====
-- The tables that `build` has filled for the productions seen so far.
use oc_earley.Prelude.{
  ℕ, suc, ◌+◌, ◌≤◌, ◌<◌, ◌≡◌, refl, sym, ap, ◌∙◌, subst, inl, inr, some, List, [], ◌∷◌, ◌++◌,
  append_assoc, append-nil, length, length-append_one, length-set, get_elem?,
  get_elem?-append_cases, get_elem?-append_left, get_elem?-append_right, get_elem?-append,
  get_elem?-append_last, get_elem?-lt, lt_of_get_elem?, set, u32_max, All, All-set, All-append,
  All-map, All-get_elem?, arith, get_elem?-set_same, get_elem?-set_other, Bool-cases, ==→eq, ==→neq,
  ◌==◌,
}
use mathlib.Core.Option.{some-injective}
use oc_earley.Outcome.Rules.{
  Ensures, Ensures-weaken, Ensures-bind, Ensures-get, Ensures-guard, Ensures-modify, Ensures-pure,
  Ensures-or_panic, Ensures-last,
}
use oc_earley.Error.{CompileLimits, IsCompileLimit}
use oc_earley.Earley.Types.{DottedRule, EarleyProduction}
use oc_earley.Earley.Compile.{Tables, dotted_rule, add_start, add_production, add_productions}
use oc_earley.Earley.WellFormed.{Listed}
use oc_earley.Earley.Building.Dots.{
  rules_from, get_elem?-rules_from, length-rules_from, add_dots-with_rules,
}

-- Where a dotted rule comes from.
pub record Origin (done : List EarleyProduction) (t : Tables) (d : ℕ) (rule : DottedRule)
    : Type 0 where
  pub p : ℕ
  pub offset : ℕ
  pub dot : ℕ
  pub body : EarleyProduction
  pub at_offset : get_elem? t.dotted_offsets p ≡ some offset
  pub at_body : get_elem? done p ≡ some body
  pub inside : dot ≤ length body.rhs
  pub id : d ≡ offset + dot
  pub same : rule ≡ dotted_rule p body dot d

abbrev pub IsOffset : Tables → ℕ → Type 0
IsOffset t d = (p : ℕ) × (get_elem? t.dotted_offsets p ≡ some d)

-- The tables hold the rules of the productions `done`, for `n` left sides.
pub record Filled (n : ℕ) (done : List EarleyProduction) (t : Tables) : Type 0 where
  pub offsets : length t.dotted_offsets ≡ length done
  pub rule_at :
      (p offset dot : ℕ) (body : EarleyProduction)
      → get_elem? t.dotted_offsets p ≡ some offset
      → get_elem? done p ≡ some body
      → dot ≤ length body.rhs
      → get_elem? t.dotted (offset + dot) ≡ some (dotted_rule p body dot (offset + dot))
  pub origin : (d : ℕ) (rule : DottedRule) → get_elem? t.dotted d ≡ some rule → Origin done t d rule
  pub small : length t.dotted ≤ suc u32_max
  pub starts : All (All (IsOffset t)) t.starts_by_lhs
  pub lhss : length t.starts_by_lhs ≡ n
  pub listed :
      (p offset : ℕ) (body : EarleyProduction)
      → get_elem? t.dotted_offsets p ≡ some offset
      → get_elem? done p ≡ some body
      → Listed t.starts_by_lhs body.lhs offset

-- A row that one more rule is added to lists that rule, and every row the others still.
module _ (starts : List (List ℕ)) (lhs d : ℕ) (known : List ℕ)
    (found : get_elem? starts lhs ≡ some known) where
  abbrev more : List (List ℕ)
  more = set starts lhs (known ++ d ∷ [])

  row_added : Listed more lhs d
  row_added = (
    known ++ d ∷ [],
    length known,
    get_elem?-set_same starts lhs _ found,
    get_elem?-append_last known d,
  )

  row_kept : (a d' : ℕ) → Listed starts a d' → Listed more a d'
  row_kept a d' (ds, i, row, at) = elim (Bool-cases (lhs == a)) [
    | inl q ↦
        let e = ==→eq lhs a q in
        let same : ds ≡ known = some-injective _ _ (sym row ∙ rw (← e) found) in
        (
          known ++ d ∷ [],
          i,
          rw (← e) (get_elem?-set_same starts lhs _ found),
          get_elem?-append_left known _ i (lt_of_get_elem? known i (rw same at at)) ∙ rw same at at,
        )
    | inr q ↦ (ds, i, get_elem?-set_other starts lhs a _ (λ e. ==→neq lhs a q e) ∙ row, at)
  ]

module _ (n : ℕ) (done : List EarleyProduction) (t : Tables) (body : EarleyProduction) where
  abbrev rules : List DottedRule
  rules = rules_from (length done) body 0 (suc (length body.rhs)) (length t.dotted)

  abbrev offsets' : List ℕ
  offsets' = t.dotted_offsets ++ length t.dotted ∷ []

  -- The tables after one more production.
  abbrev pub filled_with : List (List ℕ) → Tables
  filled_with starts = record {
    dotted = t.dotted ++ rules;
    dotted_offsets = offsets';
    starts_by_lhs = starts;
  }

  module _ (f : Filled n done t) where
    old_offset :
        (p offset : ℕ)
        → get_elem? t.dotted_offsets p ≡ some offset
        → get_elem? offsets' p ≡ some offset
    old_offset p offset e =
        get_elem?-append_left t.dotted_offsets _ p (lt_of_get_elem? t.dotted_offsets p e) ∙ e

    new_rule :
        (dot : ℕ)
        → dot ≤ length body.rhs
        → get_elem? (t.dotted ++ rules) (length t.dotted + dot)
          ≡ some (dotted_rule (length done) body dot (length t.dotted + dot))
    new_rule dot h =
        let e : 0 + dot ≡ dot = omega arith in
        get_elem?-append_right t.dotted rules dot
        ∙ subst
            (λ k.
              get_elem? rules dot ≡ some (dotted_rule (length done) body k (length t.dotted + dot)))
            e
            (get_elem?-rules_from (length done) body 0 (suc (length body.rhs)) (length t.dotted) dot
              (omega arith))

    new_rule_at :
        (starts : List (List ℕ)) (p offset dot : ℕ) (b : EarleyProduction)
        → get_elem? offsets' p ≡ some offset
        → get_elem? (done ++ body ∷ []) p ≡ some b
        → dot ≤ length b.rhs
        → get_elem? (t.dotted ++ rules) (offset + dot) ≡ some (dotted_rule p b dot (offset + dot))
    new_rule_at starts p offset dot b at_offset at_body h =
        elim (get_elem?-append_cases t.dotted_offsets (length t.dotted) p at_offset) [
          | inl old ↦ elim (get_elem?-append_cases done body p at_body) [
            | inl old' ↦
                let e = f.rule_at p offset dot b old old' h in
                get_elem?-append_left t.dotted rules (offset + dot)
                  (lt_of_get_elem? t.dotted (offset + dot) e)
                ∙ e
            | inr (last, _) ↦
                absurd (omega (arith, f.offsets, last, lt_of_get_elem? t.dotted_offsets p old))
          ]
          | inr (last, same) ↦ elim (get_elem?-append_cases done body p at_body) [
            | inl old' ↦ absurd (omega (arith, f.offsets, last, lt_of_get_elem? done p old'))
            | inr (last', same') ↦
                subst
                  (λ k.
                    get_elem? (t.dotted ++ rules) (k + dot) ≡ some (dotted_rule p b dot (k + dot)))
                  same (rw (last', ← same') (new_rule dot (rw same' h)))
          ]
        ]

    old_body :
        (p : ℕ) (b : EarleyProduction)
        → get_elem? done p ≡ some b
        → get_elem? (done ++ body ∷ []) p ≡ some b
    old_body p b e = get_elem?-append_left done _ p (lt_of_get_elem? done p e) ∙ e

    new-Origin :
        (starts : List (List ℕ)) (d : ℕ) (rule : DottedRule)
        → get_elem? (t.dotted ++ rules) d ≡ some rule
        → Origin (done ++ body ∷ []) (filled_with starts) d rule
    new-Origin starts d rule e = elim (get_elem?-append t.dotted rules d e) [
      | inl old ↦
          let o = f.origin d rule old in
          record {
            p = o.p;
            offset = o.offset;
            dot = o.dot;
            body = o.body;
            at_offset = old_offset o.p o.offset o.at_offset;
            at_body = old_body o.p o.body o.at_body;
            inside = o.inside;
            id = o.id;
            same = o.same;
          }
      | inr (j, id, at) ↦
          let room = lt_of_get_elem? rules j at in
          let inside : j ≤ length body.rhs = omega (
            arith,
            room,
            length-rules_from (length done) body 0 (suc (length body.rhs)) (length t.dotted),
          ) in
          record {
            p = length done;
            offset = length t.dotted;
            dot = j;
            body = body;
            at_offset = rw (← f.offsets) (get_elem?-append_last t.dotted_offsets (length t.dotted));
            at_body = get_elem?-append_last done body;
            inside = inside;
            id = id;
            same = some-injective _ _ (sym (rw id at e) ∙ rw id (new_rule j inside));
          }
    ]

    filled_with-Filled :
        (starts : List (List ℕ))
        → length starts ≡ n
        → All (All (IsOffset (filled_with starts))) starts
        → ((p offset : ℕ) (b : EarleyProduction)
            → get_elem? t.dotted_offsets p ≡ some offset
            → get_elem? done p ≡ some b
            → Listed starts b.lhs offset)
        → Listed starts body.lhs (length t.dotted)
        → length (t.dotted ++ rules) ≤ suc u32_max
        → Filled n (done ++ body ∷ []) (filled_with starts)
    filled_with-Filled starts lhss kept before mine small = record {
      offsets =
          length-append_one t.dotted_offsets (length t.dotted)
          ∙ ap suc f.offsets
          ∙ sym (length-append_one done body);
      rule_at = new_rule_at starts;
      origin = new-Origin starts;
      small = small;
      starts = kept;
      lhss = lhss;
      listed = λ p offset b at_offset at_body.
          elim (get_elem?-append_cases t.dotted_offsets (length t.dotted) p at_offset) [
            | inl old ↦ elim (get_elem?-append_cases done body p at_body) [
              | inl old' ↦ before p offset b old old'
              | inr (last, _) ↦
                  absurd (omega (arith, f.offsets, last, lt_of_get_elem? t.dotted_offsets p old))
            ]
            | inr (last, same) ↦ elim (get_elem?-append_cases done body p at_body) [
              | inl old' ↦ absurd (omega (arith, f.offsets, last, lt_of_get_elem? done p old'))
              | inr (_, same') ↦ rw (← same, ← same') mine
            ]
          ];
    }

    -- The body of the loop over the productions.
    pub add_production-Filled :
        (limits : CompileLimits)
        → body.lhs < n
        → Ensures
            (λ _ t'. Filled n (done ++ body ∷ []) t')
            (λ e _. IsCompileLimit e)
            (add_production limits (length done) body t)
    unfolding add_production add_start
    add_production-Filled limits inside =
        let (known, found) = get_elem?-lt t.starts_by_lhs body.lhs (rw f.lhss inside) in
        let kept =
          All-map {Q = All (IsOffset (filled_with []))} t.starts_by_lhs
            (λ ds h. All-map ds (λ d (p, e). (p, old_offset p d e)) h) f.starts in
        let mine : IsOffset (filled_with []) (length t.dotted) =
          (length t.dotted_offsets, get_elem?-append_last t.dotted_offsets (length t.dotted)) in
        Ensures-get t _ (
          Ensures-guard _ _ t _
            (λ _.
              Ensures-guard _ _ t _
                (λ _. Ensures-modify _ t _ (
                  Ensures-bind {P = λ _ s. s ≡ begun known} _
                    (Ensures-get _ _ (Ensures-or_panic _ _ _ found (Ensures-last _ _ refl)))
                    λ _ s same. rw same (
                      Ensures-guard _ _ (begun known) _
                        (λ _.
                          Ensures-weaken
                            (λ _ t' (e, small'). subst (Filled n (done ++ body ∷ [])) (sym e) (
                              filled_with-Filled (starts' known)
                                (length-set t.starts_by_lhs body.lhs _ ∙ f.lhss)
                                (All-set (All (IsOffset (filled_with []))) t.starts_by_lhs body.lhs
                                  _
                                  (All-append (IsOffset (filled_with [])) known _
                                    (All-get_elem? (All (IsOffset (filled_with []))) t.starts_by_lhs
                                      body.lhs kept found)
                                    (mine, tt))
                                  kept)
                                (λ p offset b at at'.
                                  row_kept t.starts_by_lhs body.lhs (length t.dotted) known found
                                    b.lhs offset (f.listed p offset b at at'))
                                (row_added t.starts_by_lhs body.lhs (length t.dotted) known found)
                                (subst (λ u. length u.dotted ≤ suc u32_max) e small')))
                            (λ e _ limit. limit)
                            (add_dots-with_rules (length done) body 0 (suc (length body.rhs))
                              (begun known) (omega arith) f.small))
                        (λ _. tt))))
                (λ _. tt))
            (λ _. tt))
      where
        starts' : List ℕ → List (List ℕ)
        starts' known = set t.starts_by_lhs body.lhs (known ++ length t.dotted ∷ [])

        begun : List ℕ → Tables
        begun known = record {
          dotted = t.dotted;
          dotted_offsets = offsets';
          starts_by_lhs = starts' known;
        }

pub add_productions-Filled :
    (limits : CompileLimits) (n : ℕ) (done rest : List EarleyProduction) (t : Tables)
    → Filled n done t
    → All (λ (b : EarleyProduction). b.lhs < n) rest
    → Ensures
        (λ _ t'. Filled n (done ++ rest) t')
        (λ e _. IsCompileLimit e)
        (add_productions limits (length done) rest t)
unfolding add_productions
add_productions-Filled limits n done [] t f h = Ensures-pure tt t (rw (append-nil done) f)
add_productions-Filled limits n done (body ∷ rest) t f h =
    Ensures-bind _ (add_production-Filled n done t body f limits h.0) λ _ t' f'.
      subst
        (λ whole.
          Ensures (λ _ u. Filled n whole u) (λ e _. IsCompileLimit e)
            (add_productions limits (suc (length done)) rest t'))
        (append_assoc done (body ∷ []) rest)
        (subst
          (λ k.
            Ensures (λ _ u. Filled n ((done ++ body ∷ []) ++ rest) u) (λ e _. IsCompileLimit e)
              (add_productions limits k rest t'))
          (length-append_one done body)
          (add_productions-Filled limits n (done ++ body ∷ []) rest t' f' h.1))
