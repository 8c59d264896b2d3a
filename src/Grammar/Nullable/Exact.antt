-- ===== src/Grammar/Nullable/Exact.antt =====
-- src/grammar.rs, `residual_nullable`: it ends, and finds exactly the nonterminals that derive the
-- empty string.
use oc_earley.Prelude.{
  ℕ, zero, suc, ◌<◌, ◌≡◌, ◌↔◌, refl, sym, ap, ◌∙◌, ◌++◌, ◌⊎◌, inl, inr, Bool, true, false,
  Bool-cases, some, List, [], ◌∷◌, length, get_elem?, get_elem?-lt, replicate, length-replicate,
  All, All-get_elem?, arith,
}
use oc_earley.Outcome.Rules.{
  Ensures, holds, Ensures-weaken, Ensures-bind, Ensures-get, Ensures-or_panic, Ensures-pure,
  Ensures-modify, Ensures-step,
}
use oc_earley.Error.{CompileError}
use mathlib.Core.Option.{some-injective}
use oc_earley.Grammar.Terminal.{CompiledTerminal, accepts_empty, run}
use oc_earley.Grammar.Terminal
use oc_earley.Grammar.Dfa.{unwrap_or}
use oc_earley.Grammar.Residual.{Symbol, nonterminal, terminal, ResidualProduction, ResidualGrammar}
use oc_earley.Grammar.Language.{Matches, Rule, Derives, Vanishes, stop, read, expand}
use oc_earley.Grammar.Nullable.{mark_if, check_rhs, visit, pass, passes, residual_nullable}
use oc_earley.Grammar.Nullable.Marks.{
  ProductionIn, marked, all_nullable-marked, unmarked, unmarked-set, length-set,
  get_elem?-set_cases, unmarked-replicate, none_marked, both, unwrapped, Vanishes-cons,
  All-of_get_elem?, or_false, or_true,
}

-- No terminal of the grammar matches the empty string, which `compile_terminal` sees to.
abbrev pub TerminalsNonempty : ResidualGrammar → Type 0
TerminalsNonempty g =
    (t : ℕ) (term : CompiledTerminal)
    → get_elem? g.terminals t ≡ some term
    → accepts_empty term ≡ false

append-nil_cases : {A : Type 0} (u v : List A) → u ++ v ≡ [] → (u ≡ []) × (v ≡ [])
append-nil_cases [] v e = (refl, e)
append-nil_cases (x ∷ u) v e = cc

Matches-nil : (term : CompiledTerminal) → Matches term [] → accepts_empty term ≡ true
unfolding run accepts_empty
Matches-nil term (c, at, accepts) =
    let same = some-injective (Terminal.start term) c at in rw same accepts

module _ (g : ResidualGrammar) where
  Derives-of_Vanishes : {xs : List Symbol} → Vanishes g xs → Derives g xs []
  Derives-of_Vanishes stop = Derives.stop
  Derives-of_Vanishes (expand r v w) =
      Derives.expand [] [] r (Derives-of_Vanishes v) (Derives-of_Vanishes w) refl

  Vanishes-of_Derives :
      TerminalsNonempty g
      → {xs : List Symbol} {w : List ℕ} → Derives g xs w
      → w ≡ []
      → Vanishes g xs
  Vanishes-of_Derives nonempty stop e = Vanishes.stop
  Vanishes-of_Derives nonempty (read {term} u v found m d split) e =
      let (no_u, _) = append-nil_cases u v (sym split ∙ e) in
      let empty = Matches-nil term (rw no_u at m) in
      let c : true ≡ false = sym empty ∙ nonempty _ term found in cc
  Vanishes-of_Derives nonempty (expand u v r d d' split) e =
      let (no_u, no_v) = append-nil_cases u v (sym split ∙ e) in
      Vanishes.expand r (Vanishes-of_Derives nonempty d no_u) (Vanishes-of_Derives nonempty d' no_v)

module _ (g : ResidualGrammar) (n : ℕ) where
  abbrev IsRule : ResidualProduction → Type 0
  IsRule p = Rule g p.lhs p.rhs

  productions-IsRule : All IsRule g.productions
  productions-IsRule = All-of_get_elem? g.productions (λ i p e. (i, p, e, refl, refl))

  -- The marks are right as far as they go.
  record Right (s : List Bool) : Type 0 where
    pub size : length s ≡ n
    pub vanishes : (a : ℕ) → get_elem? s a ≡ some true → Vanishes g (nonterminal a ∷ [])

  -- The production asks for no other mark.
  abbrev ClosedAt : List Bool → ResidualProduction → Type 0
  ClosedAt s p = marked s p.rhs ≡ true → get_elem? s p.lhs ≡ some true

  marked-Vanishes :
      (s : List Bool) → Right s → (xs : List Symbol) → marked s xs ≡ true → Vanishes g xs
  marked-Vanishes s r [] h = Vanishes.stop
  marked-Vanishes s r (terminal t ∷ xs) h = cc
  marked-Vanishes s r (nonterminal a ∷ xs) h =
      let (here, rest) = both (unwrap_or (get_elem? s a) false) (marked s xs) h in
      Vanishes-cons (r.vanishes a (unwrapped (get_elem? s a) here)) (marked-Vanishes s r xs rest)

  Vanishes-marked :
      (s : List Bool)
      → All (ClosedAt s) g.productions
      → {xs : List Symbol} → Vanishes g xs
      → marked s xs ≡ true
  Vanishes-marked s closed stop = refl
  Vanishes-marked s closed (expand (p, production, found, lhs, rhs) v w) =
      let body : marked s production.rhs ≡ true = rw rhs (Vanishes-marked s closed v) in
      let here = All-get_elem? (ClosedAt s) g.productions p closed found body in
      rw (rw lhs at here, Vanishes-marked s closed w) refl

  -- A step that changes nothing, where `same` holds, or that marks one nonterminal more.
  abbrev Moves : List Bool → Type 0 → Bool → Bool → List Bool → Type 0
  Moves s same before changed t =
      Right t
      × (((changed ≡ before) × (t ≡ s) × same) ⊎ ((changed ≡ true) × (unmarked t < unmarked s)))

  abbrev Never : CompileError → List Bool → Type 0
  Never e s = ⊥

  marked_anew :
      (s : List Bool) (p : ResidualProduction) (i : ℕ)
      → Right s
      → marked s p.rhs ≡ true
      → IsRule p
      → (i ≡ p.lhs) ⊎ (get_elem? s i ≡ some true)
      → Vanishes g (nonterminal i ∷ [])
  marked_anew s p i r h from (inl e) =
      rw e (Vanishes.expand from (marked-Vanishes s r p.rhs h) Vanishes.stop)
  marked_anew s p i r h from (inr e) = r.vanishes i e

  visit-Moves :
      (p : ResidualProduction) (s : List Bool)
      → Right s
      → ProductionIn n p
      → IsRule p
      → Ensures (Moves s (ClosedAt s p) false) Never (visit p s)
  unfolding visit check_rhs mark_if
  visit-Moves p s r h from =
      let (known, found) = get_elem?-lt s p.lhs (rw r.size h.0) in
      Ensures-get s _ (
        Ensures-or_panic _ s _ found (elim (Bool-cases known) [
          | inl q ↦ rw q (Ensures-pure false s (r, inl (refl, refl, λ _. found ∙ ap some q)))
          | inr q ↦ rw q (
              Ensures-step _ (all_nullable-marked n p.rhs s r.size h.1)
                (elim (Bool-cases (marked s p.rhs)) [
                  | inl m ↦ rw m (
                      Ensures-modify _ s _ (
                        Ensures-pure true _ (
                          record {
                            size = length-set s p.lhs true ∙ r.size;
                            vanishes =
                                λ i e. marked_anew s p i r m from (get_elem?-set_cases s p.lhs i e);
                          },
                          inr (refl, omega (arith, unmarked-set s p.lhs (found ∙ ap some q))),
                        )))
                  | inr m ↦ rw m (Ensures-pure false s (r, inl (refl, refl, λ e. cc)))
                ]))
        ]))

  -- One pass: no production asks for another mark, or there is one more.
  pass-Moves :
      (ps : List ResidualProduction) (changed : Bool) (s : List Bool)
      → Right s
      → All (ProductionIn n) ps
      → All IsRule ps
      → Ensures (Moves s (All (ClosedAt s) ps) changed) Never (pass ps changed s)
  unfolding pass
  pass-Moves [] changed s r h from = Ensures-pure changed s (r, inl (refl, refl, tt))
  pass-Moves (p ∷ ps) changed s r h from =
      Ensures-bind _ (visit-Moves p s r h.0 from.0) λ here t (right, move). elim move [
        | inl (still, same, closed) ↦
            rw (still, or_false changed, same)
              (Ensures-weaken
                (λ c u (ru, step). (
                  ru,
                  elim step [ inl (e, e', rest) ↦ inl (e, e', (closed, rest)) | inr m ↦ inr m ],
                ))
                (λ e u x. x) (pass-Moves ps changed s r h.1 from.1))
        | inr (moved, fewer) ↦
            rw (moved, or_true changed)
              (Ensures-weaken
                (λ c u (ru, step). (
                  ru,
                  elim step [
                    | inl (e, e', rest) ↦ inr (e, rw e' fewer)
                    | inr (e, m) ↦ inr (e, omega (arith, fewer, m))
                  ],
                ))
                (λ e u x. x) (pass-Moves ps true t right h.1 from.1))
      ]

  passes-Right :
      (fuel : ℕ) (s : List Bool)
      → Right s
      → All (ProductionIn n) g.productions
      → unmarked s < fuel
      → Ensures
          (λ _ t. Right t × All (ClosedAt t) g.productions)
          Never
          (passes g.productions fuel s)
  unfolding passes
  passes-Right zero s r h enough = absurd (omega arith)
  passes-Right (suc fuel) s r h enough =
      Ensures-bind _ (pass-Moves g.productions false s r h productions-IsRule)
        λ changed t (right, move). elim move [
          | inl (still, same, closed) ↦ rw still (Ensures-pure tt t (right, rw same closed))
          | inr (moved, fewer) ↦ rw moved (passes-Right fuel t right h (omega arith))
        ]

  -- `residual_nullable` ends without an error if the productions' nonterminals are among the first
  -- `n`: it returns `n` marks. If no terminal of the grammar matches the empty string, the mark of a
  -- nonterminal is set if and only if the nonterminal derives the empty string.
  pub residual_nullable-Derives :
      (a : ℕ)
      → TerminalsNonempty g
      → All (ProductionIn n) g.productions
      → Ensures
          (λ nullable _.
            (length nullable ≡ n)
            × ((get_elem? nullable a ≡ some true) ↔ Derives g (nonterminal a ∷ []) []))
          (λ e _. ⊥)
          (residual_nullable n g.productions)
  unfolding residual_nullable
  residual_nullable-Derives a nonempty h =
      Ensures-bind _
        (passes-Right (suc n) (replicate n false)
          (record { size = length-replicate n false; vanishes = λ i e. absurd (none_marked n i e) })
          h (omega (arith, unmarked-replicate n)))
        λ _ t (r, closed). holds (
          r.size,
          (
            λ m. Derives-of_Vanishes g (r.vanishes a m),
            λ d.
                unwrapped (get_elem? t a)
                  (both (unwrap_or (get_elem? t a) false) true
                    (Vanishes-marked t closed (Vanishes-of_Derives g nonempty d refl))).0,
          ),
        )
