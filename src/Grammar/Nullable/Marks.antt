-- ===== src/Grammar/Nullable/Marks.antt =====
-- The marks that `residual_nullable` of src/grammar.rs sets, and how a mark changes them.
use oc_earley.Prelude.{
  ℕ, zero, suc, ◌<◌, ◌≡◌, refl, ap, ◌⊎◌, inl, inr, Bool, true, false, ◌&&◌, ◌||◌, Bool-cases,
  Option, none, some, List, [], ◌∷◌, length, get_elem?, get_elem?-lt, set, replicate, All,
}
use oc_earley.Outcome.{ok, bind, pure, get, or_panic}
use oc_earley.Grammar.Dfa.{unwrap_or}
use oc_earley.Grammar.Residual.{Symbol, nonterminal, terminal, ResidualProduction, ResidualGrammar}
use oc_earley.Grammar.Language.{Vanishes, expand}
use oc_earley.Grammar.Nullable.{all_nullable}

abbrev pub SymbolIn : ℕ → Symbol → Type 0
SymbolIn n (nonterminal a) = a < n
SymbolIn n (terminal t) = Unit

-- The production's nonterminals are among the first `n`.
abbrev pub ProductionIn : ℕ → ResidualProduction → Type 0
ProductionIn n p = (p.lhs < n) × All (SymbolIn n) p.rhs

-- Whether the marks say that all the symbols derive the empty string.
abbrev pub marked : List Bool → List Symbol → Bool
marked s [] = true
marked s (terminal t ∷ rest) = false
marked s (nonterminal a ∷ rest) = unwrap_or (get_elem? s a) false && marked s rest

pub all_nullable-marked :
    (n : ℕ) (xs : List Symbol) (s : List Bool)
    → length s ≡ n
    → All (SymbolIn n) xs
    → all_nullable xs s ≡ ok (marked s xs) s
unfolding all_nullable bind pure get or_panic
all_nullable-marked n [] s l h = refl
all_nullable-marked n (terminal t ∷ xs) s l h = refl
all_nullable-marked n (nonterminal a ∷ xs) s l h =
    let (known, found) = get_elem?-lt s a (rw l h.0) in
    elim (Bool-cases known) [
      | inl q ↦ rw (found, q) (all_nullable-marked n xs s l h.1)
      | inr q ↦ rw (found, q) refl
    ]

abbrev pub unmarked : List Bool → ℕ
unmarked [] = 0
unmarked (true ∷ s) = unmarked s
unmarked (false ∷ s) = suc (unmarked s)

pub unmarked-set :
    (s : List Bool) (a : ℕ)
    → get_elem? s a ≡ some false
    → suc (unmarked (set s a true)) ≡ unmarked s
unmarked-set [] a h = cc
unmarked-set (true ∷ s) zero h = cc
unmarked-set (false ∷ s) zero h = refl
unmarked-set (true ∷ s) (suc a) h = unmarked-set s a h
unmarked-set (false ∷ s) (suc a) h = ap suc (unmarked-set s a h)

pub length-set : (s : List Bool) (a : ℕ) (b : Bool) → length (set s a b) ≡ length s
length-set [] a b = refl
length-set (x ∷ s) zero b = refl
length-set (x ∷ s) (suc a) b = ap suc (length-set s a b)

pub get_elem?-set_cases :
    (s : List Bool) (a i : ℕ)
    → get_elem? (set s a true) i ≡ some true
    → (i ≡ a) ⊎ (get_elem? s i ≡ some true)
get_elem?-set_cases [] a i h = cc
get_elem?-set_cases (x ∷ s) zero zero h = inl refl
get_elem?-set_cases (x ∷ s) zero (suc i) h = inr h
get_elem?-set_cases (x ∷ s) (suc a) zero h = inr h
get_elem?-set_cases (x ∷ s) (suc a) (suc i) h = elim (get_elem?-set_cases s a i h) [
  | inl e ↦ inl (ap suc e)
  | inr e ↦ inr e
]

pub unmarked-replicate : (n : ℕ) → unmarked (replicate n false) ≡ n
unmarked-replicate zero = refl
unmarked-replicate (suc n) = ap suc (unmarked-replicate n)

pub none_marked : (n a : ℕ) → get_elem? (replicate n false) a ≡ some true → ⊥
none_marked zero a h = cc
none_marked (suc n) zero h = cc
none_marked (suc n) (suc a) h = none_marked n a h

pub both : (b c : Bool) → (b && c) ≡ true → (b ≡ true) × (c ≡ true)
both true c h = (refl, h)
both false c h = cc

pub unwrapped : (o : Option Bool) → unwrap_or o false ≡ true → o ≡ some true
unwrapped none h = cc
unwrapped (some b) h = ap some h

pub Vanishes-cons :
    {g : ResidualGrammar} {x : Symbol} {xs : List Symbol}
    → Vanishes g (x ∷ [])
    → Vanishes g xs
    → Vanishes g (x ∷ xs)
Vanishes-cons (expand r v w) u = Vanishes.expand r v u

pub All-of_get_elem? :
    {P : ResidualProduction → Type 0} (ps : List ResidualProduction)
    → ((i : ℕ) (p : ResidualProduction) → get_elem? ps i ≡ some p → P p)
    → All P ps
All-of_get_elem? [] h = tt
All-of_get_elem? (p ∷ ps) h = (h 0 p refl, All-of_get_elem? ps (λ i. h (suc i)))

pub or_false : (b : Bool) → (b || false) ≡ b
or_false true = refl
or_false false = refl

pub or_true : (b : Bool) → (b || true) ≡ true
or_true true = refl
or_true false = refl
