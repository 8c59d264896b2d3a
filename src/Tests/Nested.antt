-- ===== src/Tests/Nested.antt =====
-- The tables of the grammar S → a S b | ε are well formed, and a recognizer for it has read nothing
-- at first.
use oc_earley.Prelude.{
  List, ℕ, zero, suc, ◌≡◌, ◌≢◌, refl, true, some, [], ◌∷◌, get_elem?, All, All-get_elem?, arith,
  length, ◌↔◌,
}
use mathlib.Core.Option.{some-injective}
use oc_earley.Grammar.Residual.{nonterminal}
use oc_earley.Outcome.Rules.{Ensures}
use oc_earley.Grammar.Terminal.{literal, accepts_empty}
use oc_earley.Grammar.Literal.{literal-Matches}
use oc_earley.Grammar.Nullable.{residual_nullable}
use oc_earley.Grammar.Nullable.Exact.{TerminalsNonempty, residual_nullable-Derives}
use oc_earley.Grammar.Language.{Matches, Rule, Derives, Vanishes}
use oc_earley.Earley.Types.{EarleyProduction, CompiledEarley}
use oc_earley.Earley.WellFormed.{SymbolOk, RuleOk, IsStart, Predicted, WellFormed, LimitsOk}
use oc_earley.Tests.Earley.{nested, compiled_nested, runtime_limits}

abbrev c : CompiledEarley
c = compiled_nested

All-rules : All (RuleOk c) c.dotted
All-rules = (
  record {
    body = _;
    found = refl;
    lhs = refl;
    next = refl;
    moves = λ x e. record {
      id = 1;
      target = _;
      advanced = refl;
      found = refl;
      production = refl;
      dot = refl;
    };
  },
  (
    record {
      body = _;
      found = refl;
      lhs = refl;
      next = refl;
      moves = λ x e. record {
        id = 2;
        target = _;
        advanced = refl;
        found = refl;
        production = refl;
        dot = refl;
      };
    },
    (
      record {
        body = _;
        found = refl;
        lhs = refl;
        next = refl;
        moves = λ x e. record {
          id = 3;
          target = _;
          advanced = refl;
          found = refl;
          production = refl;
          dot = refl;
        };
      },
      (
        record { body = _; found = refl; lhs = refl; next = refl; moves = λ x e. cc },
        (
          record { body = _; found = refl; lhs = refl; next = refl; moves = λ x e. cc },
          (
            record {
              body = _;
              found = refl;
              lhs = refl;
              next = refl;
              moves = λ x e. record {
                id = 6;
                target = _;
                advanced = refl;
                found = refl;
                production = refl;
                dot = refl;
              };
            },
            (record { body = _; found = refl; lhs = refl; next = refl; moves = λ x e. cc }, tt),
          ),
        ),
      ),
    ),
  ),
)

All-symbols : All (λ (body : EarleyProduction). All (SymbolOk c) body.rhs) c.productions
All-symbols = (
  ((_, refl), (((_, refl), (_, refl)), ((_, refl), tt))),
  (tt, ((((_, refl), (_, refl)), tt), tt)),
)

All-starts : All (All (IsStart c)) c.starts_by_lhs
All-starts = (((_, refl, refl), ((_, refl, refl), tt)), (((_, refl, refl), tt), tt))

empty-Rule : Rule nested 0 []
empty-Rule = (1, _, refl, refl, refl)

nested_sources :
    (p : ℕ) (body : EarleyProduction)
    → get_elem? c.productions p ≡ some body
    → p ≢ 2
    → Rule nested body.lhs body.rhs
nested_sources zero body e h = rw (← some-injective _ body e) (0, _, refl, refl, refl)
nested_sources (suc zero) body e h = rw (← some-injective _ body e) empty-Rule
nested_sources (suc (suc zero)) body e h = absurd (h refl)
nested_sources (suc (suc (suc p))) body e h = cc

nested_nullable :
    (a : ℕ) → get_elem? nested.nullable a ≡ some true → Vanishes nested (nonterminal a ∷ [])
nested_nullable zero e = Vanishes.expand empty-Rule Vanishes.stop Vanishes.stop
nested_nullable (suc a) e = cc

nested-Predicted :
    (p : ℕ) (body : EarleyProduction) → get_elem? c.productions p ≡ some body → Predicted c p body
nested-Predicted zero body e =
    rw (← some-injective _ body e) (0, _, (_, 0, refl, refl), refl, refl, refl)
nested-Predicted (suc zero) body e =
    rw (← some-injective _ body e) (4, _, (_, 1, refl, refl), refl, refl, refl)
nested-Predicted (suc (suc zero)) body e =
    rw (← some-injective _ body e) (5, _, (_, 0, refl, refl), refl, refl, refl)
nested-Predicted (suc (suc (suc p))) body e = cc

pub nested-WellFormed : WellFormed compiled_nested
nested-WellFormed = record {
  rules = λ d rule e. All-get_elem? (RuleOk c) c.dotted d All-rules e;
  starts = λ a ds e. All-get_elem? (All (IsStart c)) c.starts_by_lhs a All-starts e;
  predicted = nested-Predicted;
  symbols = λ p i body x e e'.
      All-get_elem? (SymbolOk c) body.rhs i
        (All-get_elem? (λ (b : EarleyProduction). All (SymbolOk c) b.rhs) c.productions p
          All-symbols e)
        e';
  sources = nested_sources;
  nullable = nested_nullable;
  augmented = λ body e. rw (← some-injective _ body e) refl;
  begin = (5, refl, (_, refl, refl));
  complete = (_, refl, refl, refl);
}

pub runtime_limits-LimitsOk : LimitsOk runtime_limits
runtime_limits-LimitsOk = record { items = omega arith; columns = omega arith }

nested-TerminalsNonempty : TerminalsNonempty nested
unfolding accepts_empty
nested-TerminalsNonempty zero term e = rw (← some-injective _ term e) refl
nested-TerminalsNonempty (suc zero) term e = rw (← some-injective _ term e) refl
nested-TerminalsNonempty (suc (suc t)) term e = cc

residual_nullable-Derives_example :
    Ensures
      (λ nullable _.
        (length nullable ≡ 1)
        × ((get_elem? nullable 0 ≡ some true) ↔ Derives nested (nonterminal 0 ∷ []) []))
      (λ e _. ⊥)
      (residual_nullable 1 nested.productions)
residual_nullable-Derives_example =
    residual_nullable-Derives nested 1 0 nested-TerminalsNonempty
      ((omega arith, (tt, (omega arith, (tt, tt)))), ((omega arith, tt), tt))

abbrev ab : List ℕ
ab = 97 ∷ 98 ∷ []

literal-Matches_example : Matches (literal ab) ab ↔ (ab ≡ ab)
literal-Matches_example = literal-Matches ab ab (omega arith)
