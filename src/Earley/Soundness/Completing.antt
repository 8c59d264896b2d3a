-- ===== src/Earley/Soundness/Completing.antt =====
-- Moving an item's dot over a recognized symbol, and completion with and without Leo's entries.
use oc_earley.Prelude.{
  ℕ, ◌≤◌, ◌≡◌, ◌≢◌, refl, sym, ◌∙◌, inl, inr, Bool-cases, Option, none, some, List, [], ◌∷◌, ◌++◌,
  length, get_elem?, get_elem?-append_left, get_elem?-append_last, get_elem?-lt, take-suc, take-all,
  All, All-find, All-or_default, find, arith, ◌==◌,
}
use native.Mathlib.Decide.{dec_lt}
use oc_earley.Outcome.{ok, bind, or_fail, pure, get, modify, for_each, ◌>>◌}
use oc_earley.Outcome.Rules.{
  Ensures, Ensures-step, Ensures-modify, Ensures-pure, Ensures-or_panic, Ensures-for_each,
}
use oc_earley.Grammar.Residual.{Symbol, nonterminal}
use oc_earley.Grammar.Language.{Rule, Spans, Spans-append, Spans-le}
use oc_earley.Earley.Types.{
  DottedRule, EarleyItem, EarleyProduction, EarleyStats, ChartColumn, Setup, State,
}
use oc_earley.Earley.Chart.{
  dotted, advance_item, advance_into, leo_completion, complete_waiters, leo_top, complete_with,
  complete,
}
use oc_earley.Earley.WellFormed.{
  WellFormed, RuleOk, Advanced, ItemOk, WaitsFor, LeoOk, ColumnOk, LimitsOk, Working, Stopped,
  before_dot, rhs_of,
}
use oc_earley.Earley.Soundness.Inserting.{insert_item-Working}

module _ (self : Setup) (input : ℕ → ℕ) (wf : WellFormed self.compiled) where
  -- The right side of a rule that exists.
  rhs_of_found :
      (p : ℕ) {body : EarleyProduction}
      → get_elem? self.compiled.productions p ≡ some body
      → rhs_of self.compiled p ≡ body.rhs
  rhs_of_found p e = rw (e, rhs_of)

  pub dotted_found :
      (item : EarleyItem) (s : State) {rule : DottedRule}
      → get_elem? self.compiled.dotted item.dotted ≡ some rule
      → dotted self item s ≡ ok rule s
  unfolding dotted or_fail
  dotted_found item s e = rw e

  pub advance_item_found :
      (item : EarleyItem) (s : State) (id : ℕ) {rule : DottedRule}
      → get_elem? self.compiled.dotted item.dotted ≡ some rule
      → rule.advanced ≡ some id
      → advance_item self item s ≡ ok (record { dotted = id; origin = item.origin }) s
  unfolding advance_item bind or_fail pure
  advance_item_found item s id e f = rw (dotted_found item s e, bind, f, or_fail)

  pub moved-Spans :
      {j k : ℕ} {x : Symbol} (item : EarleyItem) (w : WaitsFor self.compiled input j x item)
      (a : Advanced self.compiled w.item_ok.rule)
      → Spans self.compiled.grammar input (x ∷ []) j k
      → Spans self.compiled.grammar input (before_dot self.compiled a.target) item.origin k
  moved-Spans {j} {k} {x} item w a p =
      let it = w.item_ok in
      let r = wf.rules item.dotted it.rule it.found in
      let at_dot : get_elem? r.body.rhs it.rule.dot ≡ some x = sym r.next ∙ w.next in
      let longer : before_dot self.compiled a.target ≡ before_dot self.compiled it.rule ++ x ∷ [] =
        rw (a.production, a.dot, rhs_of_found it.rule.production r.found)
          (take-suc r.body.rhs it.rule.dot at_dot) in
      rw longer (Spans-append it.spans p)

  -- Moving the dot over a symbol that is recognized from the item's end on.
  pub moved :
      {j k : ℕ} {x : Symbol} (item : EarleyItem) (w : WaitsFor self.compiled input j x item)
      (a : Advanced self.compiled w.item_ok.rule)
      → Spans self.compiled.grammar input (x ∷ []) j k
      → (it : ItemOk self.compiled input k (record { dotted = a.id; origin = item.origin }))
        × (it.rule ≡ a.target)
  moved {j} {k} {x} item w a p = (
    record {
      rule = a.target;
      found = a.found;
      origin = omega (arith, w.item_ok.origin, Spans-le p);
      spans = moved-Spans item w a p;
    },
    refl,
  )

  -- A complete rule recognizes its left side, unless it is the augmented one.
  pub recognized :
      {i j : ℕ} (rule : DottedRule)
      → RuleOk self.compiled rule
      → rule.next ≡ none
      → rule.production ≢ self.compiled.augmented_production
      → Spans self.compiled.grammar input (before_dot self.compiled rule) i j
      → Spans self.compiled.grammar input (nonterminal rule.lhs ∷ []) i j
  recognized rule r done other p =
      let whole : before_dot self.compiled rule ≡ r.body.rhs =
        rw (rhs_of_found rule.production r.found)
          (take-all r.body.rhs rule.dot (sym r.next ∙ done)) in
      let source : Rule self.compiled.grammar rule.lhs r.body.rhs =
        rw r.lhs (wf.sources rule.production r.body r.found other) in
      Spans.expand source (rw whole at p) Spans.stop

module _ (self : Setup) (input : ℕ → ℕ) (old : List ChartColumn) (wf : WellFormed self.compiled)
    (limits : LimitsOk self.limits) where
  pub advance_into-Working :
      {j : ℕ} {x : Symbol} (item : EarleyItem) (s : State)
      → WaitsFor self.compiled input j x item
      → Spans self.compiled.grammar input (x ∷ []) j (length old)
      → Working self input old s
      → Ensures
          (λ _ s'. Working self input old s')
          (Stopped self input old)
          (advance_into self (length old) item s)
  unfolding advance_into
  advance_into-Working item s w p h =
      let r = wf.rules item.dotted w.item_ok.rule w.item_ok.found in
      let a = r.moves _ w.next in
      let (it, _) = moved self input wf item w a p in
      Ensures-step _ (advance_item_found self input wf item s a.id w.item_ok.found a.advanced)
        (insert_item-Working self input old limits _ s it h)

  -- The loop over waiters of one symbol, which is recognized from their column to this one.
  pub waiters-Working :
      (j : ℕ) (x : Symbol) (before : State → State)
      → ((s : State) → Working self input old s → Working self input old (before s))
      → Spans self.compiled.grammar input (x ∷ []) j (length old)
      → (waiters : List EarleyItem) → All (WaitsFor self.compiled input j x) waiters
      → (s : State) → Working self input old s
      → Ensures
          (λ _ s'. Working self input old s')
          (Stopped self input old)
          (for_each waiters (λ waiter. modify before >> advance_into self (length old) waiter) s)
  waiters-Working j x before keep p waiters ws s h =
      Ensures-for_each (Working self input old) (WaitsFor self.compiled input j x) _ waiters
        (λ waiter s w h.
          Ensures-modify before s _ (advance_into-Working waiter (before s) w p (keep s h)))
        ws s h

module _ (self : Setup) (input : ℕ → ℕ) (old : List ChartColumn) where
  -- The columns before the last are sound.
  abbrev pub OldOk : Type 0
  OldOk =
      (j : ℕ) (col : ChartColumn) → get_elem? old j ≡ some col → ColumnOk self.compiled input j col

  -- Any column up to the last.
  pub column_up_to :
      OldOk
      → (s : State) (w : Working self input old s) (j : ℕ) → j ≤ length old
      → (col : ChartColumn) × (get_elem? s.chart j ≡ some col) × ColumnOk self.compiled input j col
  column_up_to olds s w j h = elim (dec_lt j (length old)) [
    | yes lt ↦
        let (col, e) = get_elem?-lt old j lt in
        (col, rw (w.chart, get_elem?-append_left old (w.col ∷ []) j lt) e, olds j col e)
    | no ge ↦
        let e : j ≡ length old = omega arith in
        (w.col, rw (w.chart, e) (get_elem?-append_last old w.col), rw e w.column_ok)
  ]

  -- Statistics are not part of what is kept.
  pub counted :
      (t : EarleyStats) (s : State)
      → Working self input old s
      → Working self input old (record s { stats = t })
  counted t s w = record {
    col = w.col;
    chart = w.chart;
    column_ok = w.column_ok;
    size = w.size;
    total = w.total;
    counted = w.counted;
    leo = w.leo;
    leo_counted = w.leo_counted;
    position = w.position;
  }

module _ (self : Setup) (input : ℕ → ℕ) (old : List ChartColumn) (wf : WellFormed self.compiled)
    (limits : LimitsOk self.limits) (olds : OldOk self input old) where
  complete_waiters-Working :
      (item : EarleyItem) (a : ℕ) (s : State)
      → item.origin ≤ length old
      → Spans self.compiled.grammar input (nonterminal a ∷ []) item.origin (length old)
      → Working self input old s
      → Ensures
          (λ _ s'. Working self input old s')
          (Stopped self input old)
          (complete_waiters self (length old) item a s)
  unfolding complete_waiters
  complete_waiters-Working item a s h p w =
      let (col, e, c) = column_up_to self input old olds s w item.origin h in
      Ensures-or_panic _ s _ e (
        waiters-Working self input old wf limits item.origin (nonterminal a) _
          (λ s w. counted self input old _ s w) p _
          (All-or_default (λ i. WaitsFor self.compiled input item.origin (nonterminal i)) a
            col.waiting_nonterminal c.nonterminals)
          s w)

  leo_top_found :
      (item : EarleyItem) (it : ItemOk self.compiled input (length old) item) (s : State)
      → Spans self.compiled.grammar input (nonterminal it.rule.lhs ∷ []) item.origin (length old)
      → Working self input old s
      → (top : Option EarleyItem) × (leo_top self item s ≡ ok top s)
        × ((t : EarleyItem) → top ≡ some t → ItemOk self.compiled input (length old) t)
  unfolding leo_top leo_completion bind pure get or_fail dotted find
  leo_top_found item it s p w = elim (Bool-cases self.leo_enabled) [
    | inl on ↦
        let (col, e, c) = column_up_to self input old olds s w item.origin it.origin in
        (
          find it.rule.lhs col.leo_by_postdot,
          rw (on, dotted_found self input wf item s it.found, bind, e, or_fail),
          λ t found.
              All-find (LeoOk self.compiled input item.origin) it.rule.lhs col.leo_by_postdot c.leo
                found (length old) p,
        )
    | inr off ↦ (none, rw off, λ t e. cc)
  ]

  complete_with-Working :
      (item : EarleyItem) (a : ℕ) (top : Option EarleyItem) (s : State)
      → item.origin ≤ length old
      → Spans self.compiled.grammar input (nonterminal a ∷ []) item.origin (length old)
      → ((t : EarleyItem) → top ≡ some t → ItemOk self.compiled input (length old) t)
      → Working self input old s
      → Ensures
          (λ _ s'. Working self input old s')
          (Stopped self input old)
          (complete_with self (length old) item a top s)
  unfolding complete_with
  complete_with-Working item a none s h p t w = complete_waiters-Working item a s h p w
  complete_with-Working item a (some top) s h p t w =
      Ensures-modify _ s _ (
        insert_item-Working self input old limits top _ (t top refl) (counted self input old _ s w))

  pub complete-Working :
      (item : EarleyItem) (it : ItemOk self.compiled input (length old) item) (s : State)
      → it.rule.next ≡ none
      → Working self input old s
      → Ensures
          (λ _ s'. Working self input old s')
          (Stopped self input old)
          (complete self (length old) item s)
  unfolding complete
  complete-Working item it s done w =
      Ensures-step _ (dotted_found self input wf item s it.found)
        (elim (Bool-cases (it.rule.production == self.compiled.augmented_production)) [
          | inl final ↦ rw final (Ensures-pure tt s w)
          | inr other ↦
              let p =
                recognized self input wf it.rule (wf.rules item.dotted it.rule it.found) done
                  (λ e. ground arith) it.spans in
              let (top, e, t) = leo_top_found item it s p w in
              rw other
                (Ensures-step _ e (complete_with-Working item it.rule.lhs top s it.origin p t w))
        ])
