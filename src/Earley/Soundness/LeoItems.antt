-- ===== src/Earley/Soundness/LeoItems.antt =====
-- Leo's entries at the end of a column: each stands for the completions that it skips.
use mathlib.Core.Option.{some-injective}
use oc_earley.Prelude.{
  ℕ, ◌+◌, ◌<◌, ◌≡◌, ◌≢◌, refl, sym, ap, ◌∙◌, inl, inr, Bool-cases, none, some, Option-cases, List,
  [], ◌∷◌, length, get_elem?-eq_none, All, All-find, All-insert, All-keys, All-sort_by_key, keys,
  find, insert, arith, leb→le, ltb→lt, ==→eq, ◌==◌, ltb, checked_sum, length-insert,
}
use oc_earley.Outcome.{ok, bind, pure, or_panic}
use oc_earley.Outcome.Rules.{
  Ensures, Ensures-weaken, Ensures-step, Ensures-get, Ensures-modify, Ensures-last, Ensures-pure,
  Ensures-or_panic, Ensures-or_fail, Ensures-guard, Ensures-for_each,
}
use oc_earley.Grammar.Residual.{nonterminal}
use oc_earley.Grammar.Language.{Spans-nil}
use oc_earley.Earley.Types.{EarleyItem, ChartColumn, Setup, State}
use oc_earley.Earley.Leo.{
  leo_target, add_leo, leo_waiter, leo_waiters, leo_postdot, finish_leo_column,
}
use oc_earley.Earley.WellFormed.{WellFormed, Advanced, WaitsFor, LeoOk, LimitsOk, Working, Stopped}
use oc_earley.Earley.Soundness.Inserting.{column_found, written, stopped}
use oc_earley.Earley.Soundness.Completing.{
  OldOk, column_up_to, dotted_found, advance_item_found, moved, moved-Spans, recognized,
}

module _ (self : Setup) (input : ℕ → ℕ) (old : List ChartColumn) (wf : WellFormed self.compiled)
    (limits : LimitsOk self.limits) (olds : OldOk self input old) where
  -- The waiters stay as they are while the entries are made.
  abbrev Closing : List (ℕ × List EarleyItem) → State → Type 0
  Closing waiters s = (w : Working self input old s) × (w.col.waiting_nonterminal ≡ waiters)

  add_leo-Closing :
      (waiters : List (ℕ × List EarleyItem)) (postdot : ℕ) (target : EarleyItem) (s : State)
      → LeoOk self.compiled input (length old) postdot target
      → Closing waiters s
      → Ensures
          (λ _ s'. Closing waiters s')
          (Stopped self input old)
          (add_leo self (length old) postdot target s)
  unfolding add_leo
  add_leo-Closing waiters postdot target s h (w, same) = Ensures-get s _ (
      Ensures-or_fail _ _ s _
        (λ next_count e.
          Ensures-guard _ _ s _
            (λ within. Ensures-or_panic _ s _ (column_found self input old s w) (
              Ensures-modify _ s _ (
                Ensures-modify _ _ _ (
                  Ensures-last _ _ (
                    record {
                      col = record w.col {
                        leo_by_postdot = insert postdot target w.col.leo_by_postdot;
                      };
                      chart = written self input old s w _;
                      column_ok = record {
                        position = w.column_ok.position;
                        items = w.column_ok.items;
                        membership = w.column_ok.membership;
                        nonterminals = w.column_ok.nonterminals;
                        terminals = w.column_ok.terminals;
                        leo =
                            All-insert (LeoOk self.compiled input (length old)) postdot target
                              w.col.leo_by_postdot h w.column_ok.leo;
                      };
                      size = w.size;
                      total = w.total;
                      counted = w.counted;
                      leo = leb→le next_count self.limits.max_leo_items within;
                      leo_counted = omega (
                        arith,
                        w.leo_counted,
                        checked_sum s.leo_items 1 e,
                        length-insert postdot target w.col.leo_by_postdot,
                      );
                      position = w.position;
                    },
                    same,
                  )))))
            (λ _. stopped self input old s w refl tt))
        (λ _. stopped self input old s w refl tt))

  -- A waiter at its last symbol, whose rule began before this column, is not the augmented rule's.
  not_augmented :
      (waiter : EarleyItem) (postdot : ℕ)
      (w : WaitsFor self.compiled input (length old) (nonterminal postdot) waiter)
      → waiter.origin < length old
      → w.item_ok.rule.dot + 1
        ≡ length (wf.rules waiter.dotted w.item_ok.rule w.item_ok.found).body.rhs
      → w.item_ok.rule.production ≢ self.compiled.augmented_production
  not_augmented waiter postdot w before last e =
      let r = wf.rules waiter.dotted w.item_ok.rule w.item_ok.found in
      let only = wf.augmented r.body (rw e at r.found) in
      let first : w.item_ok.rule.dot ≡ 0 = omega (arith, last, ap length only) in
      let here = Spans-nil w.item_ok.spans (rw first) in absurd (omega arith)

  finished :
      (waiter : EarleyItem) {postdot : ℕ}
      (w : WaitsFor self.compiled input (length old) (nonterminal postdot) waiter)
      (a : Advanced self.compiled w.item_ok.rule)
      → w.item_ok.rule.dot + 1
        ≡ length (wf.rules waiter.dotted w.item_ok.rule w.item_ok.found).body.rhs
      → a.target.next ≡ none
  finished waiter w a last =
      let r = wf.rules waiter.dotted w.item_ok.rule w.item_ok.found in
      let t = wf.rules a.id a.target a.found in
      let same : t.body ≡ r.body =
        some-injective t.body r.body (sym t.found ∙ rw a.production r.found) in
      t.next ∙ rw same (get_elem?-eq_none r.body.rhs a.target.dot (omega (arith, a.dot, last)))

  leo_target_found :
      (waiter : EarleyItem) (postdot : ℕ) (s : State)
      (w : WaitsFor self.compiled input (length old) (nonterminal postdot) waiter)
      (a : Advanced self.compiled w.item_ok.rule)
      → w.item_ok.rule.dot + 1
        ≡ length (wf.rules waiter.dotted w.item_ok.rule w.item_ok.found).body.rhs
      → Working self input old s
      → (target : EarleyItem) × (leo_target self
            (length old)
            (record { dotted = a.id; origin = waiter.origin })
            a.target.lhs
            s
          ≡ ok target s)
        × LeoOk self.compiled input (length old) postdot target
  unfolding leo_target bind or_panic pure
  leo_target_found waiter postdot s w a last h =
      elim (Bool-cases (ltb waiter.origin (length old))) [
        | inr off ↦ (_, rw off, λ k p. (moved self input wf waiter w a p).0)
        | inl on ↦
            let before = ltb→lt waiter.origin (length old) on in
            let (col, e, c) = column_up_to self input old olds s h waiter.origin w.item_ok.origin in
            elim (Option-cases (find a.target.lhs col.leo_by_postdot)) [
              | inl q ↦
                  (_, rw (on, e, or_panic, bind, q), λ k p. (moved self input wf waiter w a p).0)
              | inr (top, q) ↦ (
                top,
                rw (on, e, or_panic, bind, q),
                λ k p.
                    All-find (LeoOk self.compiled input waiter.origin) a.target.lhs
                      col.leo_by_postdot c.leo q k
                      (recognized self input wf a.target (wf.rules a.id a.target a.found)
                        (finished waiter w a last)
                        (λ e'. not_augmented waiter postdot w before last (sym a.production ∙ e'))
                        (moved-Spans self input wf waiter w a p)),
              )
            ]
      ]

  leo_waiter-Closing :
      (waiters : List (ℕ × List EarleyItem)) (postdot : ℕ) (waiter : EarleyItem) (s : State)
      → WaitsFor self.compiled input (length old) (nonterminal postdot) waiter
      → Closing waiters s
      → Ensures
          (λ _ s'. Closing waiters s')
          (Stopped self input old)
          (leo_waiter self (length old) postdot waiter s)
  unfolding leo_waiter
  leo_waiter-Closing waiters postdot waiter s w h =
      let it = w.item_ok in
      let r = wf.rules waiter.dotted it.rule it.found in
      let a = r.moves _ w.next in
      Ensures-step _ (dotted_found self input wf waiter s it.found) (
        Ensures-or_panic _ s _ r.found (elim (Bool-cases (it.rule.dot + 1 == length r.body.rhs)) [
          | inr more ↦ rw more (Ensures-pure tt s h)
          | inl last ↦
              let (target, e, t) =
                leo_target_found waiter postdot s w a (==→eq _ (length r.body.rhs) last) h.0 in
              rw last (
                Ensures-step _ (advance_item_found self input wf waiter s a.id it.found a.advanced)
                  (Ensures-step _ (dotted_found self input wf _ s a.found)
                    (Ensures-step _ e (add_leo-Closing waiters postdot target s t h))))
        ]))

  leo_waiters-Closing :
      (waiters : List (ℕ × List EarleyItem)) (postdot : ℕ) (items : List EarleyItem) (s : State)
      → All (WaitsFor self.compiled input (length old) (nonterminal postdot)) items
      → Closing waiters s
      → Ensures
          (λ _ s'. Closing waiters s')
          (Stopped self input old)
          (leo_waiters self (length old) postdot items s)
  unfolding leo_waiters
  leo_waiters-Closing waiters postdot [] s w h = Ensures-pure tt s h
  leo_waiters-Closing waiters postdot (item ∷ []) s w h =
      leo_waiter-Closing waiters postdot item s w.0 h
  leo_waiters-Closing waiters postdot (item ∷ item' ∷ items) s w h = Ensures-pure tt s h

  leo_postdot-Closing :
      (waiters : List (ℕ × List EarleyItem)) (postdot : ℕ) (s : State)
      → (items : List EarleyItem) × (find postdot waiters ≡ some items)
      → Closing waiters s
      → Ensures
          (λ _ s'. Closing waiters s')
          (Stopped self input old)
          (leo_postdot self (length old) postdot s)
  unfolding leo_postdot
  leo_postdot-Closing waiters postdot s (items, e) (w, same) =
      Ensures-or_panic _ s _ (column_found self input old s w) (
        Ensures-or_panic _ s _ (ap (find postdot) same ∙ e) (
          leo_waiters-Closing waiters postdot items s
            (All-find (λ i ws. All (WaitsFor self.compiled input (length old) (nonterminal i)) ws)
              postdot w.col.waiting_nonterminal w.column_ok.nonterminals
              (ap (find postdot) same ∙ e))
            (w, same)))

  pub finish_leo_column-Working :
      (s : State)
      → Working self input old s
      → Ensures
          (λ _ s'. Working self input old s')
          (Stopped self input old)
          (finish_leo_column self (length old) s)
  unfolding finish_leo_column
  finish_leo_column-Working s w =
      let waiters = w.col.waiting_nonterminal in
      Ensures-or_panic _ s _ (column_found self input old s w) (
        Ensures-weaken (λ _ s' h. h.0) (λ e s' h. h)
          (Ensures-for_each (Closing waiters)
            (λ k. (items : List EarleyItem) × (find k waiters ≡ some items)) _ _
            (λ k s' found h. leo_postdot-Closing waiters k s' found h)
            (All-sort_by_key (λ k. k ∷ []) _ (keys waiters) (All-keys waiters)) s (w, refl)))
