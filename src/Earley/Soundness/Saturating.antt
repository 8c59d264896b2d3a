-- ===== src/Earley/Soundness/Saturating.antt =====
-- Prediction, the nullable closure, and the loop over a column's items.
use oc_earley.Prelude.{
  ℕ, zero, suc, ◌+◌, ◌≤◌, ◌<◌, ◌≡◌, refl, sym, ap, ◌∙◌, inl, inr, Bool-cases, Option, none, some,
  Option-cases, List, length, get_elem?, lt_of_get_elem?, All, All-append, All-push, All-get_elem?,
  push, arith,
}
use oc_earley.Outcome.Rules.{
  Ensures, Ensures-bind, Ensures-step, Ensures-modify, Ensures-pure, Ensures-or_panic,
  Ensures-for_each,
}
use oc_earley.Grammar.Residual.{Symbol, nonterminal, terminal}
use oc_earley.Grammar.Language.{Spans, Spans-of_Vanishes, Runs}
use oc_earley.Earley.Types.{EarleyItem, ChartColumn, ActiveScan, Setup, State}
use oc_earley.Earley.Chart.{
  predict, skip_nullable, at_nonterminal, at_terminal, process_next, process, saturate_loop,
}
use oc_earley.Earley.WellFormed.{
  WellFormed, ItemOk, WaitsFor, IsStart, SymbolOk, ScanOk, LimitsOk, Working, Stopped,
}
use oc_earley.Earley.Soundness.Inserting.{insert_item-Working, column_found, written}
use oc_earley.Earley.Soundness.Completing.{
  OldOk, counted, dotted_found, advance_into-Working, complete-Working,
}

module _ (self : Setup) (input : ℕ → ℕ) (old : List ChartColumn) (wf : WellFormed self.compiled)
    (limits : LimitsOk self.limits) where
  -- The symbol behind the dot of an item has its entries in the tables.
  next_SymbolOk :
      {j : ℕ} {x : Symbol} (item : EarleyItem)
      → WaitsFor self.compiled input j x item
      → SymbolOk self.compiled x
  next_SymbolOk {x = x} item w =
      let it = w.item_ok in
      let r = wf.rules item.dotted it.rule it.found in
      wf.symbols it.rule.production it.rule.dot r.body x r.found (sym r.next ∙ w.next)

  start_ok :
      (d position : ℕ)
      → IsStart self.compiled d
      → position ≡ length old
      → ItemOk self.compiled input (length old) (record { dotted = d; origin = position })
  start_ok d position (rule, found, dot) e = record {
    rule = rule;
    found = found;
    origin = omega arith;
    spans = rw (dot, e) Spans.stop;
  }

  predict-Working :
      (starts : List ℕ) (s : State)
      → All (IsStart self.compiled) starts
      → Working self input old s
      → Ensures
          (λ _ s'. Working self input old s')
          (Stopped self input old)
          (predict self (length old) starts s)
  unfolding predict
  predict-Working starts s h w =
      Ensures-for_each (Working self input old) (IsStart self.compiled) _ starts
        (λ start s h w. Ensures-modify _ s _ (
          Ensures-or_panic _ _ _ (column_found self input old s w) (
            insert_item-Working self input old limits _ _
              (start_ok start w.col.position h w.column_ok.position)
              (counted self input old _ s w))))
        h s w

  skip_nullable-Working :
      (item : EarleyItem) (a : ℕ) (s : State)
      → WaitsFor self.compiled input (length old) (nonterminal a) item
      → Working self input old s
      → Ensures
          (λ _ s'. Working self input old s')
          (Stopped self input old)
          (skip_nullable self (length old) item a s)
  unfolding skip_nullable
  skip_nullable-Working item a s h w =
      let (b, e) = (next_SymbolOk item h).1 in
      Ensures-or_panic _ s _ e (elim (Bool-cases b) [
        | inl q ↦ rw q (
            Ensures-modify _ s _ (
              advance_into-Working self input old wf limits item _ h
                (Spans-of_Vanishes (length old) (wf.nullable a (e ∙ ap some q)))
                (counted self input old _ s w)))
        | inr q ↦ rw q (Ensures-pure tt s w)
      ])

  at_nonterminal-Working :
      (item : EarleyItem) (a : ℕ) (s : State)
      → WaitsFor self.compiled input (length old) (nonterminal a) item
      → Working self input old s
      → Ensures
          (λ _ s'. Working self input old s')
          (Stopped self input old)
          (at_nonterminal self (length old) item a s)
  unfolding at_nonterminal
  at_nonterminal-Working item a s h w =
      let (starts, e) = (next_SymbolOk item h).0 in
      Ensures-or_panic _ s _ (column_found self input old s w) (
        Ensures-modify _ s _ (
          Ensures-or_panic _ _ _ e (
            Ensures-bind _
              (predict-Working starts _ (wf.starts a starts e) (record {
                col = record w.col { waiting_nonterminal = push a item w.col.waiting_nonterminal };
                chart = written self input old s w _;
                column_ok = record {
                  position = w.column_ok.position;
                  items = w.column_ok.items;
                  membership = w.column_ok.membership;
                  nonterminals =
                      All-push (λ i. WaitsFor self.compiled input (length old) (nonterminal i)) a
                        item w.col.waiting_nonterminal h w.column_ok.nonterminals;
                  terminals = w.column_ok.terminals;
                  leo = w.column_ok.leo;
                };
                size = w.size;
                total = w.total;
                counted = w.counted;
                leo = w.leo;
                leo_counted = w.leo_counted;
                position = w.position;
              }))
              (λ _ s' w'. skip_nullable-Working item a s' h w'))))

  -- A new scan begins at this column.
  at_terminal-Working :
      (item : EarleyItem) (t : ℕ) (s : State)
      → WaitsFor self.compiled input (length old) (terminal t) item
      → Working self input old s
      → Ensures
          (λ scan s'. ScanOk self.compiled input (length old) scan × Working self input old s')
          (Stopped self input old)
          (at_terminal self (length old) item t s)
  unfolding at_terminal
  at_terminal-Working item t s h w =
      let (term, e) = next_SymbolOk item h in
      Ensures-or_panic _ s _ (column_found self input old s w) (
        Ensures-modify _ s _ (
          Ensures-or_panic _ _ _ e (
            Ensures-pure _ _ (
              record {
                term = term;
                found = e;
                start = omega (arith, w.column_ok.position);
                runs = rw w.column_ok.position Runs.begin;
              },
              record {
                col = record w.col { waiting_terminal = push t item w.col.waiting_terminal };
                chart = written self input old s w _;
                column_ok = record {
                  position = w.column_ok.position;
                  items = w.column_ok.items;
                  membership = w.column_ok.membership;
                  nonterminals = w.column_ok.nonterminals;
                  terminals =
                      All-push (λ i. WaitsFor self.compiled input (length old) (terminal i)) t item
                        w.col.waiting_terminal h w.column_ok.terminals;
                  leo = w.column_ok.leo;
                };
                size = w.size;
                total = w.total;
                counted = w.counted;
                leo = w.leo;
                leo_counted = w.leo_counted;
                position = w.position;
              },
            ))))

module _ (self : Setup) (input : ℕ → ℕ) (old : List ChartColumn) (wf : WellFormed self.compiled)
    (limits : LimitsOk self.limits) (olds : OldOk self input old) where
  -- What the loop over the items keeps.
  abbrev Looping : List ActiveScan → State → Type 0
  Looping scans s = All (ScanOk self.compiled input (length old)) scans × Working self input old s

  process_next-Looping :
      (item : EarleyItem) (it : ItemOk self.compiled input (length old) item)
      (scans : List ActiveScan) (next : Option Symbol) (s : State)
      → it.rule.next ≡ next
      → Looping scans s
      → Ensures Looping (Stopped self input old) (process_next self (length old) item scans next s)
  unfolding process_next
  process_next-Looping item it scans none s e (h, w) =
      Ensures-bind _ (complete-Working self input old wf limits olds item it s e w)
        (λ _ s' w'. Ensures-pure scans s' (h, w'))
  process_next-Looping item it scans (some (nonterminal a)) s e (h, w) =
      Ensures-bind _
        (at_nonterminal-Working self input old wf limits item a s
          (record { item_ok = it; next = e }) w)
        (λ _ s' w'. Ensures-pure scans s' (h, w'))
  process_next-Looping item it scans (some (terminal t)) s e (h, w) =
      Ensures-bind _
        (at_terminal-Working self input old wf limits item t s (record { item_ok = it; next = e })
          w)
        (λ scan s' (new, w'). Ensures-pure _ s' (All-append _ scans _ h (new, tt), w'))

  process-Looping :
      (item : EarleyItem) (scans : List ActiveScan) (s : State)
      → ItemOk self.compiled input (length old) item
      → Looping scans s
      → Ensures Looping (Stopped self input old) (process self (length old) item scans s)
  unfolding process
  process-Looping item scans s it h =
      Ensures-step _ (dotted_found self input wf item s it.found)
        (process_next-Looping item it scans it.rule.next s refl h)

  -- One unit of fuel for each item that the column can hold, and one more, is enough.
  pub saturate_loop-Looping :
      (fuel agenda : ℕ) (scans : List ActiveScan) (s : State)
      → agenda ≤ self.limits.max_items_per_column
      → self.limits.max_items_per_column < fuel + agenda
      → Looping scans s
      → Ensures Looping
          (Stopped self input old)
          (saturate_loop self fuel (length old) agenda scans s)
  unfolding saturate_loop
  saturate_loop-Looping zero agenda scans s p q h = absurd (omega arith)
  saturate_loop-Looping (suc fuel) agenda scans s p q (h, w) =
      Ensures-or_panic _ s _ (column_found self input old s w)
        (elim (Option-cases (get_elem? w.col.items agenda)) [
          | inl e ↦ rw e (Ensures-pure scans s (h, w))
          | inr (item, e) ↦ rw e (
              Ensures-bind _
                (process-Looping item scans s
                  (All-get_elem? _ w.col.items agenda w.column_ok.items e) (h, w))
                (λ scans' s' h'.
                  saturate_loop-Looping fuel (suc agenda) scans' s'
                    (omega (arith, lt_of_get_elem? w.col.items agenda e, w.size)) (omega arith) h'))
        ])
