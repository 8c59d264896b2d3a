-- ===== src/Earley/Soundness/Inserting.antt =====
-- `insert_item`, `advance_item` and the loop over waiters.
use oc_earley.Prelude.{
  ℕ, ◌≤◌, ◌≡◌, refl, ◌∙◌, inl, inr, true, Bool-cases, some, List, [], ◌∷◌, ◌++◌, length, get_elem?,
  set, length-append, get_elem?-append_last, set-append_last, All-append, contains, arith, leb,
  leb→le, saturating_add, checked_sum,
}
use oc_earley.Outcome.Rules.{
  Ensures, Ensures-get, Ensures-modify, Ensures-last, Ensures-guard, Ensures-or_fail,
  Ensures-or_panic,
}
use oc_earley.Error.{RuntimeError, IsLimit}
use oc_earley.Earley.Types.{EarleyItem, ChartColumn, Setup, State}
use oc_earley.Earley.Chart.{item_key, insert_new, insert_item}
use oc_earley.Earley.WellFormed.{ItemOk, LimitsOk, Working, Stopped}

module _ (self : Setup) (input : ℕ → ℕ) (old : List ChartColumn) where
  pub column_found :
      (s : State) (w : Working self input old s) → get_elem? s.chart (length old) ≡ some w.col
  column_found s w = rw w.chart (get_elem?-append_last old w.col)

  -- A write to the column that is worked on.
  pub written :
      (s : State) (w : Working self input old s) (col : ChartColumn)
      → set s.chart (length old) col ≡ old ++ col ∷ []
  written s w col = rw w.chart (set-append_last old w.col col)

  pub stopped :
      (s : State) {t : State} {e : RuntimeError} (w : Working self input old s)
      → t.chart ≡ s.chart
      → IsLimit e
      → Stopped self input old e t
  stopped s w p h = record { is_limit = h; col = w.col; chart = p ∙ w.chart }

  module _ (limits : LimitsOk self.limits) where
    room_left :
        (items : List EarleyItem) (item : EarleyItem)
        → leb (saturating_add (length items) 1) self.limits.max_items_per_column ≡ true
        → length (items ++ item ∷ []) ≤ self.limits.max_items_per_column
    room_left items item h = omega (
      arith,
      leb→le (saturating_add (length items) 1) self.limits.max_items_per_column h,
      length-append items (item ∷ []),
      limits.items,
    )

    insert_new-Working :
        (item : EarleyItem) (s : State)
        → ItemOk self.compiled input (length old) item
        → Working self input old s
        → Ensures
            (λ _ s'. Working self input old s')
            (Stopped self input old)
            (insert_new self (length old) item s)
    unfolding insert_new
    insert_new-Working item s h w = Ensures-or_panic _ s _ (column_found s w) (
        Ensures-guard _ _ s _
          (λ room. Ensures-get s _ (
            Ensures-or_fail _ _ s _
              (λ total fresh.
                Ensures-guard _ _ s _
                  (λ within. Ensures-modify _ s _ (
                    Ensures-modify _ _ _ (
                      Ensures-last _ _ (record {
                        col = record w.col { items = w.col.items ++ item ∷ [] };
                        chart = written s w _;
                        column_ok = record {
                          position = w.column_ok.position;
                          items = All-append _ w.col.items _ w.column_ok.items (h, tt);
                          membership = w.column_ok.membership;
                          nonterminals = w.column_ok.nonterminals;
                          terminals = w.column_ok.terminals;
                          leo = w.column_ok.leo;
                        };
                        size = room_left w.col.items item room;
                        total = leb→le total self.limits.max_total_items within;
                        counted = omega (
                          arith,
                          w.counted,
                          checked_sum s.total_items 1 fresh,
                          length-append w.col.items (item ∷ []),
                        );
                        leo = w.leo;
                        leo_counted = w.leo_counted;
                        position = w.position;
                      }))))
                  (λ _. stopped s w refl tt))
              (λ _. stopped s w refl tt)))
          (λ _. stopped s w refl tt))

    pub insert_item-Working :
        (item : EarleyItem) (s : State)
        → ItemOk self.compiled input (length old) item
        → Working self input old s
        → Ensures
            (λ _ s'. Working self input old s')
            (Stopped self input old)
            (insert_item self (length old) item s)
    unfolding insert_item
    insert_item-Working item s h w =
        Ensures-or_panic _ s _ (column_found s w)
          (elim (Bool-cases (contains (item_key item) w.col.membership)) [
            | inl seen ↦ rw seen (
                Ensures-last _ s (record {
                  col = w.col;
                  chart = w.chart;
                  column_ok = w.column_ok;
                  size = w.size;
                  total = w.total;
                  counted = w.counted;
                  leo = w.leo;
                  leo_counted = w.leo_counted;
                  position = w.position;
                }))
            | inr new ↦ rw new (
                Ensures-modify _ s _ (
                  insert_new-Working item _ h (record {
                    col = record w.col { membership = item_key item ∷ w.col.membership };
                    chart = written s w _;
                    column_ok = record {
                      position = w.column_ok.position;
                      items = w.column_ok.items;
                      membership = (
                        record { item = item; same = refl; item_ok = h },
                        w.column_ok.membership,
                      );
                      nonterminals = w.column_ok.nonterminals;
                      terminals = w.column_ok.terminals;
                      leo = w.column_ok.leo;
                    };
                    size = w.size;
                    total = w.total;
                    counted = w.counted;
                    leo = w.leo;
                    leo_counted = w.leo_counted;
                    position = w.position;
                  })))
          ])
