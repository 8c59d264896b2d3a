-- ===== src/Earley/Soundness/Invariant.antt =====
-- What holds of a recognizer between two calls, that `recognizer` establishes it, and that
-- `advance_byte` keeps it and can be undone.
use oc_earley.Prelude.{
  ℕ, suc, ◌+◌, ◌≤◌, ◌<◌, ◌≡◌, refl, sym, ap, ◌∙◌, inl, inr, Bool, true, some, List, [], ◌∷◌, ◌++◌,
  length, get_elem?, take, length-append, take-append_left, take-length, get_elem?-append_cases,
  All, All-append, u32_max, saturating_add, leb, leb→le, arith,
}
use oc_earley.Outcome.Rules.{
  Ensures, Ensures-weaken, Ensures-bind, Ensures-get, Ensures-modify, Ensures-last, Ensures-pure,
  Ensures-or_panic, Ensures-guard,
}
use oc_earley.Error.{RuntimeError, IsLimit}
use oc_earley.Grammar.Language.{Spans}
use oc_earley.Earley.Types.{ChartColumn, Setup, State, new_column}
use oc_earley.Earley.Recognizer.{
  finish_column_stats, is_live, fill_column, advance_byte, initial_state, start_recognizer,
  recognizer,
}
use oc_earley.Earley.WellFormed.{
  WellFormed, ColumnOk, ScanOk, LimitsOk, items_in, leo_in, Working, Stopped,
}
use oc_earley.Earley.Soundness.Inserting.{column_found, insert_item-Working}
use oc_earley.Earley.Soundness.Completing.{OldOk, counted}
use oc_earley.Earley.Soundness.Bytes.{sort_scans-ok, saturate-Scanning, scan_bytes-Scanning}

-- Every resource is within its limit, and the counters count what is in the chart.
pub record Bounded (self : Setup) (s : State) : Type 0 where
  pub position : s.byte_position ≤ self.limits.max_input_bytes
  pub word : s.byte_position ≤ u32_max
  pub columns : length s.chart ≤ self.limits.max_chart_columns
  pub items :
      (j : ℕ) (col : ChartColumn)
      → get_elem? s.chart j ≡ some col
      → length col.items ≤ self.limits.max_items_per_column
  pub total : s.total_items ≤ self.limits.max_total_items
  pub scans : length s.active_scans ≤ self.limits.max_active_scans
  pub leo : s.leo_items ≤ self.limits.max_leo_items
  pub counted : items_in s.chart ≡ s.total_items
  pub leo_counted : leo_in s.chart ≤ s.leo_items

-- The chart and the active scans say true things of the input read so far.
pub record Sound (self : Setup) (input : ℕ → ℕ) (s : State) : Type 0 where
  pub columns :
      (j : ℕ) (col : ChartColumn)
      → get_elem? s.chart j ≡ some col
      → ColumnOk self.compiled input j col
  pub one_more : length s.chart ≡ suc s.byte_position
  pub scans : All (ScanOk self.compiled input s.byte_position) s.active_scans
  pub bounded : Bounded self s

-- The chart of the first state begins the chart of the second.
pub record Extends (s t : State) : Type 0 where
  pub begins : take (length s.chart) t.chart ≡ s.chart
  pub longer : length s.chart ≤ length t.chart

-- A call that ends in an error has met a limit, and has only added to the chart.
abbrev pub Undoable : State → RuntimeError → State → Type 0
Undoable s e t = IsLimit e × Extends s t

Extends-snoc : (s t : State) (col : ChartColumn) → t.chart ≡ s.chart ++ col ∷ [] → Extends s t
Extends-snoc s t col e = record {
  begins = rw e (take-append_left s.chart (col ∷ []));
  longer = rw e (omega (arith, length-append s.chart (col ∷ [])));
}

pub Extends-refl : (s : State) → Extends s s
Extends-refl s = record { begins = take-length s.chart; longer = omega arith }

items_in-snoc :
    (old : List ChartColumn) (col : ChartColumn)
    → items_in (old ++ col ∷ []) ≡ items_in old + length col.items
unfolding items_in
items_in-snoc [] col = omega arith
items_in-snoc (c ∷ old) col = omega (arith, items_in-snoc old col)

leo_in-snoc :
    (old : List ChartColumn) (col : ChartColumn)
    → leo_in (old ++ col ∷ []) ≡ leo_in old + length col.leo_by_postdot
unfolding leo_in
leo_in-snoc [] col = omega arith
leo_in-snoc (c ∷ old) col = omega (arith, leo_in-snoc old col)

module _ (self : Setup) (input : ℕ → ℕ) (old : List ChartColumn) where
  -- A column that has been worked on, its statistics taken.
  finish_column_stats-Working :
      (s : State)
      → Working self input old s
      → Ensures
          (λ _ t.
            Working self input old t
            × (t.active_scans ≡ s.active_scans)
            × (t.byte_position ≡ s.byte_position))
          (Stopped self input old)
          (finish_column_stats self (length old) s)
  unfolding finish_column_stats
  finish_column_stats-Working s w = Ensures-get s _ (
      Ensures-or_panic _ s _ (column_found self input old s w)
        (Ensures-last _ s (counted self input old _ s w, refl, refl)))

  -- The older columns and the new one together.
  Sound-closed :
      ((j : ℕ) (col : ChartColumn)
        → get_elem? old j ≡ some col
        → ColumnOk self.compiled input j col
          × (length col.items ≤ self.limits.max_items_per_column))
      → (t : State) → Working self input old t
      → length old ≡ t.byte_position
      → t.byte_position ≤ self.limits.max_input_bytes
      → t.byte_position ≤ u32_max
      → length old < self.limits.max_chart_columns
      → All (ScanOk self.compiled input (length old)) t.active_scans
      → length t.active_scans ≤ self.limits.max_active_scans
      → Sound self input t
  Sound-closed olds t w here p q r scans fits =
      let both : (j : ℕ) (col : ChartColumn)
          → get_elem? t.chart j ≡ some col
          → ColumnOk self.compiled input j col
            × (length col.items ≤ self.limits.max_items_per_column) =
        λ j col e. elim (get_elem?-append_cases old w.col j (rw w.chart at e)) [
          | inl e' ↦ olds j col e'
          | inr (e', same) ↦ rw (e', ← same) (w.column_ok, w.size)
        ] in
      let count : length t.chart ≡ suc (length old) =
        rw w.chart (omega (arith, length-append old (w.col ∷ []))) in
      record {
        columns = λ j col e. (both j col e).0;
        one_more = count ∙ ap suc here;
        scans = rw (← here) scans;
        bounded = record {
          position = p;
          word = q;
          columns = omega (arith, count);
          items = λ j col e. (both j col e).1;
          total = w.total;
          scans = fits;
          leo = w.leo;
          counted = rw w.chart (items_in-snoc old w.col ∙ w.counted);
          leo_counted = rw w.chart (omega (arith, w.leo_counted, leo_in-snoc old w.col));
        };
      }

  -- An empty column behind the older ones.
  Working-new :
      (s : State) (position : ℕ)
      → s.chart ≡ old ++ new_column position ∷ []
      → position ≡ length old
      → s.total_items ≤ self.limits.max_total_items
      → s.leo_items ≤ self.limits.max_leo_items
      → items_in old ≡ s.total_items
      → leo_in old ≤ s.leo_items
      → s.byte_position ≤ length old
      → Working self input old s
  Working-new s position e here total leo counted leo_counted before = record {
    col = new_column position;
    chart = e;
    column_ok = record {
      position = here;
      items = tt;
      membership = tt;
      nonterminals = tt;
      terminals = tt;
      leo = tt;
    };
    size = omega arith;
    total = total;
    leo = leo;
    counted = omega (arith, counted);
    leo_counted = omega (arith, leo_counted);
    position = before;
  }

module _ (self : Setup) (input : ℕ → ℕ) (wf : WellFormed self.compiled)
    (limits : LimitsOk self.limits) where
  -- What `advance_byte` returns, and the state it leaves, when it succeeds.
  abbrev pub Advances : State → Bool → State → Type 0
  Advances s live t =
      Sound self input t
      × Extends s t
      × (t.byte_position ≡ suc s.byte_position)
      × (live ≡ is_live self t)

  fill_column-Advances :
      (s : State) (byte : ℕ) (s' : State)
      → input s.byte_position ≡ byte
      → Sound self input s
      → s.byte_position + 1 ≤ self.limits.max_input_bytes
      → s.byte_position + 1 ≤ u32_max
      → length s.chart < self.limits.max_chart_columns
      → Working self input s.chart s'
      → Ensures
          (Advances s)
          (Stopped self input s.chart)
          (fill_column self byte (s.byte_position + 1) (length s.chart) s.active_scans s')
  unfolding fill_column
  fill_column-Advances s byte s' here h p q r w =
      let olds : OldOk self input s.chart = h.columns in
      let next : s.byte_position + 1 ≡ suc s.byte_position = omega arith in
      Ensures-bind _
        (scan_bytes-Scanning self input s.chart wf limits olds byte s.byte_position here h.one_more
          s.active_scans [] s' h.scans (tt, w))
        λ continuing s₁ (c, w₁).
          Ensures-bind _ (saturate-Scanning self input s.chart wf limits olds s₁ w₁)
            λ created s₂ (n, w₂).
              let all_ok =
                sort_scans-ok self input s.chart wf limits olds (continuing ++ created)
                  (All-append _ continuing created c n) in
              Ensures-guard _ _ s₂ _
                (λ fits. Ensures-modify _ s₂ _ (
                  Ensures-bind _
                    (finish_column_stats-Working self input s.chart _ (record {
                      col = w₂.col;
                      chart = w₂.chart;
                      column_ok = w₂.column_ok;
                      size = w₂.size;
                      total = w₂.total;
                      counted = w₂.counted;
                      leo = w₂.leo;
                      leo_counted = w₂.leo_counted;
                      position = omega (arith, h.one_more);
                    }))
                    (λ _ t (w₃, scans, position). Ensures-get t _ (
                      Ensures-pure _ t (
                        Sound-closed self input s.chart
                            (λ j col e. (h.columns j col e, h.bounded.items j col e)) t w₃
                            (h.one_more ∙ sym next ∙ sym position) (rw position p) (rw position q) r
                            (rw scans all_ok) (rw scans (leb→le _ _ fits)),
                        Extends-snoc s t w₃.col w₃.chart,
                        position ∙ next,
                        refl,
                      )))))
                (λ _. record { is_limit = tt; col = w₂.col; chart = w₂.chart })

  pub advance_byte-Advances :
      (byte : ℕ) (s : State)
      → input s.byte_position ≡ byte
      → Sound self input s
      → Ensures (Advances s) (Undoable s) (advance_byte self byte s)
  unfolding advance_byte
  advance_byte-Advances byte s here h = Ensures-get s _ (
      Ensures-guard _ _ s _
        (λ p.
          Ensures-guard _ _ s _
            (λ q.
              Ensures-guard _ _ s _
                (λ r. Ensures-modify _ s _ (
                  Ensures-weaken (λ _ t a. a)
                    (λ e t x. (x.is_limit, Extends-snoc s t x.col x.chart))
                    (fill_column-Advances s byte _ here h
                      (leb→le (s.byte_position + 1) self.limits.max_input_bytes p)
                      (leb→le (s.byte_position + 1) u32_max r) (room q)
                      (Working-new self input s.chart _ (s.byte_position + 1) refl
                        (omega (arith, h.one_more)) h.bounded.total h.bounded.leo h.bounded.counted
                        h.bounded.leo_counted (omega (arith, h.one_more))))))
                (λ _. (tt, Extends-refl s)))
            (λ _. (tt, Extends-refl s)))
        (λ _. (tt, Extends-refl s)))
    where
      room :
          leb (saturating_add (length s.chart) 1) self.limits.max_chart_columns ≡ true
          → length s.chart < self.limits.max_chart_columns
      room q = omega (
        arith,
        leb→le (saturating_add (length s.chart) 1) self.limits.max_chart_columns q,
        limits.columns,
      )

  pub recognizer-Sound :
      Ensures
        (λ _ t. Sound self input t × (t.byte_position ≡ 0))
        (λ e _. IsLimit e)
        (recognizer self)
  unfolding recognizer start_recognizer items_in leo_in
  recognizer-Sound =
      let (d, found, (rule, at_rule, dot)) = wf.begin in
      let olds : OldOk self input [] = λ j col e. cc in
      let w₀ =
        Working-new self input [] initial_state 0 refl refl (omega arith) (omega arith) refl
          (omega arith) (omega arith) in
      Ensures-guard _ _ initial_state _
        (λ room. Ensures-or_panic _ initial_state _ found (
          Ensures-bind _
            (Ensures-weaken (λ _ t a. a) (λ e t x. x.is_limit)
              (insert_item-Working self input [] limits _ initial_state
                (record {
                  rule = rule;
                  found = at_rule;
                  origin = omega arith;
                  spans = rw dot Spans.stop;
                })
                w₀))
            λ _ s₁ w₁.
              Ensures-bind _
                (Ensures-weaken (λ _ t a. a) (λ e t x. x.is_limit)
                  (saturate-Scanning self input [] wf limits olds s₁ w₁))
                λ scans s₂ (n, w₂).
                  let begun : s₂.byte_position ≡ 0 = omega (arith, w₂.position) in
                  Ensures-guard _ _ s₂ _
                    (λ fits. Ensures-modify _ s₂ _ (
                      Ensures-weaken
                        (λ _ t (w₃, scans', position).
                          let at_0 : t.byte_position ≡ 0 = position ∙ begun in
                          (
                            Sound-closed self input [] (λ j col e. cc) t w₃ (sym at_0) (omega arith)
                                (omega arith) (leb→le _ _ room) (rw scans' n)
                                (rw scans' (leb→le _ _ fits)),
                            at_0,
                          ))
                        (λ e t x. x.is_limit)
                        (finish_column_stats-Working self input [] _ (record {
                          col = w₂.col;
                          chart = w₂.chart;
                          column_ok = w₂.column_ok;
                          size = w₂.size;
                          total = w₂.total;
                          counted = w₂.counted;
                          leo = w₂.leo;
                          leo_counted = w₂.leo_counted;
                          position = w₂.position;
                        }))))
                    (λ _. tt)))
        (λ _. tt)
