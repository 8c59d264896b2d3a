-- ===== src/Earley/Soundness/Bytes.antt =====
-- Between two bytes: what holds of a recognizer's state, and that `advance_byte` keeps it.
use oc_earley.Prelude.{
  ℕ, suc, ◌≤◌, ◌≡◌, inl, inr, Bool, true, false, some, Option-cases, List, [], ◌∷◌, ◌++◌, length,
  get_elem?, All, All-append, All-or_default, All-sort_by_key, All-dedup_by_key, arith,
  if◌then◌else◌,
}
use oc_earley.Outcome.{pure}
use oc_earley.Outcome.Rules.{
  Ensures, Ensures-bind, Ensures-modify, Ensures-pure, Ensures-or_panic, Ensures-if,
  Ensures-for_each,
}
use oc_earley.Grammar.Residual.{terminal}
use oc_earley.Grammar.Terminal.{CompiledTerminal, TerminalCursorState, advance}
use oc_earley.Grammar.Terminal
use oc_earley.Grammar.Language.{Spans, Runs}
use oc_earley.Earley.Types.{ChartColumn, ActiveScan, Setup, State, scan_key}
use oc_earley.Earley.Leo.{finish_leo_column, saturate, sort_scans}
use oc_earley.Earley.Recognizer.{accept_scan, scan_moved, scan_byte, scan_bytes}
use oc_earley.Earley.WellFormed.{WellFormed, WaitsFor, ScanOk, LimitsOk, Working, Stopped}
use oc_earley.Earley.Soundness.Completing.{OldOk, column_up_to, counted, advance_into-Working}
use oc_earley.Earley.Soundness.Saturating.{saturate_loop-Looping}
use oc_earley.Earley.Soundness.LeoItems.{finish_leo_column-Working}

module _ (self : Setup) (input : ℕ → ℕ) (old : List ChartColumn) (wf : WellFormed self.compiled)
    (limits : LimitsOk self.limits) (olds : OldOk self input old) where
  abbrev pub Scanning : List ActiveScan → State → Type 0
  Scanning scans s = All (ScanOk self.compiled input (length old)) scans × Working self input old s

  pub sort_scans-ok :
      (scans : List ActiveScan)
      → All (ScanOk self.compiled input (length old)) scans
      → All (ScanOk self.compiled input (length old)) (sort_scans scans)
  sort_scans-ok scans h = All-dedup_by_key scan_key _ _ (All-sort_by_key scan_key _ scans h)

  pub saturate-Scanning :
      (s : State)
      → Working self input old s
      → Ensures Scanning (Stopped self input old) (saturate self (length old) s)
  unfolding saturate
  saturate-Scanning s w =
      Ensures-bind _
        (saturate_loop-Looping self input old wf limits olds _ 0 [] s (omega arith) (omega arith)
          (tt, w))
        (λ scans s' (h, w').
          Ensures-bind _
            (Ensures-if self.leo_enabled (finish_leo_column self (length old)) (pure tt) s'
              (λ _. finish_leo_column-Working self input old wf limits olds s' w')
              (λ _. Ensures-pure tt s' w'))
            (λ _ s'' w''. Ensures-pure _ s'' (sort_scans-ok scans h, w'')))

  accept_scan-Working :
      (scan : ActiveScan) {term : CompiledTerminal} {cursor : TerminalCursorState}
      → get_elem? self.compiled.grammar.terminals scan.terminal ≡ some term
      → scan.start ≤ length old
      → Runs input term scan.start (length old) cursor
      → (s : State) → Terminal.is_accepting term cursor ≡ true
      → Working self input old s
      → Ensures
          (λ _ s'. Working self input old s')
          (Stopped self input old)
          (accept_scan self (length old) scan s)
  unfolding accept_scan
  accept_scan-Working scan found before runs s final w =
      let (col, e, c) = column_up_to self input old olds s w scan.start before in
      let p = Spans.read found runs final Spans.stop in
      Ensures-or_panic _ s _ e (
        Ensures-for_each (Working self input old)
          (WaitsFor self.compiled input scan.start (terminal scan.terminal)) _ _
          (λ waiter s' h w'. advance_into-Working self input old wf limits waiter s' h p w')
          (All-or_default (λ i. WaitsFor self.compiled input scan.start (terminal i)) scan.terminal
            col.waiting_terminal c.terminals)
          s w)

  -- A scan of the column before, whose cursor moves on over the byte.
  scan_moved-Scanning :
      (scan : ActiveScan) (term : CompiledTerminal) (cursor : TerminalCursorState) (s : State)
      → get_elem? self.compiled.grammar.terminals scan.terminal ≡ some term
      → scan.start ≤ length old
      → Runs input term scan.start (length old) cursor
      → Working self input old s
      → Ensures Scanning (Stopped self input old) (scan_moved self (length old) scan term cursor s)
  unfolding scan_moved
  scan_moved-Scanning scan term cursor s found before runs w =
      let moved : ActiveScan = record scan { cursor = cursor } in
      let moved_ok : ScanOk self.compiled input (length old) moved = record {
        term = term;
        found = found;
        start = before;
        runs = runs;
      } in
      Ensures-modify _ s _ (
        Ensures-bind _
          (Ensures-if (Terminal.is_accepting term cursor) (accept_scan self (length old) scan)
            (pure tt) _
            (λ final.
              accept_scan-Working scan found before runs _ final (counted self input old _ s w))
            (λ _. Ensures-pure tt _ (counted self input old _ s w)))
          (λ _ s' w'. Ensures-pure _ s' (if_ok (Terminal.is_live term cursor) moved moved_ok, w')))
    where
      if_ok :
          (b : Bool) (m : ActiveScan)
          → ScanOk self.compiled input (length old) m
          → All (ScanOk self.compiled input (length old)) (if b then m ∷ [] else [])
      if_ok true m h = (h, tt)
      if_ok false m h = tt

  module _ (byte k : ℕ) (here : input k ≡ byte) (next : length old ≡ suc k) where
    scan_byte-Scanning :
        (scan : ActiveScan) (s : State)
        → ScanOk self.compiled input k scan
        → Working self input old s
        → Ensures Scanning (Stopped self input old) (scan_byte self (length old) byte scan s)
    unfolding scan_byte
    scan_byte-Scanning scan s h w =
        Ensures-or_panic _ s _ h.found (elim (Option-cases (advance h.term scan.cursor byte)) [
          | inl e ↦ rw e (Ensures-pure [] s (tt, w))
          | inr (cursor, e) ↦ rw e (
              scan_moved-Scanning scan h.term cursor s h.found (omega (arith, h.start))
                (rw next (Runs.next h.runs (rw here e))) w)
        ])

    pub scan_bytes-Scanning :
        (scans continuing : List ActiveScan) (s : State)
        → All (ScanOk self.compiled input k) scans
        → Scanning continuing s
        → Ensures Scanning
            (Stopped self input old)
            (scan_bytes self (length old) byte scans continuing s)
    unfolding scan_bytes
    scan_bytes-Scanning [] continuing s h w = Ensures-pure continuing s w
    scan_bytes-Scanning (scan ∷ scans) continuing s (h, hs) (c, w) =
        Ensures-bind _ (scan_byte-Scanning scan s h w) (λ kept s' (new, w').
          scan_bytes-Scanning scans (continuing ++ kept) s' hs
            (All-append _ continuing kept c new, w'))
