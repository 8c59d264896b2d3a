-- ===== src/Earley/Acceptance.antt =====
-- src/earley.rs, `is_accepting`: what is accepted belongs to the language of the grammar.
use mathlib.Core.Option.{some-injective}
use oc_earley.Prelude.{
  ℕ, ◌≤◌, ◌≡◌, sym, subst, ◌∙◌, inl, inr, true, some, Option-cases, List, [], ◌∷◌, get_elem?,
  get_last?, All-contains, contains, get_last?-get_elem?, arith, ◌++◌, ◌⊎◌, false, Bool-cases,
  append-nil, append_assoc,
}
use oc_earley.Outcome.{Outcome, ◌>>◌, pure, bind, for_each}
use oc_earley.Outcome.Rules.{Ensures, Ensures-weaken, Ensures-bind, Ensures-pure}
use oc_earley.Error.{RuntimeError, IsLimit}
use oc_earley.Grammar.Residual.{nonterminal}
use oc_earley.Grammar.Language.{Derives, Spans}
use oc_earley.Grammar.Language.Segments.{input_of, between, Derives-between, between-input_of}
use oc_earley.Earley.Types.{DottedRule, EarleyProduction, ChartColumn, Setup, State}
use oc_earley.Earley.Recognizer.{is_accepting, accepting_key, advance_byte, recognizer}
use oc_earley.Earley.WellFormed.{WellFormed, LimitsOk, KeyOk, before_dot, rhs_of}
use oc_earley.Earley.Soundness.Invariant.{Bounded}
use oc_earley.Earley.Reading.{
  HasRead, Agrees-input_of, HasRead-Bounded, recognizer-HasRead, advance_byte-HasRead,
}

module _ (self : Setup) (wf : WellFormed self.compiled) where
  body_of :
      (rule : DottedRule)
      → get_elem? self.compiled.dotted self.compiled.augmented_complete ≡ some rule
      → rule.production ≡ self.compiled.augmented_production
      → (body : EarleyProduction) × (get_elem? self.compiled.productions
            self.compiled.augmented_production
          ≡ some body)
  body_of rule found e =
      let ok = wf.rules self.compiled.augmented_complete rule found in (ok.body, rw (← e) ok.found)

  -- The completed augmented rule recognizes the start symbol.
  accepting_item :
      (input : ℕ → ℕ) (j : ℕ)
      → j ≤ 4294967295
      → KeyOk self.compiled input j (accepting_key self)
      → Spans self.compiled.grammar input (nonterminal self.compiled.grammar.start ∷ []) 0 j
  accepting_item input j small k =
      let (rule, found, augmented, dot) = wf.complete in
      let it = k.item_ok in
      let id : k.item.dotted ≡ self.compiled.augmented_complete =
        omega (arith, k.same, it.origin) in
      let origin : k.item.origin ≡ 0 = omega (arith, k.same, it.origin) in
      let same : it.rule ≡ rule = some-injective it.rule rule (sym it.found ∙ rw id found) in
      let (body, at_body) = body_of rule found augmented in
      let rhs : rhs_of self.compiled rule.production
          ≡ nonterminal self.compiled.grammar.start ∷ [] =
        rw augmented (rw (rhs_of, at_body) (wf.augmented body at_body)) in
      let before : before_dot self.compiled it.rule ≡ nonterminal self.compiled.grammar.start ∷ [] =
        rw (same, dot, rhs) in
      let spans : Spans self.compiled.grammar input (before_dot self.compiled it.rule) 0 j =
        subst (λ i. Spans self.compiled.grammar input (before_dot self.compiled it.rule) i j) origin
          it.spans in
      subst (λ xs. Spans self.compiled.grammar input xs 0 j) before spans

  accepting_column :
      (s : State)
      → is_accepting self s ≡ true
      → (col : ChartColumn) × (get_last? s.chart ≡ some col)
        × (contains (accepting_key self) col.membership ≡ true)
  unfolding is_accepting
  accepting_column s h = elim (Option-cases (get_last? s.chart)) [
    | inl e ↦ cc (rw (e, is_accepting) at h)
    | inr (col, e) ↦ (col, e, rw (e, is_accepting) at h)
  ]

  -- If a recognizer that has read some bytes accepts, the grammar derives them from its start symbol.
  pub is_accepting-Derives :
      (bytes : List ℕ) (s : State)
      → HasRead self bytes s
      → is_accepting self s ≡ true
      → Derives self.compiled.grammar (nonterminal self.compiled.grammar.start ∷ []) bytes
  is_accepting-Derives bytes s h accepts =
      let sound = h.sound (input_of bytes) (Agrees-input_of bytes) in
      let (col, last, member) = accepting_column s accepts in
      let at_last = get_last?-get_elem? s.chart sound.one_more last in
      let column_ok = sound.columns s.byte_position col at_last in
      let key =
        All-contains (KeyOk self.compiled (input_of bytes) s.byte_position) (accepting_key self)
          col.membership column_ok.membership member in
      let found = accepting_item (input_of bytes) s.byte_position sound.bounded.word key in
      let whole : between (input_of bytes) 0 s.byte_position ≡ bytes =
        rw h.position (between-input_of bytes) in
      subst (Derives self.compiled.grammar (nonterminal self.compiled.grammar.start ∷ [])) whole
        (Derives-between found)

-- A recognizer made and given some bytes one by one.
abbrev pub read_all : Setup → List ℕ → Outcome RuntimeError State (Unit {0})
read_all self bytes =
    bind (recognizer self) λ _. for_each bytes λ byte. do advance_byte self byte; pure tt

module _ (self : Setup) (wf : WellFormed self.compiled) (limits : LimitsOk self.limits) where
  read_on :
      (done bytes : List ℕ) (s : State)
      → HasRead self done s
      → Ensures
          (λ _ t. HasRead self (done ++ bytes) t)
          (λ e _. IsLimit e)
          (for_each bytes (λ byte. do advance_byte self byte; pure tt) s)
  unfolding for_each
  read_on done [] s h = Ensures-pure tt s (rw (append-nil done) h)
  read_on done (byte ∷ bytes) s h =
      Ensures-bind _
        (Ensures-bind {P' = λ _ t. HasRead self (done ++ byte ∷ []) t} _
          (Ensures-weaken (λ live t (read, longer, alive). read) (λ e t (limit, longer). limit)
            (advance_byte-HasRead self wf limits done s byte h))
          (λ live t read. Ensures-pure tt t read))
        λ _ t read.
          subst
            (λ whole.
              Ensures (λ _ u. HasRead self whole u) (λ e _. IsLimit e)
                (for_each bytes (λ byte. do advance_byte self byte; pure tt) t))
            (append_assoc done (byte ∷ []) bytes) (read_on (done ++ byte ∷ []) bytes t read)

  -- Making a recognizer and reading any bytes with it ends, without a panic. It fails only at a
  -- limit. Otherwise the recognizer is within every limit, with counters of items and of Leo's entries
  -- that hold of its chart, and it does not accept or the grammar derives the bytes from its start
  -- symbol.
  pub read_all-Derives :
      (bytes : List ℕ)
      → Ensures
          (λ _ t.
            Bounded self t
            × ((is_accepting self t ≡ false)
                ⊎ Derives self.compiled.grammar
                    (nonterminal self.compiled.grammar.start ∷ [])
                    bytes))
          (λ e _. IsLimit e)
          (read_all self bytes)
  read_all-Derives bytes = Ensures-bind _ (recognizer-HasRead self wf limits) λ _ s begun.
      Ensures-weaken
        (λ _ t read. (
          HasRead-Bounded self wf limits bytes t read,
          elim (Bool-cases (is_accepting self t)) [
            | inl q ↦ inr (is_accepting-Derives self wf bytes t read q)
            | inr q ↦ inl q
          ],
        ))
        (λ e t limit. limit) (read_on [] bytes s begun)
