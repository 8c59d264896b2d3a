-- ===== src/Grammar/Literal.antt =====
-- src/grammar.rs, `CompiledTerminal::Literal`: its cursor reads exactly the bytes of the literal.
use mathlib.Core.Option.{some-injective}
use oc_earley.Prelude.{
  ℕ, ◌+◌, ◌≤◌, ◌≡◌, ◌↔◌, refl, inl, inr, true, Bool-cases, none, some, List, [], ◌∷◌, ◌++◌,
  append_assoc, append-nil, length, length-append, get_elem?, get_elem?-eq_none, ◌==◌, leb, ==→eq,
  u32_max, subst, arith, if◌then◌else◌,
}
use oc_earley.Grammar.Terminal.{
  literal, TerminalCursorState, start, advance_literal, advance, is_accepting, run,
}
use oc_earley.Grammar.Language.{Matches}

get_elem?-append_middle :
    (pre : List ℕ) (x : ℕ) (rest : List ℕ) → get_elem? (pre ++ x ∷ rest) (length pre) ≡ some x
get_elem?-append_middle [] x rest = refl
get_elem?-append_middle (y ∷ pre) x rest = get_elem?-append_middle pre x rest

-- A step at the first byte that is left.
advance-literal :
    (pre : List ℕ) (x b : ℕ) (rest : List ℕ)
    → advance (literal (pre ++ x ∷ rest)) (TerminalCursorState.literal (length pre)) b ≡ (
        if x == b
        then if leb (length pre + 1) u32_max
          then some (TerminalCursorState.literal (length pre + 1))
          else none
        else none)
unfolding advance advance_literal
advance-literal pre x b rest = rw (get_elem?-append_middle pre x rest, advance, advance_literal)

advance-literal_end :
    (bytes : List ℕ) (b : ℕ)
    → advance (literal bytes) (TerminalCursorState.literal (length bytes)) b ≡ none
unfolding advance advance_literal
advance-literal_end bytes b =
    let e : get_elem? bytes (length bytes) ≡ none =
      get_elem?-eq_none bytes (length bytes) (omega arith) in
    rw (e, advance, advance_literal)

one_on : (pre : List ℕ) (x : ℕ) → length (pre ++ x ∷ []) ≡ length pre + 1
one_on pre x = length-append pre (x ∷ [])

equal : (n : ℕ) → (n == n) ≡ true
equal n = ground arith

fits : (n m : ℕ) → n ≤ m → leb n m ≡ true
fits n m h = ground arith

-- The literal's own bytes lead to its end.
run-literal :
    (pre rest : List ℕ)
    → length (pre ++ rest) ≤ u32_max
    → run (literal (pre ++ rest)) (TerminalCursorState.literal (length pre)) rest
      ≡ some (TerminalCursorState.literal (length (pre ++ rest)))
unfolding run
run-literal pre [] h = rw (append-nil pre) refl
run-literal pre (x ∷ rest) h =
    let room : leb (length pre + 1) u32_max ≡ true =
      fits (length pre + 1) u32_max (omega (arith, h, length-append pre (x ∷ rest))) in
    rw (advance-literal pre x x rest, equal x, room, run)
      (subst
        (λ bytes.
          run (literal bytes) (TerminalCursorState.literal (length pre + 1)) rest
          ≡ some (TerminalCursorState.literal (length bytes)))
        (append_assoc pre (x ∷ []) rest)
        (subst
          (λ k.
            run (literal ((pre ++ x ∷ []) ++ rest)) (TerminalCursorState.literal k) rest
            ≡ some (TerminalCursorState.literal (length ((pre ++ x ∷ []) ++ rest))))
          (one_on pre x)
          (run-literal (pre ++ x ∷ []) rest (rw (append_assoc pre (x ∷ []) rest) h))))

at_end :
    (pre : List ℕ) (x : ℕ) (rest : List ℕ)
    → is_accepting (literal (pre ++ x ∷ rest)) (TerminalCursorState.literal (length pre)) ≡ true
    → ⊥
unfolding is_accepting
at_end pre x rest h =
    let e = ==→eq (length pre) (length (pre ++ x ∷ rest)) h in
    omega (arith, e, length-append pre (x ∷ rest))

-- Bytes that lead to acceptance are the ones that are left of the literal.
left_of :
    (pre rest w : List ℕ) {c : TerminalCursorState}
    → run (literal (pre ++ rest)) (TerminalCursorState.literal (length pre)) w ≡ some c
    → is_accepting (literal (pre ++ rest)) c ≡ true
    → w ≡ rest
unfolding run
left_of pre [] [] h a = refl
left_of pre (x ∷ rest) [] {c} h a = absurd (at_end pre x rest (rw (some-injective _ c h) a))
left_of pre [] (b ∷ w) h a = cc (rw (append-nil pre, advance-literal_end pre b, run) at h)
left_of pre (x ∷ rest) (b ∷ w) {c} h a = elim (Bool-cases (x == b)) [
  | inr q ↦ cc (rw (advance-literal pre x b rest, q, run) at h)
  | inl q ↦ elim (Bool-cases (leb (length pre + 1) u32_max)) [
    | inr r ↦ cc (rw (advance-literal pre x b rest, q, r, run) at h)
    | inl r ↦
        let e = ==→eq x b q in
        let whole = append_assoc pre (x ∷ []) rest in
        let tail =
          left_of (pre ++ x ∷ []) rest w {c = c}
            (rw (whole, one_on pre x) (rw (advance-literal pre x b rest, q, r, run) at h))
            (rw whole a) in
        rw (e, tail)
  ]
]

-- A literal terminal, of a length that a cursor can count, matches its own bytes and nothing else.
pub literal-Matches :
    (bytes w : List ℕ) → length bytes ≤ u32_max → Matches (literal bytes) w ↔ (w ≡ bytes)
unfolding start is_accepting
literal-Matches bytes w h = (
  λ (c, r, a). left_of [] bytes w r a,
  λ e. (
    TerminalCursorState.literal (length bytes),
    rw e (run-literal [] bytes h),
    equal (length bytes),
  ),
)
