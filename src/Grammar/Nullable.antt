-- ===== src/Grammar/Nullable.antt =====
-- src/grammar.rs, `residual_nullable`: which nonterminals derive the empty string.
pub mod Marks
pub mod Exact
use oc_earley.Prelude.{
  ℕ, zero, suc, ◌≡◌, Bool, true, false, ◌||◌, List, [], ◌∷◌, get_elem?, set, replicate,
  if◌then◌else◌,
}
use oc_earley.Outcome.{Outcome, ok, M, ◌>>=◌, ◌>>◌, pure, exhausted, get, modify, or_panic, bind}
use oc_earley.Error.{CompileError}
use oc_earley.Grammar.Residual.{Symbol, nonterminal, terminal, ResidualProduction}

-- The state is the vector `nullable`.
abbrev pub Step : Type 0 → Type 0
Step A = M CompileError (List Bool) A

-- `production.rhs.iter().all(..)`, which stops at the first symbol that fails
unfoldable pub all_nullable : List Symbol → Step Bool
all_nullable [] = pure true
all_nullable (terminal t ∷ rest) = pure false
all_nullable (nonterminal a ∷ rest) = do
  nullable ← get
  known ← or_panic (get_elem? nullable a)
  if known then all_nullable rest else pure false

-- The end of the body of the loop over the productions: whether something has changed.
unfoldable pub mark_if : Bool → ℕ → Step Bool
mark_if true lhs = do modify λ nullable. set nullable lhs true; pure true
mark_if false lhs = pure false

unfoldable pub check_rhs : ResidualProduction → Step Bool
check_rhs production = do all ← all_nullable production.rhs; mark_if all production.lhs

-- The body of the loop over the productions.
unfoldable pub visit : ResidualProduction → Step Bool
visit production = do
  nullable ← get
  known ← or_panic (get_elem? nullable production.lhs)
  if known then pure false else check_rhs production

unfoldable pub pass : List ResidualProduction → Bool → Step Bool
pass [] changed = pure changed
pass (production ∷ productions) changed = do
  here ← visit production
  pass productions (changed || here)

-- `loop`, with fuel
unfoldable pub passes : List ResidualProduction → ℕ → Step (Unit {0})
passes productions zero = exhausted
passes productions (suc fuel) = do
  changed ← pass productions false
  if changed then passes productions fuel else pure tt

-- Each pass but the last marks a nonterminal, so one pass more than there are is enough.
unfoldable pub residual_nullable :
    ℕ → List ResidualProduction → Outcome CompileError (List Bool) (List Bool)
residual_nullable count productions =
    bind (passes productions (suc count) (replicate count false)) λ _ nullable. ok nullable nullable
