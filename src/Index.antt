-- ===== src/Index.antt =====
-- src/index.rs, `Index` and what the guide asks of it. The hash maps are association lists.
use oc_earley.Prelude.{ℕ, Bool, Option, none, some, List, ◌==◌, if◌then◌else◌, contains, find, keys}

pub record Index : Type 0 where
  pub initial_state : ℕ
  pub final_states : List ℕ
  pub transitions : List (ℕ × List (ℕ × ℕ))
  pub eos_token_id : ℕ
  pub vocab_size : ℕ

unfoldable pub is_final_state : Index → ℕ → Bool
is_final_state self state = contains state self.final_states

-- `allowed_tokens` and `allowed_tokens_iter`
unfoldable pub allowed_tokens : Index → ℕ → Option (List ℕ)
allowed_tokens self state = elim (find state self.transitions) [
  | none ↦ none
  | some edges ↦ some (keys edges)
]

unfoldable pub next_state : Index → ℕ → ℕ → Option ℕ
next_state self state token =
    if token == self.eos_token_id
    then none
    else elim (find state self.transitions) [ none ↦ none | some edges ↦ find token edges ]
