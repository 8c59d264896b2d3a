-- ===== src/Engine/Walk/Spec.antt =====
-- What a mask is to say: which tokens of the trie the recognizer allows.
use oc_earley.Prelude.{
  ℕ, ◌+◌, ◌≤◌, ◌<◌, ◌/◌, ◌%◌, ◌≡◌, ◌≢◌, Bool, true, false, none, some, List, [], ◌∷◌, length,
  get_elem?, has_bit, All, u64_max,
}
use oc_earley.Outcome.{ok}
use oc_earley.Outcome.Rules.{Ensures}
use oc_earley.Error.{IsLimit}
use oc_earley.Vocabulary.Trie.{TrieNode, TrieEdge, TokenTrie}
use oc_earley.Engine.Recognizer.{
  Advance, rejected, live, accepting, RecognizerState, is_accepting, is_live, checkpoint, restore,
  try_advance_bytes,
}

-- The token's bit in a mask.
abbrev pub is_allowed : List ℕ → ℕ → Bool
is_allowed destination token = elim (get_elem? destination (token / 32)) [
  | none ↦ false
  | some word ↦ has_bit word (token % 32)
]

-- A trial that is not rejected leads to a recognizer after this one.
abbrev pub Stepped :
    (RecognizerState → Type 0)
    → (RecognizerState → RecognizerState → Type 0)
    → RecognizerState
    → Advance
    → RecognizerState
    → Type 0
Stepped Good After r rejected t = t ≡ r
Stepped Good After r live t = Good t × After r t
Stepped Good After r accepting t = Good t × After r t

-- What the walk asks of a recognizer: `Good` holds of those that can be tried, `After r t` of a
-- recognizer `t` that was reached from `r` and can go back to it.
pub record Revertible (fuel : ℕ) (Good : RecognizerState → Type 0)
    (After : RecognizerState → RecognizerState → Type 0) : Type 0 where
  pub same : (r : RecognizerState) → Good r → After r r
  pub further : (r s t : RecognizerState) → After r s → After s t → After r t
  pub back : (r t : RecognizerState) → Good r → After r t → restore (checkpoint r) t ≡ ok tt r
  pub says_live : (r : RecognizerState) → Good r → (b : Bool) × (is_live fuel r ≡ ok b r)
  pub says_accepting : (r : RecognizerState) → Good r → (b : Bool) × (is_accepting fuel r ≡ ok b r)
  pub tries :
      (r : RecognizerState) (bytes : List ℕ)
      → Good r
      → Ensures (Stepped Good After r) (λ e t. IsLimit e × (t ≡ r)) (try_advance_bytes fuel bytes r)

-- The byte leads from one recognizer to the other.
abbrev pub Follows : ℕ → ℕ → RecognizerState → RecognizerState → Type 0
Follows fuel byte r t =
    (a : Advance) × (try_advance_bytes fuel (byte ∷ []) r ≡ ok a t) × (a ≢ rejected)

abbrev pub IsToken : TokenTrie → TrieNode → ℕ → Type 0
IsToken trie node token =
    (j : ℕ) × (j < node.token_len)
    × (get_elem? trie.terminal_ids (node.token_start + j) ≡ some token)

-- `Enabled fuel trie n r token`: below node `n`, which the recognizer `r` has reached, the bytes on
-- some path to the token can be read one after the other, and leave a live recognizer.
pub data Enabled (fuel : ℕ) (trie : TokenTrie) : ℕ → RecognizerState → ℕ → Type 0 where
  here :
      {n : ℕ} {r : RecognizerState} {token : ℕ} {node : TrieNode}
      → get_elem? trie.nodes n ≡ some node
      → is_live fuel r ≡ ok true r
      → IsToken trie node token
      → Enabled fuel trie n r token
  below :
      {n : ℕ} {r t : RecognizerState} {token : ℕ} {node : TrieNode} {edge : TrieEdge} (i : ℕ)
      → get_elem? trie.nodes n ≡ some node
      → i < node.edge_len
      → get_elem? trie.edges (node.edge_start + i) ≡ some edge
      → Follows fuel edge.byte r t
      → Enabled fuel trie edge.child t token
      → Enabled fuel trie n r token

pub record NodeOk (trie : TokenTrie) (node : TrieNode) : Type 0 where
  pub edges :
      (i : ℕ)
      → i < node.edge_len
      → (edge : TrieEdge) × (get_elem? trie.edges (node.edge_start + i) ≡ some edge)
        × (edge.child < length trie.nodes)
  pub edge_end : node.edge_start + node.edge_len ≤ u64_max
  pub token_end : node.token_start + node.token_len ≤ length trie.terminal_ids

-- The trie's indices exist, and its tokens have bits in a mask of `words` words.
pub record TrieOk (trie : TokenTrie) (words : ℕ) : Type 0 where
  pub root : 0 < length trie.nodes
  pub nodes : (n : ℕ) (node : TrieNode) → get_elem? trie.nodes n ≡ some node → NodeOk trie node
  pub size : length trie.terminal_ids ≤ u64_max
  pub ids : All (λ id. id / 32 < words) trie.terminal_ids
