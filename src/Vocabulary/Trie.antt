-- ===== src/Vocabulary/Trie.antt =====
-- src/vocabulary/reverse.rs, the structs, and `shared_bytes`.
use oc_earley.Prelude.{ℕ, Option, none, some, List, get_elem?}

pub record TrieNode : Type 0 where
  pub edge_start : ℕ
  pub edge_len : ℕ
  pub token_start : ℕ
  pub token_len : ℕ

pub record TrieEdge : Type 0 where
  pub byte : ℕ
  pub child : ℕ

pub record TokenTrie : Type 0 where
  pub nodes : List TrieNode
  pub edges : List TrieEdge
  pub terminal_ids : List ℕ

pub record DerivedVocabulary : Type 0 where
  pub trie : TokenTrie
  pub reverse : List (Option (List ℕ))
  pub eos_token_id : ℕ
  pub vocab_size : ℕ
  pub mask_words : ℕ
  pub total_token_bytes : ℕ

unfoldable pub shared_bytes : DerivedVocabulary → ℕ → Option (List ℕ)
shared_bytes self id = elim (get_elem? self.reverse id) [ none ↦ none | some entry ↦ entry ]
