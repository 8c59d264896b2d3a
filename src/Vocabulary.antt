-- ===== src/Vocabulary.antt =====
-- src/vocabulary: the tokens and the trie of their bytes.
pub mod Trie
pub mod Build
