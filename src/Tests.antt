-- ===== src/Tests.antt =====
-- Runs of the model on small inputs, and the instances of the theorems that have hypotheses.
pub mod Earley
pub mod Nested
pub mod Witnesses
pub mod Backends
pub mod Guide
pub mod Trie
