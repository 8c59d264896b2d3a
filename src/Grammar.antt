-- ===== src/Grammar.antt =====
-- src/grammar.rs: symbols, the residual grammar that the parsers share, its terminals, and the
-- language that it generates.
pub mod Dfa
pub mod Terminal
pub mod Residual
pub mod Nullable
pub mod Language
pub mod Literal
