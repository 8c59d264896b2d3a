-- ===== src/Lalr.antt =====
-- src/lalr.rs: the incremental LALR(1) recognizer. `Types` has its structs and tables,
-- `Recognizer` reads bytes, `Actions` fills the action
-- table.
pub mod Types
pub mod Recognizer
pub mod Actions
pub mod Table
