-- ===== src/Earley.antt =====
-- src/earley.rs: the incremental Earley recognizer. `Types` has its structs, `Compile` builds the
-- tables, `Chart` and
-- `Leo` are the work on one column, `Recognizer` reads bytes; the others hold the proofs.
pub mod Types
pub mod Compile
pub mod Chart
pub mod Leo
pub mod Recognizer
pub mod WellFormed
pub mod Soundness
pub mod Reading
pub mod Acceptance
pub mod Undo
pub mod Building
