-- ===== src/Earley/Soundness.antt =====
-- src/earley.rs: every call keeps the chart sound with respect to the language of the grammar, stops
-- only at a limit, and leaves the older columns as they are.
pub mod Inserting
pub mod Completing
pub mod Saturating
pub mod LeoItems
pub mod Bytes
pub mod Invariant
