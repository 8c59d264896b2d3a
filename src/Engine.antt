-- ===== src/Engine.antt =====
-- src/engine.rs: the recognizers behind one interface. `Recognizer` has the operations, `Trial` what
-- a trial of several bytes leads to on the Earley backend, `DfaTrial` on the automaton.
pub mod Recognizer
pub mod Trial
pub mod DfaTrial
pub mod LalrTrial
pub mod Mask
pub mod Walk
pub mod Guide
