-- ===== src/Earley/Building.antt =====
-- src/earley.rs, `CompiledEarley::build`: the tables that it makes are well formed. `Dots` is about
-- the loop over the dots, `Filled` about the tables of the productions seen so far, `Finished`
-- about the result.
pub mod Dots
pub mod Filled
pub mod Finished
