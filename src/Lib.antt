-- ===== src/Lib.antt =====
-- oc-earley compiles JSON schemas to recognizers of byte strings that constrain a token sampler.
-- This library models the recognizers, which run behind one interface, the guide that commits
-- tokens on one and fills token masks, and parts of what builds the tables.
--
-- The parts and the files:
--   src/error.rs, src/schema.rs (errors, limits)       Error
--   src/grammar.rs (automata, terminals, residual      Grammar/Dfa, Grammar/Terminal,
--     grammar with its nullable symbols)                 Grammar/Residual, Grammar/Nullable
--   src/earley.rs                                      Earley/Types, Compile, Chart, Leo, Recognizer
--   src/lalr.rs                                        Lalr/Types, Recognizer, Actions, Table
--   src/engine.rs (RecognizerState)                    Engine/Recognizer
--   src/engine.rs (fill_structural_mask, Guide)        Engine/Mask, Walk, Guide, Guide/Filling
--   src/vocabulary/reverse.rs (the token trie)         Vocabulary/Trie, Vocabulary/Build
--   src/index.rs (what the guide asks of an index)     Index
-- Prelude has the shared tests, lists, maps and words; Outcome the calls that return a value or an
-- error and leave a state in both cases. An index out of bounds is a panic, and a loop without a
-- bound that the model runs dry is `out_of_fuel`. A postcondition of Outcome/Rules excludes both.
--
-- How the model stands to the code: a function has the name it has in the source, and a loop body
-- or a branch that became a function of its own says which it is. A recognizer is split into what
-- its methods leave alone (`Setup`) and what they write (`State`). Numbers are native numbers; the
-- widths of `u32` and `usize` are in the conversions and the saturating and checked additions, as
-- in the source, on 64 bits. A hash map or set is a list: the source never reads one in its own
-- order except to sort it. `Layout` has the sizes and the capacity that the byte estimate of the
-- statistics asks the compiler and the allocator for. The generation of a recognizer, which a
-- global counter gives, is a field of its setup.
--
-- Loops: `saturate` runs with one round more than `max_items_per_column`, which the limit on the
-- items of a column makes enough; the theorems on `advance_byte` rest on that. The fuel of the LALR
-- reductions is a parameter, since the loop has no bound in the source. The walk over the token trie
-- has two rounds for every edge that the limit allows and two for the root, which is proved enough.
--
-- Guides: Engine/Walk/Spec says what the walk asks of a backend that can go back (`Revertible`), and
-- which tokens a recognizer allows (`Enabled`); Engine/Walk/Backends has the automaton and the Earley
-- recognizer as such backends. Engine/Guide/Sound has the invariant of a guide and Masking what its
-- masks are to hold.
--
-- The language: Grammar/Language says which strings a residual grammar derives (`Derives`) and the
-- same between two positions of an input (`Spans`); Earley/WellFormed says what the tables satisfy
-- and what the items, waiting lists, Leo items and active scans of a chart mean in terms of it;
-- Earley/Soundness carries that through each operation, Earley/Reading through whole inputs.
-- `HasRead` is the invariant of a recognizer between calls. `LimitsOk` asks that two limits are
-- below the largest `usize`, at which the saturating additions would hide one more item.
--
-- Not modelled: the schema front end, lowering and reduction of grammars, the construction of
-- automata (which the regex-automata crate does), the LALR item sets, the building of the index,
-- vocabulary files, failing allocations, and the bindings.
pub mod Prelude
pub mod Outcome
pub mod Error
pub mod Grammar
pub mod Earley
pub mod Lalr
pub mod Index
pub mod Vocabulary
pub mod Engine
pub mod Tests
