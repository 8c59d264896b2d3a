-- ===== src/Tests/Trie.antt =====
-- A token trie built from three tokens.
use oc_earley.Prelude.{◌≡◌, refl, some, none, [], ◌∷◌, find, sort_by_key, dedup_by_key, lex_eq}
use oc_earley.Outcome.{ok, bind, get, modify, guard, or_fail, or_panic, pure, for_each}
use oc_earley.Vocabulary.Build.{
  build, build_trie, lay_out, with_locals, push_node, push_edge, edge_total, insert_entry, add_id,
  claim_slot, insert_bytes, step_byte, add_child, insert_child, measure_entry, max_of, checked_u32,
}
use oc_earley.Outcome.Rules.{Ensures}
use oc_earley.Vocabulary.Build.Growing.{Fails}
use oc_earley.Vocabulary.Build.Paths.{SpellsTokens, EnablesReadable, build-SpellsTokens}
use oc_earley.Vocabulary.Build.Whole.{Usable, build-Usable}
use oc_earley.Tests.Earley.{compile_limits}

-- `b` is 3, `a` is 0 and 4, `ab` is 2, and the end of the sequence 1.
built :
    build compile_limits 1
      ((98 ∷ [], 3 ∷ []) ∷ (97 ∷ [], 4 ∷ 0 ∷ 4 ∷ []) ∷ (97 ∷ 98 ∷ [], 2 ∷ []) ∷ [])
    ≡ ok
        (record {
          trie = record {
            nodes =
                record { edge_start = 0; edge_len = 2; token_start = 0; token_len = 0 }
                ∷ record { edge_start = 2; edge_len = 1; token_start = 0; token_len = 2 }
                ∷ record { edge_start = 3; edge_len = 0; token_start = 2; token_len = 1 }
                ∷ record { edge_start = 3; edge_len = 0; token_start = 3; token_len = 1 }
                ∷ [];
            edges =
                record { byte = 97; child = 1 }
                ∷ record { byte = 98; child = 3 }
                ∷ record { byte = 98; child = 2 }
                ∷ [];
            terminal_ids = 0 ∷ 4 ∷ 2 ∷ 3 ∷ [];
          };
          reverse =
              some (97 ∷ []) ∷ none ∷ some (97 ∷ 98 ∷ []) ∷ some (98 ∷ []) ∷ some (97 ∷ []) ∷ [];
          eos_token_id = 1;
          vocab_size = 5;
          mask_words = 1;
          total_token_bytes = 4;
        })
        tt
unfolding build build_trie lay_out with_locals push_node push_edge edge_total insert_entry add_id
    claim_slot insert_bytes step_byte add_child insert_child measure_entry max_of checked_u32 bind
    get modify guard or_fail or_panic pure for_each find sort_by_key dedup_by_key lex_eq
built = refl

build-SpellsTokens_example :
    Ensures
      (λ v _. SpellsTokens v × EnablesReadable v)
      Fails
      (build compile_limits 1 ((98 ∷ [], 3 ∷ []) ∷ (97 ∷ [], 4 ∷ 0 ∷ []) ∷ []))
build-SpellsTokens_example =
    build-SpellsTokens compile_limits 1 ((98 ∷ [], 3 ∷ []) ∷ (97 ∷ [], 4 ∷ 0 ∷ []) ∷ [])

build-Usable_example :
    Ensures
      (λ v _. Usable 1 v)
      Fails
      (build compile_limits 1 ((98 ∷ [], 3 ∷ []) ∷ (97 ∷ [], 4 ∷ 0 ∷ []) ∷ []))
build-Usable_example =
    build-Usable compile_limits 1 ((98 ∷ [], 3 ∷ []) ∷ (97 ∷ [], 4 ∷ 0 ∷ []) ∷ [])
