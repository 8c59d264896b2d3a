-- ===== src/Vocabulary/Build/Layout.antt =====
-- src/vocabulary/reverse.rs: the nodes laid out one after the other make a sound trie.
use oc_earley.Prelude.{
  ℕ, suc, ◌+◌, ◌/◌, ◌≤◌, ◌<◌, ◌≡◌, inl, inr, List, [], ◌∷◌, ◌++◌, length, length-append,
  length-append_one, get_elem?-lt, All, All-map, Bool-cases, All-append, All-get_elem?,
  All-sort_by_key, All-dedup_by_key, leb, leb→le, u32_max, u64_max, refl, sym, ap, ◌∙◌, subst,
  arith,
}
use oc_earley.Outcome.{Outcome, bind, pure, guard, for_each}
use oc_earley.Outcome.Rules.{
  Ensures, fails, Ensures-bind, Ensures-get, Ensures-modify, Ensures-last, Ensures-pure,
  Ensures-weaken,
}
use oc_earley.Error.{CompileLimits, IsCompileLimit}
use oc_earley.Vocabulary.Trie.{TrieNode, TrieEdge, TokenTrie}
use oc_earley.Vocabulary.Build.{
  BuildError, compile, BuildNode, checked_u32, push_edge, push_node, sorted_ids, empty_trie,
}
use oc_earley.Engine.Walk.Spec.{TrieOk}

-- A limit was met.
abbrev pub IsBuildLimit : BuildError → Type 0
IsBuildLimit (compile e) = IsCompileLimit e
IsBuildLimit _ = ⊥

-- The ranges of a node that was laid out.
pub record Placed (t : TokenTrie) (node : TrieNode) : Type 0 where
  pub edge_end : node.edge_start + node.edge_len ≤ length t.edges
  pub token_end : node.token_start + node.token_len ≤ length t.terminal_ids
  pub small : node.edge_start + node.edge_len ≤ u64_max

-- The trie so far, for so many nodes in all, and tokens that all fit.
pub record Laid (count : ℕ) (Fits : ℕ → Type 0) (t : TokenTrie) : Type 0 where
  pub placed : All (Placed t) t.nodes
  pub edges : All (λ (e : TrieEdge). e.child < count) t.edges
  pub ids : All Fits t.terminal_ids
  pub size : length t.terminal_ids ≤ u64_max

-- The children of a node exist, and its tokens fit.
abbrev pub Sound : ℕ → (ℕ → Type 0) → BuildNode → Type 0
Sound count Fits node = All (λ (c : ℕ × ℕ). c.1 < count) node.children × All Fits node.terminal_ids

-- A conversion to `u32`, with what follows it.
pub Ensures-checked_u32 :
    {S B : Type 0} {P : B → S → Type 0} (value limit : ℕ) (s : S)
    (k : ℕ → S → Outcome BuildError S B)
    → (value ≤ u32_max → Ensures P (λ e t. IsBuildLimit e) (k value s))
    → Ensures P (λ e t. IsBuildLimit e) (bind (checked_u32 value limit s) k)
unfolding checked_u32 bind guard pure
Ensures-checked_u32 value limit s k h = elim (Bool-cases (leb value u32_max)) [
  | inl q ↦ rw q (h (leb→le _ _ q))
  | inr q ↦ rw q (fails tt)
]

abbrev with_edge : ℕ → ℕ → TokenTrie → TokenTrie
with_edge byte child t = record t { edges = t.edges ++ record { byte = byte; child = child } ∷ [] }

abbrev laid_after : TokenTrie → TokenTrie → BuildNode → TokenTrie
laid_after t u node = record u {
  nodes =
      u.nodes
      ++ record {
        edge_start = length t.edges;
        edge_len = length node.children;
        token_start = length t.terminal_ids;
        token_len = length (sorted_ids node.terminal_ids);
      }
        ∷ [];
  terminal_ids = u.terminal_ids ++ sorted_ids node.terminal_ids;
}

longer :
    (t u : TokenTrie) (node : BuildNode)
    → u.terminal_ids ≡ t.terminal_ids
    → length (u.terminal_ids ++ sorted_ids node.terminal_ids)
      ≡ length t.terminal_ids + length (sorted_ids node.terminal_ids)
longer t u node same =
    length-append u.terminal_ids (sorted_ids node.terminal_ids)
    ∙ ap (λ xs. length xs + length (sorted_ids node.terminal_ids)) same

module _ (limits : CompileLimits) (count : ℕ) (Fits : ℕ → Type 0) where
  -- The edges behind those of the trie.
  record Extended (t : TokenTrie) (n : ℕ) (u : TokenTrie) : Type 0 where
    nodes : u.nodes ≡ t.nodes
    terminal_ids : u.terminal_ids ≡ t.terminal_ids
    more : length u.edges ≡ length t.edges + n
    edges : All (λ (e : TrieEdge). e.child < count) u.edges

  push_edges-Extended :
      (cs : List (ℕ × ℕ)) (t : TokenTrie)
      → All (λ (c : ℕ × ℕ). c.1 < count) cs
      → All (λ (e : TrieEdge). e.child < count) t.edges
      → Ensures
          (λ _ u. Extended t (length cs) u)
          (λ e u. IsBuildLimit e)
          (for_each cs (push_edge limits) t)
  unfolding for_each push_edge
  push_edges-Extended [] t h es =
      Ensures-pure tt t
        (record { nodes = refl; terminal_ids = refl; more = omega arith; edges = es })
  push_edges-Extended ((byte, child) ∷ cs) t h es =
      Ensures-bind _
        (Ensures-checked_u32 child limits.max_trie_nodes t _
          (λ _. Ensures-last {P = λ _ u. (u ≡ with_edge byte child t)} _ t refl))
        (λ _ u same.
          Ensures-weaken
            (λ _ v x. record {
              nodes = x.nodes ∙ ap (λ y. y.nodes) same;
              terminal_ids = x.terminal_ids ∙ ap (λ y. y.terminal_ids) same;
              more = omega (
                arith,
                x.more,
                ap (λ y. length y.edges) same,
                length-append_one t.edges (record { byte = byte; child = child }),
              );
              edges = x.edges;
            })
            (λ _ _ q. q)
            (push_edges-Extended cs u h.1 (
              subst (λ (y : TokenTrie). All (λ (e : TrieEdge). e.child < count) y.edges) (sym same)
                (All-append _ t.edges (record { byte = byte; child = child } ∷ []) es (h.0, tt)))))

  Placed-wider :
      (t u : TokenTrie) (ns : List TrieNode)
      → length t.edges ≤ length u.edges
      → length t.terminal_ids ≤ length u.terminal_ids
      → All (Placed t) ns
      → All (Placed u) ns
  Placed-wider t u ns e i h =
      All-map ns
        (λ n p. record {
          edge_end = omega (arith, p.edge_end);
          token_end = omega (arith, p.token_end);
          small = p.small;
        })
        h

  push_node-Laid :
      (node : BuildNode) (t : TokenTrie)
      → Sound count Fits node
      → Laid count Fits t
      → Ensures
          (λ _ u. Laid count Fits u × (length u.nodes ≡ suc (length t.nodes)))
          (λ e u. IsBuildLimit e)
          (push_node limits node t)
  unfolding push_node
  push_node-Laid node t (children, ids) laid =
      let sorted : All Fits (sorted_ids node.terminal_ids) =
        All-dedup_by_key _ _ _ (All-sort_by_key _ _ node.terminal_ids ids) in
      Ensures-get t _ (
        Ensures-checked_u32 _ _ t _ (λ start_fits.
          Ensures-bind _ (push_edges-Extended node.children t children laid.edges) (λ _ u x.
            Ensures-checked_u32 _ _ u _ (λ token_fits. Ensures-modify _ u _ (
              Ensures-checked_u32 _ _ _ _ (λ edges_fit. Ensures-checked_u32 _ _ _ _ (λ tokens_fit.
                Ensures-last _ _ (
                  record {
                    placed =
                        All-append _ u.nodes _
                          (Placed-wider t (laid_after t u node) u.nodes (omega (arith, x.more))
                            (omega (arith, longer t u node x.terminal_ids))
                            (subst (All (Placed t)) (sym x.nodes) laid.placed))
                          (
                            record {
                              edge_end = omega (arith, x.more);
                              token_end = omega (arith, longer t u node x.terminal_ids);
                              small = omega (arith, start_fits, edges_fit);
                            },
                            tt,
                          );
                    edges = x.edges;
                    ids =
                        All-append _ u.terminal_ids (sorted_ids node.terminal_ids)
                          (subst (All Fits) (sym x.terminal_ids) laid.ids) sorted;
                    size = omega (arith, longer t u node x.terminal_ids, token_fits, tokens_fit);
                  },
                  length-append_one u.nodes _ ∙ ap (λ ns. suc (length ns)) x.nodes,
                ))))))))

  push_nodes-Laid :
      (nodes : List BuildNode) (t : TokenTrie)
      → All (Sound count Fits) nodes
      → Laid count Fits t
      → Ensures
          (λ _ u. Laid count Fits u × (length u.nodes ≡ length t.nodes + length nodes))
          (λ e u. IsBuildLimit e)
          (for_each nodes (push_node limits) t)
  unfolding for_each
  push_nodes-Laid [] t h laid = Ensures-pure tt t (laid, omega arith)
  push_nodes-Laid (node ∷ nodes) t h laid =
      Ensures-bind _ (push_node-Laid node t h.0 laid) λ _ u (laid', more).
        Ensures-weaken (λ _ v (l, e). (l, omega (arith, e, more))) (λ _ _ q. q)
          (push_nodes-Laid nodes u h.1 laid')

-- A token has a slot, and a bit in a mask.
abbrev pub Slotted : ℕ → ℕ → ℕ → Type 0
Slotted slots words id = (id < slots) × (id / 32 < words)

Laid-TrieOk :
    (slots words : ℕ) (t : TokenTrie)
    → 0 < length t.nodes
    → Laid (length t.nodes) (Slotted slots words) t
    → TrieOk t words
Laid-TrieOk slots words t some_node laid = record {
  root = some_node;
  nodes = λ n node e.
      let p = All-get_elem? (Placed t) t.nodes n laid.placed e in
      record {
        edges = λ i inside.
            let (edge, found) =
              get_elem?-lt t.edges (node.edge_start + i) (omega (arith, p.edge_end)) in
            (edge, found, All-get_elem? _ t.edges (node.edge_start + i) laid.edges found);
        edge_end = p.small;
        token_end = p.token_end;
      };
  size = laid.size;
  ids = All-map t.terminal_ids (λ id h. h.1) laid.ids;
}

-- Laying out nodes whose children exist, and whose tokens have bits in a mask of so many words and slots,
-- ends
-- with a sound token trie of as many nodes, or fails at a limit.
pub push_nodes-TrieOk :
    (limits : CompileLimits) (slots words : ℕ) (nodes : List BuildNode)
    → 0 < length nodes
    → All (Sound (length nodes) (Slotted slots words)) nodes
    → Ensures
        (λ _ trie. TrieOk trie words × All (λ id. id < slots) trie.terminal_ids)
        (λ e trie. IsBuildLimit e)
        (for_each nodes (push_node limits) empty_trie)
push_nodes-TrieOk limits slots words nodes some_node sound =
    Ensures-weaken
      (λ _ trie (laid, size).
        let same : length trie.nodes ≡ length nodes = omega (arith, size) in
        (
          Laid-TrieOk slots words trie (omega (arith, same))
              (subst (λ n. Laid n (Slotted slots words) trie) (sym same) laid),
          All-map trie.terminal_ids (λ id h. h.0) laid.ids,
        ))
      (λ _ _ q. q)
      (push_nodes-Laid limits (length nodes) (Slotted slots words) nodes empty_trie sound
        (record { placed = tt; edges = tt; ids = tt; size = omega arith }))
