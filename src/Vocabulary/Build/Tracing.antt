-- ===== src/Vocabulary/Build/Tracing.antt =====
-- src/vocabulary/reverse.rs: each node that is laid out has the edges and the tokens of the node that
-- it comes from.
use oc_earley.Prelude.{
  ℕ, ◌+◌, ◌≤◌, ◌<◌, ◌≡◌, inl, inr, some, List, [], ◌∷◌, ◌++◌, map, append_assoc, append-nil, length,
  length-append, length-append_one, length-map, get_elem?, get_elem?-append_left,
  get_elem?-append_right, get_elem?-append_last, get_elem?-append_cases, get_elem?-map,
  lt_of_get_elem?, refl, sym, ap, ◌∙◌, subst, arith,
}
use oc_earley.Outcome.{for_each}
use oc_earley.Outcome.Rules.{
  Ensures, Ensures-bind, Ensures-get, Ensures-modify, Ensures-last, Ensures-pure, Ensures-weaken,
}
use oc_earley.Error.{CompileLimits}
use oc_earley.Vocabulary.Trie.{TrieNode, TrieEdge, TokenTrie}
use oc_earley.Vocabulary.Build.{BuildNode, push_edge, push_node, sorted_ids}
use oc_earley.Vocabulary.Build.Layout.{IsBuildLimit, Ensures-checked_u32}

abbrev edge_of : ℕ × ℕ → TrieEdge
edge_of c = record { byte = c.0; child = c.1 }

-- The node laid out behind the trie.
abbrev node_of : BuildNode → TokenTrie → TrieNode
node_of node t = record {
  edge_start = length t.edges;
  edge_len = length node.children;
  token_start = length t.terminal_ids;
  token_len = length (sorted_ids node.terminal_ids);
}

abbrev laid_behind : BuildNode → TokenTrie → TokenTrie
laid_behind node t = record {
  nodes = t.nodes ++ node_of node t ∷ [];
  edges = t.edges ++ map edge_of node.children;
  terminal_ids = t.terminal_ids ++ sorted_ids node.terminal_ids;
}

-- The edges and the tokens of a node are those of the other.
pub record Traces (t : TokenTrie) (x : TrieNode) (node : BuildNode) : Type 0 where
  pub edge_end : x.edge_start + x.edge_len ≤ length t.edges
  pub token_end : x.token_start + x.token_len ≤ length t.terminal_ids
  pub edges :
      (i : ℕ) (e : TrieEdge)
      → i < x.edge_len
      → get_elem? t.edges (x.edge_start + i) ≡ some e
      → get_elem? node.children i ≡ some (e.byte, e.child)
  pub tokens :
      (j token : ℕ)
      → j < x.token_len
      → get_elem? t.terminal_ids (x.token_start + j) ≡ some token
      → get_elem? (sorted_ids node.terminal_ids) j ≡ some token

-- The nodes of the trie come from these, one by one.
pub record Traced (done : List BuildNode) (t : TokenTrie) : Type 0 where
  pub size : length t.nodes ≡ length done
  pub nodes :
      (n : ℕ) (x : TrieNode)
      → get_elem? t.nodes n ≡ some x
      → (node : BuildNode) × (get_elem? done n ≡ some node) × Traces t x node

module _ (node : BuildNode) (t : TokenTrie) where
  Traces-kept :
      (x : TrieNode) (old : BuildNode) → Traces t x old → Traces (laid_behind node t) x old
  Traces-kept x old h = record {
    edge_end = omega (arith, h.edge_end, length-append t.edges (map edge_of node.children));
    token_end =
        omega (arith, h.token_end, length-append t.terminal_ids (sorted_ids node.terminal_ids));
    edges = λ i e inside at. h.edges i e inside (
        sym (
          get_elem?-append_left t.edges (map edge_of node.children) (x.edge_start + i)
            (omega (arith, h.edge_end)))
        ∙ at);
    tokens = λ j token inside at. h.tokens j token inside (
        sym (
          get_elem?-append_left t.terminal_ids (sorted_ids node.terminal_ids) (x.token_start + j)
            (omega (arith, h.token_end)))
        ∙ at);
  }

  Traces-new : Traces (laid_behind node t) (node_of node t) node
  Traces-new = record {
    edge_end = omega (
      arith,
      length-append t.edges (map edge_of node.children),
      length-map edge_of node.children,
    );
    token_end = omega (arith, length-append t.terminal_ids (sorted_ids node.terminal_ids));
    edges = λ i e inside at.
        let (c, found, same) =
          get_elem?-map edge_of node.children i
            (sym (get_elem?-append_right t.edges (map edge_of node.children) i) ∙ at) in
        found ∙ ap (λ (y : TrieEdge). some (y.byte, y.child)) same;
    tokens = λ j token inside at.
        sym (get_elem?-append_right t.terminal_ids (sorted_ids node.terminal_ids) j) ∙ at;
  }

  laid_behind-Traced :
      (done : List BuildNode) → Traced done t → Traced (done ++ node ∷ []) (laid_behind node t)
  laid_behind-Traced done h = record {
    size =
        omega
          (arith, h.size, length-append_one t.nodes (node_of node t), length-append_one done node);
    nodes = λ n x e. elim (get_elem?-append_cases t.nodes (node_of node t) n e) [
      | inl old ↦
          let (b, found, traces) = h.nodes n x old in
          (
            b,
            get_elem?-append_left done (node ∷ []) n (lt_of_get_elem? done n found) ∙ found,
            Traces-kept x b traces,
          )
      | inr (last, same) ↦ (
        node,
        rw (last, h.size) (get_elem?-append_last done node),
        subst (λ y. Traces (laid_behind node t) y node) same Traces-new,
      )
    ];
  }

module _ (limits : CompileLimits) where
  push_edges-behind :
      (cs : List (ℕ × ℕ)) (t : TokenTrie)
      → Ensures
          (λ _ u. u ≡ record t { edges = t.edges ++ map edge_of cs })
          (λ e u. IsBuildLimit e)
          (for_each cs (push_edge limits) t)
  unfolding for_each push_edge
  push_edges-behind [] t =
      Ensures-pure tt t (ap (λ es. record t { edges = es }) (sym (append-nil t.edges)))
  push_edges-behind (c ∷ cs) t =
      Ensures-bind _
        (Ensures-checked_u32 c.1 limits.max_trie_nodes t _ (λ _.
          Ensures-last {P = λ _ u. (u ≡ record t { edges = t.edges ++ edge_of c ∷ [] })} _ t refl))
        (λ _ u same.
          Ensures-weaken
            (λ _ v e.
              e
              ∙ ap (λ (y : TokenTrie). record y { edges = y.edges ++ map edge_of cs }) same
              ∙ ap (λ es. record t { edges = es })
                  (append_assoc t.edges (edge_of c ∷ []) (map edge_of cs)))
            (λ _ _ q. q) (push_edges-behind cs u))

  push_node-behind :
      (node : BuildNode) (t : TokenTrie)
      → Ensures (λ _ u. u ≡ laid_behind node t) (λ e u. IsBuildLimit e) (push_node limits node t)
  unfolding push_node
  push_node-behind node t = Ensures-get t _ (
      Ensures-checked_u32 _ _ t _ (λ _.
        Ensures-bind _ (push_edges-behind node.children t) (λ _ u same.
          Ensures-checked_u32 _ _ u _ (λ _. Ensures-modify _ u _ (
            Ensures-checked_u32 _ _ _ _ (λ _. Ensures-checked_u32 _ _ _ _ (λ _. Ensures-last _ _ (
              ap
                (λ (y : TokenTrie). record {
                  nodes =
                      y.nodes
                      ++ record {
                        edge_start = length t.edges;
                        edge_len = length node.children;
                        token_start = length t.terminal_ids;
                        token_len = length (sorted_ids node.terminal_ids);
                      }
                        ∷ [];
                  edges = y.edges;
                  terminal_ids = y.terminal_ids ++ sorted_ids node.terminal_ids;
                })
                same))))))))

  pub push_nodes-Traced :
      (done rest : List BuildNode) (t : TokenTrie)
      → Traced done t
      → Ensures
          (λ _ u. Traced (done ++ rest) u)
          (λ e u. IsBuildLimit e)
          (for_each rest (push_node limits) t)
  unfolding for_each
  push_nodes-Traced done [] t h = Ensures-pure tt t (rw (append-nil done) h)
  push_nodes-Traced done (node ∷ rest) t h = Ensures-bind _ (push_node-behind node t) λ _ u same.
      Ensures-weaken (λ _ v k. subst (λ ns. Traced ns v) (append_assoc done (node ∷ []) rest) k)
        (λ _ _ q. q)
        (push_nodes-Traced (done ++ node ∷ []) rest u
          (subst (Traced (done ++ node ∷ [])) (sym same) (laid_behind-Traced node t done h)))
