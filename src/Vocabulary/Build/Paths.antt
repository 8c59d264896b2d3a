-- ===== src/Vocabulary/Build/Paths.antt =====
-- src/vocabulary/reverse.rs: the trie that `DerivedVocabulary::build` makes spells its tokens.
use oc_earley.Prelude.{
  true, ℕ, ◌+◌, ◌<◌, ◌≡◌, none, some, List, [], ◌∷◌, ◌++◌, append_assoc, append-nil, length,
  length-replicate, replicate, get_elem?, All, All-map, All-get_elem?, All-sort_by_key,
  All-dedup_by_key, sort_by_key, checked_sum, zero, suc, refl, sym, ap, ◌∙◌, arith,
}
use mathlib.Core.Option.{some-injective}
use oc_earley.Outcome.Rules.{
  Ensures, Ensures-weaken, Ensures-guard, Ensures-pure, Ensures-or_fail, Ensures-for_each,
}
use oc_earley.Error.{CompileLimits}
use oc_earley.Vocabulary.Trie.{TrieNode, TrieEdge, TokenTrie, DerivedVocabulary, shared_bytes}
use oc_earley.Vocabulary.Build.{
  BuildNode, Totals, Building, insert_entry, lay_out, build_trie, build, sorted_ids, empty_trie,
}
use oc_earley.Vocabulary.Build.Growing.{Fails}
use oc_earley.Vocabulary.Build.Spelling.{Says, Spelled, IsSpelled, insert_entry-IsSpelled}
use oc_earley.Vocabulary.Build.Tracing.{Traced, push_nodes-Traced}
use oc_earley.Vocabulary.Build.Whole.{Below, measure_entries-Below, Ensures-with_locals}
use oc_earley.Engine.Walk.Spec.{IsToken, Enabled, here, below, Follows}
use oc_earley.Outcome.{ok}
use oc_earley.Engine.Recognizer.{RecognizerState, is_live}

-- `Way trie n bytes m`: the bytes lead from node `n` to node `m` along the edges.
pub data Way (trie : TokenTrie) : ℕ → List ℕ → ℕ → Type 0 where
  arrived : {n : ℕ} → Way trie n [] n
  along :
      {n m : ℕ} {node : TrieNode} {edge : TrieEdge} {bytes : List ℕ} (i : ℕ)
      → get_elem? trie.nodes n ≡ some node
      → i < node.edge_len
      → get_elem? trie.edges (node.edge_start + i) ≡ some edge
      → Way trie edge.child bytes m
      → Way trie n (edge.byte ∷ bytes) m

-- The bytes on the way from the root to a token are the token's bytes.
abbrev pub SpellsTokens : DerivedVocabulary → Type 0
SpellsTokens v =
    (bytes : List ℕ) (n : ℕ) (node : TrieNode) (token : ℕ)
    → Way v.trie 0 bytes n
    → get_elem? v.trie.nodes n ≡ some node
    → IsToken v.trie node token
    → shared_bytes v token ≡ some bytes

module _ (slots : ℕ) (label : ℕ → List ℕ) (b : Building) (s : Spelled slots label b)
    (trie : TokenTrie) (traced : Traced b.build_nodes trie) where
  label-Way : {bytes : List ℕ} {n m : ℕ} → Way trie n bytes m → label m ≡ label n ++ bytes
  label-Way {n} arrived = sym (append-nil (label n))
  label-Way {n} (along {node} {edge} {bytes} i found inside at path) =
      let (from, grown, traces) = traced.nodes n node found in
      let says = s.nodes n from grown in
      let (_, child) =
        All-get_elem?
          (λ (c : ℕ × ℕ). (c.1 < length b.build_nodes) × (label c.1 ≡ label n ++ c.0 ∷ []))
          from.children i says.children (traces.edges i edge inside at) in
      label-Way path ∙ ap (λ l. l ++ bytes) child ∙ append_assoc (label n) (edge.byte ∷ []) bytes

  token_slot :
      {bytes : List ℕ} {n : ℕ} (node : TrieNode) (token : ℕ)
      → Way trie 0 bytes n
      → get_elem? trie.nodes n ≡ some node
      → IsToken trie node token
      → get_elem? b.reverse token ≡ some (some bytes)
  token_slot {bytes} {n} node token path found (j, inside, at) =
      let (from, grown, traces) = traced.nodes n node found in
      let says = s.nodes n from grown in
      let holds =
        All-get_elem? (λ id. get_elem? b.reverse id ≡ some (some (label n)))
          (sorted_ids from.terminal_ids) j
          (All-dedup_by_key _ _ _ (All-sort_by_key _ _ from.terminal_ids says.ids))
          (traces.tokens j token inside at) in
      holds ∙ ap (λ l. some (some l)) (label-Way path ∙ ap (λ l. l ++ bytes) s.root)

lay_out-SpellsTokens :
    (limits : CompileLimits) (eos slots words bytes size : ℕ) (b : Building)
    → IsSpelled limits slots b
    → Ensures (λ v _. SpellsTokens v) Fails (lay_out limits eos size words bytes b tt)
unfolding lay_out shared_bytes
lay_out-SpellsTokens limits eos slots words bytes size b (label, s) =
    Ensures-or_fail _ _ tt _
      (λ edges _.
        Ensures-guard _ _ tt _
          (λ _.
            Ensures-with_locals _ _ _ tt
              (push_nodes-Traced limits [] b.build_nodes empty_trie
                (record { size = refl; nodes = λ n x e. cc }))
              (λ trie traced. Ensures-pure _ tt (λ path_bytes n node token path found is_token.
                rw
                  (
                    shared_bytes,
                    token_slot slots label b s trie traced node token path found is_token,
                  )
                  refl)))
          (λ _. tt))
      (λ _. tt)

start-Spelled :
    (slots : ℕ)
    → Spelled slots
        (λ _. [])
        (record {
          build_nodes = record { children = []; terminal_ids = [] } ∷ [];
          reverse = replicate slots none;
        })
start-Spelled slots = record {
  root = refl;
  some_node = omega arith;
  reverse = length-replicate slots none;
  nodes = only_root;
}
  where
    root : BuildNode
    root = record { children = []; terminal_ids = [] }

    only_root :
        (n : ℕ) (node : BuildNode)
        → get_elem? (root ∷ []) n ≡ some node
        → Says (λ _. []) (record { build_nodes = root ∷ []; reverse = replicate slots none }) n node
    only_root zero node e = rw (← some-injective root node e) (record { children = tt; ids = tt })
    only_root (suc n) node e = cc

build_trie-SpellsTokens :
    (limits : CompileLimits) (eos : ℕ) (entries : List (List ℕ × List ℕ)) (t : Totals)
    → Below t.max_id entries
    → Ensures (λ v _. SpellsTokens v) Fails (build_trie limits eos entries t tt)
unfolding build_trie
build_trie-SpellsTokens limits eos entries t all =
    Ensures-or_fail _ _ tt _
      (λ slots is_slots.
        Ensures-guard _ _ tt _
          (λ _.
            Ensures-or_fail _ _ tt _
              (λ rounded _.
                let s = checked_sum t.max_id 1 is_slots in
                Ensures-with_locals _ _ _ tt
                  (Ensures-for_each (IsSpelled limits slots)
                    (λ (e : List ℕ × List ℕ). All (λ id. id < slots) e.1) (insert_entry limits)
                    entries
                    (λ (bytes, ids) b fit g. insert_entry-IsSpelled limits slots bytes ids b fit g)
                    (All-map entries (λ e ids. All-map e.1 (λ id le. omega (arith, s)) ids) all) _
                    ((λ _. []), start-Spelled slots))
                  (λ b g. lay_out-SpellsTokens limits eos slots _ t.total_token_bytes slots b g))
              (λ _. tt))
          (λ _. tt))
      (λ _. tt)

-- The recognizer can read the bytes one after the other, and is live then.
pub data ReadsLive (fuel : ℕ) : List ℕ → RecognizerState → Type 0 where
  read_all : {r : RecognizerState} → is_live fuel r ≡ ok true r → ReadsLive fuel [] r
  read_one :
      {byte : ℕ} {bytes : List ℕ} {r t : RecognizerState}
      → Follows fuel byte r t
      → ReadsLive fuel bytes t
      → ReadsLive fuel (byte ∷ bytes) r

-- A way to a token that the recognizer can read.
record ReadableWay (fuel : ℕ) (trie : TokenTrie) (n : ℕ) (r : RecognizerState) (token : ℕ)
    : Type 0 where
  bytes : List ℕ
  target : ℕ
  node : TrieNode
  way : Way trie n bytes target
  found : get_elem? trie.nodes target ≡ some node
  is_token : IsToken trie node token
  reads : ReadsLive fuel bytes r

way_of_Enabled :
    {fuel : ℕ} {trie : TokenTrie} {n : ℕ} {r : RecognizerState} {token : ℕ}
    → Enabled fuel trie n r token
    → ReadableWay fuel trie n r token
way_of_Enabled {n} (here {node} found live tok) = record {
  bytes = [];
  target = n;
  node = node;
  way = Way.arrived;
  found = found;
  is_token = tok;
  reads = ReadsLive.read_all live;
}
way_of_Enabled (below {edge} i found inside at follows enabled) =
    let w = way_of_Enabled enabled in
    record {
      bytes = edge.byte ∷ w.bytes;
      target = w.target;
      node = w.node;
      way = Way.along i found inside at w.way;
      found = w.found;
      is_token = w.is_token;
      reads = ReadsLive.read_one follows w.reads;
    }

-- A token that the walk over the trie enables for a recognizer has bytes that the recognizer can read.
abbrev pub EnablesReadable : DerivedVocabulary → Type 0
EnablesReadable v =
    (fuel : ℕ) (r : RecognizerState) (token : ℕ)
    → Enabled fuel v.trie 0 r token
    → (bytes : List ℕ) × (shared_bytes v token ≡ some bytes) × ReadsLive fuel bytes r

-- In a vocabulary whose trie spells its tokens, a token that the walk enables for a recognizer has
-- bytes, and the recognizer can read them one after the other and is live then.
Enabled-ReadsLive : (v : DerivedVocabulary) → SpellsTokens v → EnablesReadable v
Enabled-ReadsLive v spells fuel r token enabled =
    let w = way_of_Enabled enabled in
    (w.bytes, spells w.bytes w.target w.node token w.way w.found w.is_token, w.reads)

-- Building the token trie of any vocabulary ends without a panic. If it succeeds, the bytes on every
-- path from the root of the trie to a token are the bytes in the token's slot. So a token that the
-- walk over the trie enables for a recognizer has bytes, which the recognizer can read one after the
-- other, and then it is live.
pub build-SpellsTokens :
    (limits : CompileLimits) (eos : ℕ) (tokens : List (List ℕ × List ℕ))
    → Ensures (λ v _. SpellsTokens v × EnablesReadable v) Fails (build limits eos tokens)
unfolding build
build-SpellsTokens limits eos tokens =
    Ensures-guard _ _ tt _
      (λ _.
        Ensures-with_locals _ _ _ tt
          (measure_entries-Below limits (sort_by_key (λ e. e.0) tokens) _)
          (λ t (_, all).
            Ensures-weaken (λ v _ spells. (spells, Enabled-ReadsLive v spells)) (λ _ _ q. q)
              (build_trie-SpellsTokens limits eos _ t all)))
      (λ _. tt)
