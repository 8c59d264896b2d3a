-- ===== src/Engine/Walk/Chain.antt =====
-- The invariant of the walk: what its stack, its recognizer and its mask have to do with the tokens
-- that the recognizer at the root allows.
use oc_earley.Prelude.{
  ℕ, ◌+◌, ◌≤◌, ◌<◌, ◌≡◌, ◌⊎◌, inl, inr, true, false, some, List, [], ◌∷◌, length, get_elem?,
  u64_max,
}
use oc_earley.Error.{RuntimeError, RuntimeLimits}
use oc_earley.Outcome.{ok, err, M}
use oc_earley.Vocabulary.Trie.{TrieNode, TrieEdge, TokenTrie}
use oc_earley.Engine.Recognizer.{RecognizerState, checkpoint}
use oc_earley.Engine.Walk.{TrieFrame, Walk, on_recognizer}
use oc_earley.Engine.Walk.Spec.{is_allowed, Revertible, Follows, Enabled, TrieOk}

-- What stays the same during a walk. `Goal` is what the token's bit is to say.
pub record Setting : Type 1 where
  pub fuel : ℕ
  pub limits : RuntimeLimits
  pub trie : TokenTrie
  pub Good : RecognizerState → Type 0
  pub After : RecognizerState → RecognizerState → Type 0
  pub laws : Revertible fuel Good After
  pub token : ℕ
  pub words : ℕ
  pub trie_ok : TrieOk trie words
  pub edges : limits.max_mask_trie_edges < u64_max
  pub root : RecognizerState
  pub root_good : Good root
  pub Goal : Type 0

module _ (c : Setting) where
  -- The token lies behind an edge of the node that is still to be taken.
  pub record Beyond (n next : ℕ) (r : RecognizerState) : Type 0 where
    pub node : TrieNode
    pub index : ℕ
    pub edge : TrieEdge
    pub target : RecognizerState
    pub is_node : get_elem? c.trie.nodes n ≡ some node
    pub ahead : next ≤ index
    pub inside : index < node.edge_len
    pub is_edge : get_elem? c.trie.edges (node.edge_start + index) ≡ some edge
    pub follows : Follows c.fuel edge.byte r target
    pub enabled : Enabled c.fuel c.trie edge.child target c.token

  -- What a frame still has to enable.
  abbrev pub Pending : TrieFrame → RecognizerState → Type 0
  Pending f r =
      ((f.emitted ≡ false) × Enabled c.fuel c.trie f.node r c.token)
      ⊎ ((f.emitted ≡ true) × Beyond f.node f.next_edge r)

  -- The frame was made at the recognizer `r`, and the current one is `cur`.
  pub record FrameOk (f : TrieFrame) (r cur : RecognizerState) : Type 0 where
    pub at : f.checkpoint ≡ checkpoint r
    pub good : c.Good r
    pub after : c.After r cur
    pub fresh : f.emitted ≡ false → (cur ≡ r) × (f.next_edge ≡ 0)
    pub exists : f.node < length c.trie.nodes
    pub sound : Enabled c.fuel c.trie f.node r c.token → c.Goal

  -- Every frame was made at a recognizer that the next one comes after. Where the goal holds, `P`
  -- does, or a frame has still to enable the token.
  abbrev pub Chain : List TrieFrame → RecognizerState → Type 0 → Type 0
  Chain [] cur P = c.After c.root cur × (c.Goal → P)
  Chain (f ∷ fs) cur P = (r : RecognizerState) × FrameOk f r cur × Chain fs r (P ⊎ Pending f r)

  pub record Inv (w : Walk) : Type 0 where
    pub size : length w.destination ≡ c.words
    pub sound : is_allowed w.destination c.token ≡ true → c.Goal
    pub chain : Chain w.stack w.recognizer (is_allowed w.destination c.token ≡ true)
    pub within : w.visited ≤ c.limits.max_mask_trie_edges

  pub Chain-map :
      (fs : List TrieFrame) (cur : RecognizerState) {P P' : Type 0}
      → (P → P')
      → Chain fs cur P
      → Chain fs cur P'
  Chain-map [] cur f (after, all) = (after, λ g. f (all g))
  Chain-map (x ∷ fs) cur f (r, fine, rest) =
      (r, fine, Chain-map fs r (λ h. elim h [ inl p ↦ inl (f p) | inr q ↦ inr q ]) rest)

  -- The current recognizer can go back to the root.
  pub Chain-After :
      (fs : List TrieFrame) (cur : RecognizerState) (P : Type 0)
      → Chain fs cur P
      → c.After c.root cur
  Chain-After [] cur P (after, all) = after
  Chain-After (f ∷ fs) cur P (r, fine, rest) =
      c.laws.further c.root r cur (Chain-After fs r _ rest) fine.after

-- A call that is known to succeed or to fail, on the recognizer.
pub on_recognizer_ok :
    {A : Type 0} (m : M RuntimeError RecognizerState A) (w : Walk) {a : A} {r : RecognizerState}
    → m w.recognizer ≡ ok a r
    → on_recognizer m w ≡ ok a (record w { recognizer = r })
on_recognizer_ok m w e = rw (e, on_recognizer)

pub on_recognizer_err :
    {A : Type 0} (m : M RuntimeError RecognizerState A) (w : Walk) {x : RuntimeError}
    {r : RecognizerState}
    → m w.recognizer ≡ err x r
    → on_recognizer m w ≡ err x (record w { recognizer = r })
on_recognizer_err m w e = rw (e, on_recognizer)
