-- ===== src/Phrase/Trie.antt =====
-- Building the trie: every node is reached from the root by exactly one text, its label.
use redwood_filter.Common.{
  ℕ, ◌<◌, ◌≡◌, ◌≢◌, refl, sym, ap, ◌∙◌, true, List, [], ◌∷◌, ◌++◌, arith, if◌then◌else◌, nat_eq,
  length, contains, Bytes, bytes_eq,
}
use redwood_filter.Phrase.{PhraseNode, PhraseList, node, child}
use redwood_filter.Phrase.Node.{IsNode}

-- `text` leads from node `n` to node `j`.
abbrev pub Reaches : PhraseList → ℕ → Bytes → ℕ → Type 0
Reaches p n [] j = n ≡ j
Reaches p n (c ∷ text) j = (child (node p n) c ≢ 0) × Reaches p (child (node p n) c) text j

pub record IsTrie (p : PhraseList) (label : ℕ → Bytes) : Type 0 where
  pub nonempty : 0 < length p
  pub root : label 0 ≡ []
  pub nodes : (i : ℕ) → IsNode (node p i)
  pub steps :
      (i c : ℕ)
      → child (node p i) c ≢ 0
      → (i < child (node p i) c)
        × (child (node p i) c < length p)
        × (label (child (node p i) c) ≡ label i ++ c ∷ [])
  pub reach : (i : ℕ) → i < length p → Reaches p 0 (label i) i

-- The node of a phrase holds it, no other node holds one, and no fallback pointer is set yet.
pub record Holds (phrases : List Bytes) (p : PhraseList) (label : ℕ → Bytes) : Type 0 where
  pub matches :
      (i : ℕ)
      → i < length p
      → (node p i).match ≡ (if contains phrases (label i) then label i else [])
  pub present : (s : Bytes) → contains phrases s ≡ true → (i : ℕ) × (i < length p) × (label i ≡ s)
  pub fresh : (i : ℕ) → (node p i).fallback ≡ 0

pub Reaches-mono :
    (p q : PhraseList) (n : ℕ) (t : Bytes) (j : ℕ)
    → ((i c : ℕ) → child (node p i) c ≢ 0 → child (node q i) c ≡ child (node p i) c)
    → Reaches p n t j
    → Reaches q n t j
Reaches-mono p q n [] j same r = r
Reaches-mono p q n (c ∷ t) j same (h, r) =
    rw (same n c h) (h, Reaches-mono p q (child (node p n) c) t j same r)

pub Reaches-snoc :
    (p : PhraseList) (n : ℕ) (t : Bytes) (j c : ℕ)
    → Reaches p n t j
    → child (node p j) c ≢ 0
    → Reaches p n (t ++ c ∷ []) (child (node p j) c)
Reaches-snoc p n [] j c e h = rw e (h, refl)
Reaches-snoc p n (d ∷ t) j c (k, r) h = (k, Reaches-snoc p (child (node p n) d) t j c r h)

pub Reaches-unsnoc :
    (p : PhraseList) (n : ℕ) (t : Bytes) (j k c : ℕ)
    → Reaches p n t j
    → Reaches p n (t ++ c ∷ []) k
    → child (node p j) c ≢ 0
Reaches-unsnoc p n [] j k c e r = rw e at r.0
Reaches-unsnoc p n (d ∷ t) j k c (_, r) (_, q) = Reaches-unsnoc p (child (node p n) d) t j k c r q

pub Reaches-unique :
    (p : PhraseList) (n : ℕ) (t : Bytes) (j k : ℕ) → Reaches p n t j → Reaches p n t k → j ≡ k
Reaches-unique p n [] j k e f = sym e ∙ f
Reaches-unique p n (c ∷ t) j k (_, r) (_, q) = Reaches-unique p (child (node p n) c) t j k r q

-- What a node's transitions depend on.
abbrev pub links : PhraseNode → PhraseNode
links n = record n { match = []; fallback = 0 }

-- The same trie, with other phrases or fallback pointers at its nodes.
pub record SameLinks (p q : PhraseList) : Type 0 where
  pub same_length : length q ≡ length p
  pub same_links : (i : ℕ) → links (node q i) ≡ links (node p i)

child-links : (n : PhraseNode) (c : ℕ) → child (links n) c ≡ child n c
unfolding child
child-links n c = refl

pub child-of_links : (m n : PhraseNode) → links m ≡ links n → (c : ℕ) → child m c ≡ child n c
child-of_links m n e c = sym (child-links m c) ∙ (ap (λ n. child n c) e ∙ child-links n c)

IsNode-links : (n : PhraseNode) → IsNode (links n) → IsNode n
IsNode-links n v = record { sizes = v.sizes; covers = v.covers; byte = v.byte }

links-IsNode : (n : PhraseNode) → IsNode n → IsNode (links n)
links-IsNode n v = record { sizes = v.sizes; covers = v.covers; byte = v.byte }

pub IsNode-of_links : (m n : PhraseNode) → links m ≡ links n → IsNode n → IsNode m
IsNode-of_links m n e v = IsNode-links m (rw e (links-IsNode n v))

module _ (p q : PhraseList) (same : SameLinks p q) where
  pub SameLinks-child : (i c : ℕ) → child (node q i) c ≡ child (node p i) c
  SameLinks-child i c = child-of_links (node q i) (node p i) (same.same_links i) c

  pub SameLinks-IsTrie : (label : ℕ → Bytes) → IsTrie p label → IsTrie q label
  SameLinks-IsTrie label v = record {
    nonempty = omega (arith, v.nonempty, same.same_length);
    root = v.root;
    nodes = λ i. IsNode-of_links (node q i) (node p i) (same.same_links i) (v.nodes i);
    steps = λ i c. rw (SameLinks-child i c, same.same_length) (v.steps i c);
    reach = λ i h.
        Reaches-mono p q 0 (label i) i (λ j c _. SameLinks-child j c)
          (v.reach i (omega (arith, same.same_length)));
  }

-- A node is known by its label.
pub label-injective :
    (p : PhraseList) (label : ℕ → Bytes)
    → IsTrie p label
    → (i j : ℕ) → i < length p
    → j < length p
    → label i ≡ label j
    → i ≡ j
label-injective p label t i j hi hj e =
    Reaches-unique p 0 (label j) i j (rw e at (t.reach i hi)) (t.reach j hj)
