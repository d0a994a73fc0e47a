-- ===== src/Phrase/Grow.antt =====
-- The round of `addPhrase` that adds a node: the list is a trie again, and holds what it held.
use redwood_filter.Common.{
  ℕ, zero, suc, ◌+◌, ◌<◌, ◌≡◌, ◌≢◌, inl, inr, refl, ap, ◌∙◌, true, false, ◌&&◌, List, [], ◌∷◌, ◌++◌,
  arith, ltb, nat_beq_iff, if◌then◌else◌, ltb→lt, ◌==◌, nat_eq, ==-refl, ==→eq, Bool-cases, length,
  set, length-append, length-set, get_or-set, get_or-beyond, contains, Bytes, bytes_eq,
}
use redwood_filter.Phrase.{PhraseNode, PhraseList, blank_node, node, child, set_child}
use redwood_filter.Phrase.Node.{
  IsNode, child-set_child, set_child-IsNode, match-set_child, fallback-set_child,
}
use redwood_filter.Phrase.Trie.{Reaches, IsTrie, Holds, Reaches-mono, Reaches-snoc, Reaches-unsnoc}

get_or-append_default : (p : PhraseList) (i : ℕ) → node (p ++ blank_node ∷ []) i ≡ node p i
get_or-append_default [] zero = refl
get_or-append_default [] (suc i) = refl
get_or-append_default (x ∷ p) zero = refl
get_or-append_default (x ∷ p) (suc i) = get_or-append_default p i

-- The list after a node was given a child that it did not have.
unfoldable pub grown : PhraseList → ℕ → ℕ → PhraseList
grown p n c = set p n (set_child (node p n) c (length p)) ++ blank_node ∷ []

pub grown_label : PhraseList → (ℕ → Bytes) → ℕ → ℕ → ℕ → Bytes
grown_label p label n c i = if i == length p then label n ++ c ∷ [] else label i

module _ (p : PhraseList) (label : ℕ → Bytes) (v : IsTrie p label) (n c : ℕ) (inside : n < length p)
    (byte : c < 256) (fresh : child (node p n) c ≡ 0) where
  pub length-grown : length (grown p n c) ≡ length p + 1
  unfolding grown
  length-grown = omega (
    arith,
    length-append (set p n (set_child (node p n) c (length p))) (blank_node ∷ []),
    length-set p n (set_child (node p n) c (length p)),
  )

  node-grown :
      (i : ℕ)
      → node (grown p n c) i ≡ (if n == i then set_child (node p n) c (length p) else node p i)
  unfolding grown
  node-grown i = get_or-append_default _ i ∙ get_or-set p n i _ blank_node inside

  child-grown :
      (i d : ℕ)
      → child (node (grown p n c) i) d ≡ (if n == i && c == d then length p else child (node p i) d)
  child-grown i d = elim (Bool-cases (n == i)) [
    | inl e ↦
        rw (node-grown i, e, ← ==→eq n i e)
          (child-set_child (node p n) (v.nodes n) c (length p) byte d)
    | inr e ↦ rw (node-grown i, e) refl
  ]

  grown_keeps :
      (i d : ℕ) → child (node p i) d ≢ 0 → child (node (grown p n c) i) d ≡ child (node p i) d
  grown_keeps i d h = ground (arith, child-grown i d, nat_beq_iff n i, nat_beq_iff c d, fresh)

  pub grown_label_old : (i : ℕ) → i < length p → grown_label p label n c i ≡ label i
  unfolding grown_label
  grown_label_old i h = ground arith

  pub grown_label_new : grown_label p label n c (length p) ≡ label n ++ c ∷ []
  unfolding grown_label
  grown_label_new = rw (==-refl (length p)) refl

  grown_steps :
      (i d : ℕ)
      → child (node (grown p n c) i) d ≢ 0
      → (i < child (node (grown p n c) i) d)
        × (child (node (grown p n c) i) d < length (grown p n c))
        × (grown_label p label n c (child (node (grown p n c) i) d)
            ≡ grown_label p label n c i ++ d ∷ [])
  grown_steps i d h = elim (Bool-cases (n == i && c == d)) [
    | inl e ↦
        let e' : child (node (grown p n c) i) d ≡ length p = ground (arith, child-grown i d, e) in
        let ei : n ≡ i = ground (arith, e) in
        let ed : c ≡ d = ground (arith, e) in
        rw (e', grown_label_new, ← ei, ← ed, grown_label_old n inside)
          (omega arith, omega (arith, length-grown), refl)
    | inr e ↦
        let e' : child (node (grown p n c) i) d ≡ child (node p i) d =
          ground (arith, child-grown i d, e) in
        let (low, high, eq) = v.steps i d (λ k. h (e' ∙ k)) in
        rw (e', grown_label_old _ high, grown_label_old i (omega (arith, low, high)))
          (low, omega (arith, high, length-grown), eq)
  ]

  grown_reach : (i : ℕ) → i < length p → Reaches (grown p n c) 0 (label i) i
  grown_reach i h = Reaches-mono p (grown p n c) 0 (label i) i grown_keeps (v.reach i h)

  pub child_of_grown : child (node (grown p n c) n) c ≡ length p
  child_of_grown = ground (arith, child-grown n c)

  grown-IsNode : (i : ℕ) → IsNode (node (grown p n c) i)
  grown-IsNode i =
      rw node-grown
        (elim (n == i)
          as (λ b. IsNode (if b then set_child (node p n) c (length p) else node p i)) [
            | true ↦ set_child-IsNode (node p n) (v.nodes n) c (length p) byte
            | false ↦ v.nodes i
          ])

  grown_reach_new : Reaches (grown p n c) 0 (label n ++ c ∷ []) (length p)
  grown_reach_new = rw child_of_grown at (
      Reaches-snoc (grown p n c) 0 (label n) n c (grown_reach n inside)
        (rw child_of_grown (omega (arith, v.nonempty))))

  pub grown-IsTrie : IsTrie (grown p n c) (grown_label p label n c)
  grown-IsTrie = record {
    nonempty = omega (arith, length-grown);
    root = grown_label_old 0 v.nonempty ∙ v.root;
    nodes = grown-IsNode;
    steps = grown_steps;
    reach = λ i h. elim (Bool-cases (ltb i (length p))) [
      | inl e ↦ rw (grown_label_old i (ltb→lt _ _ e)) (grown_reach i (ltb→lt _ _ e))
      | inr e ↦
          let last : i ≡ length p = ground (arith, length-grown) in
          rw (last, grown_label_new) grown_reach_new
    ];
  }

  -- The text of the new node was not in the trie.
  new_text_absent : (i : ℕ) → i < length p → label i ≢ label n ++ c ∷ []
  new_text_absent i h e =
      Reaches-unsnoc p 0 (label n) n i c (v.reach n inside) (rw e at (v.reach i h)) fresh

  pub grown-Holds :
      (phrases : List Bytes)
      → Holds phrases p label
      → Holds phrases (grown p n c) (grown_label p label n c)
  grown-Holds phrases h = record {
    matches = λ i k. elim (Bool-cases (ltb i (length p))) [
      | inl e ↦ rw (grown_label_old i (ltb→lt _ _ e)) (same_match i ∙ h.matches i (ltb→lt _ _ e))
      | inr e ↦
          let last : i ≡ length p = ground (arith, length-grown) in
          rw (last, grown_label_new) new_match
    ];
    present = λ s m.
        let (i, k, e) = h.present s m in
        (i, omega (arith, k, length-grown), grown_label_old i k ∙ e);
    fresh = λ i. same_fallback i ∙ h.fresh i;
  }
    where
      same_match : (i : ℕ) → (node (grown p n c) i).match ≡ (node p i).match
      same_match i = elim (Bool-cases (n == i)) [
        | inl e ↦
            rw (node-grown i, e, ← ==→eq n i e)
              (match-set_child (node p n) (v.nodes n) c (length p) byte)
        | inr e ↦ rw (node-grown i, e) refl
      ]

      same_fallback : (i : ℕ) → (node (grown p n c) i).fallback ≡ (node p i).fallback
      same_fallback i = elim (Bool-cases (n == i)) [
        | inl e ↦
            rw (node-grown i, e, ← ==→eq n i e)
              (fallback-set_child (node p n) (v.nodes n) c (length p) byte)
        | inr e ↦ rw (node-grown i, e) refl
      ]

      new_match :
          (node (grown p n c) (length p)).match
          ≡ (if contains phrases (label n ++ c ∷ []) then label n ++ c ∷ [] else [])
      new_match = elim (Bool-cases (contains phrases (label n ++ c ∷ []))) [
        | inl e ↦ let (i, k, q) = h.present _ e in absurd (new_text_absent i k q)
        | inr e ↦ rw e (
            same_match (length p)
            ∙ ap (λ (m : PhraseNode). m.match)
                (get_or-beyond p (length p) blank_node (omega arith)))
      ]
