-- ===== src/Phrase/Traverse.antt =====
-- The traversal of `findFallbackNodes`. The fuel bounds its depth, since a child's index is larger.
use redwood_filter.Common.{
  ℕ, zero, suc, ◌+◌, ◌≤◌, ◌<◌, ◌≡◌, ◌≢◌, inl, inr, refl, sym, ap, ◌∙◌, true, false, List, [], ◌∷◌,
  ◌++◌, arith, ltb, if◌then◌else◌, ltb→lt, ◌==◌, nat_eq, ==→eq, Bool-cases, length, get_or, all,
  Bytes, bytes_eq,
}
use redwood_filter.Phrase.{
  PhraseNode, PhraseList, node, child, is_nil, first_suffix, tail_of, set_fallback, each_child,
  traverse, visit_node, find_fallback_nodes,
}
use redwood_filter.Phrase.Node.{child-array, child-only, child-beyond}
use redwood_filter.Phrase.Trie.{IsTrie, links, child-of_links, IsNode-of_links}
use redwood_filter.Phrase.Suffix.{SameLinks-first_suffix}
use redwood_filter.Phrase.Fallback.{
  Progress, Done, Covers, Moves, Moves-refl, Moves-trans, Moves-Covers, set_fallback-Moves,
}

module _ (p : PhraseList) (label : ℕ → Bytes) (v : IsTrie p label) where
  -- What a visit with fuel `k` does, wherever the fuel is enough.
  abbrev Visits : ℕ → (ℕ → Bytes → PhraseList → PhraseList) → Type 0
  Visits k visit =
      (n : ℕ) (q : PhraseList)
      → n < length p
      → length p ≤ n + k
      → Progress p label v q
      → Moves p label v q (visit n (label n) q) × Covers p label v (visit n (label n) q) n

  AllCovered : PhraseList → List ℕ → Type 0
  AllCovered q ns = (i : ℕ) → i < length ns → get_or ns i 0 ≢ 0 → Covers p label v q (get_or ns i 0)

  AllCovered-cons :
      (q : PhraseList) (m : ℕ) (ns : List ℕ)
      → (m ≢ 0 → Covers p label v q m)
      → AllCovered q ns
      → AllCovered q (m ∷ ns)
  unfolding AllCovered
  AllCovered-cons q m ns h k zero b z = h z
  AllCovered-cons q m ns h k (suc i) b z = k i (omega arith) z

  ChildrenCovered : ℕ → PhraseList → Type 0
  ChildrenCovered n q = (c : ℕ) → child (node p n) c ≢ 0 → Covers p label v q (child (node p n) c)

  Covers-of_children :
      (n : ℕ) (q : PhraseList) → Done p label v q n → ChildrenCovered n q → Covers p label v q n
  unfolding ChildrenCovered
  Covers-of_children n q done below [] j e = rw (← e) done
  Covers-of_children n q done below (c ∷ t) j (h, r) = below c h t j r

  module _ (k n : ℕ) (visit : ℕ → Bytes → PhraseList → PhraseList) (ok : Visits k visit)
      (fuel : length p ≤ n + suc k) where
    -- The visit of one child, with the text that the source builds for it.
    visit_child :
        (c m : ℕ) (q : PhraseList)
        → child (node p n) c ≡ m
        → m ≢ 0
        → Progress p label v q
        → Moves p label v q (visit m (label n ++ c ∷ []) q)
          × Covers p label v (visit m (label n ++ c ∷ []) q) m
    visit_child c m q e h g =
        let (low, high, eq) = v.steps n c (λ z. h (sym e ∙ z)) in
        let low' : n < m = omega (arith, low, e) in
        let high' : m < length p = omega (arith, high, e) in
        let eq' : label m ≡ label n ++ c ∷ [] = ap label (sym e) ∙ eq in
        rw eq' at (ok m q high' (omega (arith, low', fuel)) g)

    -- One round of the loop over the children.
    child_entry :
        (c m : ℕ) (q : PhraseList)
        → child (node p n) c ≡ m
        → Progress p label v q
        → Moves p label v q (if m == 0 then q else visit m (label n ++ c ∷ []) q)
          × (m ≢ 0 → Covers p label v (if m == 0 then q else visit m (label n ++ c ∷ []) q) m)
    child_entry c m q e g = elim (Bool-cases (m == 0)) [
      | inl z ↦ rw z (Moves-refl p label v q g, λ h. absurd (h (==→eq m 0 z)))
      | inr z ↦
          let (moves, covers) = visit_child c m q e (ground (arith, z)) g in
          rw z (moves, λ _. covers)
    ]

    each_child-Moves :
        (c : ℕ) (ns : List ℕ) (q : PhraseList)
        → ((i : ℕ) → i < length ns → child (node p n) (c + i) ≡ get_or ns i 0)
        → Progress p label v q
        → Moves p label v q (each_child visit (label n) c ns q)
          × AllCovered (each_child visit (label n) c ns q) ns
    unfolding each_child
    each_child-Moves c [] q e g = (Moves-refl p label v q g, unfold AllCovered in λ i h. elim h [ ])
    each_child-Moves c (m ∷ ns) q e g =
        let at_c : child (node p n) c ≡ m =
          ap (λ d. child (node p n) d) (omega arith) ∙ e 0 (omega arith) in
        let (first, first_covers) = child_entry c m q at_c g in
        let (after, covers) =
          each_child-Moves (c + 1) ns (if m == 0 then q else visit m (label n ++ c ∷ []) q)
            (λ i h. ap (λ d. child (node p n) d) (omega arith) ∙ e (suc i) (omega arith))
            first.progress in
        (
          Moves-trans p label v q _ _ first after,
          AllCovered-cons _ m ns (λ z. Moves-Covers p label v _ _ m after (first_covers z)) covers,
        )

    -- The node that is traversed, which has the links of the node of the trie.
    module _ (u : PhraseNode) (e : links u ≡ links (node p n)) where
      same_child : (c : ℕ) → child (node p n) c ≡ child u c
      same_child c = sym (child-of_links u (node p n) e c)

      array_covered :
          (q : PhraseList)
          → is_nil u.children ≡ false
          → AllCovered q u.children
          → ChildrenCovered n q
      unfolding AllCovered ChildrenCovered
      array_covered q z all c h = elim (Bool-cases (ltb c (length u.children))) [
        | inl b ↦
            let e' : child (node p n) c ≡ get_or u.children c 0 =
              same_child c ∙ child-array u c (ltb→lt _ _ b) in
            rw e' (all c (ltb→lt _ _ b) (λ w. h (e' ∙ w)))
        | inr b ↦ absurd (
            h (
              same_child c
              ∙ child-beyond u (IsNode-of_links u (node p n) e (v.nodes n)) c (ground arith)
                  (ground arith)))
      ]

      only_covered :
          (q : PhraseList)
          → is_nil u.children ≡ true
          → Covers p label v q u.only_child
          → ChildrenCovered n q
      unfolding ChildrenCovered
      only_covered q z covers c h = elim (Bool-cases (c == u.only_child_byte)) [
        | inl b ↦
            let e' : child (node p n) c ≡ u.only_child =
              ground (arith, same_child c, child-only u c z, b) in
            rw e' covers
        | inr b ↦ absurd (h (ground (arith, same_child c, child-only u c z, b)))
      ]

      none_covered :
          (q : PhraseList) → is_nil u.children ≡ true → u.only_child ≡ 0 → ChildrenCovered n q
      unfolding ChildrenCovered
      none_covered q z w c h = absurd (h (ground (arith, same_child c, child-only u c z, w)))

      traverse-Moves :
          (q : PhraseList)
          → Progress p label v q
          → Moves p label v q (traverse visit u (label n) q)
            × ChildrenCovered n (traverse visit u (label n) q)
      unfolding traverse
      traverse-Moves q g = elim (Bool-cases (is_nil u.children)) [
        | inr z ↦
            let (moves, covers) =
              each_child-Moves 0 u.children q
                (λ i h. same_child (0 + i) ∙ ap (λ d. child u d) (omega arith) ∙ child-array u i h)
                g in
            rw z (moves, array_covered _ z covers)
        | inl z ↦ elim (Bool-cases (u.only_child == 0)) [
          | inl w ↦ rw (z, w) (Moves-refl p label v q g, none_covered q z (==→eq _ 0 w))
          | inr w ↦
              let (moves, covers) =
                visit_child u.only_child_byte u.only_child q
                  (ground (arith, same_child u.only_child_byte, child-only u u.only_child_byte z))
                  (ground (arith, w)) g in
              rw (z, w) (moves, only_covered _ z covers)
        ]
      ]

  visit_node-Visits : (k : ℕ) → Visits k (visit_node k)
  unfolding visit_node
  visit_node-Visits zero n q inside fuel g = absurd (omega (arith, fuel, inside))
  visit_node-Visits (suc k) n q inside fuel g =
      let text = tail_of (label n) in
      let (first, done) =
        set_fallback-Moves p label v q n g inside (first_suffix q text)
          (SameLinks-first_suffix p q g.same text) in
      let (rest, covers) =
        traverse-Moves k n (visit_node k) (visit_node-Visits k) fuel (node q n)
          (g.same.same_links n) (set_fallback q n (first_suffix q text)) first.progress in
      (Moves-trans p label v q _ _ first rest, Covers-of_children n _ (rest.keeps n done) covers)

  -- With no pointer set at first, every node gets the pointer that it must have.
  pub find_fallback_nodes-Done :
      ((i : ℕ) → (node p i).fallback ≡ 0)
      → Progress p label v (find_fallback_nodes p)
        × ((i : ℕ) → i < length p → Done p label v (find_fallback_nodes p) i)
  unfolding find_fallback_nodes
  find_fallback_nodes-Done fresh =
      let start : Progress p label v p = record {
        same = record { same_length = refl; same_links = λ i. refl };
        same_match = λ i. refl;
        partial = λ i. inl (fresh i);
      } in
      let (moves, covers) =
        rw v.root at (visit_node-Visits (length p) 0 p v.nonempty (omega arith) start) in
      (moves.progress, λ i h. covers (label i) i (v.reach i h))
