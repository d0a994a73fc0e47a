-- ===== src/Phrase/Suffix.antt =====
-- What the inner loops find in a trie: `follow` finds the node of a text, and `first_suffix` the
-- node of the longest suffix of a text that is in the trie.
use redwood_filter.Common.{
  ℕ, ◌≤◌, ◌<◌, ◌≡◌, ◌≢◌, inl, inr, refl, sym, ap, ◌∙◌, [], ◌∷◌, ◌++◌, append-nil, append_assoc,
  arith, ◌==◌, nat_eq, ==→eq, Bool-cases, length, length-append, Bytes, bytes_eq,
}
use redwood_filter.Phrase.{PhraseList, node, child, follow, first_suffix}
use redwood_filter.Phrase.Trie.{Reaches, IsTrie, SameLinks, SameLinks-child}

follow-Reaches : (p : PhraseList) (n : ℕ) (t : Bytes) (j : ℕ) → Reaches p n t j → follow p n t ≡ j
unfolding follow
follow-Reaches p n [] j e = e
follow-Reaches p n (c ∷ t) j (h, r) = ground (arith, h, follow-Reaches p (child (node p n) c) t j r)

-- One more byte after a node that was found.
pub follow-snoc :
    (p : PhraseList) (n : ℕ) (t : Bytes) (c : ℕ)
    → follow p n t ≢ 0
    → follow p n (t ++ c ∷ []) ≡ child (node p (follow p n t)) c
unfolding follow
follow-snoc p n [] c h = ground arith
follow-snoc p n (d ∷ t) c h = ground (arith, follow-snoc p (child (node p n) d) t c)

-- Nothing is found after a text that is not in the trie.
follow-snoc_absent :
    (p : PhraseList) (n d : ℕ) (t : Bytes) (c : ℕ)
    → follow p n (d ∷ t) ≡ 0
    → follow p n (d ∷ t ++ c ∷ []) ≡ 0
unfolding follow
follow-snoc_absent p n d [] c h = ground arith
follow-snoc_absent p n d (e ∷ t) c h =
    ground (arith, follow-snoc_absent p (child (node p n) d) e t c)

SameLinks-follow :
    (p q : PhraseList) → SameLinks p q → (n : ℕ) (t : Bytes) → follow q n t ≡ follow p n t
unfolding follow
SameLinks-follow p q same n [] = refl
SameLinks-follow p q same n (c ∷ t) =
    rw (SameLinks-child p q same n c)
      (ground (arith, SameLinks-follow p q same (child (node p n) c) t))

pub SameLinks-first_suffix :
    (p q : PhraseList) → SameLinks p q → (t : Bytes) → first_suffix q t ≡ first_suffix p t
unfolding first_suffix
SameLinks-first_suffix p q same [] = refl
SameLinks-first_suffix p q same (c ∷ t) =
    ground (arith, SameLinks-follow p q same 0 (c ∷ t), SameLinks-first_suffix p q same t)

module _ (p : PhraseList) (label : ℕ → Bytes) (v : IsTrie p label) where
  pub follow-label : (i : ℕ) → i < length p → follow p 0 (label i) ≡ i
  follow-label i h = follow-Reaches p 0 (label i) i (v.reach i h)

  label-follow_from :
      (n : ℕ) (t : Bytes)
      → n < length p
      → follow p n t ≢ 0
      → (follow p n t < length p) × (label (follow p n t) ≡ label n ++ t)
  unfolding follow
  label-follow_from n [] h k = (h, sym (append-nil (label n)))
  label-follow_from n (c ∷ t) h k = elim (Bool-cases (child (node p n) c == 0)) [
    | inl e ↦ absurd (k (rw e))
    | inr e ↦
        let (low, high, eq) = v.steps n c (ground (arith, e)) in
        let (inside, ends) =
          label-follow_from (child (node p n) c) t high (λ z. k (ground (arith, z))) in
        rw e (inside, ends ∙ (ap (λ s. s ++ t) eq ∙ append_assoc (label n) (c ∷ []) t))
  ]

  -- What is found has the text for its label.
  pub label-follow :
      (t : Bytes) → follow p 0 t ≢ 0 → (follow p 0 t < length p) × (label (follow p 0 t) ≡ t)
  label-follow t h =
      let (inside, ends) = label-follow_from 0 t v.nonempty h in
      (inside, ends ∙ ap (λ s. s ++ t) v.root)

  pub first_suffix-lt : (t : Bytes) → first_suffix p t < length p
  unfolding first_suffix
  first_suffix-lt [] = v.nonempty
  first_suffix-lt (c ∷ t) = elim (Bool-cases (follow p 0 (c ∷ t) == 0)) [
    | inl e ↦ rw e (first_suffix-lt t)
    | inr e ↦ rw e (label-follow (c ∷ t) (ground (arith, e))).0
  ]

  pub length-first_suffix-le : (t : Bytes) → length (label (first_suffix p t)) ≤ length t
  unfolding first_suffix
  length-first_suffix-le [] = omega (arith, ap length v.root)
  length-first_suffix-le (c ∷ t) = elim (Bool-cases (follow p 0 (c ∷ t) == 0)) [
    | inl e ↦ rw e (omega (arith, length-first_suffix-le t))
    | inr e ↦ rw e (omega (arith, ap length (label-follow (c ∷ t) (ground (arith, e))).1))
  ]

  -- The longest suffix of a longer text is found from the longest suffix alone: what the scanner
  -- forgets does not matter.
  pub first_suffix-snoc :
      (t : Bytes) (c : ℕ)
      → first_suffix p (label (first_suffix p t) ++ c ∷ []) ≡ first_suffix p (t ++ c ∷ [])
  unfolding first_suffix
  first_suffix-snoc [] c = rw v.root refl
  first_suffix-snoc (d ∷ t) c = elim (Bool-cases (follow p 0 (d ∷ t) == 0)) [
    | inl e ↦ rw (e, follow-snoc_absent p 0 d t c (==→eq _ 0 e)) (first_suffix-snoc t c)
    | inr e ↦ rw (e, (label-follow (d ∷ t) (ground (arith, e))).1) refl
  ]

  -- A node's own label is the longest suffix of itself.
  pub first_suffix-label : (i : ℕ) → i < length p → first_suffix p (label i) ≡ i
  unfolding first_suffix follow
  first_suffix-label i h = go (label i) refl (follow-label i h)
    where
      go : (t : Bytes) → label i ≡ t → follow p 0 t ≡ i → first_suffix p t ≡ i
      go [] q e = e
      go (c ∷ t) q e =
          let found : i ≢ 0 = λ z. cc (q, v.root, ap label z) in
          elim (Bool-cases (follow p 0 (c ∷ t) == 0)) [
            | inl z ↦ absurd (found (sym e ∙ ==→eq _ 0 z))
            | inr z ↦ rw (z) e
          ]

  -- `length (label i) ≤ i`: a child stands behind its parent in the list.
  length-label_from :
      (n : ℕ) (t : Bytes) (j : ℕ) → Reaches p n t j → length (label n) ≤ n → length (label j) ≤ j
  length-label_from n [] j e h = rw e at h
  length-label_from n (c ∷ t) j (k, r) h =
      let (low, _, eq) = v.steps n c k in
      length-label_from (child (node p n) c) t j r
        (omega (arith, low, ap length eq, length-append (label n) (c ∷ [])))

  pub length-label-le : (i : ℕ) → i < length p → length (label i) ≤ i
  length-label-le i h =
      length-label_from 0 (label i) i (v.reach i h) (omega (arith, ap length v.root))
