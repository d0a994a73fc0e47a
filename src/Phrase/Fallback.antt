-- ===== src/Phrase/Fallback.antt =====
-- The list during the traversal of `findFallbackNodes`, and the step that sets one pointer.
use redwood_filter.Common.{
  ℕ, ◌<◌, ◌≡◌, ◌⊎◌, inl, inr, refl, ◌∙◌, arith, if◌then◌else◌, ◌==◌, nat_eq, ==-refl, ==→eq,
  Bool-cases, length, set, length-set, get_or-set, Bytes, bytes_eq,
}
use redwood_filter.Phrase.{PhraseList, blank_node, node, first_suffix, tail_of, set_fallback}
use redwood_filter.Phrase.Trie.{Reaches, IsTrie, SameLinks}

module _ (p : PhraseList) (label : ℕ → Bytes) (v : IsTrie p label) where
  -- The node of the longest proper suffix of the node's text.
  abbrev pub fallback_of : ℕ → ℕ
  fallback_of i = first_suffix p (tail_of (label i))

  -- The list during the traversal: only fallback pointers have changed, and only to what they must
  -- become.
  pub record Progress (q : PhraseList) : Type 0 where
    pub same : SameLinks p q
    pub same_match : (i : ℕ) → (node q i).match ≡ (node p i).match
    pub partial : (i : ℕ) → ((node q i).fallback ≡ 0) ⊎ ((node q i).fallback ≡ fallback_of i)

  abbrev pub Done : PhraseList → ℕ → Type 0
  Done q i = (node q i).fallback ≡ fallback_of i

  -- Everything below `n` is done, `n` included.
  abbrev pub Covers : PhraseList → ℕ → Type 0
  Covers q n = (t : Bytes) (j : ℕ) → Reaches p n t j → Done q j

  pub record Moves (q q' : PhraseList) : Type 0 where
    pub progress : Progress q'
    pub keeps : (i : ℕ) → Done q i → Done q' i

  pub Moves-refl : (q : PhraseList) → Progress q → Moves q q
  Moves-refl q g = record { progress = g; keeps = λ i d. d }

  pub Moves-trans : (q r s : PhraseList) → Moves q r → Moves r s → Moves q s
  Moves-trans q r s a b = record { progress = b.progress; keeps = λ i d. b.keeps i (a.keeps i d) }

  pub Moves-Covers : (q r : PhraseList) (n : ℕ) → Moves q r → Covers q n → Covers r n
  Moves-Covers q r n m c t j reached = m.keeps j (c t j reached)

  module _ (q : PhraseList) (n : ℕ) (g : Progress q) (inside : n < length p) where
    pointed : PhraseList
    pointed = set q n (record (node q n) { fallback = fallback_of n })

    node-pointed :
        (i : ℕ)
        → node pointed i
          ≡ (if n == i then record (node q n) { fallback = fallback_of n } else node q i)
    unfolding pointed
    node-pointed i = get_or-set q n i _ blank_node (omega (arith, g.same.same_length))

    pointed-Progress : Progress pointed
    pointed-Progress = record {
      same = record {
        same_length = unfold pointed in length-set q n _ ∙ g.same.same_length;
        same_links = λ i. elim (Bool-cases (n == i)) [
          | inl e ↦ rw (node-pointed i, e, ← ==→eq n i e) (g.same.same_links n)
          | inr e ↦ rw (node-pointed i, e) (g.same.same_links i)
        ];
      };
      same_match = λ i. elim (Bool-cases (n == i)) [
        | inl e ↦ rw (node-pointed i, e, ← ==→eq n i e) (g.same_match n)
        | inr e ↦ rw (node-pointed i, e) (g.same_match i)
      ];
      partial = λ i. elim (Bool-cases (n == i)) [
        | inl e ↦ rw (node-pointed i, e, ← ==→eq n i e) (inr refl)
        | inr e ↦ rw (node-pointed i, e) (g.partial i)
      ];
    }

    pointed-Done : Done pointed n
    pointed-Done = rw (node-pointed n, ==-refl n) refl

    pointed-Moves : Moves q pointed
    pointed-Moves = record {
      progress = pointed-Progress;
      keeps = λ i d. elim (Bool-cases (n == i)) [
        | inl e ↦ rw (← ==→eq n i e) pointed-Done
        | inr e ↦ rw (node-pointed i, e) d
      ];
    }

    -- The first part of a visit.
    pub set_fallback-Moves :
        (f : ℕ) → f ≡ fallback_of n → Moves q (set_fallback q n f) × Done (set_fallback q n f) n
    unfolding set_fallback
    set_fallback-Moves f e = elim (Bool-cases (f == 0)) [
      | inl z ↦ rw z (Moves-refl q g, ground (arith, e, g.partial n))
      | inr z ↦ rw (z, e) (unfold pointed in (pointed-Moves, pointed-Done))
    ]
