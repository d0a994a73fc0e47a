-- ===== src/Phrase/Scan.antt =====
-- The scanner: its state is the longest suffix of what it has read that is in the trie, and it
-- reports exactly the phrases that end where it stands.
use redwood_filter.Common.{
  ℕ, zero, suc, ◌<◌, ◌≡◌, ◌≢◌, ◌⊎◌, inl, inr, refl, sym, ap, ◌∙◌, true, false, some, List, [], ◌∷◌,
  ◌++◌, append-nil, append_assoc, arith, if◌then◌else◌, ◌==◌, nat_eq, ==→eq, Bool-cases, length,
  All, contains, Bytes, IsBytes, bytes_eq, ◌>>=◌,
}
use redwood_filter.Phrase.{
  PhraseList, node, child, follow, first_suffix, tail_of, find_fallback_nodes, add_phrases,
  new_phrase_list, transition, report, cons_match, scan_byte, scan_from, matches_of, phrase_matches,
  matching_suffixes, occurrences,
}
use redwood_filter.Phrase.Trie.{IsTrie, SameLinks-IsTrie}
use redwood_filter.Phrase.Build.{built-Holds}
use redwood_filter.Phrase.Suffix.{
  SameLinks-first_suffix, follow-label, follow-snoc, label-follow, first_suffix-lt,
  length-first_suffix-le, first_suffix-snoc, length-label-le,
}
use redwood_filter.Phrase.Traverse.{find_fallback_nodes-Done}

pub record IsAutomaton (phrases : List Bytes) (q : PhraseList) (label : ℕ → Bytes) : Type 0 where
  pub trie : IsTrie q label
  pub matches :
      (i : ℕ)
      → i < length q
      → (node q i).match ≡ (if contains phrases (label i) then label i else [])
  pub present : (s : Bytes) → contains phrases s ≡ true → (i : ℕ) × (i < length q) × (label i ≡ s)
  pub pointers : (i : ℕ) → i < length q → (node q i).fallback ≡ first_suffix q (tail_of (label i))

module _ (phrases : List Bytes) (q : PhraseList) (label : ℕ → Bytes)
    (a : IsAutomaton phrases q label) where
  -- A node below the root: its text, and where its pointer leads.
  record IsInner (n : ℕ) : Type 0 where
    first : ℕ
    rest : Bytes
    text : label n ≡ first ∷ rest
    not_root : n ≢ 0
    found : follow q 0 (first ∷ rest) ≡ n
    pointer : (node q n).fallback ≡ first_suffix q rest
    shorter : length (label (first_suffix q rest)) < length (label n)

  root-or-IsInner : (n : ℕ) → n < length q → (n ≡ 0) ⊎ IsInner n
  unfolding follow
  root-or-IsInner n h = go (label n) refl
    where
      found_at : (t : Bytes) → label n ≡ t → follow q 0 t ≡ n
      found_at t e = ap (follow q 0) (sym e) ∙ follow-label q label a.trie n h

      go : (t : Bytes) → label n ≡ t → (n ≡ 0) ⊎ IsInner n
      go [] e = inl (sym (found_at [] e))
      go (d ∷ t) e = inr (record {
        first = d;
        rest = t;
        text = e;
        not_root = λ z. cc (e, ap label z, a.trie.root);
        found = found_at (d ∷ t) e;
        pointer = a.pointers n h ∙ ap (λ s. first_suffix q (tail_of s)) e;
        shorter = omega (arith, length-first_suffix-le q label a.trie t, ap length e);
      })

  child_of_inner :
      (n c : ℕ) (s : IsInner n) → follow q 0 (s.first ∷ s.rest ++ c ∷ []) ≡ child (node q n) c
  child_of_inner n c s =
      follow-snoc q 0 (s.first ∷ s.rest) c (λ z. s.not_root (sym s.found ∙ z))
      ∙ ap (λ i. child (node q i) c) s.found

  transition_root : (k c : ℕ) → transition (suc k) q 0 c ≡ some (first_suffix q (label 0 ++ c ∷ []))
  unfolding transition first_suffix follow
  transition_root k c = rw a.trie.root (ground arith)

  transition_inner :
      (k n c : ℕ) (s : IsInner n)
      → transition k q (first_suffix q s.rest) c ≡ some (first_suffix q (s.rest ++ c ∷ []))
      → transition (suc k) q n c ≡ some (first_suffix q (label n ++ c ∷ []))
  unfolding transition first_suffix
  transition_inner k n c s ih =
      rw (s.text, s.pointer) (ground (arith, s.not_root, child_of_inner n c s, ih))

  -- The fallback chain ends, at the longest suffix that the byte continues.
  transition-first_suffix :
      (k n c : ℕ)
      → n < length q
      → length (label n) < k
      → transition k q n c ≡ some (first_suffix q (label n ++ c ∷ []))
  transition-first_suffix zero n c h b = absurd (omega (arith, b))
  transition-first_suffix (suc k) n c h b = elim (root-or-IsInner n h) [
    | inl z ↦ rw z (transition_root k c)
    | inr s ↦ transition_inner k n c s (
        transition-first_suffix k (first_suffix q s.rest) c (first_suffix-lt q label a.trie s.rest)
          (omega (arith, s.shorter, b))
        ∙ ap some (first_suffix-snoc q label a.trie s.rest c))
  ]

  -- What is not in the trie is no phrase.
  absent-contains : (c : ℕ) (t : Bytes) → follow q 0 (c ∷ t) ≡ 0 → contains phrases (c ∷ t) ≡ false
  absent-contains c t e = elim (Bool-cases (contains phrases (c ∷ t))) [
    | inr k ↦ k
    | inl k ↦
        let (i, h, l) = a.present (c ∷ t) k in
        let z : i ≡ 0 = sym (follow-label q label a.trie i h) ∙ (ap (follow q 0) l ∙ e) in
        cc (l, ap label z, a.trie.root)
  ]

  matching_suffixes-first_suffix :
      (t : Bytes)
      → matching_suffixes phrases (label (first_suffix q t)) ≡ matching_suffixes phrases t
  unfolding first_suffix matching_suffixes
  matching_suffixes-first_suffix [] = rw a.trie.root
  matching_suffixes-first_suffix (c ∷ t) = elim (Bool-cases (follow q 0 (c ∷ t) == 0)) [
    | inr e ↦ rw (e, (label-follow q label a.trie (c ∷ t) (ground (arith, e))).1)
    | inl e ↦ rw (e, absent-contains c t (==→eq _ 0 e)) (matching_suffixes-first_suffix t)
  ]

  report_inner :
      (k n : ℕ) (s : IsInner n)
      → n < length q
      → report k q (first_suffix q s.rest) ≡ some (matching_suffixes phrases s.rest)
      → report (suc k) q n ≡ some (matching_suffixes phrases (label n))
  unfolding report matching_suffixes cons_match
  report_inner k n s h ih =
      rw (s.text, s.pointer, a.matches n h, s.text, ih) (ground (arith, s.not_root))

  report-matching_suffixes :
      (k n : ℕ)
      → n < length q
      → length (label n) < k
      → report k q n ≡ some (matching_suffixes phrases (label n))
  report-matching_suffixes zero n h b = absurd (omega (arith, b))
  report-matching_suffixes (suc k) n h b = elim (root-or-IsInner n h) [
    | inl z ↦ rw (z, a.trie.root) (unfold report matching_suffixes in refl)
    | inr s ↦ report_inner k n s h (
        report-matching_suffixes k (first_suffix q s.rest) (first_suffix-lt q label a.trie s.rest)
          (omega (arith, s.shorter, b))
        ∙ ap some (matching_suffixes-first_suffix s.rest))
  ]

  label_fits : (n : ℕ) → n < length q → length (label n) < length q
  label_fits n h = omega (arith, length-label-le q label a.trie n h)

  -- One byte: the state stays the longest suffix, and the calls are the phrases that end here.
  pub scan_byte-first_suffix :
      (before : Bytes) (c : ℕ)
      → scan_byte q (first_suffix q before) c
        ≡ some (first_suffix q (before ++ c ∷ []), matching_suffixes phrases (before ++ c ∷ []))
  unfolding scan_byte
  scan_byte-first_suffix before c =
      let n = first_suffix q before in
      let h : n < length q = first_suffix-lt q label a.trie before in
      let after : Bytes = before ++ c ∷ [] in
      let m = first_suffix q after in
      let h' : m < length q = first_suffix-lt q label a.trie after in
      let moved : transition (length q) q n c ≡ some m =
        transition-first_suffix (length q) n c h (label_fits n h)
        ∙ ap some (first_suffix-snoc q label a.trie before c) in
      let reported : report (length q) q m ≡ some (matching_suffixes phrases after) =
        report-matching_suffixes (length q) m h' (label_fits m h')
        ∙ ap some (matching_suffixes-first_suffix after) in
      rw (moved, ◌>>=◌) (rw (reported, ◌>>=◌) refl)

  pub scan_from-occurrences :
      (before text : Bytes)
      → scan_from q (first_suffix q before) text
        ≡ some (first_suffix q (before ++ text), occurrences phrases before text)
  unfolding scan_from occurrences
  scan_from-occurrences before [] = rw append-nil
  scan_from-occurrences before (c ∷ text) =
      rw (scan_byte-first_suffix before c, ◌>>=◌)
        (rw (scan_from-occurrences (before ++ c ∷ []) text, ◌>>=◌) (rw append_assoc))

pub built-IsAutomaton :
    (phrases : List Bytes)
    → All IsBytes phrases
    → (label : ℕ → Bytes) × IsAutomaton phrases
        (find_fallback_nodes (add_phrases new_phrase_list phrases))
        label
built-IsAutomaton phrases bytes =
    let (label, trie, holds) = built-Holds phrases bytes in
    let p = add_phrases new_phrase_list phrases in
    let q = find_fallback_nodes p in
    let (g, done) = find_fallback_nodes-Done p label trie holds.fresh in
    let inside : (i : ℕ) → i < length q → i < length p =
      λ i h. omega (arith, h, g.same.same_length) in
    (
      label,
      record {
        trie = SameLinks-IsTrie p q g.same label trie;
        matches = λ i h. g.same_match i ∙ holds.matches i (inside i h);
        present = λ s m.
            let (i, h, e) = holds.present s m in (i, omega (arith, h, g.same.same_length), e);
        pointers = λ i h.
            done i (inside i h) ∙ sym (SameLinks-first_suffix p q g.same (tail_of (label i)));
      },
    )

-- For every list of phrases and every text, building the list, setting the fallback pointers and
-- scanning ends within the fuel, and calls the callback with exactly the phrases that end at each
-- byte of the text, in the order of the bytes, and at one byte the longest first.
pub phrase_matches-occurrences :
    (phrases : List Bytes) (text : Bytes)
    → All IsBytes phrases
    → phrase_matches phrases text ≡ some (occurrences phrases [] text)
unfolding phrase_matches matches_of first_suffix
phrase_matches-occurrences phrases text bytes =
    let (label, a) = built-IsAutomaton phrases bytes in
    ap matches_of (scan_from-occurrences phrases _ label a [] text)
