-- ===== src/Phrase/Parts.antt =====
-- The phrases that occur in a text are among those that the scanner reports.
use redwood_filter.Common.{
  ℕ, ◌≡◌, inl, inr, refl, ap, ◌∙◌, true, false, List, [], ◌∷◌, ◌++◌, append-nil, append_assoc,
  arith, ◌==◌, nat_eq, ==-refl, Bool-cases, contains, contains-append, Bytes, bytes_eq,
}
use redwood_filter.Common.Text.{has_part, has_part-split}
use redwood_filter.Phrase.{PhraseList, first_suffix, matching_suffixes, occurrences}

matching_suffixes-contains :
    (phrases : List Bytes) (a p : Bytes)
    → contains phrases p ≡ true
    → (p == []) ≡ false
    → contains (matching_suffixes phrases (a ++ p)) p ≡ true
unfolding matching_suffixes
matching_suffixes-contains phrases [] [] h n = cc n
matching_suffixes-contains phrases [] (c ∷ p) h n = rw h (ground (arith, ==-refl (c ∷ p)))
matching_suffixes-contains phrases (d ∷ a) p h n =
    let ih = matching_suffixes-contains phrases a p h n in
    elim (Bool-cases (contains phrases (d ∷ a ++ p))) [
      | inl e ↦ rw e (ground (arith, ih))
      | inr e ↦ rw e ih
    ]

-- What is reported at a byte is among all reports.
occurrences-contains :
    (phrases : List Bytes) (before u v p : Bytes) (c : ℕ)
    → contains (matching_suffixes phrases (before ++ u ++ c ∷ [])) p ≡ true
    → contains (occurrences phrases before (u ++ c ∷ v)) p ≡ true
unfolding occurrences
occurrences-contains phrases before [] v p c h =
    rw
      (contains-append (matching_suffixes phrases (before ++ c ∷ []))
        (occurrences phrases (before ++ c ∷ []) v) p)
      (let here : contains (matching_suffixes phrases (before ++ c ∷ [])) p ≡ true =
          rw append-nil at h in
        rw here refl)
occurrences-contains phrases before (d ∷ u) v p c h =
    let shift : before ++ d ∷ u ++ c ∷ [] ≡ ((before ++ d ∷ []) ++ u) ++ c ∷ [] =
      simp append_assoc in
    let again : contains (matching_suffixes phrases ((before ++ d ∷ []) ++ u ++ c ∷ [])) p ≡ true =
      rw (← shift) h in
    rw
      (
        contains-append (matching_suffixes phrases (before ++ d ∷ []))
            (occurrences phrases (before ++ d ∷ []) (u ++ c ∷ v)) p,
        occurrences-contains phrases (before ++ d ∷ []) u v p c again,
      )
      (ground arith)

-- The last byte of a text that has one.
unsnoc : (c : ℕ) (p : Bytes) → (q : Bytes) × (d : ℕ) × (c ∷ p ≡ q ++ d ∷ [])
unsnoc c [] = ([], c, refl)
unsnoc c (d ∷ p) = let (q, e, f) = unsnoc d p in (c ∷ q, e, ap (λ x. c ∷ x) f)

pub occurrences-has_part :
    (phrases : List Bytes) (s p : Bytes)
    → contains phrases p ≡ true
    → (p == []) ≡ false
    → has_part s p ≡ true
    → contains (occurrences phrases [] s) p ≡ true
occurrences-has_part phrases s [] h n part = cc n
occurrences-has_part phrases s (x ∷ p) h n part =
    let (a, b, e) = has_part-split s (x ∷ p) part in
    let (q, d, f) = unsnoc x p in
    let whole : s ≡ (a ++ q) ++ d ∷ b = e ∙ (ap (λ t. (a ++ t) ++ b) f ∙ simp append_assoc) in
    let tail : a ++ x ∷ p ≡ ([] ++ (a ++ q)) ++ d ∷ [] = ap (λ t. a ++ t) f ∙ simp append_assoc in
    rw whole (
      occurrences-contains phrases [] (a ++ q) b (x ∷ p) d
        (rw (← tail) (matching_suffixes-contains phrases a (x ∷ p) h n)))

pub occurrences-nil : (phrases : List Bytes) (before : Bytes) → occurrences phrases before [] ≡ []
unfolding occurrences
occurrences-nil phrases before = refl

pub occurrences-append :
    (phrases : List Bytes) (before s t : Bytes)
    → occurrences phrases before (s ++ t)
      ≡ occurrences phrases before s ++ occurrences phrases (before ++ s) t
unfolding occurrences
occurrences-append phrases before [] t = rw append-nil refl
occurrences-append phrases before (c ∷ s) t =
    rw (occurrences-append phrases (before ++ c ∷ []) s t) (simp append_assoc)

pub first_suffix-nil : (q : PhraseList) → first_suffix q [] ≡ 0
unfolding first_suffix
first_suffix-nil q = refl
