-- ===== src/Word/Twice.antt =====
-- The transformation of wordString, applied to its own result.
use redwood_filter.Common.{
  ℕ, ◌+◌, ◌≡◌, inl, inr, refl, sym, ap, ◌∙◌, true, not, ◌&&◌, ◌||◌, List, [], ◌∷◌, ◌++◌, append-nil,
  append_assoc, arith, ltb, leb, if◌then◌else◌, ◌==◌, nat_eq, Bool-cases, Bytes, bytes_eq,
}
use redwood_filter.Word.{Unicode, word_rune, word_runes, word_string}

module _ (x : Unicode) where
  -- the loop without its accumulator
  unfoldable pub words_from : ℕ → List ℕ → List ℕ
  words_from prev [] = []
  words_from prev (c ∷ cs) =
      let w = word_rune x c in
      let rest = words_from w cs in if not (w == b' ') || not (prev == b' ') then w ∷ rest else rest

  pub word_runes-words_from :
      (prev : ℕ) (result cs : List ℕ) → word_runes x prev result cs ≡ result ++ words_from prev cs
  unfolding word_runes words_from
  word_runes-words_from prev result [] = sym (append-nil result)
  word_runes-words_from prev result (c ∷ cs) =
      let w = word_rune x c in
      elim (Bool-cases (not (w == b' ') || not (prev == b' '))) [
        | inl e ↦
            rw (e, word_runes-words_from w (result ++ w ∷ []) cs)
              (append_assoc result (w ∷ []) (words_from w cs))
        | inr e ↦ rw (e, word_runes-words_from w result cs) refl
      ]

  -- A letter's lower case is a word character in lower case.
  abbrev pub Lowers : Type 0
  Lowers = (c : ℕ) → x.is_letter c ≡ true → word_rune x (x.rune_to_lower c) ≡ x.rune_to_lower c

  word_rune_twice : Lowers → (c : ℕ) → word_rune x (word_rune x c) ≡ word_rune x c
  unfolding word_rune
  word_rune_twice lowers c =
      elim (Bool-cases (leb b'a' c && leb c b'z' || (leb b'0' c && leb c b'9'))) [
        | inl e ↦ let same : word_rune x c ≡ c = rw (word_rune, e) refl in ap (word_rune x) same
        | inr e ↦ elim (Bool-cases (leb b'A' c && leb c b'Z')) [
          | inl f ↦
              let same : word_rune x c ≡ c + 32 = rw (word_rune, e, f) refl in
              let low : (leb b'a' (c + 32) && leb (c + 32) b'z') ≡ true = ground (arith, f) in
              let fixed : word_rune x (c + 32) ≡ c + 32 = rw (word_rune, low) refl in
              ap (word_rune x) same ∙ (fixed ∙ sym same)
          | inr f ↦ elim (Bool-cases (ltb c 128)) [
            | inl g ↦ rw (word_rune, e, f, g) refl
            | inr g ↦ elim (Bool-cases (x.is_digit c)) [
              | inl d ↦
                  let same : word_rune x c ≡ c = rw (word_rune, e, f, g, d) refl in
                  ap (word_rune x) same
              | inr d ↦ elim (Bool-cases (x.is_letter c)) [
                | inl l ↦
                    let same : word_rune x c ≡ x.rune_to_lower c =
                      rw (word_rune, e, f, g, d, l) refl in
                    ap (word_rune x) same ∙ (lowers c l ∙ sym same)
                | inr l ↦ rw (word_rune, e, f, g, d, l) refl
              ]
            ]
          ]
        ]
      ]

  words_from_twice :
      Lowers → (prev : ℕ) (cs : List ℕ) → words_from prev (words_from prev cs) ≡ words_from prev cs
  unfolding words_from
  words_from_twice lowers prev [] = refl
  words_from_twice lowers prev (c ∷ cs) =
      let w = word_rune x c in
      elim (Bool-cases (not (w == b' ') || not (prev == b' '))) [
        | inl e ↦
            rw (e, word_rune_twice lowers c, e) (ap (λ s. w ∷ s) (words_from_twice lowers w cs))
        | inr e ↦
            let same : w ≡ prev = ground (arith, e) in
            let twice : words_from w (words_from w cs) ≡ words_from w cs =
              words_from_twice lowers w cs in
            rw e (ap (λ p. words_from p (words_from w cs)) (sym same) ∙ twice)
      ]

  -- wordString of its own result is that result, if the lower case of a letter is a word character
  -- in lower case, and ranging over the result gives the runes that it was made of.
  pub word_string_twice :
      (s : Bytes)
      → Lowers
      → x.runes (word_string x s) ≡ word_runes x 0 [] (x.runes s)
      → word_string x (word_string x s) ≡ word_string x s
  unfolding word_string
  word_string_twice s lowers h =
      ap (λ cs. x.encode (word_runes x 0 [] cs)) h
      ∙ ap x.encode (
          ap (λ cs. word_runes x 0 [] cs) (word_runes-words_from 0 [] (x.runes s))
          ∙ (word_runes-words_from 0 [] (words_from 0 (x.runes s))
              ∙ (words_from_twice lowers 0 (x.runes s)
                  ∙ sym (word_runes-words_from 0 [] (x.runes s)))))
