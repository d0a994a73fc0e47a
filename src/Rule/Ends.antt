-- ===== src/Rule/Ends.antt =====
-- Parsing a rule ends within the fuel, and leaves no more text than there was.
use redwood_filter.Common.{
  length-drop, ℕ, zero, suc, ◌+◌, ◌≤◌, ◌<◌, ◌≡◌, inl, inr, Bool, true, false, ◌||◌, List, [], ◌∷◌,
  arith, if◌then◌else◌, ◌==◌, nat_eq, Bool-cases, Option-cases, length, drop, All, Bytes, codes,
  bytes_eq,
}
use redwood_filter.Common.Text.{has_prefix, cut, cut_last, cut-shorter}
use redwood_filter.Combinators.{
  Parsed, ok, failed, cut_short, Parser, trim_left, tag, then_else, alt, delimited,
}
use redwood_filter.Rule.{Rule}
use redwood_filter.Word.{Unicode}
use redwood_filter.Rule.Parse.{
  before_space, from_space, with_suffix, parse_regex, parse_phrase, parse_hash, parse_list,
  parse_fragment, parse_trimmed, parse_simple_rule, parse_one, operand, operator, parse_with,
  parse_compound_rule,
}

-- The parser has a result, and leaves no more than this.
abbrev pub Settles {ℓ} : {A : Type ℓ} → ℕ → Parsed A → Type 0
Settles n (ok v rest) = length rest ≤ n
Settles n (failed rest) = Unit
Settles n cut_short = ⊥

pub then_else-Settles {ℓ κ} :
    {A : Type ℓ} {B : Type κ} (m n : ℕ) (p : Parsed A) (f : A → Bytes → Parsed B)
    (g : Bytes → Parsed B)
    → Settles m p
    → ((v : A) (rest : Bytes) → length rest ≤ m → Settles n (f v rest))
    → ((rest : Bytes) → Settles n (g rest))
    → Settles n (then_else p f g)
then_else-Settles m n (ok v rest) f g h k l = k v rest h
then_else-Settles m n (failed rest) f g h k l = l rest
then_else-Settles m n cut_short f g h k l = absurd h

pub trim_left-le : (s : Bytes) → length (trim_left s) ≤ length s
trim_left-le [] = omega arith
trim_left-le (c ∷ s) = ground (arith, trim_left-le s)

pub has_prefix-length : (s p : Bytes) → has_prefix s p ≡ true → length p ≤ length s
has_prefix-length s [] h = omega arith
has_prefix-length [] (d ∷ p) h = cc h
has_prefix-length (c ∷ s) (d ∷ p) h = ground (arith, h, has_prefix-length s p)

pub tag-Settles : (t s : Bytes) (n : ℕ) → length s ≤ n + length t → Settles n (tag t s)
unfolding tag
tag-Settles t s n h = elim (Bool-cases (has_prefix (trim_left s) t)) [
  | inl e ↦
      rw (tag, e)
        (omega (
          arith,
          h,
          length-drop (length t) (trim_left s),
          has_prefix-length (trim_left s) t e,
          trim_left-le s,
        ))
  | inr e ↦ rw (tag, e) tt
]

before_from : (s : Bytes) → length (from_space s) ≤ length s
before_from s = elim (Option-cases (cut b' ' s)) [
  | inl e ↦ rw (from_space, length, e) (omega arith)
  | inr ((p, q), e) ↦ rw (from_space, length, e) (omega (arith, cut-shorter b' ' s p q e))
]

module _ (x : Unicode) where
  with_suffix-Settles :
      (n : ℕ) (content s : Bytes) → length s ≤ n → Settles n (with_suffix content s)
  with_suffix-Settles n content [] h = omega arith
  with_suffix-Settles n content (c ∷ s) h = ground (arith, h)

  parse_regex-Settles : (s : Bytes) → Settles (length s) (parse_regex s)
  unfolding parse_regex
  parse_regex-Settles s = elim (Option-cases (cut_last b'/' (before_space s))) [
    | inl e ↦ rw (parse_regex, e) tt
    | inr (([], q), e) ↦ rw (parse_regex, e) tt
    | inr ((c ∷ content, q), e) ↦
        rw (parse_regex, e)
          (with_suffix-Settles (length s) content (drop (length content + 2) s)
            (omega (arith, length-drop (length content + 2) s)))
  ]

  parse_phrase-Settles : (s : Bytes) → Settles (length s) (parse_phrase x s)
  unfolding parse_phrase
  parse_phrase-Settles s = elim (Option-cases (cut b'>' s)) [
    | inl e ↦ rw (parse_phrase, e) tt
    | inr ((p, q), e) ↦ rw (parse_phrase, e) (omega (arith, cut-shorter b'>' s p q e))
  ]

  parse_list-Settles : (s : Bytes) (n : ℕ) → length s ≤ n → Settles n (parse_list x s)
  unfolding parse_list
  parse_list-Settles s n h = elim (Option-cases (cut b' ' s)) [
    | inl e ↦ rw (parse_list, e) (omega arith)
    | inr ((p, q), e) ↦ rw (parse_list, e) (omega (arith, h, cut-shorter b' ' s p q e))
  ]

  parse_fragment-Settles : (s : Bytes) → Settles (length s) (parse_fragment x s)
  unfolding parse_fragment
  parse_fragment-Settles s =
      elim (Bool-cases (x.is_letter (x.first_rune s) || x.is_digit (x.first_rune s))) [
        | inl e ↦ rw (parse_fragment, e) (before_from s)
        | inr e ↦ rw (parse_fragment, e) tt
      ]

  pub if-Settles {ℓ} :
      {A : Type ℓ} (b : Bool) (n : ℕ) (p q : Parsed A)
      → Settles n p
      → Settles n q
      → Settles n (if b then p else q)
  if-Settles true n p q h k = h
  if-Settles false n p q h k = k

  parse_trimmed-Settles : (s : Bytes) → Settles (length s) (parse_trimmed x s)
  unfolding parse_trimmed parse_hash
  parse_trimmed-Settles [] = tt
  parse_trimmed-Settles (c ∷ s) =
      let n = length (c ∷ s) in
      if-Settles (c == b'/') n _ _ (parse_regex-Settles (c ∷ s)) (
        if-Settles (c == b'<') n _ _ (parse_phrase-Settles (c ∷ s)) (
          if-Settles (c == b'%') n _ _ (before_from (c ∷ s)) (
            if-Settles (has_prefix (c ∷ s) (codes "urllist ")) n _ _
              (parse_list-Settles (drop 8 (c ∷ s)) n (omega (arith, length-drop 8 (c ∷ s))))
              (parse_fragment-Settles (c ∷ s)))))

  parse_one-Settles : (s : Bytes) → Settles (length s) (parse_one x s)
  unfolding parse_simple_rule
  parse_one-Settles s =
      then_else-Settles (length (trim_left s)) (length s) (parse_simple_rule x s) _ _
        (parse_trimmed-Settles (trim_left s)) (λ r rest h. omega (arith, h, trim_left-le s))
        (λ rest. tt)

  pub alt-Settles {ℓ} :
      {A : Type ℓ} (p : Parser A) (ps : List (Parser A)) (n : ℕ) (s : Bytes)
      → Settles n (p s)
      → All (λ q. Settles n (q s)) ps
      → Settles n (alt p ps s)
  unfolding alt
  alt-Settles p [] n s h hs = h
  alt-Settles p (q ∷ ps) n s h hs =
      then_else-Settles n n (p s) _ _ h (λ v rest k. k) (λ r. alt-Settles q ps n s hs.0 hs.1)

  operator-Settles : (s : Bytes) → Settles (length s) (operator x s)
  unfolding operator
  operator-Settles s =
      alt-Settles (tag (codes "&!")) (tag (codes "&") ∷ tag (codes "|") ∷ []) (length s) s
        (tag-Settles (codes "&!") s (length s) (omega arith))
        (
          tag-Settles (codes "&") s (length s) (omega arith),
          (tag-Settles (codes "|") s (length s) (omega arith), tt),
        )

  -- A recursive call gets a shorter text, since a parenthesis is taken off.
  abbrev Shorter : Parser Rule → ℕ → Type 0
  Shorter inner n = (s : Bytes) → length s < n → Settles (length s) (inner s)

  parenthesis-Settles :
      (inner : Parser Rule) (s : Bytes)
      → Shorter inner (length s)
      → Settles (length s) (delimited (tag (codes "(")) inner (tag (codes ")")) s)
  unfolding delimited tag
  parenthesis-Settles inner [] short = tt
  parenthesis-Settles inner (c ∷ s) short =
      let n = length (c ∷ s) in
      then_else-Settles (length s) n (tag (codes "(") (c ∷ s)) _ _
        (tag-Settles (codes "(") (c ∷ s) (length s) (omega arith))
        (λ _ rest h.
          then_else-Settles (length rest) n (inner rest) _ _ (short rest (omega (arith, h)))
            (λ v rest' k.
              then_else-Settles (length rest') n (tag (codes ")") rest') _ _
                (tag-Settles (codes ")") rest' (length rest') (omega arith))
                (λ _ rest'' l. omega (arith, h, k, l)) (λ rest. tt))
            (λ rest. tt))
        (λ rest. tt)

  operand-Settles :
      (inner : Parser Rule) (s : Bytes)
      → Shorter inner (length s)
      → Settles (length s) (operand x inner s)
  unfolding operand
  operand-Settles inner s short =
      alt-Settles (delimited (tag (codes "(")) inner (tag (codes ")"))) (parse_one x ∷ [])
        (length s) s (parenthesis-Settles inner s short) (parse_one-Settles s, tt)

  parse_with-Settles :
      (inner : Parser Rule) (s : Bytes)
      → Shorter inner (length s)
      → Settles (length s) (parse_with x inner s)
  unfolding parse_with
  parse_with-Settles inner s short =
      let n = length s in
      then_else-Settles n n (operand x inner s) _ _ (operand-Settles inner s short)
        (λ left after_left h.
          then_else-Settles (length after_left) n (operator x after_left) _ _
            (operator-Settles after_left)
            (λ op after_op k.
              then_else-Settles (length after_op) n (operand x inner after_op) _ _
                (operand-Settles inner after_op (λ t l. short t (omega (arith, h, k, l))))
                (λ right rest l. omega (arith, h, k, l)) (λ rest. tt))
            (λ rest. h))
        (λ rest. tt)

  -- With more fuel than the text has bytes, parseCompoundRule ends: it reads a rule and leaves no
  -- more text than there was, or it fails.
  pub parse_compound_rule-Settles :
      (fuel : ℕ) (s : Bytes) → length s < fuel → Settles (length s) (parse_compound_rule x fuel s)
  unfolding parse_compound_rule
  parse_compound_rule-Settles zero s h = absurd (omega (arith, h))
  parse_compound_rule-Settles (suc fuel) s h =
      parse_with-Settles (parse_compound_rule x fuel) s
        (λ t l. parse_compound_rule-Settles fuel t (omega (arith, h, l)))
