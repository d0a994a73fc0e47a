-- ===== src/Rule/Regex.antt =====
-- The parser of regular-expression rules reads back what String writes.
use redwood_filter.Common.{
  ℕ, suc, ◌+◌, ◌≡◌, inl, inr, refl, sym, ap, ◌∙◌, true, false, some, [], ◌∷◌, ◌++◌, append_assoc,
  arith, ◌==◌, nat_eq, Bool-cases, length, drop, contains, contains-append, Bytes, bytes_eq,
}
use redwood_filter.Common.Text.{cut_last, cut_last-here}
use redwood_filter.Combinators.{ok}
use redwood_filter.Rule.{RuleType}
use redwood_filter.Rule.Parse.{of_content, before_space, with_suffix, parse_regex}
use redwood_filter.Rule.Texts.{stops, closes, before_space-stops}

pub drop_all : (p q : Bytes) → drop (length p) (p ++ q) ≡ q
drop_all [] q = refl
drop_all (c ∷ p) q = drop_all p q

-- The parentheses, and what is behind them.
closes-split :
    (s : Bytes)
    → closes s ≡ true
    → (p : Bytes) × (t : Bytes) × ((s ≡ p ++ t)
        × ((stops t ≡ true) × ((contains p b' ' ≡ false) × (contains p b'/' ≡ false))))
closes-split [] h = ([], [], (refl, (refl, (refl, refl))))
closes-split (c ∷ s) h = elim (Bool-cases (c == b' ')) [
  | inl e ↦ ([], c ∷ s, (refl, (e, (refl, refl))))
  | inr e ↦
      let same : c ≡ b')' = ground (arith, h, e) in
      let (p, t, (f, (g, (k, l)))) = closes-split s (ground (arith, h, e)) in
      (c ∷ p, t, (ap (λ s. c ∷ s) f, (g, (rw same k, rw same l))))
]

pub stops-closes : (s : Bytes) → stops s ≡ true → closes s ≡ true
stops-closes [] h = refl
stops-closes (c ∷ s) h = rw h refl

drop_behind : (b : ℕ) (p q : Bytes) → drop (suc (length p)) (p ++ b ∷ q) ≡ q
drop_behind b [] q = refl
drop_behind b (c ∷ p) q =
    let same : length (c ∷ p) ≡ suc (length p) = omega arith in
    ap (λ n. drop n (p ++ b ∷ q)) same ∙ drop_behind b p q

pub parse_regex-tail :
    (t : RuleType) (content suffix tail : Bytes)
    → contains content b' ' ≡ false
    → (contains suffix b' ' ≡ false) × (contains suffix b'/' ≡ false)
    → closes tail ≡ true
    → with_suffix content (suffix ++ tail) ≡ ok (of_content t content) tail
    → parse_regex (b'/' ∷ content ++ b'/' ∷ (suffix ++ tail)) ≡ ok (of_content t content) tail
unfolding parse_regex
parse_regex-tail t content suffix tail h k l w =
    let (p, t, (e, (s, (a, b)))) = closes-split tail l in
    let start = b'/' ∷ content ++ b'/' ∷ (suffix ++ p) in
    let same : b'/' ∷ content ++ b'/' ∷ (suffix ++ tail) ≡ start ++ t =
      rw (e, ← append_assoc suffix p t)
        (ap (λ z. b'/' ∷ z) (sym (append_assoc content (b'/' ∷ suffix ++ p) t))) in
    let none_in : contains start b' ' ≡ false =
      rw
        (
          contains-append content (b'/' ∷ suffix ++ p) b' ',
          h,
          contains-append suffix p b' ',
          k.0,
          a,
        )
        refl in
    let before : before_space (b'/' ∷ content ++ b'/' ∷ (suffix ++ tail)) ≡ start =
      ap before_space same ∙ (before_space-stops start t none_in s).0 in
    let last : cut_last b'/' start ≡ some (b'/' ∷ content, suffix ++ p) =
      cut_last-here b'/' (b'/' ∷ content) (suffix ++ p)
        (rw (contains-append suffix p b'/', k.1, b) refl) in
    let count : length content + 2 ≡ suc (suc (length content)) = omega arith in
    rw (parse_regex, before, last, count, drop_behind b'/' content (suffix ++ tail)) w
