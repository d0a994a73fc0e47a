-- ===== src/Rule/Parse.antt =====
-- rule.go: parseSimpleRule and parseCompoundRule.
--   parse_simple_rule      the switch on the first byte, a helper for each case
--   parse_compound_rule    on fuel: an operand, and an operator with another operand
use redwood_filter.Common.{
  ℕ, suc, zero, ◌+◌, ◌||◌, none, some, [], ◌∷◌, ◌==◌, nat_eq, if◌then◌else◌, Bytes, bytes_eq, codes,
  drop, length,
}
use redwood_filter.Common.Text.{has_prefix, cut, cut_last, trim_last}
use redwood_filter.Combinators.{
  Parsed, ok, failed, cut_short, Parser, trim_left, tag, then_else, alt, delimited,
}
use redwood_filter.Rule.{
  RuleType, default_rule, url_match, ip_addr, url_regex, host_regex, domain_regex, path_regex,
  query_regex, content_phrase, image_hash, url_list, SimpleRule, Rule, simple, compound,
}
use redwood_filter.Word.{Unicode, word_string}

abbrev pub of_content : RuleType → Bytes → SimpleRule
of_content t content = record { t = t; content = content }

-- the text before the first space, and from it on
abbrev pub before_space : Bytes → Bytes
before_space s = elim (cut b' ' s) [ none ↦ s | some (p, q) ↦ p ]

abbrev pub from_space : Bytes → Bytes
from_space s = elim (cut b' ' s) [ none ↦ [] | some (p, q) ↦ b' ' ∷ q ]

-- the inner switch, on the byte behind the slash
abbrev pub with_suffix : Bytes → Bytes → Parsed SimpleRule
with_suffix content [] = ok (of_content url_regex content) []
with_suffix content (c ∷ s) =
    if c == b'h'
    then ok (of_content host_regex content) s
    else if c == b'p'
    then ok (of_content path_regex content) s
    else if c == b'q'
    then ok (of_content query_regex content) s
    else if c == b'd'
    then ok (of_content domain_regex content) s
    else ok (of_content url_regex content) (c ∷ s)

-- The last slash is there, since the text starts with one.
unfoldable pub parse_regex : Parser SimpleRule
parse_regex s = elim (cut_last b'/' (before_space s)) [
  | none ↦ failed s
  | some ([], q) ↦ failed s
  | some (c ∷ content, q) ↦ with_suffix content (drop (length content + 2) s)
]

module _ (x : Unicode) where
  unfoldable pub parse_phrase : Parser SimpleRule
  parse_phrase s = elim (cut b'>' s) [
    | none ↦ failed s
    | some (p, q) ↦ ok (of_content content_phrase (word_string x (drop 1 p))) q
  ]

  unfoldable pub parse_hash : Parser SimpleRule
  parse_hash s = ok (of_content image_hash (x.to_lower (drop 1 (before_space s)))) (from_space s)

  unfoldable pub parse_list : Parser SimpleRule
  parse_list s = elim (cut b' ' s) [
    | none ↦ ok (of_content url_list s) []
    | some (p, q) ↦ ok (of_content url_list p) q
  ]

  -- the type and the content of a rule by its text
  unfoldable pub fragment_rule : Bytes → SimpleRule
  fragment_rule text =
      let content = trim_last b'/' text in
      if has_prefix content (codes "ip:")
      then of_content ip_addr (drop 3 content)
      else if text == codes "default"
      then of_content default_rule content
      else of_content url_match content

  unfoldable pub parse_fragment : Parser SimpleRule
  unfolding fragment_rule
  parse_fragment s =
      if x.is_letter (x.first_rune s) || x.is_digit (x.first_rune s)
      then ok (fragment_rule (x.to_lower (before_space s))) (from_space s)
      else failed s

  unfoldable pub parse_trimmed : Parser SimpleRule
  parse_trimmed [] = failed []
  parse_trimmed (c ∷ s) =
      if c == b'/'
      then parse_regex (c ∷ s)
      else if c == b'<'
      then parse_phrase (c ∷ s)
      else if c == b'%'
      then parse_hash (c ∷ s)
      else if has_prefix (c ∷ s) (codes "urllist ")
      then parse_list (drop 8 (c ∷ s))
      else parse_fragment (c ∷ s)

  unfoldable pub parse_simple_rule : Parser SimpleRule
  unfolding parse_trimmed parse_regex parse_phrase parse_hash parse_list parse_fragment
  parse_simple_rule s = parse_trimmed (trim_left s)

  abbrev pub parse_one : Parser Rule
  parse_one s = then_else (parse_simple_rule s) (λ r rest. ok (simple r) rest) failed

  unfoldable pub operand : Parser Rule → Parser Rule
  operand inner = alt (delimited (tag (codes "(")) inner (tag (codes ")"))) (parse_one ∷ [])

  unfoldable pub operator : Parser Bytes
  operator = alt (tag (codes "&!")) (tag (codes "&") ∷ tag (codes "|") ∷ [])

  -- The body of parseCompoundRule, on the parser that stands for the recursive calls.
  unfoldable pub parse_with : Parser Rule → Parser Rule
  unfolding operand operator
  parse_with inner s =
      then_else (operand inner s)
        (λ left after_left.
          then_else (operator after_left)
            (λ op after_op.
              then_else (operand inner after_op)
                (λ right after_right. ok (compound left op right) after_right) failed)
            (λ _. ok left after_left))
        (λ _. failed s)

  unfoldable pub parse_compound_rule : ℕ → Parser Rule
  unfolding parse_with
  parse_compound_rule zero s = cut_short
  parse_compound_rule (suc fuel) s = parse_with (parse_compound_rule fuel) s
