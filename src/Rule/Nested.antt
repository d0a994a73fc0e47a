-- ===== src/Rule/Nested.antt =====
-- A compound rule in parentheses whose text ends in a URL fragment is not read back.
use redwood_filter.Common.{
  suc, ◌+◌, ◌≡◌, refl, sym, ap, ◌∙◌, true, false, ◌||◌, [], ◌∷◌, ◌++◌, append-nil, append_assoc,
  arith, nat_eq, length, Bytes, codes, bytes_eq,
}
use redwood_filter.Combinators.{failed, trim_left, tag, alt, delimited}
use redwood_filter.Rule.{
  Rule, simple, compound, url_match, simple_string, in_parentheses, rule_string,
}
use redwood_filter.Word.{Unicode}
use redwood_filter.Rule.Parse.{
  of_content, parse_fragment, parse_trimmed, parse_simple_rule, operand, parse_with,
  parse_compound_rule,
}
use redwood_filter.Rule.Texts.{IsReadable1}
use redwood_filter.Rule.Operators.{is_operator}
use redwood_filter.Rule.RoundTrip.{
  nested, IsReadable, parse_with-Reads, operand-Reads, rule-starts, size-le,
}

module _ (x : Unicode) where
  -- In parentheses, the text of a compound rule of a rule that can be read back, an operator and a
  -- URL fragment that can be read back with a parenthesis behind it: parseCompoundRule fails, since
  -- the parenthesis becomes a part of the fragment, if a parenthesis is no letter and no digit.
  pub parenthesis_in_fragment :
      (l : Rule) (op content : Bytes)
      → IsReadable x l
      → nested x l ≡ true
      → is_operator op ≡ true
      → IsReadable1 x (of_content url_match (content ++ codes ")"))
      → ((s : Bytes)
          → (x.is_letter (x.first_rune (b'(' ∷ s)) || x.is_digit (x.first_rune (b'(' ∷ s))) ≡ false)
      → (let s =
            b'('
            ∷ (rule_string (compound l op (simple (of_content url_match content))) ++ codes ")") in
          parse_compound_rule x (length s + 1) s ≡ failed s)
  unfolding operand alt delimited tag parse_compound_rule parse_with parse_simple_rule parse_trimmed
      parse_fragment rule_string simple_string
  parenthesis_in_fragment l op content w k o b open_letter =
      let fixed = simple (of_content url_match (content ++ codes ")")) in
      let whole = rule_string (compound l op (simple (of_content url_match content))) in
      let body = whole ++ codes ")" in
      let same : body ≡ rule_string (compound l op fixed) ++ [] =
        append_assoc (in_parentheses l (rule_string l) ++ codes " " ++ op ++ codes " ") content
          (codes ")")
        ∙ sym (append-nil (rule_string (compound l op fixed))) in
      let len : length body ≡ length (rule_string (compound l op fixed)) =
        ap length (same ∙ append-nil (rule_string (compound l op fixed))) in
      let count : length (b'(' ∷ body) + 1 ≡ suc (suc (length body)) = omega arith in
      let starts : trim_left body ≡ body =
        ap trim_left same ∙ (rule-starts x l op fixed [] w ∙ sym same) in
      let inside =
        parse_with-Reads x l op fixed (length body) body [] (operand-Reads x l w k)
          (operand-Reads x fixed b refl) o b (omega (arith, len, size-le x (compound l op fixed)))
          (starts ∙ same) refl in
      let shut : tag (codes ")") inside.rest ≡ failed inside.rest = rw (tag, inside.left) refl in
      ap (λ n. parse_compound_rule x n (b'(' ∷ body)) count
      ∙ rw (inside.reads, shut, open_letter body) refl
