-- ===== src/Rule/Simple.antt =====
-- parseSimpleRule reads back what String writes.
use redwood_filter.Common.{
  ◌≡◌, inl, inr, refl, sym, ap, ◌∙◌, true, false, ◌&&◌, ◌||◌, [], ◌∷◌, ◌++◌, append-nil,
  append_assoc, arith, ◌==◌, nat_eq, ==→eq, Bool-cases, contains, Bytes, codes, bytes_eq,
}
use redwood_filter.Common.Text.{has_prefix, trim_last, cut-none, cut-here}
use redwood_filter.Common.Anys.{or_false}
use redwood_filter.Combinators.{Parsed, ok, is_blank, trim_left}
use redwood_filter.Rule.{
  RuleType, default_rule, url_match, ip_addr, url_regex, host_regex, domain_regex, path_regex,
  query_regex, content_phrase, image_hash, url_list, SimpleRule, simple_string,
}
use redwood_filter.Word.{Unicode}
use redwood_filter.Rule.Parse.{
  of_content, with_suffix, parse_phrase, parse_hash, parse_list, fragment_rule, parse_fragment,
  parse_trimmed,
}
use redwood_filter.Rule.Texts.{
  stops, closes, IsWord, IsReadable1, ends_itself, before_space-stops, no_list-stops,
}
use redwood_filter.Rule.Regex.{stops-closes, parse_regex-tail}

-- The parser reads the value and leaves the tail, up to blanks.
pub record Reads {ℓ} {A : Type ℓ} (p : Parsed A) (v : A) (tail : Bytes) : Type ℓ where
  pub rest : Bytes
  pub reads : p ≡ ok v rest
  pub left : trim_left rest ≡ trim_left tail

module _ (x : Unicode) where
  word-Reads :
      (text tail : Bytes)
      → IsWord x text
      → stops tail ≡ true
      → parse_trimmed x (text ++ tail) ≡ ok (fragment_rule x text) tail
  unfolding parse_trimmed parse_fragment
  word-Reads [] tail w h = cc (w.start)
  word-Reads (c ∷ s) tail w h =
      let split = before_space-stops (c ∷ s) tail w.no_space h in
      let slash : (c == b'/') ≡ false = ground (arith, w.start) in
      let angle : (c == b'<') ≡ false = ground (arith, w.start) in
      let percent : (c == b'%') ≡ false = ground (arith, w.start) in
      rw
        (
          slash,
          angle,
          percent,
          no_list-stops (c ∷ s) tail w.no_space h w.no_list,
          parse_fragment,
          w.letter tail,
          split.0,
          split.1,
          w.lower,
        )
        refl

  regex-Reads :
      (t : RuleType) (content suffix tail : Bytes)
      → contains content b' ' ≡ false
      → (contains suffix b' ' ≡ false) × (contains suffix b'/' ≡ false)
      → closes tail ≡ true
      → with_suffix content (suffix ++ tail) ≡ ok (of_content t content) tail
      → Reads
          (parse_trimmed x (codes "/" ++ content ++ codes "/" ++ suffix ++ tail))
          (of_content t content)
          tail
  unfolding parse_trimmed
  regex-Reads t content suffix tail h k l w = record {
    rest = tail;
    reads =
        rw
          (
            append_assoc (content ++ codes "/") suffix tail,
            append_assoc content (codes "/") (suffix ++ tail),
          )
          (parse_regex-tail t content suffix tail h k l w);
    left = refl;
  }

  no_suffix :
      (content tail : Bytes)
      → closes tail ≡ true
      → with_suffix content tail ≡ ok (of_content url_regex content) tail
  no_suffix content [] h = refl
  no_suffix content (c ∷ tail) h = elim (Bool-cases (c == b' ')) [
    | inl e ↦ rw (==→eq c b' ' e) refl
    | inr e ↦ let same : c ≡ b')' = ground (arith, h, e) in rw same refl
  ]

  read_all :
      (p : Parsed SimpleRule) (r : SimpleRule) (tail : Bytes) → p ≡ ok r tail → Reads p r tail
  read_all p r tail e = record { rest = tail; reads = e; left = refl }

  alone : (tail : Bytes) → (stops tail || false) ≡ true → stops tail ≡ true
  alone tail h = sym (or_false (stops tail)) ∙ h

  either : (tail : Bytes) → (stops tail || closes tail) ≡ true → closes tail ≡ true
  either tail h = elim (Bool-cases (stops tail)) [ inl e ↦ stops-closes tail e | inr e ↦ rw e at h ]

  list-Reads :
      (content tail : Bytes)
      → contains content b' ' ≡ false
      → stops tail ≡ true
      → Reads (parse_list x (content ++ tail)) (of_content url_list content) tail
  unfolding parse_list
  list-Reads content [] w h =
      read_all _ _ _
        (ap (parse_list x) (append-nil content) ∙ rw (parse_list, cut-none b' ' content w) refl)
  list-Reads content (c ∷ tail) w h =
      let same : c ≡ b' ' = ground (arith, h) in
      record {
        rest = tail;
        reads = rw (same, parse_list, cut-here b' ' content tail w) refl;
        left = rw same refl;
      }

  address_rule :
      (text content : Bytes)
      → trim_last b'/' text ≡ codes "ip:" ++ content
      → fragment_rule x text ≡ of_content ip_addr content
  unfolding fragment_rule
  address_rule text content h = rw (fragment_rule, h) refl

  -- A rule that ends itself may be followed by closing parentheses; the others need a space or the
  -- end of the text.
  pub simple_string-Reads :
      (t : RuleType) (content tail : Bytes)
      → IsReadable1 x (of_content t content)
      → (stops tail || (ends_itself x (of_content t content) && closes tail)) ≡ true
      → Reads
          (parse_trimmed x (simple_string (of_content t content) ++ tail))
          (of_content t content)
          tail
  unfolding simple_string parse_trimmed fragment_rule parse_phrase parse_hash
  simple_string-Reads default_rule content tail w h =
      read_all _ _ _ (word-Reads (codes "default") tail w.0 (alone tail h) ∙ rw w.1 refl)
  simple_string-Reads url_match content tail w h = read_all _ _ _ (
      word-Reads content tail w.0 (alone tail h) ∙ rw (fragment_rule, w.1.1.1, w.1.0, w.1.1.0) refl)
  simple_string-Reads ip_addr content tail w h = read_all _ _ _ (
      word-Reads (codes "ip:" ++ content) tail w.0 (alone tail h)
      ∙ ap (λ r. ok r tail) (address_rule (codes "ip:" ++ content) content w.1))
  simple_string-Reads url_regex content tail w h =
      regex-Reads url_regex content [] tail w (refl, refl) (either tail h)
        (no_suffix content tail (either tail h))
  simple_string-Reads host_regex content tail w h =
      regex-Reads host_regex content (codes "h") tail w (refl, refl) (either tail h) refl
  simple_string-Reads domain_regex content tail w h =
      regex-Reads domain_regex content (codes "d") tail w (refl, refl) (either tail h) refl
  simple_string-Reads path_regex content tail w h =
      regex-Reads path_regex content (codes "p") tail w (refl, refl) (either tail h) refl
  simple_string-Reads query_regex content tail w h =
      regex-Reads query_regex content (codes "q") tail w (refl, refl) (either tail h) refl
  simple_string-Reads content_phrase content tail w h = read_all _ _ _ (
      rw
        (
          append_assoc content (codes ">") tail,
          parse_phrase,
          cut-here b'>' (b'<' ∷ content) tail w.0,
          w.1,
        )
        refl)
  simple_string-Reads image_hash content tail w h =
      let split = before_space-stops (b'%' ∷ content) tail w.0 (alone tail h) in
      read_all _ _ _ (rw (parse_hash, split.0, split.1, w.1) refl)
  simple_string-Reads url_list content tail w h = list-Reads content tail w (alone tail h)

  -- The text of a rule starts with no blank and no parenthesis.
  pub simple_string-starts :
      (t : RuleType) (content tail : Bytes)
      → IsReadable1 x (of_content t content)
      → (trim_left (simple_string (of_content t content) ++ tail)
          ≡ simple_string (of_content t content) ++ tail)
        × (has_prefix (simple_string (of_content t content) ++ tail) (codes "(") ≡ false)
  unfolding simple_string
  simple_string-starts default_rule content tail w = (refl, refl)
  simple_string-starts url_match [] tail w = cc (w.0.start)
  simple_string-starts url_match (c ∷ content) tail w =
      let blank : is_blank c ≡ false = ground (arith, w.0.start) in
      let opening : (c == b'(') ≡ false = ground (arith, w.0.start) in
      (rw blank refl, rw opening refl)
  simple_string-starts ip_addr content tail w = (refl, refl)
  simple_string-starts url_regex content tail w = (refl, refl)
  simple_string-starts host_regex content tail w = (refl, refl)
  simple_string-starts domain_regex content tail w = (refl, refl)
  simple_string-starts path_regex content tail w = (refl, refl)
  simple_string-starts query_regex content tail w = (refl, refl)
  simple_string-starts content_phrase content tail w = (refl, refl)
  simple_string-starts image_hash content tail w = (refl, refl)
  simple_string-starts url_list content tail w = (refl, refl)
