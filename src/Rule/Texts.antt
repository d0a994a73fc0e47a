-- ===== src/Rule/Texts.antt =====
-- What may stand in a rule so that its text can be read back, and what may follow the text.
use redwood_filter.Common.{
  ◌≡◌, inl, inr, refl, sym, ap, ◌∙◌, Bool, true, false, not, ◌&&◌, ◌||◌, none, some, [], ◌∷◌, ◌++◌,
  append-nil, arith, ◌==◌, nat_eq, Bool-cases, contains, Bytes, codes, bytes_eq,
}
use redwood_filter.Common.Text.{has_prefix, cut, trim_last, has_prefix-split, cut-none, cut-here}
use redwood_filter.Combinators.{is_blank}
use redwood_filter.Rule.{
  default_rule, url_match, ip_addr, url_regex, host_regex, domain_regex, path_regex, query_regex,
  content_phrase, image_hash, SimpleRule,
}
use redwood_filter.Word.{Unicode, word_string}
use redwood_filter.Rule.Parse.{before_space, from_space}

-- The text is at its end, or goes on with a space.
abbrev pub stops : Bytes → Bool
stops [] = true
stops (c ∷ s) = c == b' '

-- The same behind closing parentheses.
abbrev pub closes : Bytes → Bool
closes [] = true
closes (c ∷ s) = c == b' ' || (c == b')' && closes s)

abbrev pub plain_start : Bytes → Bool
plain_start [] = false
plain_start (c ∷ s) = not (c == b'/' || (c == b'<' || (c == b'%' || (c == b'(' || is_blank c))))

module _ (x : Unicode) where
  -- A text that parseSimpleRule takes up to a space.
  pub record IsWord (text : Bytes) : Type 0 where
    pub no_space : contains text b' ' ≡ false
    pub lower : x.to_lower text ≡ text
    pub letter :
        (tail : Bytes)
        → (x.is_letter (x.first_rune (text ++ tail)) || x.is_digit (x.first_rune (text ++ tail)))
          ≡ true
    pub start : plain_start text ≡ true
    pub no_list : (text == codes "urllist") ≡ false

  abbrev pub IsReadable1 : SimpleRule → Type 0
  IsReadable1 r = elim r.t [
    | default_rule ↦ IsWord (codes "default") × (r.content ≡ codes "default")
    | url_match ↦
        IsWord r.content
        × ((has_prefix r.content (codes "ip:") ≡ false)
            × (((r.content == codes "default") ≡ false) × (trim_last b'/' r.content ≡ r.content)))
    | ip_addr ↦
        IsWord (codes "ip:" ++ r.content)
        × (trim_last b'/' (codes "ip:" ++ r.content) ≡ codes "ip:" ++ r.content)
    | content_phrase ↦ (contains r.content b'>' ≡ false) × (word_string x r.content ≡ r.content)
    | image_hash ↦ (contains r.content b' ' ≡ false) × (x.to_lower r.content ≡ r.content)
    | _ ↦ contains r.content b' ' ≡ false
  ]

  -- Whether the end of the text can be told without a space.
  abbrev pub ends_itself : SimpleRule → Bool
  ends_itself r = elim r.t [
    | url_regex ↦ true
    | host_regex ↦ true
    | domain_regex ↦ true
    | path_regex ↦ true
    | query_regex ↦ true
    | content_phrase ↦ true
    | _ ↦ false
  ]

pub before_space-stops :
    (t tail : Bytes)
    → contains t b' ' ≡ false
    → stops tail ≡ true
    → (before_space (t ++ tail) ≡ t) × (from_space (t ++ tail) ≡ tail)
before_space-stops t [] h k =
    let e : cut b' ' (t ++ []) ≡ none = rw (append-nil t) (cut-none b' ' t h) in
    (rw (before_space, e, append-nil t) refl, rw (from_space, e) refl)
before_space-stops t (c ∷ tail) h k =
    let same : c ≡ b' ' = ground (arith, k) in
    let e : cut b' ' (t ++ c ∷ tail) ≡ some (t, tail) = rw same (cut-here b' ' t tail h) in
    (rw (before_space, e) refl, rw (from_space, e, same) refl)

-- A text before a space is not the start of a URL list, unless it is that word.
pub no_list-stops :
    (t tail : Bytes)
    → contains t b' ' ≡ false
    → stops tail ≡ true
    → (t == codes "urllist") ≡ false
    → has_prefix (t ++ tail) (codes "urllist ") ≡ false
no_list-stops t tail h k n = elim (Bool-cases (has_prefix (t ++ tail) (codes "urllist "))) [
  | inr e ↦ e
  | inl e ↦
      let (q, same) = has_prefix-split (t ++ tail) (codes "urllist ") e in
      let word : t ≡ codes "urllist" =
        sym ((before_space-stops t tail h k).0) ∙ ap before_space same in
      let yes : (t == codes "urllist") ≡ true = rw word refl in cc (n, yes)
]
