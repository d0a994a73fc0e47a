-- ===== src/Url/Lookup.antt =====
-- The lookups of the matcher's fragments and lists, by rules and lists.
use redwood_filter.Common.{
  ◌≡◌, inl, inr, refl, sym, ap, ap₂, ◌∙◌, Bool, true, false, ◌&&◌, ◌||◌, none, some, List, arith,
  if◌then◌else◌, ◌==◌, nat_eq, Bool-cases, any, contains, Bytes, bytes_eq,
}
use redwood_filter.Common.Anys.{any_or, any-and, any_swap, any_same}
use redwood_filter.Common.GoMap.{GoMap}
use redwood_filter.Common.Int.{int_eq}
use redwood_filter.Cuckoo.{CuckooFilter, contains_text}
use redwood_filter.Rule.{SimpleRule, Rule, simple, rule_eq, url_match}
use redwood_filter.Url.{Externals, UrlMatcher, new_url_matcher, finalize}
use redwood_filter.Url.Tested.{list_rule, fragment_hit, list_hit, text_hit}
use redwood_filter.Url.Types.{has_type, fragment, foldl-rest, foldl-fragments, simple_fragment}
use redwood_filter.Url.Hits.{built, any-contains}

module _ (x : Externals) (suffixes : List Bytes) (lists : GoMap Bytes CuckooFilter) where
  abbrev start : UrlMatcher
  start = record new_url_matcher { public_suffixes = suffixes; url_lists = lists }

  module _ (rs : List SimpleRule) where
    -- One rule's part in the fragment of a text.
    one_fragment :
        (s : Bytes) (r : Rule) (q : SimpleRule)
        → (simple (fragment x s) == r && (has_type url_match q && q.content == s))
          ≡ (simple q == r && (has_type url_match q && q.content == s))
    one_fragment s r q = elim (Bool-cases (has_type url_match q)) [
      | inr e ↦ rw e (ground arith)
      | inl e ↦ elim (Bool-cases (q.content == s)) [
        | inr c ↦ rw c (ground arith)
        | inl c ↦ rw (simple_fragment x q s e c) refl
      ]
    ]

    found-and :
        (b : Bool) (f r : Rule)
        → (elim (if b then some f else none) [ none ↦ false | some f ↦ f == r ]) ≡ (f == r && b)
    found-and true f r = ground arith
    found-and false f r = ground arith

    fragment-hit :
        (s : Bytes) (r : Rule)
        → fragment_hit x (built x suffixes lists rs) s r
          ≡ any (λ q. simple q == r && (has_type url_match q && q.content == s)) rs
    unfolding finalize
    fragment-hit s r =
        rw (fragment_hit, foldl-fragments x s rs start)
          (found-and (any (λ q. has_type url_match q && q.content == s) rs) (simple (fragment x s))
            r)
        ∙ (sym (
              any-and (simple (fragment x s) == r) (λ q. has_type url_match q && q.content == s) rs)
            ∙ any_same _ _ (one_fragment s r) rs)

    one_rule :
        (cs : List Bytes) (r : Rule) (q : SimpleRule)
        → any (λ s. simple q == r && (has_type url_match q && q.content == s)) cs
          ≡ (simple q == r && (has_type url_match q && contains cs q.content))
    one_rule cs r q =
        any-and (simple q == r) (λ s. has_type url_match q && q.content == s) cs
        ∙ ap (λ b. simple q == r && b)
            (any-and (has_type url_match q) (λ s. q.content == s) cs
              ∙ ap (λ b. has_type url_match q && b) (any-contains q.content cs))

    fragments-hit :
        (cs : List Bytes) (r : Rule)
        → any (λ s. fragment_hit x (built x suffixes lists rs) s r) cs
          ≡ any (λ q. simple q == r && (has_type url_match q && contains cs q.content)) rs
    unfolding finalize
    fragments-hit cs r =
        any_same _ _ (λ s. fragment-hit s r) cs
        ∙ (any_swap (λ s q. simple q == r && (has_type url_match q && q.content == s)) cs rs
            ∙ any_same _ _ (λ q. one_rule cs r q) rs)

    lists-hit :
        (cs : List Bytes) (r : Rule)
        → any (λ s. any (list_hit x (built x suffixes lists rs) s r) lists) cs
          ≡ any
              (λ (name, filter). list_rule name == r && any (contains_text x.hash filter) cs)
              lists
    unfolding finalize
    lists-hit cs r =
        any_swap (λ s. list_hit x (built x suffixes lists rs) s r) cs lists
        ∙ any_same _ _
            (λ (name, filter). any-and (list_rule name == r) (contains_text x.hash filter) cs) lists

    -- The texts, by rules and lists.
    pub texts-hit :
        (cs : List Bytes) (r : Rule)
        → any (text_hit x (built x suffixes lists rs) r) cs ≡ (
            any (λ q. simple q == r && (has_type url_match q && contains cs q.content)) rs
            || any
                (λ (name, filter). list_rule name == r && any (contains_text x.hash filter) cs)
                lists)
    unfolding finalize
    texts-hit cs r =
        any_same (text_hit x (built x suffixes lists rs) r)
          (λ s.
            fragment_hit x (built x suffixes lists rs) s r
            || any (list_hit x (built x suffixes lists rs) s r) lists)
          (λ s.
            ap
              (λ l.
                fragment_hit x (built x suffixes lists rs) s r
                || any (list_hit x (built x suffixes lists rs) s r) l)
              (foldl-rest x rs start).0)
          cs
        ∙ any_or (λ s. fragment_hit x (built x suffixes lists rs) s r)
            (λ s. any (list_hit x (built x suffixes lists rs) s r) lists) cs
        ∙ ap₂ (λ a b. a || b) (fragments-hit cs r) (lists-hit cs r)
