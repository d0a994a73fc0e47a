-- ===== src/Url/Types.antt =====
-- What AddRule leaves in the parts of the matcher: the rules of each part's type, in order.
use redwood_filter.Common.{
  ◌≡◌, inl, inr, refl, ap, ◌∙◌, Bool, true, false, ◌&&◌, Option, some, List, [], ◌∷◌, foldl, arith,
  if◌then◌else◌, ◌==◌, nat_eq, ==→eq, Bool-cases, All, any, Bytes, bytes_eq,
}
use redwood_filter.Common.GoMap.{lookup, insert, lookup-insert}
use redwood_filter.RegexMap.{RegexMap}
use redwood_filter.Rule.{
  SimpleRule, Rule, simple, rule_eq, RuleType, type_number, type_number-injective, url_match,
  url_regex, host_regex, domain_regex, path_regex, query_regex,
}
use redwood_filter.Url.{Externals, UrlMatcher, add_regex, add_typed, add_rule}

abbrev pub has_type : RuleType → SimpleRule → Bool
has_type t r = type_number r.t == type_number t

-- The rules of a type.
abbrev pub of_type : RuleType → List SimpleRule → List SimpleRule
of_type t [] = []
of_type t (r ∷ rs) = if has_type t r then r ∷ of_type t rs else of_type t rs

-- Whether the rules of a type have regular expressions.
abbrev pub is_regex : RuleType → Bool
is_regex t = elim t [
  | url_regex ↦ true
  | host_regex ↦ true
  | domain_regex ↦ true
  | path_regex ↦ true
  | query_regex ↦ true
  | _ ↦ false
]

pub of_type-All :
    (P : SimpleRule → Type 0) (t : RuleType) (rs : List SimpleRule)
    → is_regex t ≡ true
    → All (λ r. is_regex r.t ≡ true → P r) rs
    → All P (of_type t rs)
of_type-All P t [] i h = tt
of_type-All P t (r ∷ rs) i h = elim (Bool-cases (has_type t r)) [
  | inl e ↦
      let same : r.t ≡ t = type_number-injective _ _ (==→eq _ _ e) in
      rw e (h.0 (rw same i), of_type-All P t rs i h.1)
  | inr e ↦ rw e (of_type-All P t rs i h.1)
]

pub any-of_type :
    (f : SimpleRule → Bool) (t : RuleType) (rs : List SimpleRule)
    → any f (of_type t rs) ≡ any (λ r. has_type t r && f r) rs
any-of_type f t [] = refl
any-of_type f t (r ∷ rs) = elim (Bool-cases (has_type t r)) [
  | inl e ↦ rw (e, any-of_type f t rs) refl
  | inr e ↦ rw (e, any-of_type f t rs) refl
]

module _ (x : Externals) where
  -- A part that only the rules of one type change.
  abbrev IsPart : RuleType → (UrlMatcher → RegexMap) → Type 0
  IsPart t part =
      (m : UrlMatcher) (r : SimpleRule)
      → part (add_rule x m r) ≡ (if has_type t r then add_regex x (part m) r else part m)

  foldl-IsPart :
      (t : RuleType) (part : UrlMatcher → RegexMap)
      → IsPart t part
      → (rs : List SimpleRule) (m : UrlMatcher)
      → part (foldl (add_rule x) m rs) ≡ foldl (add_regex x) (part m) (of_type t rs)
  foldl-IsPart t part step [] m = refl
  foldl-IsPart t part step (r ∷ rs) m =
      foldl-IsPart t part step rs (add_rule x m r) ∙ (elim (Bool-cases (has_type t r)) [
        | inl e ↦ rw (step m r, e) refl
        | inr e ↦ rw (step m r, e) refl
      ])

  typed-regexes :
      (m : UrlMatcher) (r : SimpleRule) (t : RuleType)
      → (add_typed x m r t).regexes
        ≡ (if type_number t == type_number url_regex then add_regex x m.regexes r else m.regexes)
  unfolding add_typed
  typed-regexes m r t = ground arith

  typed-host_regexes :
      (m : UrlMatcher) (r : SimpleRule) (t : RuleType)
      → (add_typed x m r t).host_regexes ≡ (
          if type_number t == type_number host_regex
          then add_regex x m.host_regexes r
          else m.host_regexes)
  unfolding add_typed
  typed-host_regexes m r t = ground arith

  typed-domain_regexes :
      (m : UrlMatcher) (r : SimpleRule) (t : RuleType)
      → (add_typed x m r t).domain_regexes ≡ (
          if type_number t == type_number domain_regex
          then add_regex x m.domain_regexes r
          else m.domain_regexes)
  unfolding add_typed
  typed-domain_regexes m r t = ground arith

  typed-path_regexes :
      (m : UrlMatcher) (r : SimpleRule) (t : RuleType)
      → (add_typed x m r t).path_regexes ≡ (
          if type_number t == type_number path_regex
          then add_regex x m.path_regexes r
          else m.path_regexes)
  unfolding add_typed
  typed-path_regexes m r t = ground arith

  typed-query_regexes :
      (m : UrlMatcher) (r : SimpleRule) (t : RuleType)
      → (add_typed x m r t).query_regexes ≡ (
          if type_number t == type_number query_regex
          then add_regex x m.query_regexes r
          else m.query_regexes)
  unfolding add_typed
  typed-query_regexes m r t = ground arith

  typed-fragments :
      (m : UrlMatcher) (r : SimpleRule) (t : RuleType)
      → (add_typed x m r t).fragments ≡ (
          if type_number t == type_number url_match
          then insert r.content (simple r) m.fragments
          else m.fragments)
  unfolding add_typed
  typed-fragments m r t = ground arith

  fragments-step :
      (m : UrlMatcher) (r : SimpleRule)
      → (add_rule x m r).fragments
        ≡ (if has_type url_match r then insert r.content (simple r) m.fragments else m.fragments)
  unfolding add_rule
  fragments-step m r = typed-fragments m r r.t

  pub foldl-regexes :
      (rs : List SimpleRule) (m : UrlMatcher)
      → (foldl (add_rule x) m rs).regexes ≡ foldl (add_regex x) m.regexes (of_type url_regex rs)
  unfolding add_rule
  foldl-regexes = foldl-IsPart url_regex (λ m. m.regexes) (λ m r. typed-regexes m r r.t)

  pub foldl-host_regexes :
      (rs : List SimpleRule) (m : UrlMatcher)
      → (foldl (add_rule x) m rs).host_regexes
        ≡ foldl (add_regex x) m.host_regexes (of_type host_regex rs)
  unfolding add_rule
  foldl-host_regexes =
      foldl-IsPart host_regex (λ m. m.host_regexes) (λ m r. typed-host_regexes m r r.t)

  pub foldl-domain_regexes :
      (rs : List SimpleRule) (m : UrlMatcher)
      → (foldl (add_rule x) m rs).domain_regexes
        ≡ foldl (add_regex x) m.domain_regexes (of_type domain_regex rs)
  unfolding add_rule
  foldl-domain_regexes =
      foldl-IsPart domain_regex (λ m. m.domain_regexes) (λ m r. typed-domain_regexes m r r.t)

  pub foldl-path_regexes :
      (rs : List SimpleRule) (m : UrlMatcher)
      → (foldl (add_rule x) m rs).path_regexes
        ≡ foldl (add_regex x) m.path_regexes (of_type path_regex rs)
  unfolding add_rule
  foldl-path_regexes =
      foldl-IsPart path_regex (λ m. m.path_regexes) (λ m r. typed-path_regexes m r r.t)

  pub foldl-query_regexes :
      (rs : List SimpleRule) (m : UrlMatcher)
      → (foldl (add_rule x) m rs).query_regexes
        ≡ foldl (add_regex x) m.query_regexes (of_type query_regex rs)
  unfolding add_rule
  foldl-query_regexes =
      foldl-IsPart query_regex (λ m. m.query_regexes) (λ m r. typed-query_regexes m r r.t)

  typed-rest :
      (m : UrlMatcher) (r : SimpleRule) (t : RuleType)
      → ((add_typed x m r t).url_lists ≡ m.url_lists)
        × ((add_typed x m r t).public_suffixes ≡ m.public_suffixes)
  unfolding add_typed
  typed-rest m r t = ground arith

  -- The URL lists and the suffixes stay as they are.
  pub foldl-rest :
      (rs : List SimpleRule) (m : UrlMatcher)
      → ((foldl (add_rule x) m rs).url_lists ≡ m.url_lists)
        × ((foldl (add_rule x) m rs).public_suffixes ≡ m.public_suffixes)
  unfolding add_rule
  foldl-rest [] m = (refl, refl)
  foldl-rest (r ∷ rs) m =
      let h = foldl-rest rs (add_rule x m r) in
      let step = typed-rest m r r.t in (h.0 ∙ step.0, h.1 ∙ step.1)

  abbrev pub fragment : Bytes → SimpleRule
  fragment s = record { t = url_match; content = s }

  fragment-has_type : (r : SimpleRule) → has_type url_match r ≡ true → r ≡ fragment r.content
  fragment-has_type r h =
      let e : r.t ≡ url_match = type_number-injective r.t url_match (ground (arith, h)) in
      λ i. record { t = e i; content = r.content }

  pub simple_fragment :
      (r : SimpleRule) (s : Bytes)
      → has_type url_match r ≡ true
      → (r.content == s) ≡ true
      → simple r ≡ simple (fragment s)
  simple_fragment r s h c =
      ap simple (fragment-has_type r h) ∙ ap (λ c. simple (fragment c)) (==→eq r.content s c)

  if_same : (b : Bool) {y : Option Rule} → (if b then y else y) ≡ y
  if_same true = refl
  if_same false = refl

  -- The fragment of a text is there if a rule brought it.
  pub foldl-fragments :
      (s : Bytes) (rs : List SimpleRule) (m : UrlMatcher)
      → lookup s (foldl (add_rule x) m rs).fragments ≡ (
          if any (λ r. has_type url_match r && r.content == s) rs
          then some (simple (fragment s))
          else lookup s m.fragments)
  foldl-fragments s [] m = refl
  foldl-fragments s (r ∷ rs) m =
      foldl-fragments s rs (add_rule x m r) ∙ (elim (Bool-cases (has_type url_match r)) [
        | inl e ↦
            rw (fragments-step m r, e, lookup-insert r.content s (simple r) m.fragments)
              (elim (Bool-cases (r.content == s)) [
                | inl c ↦
                    rw (c, simple_fragment r s e c)
                      (if_same (any (λ r. has_type url_match r && r.content == s) rs))
                | inr c ↦ rw c refl
              ])
        | inr e ↦ rw (fragments-step m r, e) refl
      ])
