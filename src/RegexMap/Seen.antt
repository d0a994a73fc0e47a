-- ===== src/RegexMap/Seen.antt =====
-- The rules of the strings that were found, against a test of every rule.
use redwood_filter.Common.{
  ◌≡◌, inl, inr, refl, ap, ◌∙◌, Bool, true, false, ◌&&◌, ◌||◌, Option, none, some, List, [], ◌∷◌,
  ◌++◌, map, arith, ◌==◌, nat_eq, ==-refl, Bool-cases, Option-cases, All, any, contains,
  contains-append, Bytes, IsBytes, bytes_beq_iff, bytes_eq,
}
use redwood_filter.Common.Anys.{or_false, any-append, any_or, any-nothing}
use redwood_filter.Common.Text.{has_part}
use redwood_filter.Rule.{SimpleRule, Rule, simple, rule_eq}
use redwood_filter.RegexMap.{Regexp, RegexRule, min_len}
use redwood_filter.RegexMap.Hits.{hit}
use redwood_filter.RegexMap.Built.{Entry, entries_at, strings, entry_hit, entries_of, entries}

-- How much of an entry's rule is seen, when these strings were found.
abbrev pub seen : List Bytes → Bytes → Rule → Entry → Bool
seen found s x (p, r) = (p == [] || contains found p) && hit s x r

and_or : (a b h : Bool) → ((a && h) || (b && h)) ≡ ((a || b) && h)
and_or true b h = ground arith
and_or false b h = refl

any-equal :
    (p : Bytes) (h : Bool) (found : List Bytes)
    → any (λ q. p == q && h) found ≡ (contains found p && h)
any-equal p h [] = refl
any-equal p h (q ∷ found) =
    ground (arith, bytes_beq_iff p q, bytes_beq_iff q p, any-equal p h found)

-- A test with a part that does not depend on the element.
any-map_and :
    (found ss : List Bytes) (s : Bytes) (x : Rule) (r : RegexRule)
    → any (seen found s x) (map (λ p. (p, r)) ss)
      ≡ (any (λ p. p == [] || contains found p) ss && hit s x r)
any-map_and found [] s x r = refl
any-map_and found (p ∷ ss) s x r =
    rw (any-map_and found ss s x r)
      (and_or (p == [] || contains found p) (any (λ q. q == [] || contains found q) ss) (hit s x r))

-- A test that passes somewhere.
any-some :
    (f g : Bytes → Bool) (ss : List Bytes)
    → any f ss ≡ true
    → ((p : Bytes) → contains ss p ≡ true → f p ≡ true → g p ≡ true)
    → any g ss ≡ true
any-some f g [] h k = cc h
any-some f g (p ∷ ss) h k = elim (Bool-cases (f p)) [
  | inl e ↦ rw (k p (rw (==-refl p) refl) e) refl
  | inr e ↦
      let rest : any g ss ≡ true =
        any-some f g ss (rw e at h) (λ q c fq. k q (ground (arith, c)) fq) in
      ground (arith, rest)
]

contains-strings :
    (r : RegexRule) (ss : List Bytes) (p : Bytes)
    → contains ss p ≡ true
    → (p == [] || contains (strings (map (λ q. (q, r)) ss)) p) ≡ true
contains-strings r [] p h = cc h
contains-strings r ([] ∷ ss) p h =
    ground (arith, h, bytes_beq_iff [] p, bytes_beq_iff p [], contains-strings r ss p)
contains-strings r ((c ∷ q) ∷ ss) p h = ground (arith, h, contains-strings r ss p)

strings-append : (xs ys : List Entry) → strings (xs ++ ys) ≡ strings xs ++ strings ys
strings-append [] ys = refl
strings-append (([], r) ∷ xs) ys = strings-append xs ys
strings-append ((c ∷ p, r) ∷ xs) ys = ap (λ l. (c ∷ p) ∷ l) (strings-append xs ys)

strings-map-All :
    (r : RegexRule) (ss : List Bytes)
    → All IsBytes ss
    → All IsBytes (strings (map (λ p. (p, r)) ss))
strings-map-All r [] h = tt
strings-map-All r ([] ∷ ss) h = strings-map-All r ss h.1
strings-map-All r ((c ∷ p) ∷ ss) h = (h.0, strings-map-All r ss h.1)

All-append : (xs ys : List Bytes) → All IsBytes xs → All IsBytes ys → All IsBytes (xs ++ ys)
All-append [] ys h k = k
All-append (x ∷ xs) ys h k = (h.0, All-append xs ys h.1 k)

-- The strings of the entries that occur in the text were found.
abbrev pub Complete : List Bytes → Bytes → List Entry → Type 0
Complete found s es =
    (p : Bytes) → contains (strings es) p ≡ true → has_part s p ≡ true → contains found p ≡ true

-- The strings first, or the entries first.
pub any-entry_hit :
    (found : List Bytes) (s : Bytes) (x : Rule) (es : List Entry)
    → (any (entry_hit s x []) es || any (λ p. any (entry_hit s x p) es) found)
      ≡ any (seen found s x) es
any-entry_hit found s x [] = any-nothing found
any-entry_hit found s x ((p, r) ∷ es) =
    rw
      (
        any_or (λ q. p == q && hit s x r) (λ q. any (entry_hit s x q) es) found,
        any-equal p (hit s x r) found,
        ← any-entry_hit found s x es,
      )
      (ground arith)

module _ (compile : Bytes → Option Regexp) (regex_strings : Bytes → Option (List Bytes)) where
  -- What regexStrings promises of a rule's expression: strings of bytes, of which every text that
  -- matches has one, unless it gives no strings.
  pub record IsSound (r : SimpleRule) : Type 0 where
    pub bytes : (ss : List Bytes) → regex_strings r.content ≡ some ss → All IsBytes ss
    pub needed :
        (ss : List Bytes) (re : Regexp) (s : Bytes)
        → regex_strings r.content ≡ some ss
        → compile r.content ≡ some re
        → (min_len ss == 0) ≡ false
        → re s ≡ true
        → any (has_part s) ss ≡ true

  -- Whether the rule's expression compiles and matches.
  unfoldable pub regex_hit : Bytes → SimpleRule → Bool
  regex_hit s r = elim (compile r.content) [ none ↦ false | some re ↦ re s ]

  -- Where a rule is among these and matches.
  abbrev pub regex_hits : List SimpleRule → Bytes → Rule → Bool
  regex_hits rs s x = any (λ r. simple r == x && regex_hit s r) rs

  any-seen_strings :
      (found ss : List Bytes) (s : Bytes) (x : Rule) (r : RegexRule)
      → (r.match_string s ≡ true → any (has_part s) ss ≡ true)
      → ((p : Bytes)
          → contains ss p ≡ true
          → has_part s p ≡ true
          → (p == [] || contains found p) ≡ true)
      → any (seen found s x) (map (λ p. (p, r)) ss) ≡ hit s x r
  any-seen_strings found ss s x r needed there =
      any-map_and found ss s x r ∙ elim (Bool-cases (hit s x r)) [
        | inr e ↦ rw e (ground arith)
        | inl e ↦
            rw
              (
                any-some (has_part s) (λ p. p == [] || contains found p) ss
                    (needed (ground (arith, e))) there,
                e,
              )
              refl
      ]

  any-seen_at :
      (found : List Bytes) (s : Bytes) (x : Rule) (r : RegexRule) (o : Option (List Bytes))
      → ((ss : List Bytes)
          → o ≡ some ss
          → (min_len ss == 0) ≡ false
          → r.match_string s ≡ true
          → any (has_part s) ss ≡ true)
      → Complete found s (entries_at r o)
      → any (seen found s x) (entries_at r o) ≡ hit s x r
  any-seen_at found s x r none needed complete = or_false (hit s x r)
  any-seen_at found s x r (some ss) needed complete = elim (Bool-cases (min_len ss == 0)) [
    | inl e ↦ rw e (or_false (hit s x r))
    | inr e ↦
        let all : Complete found s (map (λ p. (p, r)) ss) = rw e at complete in
        rw e (
          any-seen_strings found ss s x r (needed ss refl e)
            (λ p c part. ground (arith, contains-strings r ss p c, all p, part)))
  ]

  any-seen_of :
      (found : List Bytes) (s : Bytes) (x : Rule) (r : SimpleRule)
      → IsSound r
      → Complete found s (entries_of compile regex_strings r)
      → any (seen found s x) (entries_of compile regex_strings r) ≡ (simple r == x && regex_hit s r)
  unfolding entries_of regex_hit
  any-seen_of found s x r sound complete = elim (Option-cases (compile r.content)) [
    | inl e ↦ rw (entries_of, e) (ground arith)
    | inr (re, e) ↦
        let rr : RegexRule = record { rule = r; match_string = re } in
        let all : Complete found s (entries_at rr (regex_strings r.content)) =
          rw (entries_of, e) at complete in
        rw (entries_of, regex_hit, e)
          (any-seen_at found s x rr (regex_strings r.content)
            (λ ss o m h. sound.needed ss re s o e m h) all)
  ]

  pub any-seen :
      (found : List Bytes) (s : Bytes) (x : Rule) (rs : List SimpleRule)
      → All IsSound rs
      → Complete found s (entries compile regex_strings rs)
      → any (seen found s x) (entries compile regex_strings rs) ≡ regex_hits rs s x
  unfolding entries
  any-seen found s x [] sound complete = refl
  any-seen found s x (r ∷ rs) sound complete =
      let here = entries_of compile regex_strings r in
      let more = entries compile regex_strings rs in
      let split : (p : Bytes)
          → contains (strings (here ++ more)) p
            ≡ (contains (strings here) p || contains (strings more) p) =
        λ p. rw (strings-append here more) (contains-append (strings here) (strings more) p) in
      rw
        (
          any-append (seen found s x) here more,
          any-seen_of found s x r sound.0 (λ p c. complete p (rw (split p, c) refl)),
          any-seen found s x rs sound.1 (λ p c. complete p (rw (split p, c) (ground arith))),
        )
        refl

  -- The strings of sound rules are bytes.
  pub strings-IsBytes :
      (rs : List SimpleRule)
      → All IsSound rs
      → All IsBytes (strings (entries compile regex_strings rs))
  unfolding entries entries_of
  strings-IsBytes [] sound = tt
  strings-IsBytes (r ∷ rs) sound =
      rw (strings-append (entries_of compile regex_strings r) (entries compile regex_strings rs)) (
        All-append (strings (entries_of compile regex_strings r))
          (strings (entries compile regex_strings rs)) (of_rule r sound.0)
          (strings-IsBytes rs sound.1))
    where
      at :
          (r : RegexRule) (o : Option (List Bytes))
          → ((ss : List Bytes) → o ≡ some ss → All IsBytes ss)
          → All IsBytes (strings (entries_at r o))
      at r none h = tt
      at r (some ss) h = elim (Bool-cases (min_len ss == 0)) [
        | inl e ↦ rw e tt
        | inr e ↦ rw e (strings-map-All r ss (h ss refl))
      ]

      of_rule :
          (r : SimpleRule) → IsSound r → All IsBytes (strings (entries_of compile regex_strings r))
      of_rule r sound = elim (Option-cases (compile r.content)) [
        | inl e ↦ rw (entries_of, e) tt
        | inr (re, e) ↦
            rw (entries_of, e)
              (at (record { rule = r; match_string = re }) (regex_strings r.content) sound.bytes)
      ]
