-- ===== src/RegexMap/Built.antt =====
-- What `addRule` leaves in the map: an entry for each string of a rule, in order.
use redwood_filter.Common.{
  ℕ, ◌≤◌, ◌<◌, ◌≡◌, inl, inr, refl, sym, ap, ◌∙◌, Bool, false, ◌&&◌, ◌||◌, Option, none, some, List,
  [], ◌∷◌, ◌++◌, map, foldl, arith, if◌then◌else◌, ◌==◌, nat_eq, ==→eq, Bool-cases, Option-cases,
  length, All, any, all, Bytes, bytes_eq,
}
use redwood_filter.Common.{foldl-append}
use redwood_filter.Common.Anys.{or_false, or_assoc, any-append}
use redwood_filter.Common.GoMap.{GoMap, lookup_or, insert, lookup_or-insert}
use redwood_filter.Phrase.{new_phrase_list, add_phrase, add_phrases}
use redwood_filter.Rule.{SimpleRule, Rule}
use redwood_filter.RegexMap.{
  Regexp, RegexRule, RegexMap, new_regex_map, min_len, shorter, append_rule, add_string, store,
  add_rule, is_empty,
}
use redwood_filter.RegexMap.Hits.{hit}

abbrev pub Entry : Type 0
Entry = Bytes × RegexRule

abbrev pub entries_at : RegexRule → Option (List Bytes) → List Entry
entries_at r none = ([], r) ∷ []
entries_at r (some ss) = if min_len ss == 0 then ([], r) ∷ [] else map (λ p. (p, r)) ss

-- The strings of a list of entries; "" stands for the rules that have none.
abbrev pub strings : List Entry → List Bytes
strings [] = []
strings ((p, r) ∷ es) = if p == [] then strings es else p ∷ strings es

put_entry : RegexMap → Entry → RegexMap
put_entry rm (p, r) = if p == [] then append_rule rm [] r else add_string r rm p

foldl-shorter-le : (m : ℕ) (ss : List Bytes) → foldl shorter m ss ≤ m
foldl-shorter-le m [] = omega arith
foldl-shorter-le m (s ∷ ss) = ground (arith, foldl-shorter-le (shorter m s) ss)

foldl-shorter-All : (m : ℕ) (ss : List Bytes) → All (λ s. foldl shorter m ss ≤ length s) ss
foldl-shorter-All m [] = tt
foldl-shorter-All m (s ∷ ss) =
    (ground (arith, foldl-shorter-le (shorter m s) ss), foldl-shorter-All (shorter m s) ss)

longer : (k : ℕ) (ss : List Bytes) → 0 < k → All (λ s. k ≤ length s) ss → All (λ s. 0 < length s) ss
longer k [] h all = tt
longer k (s ∷ ss) h all = (omega (arith, all.0), longer k ss h all.1)

min_len-All : (ss : List Bytes) → (min_len ss == 0) ≡ false → All (λ s. 0 < length s) ss
unfolding min_len
min_len-All [] h = tt
min_len-All (s ∷ ss) h =
    longer (min_len (s ∷ ss)) (s ∷ ss) (ground (arith, h)) (foldl-shorter-All (length s) (s ∷ ss))

-- Adding the strings of a rule is putting its entries.
foldl-add_string :
    (r : RegexRule) (rm : RegexMap) (ss : List Bytes)
    → All (λ s. 0 < length s) ss
    → foldl (add_string r) rm ss ≡ foldl put_entry rm (map (λ p. (p, r)) ss)
unfolding put_entry
foldl-add_string r rm [] h = refl
foldl-add_string r rm ([] ∷ ss) h = absurd (omega (arith, h.0))
foldl-add_string r rm ((c ∷ s) ∷ ss) h = foldl-add_string r (add_string r rm (c ∷ s)) ss h.1

foldl-put_entry-string_list :
    (rm : RegexMap) (es : List Entry)
    → (foldl put_entry rm es).string_list ≡ foldl add_phrase rm.string_list (strings es)
unfolding put_entry add_string
foldl-put_entry-string_list rm [] = refl
foldl-put_entry-string_list rm (([], r) ∷ es) = foldl-put_entry-string_list (append_rule rm [] r) es
foldl-put_entry-string_list rm ((c ∷ p, r) ∷ es) =
    foldl-put_entry-string_list (add_string r rm (c ∷ p)) es

abbrev pub entry_hit : Bytes → Rule → Bytes → Entry → Bool
entry_hit s x p (p', r) = p' == p && hit s x r

append_rule-hit :
    (rm : RegexMap) (s : Bytes) (x : Rule) (p' p : Bytes) (r : RegexRule)
    → any (hit s x) (lookup_or p [] (append_rule rm p' r).rules)
      ≡ (any (hit s x) (lookup_or p [] rm.rules) || (p' == p && hit s x r))
append_rule-hit rm s x p' p r = elim (Bool-cases (p' == p)) [
  | inl e ↦
      rw
        (
          lookup_or-insert p' p (lookup_or p' [] rm.rules ++ r ∷ []) [] rm.rules,
          e,
          ==→eq p' p e,
          any-append (hit s x) (lookup_or p [] rm.rules) (r ∷ []),
        )
        (ground arith)
  | inr e ↦
      rw (lookup_or-insert p' p (lookup_or p' [] rm.rules ++ r ∷ []) [] rm.rules, e) (ground arith)
]

put_entry-hit :
    (rm : RegexMap) (s : Bytes) (x : Rule) (p : Bytes) (e : Entry)
    → any (hit s x) (lookup_or p [] (put_entry rm e).rules)
      ≡ (any (hit s x) (lookup_or p [] rm.rules) || entry_hit s x p e)
unfolding put_entry add_string
put_entry-hit rm s x p ([], r) = append_rule-hit rm s x [] p r
put_entry-hit rm s x p (c ∷ p', r) =
    append_rule-hit (record rm { string_list = add_phrase rm.string_list (c ∷ p') }) s x (c ∷ p') p
      r

foldl-put_entry-hit :
    (rm : RegexMap) (s : Bytes) (x : Rule) (p : Bytes) (es : List Entry)
    → any (hit s x) (lookup_or p [] (foldl put_entry rm es).rules)
      ≡ (any (hit s x) (lookup_or p [] rm.rules) || any (entry_hit s x p) es)
foldl-put_entry-hit rm s x p [] = sym (or_false (any (hit s x) (lookup_or p [] rm.rules)))
foldl-put_entry-hit rm s x p (e ∷ es) =
    foldl-put_entry-hit (put_entry rm e) s x p es
    ∙ rw (put_entry-hit rm s x p e) (
        or_assoc (any (hit s x) (lookup_or p [] rm.rules)) (entry_hit s x p e)
          (any (entry_hit s x p) es))

insert-is_empty :
    (k : Bytes) (v : List RegexRule) (m : GoMap Bytes (List RegexRule))
    → is_empty (insert k v m) ≡ false
insert-is_empty k v [] = refl
insert-is_empty k v ((j, w) ∷ m) = ground arith

put_entry-is_empty : (rm : RegexMap) (e : Entry) → is_empty (put_entry rm e).rules ≡ false
unfolding put_entry add_string
put_entry-is_empty rm ([], r) = insert-is_empty [] _ rm.rules
put_entry-is_empty rm (c ∷ p, r) = insert-is_empty (c ∷ p) _ rm.rules

foldl-put_entry-is_empty :
    (rm : RegexMap) (es : List Entry)
    → is_empty rm.rules ≡ false
    → is_empty (foldl put_entry rm es).rules ≡ false
foldl-put_entry-is_empty rm [] h = h
foldl-put_entry-is_empty rm (e ∷ es) h =
    foldl-put_entry-is_empty (put_entry rm e) es (put_entry-is_empty rm e)

module _ (compile : Bytes → Option Regexp) (regex_strings : Bytes → Option (List Bytes)) where
  unfoldable pub entries_of : SimpleRule → List Entry
  entries_of r = elim (compile r.content) [
    | none ↦ []
    | some re ↦ entries_at (record { rule = r; match_string = re }) (regex_strings r.content)
  ]

  unfoldable pub entries : List SimpleRule → List Entry
  entries [] = []
  entries (r ∷ rs) = entries_of r ++ entries rs

  store-entries_at :
      (rm : RegexMap) (r : RegexRule) (o : Option (List Bytes))
      → store compile regex_strings rm r o ≡ foldl put_entry rm (entries_at r o)
  unfolding store put_entry
  store-entries_at rm r none = refl
  store-entries_at rm r (some ss) = elim (Bool-cases (min_len ss == 0)) [
    | inl e ↦ rw e refl
    | inr e ↦ rw e (foldl-add_string r rm ss (min_len-All ss e))
  ]

  add_rule-entries_of :
      (rm : RegexMap) (r : SimpleRule)
      → add_rule compile regex_strings rm r ≡ foldl put_entry rm (entries_of r)
  unfolding add_rule entries_of
  add_rule-entries_of rm r = elim (Option-cases (compile r.content)) [
    | inl e ↦ rw (add_rule, entries_of, e) refl
    | inr (re, e) ↦
        rw (add_rule, entries_of, e)
          (store-entries_at rm (record { rule = r; match_string = re }) (regex_strings r.content))
  ]

  foldl-add_rule :
      (rm : RegexMap) (rs : List SimpleRule)
      → foldl (add_rule compile regex_strings) rm rs ≡ foldl put_entry rm (entries rs)
  unfolding entries
  foldl-add_rule rm [] = refl
  foldl-add_rule rm (r ∷ rs) =
      foldl-add_rule (add_rule compile regex_strings rm r) rs
      ∙ (ap (λ m. foldl put_entry m (entries rs)) (add_rule-entries_of rm r)
          ∙ sym (foldl-append put_entry rm (entries_of r) (entries rs)))

  -- The map of these rules.
  abbrev pub built : List SimpleRule → RegexMap
  built rs = foldl (add_rule compile regex_strings) new_regex_map rs

  pub built-string_list :
      (rs : List SimpleRule)
      → (built rs).string_list ≡ add_phrases new_phrase_list (strings (entries rs))
  unfolding add_phrases
  built-string_list rs =
      ap (λ m. m.string_list) (foldl-add_rule new_regex_map rs)
      ∙ foldl-put_entry-string_list new_regex_map (entries rs)

  pub built-hit :
      (rs : List SimpleRule) (s : Bytes) (x : Rule) (p : Bytes)
      → any (hit s x) (lookup_or p [] (built rs).rules) ≡ any (entry_hit s x p) (entries rs)
  built-hit rs s x p =
      ap (λ m. any (hit s x) (lookup_or p [] m.rules)) (foldl-add_rule new_regex_map rs)
      ∙ foldl-put_entry-hit new_regex_map s x p (entries rs)

  pub built-is_empty : (rs : List SimpleRule) → is_empty (built rs).rules ≡ is_empty (entries rs)
  built-is_empty rs = ap (λ m. is_empty m.rules) (foldl-add_rule new_regex_map rs) ∙ go (entries rs)
    where
      go : (es : List Entry) → is_empty (foldl put_entry new_regex_map es).rules ≡ is_empty es
      go [] = refl
      go (e ∷ es) =
          foldl-put_entry-is_empty (put_entry new_regex_map e) es
            (put_entry-is_empty new_regex_map e)
