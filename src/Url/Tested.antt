-- ===== src/Url/Tested.antt =====
-- The loops over the host and the path: which rules' counts they set.
use redwood_filter.Common.{
  ℕ, zero, suc, ◌+◌, ◌<◌, ◌≡◌, inl, inr, refl, sym, ◌∙◌, Bool, true, false, ◌&&◌, ◌||◌, Option,
  none, some, List, [], ◌∷◌, ◌++◌, foldl, arith, if◌then◌else◌, ◌==◌, nat_eq, Option-cases, length,
  any, Bytes, bytes_eq, ◌>>=◌,
}
use redwood_filter.Common.Text.{cut, cut_last, cut-shorter, cut_last-shorter}
use redwood_filter.Common.GoMap.{lookup, insert, lookup_or-insert}
use redwood_filter.Common.Int.{ℤ, pos, int_eq}
use redwood_filter.Cuckoo.{CuckooFilter, contains_text}
use redwood_filter.Common.Anys.{any-append, or_false}
use redwood_filter.Rule.{Rule, simple, rule_eq, url_list}
use redwood_filter.Scoring.{Tally, count_of}
use redwood_filter.Url.{Externals, UrlMatcher, test_text, test_paths, test_hosts}
use redwood_filter.Url.Candidates.{
  behind_dots, path_parts, with_path, candidates, behind_dots-cut-none, behind_dots-cut,
  any-path_parts-none, any-path_parts_first, any-path_parts_cut,
}

-- The second tally has count 1 for the rules of the test, and the first one's count for the others.
pub record Sets (hit : Rule → Bool) (t t' : Tally) : Type 0 where
  pub at : (r : Rule) → count_of t' r ≡ (if hit r then pos 1 else count_of t r)

-- There is a tally, and it is such a one.
pub record Gives (hit : Rule → Bool) (t : Tally) (o : Option Tally) : Type 0 where
  pub tally : Tally
  pub ends : o ≡ some tally
  pub sets : Sets hit t tally

by_cases :
    (a b : Bool) (n : ℤ)
    → (if b then pos 1 else if a then pos 1 else n) ≡ (if a || b then pos 1 else n)
by_cases true b n = ground arith
by_cases false b n = refl

pub Sets-trans :
    {hit hit' : Rule → Bool} {t t' t'' : Tally}
    → Sets hit t t'
    → Sets hit' t' t''
    → Sets (λ r. hit r || hit' r) t t''
Sets-trans {hit} {hit'} {t} h k = record {
  at = λ r. rw (k.at r, h.at r) (by_cases (hit r) (hit' r) (count_of t r));
}

-- Two steps in order.
pub Gives-bind :
    {hit hit' : Rule → Bool} {t : Tally} {o : Option Tally} {k : Tally → Option Tally}
    → Gives hit t o
    → ((t' : Tally) → Gives hit' t' (k t'))
    → Gives (λ r. hit r || hit' r) t (o >>= k)
Gives-bind g h =
    let next = h g.tally in
    record {
      tally = next.tally;
      ends = rw (g.ends, ◌>>=◌) next.ends;
      sets = Sets-trans g.sets next.sets;
    }

pub Gives-same :
    {hit hit' : Rule → Bool} {t : Tally} {o : Option Tally}
    → ((r : Rule) → hit r ≡ hit' r)
    → Gives hit t o
    → Gives hit' t o
Gives-same same g = record {
  tally = g.tally;
  ends = g.ends;
  sets = record { at = λ r. g.sets.at r ∙ rw (same r) refl };
}

pub Gives-some : {hit : Rule → Bool} {t t' : Tally} → Sets hit t t' → Gives hit t (some t')
Gives-some {hit} {t} {t'} h = record { tally = t'; ends = refl; sets = h }

pub Gives-before :
    {hit hit' : Rule → Bool} {t t' : Tally} {o : Option Tally}
    → Sets hit t t'
    → Gives hit' t' o
    → Gives (λ r. hit r || hit' r) t o
Gives-before h g = record { tally = g.tally; ends = g.ends; sets = Sets-trans h g.sets }

pub Sets-none : (t : Tally) → Sets (λ r. false) t t
Sets-none t = record { at = λ r. refl }

-- A loop that sets the count of some rules.
pub foldl-Sets {ℓ} :
    {A : Type ℓ} (step : Tally → A → Tally) (hits : A → Rule → Bool)
    → ((t : Tally) (a : A) → Sets (hits a) t (step t a))
    → (xs : List A) (t : Tally) → Sets (λ r. any (λ a. hits a r) xs) t (foldl step t xs)
foldl-Sets step hits h [] t = Sets-none t
foldl-Sets step hits h (a ∷ xs) t = Sets-trans (h t a) (foldl-Sets step hits h xs (step t a))

pub insert-Sets : (x : Rule) (t : Tally) → Sets (λ r. x == r) t (insert x (pos 1) t)
insert-Sets x t = record { at = λ r. lookup_or-insert x r (pos 1) (pos 0) t }

insert_if-Sets :
    (b : Bool) (x : Rule) (t : Tally)
    → Sets (λ r. x == r && b) t (if b then insert x (pos 1) t else t)
insert_if-Sets true x t = record { at = λ r. (insert-Sets x t).at r ∙ ground arith }
insert_if-Sets false x t = record { at = λ r. ground arith }

insert_found-Sets :
    (o : Option Rule) (t : Tally)
    → Sets
        (λ r. elim o [ none ↦ false | some f ↦ f == r ])
        t
        (elim o [ none ↦ t | some f ↦ insert f (pos 1) t ])
insert_found-Sets none t = Sets-none t
insert_found-Sets (some f) t = insert-Sets f t

abbrev pub list_rule : Bytes → Rule
list_rule name = simple (record { t = url_list; content = name })

module _ (x : Externals) (m : UrlMatcher) where
  abbrev pub fragment_hit : Bytes → Rule → Bool
  fragment_hit s r = elim (lookup s m.fragments) [ none ↦ false | some f ↦ f == r ]

  abbrev pub list_hit : Bytes → Rule → Bytes × CuckooFilter → Bool
  list_hit s r (name, filter) = list_rule name == r && contains_text x.hash filter s

  -- A text is the fragment of the rule, or in its URL list.
  abbrev pub text_hit : Rule → Bytes → Bool
  text_hit r s = fragment_hit s r || any (list_hit s r) m.url_lists

  pub test_text-Sets : (s : Bytes) (t : Tally) → Sets (λ r. text_hit r s) t (test_text x m s t)
  unfolding test_text
  test_text-Sets s t = Sets-trans (insert_found-Sets (lookup s m.fragments) t) (
      foldl-Sets _ (λ e r. list_hit s r e)
        (λ t (name, filter). insert_if-Sets (contains_text x.hash filter s) (list_rule name) t)
        m.url_lists _)

  -- The inner loop ends within its fuel, after the text and its parts before a slash.
  pub test_paths-Gives :
      (fuel : ℕ) (s : Bytes) (t : Tally)
      → length s < fuel
      → Gives (λ r. any (text_hit r) (path_parts s)) t (test_paths x m fuel s t)
  unfolding test_paths
  test_paths-Gives zero s t h = absurd (omega (arith, h))
  test_paths-Gives (suc fuel) s t h = elim (Option-cases (cut_last b'/' s)) [
    | inl n ↦
        rw (test_paths, n)
          (Gives-same (λ r. sym (any-path_parts-none (text_hit r) s n))
            (Gives-some (test_text-Sets s t)))
    | inr (([], q), n) ↦
        rw (test_paths, n)
          (Gives-same (λ r. sym (any-path_parts_first (text_hit r) s q n))
            (Gives-some (test_text-Sets s t)))
    | inr ((c ∷ p, q), n) ↦
        let rest =
          test_paths-Gives fuel (c ∷ p) (test_text x m s t)
            (omega (arith, h, cut_last-shorter b'/' s (c ∷ p) q n)) in
        rw (test_paths, n)
          (Gives-same (λ r. sym (any-path_parts_cut (text_hit r) s c p q n))
            (Gives-before (test_text-Sets s t) rest))
  ]

  any-with_path :
      (f : Bytes → Bool) (path d : Bytes) (ds : List Bytes)
      → any f (with_path path (d ∷ ds))
        ≡ (any f (path_parts (d ++ path)) || (f d || any f (with_path path ds)))
  any-with_path f path d ds = any-append f (path_parts (d ++ path)) (d ∷ with_path path ds)

  -- The loop over the host ends within its fuel, after every candidate.
  pub test_hosts-Gives :
      (fuel : ℕ) (s path : Bytes) (t : Tally)
      → length s < fuel
      → Gives (λ r. any (text_hit r) (candidates s path)) t (test_hosts x m fuel s path t)
  unfolding test_hosts
  test_hosts-Gives zero s path t h = absurd (omega (arith, h))
  test_hosts-Gives (suc fuel) s path t h =
      Gives-same (λ r. sym (any-with_path (text_hit r) path s (behind_dots s)))
        (Gives-bind (test_paths-Gives (length (s ++ path) + 1) (s ++ path) t (omega arith))
          (λ tested. elim (Option-cases (cut b'.' s)) [
            | inl n ↦
                rw (n, behind_dots-cut-none s n)
                  (Gives-same (λ r. sym (or_false (text_hit r s)))
                    (Gives-some (test_text-Sets s tested)))
            | inr ((p, q), n) ↦
                rw (n, behind_dots-cut s p q n)
                  (Gives-before (test_text-Sets s tested) (
                    test_hosts-Gives fuel q path (test_text x m s tested)
                      (omega (arith, h, cut-shorter b'.' s p q n))))
          ]))
