-- ===== src/Schedule/Days.antt =====
-- The days of a schedule: ParseWeekdayList.
use redwood_filter.Common.{
  ℕ, zero, suc, ◌<◌, ◌≡◌, ◌⊎◌, inl, inr, refl, ◌∙◌, Bool, true, false, not, ◌&&◌, ◌||◌, Option,
  none, some, [], ◌∷◌, arith, ltb, nat_beq_iff, ◌==◌, nat_eq, Bool-cases, Option-cases, length,
  get_or, set, replicate, length-set, get_or-set, get_or-replicate, Bytes, bytes_eq,
}
use redwood_filter.Common.Int.{ℤ}
use redwood_filter.Schedule.{Days, no_days, day_of, parse_days, parse_weekday_list}

abbrev is_day : Option ℕ → ℕ → Bool
is_day none d = false
is_day (some e) d = e == d

-- Whether a day's letter is in the text.
unfoldable pub names_day : Bytes → ℕ → Bool
names_day [] d = false
names_day (c ∷ s) d = is_day (day_of c) d || names_day s d

-- Whether all letters are abbreviations, and no day is there twice.
unfoldable pub is_day_list : Bytes → Bool
is_day_list [] = true
is_day_list (c ∷ s) = elim (day_of c) [
  | none ↦ false
  | some d ↦ not (names_day s d) && is_day_list s
]

-- Whether the text names no day of an array.
is_fresh : Days → Bytes → Bool
is_fresh days [] = true
is_fresh days (c ∷ s) = elim (day_of c) [
  | none ↦ false
  | some d ↦ not (get_or days d false) && is_fresh days s
]

day_of-lt : (c d : ℕ) → day_of c ≡ some d → d < 7
unfolding day_of
day_of-lt c d h = ground (arith, h)

is_fresh-set :
    (days : Days) (d : ℕ) (s : Bytes)
    → d < length days
    → is_fresh (set days d true) s ≡ (is_fresh days s && not (names_day s d))
unfolding is_fresh names_day
is_fresh-set days d [] h = refl
is_fresh-set days d (c ∷ s) h = elim (Option-cases (day_of c)) [
  | inl e ↦ rw (is_fresh, e) refl
  | inr (x, e) ↦
      rw (is_fresh, e, get_or-set days d x true false h, is_fresh-set days d s h)
        (ground (arith, nat_beq_iff d x, nat_beq_iff x d))
]

is_fresh-no_days : (s : Bytes) → is_day_list s ≡ true → is_fresh no_days s ≡ true
unfolding is_fresh is_day_list
is_fresh-no_days [] h = refl
is_fresh-no_days (c ∷ s) h = elim (Option-cases (day_of c)) [
  | inl e ↦ cc (rw (is_day_list, e) at h)
  | inr (x, e) ↦
      let h' : (not (names_day s x) && is_day_list s) ≡ true = rw (is_day_list, e) at h in
      rw (is_fresh, e, get_or-replicate 7 x false) (is_fresh-no_days s (ground (arith, h')))
]

-- What the loop makes of an array and a text.
Parsed : Days → Bytes → Type 0
Parsed days s =
    (r : Days) × (parse_days days s ≡ some r)
    × ((d : ℕ) → get_or r d false ≡ (get_or days d false || names_day s d))

parse_days-Parsed :
    (days : Days) (s : Bytes)
    → length days ≡ 7
    → is_fresh days s ≡ true
    → is_day_list s ≡ true
    → Parsed days s
unfolding parse_days is_fresh is_day_list names_day Parsed
parse_days-Parsed days [] n fresh h = (days, refl, λ d. ground arith)
parse_days-Parsed days (c ∷ s) n fresh h = elim (Option-cases (day_of c)) [
  | inl e ↦ cc (rw (is_day_list, e) at h)
  | inr (x, e) ↦
      let f : (not (get_or days x false) && is_fresh days s) ≡ true = rw (is_fresh, e) at fresh in
      let l : (not (names_day s x) && is_day_list s) ≡ true = rw (is_day_list, e) at h in
      let lt : x < length days = omega (arith, day_of-lt c x e) in
      let new : get_or days x false ≡ false = ground (arith, f) in
      let (r, p, q) =
        parse_days-Parsed (set days x true) s (length-set days x true ∙ n)
          (ground (arith, is_fresh-set days x s lt, f, l)) (ground (arith, l)) in
      (
        r,
        rw (e, new) p,
        λ d. q d ∙ rw (e, get_or-set days x d true false lt) (ground (arith, nat_beq_iff x d)),
      )
]

parse_days-none :
    (days : Days) (s : Bytes)
    → length days ≡ 7
    → (is_fresh days s && is_day_list s) ≡ false
    → parse_days days s ≡ none
unfolding parse_days is_fresh is_day_list names_day
parse_days-none days [] n h = cc h
parse_days-none days (c ∷ s) n h = elim (Option-cases (day_of c)) [
  | inl e ↦ rw e refl
  | inr (x, e) ↦
      let lt : x < length days = omega (arith, day_of-lt c x e) in
      let h' : ((not (get_or days x false) && is_fresh days s)
            && (not (names_day s x) && is_day_list s))
          ≡ false =
        rw (is_fresh, is_day_list, e) at h in
      elim (Bool-cases (get_or days x false)) [
        | inl g ↦ rw (e, g) refl
        | inr g ↦
            rw (e, g)
              (parse_days-none (set days x true) s (length-set days x true ∙ n)
                (ground (arith, is_fresh-set days x s lt, h', g)))
      ]
]

pub every_day : (n d : ℕ) → get_or (replicate n true) d false ≡ ltb d n
every_day zero d = ground arith
every_day (suc n) zero = ground arith
every_day (suc n) (suc d) = every_day n d ∙ ground arith

-- ParseWeekdayList succeeds exactly on a list, in upper case, of abbreviations without a repeated
-- day, and the array that it returns is true for exactly the days of the list.
pub parse_weekday_list_lem :
    (to_upper : Bytes → Bytes) (scan_times : Bytes → Option (ℤ × (ℤ × (ℤ × ℤ)))) (list : Bytes)
    → (is_day_list (to_upper list) ≡ true)
        × ((days : Days) × (parse_weekday_list to_upper scan_times list ≡ some days)
            × ((d : ℕ) → get_or days d false ≡ names_day (to_upper list) d))
      ⊎ (is_day_list (to_upper list) ≡ false) × (parse_weekday_list to_upper scan_times list ≡ none)
unfolding parse_weekday_list Parsed
parse_weekday_list_lem to_upper scan_times list =
    let s = to_upper list in
    elim (Bool-cases (is_day_list s)) [
      | inl h ↦
          let (r, p, q) = parse_days-Parsed no_days s refl (is_fresh-no_days s h) h in
          inl (h, (r, p, λ d. rw (q d, get_or-replicate 7 d false) refl))
      | inr h ↦ inr (h, parse_days-none no_days s refl (ground (arith, h)))
    ]
