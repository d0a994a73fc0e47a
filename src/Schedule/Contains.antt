-- ===== src/Schedule/Contains.antt =====
-- When a schedule's text contains a time: ParseWeeklySchedule, then Contains.
use redwood_filter.Common.{
  ℕ, ◌≡◌, inl, inr, refl, sym, ◌∙◌, Bool, true, false, ◌&&◌, ◌||◌, Option, none, some, List, [],
  ◌∷◌, arith, ltb, if◌then◌else◌, nat_eq, Bool-cases, Option-cases, get_or, replicate, any, Bytes,
  bytes_eq,
}
use mathlib.Core.Option.{some-injective}
use redwood_filter.Common.Int.{ℤ, pos, leb_ℤ}
use redwood_filter.Schedule.{
  Days, TimeRange, WeeklySchedule, minutes, starts_upper, parse_weekday_list, parse_time_range,
  parse_times, with_days, parse_weekly_schedule, in_times, is_nil, contains_time,
}
use redwood_filter.Schedule.Days.{names_day, every_day, parse_weekday_list_lem}

module _ (to_upper : Bytes → Bytes) (scan_times : Bytes → Option (ℤ × (ℤ × (ℤ × ℤ)))) where
  -- Whether a time range's text covers a minute of the day.
  unfoldable pub covers : Bytes → ℤ → Bool
  covers text minute = elim (scan_times text) [
    | none ↦ false
    | some (start_h, (start_m, (end_h, end_m))) ↦
        leb_ℤ (minutes start_h start_m) minute && leb_ℤ minute (minutes end_h end_m)
  ]

  -- The days and the time ranges of a schedule's words.
  unfoldable pub allows_day : List Bytes → ℕ → Bool
  allows_day [] day = false
  allows_day (s ∷ src) day = if starts_upper s then names_day (to_upper s) day else ltb day 7

  unfoldable pub time_texts : List Bytes → List Bytes
  time_texts [] = []
  time_texts (s ∷ src) = if starts_upper s then src else s ∷ src

  abbrev pub empty : List Bytes → Bool
  empty [] = true
  empty (s ∷ src) = false

  parse_time_range-covers :
      (s : Bytes) (r : TimeRange) (minute : ℤ)
      → parse_time_range to_upper scan_times s ≡ some r
      → covers s minute ≡ (leb_ℤ r.start minute && leb_ℤ minute r.end_)
  unfolding parse_time_range covers
  parse_time_range-covers s r minute h = elim (Option-cases (scan_times s)) [
    | inl e ↦ cc (rw (parse_time_range, e) at h)
    | inr ((h1, (m1, (h2, m2))), e) ↦ elim (Bool-cases (leb_ℤ (minutes h2 m2) (minutes h1 m1))) [
      | inl g ↦ cc (rw (parse_time_range, e, g) at h)
      | inr g ↦
          let q : record { start = minutes h1 m1; end_ = minutes h2 m2 } ≡ r =
            some-injective _ _ (rw (parse_time_range, e, g) at h) in
          rw (covers, e, ← q) refl
    ]
  ]

  parse_times_lem :
      (src : List Bytes) (times : List TimeRange) (minute : ℤ)
      → parse_times to_upper scan_times src ≡ some times
      → (in_times minute times ≡ any (λ t. covers t minute) src) × (is_nil times ≡ empty src)
  unfolding parse_times in_times covers parse_time_range
  parse_times_lem [] times minute h =
      let e : [] ≡ times = some-injective _ _ h in rw (← e) (refl, refl)
  parse_times_lem (s ∷ src) times minute h =
      elim (Option-cases (parse_time_range to_upper scan_times s)) [
        | inl e ↦ cc (rw (parse_times, e) at h)
        | inr (r, e) ↦ elim (Option-cases (parse_times to_upper scan_times src)) [
          | inl f ↦ cc (rw (parse_times, e, f) at h)
          | inr (rs, f) ↦
              let q : r ∷ rs ≡ times = some-injective _ _ (rw (parse_times, e, f) at h) in
              rw (← q, parse_time_range-covers s r minute e, (parse_times_lem src rs minute f).0)
                (ground arith, refl)
        ]
      ]

  parse_times-is_nil :
      (src : List Bytes) (times : List TimeRange)
      → parse_times to_upper scan_times src ≡ some times
      → is_nil times ≡ empty src
  parse_times-is_nil src times h = (parse_times_lem src times (pos 0) h).1

  -- The two parts that with_days joins.
  with_days_lem :
      (parsed : Option Days) (src : List Bytes) (w : WeeklySchedule)
      → with_days to_upper scan_times parsed src ≡ some w
      → (parsed ≡ some w.days) × (parse_times to_upper scan_times src ≡ some w.times)
  unfolding with_days
  with_days_lem none src w h = cc h
  with_days_lem (some days) src w h = elim (Option-cases (parse_times to_upper scan_times src)) [
    | inl e ↦ cc (rw (with_days, e) at h)
    | inr (times, e) ↦
        let q : record { days = days; times = times } ≡ w =
          some-injective _ _ (rw (with_days, e) at h) in
        rw (← q) (refl, e)
  ]

  -- What `Contains` says of the two parts.
  contains_time_lem :
      (w : WeeklySchedule) (src : List Bytes) (named : Bool) (day : ℕ) (hour min : ℤ)
      → get_or w.days day false ≡ named
      → parse_times to_upper scan_times src ≡ some w.times
      → contains_time w day hour min
        ≡ (named && (empty src || any (λ t. covers t (minutes hour min)) src))
  unfolding contains_time
  contains_time_lem w src named day hour min d t =
      rw (d, parse_times-is_nil src w.times t, (parse_times_lem src w.times (minutes hour min) t).0)
        (ground (arith, empty))

  parse_weekday_list-names_day :
      (s : Bytes) (days : Days) (day : ℕ)
      → parse_weekday_list to_upper scan_times s ≡ some days
      → get_or days day false ≡ names_day (to_upper s) day
  parse_weekday_list-names_day s days day h = elim (parse_weekday_list_lem to_upper scan_times s) [
    | inr (e, bad) ↦ cc (bad, h)
    | inl (e, (days', p, q)) ↦
        let same : days' ≡ days = some-injective _ _ (sym p ∙ h) in rw (← same) (q day)
  ]

  -- A schedule that was read from words contains a minute of the week exactly if its day is allowed
  -- (its letter is in the first word, or the words begin with no list of days) and a time range
  -- among the words covers it, both ends included, or there is no time range.
  pub parse_weekly_schedule-contains_time :
      (src : List Bytes) (w : WeeklySchedule) (day : ℕ) (hour min : ℤ)
      → parse_weekly_schedule to_upper scan_times src ≡ some w
      → contains_time w day hour min ≡ (
          allows_day src day
          && (empty (time_texts src) || any (λ t. covers t (minutes hour min)) (time_texts src)))
  unfolding parse_weekly_schedule allows_day time_texts
  parse_weekly_schedule-contains_time [] w day hour min h = cc h
  parse_weekly_schedule-contains_time (s ∷ src) w day hour min h =
      elim (Bool-cases (starts_upper s)) [
        | inl e ↦
            let (d, t) =
              with_days_lem (parse_weekday_list to_upper scan_times s) src w
                (rw (parse_weekly_schedule, e) at h) in
            rw e (
              contains_time_lem w src (names_day (to_upper s) day) day hour min
                (parse_weekday_list-names_day s w.days day d) t)
        | inr e ↦
            let (d, t) =
              with_days_lem (some (replicate 7 true)) (s ∷ src) w
                (rw (parse_weekly_schedule, e) at h) in
            rw e (
              contains_time_lem w (s ∷ src) (ltb day 7) day hour min
                (rw (← some-injective _ _ d) (every_day 7 day)) t)
      ]
