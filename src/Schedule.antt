-- ===== src/Schedule.antt =====
-- time.go: weekly schedules, as ACL rules use them. Days of the week are numbers from 0, Sunday.
-- strings.ToUpper and fmt.Sscanf with the format "%d:%d-%d:%d" are the section's parameters, and
-- an error is `none`. The loop over the runes of a day list goes over its bytes: the abbreviations
-- are ASCII letters, and no byte of any other rune is one.
mod Days
mod Contains
mod Tests
use redwood_filter.Common.{
  ℕ, Bool, true, false, not, ◌&&◌, Option, none, some, List, [], ◌∷◌, leb, if◌then◌else◌, ◌==◌,
  nat_eq, get_or, set, replicate, Bytes, bytes_eq, ◌>>=◌,
}
use redwood_filter.Common.Int.{ℤ, pos, ◌+ℤ◌, ◌*ℤ◌, leb_ℤ}

-- dayAbbreviations
unfoldable pub day_of : ℕ → Option ℕ
day_of c =
    if c == b'S'
    then some 0
    else if c == b'M'
    then some 1
    else if c == b'T'
    then some 2
    else if c == b'W'
    then some 3
    else if c == b'H'
    then some 4
    else if c == b'F'
    then some 5
    else if c == b'A'
    then some 6
    else none

-- the type [7]bool
abbrev pub Days : Type 0
Days = List Bool

abbrev pub no_days : Days
no_days = replicate 7 false

-- the loop of `ParseWeekdayList`
unfoldable pub parse_days : Days → Bytes → Option Days
parse_days days [] = some days
parse_days days (c ∷ s) = do
  d ← day_of c
  let rest = parse_days (set days d true) s in if get_or days d false then none else rest

pub record TimeRange : Type 0 where
  pub start : ℤ
  pub end_ : ℤ

pub record WeeklySchedule : Type 0 where
  pub days : Days
  pub times : List TimeRange

-- hours and minutes as minutes since midnight
abbrev pub minutes : ℤ → ℤ → ℤ
minutes h m = h *ℤ pos 60 +ℤ m

abbrev pub starts_upper : Bytes → Bool
starts_upper [] = false
starts_upper (c ∷ s) = leb b'A' c && leb c b'Z'

module _ (to_upper : Bytes → Bytes) (scan_times : Bytes → Option (ℤ × (ℤ × (ℤ × ℤ)))) where
  unfoldable pub parse_weekday_list : Bytes → Option Days
  unfolding parse_days
  parse_weekday_list list = parse_days no_days (to_upper list)

  unfoldable pub parse_time_range : Bytes → Option TimeRange
  parse_time_range s = do
    (start_h, (start_m, (end_h, end_m))) ← scan_times s
    let r : TimeRange = record { start = minutes start_h start_m; end_ = minutes end_h end_m } in
        if leb_ℤ r.end_ r.start then none else some r

  -- the loop over the time ranges
  unfoldable pub parse_times : List Bytes → Option (List TimeRange)
  parse_times [] = some []
  parse_times (s ∷ src) = do r ← parse_time_range s; rs ← parse_times src; some (r ∷ rs)

  with_days : Option Days → List Bytes → Option WeeklySchedule
  with_days parsed src = do
    days ← parsed
    times ← parse_times src
    some (record { days = days; times = times })

  unfoldable pub parse_weekly_schedule : List Bytes → Option WeeklySchedule
  unfolding with_days
  parse_weekly_schedule [] = none
  parse_weekly_schedule (s ∷ src) =
      if starts_upper s
      then with_days (parse_weekday_list s) src
      else with_days (some (replicate 7 true)) (s ∷ src)

-- the loop of `Contains`
unfoldable pub in_times : ℤ → List TimeRange → Bool
in_times minute [] = false
in_times minute (r ∷ times) =
    let rest = in_times minute times in
    if leb_ℤ r.start minute && leb_ℤ minute r.end_ then true else rest

abbrev pub is_nil : List TimeRange → Bool
is_nil [] = true
is_nil (r ∷ times) = false

unfoldable pub contains_time : WeeklySchedule → ℕ → ℤ → ℤ → Bool
unfolding in_times
contains_time w day hour min =
    if not (get_or w.days day false)
    then false
    else if is_nil w.times
    then true
    else in_times (minutes hour min) w.times
