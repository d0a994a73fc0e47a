-- ===== src/Schedule/Tests.antt =====
-- Runs of the schedules, and the witnesses of their properties. The parameters are the letters as
-- they are, and a scanner that knows one text.
use redwood_filter.Common.{
  ℕ, ◌≡◌, ◌⊎◌, refl, true, false, Option, none, some, [], ◌∷◌, if◌then◌else◌, ◌==◌, nat_eq, get_or,
  Bytes, codes, bytes_eq,
}
use redwood_filter.Common.Int.{ℤ, pos, ◌+ℤ◌, ◌*ℤ◌}
use redwood_filter.Schedule.{
  Days, WeeklySchedule, day_of, parse_days, parse_weekday_list, parse_time_range, parse_times,
  with_days, parse_weekly_schedule, contains_time,
}
use redwood_filter.Schedule.Days.{names_day, is_day_list, parse_weekday_list_lem}
use redwood_filter.Schedule.Contains.{
  covers, allows_day, time_texts, parse_weekly_schedule-contains_time,
}

abbrev plain : Bytes → Bytes
plain s = s

abbrev scan : Bytes → Option (ℤ × (ℤ × (ℤ × ℤ)))
scan s = if s == codes "8:30-17:00" then some (pos 8, (pos 30, (pos 17, pos 0))) else none

abbrev mwf : Days
mwf = false ∷ true ∷ false ∷ true ∷ false ∷ true ∷ false ∷ []

abbrev office : WeeklySchedule
office = record { days = mwf; times = record { start = pos 510; end_ = pos 1020 } ∷ [] }

parse_weekday_list_runs :
    (parse_weekday_list plain scan (codes "MWF") ≡ some mwf)
    × (parse_weekday_list plain scan (codes "MWM") ≡ none)
    × (parse_weekday_list plain scan (codes "MX") ≡ none)
unfolding parse_weekday_list parse_days day_of
parse_weekday_list_runs = (refl, refl, refl)

parse_weekday_list_lem_example :
    (is_day_list (codes "MWF") ≡ true)
      × ((days : Days) × (parse_weekday_list plain scan (codes "MWF") ≡ some days)
          × ((d : ℕ) → get_or days d false ≡ names_day (codes "MWF") d))
    ⊎ (is_day_list (codes "MWF") ≡ false) × (parse_weekday_list plain scan (codes "MWF") ≡ none)
parse_weekday_list_lem_example = parse_weekday_list_lem plain scan (codes "MWF")

parse_weekly_schedule-contains_time_example : contains_time office 3 (pos 17) (pos 0) ≡ true
unfolding parse_weekly_schedule parse_weekday_list parse_times parse_time_range with_days parse_days
    day_of allows_day names_day time_texts covers ◌+ℤ◌ ◌*ℤ◌
parse_weekly_schedule-contains_time_example =
    parse_weekly_schedule-contains_time plain scan (codes "MWF" ∷ codes "8:30-17:00" ∷ []) office 3
      (pos 17) (pos 0) refl
