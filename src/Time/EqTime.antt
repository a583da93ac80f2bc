-- ===== src/Time/EqTime.antt =====
-- src/common/time/eq_time.c: the date and time of the game world, three real seconds to a minute.
-- `clock_unix_seconds()` is the argument `now`.
pub mod Laws
mod Tests
use eqp.Common.{
  ℕ, ◌+◌, ◌-◌, ◌*◌, ◌/◌, ◌%◌, ◌^◌, Option, none, some, List, [], ◌∷◌, leb, if◌then◌else◌,
}

-- `struct EQ_Time`. `month` is `none` while it is not assigned.
pub record EqTime : Type 0 where
  pub hour : ℕ
  pub minute : ℕ
  pub day : ℕ
  pub month : Option ℕ
  pub year : ℕ

abbrev pub seconds_per_eq_minute : ℕ
seconds_per_eq_minute = 3

abbrev pub minutes_per_hour : ℕ
minutes_per_hour = 60

abbrev pub minutes_per_day : ℕ
minutes_per_day = minutes_per_hour * 24

abbrev pub minutes_per_year : ℕ
minutes_per_year = minutes_per_day * 365

abbrev pub days_in_month : List ℕ
days_in_month = 31 ∷ 28 ∷ 31 ∷ 30 ∷ 31 ∷ 30 ∷ 31 ∷ 31 ∷ 30 ∷ 31 ∷ 30 ∷ 31 ∷ []

-- The loop over the months from the one after `i`: the month, and the day in it.
unfoldable pub find_month : List ℕ → ℕ → ℕ → Option ℕ × ℕ
find_month [] i day = (none, day)
find_month (in_month ∷ rest) i day =
    let later = find_month rest (i + 1) (day - in_month) in
    if leb day in_month then (some (i + 1), day) else later

unfoldable pub calc : ℕ → ℕ → EqTime
calc now base =
    let eq = (now + 2 ^ 64 - base) % 2 ^ 64 / seconds_per_eq_minute in
    let in_year = eq % minutes_per_year in
    let (month, day) = find_month days_in_month 0 (in_year / minutes_per_day + 1) in
    let in_day = in_year % minutes_per_day in
    record {
      hour = in_day / minutes_per_hour;
      minute = in_day % minutes_per_hour;
      day = day % 256;
      month = month;
      year = eq / minutes_per_year % 2 ^ 16;
    }
