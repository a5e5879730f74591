-- ===== src/Tests/Date.antt =====
-- The calendar and the schedule of pkg/core/date on concrete dates.
use marumbot.Prelude.{◌≡◌, ◌↔◌, refl, true, arith, ok, err, invalid_date}
use marumbot.Prelude.Int.{pos, negsuc, ◌+ℤ◌, ◌-ℤ◌, ◌*ℤ◌}
use marumbot.Date.Calendar.{
  Date, date, days_in_month, is_leap_year, add_days, before, days_between, ordinal, new,
}
use marumbot.Date.Calendar.Ordinal.{IsDate}
use marumbot.Date.Calendar.Ordinal.Steps.{ordinal-add_days, days_between-add_days}
use marumbot.Date.Schedule.{add_months, occurrence}
use marumbot.Date.Schedule.Clamp.{
  Lands, at_least_one, add_months-Lands, occurrence-Lands, occurrence_increasing,
}
use marumbot.Date.Calendar.Valid.{new-IsDate}

abbrev pub leap_day : Date
leap_day = date (pos 2024) (pos 2) (pos 29)

abbrev pub january_31 : Date
january_31 = date (pos 2024) (pos 1) (pos 31)

pub leap_day-IsDate : IsDate leap_day
unfolding days_in_month is_leap_year ◌-ℤ◌ ◌+ℤ◌
leap_day-IsDate = record {
  month_in = (omega arith, omega arith);
  day_in = (omega arith, omega arith);
}

pub january_31-IsDate : IsDate january_31
unfolding days_in_month is_leap_year ◌-ℤ◌ ◌+ℤ◌
january_31-IsDate = record {
  month_in = (omega arith, omega arith);
  day_in = (omega arith, omega arith);
}

ordinal-add_days_example :
    IsDate (add_days leap_day (pos 366))
    × (ordinal (add_days leap_day (pos 366)) ≡ ordinal leap_day +ℤ pos 366)
ordinal-add_days_example = ordinal-add_days leap_day (pos 366) leap_day-IsDate

days_between-add_days_example : days_between leap_day (add_days leap_day (negsuc 59)) ≡ negsuc 59
unfolding ◌-ℤ◌
days_between-add_days_example =
    days_between-add_days leap_day (negsuc 59) leap_day-IsDate (omega arith) (omega arith)

add_months-Lands_example : Lands 24289 (pos 31) (add_months january_31 (pos 1))
unfolding ◌+ℤ◌ ◌-ℤ◌ ◌*ℤ◌
add_months-Lands_example = add_months-Lands january_31 (pos 1) 24289 january_31-IsDate refl

occurrence-Lands_example :
    Lands 24289 (at_least_one (pos 31)) (occurrence january_31 (pos 31) (pos 1))
unfolding ◌+ℤ◌ ◌-ℤ◌ ◌*ℤ◌
occurrence-Lands_example = occurrence-Lands january_31 (pos 31) (pos 1) 24289 refl

occurrence_increasing_example :
    before (occurrence january_31 (pos 31) (pos 1)) (occurrence january_31 (pos 31) (pos 2)) ≡ true
unfolding ◌+ℤ◌ ◌-ℤ◌ ◌*ℤ◌
occurrence_increasing_example =
    occurrence_increasing january_31 (pos 31) (pos 1) (pos 2) (omega arith) (omega arith)

new-IsDate_example :
    ((new (pos 2023) (pos 2) (pos 29) ≡ ok (date (pos 2023) (pos 2) (pos 29)))
      ↔ IsDate (date (pos 2023) (pos 2) (pos 29)))
    × ((new (pos 2023) (pos 2) (pos 29) ≡ err invalid_date)
        ↔ ¬ (IsDate (date (pos 2023) (pos 2) (pos 29))))
new-IsDate_example = new-IsDate (pos 2023) (pos 2) (pos 29)
