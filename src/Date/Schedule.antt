-- ===== src/Date/Schedule.antt =====
-- pkg/core/date/schedule.go: moves by months, clamped to the length of the month reached.
pub mod Clamp
pub mod InMonth
use marumbot.Prelude.{ℕ, if◌then◌else◌, ltb}
use marumbot.Prelude.Int.{ℤ, pos, ◌+ℤ◌, ◌-ℤ◌, ◌*ℤ◌, quot_ℤ, rem_ℤ, ltb_ℤ}
use marumbot.Date.Calendar.{Date, date, days_in_month}

-- Go's / and % cut off towards zero.
unfoldable pub shift : ℤ → ℤ → ℤ → ℤ × ℤ
shift y m n =
    let total = y *ℤ pos 12 +ℤ m -ℤ pos 1 +ℤ n in (quot_ℤ total 12, rem_ℤ total 12 +ℤ pos 1)

-- `if max := DaysInMonth(y, m); day > max { day = max }`
abbrev at_most : ℤ → ℕ → ℤ
at_most day limit = if ltb_ℤ (pos limit) day then pos limit else day

-- `if day < 1 { day = 1 }`
abbrev at_least_one : ℤ → ℤ
at_least_one day = if ltb_ℤ day (pos 1) then pos 1 else day

unfoldable pub add_months : Date → ℤ → Date
add_months t n = let (y, m) = shift t.year t.month n in date y m (at_most t.day (days_in_month y m))

unfoldable pub on_day_of_month : Date → ℤ → Date
on_day_of_month t day =
    date t.year t.month (at_most (at_least_one day) (days_in_month t.year t.month))

unfoldable pub occurrence : Date → ℤ → ℤ → Date
occurrence start contractual_day n =
    let (y, m) = shift start.year start.month n in
    date y m (at_most (at_least_one contractual_day) (days_in_month y m))
