-- ===== src/Date/Calendar.antt =====
-- pkg/core/date/date.go. A date is three Go ints, here integers that do not overflow: package time
-- works on years far inside int64. What package time does is written out: `time.Date` carries a
-- month or a day that is out of range into the next unit, and a difference of times is a
-- time.Duration, which stops at 106751 days and some hours either way.
-- `Parse`, `From`, `AtLocal` and `String` are not modelled: they read and print clocks and texts.
pub mod Valid
pub mod Order
pub mod Ordinal
use marumbot.Prelude.{
  ℕ, zero, suc, ◌+◌, ◌-◌, ◌*◌, ◌/◌, ◌%◌, ◌≤◌, ◌<◌, ◌≡◌, Bool, true, false, not, ◌&&◌, ◌||◌, ◌==◌,
  ltb, leb, if◌then◌else◌, Result, ok, err, invalid_date,
}
use marumbot.Prelude.Int.{
  ℤ, pos, negsuc, ◌+ℤ◌, ◌-ℤ◌, ◌*ℤ◌, neg_ℤ, rem_ℤ, quot_ℤ, floor_div, floor_mod, ltb_ℤ, leb_ℤ, eq_ℤ,
}

pub record Date : Type 0 where
  pub year : ℤ
  pub month : ℤ
  pub day : ℤ

abbrev pub date : ℤ → ℤ → ℤ → Date
date y m d = record { year = y; month = m; day = d }

-- `Date{}`
abbrev pub no_date : Date
no_date = date (pos 0) (pos 0) (pos 0)

-- `IsLeapYear`
unfoldable pub is_leap_year : ℤ → Bool
is_leap_year y =
    (eq_ℤ (rem_ℤ y 4) (pos 0) && not (eq_ℤ (rem_ℤ y 100) (pos 0))) || eq_ℤ (rem_ℤ y 400) (pos 0)

-- The length of month `i`, from 0 for January, in a year that is leap or not.
abbrev pub month_length : Bool → ℕ → ℕ
month_length leap i =
    if i == 1
    then (if leap then 29 else 28)
    else if (i == 3) || (i == 5) || (i == 8) || (i == 10)
    then 30
    else 31

-- `DaysInMonth`: day 0 of the month after is the last of this one. A month out of range is carried
-- into the year, as `time.Date` does.
unfoldable pub days_in_month : ℤ → ℤ → ℕ
unfolding is_leap_year
days_in_month y m =
    let i = m -ℤ pos 1 in month_length (is_leap_year (y +ℤ floor_div i 12)) (floor_mod i 12)

-- `New`
pub new : ℤ → ℤ → ℤ → Result Date
new y m d =
    if ltb_ℤ m (pos 1) || ltb_ℤ (pos 12) m
    then err invalid_date
    else if ltb_ℤ d (pos 1) || ltb_ℤ (pos (days_in_month y m)) d
    then err invalid_date
    else ok (date y m d)

-- `==` on two structs, which is `Equal`.
abbrev pub equal : Date → Date → Bool
equal a b = eq_ℤ a.year b.year && eq_ℤ a.month b.month && eq_ℤ a.day b.day

abbrev pub is_zero : Date → Bool
is_zero d = equal d no_date

abbrev way : ℤ → ℤ → ℤ
way a b = if ltb_ℤ a b then negsuc 0 else pos 1

-- `Compare`
unfoldable pub compare_date : Date → Date → ℤ
compare_date a b =
    if not (eq_ℤ a.year b.year)
    then way a.year b.year
    else if not (eq_ℤ a.month b.month)
    then way a.month b.month
    else if not (eq_ℤ a.day b.day)
    then way a.day b.day
    else pos 0

unfoldable pub before : Date → Date → Bool
before a b = ltb_ℤ (compare_date a b) (pos 0)

unfoldable pub after : Date → Date → Bool
after a b = ltb_ℤ (pos 0) (compare_date a b)

-- The day after a date of the calendar and the day before it.
unfoldable pub next_day : Date → Date
next_day t =
    if ltb_ℤ t.day (pos (days_in_month t.year t.month))
    then date t.year t.month (t.day +ℤ pos 1)
    else if ltb_ℤ t.month (pos 12)
    then date t.year (t.month +ℤ pos 1) (pos 1)
    else date (t.year +ℤ pos 1) (pos 1) (pos 1)

unfoldable pub previous_day : Date → Date
previous_day t =
    if ltb_ℤ (pos 1) t.day
    then date t.year t.month (t.day -ℤ pos 1)
    else if ltb_ℤ (pos 1) t.month
    then date t.year (t.month -ℤ pos 1) (pos (days_in_month t.year (t.month -ℤ pos 1)))
    else date (t.year -ℤ pos 1) (pos 12) (pos 31)

pub forward : ℕ → Date → Date
forward zero t = t
forward (suc n) t = forward n (next_day t)

pub backward : ℕ → Date → Date
backward zero t = t
backward (suc n) t = backward n (previous_day t)

-- `AddDays`, on a date of the calendar: what `time.AddDate(0, 0, n)` reaches, day by day.
unfoldable pub add_days : Date → ℤ → Date
unfolding forward backward next_day previous_day
add_days t (pos n) = forward n t
add_days t (negsuc n) = backward (suc n) t

-- The days before year r of a cycle of 400 years that begins with a leap year.
abbrev pub days_in_cycle : ℕ → ℕ
days_in_cycle r = 365 * r + (r + 3) / 4 - (r + 99) / 100 + (r + 399) / 400

abbrev pub days_before_year : ℤ → ℤ
days_before_year y = floor_div y 400 *ℤ pos 146097 +ℤ pos (days_in_cycle (floor_mod y 400))

-- The days before month `i`, from 0, of a year.
abbrev pub days_before_month : Bool → ℕ → ℕ
days_before_month leap zero = 0
days_before_month leap (suc i) = days_before_month leap i + month_length leap i

-- The number of a day, counted from the last of the year -1, by the closed formula of the calendar.
unfoldable pub ordinal : Date → ℤ
unfolding is_leap_year
ordinal t =
    let i = t.month -ℤ pos 1 in
    let y = t.year +ℤ floor_div i 12 in
    days_before_year y +ℤ (pos (days_before_month (is_leap_year y) (floor_mod i 12)) +ℤ t.day)

-- `DaysBetween`: the difference of the midnights as a Duration, in hours, over 24.
abbrev pub max_duration_days : ℕ
max_duration_days = 106751

unfoldable pub days_between : Date → Date → ℤ
days_between a b =
    let n = ordinal b -ℤ ordinal a in
    if ltb_ℤ (pos max_duration_days) n
    then pos max_duration_days
    else if ltb_ℤ n (neg_ℤ (pos max_duration_days))
    then neg_ℤ (pos max_duration_days)
    else n

-- `Days30360`
unfoldable pub days_30360 : Date → Date → ℤ
days_30360 a b =
    let d1 = if eq_ℤ a.day (pos 31) then pos 30 else a.day in
    let d2 = if eq_ℤ b.day (pos 31) && eq_ℤ d1 (pos 30) then pos 30 else b.day in
    (b.year -ℤ a.year) *ℤ pos 360 +ℤ (b.month -ℤ a.month) *ℤ pos 30 +ℤ (d2 -ℤ d1)

-- `EndOfMonth`
abbrev pub end_of_month : Date → Date
end_of_month t = date t.year t.month (pos (days_in_month t.year t.month))
