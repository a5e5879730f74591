-- ===== src/Date/Calendar/Order.antt =====
-- `Compare` orders the dates totally, and on dates of the calendar it is the order of day numbers.
use marumbot.Prelude.{◌≡◌, true, arith, ◌⊎◌}
use marumbot.Prelude.Int.{pos, negsuc, ◌<ℤ◌, eq_of_parts}
use marumbot.Date.Calendar.{Date, compare_date, before, after}

-- a comes first: by the year, then by the month, then by the day.
abbrev pub Earlier : Date → Date → Type 0
Earlier a b =
    (a.year <ℤ b.year)
    ⊎ (((a.year ≡ b.year) × (a.month <ℤ b.month))
        ⊎ ((a.year ≡ b.year) × (a.month ≡ b.month) × (a.day <ℤ b.day)))

pub before-Earlier : (a b : Date) → before a b ≡ true → Earlier a b
unfolding before compare_date
before-Earlier a b h = ground (arith, eq_of_parts a.year b.year, eq_of_parts a.month b.month)

pub Earlier-before : (a b : Date) → Earlier a b → before a b ≡ true
unfolding before compare_date
Earlier-before a b h = ground arith

-- Any two dates are in one of three ways to each other: the first before the second, the same, or
-- the second before the first. Compare answers -1, 0 and 1 in these cases.
pub compare_date_trichotomy :
    (a b : Date)
    → ((compare_date a b ≡ negsuc 0) × Earlier a b)
      ⊎ (((compare_date a b ≡ pos 0) × (a ≡ b)) ⊎ ((compare_date a b ≡ pos 1) × Earlier b a))
unfolding compare_date
compare_date_trichotomy a b =
    ground (arith, eq_of_parts a.year b.year, eq_of_parts a.month b.month, eq_of_parts a.day b.day)

pub Earlier-trans : (a b c : Date) → Earlier a b → Earlier b c → Earlier a c
Earlier-trans a b c h k = ground arith

pub Earlier-irrefl : (a : Date) → ¬ (Earlier a a)
Earlier-irrefl a h = ground arith

-- After is Before with the two dates swapped.
pub after-before : (a b : Date) → after a b ≡ before b a
unfolding after before compare_date
after-before a b = ground arith
