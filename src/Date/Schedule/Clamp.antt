-- ===== src/Date/Schedule/Clamp.antt =====
-- Moves by months land on a date of the calendar, in the month meant, on the day meant or on the
-- last day of a month that is too short for it.
use marumbot.Prelude.{
  ℕ, suc, ◌/◌, ◌%◌, ◌≤◌, ◌<◌, ◌≡◌, refl, sym, ap, ◌∙◌, true, ltb, if◌then◌else◌, arith, Bool-cases,
  inl, inr,
}
use marumbot.Prelude.Int.{
  ℤ, pos, pos_part, ◌+ℤ◌, ◌-ℤ◌, ◌*ℤ◌, ltb_ℤ, ◌≤ℤ◌, ◌<ℤ◌, nonneg_pos, +ℤ_lt, pos_part_lt,
}
use marumbot.Date.Calendar.{Date, date, before, days_in_month, is_leap_year}
use marumbot.Date.Calendar.Ordinal.{IsDate, days_in_month-length, month_length_range}
use marumbot.Date.Calendar.Order.{Earlier, Earlier-before}
use marumbot.Date.Schedule.{shift, add_months, occurrence}

-- Months counted from January of year 0.
abbrev pub month_index : Date → ℤ
month_index t = t.year *ℤ pos 12 +ℤ t.month -ℤ pos 1

month_number : (k : ℕ) → pos k +ℤ pos 1 ≡ pos (suc k)
unfolding ◌+ℤ◌
month_number k = ground arith

-- From a total that is not negative, shift gives the year and the month of that total.
shift_lem :
    (y m n : ℤ) (k : ℕ)
    → y *ℤ pos 12 +ℤ m -ℤ pos 1 +ℤ n ≡ pos k
    → shift y m n ≡ (pos (k / 12), pos (suc (k % 12)))
unfolding shift
shift_lem y m n k e = rw (e, month_number)

days_in_month_range :
    (y : ℤ) (k : ℕ)
    → k < 12
    → (28 ≤ days_in_month y (pos (suc k))) × (days_in_month y (pos (suc k)) ≤ 31)
days_in_month_range y k h = rw (days_in_month-length y k h) (month_length_range (is_leap_year y) k)

-- `limit` where it is below `day`.
abbrev pub at_most : ℤ → ℕ → ℤ
at_most day limit = if ltb_ℤ (pos limit) day then pos limit else day

abbrev pub at_least_one : ℤ → ℤ
at_least_one day = if ltb_ℤ day (pos 1) then pos 1 else day

-- What a move must reach: a date of the calendar, in the month numbered k, on the day meant or on
-- the last day of that month.
pub record Lands (k : ℕ) (day : ℤ) (t : Date) : Type 0 where
  pub is_date : IsDate t
  pub month_is : (t.year ≡ pos (k / 12)) × (t.month ≡ pos (suc (k % 12)))
  pub day_is : t.day ≡ at_most day (days_in_month t.year t.month)

clamped : ℕ → ℤ → Date
clamped k day =
    date (pos (k / 12)) (pos (suc (k % 12)))
      (at_most day (days_in_month (pos (k / 12)) (pos (suc (k % 12)))))

at_most_range :
    (day : ℤ) (limit : ℕ)
    → pos 1 ≤ℤ day
    → 1 ≤ limit
    → (pos 1 ≤ℤ at_most day limit) × (at_most day limit ≤ℤ pos limit)
at_most_range day limit h l = ground arith

pub at_least_one_low : (day : ℤ) → pos 1 ≤ℤ at_least_one day
at_least_one_low day = ground arith

clamped-Lands : (k : ℕ) (day : ℤ) → pos 1 ≤ℤ day → Lands k day (clamped k day)
unfolding clamped
clamped-Lands k day h = record {
  is_date = record {
    month_in = omega arith;
    day_in =
        at_most_range day _ h
          (omega (arith, days_in_month_range (pos (k / 12)) (k % 12) (omega arith)));
  };
  month_is = (refl, refl);
  day_is = refl;
}

-- The day meant, in the month numbered k.
pub day_of-Lands :
    (k : ℕ) (day y m : ℤ)
    → pos 1 ≤ℤ day
    → y ≡ pos (k / 12)
    → m ≡ pos (suc (k % 12))
    → Lands k day (date y m (at_most day (days_in_month y m)))
unfolding clamped
day_of-Lands k day y m h e f = rw (e, f) (clamped-Lands k day h)

-- AddMonths moves a date of the calendar by n months: to the month meant, on the same day of the
-- month or on the last day of a shorter one, wherever the month reached is not before year 0.
pub add_months-Lands :
    (t : Date) (n : ℤ) (k : ℕ)
    → IsDate t
    → month_index t +ℤ n ≡ pos k
    → Lands k t.day (add_months t n)
unfolding add_months
add_months-Lands t n k v e =
    rw (shift_lem t.year t.month n k e) (unfold clamped in clamped-Lands k t.day v.day_in.0)

-- Occurrence n of a schedule lies n months after the month of the start, on the contractual day or
-- on the last day of a month too short for it, whatever the days of the occurrences before it
-- were clamped to, wherever the month reached is not before year 0. A contractual day below 1
-- counts as 1.
pub occurrence-Lands :
    (start : Date) (day n : ℤ) (k : ℕ)
    → month_index start +ℤ n ≡ pos k
    → Lands k (at_least_one day) (occurrence start day n)
unfolding occurrence
occurrence-Lands start day n k e =
    rw (shift_lem start.year start.month n k e)
      (unfold clamped in clamped-Lands k (at_least_one day) (at_least_one_low day))

pub month-Earlier :
    (j k : ℕ) (d : ℤ) {e : ℤ} (a b : Date) → j < k → Lands j d a → Lands k e b → Earlier a b
month-Earlier j k d a b h p q = elim (Bool-cases (ltb (j / 12) (k / 12))) [
  | inl years ↦ inl (rw (p.month_is.0, q.month_is.0) (ground arith))
  | inr same ↦ inr (
      inl (
        p.month_is.0 ∙ ap pos (let s : j / 12 ≡ k / 12 = ground arith in s) ∙ sym q.month_is.0,
        rw (p.month_is.1, q.month_is.1) (ground arith),
      ))
]

-- The occurrences of a schedule follow one another: of two numbers the larger has the later date,
-- wherever the month of the smaller is not before year 0.
pub occurrence_increasing :
    (start : Date) (day m n : ℤ)
    → pos 0 ≤ℤ month_index start +ℤ m
    → m <ℤ n
    → before (occurrence start day m) (occurrence start day n) ≡ true
occurrence_increasing start day m n h lt =
    let step = +ℤ_lt (month_index start) m n lt in
    let later : pos 0 ≤ℤ month_index start +ℤ n = omega (arith, step) in
    Earlier-before _ _ (
      month-Earlier (pos_part (month_index start +ℤ m)) (pos_part (month_index start +ℤ n)) _ _ _
        (pos_part_lt _ _ h step) (occurrence-Lands start day m _ (nonneg_pos _ h))
        (occurrence-Lands start day n _ (nonneg_pos _ later)))
