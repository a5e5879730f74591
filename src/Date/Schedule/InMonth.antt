-- ===== src/Date/Schedule/InMonth.antt =====
-- A day in the month of a date, as an occurrence of a schedule.
use marumbot.Prelude.Int.{pos_part, nonneg_pos, ◌*ℤ◌, ◌-ℤ◌, ◌+ℤ◌, ◌≤ℤ◌, pos, ℤ}
use marumbot.Date.Calendar.Ordinal.{IsDate-month, IsDate}
use marumbot.Prelude.{◌%◌, arith, suc, ◌/◌, ◌+◌, ◌*◌, ◌<◌, ap, ◌≤◌, sym, refl, ◌∙◌, ℕ, ◌≡◌}
use marumbot.Date.Schedule.Clamp.{
  at_least_one_low, day_of-Lands, at_most, month_index, at_least_one, Lands,
}
use marumbot.Date.Calendar.{days_in_month, date, Date}
use marumbot.Date.Schedule.{occurrence, add_months, on_day_of_month}

index_is : (n j : ℕ) → pos n *ℤ pos 12 +ℤ pos (suc j) -ℤ pos 1 ≡ pos (n * 12 + j)
unfolding ◌+ℤ◌ ◌-ℤ◌ ◌*ℤ◌
index_is n j = ground arith

-- A date lands in its own month on its own day.
pub IsDate-Lands :
    (t : Date)
    → IsDate t
    → pos 1 ≤ℤ t.year
    → (k : ℕ) × (month_index t ≡ pos k) × (12 ≤ k) × Lands k t.day t
IsDate-Lands t v late =
    let (j, small, month) = IsDate-month t v in
    let year = nonneg_pos t.year (omega (arith, late)) in
    let n = pos_part t.year in
    (
      n * 12 + j,
      rw (year, month) (index_is n j),
      omega (arith, late),
      record {
        is_date = v;
        month_is = (
          year ∙ ap pos (quotient n j small),
          month ∙ ap (λ z. pos (suc z)) (remainder n j small),
        );
        day_is = own_day t.day (days_in_month t.year t.month) v.day_in.1;
      },
    )
  where
    quotient : (n j : ℕ) → j < 12 → n ≡ (n * 12 + j) / 12
    quotient n j h = omega (arith, h)

    remainder : (n j : ℕ) → j < 12 → j ≡ (n * 12 + j) % 12
    remainder n j h = omega (arith, h)

    own_day : (d : ℤ) (limit : ℕ) → d ≤ℤ pos limit → d ≡ at_most d limit
    own_day d limit h = ground arith

date_eq : (a b : Date) → a.year ≡ b.year → a.month ≡ b.month → a.day ≡ b.day → a ≡ b
date_eq a b y m d = λ i. date (y i) (m i) (d i)

-- Two landings in one month on one day are one date.
pub Lands-unique : (k : ℕ) (day : ℤ) (a b : Date) → Lands k day a → Lands k day b → a ≡ b
Lands-unique k day a b p q =
    let y = p.month_is.0 ∙ sym q.month_is.0 in
    let m = p.month_is.1 ∙ sym q.month_is.1 in
    date_eq a b y m (
      p.day_is
      ∙ ap (λ y. at_most day (days_in_month y a.month)) y
      ∙ ap (λ m. at_most day (days_in_month b.year m)) m
      ∙ sym q.day_is)

-- A day in the month reached by a move of months.
pub on_day_of_month-add_months :
    (t : Date) (n day : ℤ) → on_day_of_month (add_months t n) day ≡ occurrence t day n
unfolding on_day_of_month add_months occurrence
on_day_of_month-add_months t n day = refl

pub on_day_of_month-Lands :
    (t : Date) (day : ℤ) (k : ℕ)
    → Lands k t.day t
    → Lands k (at_least_one day) (on_day_of_month t day)
unfolding on_day_of_month
on_day_of_month-Lands t day k l =
    day_of-Lands k (at_least_one day) t.year t.month (at_least_one_low day) l.month_is.0
      l.month_is.1

pub Lands-month_index : (k : ℕ) {day : ℤ} (t : Date) → Lands k day t → month_index t ≡ pos k
Lands-month_index k t l =
    rw (l.month_is.0, l.month_is.1) (index_is (k / 12) (k % 12) ∙ ap pos (whole k))
  where
    whole : (k : ℕ) → k / 12 * 12 + k % 12 ≡ k
    whole k = omega arith

-- The date itself, where it is already on the day meant.
pub on_day_of_month-same :
    (k : ℕ) (day : ℤ) (t : Date) → Lands k (at_least_one day) t → on_day_of_month t day ≡ t
unfolding on_day_of_month
on_day_of_month-same k day t l =
    Lands-unique k (at_least_one day) _ t
      (day_of-Lands k (at_least_one day) t.year t.month (at_least_one_low day) l.month_is.0
        l.month_is.1)
      l
