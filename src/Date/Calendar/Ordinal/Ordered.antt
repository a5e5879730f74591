-- ===== src/Date/Calendar/Ordinal/Ordered.antt =====
-- Dates of the calendar are ordered as their numbers.
use native.Mathlib.Nat.{zero-add, le_refl, le_trans, le-add_right}
use marumbot.Prelude.{
  ℕ, zero, suc, ◌+◌, ◌-◌, ◌≤◌, ◌<◌, ◌≡◌, sym, ap, ◌∙◌, Bool, true, arith, inl, inr, ◌↔◌, subst,
}
use marumbot.Prelude.Int.{ℤ, pos, pos_part, neg_part, ◌+ℤ◌, ◌-ℤ◌, ◌≤ℤ◌, ◌<ℤ◌, int_laws, one_part}
use marumbot.Date.Calendar.{
  Date, date, before, ordinal, is_leap_year, month_length, days_before_month, days_before_year,
}
use marumbot.Date.Calendar.Ordinal.{
  IsDate, IsDate-month, ordinal-date, days_before_year-suc, year_length, days_in_month-length,
  days_before_month_twelve,
}
use marumbot.Date.Calendar.Order.{Earlier, Earlier-before, before-Earlier, compare_date_trichotomy}

add_zero_ℤ : (z : ℤ) → z +ℤ pos 0 ≡ z
add_zero_ℤ z = omega int_laws

add_suc_ℤ : (z : ℤ) (n : ℕ) → z +ℤ pos (suc n) ≡ z +ℤ pos n +ℤ pos 1
add_suc_ℤ z n = omega int_laws

le_add_ℤ : (a b : ℤ) (n : ℕ) → a ≤ℤ b → a ≤ℤ b +ℤ pos n
le_add_ℤ a b n h = omega int_laws

le_refl_ℤ : (a : ℤ) → a ≤ℤ a
le_refl_ℤ a = omega arith

-- The days of the years from y on, before the year n + 1 years later.
years_between :
    (y : ℤ) (n : ℕ)
    → days_before_year y +ℤ pos (year_length y) ≤ℤ days_before_year (y +ℤ pos 1 +ℤ pos n)
years_between y zero =
    rw (add_zero_ℤ (y +ℤ pos 1), days_before_year-suc y)
      (le_refl_ℤ (days_before_year y +ℤ pos (year_length y)))
years_between y (suc n) =
    rw (add_suc_ℤ (y +ℤ pos 1) n, days_before_year-suc (y +ℤ pos 1 +ℤ pos n))
      (le_add_ℤ (days_before_year y +ℤ pos (year_length y)) (days_before_year (y +ℤ pos 1 +ℤ pos n))
        (year_length (y +ℤ pos 1 +ℤ pos n)) (years_between y n))

months_between :
    (leap : Bool) (k n : ℕ)
    → days_before_month leap k + month_length leap k ≤ days_before_month leap (suc (n + k))
months_between leap k zero = rw zero-add (le_refl _)
months_between leap k (suc n) =
    let e : suc n + k ≡ suc (n + k) = omega arith in
    rw e (le_trans (months_between leap k n) (le-add_right _ _))

gap : (y z : ℤ) → y <ℤ z → (n : ℕ) × (z ≡ y +ℤ pos 1 +ℤ pos n)
gap y z h = (pos_part (z -ℤ y) - 1, omega (int_laws, one_part (z -ℤ y)))

months_to :
    (leap : Bool) (j k : ℕ)
    → j < k
    → days_before_month leap j + month_length leap j ≤ days_before_month leap k
months_to leap j k h =
    let e : k ≡ suc (k - suc j + j) = omega arith in
    subst (λ m. days_before_month leap j + month_length leap j ≤ days_before_month leap m) (sym e)
      (months_between leap j (k - suc j))

-- The place of a day within its year.
within :
    (y d : ℤ) (k : ℕ)
    → k < 12
    → pos 1 ≤ℤ d
    → d ≤ℤ pos (month_length (is_leap_year y) k)
    → (pos 1 ≤ℤ pos (days_before_month (is_leap_year y) k) +ℤ d)
      × (pos (days_before_month (is_leap_year y) k) +ℤ d ≤ℤ pos (year_length y))
within y d k hk h l =
    let m = rw days_before_month_twelve at (months_to (is_leap_year y) k 12 hk) in
    (omega int_laws, omega (int_laws, m))

later_sum : (a b p q l : ℤ) → a +ℤ l ≤ℤ b → p ≤ℤ l → pos 1 ≤ℤ q → a +ℤ p <ℤ b +ℤ q
later_sum a b p q l h k m = omega int_laws

later_month :
    (a d e : ℤ) (b c l : ℕ)
    → b + l ≤ c
    → d ≤ℤ pos l
    → pos 1 ≤ℤ e
    → a +ℤ (pos b +ℤ d) <ℤ a +ℤ (pos c +ℤ e)
later_month a d e b c l h k m = omega int_laws

later_day : (a b d e : ℤ) → d <ℤ e → a +ℤ (b +ℤ d) <ℤ a +ℤ (b +ℤ e)
later_day a b d e h = omega int_laws

-- A date of the calendar by its parts: the year, the month from 0, and the day.
record Parts (t : Date) : Type 0 where
  place : ℕ
  place_in : place < 12
  month_is : t.month ≡ pos (suc place)
  day_low : pos 1 ≤ℤ t.day
  day_high : t.day ≤ℤ pos (month_length (is_leap_year t.year) place)
  number :
      ordinal t
      ≡ days_before_year t.year +ℤ (pos (days_before_month (is_leap_year t.year) place) +ℤ t.day)

IsDate-Parts : (t : Date) → IsDate t → Parts t
IsDate-Parts t v =
    let (k, hk, e) = IsDate-month t v in
    record {
      place = k;
      place_in = hk;
      month_is = e;
      day_low = v.day_in.0;
      day_high = rw (e, days_in_month-length t.year k hk) at v.day_in.1;
      number = ap (λ m. ordinal (date t.year m t.day)) e ∙ ordinal-date t.year t.day k hk;
    }

Earlier-Parts : (a b : Date) → Parts a → Parts b → Earlier a b → ordinal a <ℤ ordinal b
Earlier-Parts a b p q (inl years) =
    let (n, e) = gap a.year b.year years in
    let between =
      subst (λ y. days_before_year a.year +ℤ pos (year_length a.year) ≤ℤ days_before_year y) (sym e)
        (years_between a.year n) in
    rw (p.number, q.number)
      (later_sum (days_before_year a.year) (days_before_year b.year) _ _ (pos (year_length a.year))
        between (within a.year a.day p.place p.place_in p.day_low p.day_high).1
        (within b.year b.day q.place q.place_in q.day_low q.day_high).0)
Earlier-Parts a b p q (inr (inl (same, months))) =
    let order : p.place < q.place = omega (
      arith,
      ap pos_part p.month_is,
      ap neg_part p.month_is,
      ap pos_part q.month_is,
      ap neg_part q.month_is,
    ) in
    rw (p.number, q.number, same)
      (later_month (days_before_year b.year) a.day b.day _ _
        (month_length (is_leap_year b.year) p.place)
        (months_to (is_leap_year b.year) p.place q.place order) (rw same at p.day_high) q.day_low)
Earlier-Parts a b p q (inr (inr (same, month, days))) =
    let places : p.place ≡ q.place =
      omega (arith, ap pos_part p.month_is, ap pos_part q.month_is, ap pos_part month) in
    rw (p.number, q.number, same, places) (later_day (days_before_year b.year) _ a.day b.day days)

Earlier-ordinal : (a b : Date) → IsDate a → IsDate b → Earlier a b → ordinal a <ℤ ordinal b
Earlier-ordinal a b va vb = Earlier-Parts a b (IsDate-Parts a va) (IsDate-Parts b vb)

-- On dates of the calendar Before is exactly the order of the day numbers.
pub before-ordinal :
    (a b : Date) → IsDate a → IsDate b → (before a b ≡ true) ↔ (ordinal a <ℤ ordinal b)
before-ordinal a b va vb = (
  (λ h. Earlier-ordinal a b va vb (before-Earlier a b h)),
  (λ lt. elim (compare_date_trichotomy a b) [
    | inl (_, first) ↦ Earlier-before a b first
    | inr (inl (_, same)) ↦
        absurd
          (omega (arith, ap (λ t. pos_part (ordinal t)) same, ap (λ t. neg_part (ordinal t)) same))
    | inr (inr (_, last)) ↦ absurd (omega (arith, Earlier-ordinal b a vb va last))
  ]),
)

-- Two dates of the calendar with one number are the same date.
pub ordinal-injective : (a b : Date) → IsDate a → IsDate b → ordinal a ≡ ordinal b → a ≡ b
ordinal-injective a b va vb e = elim (compare_date_trichotomy a b) [
  | inl (_, first) ↦
      absurd (omega (arith, ap pos_part e, ap neg_part e, Earlier-ordinal a b va vb first))
  | inr (inl (_, same)) ↦ same
  | inr (inr (_, last)) ↦
      absurd (omega (arith, ap pos_part e, ap neg_part e, Earlier-ordinal b a vb va last))
]
