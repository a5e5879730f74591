-- ===== src/Date/Calendar/Ordinal.antt =====
-- Day numbers: the calendar's days are numbered one by one.
pub mod Steps
pub mod Ordered
use marumbot.Prelude.{
  ℕ, zero, suc, ◌+◌, ◌-◌, ◌*◌, ◌/◌, ◌%◌, ◌≤◌, ◌<◌, ◌≡◌, refl, sym, ap, ◌∙◌, Bool, true, false, not,
  ◌&&◌, ◌||◌, ◌==◌, ltb, leb, if◌then◌else◌, arith, Bool-cases, inl, inr, ◌↔◌, ==_iff, ◌⊎◌,
}
use marumbot.Prelude.Int.{
  ℤ, pos, negsuc, pos_part, neg_part, ◌+ℤ◌, ◌-ℤ◌, ◌*ℤ◌, neg_ℤ, rem_ℤ, quot_ℤ, floor_div, floor_mod,
  ltb_ℤ, leb_ℤ, eq_ℤ, ◌≤ℤ◌, int_laws,
}
use marumbot.Date.Calendar.{
  Date, date, is_leap_year, month_length, days_in_month, days_in_cycle, days_before_year,
  days_before_month, ordinal, next_day, previous_day,
}

pub record IsDate (t : Date) : Type 0 where
  pub month_in : (pos 1 ≤ℤ t.month) × (t.month ≤ℤ pos 12)
  pub day_in : (pos 1 ≤ℤ t.day) × (t.day ≤ℤ pos (days_in_month t.year t.month))

abbrev pub year_length : ℤ → ℕ
year_length y = if is_leap_year y then 366 else 365

*ℤ_scale :
    (z : ℤ) (k : ℕ)
    → (pos_part (z *ℤ pos k) ≡ pos_part z * k) × (neg_part (z *ℤ pos k) ≡ neg_part z * k)
unfolding ◌*ℤ◌
*ℤ_scale (pos n) k = (ground arith, ground arith)
*ℤ_scale (negsuc n) k = (ground arith, ground arith)

-- A year by its place in the cycle of 400 years.
cycle_leap : ℕ → Bool
cycle_leap r = (r % 4 == 0 && not (r % 100 == 0)) || r == 0

abbrev cycle_year : ℕ → ℕ
cycle_year r = if cycle_leap r then 366 else 365

every_below : (ℕ → Bool) → ℕ → Bool
every_below test zero = true
every_below test (suc bound) = every_below test bound && test bound

every_below-test :
    (test : ℕ → Bool) (bound r : ℕ) → r < bound → every_below test bound ≡ true → test r ≡ true
unfolding every_below
every_below-test test zero r lt all = absurd (omega arith)
every_below-test test (suc bound) r lt all = ground (arith, every_below-test test bound r)

cycle_table : every_below (λ r. days_in_cycle (r + 1) == days_in_cycle r + cycle_year r) 400 ≡ true
unfolding every_below cycle_leap
cycle_table = refl

days_in_cycle-suc : (r : ℕ) → r < 400 → days_in_cycle (r + 1) ≡ days_in_cycle r + cycle_year r
days_in_cycle-suc r h = (==_iff _ _).0 (every_below-test _ 400 r h cycle_table)

divides_pos : (n : ℕ) → (n % 400 % 4 ≡ n % 4) × (n % 400 % 100 ≡ n % 100)
divides_pos n = (omega arith, omega arith)

eq-zero : (a b : ℕ) → (a ≡ 0) ↔ (b ≡ 0) → (a == 0) ≡ (b == 0)
eq-zero a b h = ground (arith, h.0, h.1)

leap-cycle : (y : ℤ) → is_leap_year y ≡ cycle_leap (floor_mod y 400)
unfolding is_leap_year cycle_leap
leap-cycle (pos n) =
    let four : (n % 4 == 0) ≡ (n % 400 % 4 == 0) = eq-zero _ _ (omega arith, omega arith) in
    let hundred : (n % 100 == 0) ≡ (n % 400 % 100 == 0) = eq-zero _ _ (omega arith, omega arith) in
    ground arith
leap-cycle (negsuc n) =
    let four : (suc n % 4 == 0) ≡ ((399 - n % 400) % 4 == 0) =
      eq-zero _ _ (omega arith, omega arith) in
    let hundred : (suc n % 100 == 0) ≡ ((399 - n % 400) % 100 == 0) =
      eq-zero _ _ (omega arith, omega arith) in
    let all : (suc n % 400 == 0) ≡ ((399 - n % 400) == 0) =
      eq-zero _ _ (omega arith, omega arith) in
    ground arith

floor_mod-lt : (y : ℤ) → floor_mod y 400 < 400
floor_mod-lt (pos n) = omega arith
floor_mod-lt (negsuc n) = omega arith

+ℤ_one_pos : (n : ℕ) → pos n +ℤ pos 1 ≡ pos (n + 1)
unfolding ◌+ℤ◌
+ℤ_one_pos n = ground arith

+ℤ_one_negsuc : (n : ℕ) → negsuc (suc n) +ℤ pos 1 ≡ negsuc n
unfolding ◌+ℤ◌
+ℤ_one_negsuc n = ground arith

-- The year after: the next of the cycle, or the first of the next cycle.
floor-suc :
    (y : ℤ)
    → ((floor_mod y 400 + 1 < 400)
        × (floor_mod (y +ℤ pos 1) 400 ≡ floor_mod y 400 + 1)
        × (floor_div (y +ℤ pos 1) 400 ≡ floor_div y 400))
      ⊎ ((floor_mod y 400 ≡ 399)
          × (floor_mod (y +ℤ pos 1) 400 ≡ 0)
          × (floor_div (y +ℤ pos 1) 400 ≡ floor_div y 400 +ℤ pos 1))
unfolding ◌+ℤ◌
floor-suc (pos n) = rw +ℤ_one_pos (elim (Bool-cases (n % 400 == 399)) [
  | inl last ↦ inr (ground arith, ground arith, ground arith)
  | inr other ↦ inl (ground arith, ground arith, ground arith)
])
floor-suc (negsuc zero) = inr (refl, refl, refl)
floor-suc (negsuc (suc n)) = rw +ℤ_one_negsuc (elim (Bool-cases (suc n % 400 == 0)) [
  | inl last ↦ inr (ground arith, ground arith, ground arith)
  | inr other ↦ inl (ground arith, ground arith, ground arith)
])

-- One year has 365 or 366 days by the leap rule, over any cycle boundary.
pub days_before_year-suc :
    (y : ℤ) → days_before_year (y +ℤ pos 1) ≡ days_before_year y +ℤ pos (year_length y)
days_before_year-suc y = elim (floor-suc y) [
  | inl (inside, r, q) ↦
      rw (r, q, leap-cycle, days_in_cycle-suc _ (floor_mod-lt y)) (omega int_laws)
  | inr (last, r, q) ↦ rw (r, q, leap-cycle, last) (unfold cycle_leap in omega (int_laws, *ℤ_scale))
]

month-pred : (m : ℤ) → pos 1 ≤ℤ m → m ≤ℤ pos 12 → (k : ℕ) × (k < 12) × (m ≡ pos (suc k))
month-pred (pos zero) h l = absurd (omega arith)
month-pred (pos (suc k)) h l = (k, omega arith, refl)
month-pred (negsuc n) h l = absurd (omega arith)

-- A date of the calendar by the place of its month in the year.
pub IsDate-month : (t : Date) → IsDate t → (k : ℕ) × (k < 12) × (t.month ≡ pos (suc k))
IsDate-month t v = month-pred t.month v.month_in.0 v.month_in.1

suc-pred : (k : ℕ) → pos (suc k) -ℤ pos 1 ≡ pos k
unfolding ◌-ℤ◌
suc-pred k = ground arith

same_year : (y : ℤ) (k : ℕ) → k < 12 → y +ℤ pos (k / 12) ≡ y
same_year y k h = omega int_laws

-- Within the twelve months nothing is carried.
pub ordinal-date :
    (y d : ℤ) (k : ℕ)
    → k < 12
    → ordinal (date y (pos (suc k)) d)
      ≡ days_before_year y +ℤ (pos (days_before_month (is_leap_year y) k) +ℤ d)
unfolding ordinal
ordinal-date y d k h = let e : k % 12 ≡ k = omega arith in rw (suc-pred, same_year y k h, e)

pub days_in_month-length :
    (y : ℤ) (k : ℕ) → k < 12 → days_in_month y (pos (suc k)) ≡ month_length (is_leap_year y) k
unfolding days_in_month
days_in_month-length y k h = let e : k % 12 ≡ k = omega arith in rw (suc-pred, same_year y k h, e)

pub days_before_month_twelve :
    (leap : Bool) → days_before_month leap 12 ≡ (if leap then 366 else 365)
days_before_month_twelve true = refl
days_before_month_twelve false = refl

pub month_length_range :
    (leap : Bool) (k : ℕ) → (28 ≤ month_length leap k) × (month_length leap k ≤ 31)
month_length_range true k = ground arith
month_length_range false k = ground arith
