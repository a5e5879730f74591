-- ===== src/Date/Calendar/Ordinal/Steps.antt =====
-- One day on and one day back, moves by any number of days, and the distance of two dates.
use marumbot.Prelude.{
  subst, ℕ, zero, suc, ◌+◌, ◌<◌, ◌≡◌, sym, ap, ◌∙◌, Bool, true, false, if◌then◌else◌, arith,
  Bool-cases, inl, inr,
}
use marumbot.Prelude.Int.{
  ℤ, pos, negsuc, ◌+ℤ◌, ◌-ℤ◌, neg_ℤ, ltb_ℤ, ◌≤ℤ◌, int_laws, lt_of_ltb_ℤ, le_of_ltb_ℤ, not_ltb_ℤ,
  +ℤ_regroup,
}
use marumbot.Date.Calendar.{
  Date, date, is_leap_year, month_length, days_in_month, days_before_year, days_before_month,
  ordinal, next_day, previous_day, forward, backward, add_days, days_between, max_duration_days,
}
use marumbot.Date.Calendar.Ordinal.{
  IsDate, IsDate-month, ordinal-date, days_in_month-length, month_length_range,
  days_before_year-suc, year_length,
}

-- What a step of one day must do: reach a date of the calendar whose number is z.
abbrev Reaches : ℤ → Date → Type 0
Reaches z t = IsDate t × (ordinal t ≡ z)

month-suc : (k : ℕ) → pos (suc k) +ℤ pos 1 ≡ pos (suc (suc k))
unfolding ◌+ℤ◌
month-suc k = ground arith

IsDate-date :
    (y d : ℤ) (k : ℕ)
    → k < 12
    → pos 1 ≤ℤ d
    → d ≤ℤ pos (month_length (is_leap_year y) k)
    → IsDate (date y (pos (suc k)) d)
IsDate-date y d k hk h l = record {
  month_in = omega arith;
  day_in = (h, rw (days_in_month-length y k hk) l);
}

month_turn : (a : ℤ) (b l : ℕ) → a +ℤ (pos (b + l) +ℤ pos 1) ≡ a +ℤ (pos b +ℤ pos l) +ℤ pos 1
month_turn a b l = omega int_laws

year_turn :
    (a : ℤ) (leap : Bool)
    → a +ℤ pos (if leap then 366 else 365) +ℤ (pos 0 +ℤ pos 1)
      ≡ a +ℤ (pos (days_before_month leap 11) +ℤ pos (month_length leap 11)) +ℤ pos 1
year_turn a true = omega int_laws
year_turn a false = omega int_laws

module _ (y d : ℤ) (k : ℕ) (hk : k < 12) (v : IsDate (date y (pos (suc k)) d)) where
  len : d ≤ℤ pos (month_length (is_leap_year y) k)
  len = rw (days_in_month-length y k hk) at v.day_in.1

  next_day-Reaches :
      Reaches (ordinal (date y (pos (suc k)) d) +ℤ pos 1) (next_day (date y (pos (suc k)) d))
  unfolding next_day
  next_day-Reaches = elim (Bool-cases (ltb_ℤ d (pos (days_in_month y (pos (suc k)))))) [
    | inl inside ↦
        let lt =
          rw (days_in_month-length y k hk) at
            (lt_of_ltb_ℤ d (pos (days_in_month y (pos (suc k)))) inside) in
        rw inside (
          IsDate-date y (d +ℤ pos 1) k hk (omega (int_laws, v.day_in.0)) (omega (int_laws, lt)),
          rw (ordinal-date y d k hk, ordinal-date y (d +ℤ pos 1) k hk) (+ℤ_regroup _ _ _ _),
        )
    | inr last ↦
        let ge =
          rw (days_in_month-length y k hk) at
            (le_of_ltb_ℤ d (pos (days_in_month y (pos (suc k)))) last) in
        let full : d ≡ pos (month_length (is_leap_year y) k) = omega (int_laws, len) in
        elim (Bool-cases (ltb_ℤ (pos (suc k)) (pos 12))) [
          | inl same_year ↦
              let hk' : suc k < 12 = omega (arith, lt_of_ltb_ℤ (pos (suc k)) (pos 12) same_year) in
              rw (last, same_year, month-suc)
                (
                  IsDate-date y (pos 1) (suc k) hk' (omega arith)
                      (omega (arith, month_length_range (is_leap_year y) (suc k))),
                  rw (ordinal-date y d k hk, ordinal-date y (pos 1) (suc k) hk', full)
                      (month_turn _ _ _),
                )
          | inr december ↦
              let eleven : k ≡ 11 = omega (arith, le_of_ltb_ℤ (pos (suc k)) (pos 12) december) in
              rw (last, december)
                (
                  IsDate-date (y +ℤ pos 1) (pos 1) 0 (omega arith) (omega arith)
                      (omega (arith, month_length_range (is_leap_year (y +ℤ pos 1)) 0)),
                  rw
                      (
                        ordinal-date y d k hk,
                        ordinal-date (y +ℤ pos 1) (pos 1) 0 (omega arith),
                        full,
                        days_before_year-suc,
                        eleven,
                      )
                      (year_turn _ (is_leap_year y)),
                )
        ]
  ]

month_before : (k : ℕ) → pos (suc (suc k)) -ℤ pos 1 ≡ pos (suc k)
unfolding ◌-ℤ◌
month_before k = ground arith

day_back : (a : ℤ) (b : ℕ) (d : ℤ) → a +ℤ (pos b +ℤ (d -ℤ pos 1)) ≡ a +ℤ (pos b +ℤ d) -ℤ pos 1
day_back a b d = omega int_laws

month_back : (a : ℤ) (b l : ℕ) → a +ℤ (pos b +ℤ pos l) ≡ a +ℤ (pos (b + l) +ℤ pos 1) -ℤ pos 1
month_back a b l = omega int_laws

year_back :
    (a b : ℤ) (leap : Bool)
    → b ≡ a +ℤ pos (if leap then 366 else 365)
    → a +ℤ (pos (days_before_month leap 11) +ℤ pos 31) ≡ b +ℤ (pos 0 +ℤ pos 1) -ℤ pos 1
year_back a b true e = rw e (omega int_laws)
year_back a b false e = rw e (omega int_laws)

back_and_on : (y : ℤ) → y -ℤ pos 1 +ℤ pos 1 ≡ y
back_and_on y = omega int_laws

year_before :
    (y : ℤ) → days_before_year y ≡ days_before_year (y -ℤ pos 1) +ℤ pos (year_length (y -ℤ pos 1))
year_before y = ap days_before_year (sym (back_and_on y)) ∙ days_before_year-suc (y -ℤ pos 1)

first_day : (d : ℤ) → pos 1 ≤ℤ d → ltb_ℤ (pos 1) d ≡ false → d ≡ pos 1
first_day d h l = omega (int_laws, le_of_ltb_ℤ (pos 1) d l)

previous_day-inside :
    (y d : ℤ) (k : ℕ)
    → k < 12
    → IsDate (date y (pos (suc k)) d)
    → ltb_ℤ (pos 1) d ≡ true
    → Reaches (ordinal (date y (pos (suc k)) d) -ℤ pos 1) (previous_day (date y (pos (suc k)) d))
unfolding previous_day
previous_day-inside y d k hk v inside = rw inside (
  IsDate-date y (d -ℤ pos 1) k hk (omega (int_laws, lt_of_ltb_ℤ (pos 1) d inside))
      (omega (int_laws, len y d k hk v)),
  rw (ordinal-date y d k hk, ordinal-date y (d -ℤ pos 1) k hk) (day_back _ _ d),
)

previous_day-Reaches :
    (y d : ℤ) (k : ℕ)
    → k < 12
    → IsDate (date y (pos (suc k)) d)
    → Reaches (ordinal (date y (pos (suc k)) d) -ℤ pos 1) (previous_day (date y (pos (suc k)) d))
unfolding previous_day
previous_day-Reaches y d zero hk v = elim (Bool-cases (ltb_ℤ (pos 1) d)) [
  | inl inside ↦ previous_day-inside y d 0 hk v inside
  | inr first ↦ rw (first_day d v.day_in.0 first) (
    IsDate-date (y -ℤ pos 1) (pos 31) 11 (omega arith) (omega arith) (omega arith),
    rw (ordinal-date y (pos 1) 0 hk, ordinal-date (y -ℤ pos 1) (pos 31) 11 (omega arith))
        (year_back _ _ _ (year_before y)),
  )
]
previous_day-Reaches y d (suc k) hk v = elim (Bool-cases (ltb_ℤ (pos 1) d)) [
  | inl inside ↦ previous_day-inside y d (suc k) hk v inside
  | inr first ↦
      let hk' : k < 12 = omega arith in
      let later : ltb_ℤ (pos 1) (pos (suc (suc k))) ≡ true = ground arith in
      rw (first_day d v.day_in.0 first, later, month_before, days_in_month-length y k hk')
        (
          IsDate-date y (pos (month_length (is_leap_year y) k)) k hk'
              (omega (arith, month_length_range (is_leap_year y) k)) (omega arith),
          rw
              (
                ordinal-date y (pos 1) (suc k) hk,
                ordinal-date y (pos (month_length (is_leap_year y) k)) k hk',
              )
              (month_back _ _ _),
        )
]

by_month {ℓ} :
    (P : Date → Type ℓ)
    → ((y d : ℤ) (k : ℕ) → k < 12 → IsDate (date y (pos (suc k)) d) → P (date y (pos (suc k)) d))
    → (t : Date) → IsDate t
    → P t
by_month P f t v =
    let (k, hk, e) = IsDate-month t v in
    subst (λ m. IsDate (date t.year m t.day) → P (date t.year m t.day)) (sym e)
      (f t.year t.day k hk) v

-- The day after a date of the calendar is a date of the calendar, with the next number.
pub next_day-lem : (t : Date) → IsDate t → Reaches (ordinal t +ℤ pos 1) (next_day t)
next_day-lem = by_month (λ t. Reaches (ordinal t +ℤ pos 1) (next_day t)) next_day-Reaches

pub previous_day-lem : (t : Date) → IsDate t → Reaches (ordinal t -ℤ pos 1) (previous_day t)
previous_day-lem =
    by_month (λ t. Reaches (ordinal t -ℤ pos 1) (previous_day t)) previous_day-Reaches

forward-Reaches : (n : ℕ) (t : Date) → IsDate t → Reaches (ordinal t +ℤ pos n) (forward n t)
unfolding forward
forward-Reaches zero t v = (v, omega int_laws)
forward-Reaches (suc n) t v =
    let (w, e) = next_day-lem t v in
    let (u, g) = forward-Reaches n (next_day t) w in (u, g ∙ rw e (omega int_laws))

backward-Reaches : (n : ℕ) (t : Date) → IsDate t → Reaches (ordinal t -ℤ pos n) (backward n t)
unfolding backward
backward-Reaches zero t v = (v, omega int_laws)
backward-Reaches (suc n) t v =
    let (w, e) = previous_day-lem t v in
    let (u, g) = backward-Reaches n (previous_day t) w in (u, g ∙ rw e (omega int_laws))

-- AddDays, from any date of the calendar and by any number of days either way, reaches a date of
-- the calendar whose number in the closed formula is exactly that much larger.
pub ordinal-add_days :
    (t : Date) (n : ℤ)
    → IsDate t
    → IsDate (add_days t n) × (ordinal (add_days t n) ≡ ordinal t +ℤ n)
unfolding add_days
ordinal-add_days t (pos n) v = forward-Reaches n t v
ordinal-add_days t (negsuc n) v =
    let (w, e) = backward-Reaches (suc n) t v in (w, e ∙ omega int_laws)

difference : (a n : ℤ) → a +ℤ n -ℤ a ≡ n
difference a n = omega int_laws

-- DaysBetween undoes AddDays from any date of the calendar, up to the 106751 days either way that a
-- time.Duration holds.
pub days_between-add_days :
    (t : Date) (n : ℤ)
    → IsDate t
    → neg_ℤ (pos max_duration_days) ≤ℤ n
    → n ≤ℤ pos max_duration_days
    → days_between t (add_days t n) ≡ n
unfolding days_between
days_between-add_days t n v low high =
    rw ((ordinal-add_days t n v).1, difference (ordinal t) n)
      (rw
        (not_ltb_ℤ (pos max_duration_days) n high, not_ltb_ℤ n (neg_ℤ (pos max_duration_days)) low))
