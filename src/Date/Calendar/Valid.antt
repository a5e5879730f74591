-- ===== src/Date/Calendar/Valid.antt =====
-- `New` builds exactly the dates of the calendar, and refuses all else.
use marumbot.Prelude.{◌≡◌, ◌↔◌, ◌⊎◌, inl, inr, arith, ok, err, invalid_date, Bool-cases, ◌||◌, refl}
use marumbot.Prelude.Int.{ℤ, pos, ltb_ℤ}
use marumbot.Date.Calendar.{date, new, days_in_month}
use marumbot.Date.Calendar.Ordinal.{IsDate}

new-cases :
    (y m d : ℤ)
    → ((new y m d ≡ ok (date y m d)) × IsDate (date y m d))
      ⊎ ((new y m d ≡ err invalid_date) × ¬ (IsDate (date y m d)))
unfolding new
new-cases y m d = elim (Bool-cases (ltb_ℤ m (pos 1) || ltb_ℤ (pos 12) m)) [
  | inl bad ↦ inr (rw bad refl, λ v. ground (arith, v.month_in))
  | inr good ↦ elim (Bool-cases (ltb_ℤ d (pos 1) || ltb_ℤ (pos (days_in_month y m)) d)) [
    | inl bad ↦ inr (rw (good, bad) refl, λ v. ground (arith, v.day_in))
    | inr fits ↦ inl (
      rw (good, fits) refl,
      record { month_in = (ground arith, ground arith); day_in = (ground arith, ground arith) },
    )
  ]
]

-- New answers with the date of the three numbers exactly where they are a date of the calendar, and
-- with ErrInvalid exactly where they are not: it never rolls a day or a month over.
pub new-IsDate :
    (y m d : ℤ)
    → ((new y m d ≡ ok (date y m d)) ↔ IsDate (date y m d))
      × ((new y m d ≡ err invalid_date) ↔ ¬ (IsDate (date y m d)))
new-IsDate y m d = elim (new-cases y m d) [
  | inl (e, v) ↦ (((λ _. v), (λ _. e)), ((λ h. cc (e, h)), (λ n. absurd (n v))))
  | inr (e, n) ↦ (((λ h. cc (e, h)), (λ v. absurd (n v))), ((λ _. n), (λ _. e)))
]
