-- ===== src/Amortisation/Solve/Ends.antt =====
-- The bisection of `Solve` ends: its fuel is never used up.
use marumbot.Prelude.{
  zero, ◌/◌, suc, [], inr, if◌then◌else◌, inl, ◌∷◌, Bool-cases, ok-HasFuel, arith, >>=-HasFuel,
  List, if-HasFuel, ◌≤◌, Bool, Result, ℕ, HasFuel,
}
use marumbot.Ledger.Accrual.Fuel.{add-HasFuel, Refuses-HasFuel}
use marumbot.Money.Accrual.Errors.{accrue-Refuses}
use marumbot.Date.Calendar.{days_between, is_zero, Date}
use marumbot.Prelude.Int.{
  negsuc, ◌+ℤ◌, sub_ℕ, quot_ℤ, ◌-ℤ◌, one_part, int_laws, pos, leb_ℤ, pos_part, ℤ,
}
use marumbot.Money.Accrual.{accrue}
use marumbot.Prelude.Int64.{wrap64-InInt64, wrap64, max_int64}
use native.Mathlib.Nat.{div-le_self}
use marumbot.Amortisation.Solve.{
  first_date, candidate, ceil_div, clears, solve_on, solve_units, whole_loan,
}
use marumbot.Money.Rounding.{unit_of}
use marumbot.Amortisation.Dates.{dates_from, Calendar}
use marumbot.Amortisation.Rows.{start_walk}
use marumbot.Amortisation.Solve.Bisect.{bisect-HasFuel}
use marumbot.Amortisation.Level.{level_rows, project}
use marumbot.Money.Amount.{Amount}
use marumbot.Model.Loan.{Contract}
use marumbot.Amortisation.Dates.Ends.{dates_from-HasFuel}
use marumbot.Amortisation.Level.Ends.{level_rows-HasFuel}

clears-HasFuel :
    (c : Contract) (principal : Amount) (from : Date) (dates : List Date) (units : ℤ)
    → HasFuel (clears c principal from dates units)
unfolding clears project
clears-HasFuel c principal from dates units =
    >>=-HasFuel (level_rows c (candidate c principal units) dates 1 (start_walk c principal from)) _
      (level_rows-HasFuel c (candidate c principal units) dates 1 (start_walk c principal from))
      λ w _. ok-HasFuel _

pub solve_units-HasFuel :
    (test : ℤ → Result Bool) (hi : ℤ)
    → ((u : ℤ) → HasFuel (test u))
    → pos_part hi ≤ max_int64
    → HasFuel (solve_units test hi)
unfolding solve_units
solve_units-HasFuel test hi some fits = >>=-HasFuel (test hi) _ (some hi) λ passed _.
    if-HasFuel passed
      (bisect-HasFuel 63 test (pos 1) hi some (omega (int_laws, fits, one_part (hi -ℤ pos 1))))
      (λ e. ground arith)

none_left : (x : ℕ) → pos_part (sub_ℕ 0 x) ≤ 0
none_left zero = grind arith
none_left (suc x) = grind arith

quot_range : (z : ℤ) (b : ℕ) → pos_part (quot_ℤ z b) ≤ pos_part z
quot_range (pos n) b = div-le_self n b
quot_range (negsuc n) b = none_left (suc n / b)

ceil_div_range : (a : ℤ) (unit : ℕ) → pos_part (ceil_div a unit) ≤ max_int64
unfolding ceil_div
ceil_div_range a unit = elim (Bool-cases (leb_ℤ a (pos 0))) [
  | inl h ↦ rw h (omega arith)
  | inr h ↦ rw h (
      let w = wrap64 (a +ℤ pos unit) -ℤ pos 1 in
      omega (arith, quot_range (wrap64 w) unit, (wrap64-InInt64 w).0))
]

first_date-HasFuel : (dates : List Date) → HasFuel (first_date dates)
unfolding first_date
first_date-HasFuel [] = λ e. cc
first_date-HasFuel (due ∷ dates) = ok-HasFuel due

whole_loan-HasFuel :
    (c : Contract) (principal : Amount) (from : Date) (dates : List Date)
    → HasFuel (whole_loan c principal from dates)
unfolding whole_loan
whole_loan-HasFuel c principal from dates =
    >>=-HasFuel (first_date dates) _ (first_date-HasFuel dates) λ due _.
      let start = if is_zero from then c.start_date else from in
      >>=-HasFuel (accrue principal c.nominal_rate (days_between start due) c.day_count c.rounding)
        _
        (Refuses-HasFuel _
          (accrue-Refuses principal c.nominal_rate (days_between start due) c.day_count c.rounding))
        λ interest _. add-HasFuel principal interest

-- The bisection of Solve ends within its fuel, for every calendar, principal and date.
pub solve_on-HasFuel :
    (cal : Calendar) (principal : Amount) (from : Date) → HasFuel (solve_on cal principal from)
unfolding solve_on
solve_on-HasFuel cal principal from =
    let c = cal.contract in
    if-HasFuel (leb_ℤ principal.minor (pos 0)) (λ e. ground arith)
      (>>=-HasFuel (dates_from cal from) _ (dates_from-HasFuel cal from) λ dates _.
        >>=-HasFuel (whole_loan c principal from dates) _
          (whole_loan-HasFuel c principal from dates)
          λ hi _.
            >>=-HasFuel
              (solve_units (clears c principal from dates)
                (ceil_div hi.minor (pos_part (unit_of c.rounding))))
              _
              (solve_units-HasFuel (clears c principal from dates)
                (ceil_div hi.minor (pos_part (unit_of c.rounding)))
                (clears-HasFuel c principal from dates)
                (ceil_div_range hi.minor (pos_part (unit_of c.rounding))))
              λ units _. ok-HasFuel _)
