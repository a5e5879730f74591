-- ===== src/Amortisation/Solve.antt =====
-- pkg/core/amortisation/solve.go: the level instalment, by bisection over the projection.
pub mod Ends
pub mod Smallest
pub mod Bisect
use marumbot.Prelude.{
  ℕ, zero, suc, Bool, true, false, ◌==◌, if◌then◌else◌, List, [], ◌∷◌, Result, ok, err, panic,
  ◌>>=◌, unsolvable, out_of_fuel,
}
use marumbot.Prelude.Int.{ℤ, pos, pos_part, ◌+ℤ◌, ◌-ℤ◌, ◌*ℤ◌, quot_ℤ, ltb_ℤ, leb_ℤ}
use marumbot.Prelude.Int64.{wrap64}
use marumbot.Money.Amount.{Amount, from_minor, add}
use marumbot.Money.Rounding.{unit_of}
use marumbot.Money.Accrual.{accrue}
use marumbot.Date.Calendar.{Date, days_between, is_zero}
use marumbot.Model.Loan.{Contract}
use marumbot.Amortisation.Dates.{Calendar, new_calendar, dates_from}
use marumbot.Amortisation.Rows.{Schedule, Walk}
use marumbot.Amortisation.Level.{project, schedule_of}

-- `ceilDiv`, for a divisor that is at least 1.
pub ceil_div : ℤ → ℕ → ℤ
ceil_div a b = if leb_ℤ a (pos 0) then pos 1 else quot_ℤ (wrap64 (wrap64 (a +ℤ pos b) -ℤ pos 1)) b

-- What the function `clears` reads off a projection.
abbrev pub is_cleared : Walk → Bool
is_cleared w = if w.out.periods == 0 then false else leb_ℤ w.out.final_closing.minor (pos 0)

-- `units*unit`
abbrev pub candidate : Contract → Amount → ℤ → Amount
candidate c principal units =
    from_minor (wrap64 (units *ℤ pos (pos_part (unit_of c.rounding)))) principal.cur

unfoldable pub clears : Contract → Amount → Date → List Date → ℤ → Result Bool
clears c principal from dates units =
    project c principal (candidate c principal units) from dates >>= λ w. ok (is_cleared w)

abbrev pub middle : ℤ → ℤ → ℤ
middle lo hi = lo +ℤ quot_ℤ (hi -ℤ lo) 2

-- The loop, on fuel. Nothing in it overflows, since 1 ≤ lo < hi where it computes.
pub bisect : ℕ → (ℤ → Result Bool) → ℤ → ℤ → Result ℤ
bisect zero test lo hi = err out_of_fuel
bisect (suc fuel) test lo hi =
    if ltb_ℤ lo hi
    then (test (middle lo hi) >>= λ fits.
        bisect fuel test (if fits then lo else middle lo hi +ℤ pos 1)
          (if fits then middle lo hi else hi))
    else ok hi

-- `dates[0]`
pub first_date : List Date → Result Date
first_date [] = panic
first_date (due ∷ dates) = ok due

-- The upper bound on the instalment: the whole loan, settled on the first date.
unfoldable pub whole_loan : Contract → Amount → Date → List Date → Result Amount
unfolding first_date
whole_loan c principal from dates = first_date dates >>= λ due.
    accrue principal c.nominal_rate (days_between (if is_zero from then c.start_date else from) due)
      c.day_count c.rounding
    >>= λ interest. add principal interest

-- The bisection from its upper bound, in settlement units. An int64 is halved at most 63 times.
unfoldable pub solve_units : (ℤ → Result Bool) → ℤ → Result ℤ
unfolding bisect
solve_units test hi = test hi >>= λ fits. if fits then bisect 64 test (pos 1) hi else err unsolvable

-- `Calendar.Solve`
unfoldable pub solve_on : Calendar → Amount → Date → Result Amount
unfolding ceil_div
solve_on cal principal from =
    let c = cal.contract in
    if leb_ℤ principal.minor (pos 0)
    then err unsolvable
    else (dates_from cal from >>= λ dates. whole_loan c principal from dates >>= λ hi.
        solve_units (clears c principal from dates)
          (ceil_div hi.minor (pos_part (unit_of c.rounding)))
        >>= λ units. ok (candidate c principal units))

-- `Solve`
solve_with : Result Calendar → Amount → Date → Result Amount
solve_with (ok cal) principal from = solve_on cal principal from
solve_with (err e) principal from = if leb_ℤ principal.minor (pos 0) then err unsolvable else err e
solve_with panic principal from = panic

unfoldable pub solve : Contract → Amount → Date → Result Amount
unfolding solve_with
solve c principal from = solve_with (new_calendar c) principal from

-- `Calendar.SolveAndProject`
unfoldable pub solve_and_project_on : Calendar → Amount → Date → Result Schedule
solve_and_project_on cal principal from = solve_on cal principal from >>= λ instalment.
    dates_from cal from >>= λ dates.
    project cal.contract principal instalment from dates >>= λ w. ok (schedule_of instalment w)

unfoldable pub solve_and_project : Contract → Amount → Date → Result Schedule
solve_and_project c principal from =
    new_calendar c >>= λ cal. solve_and_project_on cal principal from
