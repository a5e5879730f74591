-- ===== src/Tests/Amortisation.antt =====
-- The projections of pkg/core/amortisation on a loan of two instalments.
use marumbot.Amortisation.Declining.Total.{project_declining_total}
use marumbot.Prelude.{
  List, [], ◌∷◌, text_eq, panic, ◌>>=◌, arith, err, false, ok, ◌≡◌, HasFuel, Result, ℕ, refl,
}
use marumbot.Amortisation.Solve.Smallest.{solve_on-IsSmallest, IsSmallest}
use marumbot.Amortisation.Dates.{remaining_from, dates_from, Calendar}
use marumbot.Amortisation.Solve.{clears, solve_units, whole_loan, solve_on}
use marumbot.Prelude.Int.{◌*ℤ◌, ◌-ℤ◌, ◌+ℤ◌, pos}
use marumbot.Money.Accrual.Monotone.{HasTerms}
use marumbot.Prelude.Int64.{wrap64}
use marumbot.Date.Calendar.{
  ordinal, days_between, add_days, previous_day, next_day, days_in_month, is_leap_year, after,
  before, compare_date, Date, date, no_date,
}
use marumbot.Money.Amount.{same_code, cmp, sub, add, amount, Amount}
use marumbot.Amortisation.Build.Agree.{next-build_on, first_obligation}
use marumbot.Money.Rounding.{round_quotient}
use marumbot.Money.Accrual.{mul_no_overflow, accrue}
use marumbot.Amortisation.Rows.{start_walk, close_row, Walk}
use marumbot.Amortisation.Build.{build_on, next}
use marumbot.Tests.Money.{amd}
use marumbot.Amortisation.Solve.Ends.{solve_on-HasFuel}
use marumbot.Amortisation.Level.{level_row, project}
use marumbot.Amortisation.Declining.{project_declining}
use marumbot.Amortisation.Declining.Booked.{IsSettled}
use marumbot.Model.Loan.{Contract}
use marumbot.Tests.Loans.{contract}

abbrev small_loan : Contract
small_loan = record contract {
  maturity_date = date (pos 2024) (pos 3) (pos 31);
  has_scheduled = false;
}

abbrev due_dates : List Date
due_dates = date (pos 2024) (pos 2) (pos 5) ∷ date (pos 2024) (pos 3) (pos 5) ∷ []

abbrev calendar : Calendar
calendar = record { contract = small_loan; dates = due_dates }

abbrev drams : ℕ → Amount
drams n = amount (pos n) amd

abbrev walked : Result Walk → Walk
walked (ok w) = w
walked (err e) = start_walk small_loan (drams 0) no_date
walked panic = start_walk small_loan (drams 0) no_date

abbrev received : Result Amount → Amount
received (ok a) = a
received (err e) = drams 0
received panic = drams 0

next-build_on_example :
    next calendar (drams 100000) no_date
    ≡ (build_on calendar (drams 100000) no_date >>= first_obligation)
next-build_on_example =
    next-build_on calendar (drams 100000) no_date (omega arith, omega arith)
      (omega arith, omega arith)

solve_on-HasFuel_example : HasFuel (solve_on calendar (drams 100000) no_date)
solve_on-HasFuel_example = solve_on-HasFuel calendar (drams 100000) no_date

small_loan-HasTerms : HasTerms small_loan.nominal_rate small_loan.rounding
small_loan-HasTerms = record {
  rate_low = omega arith;
  rate_high = omega arith;
  unit_low = omega arith;
  unit_high = omega arith;
}

abbrev level : ℕ → Result Walk
level instalment = project small_loan (drams 100000) (drams instalment) no_date due_dates

solve_run :
    solve_on calendar (drams 100000) no_date
    ≡ ok (received (solve_on calendar (drams 100000) no_date))
unfolding solve_on solve_units clears whole_loan dates_from remaining_from project level_row
    close_row accrue mul_no_overflow round_quotient add sub cmp same_code compare_date before after
    next_day previous_day add_days days_between ordinal days_in_month is_leap_year text_eq wrap64
    ◌+ℤ◌ ◌-ℤ◌ ◌*ℤ◌
solve_run = refl

dates_run : dates_from calendar no_date ≡ ok due_dates
unfolding dates_from remaining_from
dates_run = refl

whole_run :
    whole_loan small_loan (drams 100000) no_date due_dates
    ≡ ok (received (whole_loan small_loan (drams 100000) no_date due_dates))
unfolding whole_loan accrue mul_no_overflow round_quotient add sub cmp same_code compare_date before
    after next_day previous_day add_days days_between ordinal days_in_month is_leap_year text_eq
    wrap64 ◌+ℤ◌ ◌-ℤ◌ ◌*ℤ◌
whole_run = refl

solve_on-IsSmallest_example :
    IsSmallest small_loan
      (drams 100000)
      no_date
      due_dates
      (received (solve_on calendar (drams 100000) no_date))
unfolding whole_loan accrue mul_no_overflow round_quotient add sub cmp same_code compare_date before
    after next_day previous_day add_days days_between ordinal days_in_month is_leap_year text_eq
    wrap64 ◌+ℤ◌ ◌-ℤ◌ ◌*ℤ◌
solve_on-IsSmallest_example =
    solve_on-IsSmallest calendar (drams 100000) no_date due_dates
      (received (whole_loan small_loan (drams 100000) no_date due_dates))
      (received (solve_on calendar (drams 100000) no_date)) small_loan-HasTerms
      (omega arith, omega arith) (omega arith) dates_run whole_run (omega arith) (omega arith)
      solve_run

project_declining_total_example :
    (w : Walk) × (project_declining small_loan (drams 100000) no_date due_dates ≡ ok w)
    × IsSettled (drams 100000) w
unfolding days_between ordinal ◌+ℤ◌ ◌-ℤ◌ ◌*ℤ◌ is_leap_year
project_declining_total_example =
    project_declining_total small_loan 100000 amd no_date due_dates small_loan-HasTerms refl
      (omega arith) (omega arith) (omega arith)
      (omega arith, omega arith, (omega arith, omega arith, tt))
