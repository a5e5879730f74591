-- ===== src/Amortisation/Dates.antt =====
-- pkg/core/amortisation/schedule.go and calendar.go: the dates on which instalments fall due.
pub mod Ends
pub mod Complete
use marumbot.Prelude.{
  ℕ, zero, suc, Bool, true, false, not, ◌&&◌, ◌||◌, ◌==◌, if◌then◌else◌, List, [], ◌∷◌, length,
  Result, ok, err, ◌>>=◌, unsolvable,
}
use marumbot.Prelude.Int.{ℤ, pos, ◌+ℤ◌, eq_ℤ}
use marumbot.Date.Calendar.{Date, before, after, is_zero}
use marumbot.Date.Schedule.{occurrence}
use marumbot.Model.Loan.{Contract}

abbrev pub max_periods : ℕ
max_periods = 600

-- The loop of `PaymentDates`, on the number of rounds left.
pub walk_dates : ℕ → Date → ℤ → Date → ℤ → List Date
walk_dates zero start day maturity n = []
walk_dates (suc left) start day maturity n = elim (after (occurrence start day n) maturity) [
  | true ↦ []
  | false ↦ occurrence start day n ∷ walk_dates left start day maturity (n +ℤ pos 1)
]

abbrev pub due_day : Contract → ℤ
due_day c = if eq_ℤ c.payment_day (pos 0) then c.start_date.day else c.payment_day

-- The two tests behind the loop.
pub some_dates : List Date → Result (List Date)
some_dates out =
    if length out == 0
    then err unsolvable
    else if length out == max_periods
    then err unsolvable
    else ok out

unfoldable pub payment_dates : Contract → Result (List Date)
unfolding walk_dates some_dates
payment_dates c =
    if is_zero c.start_date || is_zero c.maturity_date
    then err unsolvable
    else if not (after c.maturity_date c.start_date)
    then err unsolvable
    else some_dates (walk_dates max_periods c.start_date (due_day c) c.maturity_date (pos 1))

-- The test of the loop of `remainingFrom`.
abbrev pub is_past : Contract → Date → Date → Bool
is_past c from due =
    (not (is_zero from) && not (after due from))
    || (not (is_zero c.not_before_due) && before due c.not_before_due)

pub drop_past : Contract → Date → List Date → List Date
drop_past c from [] = []
drop_past c from (due ∷ dates) = if is_past c from due then drop_past c from dates else due ∷ dates

pub some_left : List Date → Result (List Date)
some_left [] = err unsolvable
some_left (due ∷ dates) = ok (due ∷ dates)

unfoldable pub remaining_from : Contract → List Date → Date → Result (List Date)
unfolding drop_past some_left
remaining_from c dates from =
    if is_zero from && is_zero c.not_before_due
    then ok dates
    else some_left (drop_past c from dates)

unfoldable pub remaining_dates : Contract → Date → Result (List Date)
remaining_dates c from = payment_dates c >>= λ dates. remaining_from c dates from

pub record Calendar : Type 0 where
  pub contract : Contract
  pub dates : List Date

unfoldable pub new_calendar : Contract → Result Calendar
new_calendar c = payment_dates c >>= λ dates. ok (record { contract = c; dates = dates })

-- `Calendar.Dates`
unfoldable pub dates_from : Calendar → Date → Result (List Date)
dates_from cal from =
    if length cal.dates == 0 then err unsolvable else remaining_from cal.contract cal.dates from
