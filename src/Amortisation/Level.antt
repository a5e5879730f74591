-- ===== src/Amortisation/Level.antt =====
-- pkg/core/amortisation/schedule.go: the projection of a level instalment.
pub mod Ends
pub mod Monotone
pub mod Booked
use marumbot.Prelude.{
  ℕ, suc, not, if◌then◌else◌, List, [], ◌∷◌, Result, ok, err, panic, ◌>>=◌, unsolvable,
}
use marumbot.Prelude.Int.{pos, ltb_ℤ, leb_ℤ}
use marumbot.Money.Currency.{currency_eq}
use marumbot.Money.Amount.{Amount, add, sub, cmp}
use marumbot.Money.Accrual.{accrue}
use marumbot.Date.Calendar.{Date, days_between}
use marumbot.Model.Loan.{Contract}
use marumbot.Amortisation.Dates.{Calendar, new_calendar, dates_from}
use marumbot.Amortisation.Rows.{Row, Schedule, Walk, start_walk, close_row}

unfoldable pub check_projection : Amount → Amount → Result (Unit {0})
check_projection principal instalment =
    if ltb_ℤ principal.minor (pos 0)
    then err unsolvable
    else if leb_ℤ instalment.minor (pos 0)
    then err unsolvable
    else if not (currency_eq principal.cur instalment.cur)
    then err unsolvable
    else ok tt

-- One round of the loop of `project`, up to its row.
unfoldable pub level_row : Contract → Amount → ℕ → Date → Walk → Result Row
level_row c instalment n due w =
    let days = days_between w.prev due in
    if ltb_ℤ days (pos 0)
    then err unsolvable
    else (accrue w.balance c.nominal_rate days c.day_count c.rounding >>= λ interest.
        add w.balance interest >>= λ owed. cmp instalment owed >>= λ order.
        let pay = if leb_ℤ (pos 0) order then owed else instalment in
        sub pay interest >>= λ part. sub w.balance part >>= λ closing. ok (record {
          n = n;
          due = due;
          days = days;
          opening = w.balance;
          interest = interest;
          principal = part;
          payment = pay;
          closing = closing;
        }))

pub level_rows : Contract → Amount → List Date → ℕ → Walk → Result Walk
level_rows c instalment [] n w = ok w
level_rows c instalment (due ∷ dates) n w =
    if leb_ℤ w.balance.minor (pos 0)
    then ok w
    else (level_row c instalment n due w >>= λ row.
        close_row w row >>= λ next. level_rows c instalment dates (suc n) next)

unfoldable pub project : Contract → Amount → Amount → Date → List Date → Result Walk
unfolding level_rows
project c principal instalment from dates =
    level_rows c instalment dates 1 (start_walk c principal from)

abbrev pub schedule_of : Amount → Walk → Schedule
schedule_of instalment w = record {
  rows = w.rows;
  instalment = instalment;
  final_payment = w.out.final_payment;
  total_paid = w.out.total_paid;
  total_interest = w.out.total_interest;
}

-- `Calendar.Project`
unfoldable pub project_on : Calendar → Amount → Amount → Date → Result Schedule
project_on cal principal instalment from = check_projection principal instalment >>= λ _.
    dates_from cal from >>= λ dates.
    project cal.contract principal instalment from dates >>= λ w. ok (schedule_of instalment w)

-- `Project`: the error of the arguments comes before that of the calendar.
project_with : Result Calendar → Amount → Amount → Date → Result Schedule
project_with (ok cal) principal instalment from = project_on cal principal instalment from
project_with (err e) principal instalment from =
    check_projection principal instalment >>= λ _. err e
project_with panic principal instalment from = panic

unfoldable pub project_contract : Contract → Amount → Amount → Date → Result Schedule
unfolding project_with
project_contract c principal instalment from =
    project_with (new_calendar c) principal instalment from
