-- ===== src/Amortisation/Declining.antt =====
-- pkg/core/amortisation/declining.go: the projection of equal parts of the principal.
pub mod Booked
pub mod Total
use marumbot.Prelude.{
  ℕ, suc, Bool, true, false, not, ◌&&◌, ◌==◌, if◌then◌else◌, List, [], ◌∷◌, length, Result, ok, err,
  panic, ◌>>=◌, unsolvable,
}
use marumbot.Prelude.Int.{pos, pos_part, ◌*ℤ◌, quot_ℤ, ltb_ℤ, leb_ℤ, eq_ℤ}
use marumbot.Prelude.Int64.{wrap64}
use marumbot.Money.Amount.{Amount, from_minor, add, sub, cmp, no_amount}
use marumbot.Money.Rounding.{unit_of}
use marumbot.Money.Accrual.{accrue}
use marumbot.Date.Calendar.{Date, days_between, is_zero, equal}
use marumbot.Model.Loan.{Contract}
use marumbot.Amortisation.Dates.{Calendar, new_calendar, dates_from}
use marumbot.Amortisation.Rows.{Row, Schedule, Walk, start_walk, close_row}

abbrev pub is_last : List Date → Bool
is_last [] = true
is_last (due ∷ dates) = false

-- What comes off the balance in one round.
pub part_of : Amount → Amount → Bool → Result Amount
part_of balance per last =
    if last
    then ok balance
    else (cmp balance per >>= λ order. ok (if ltb_ℤ order (pos 0) then balance else per))

-- The comparison with the instalment that the bank has stated for one date.
pub check_stated : Contract → Date → Amount → Result (Unit {0})
check_stated c due payment =
    if c.has_scheduled && not (is_zero c.not_before_due) && equal due c.not_before_due
    then (cmp payment c.scheduled_payment >>= λ order.
        if eq_ℤ order (pos 0) then ok tt else err unsolvable)
    else ok tt

-- One round of the loop of `projectDeclining`, up to its row.
unfoldable pub declining_row : Contract → Amount → ℕ → Date → Bool → Walk → Result Row
unfolding part_of check_stated
declining_row c per n due last w =
    let days = days_between w.prev due in
    if ltb_ℤ days (pos 0)
    then err unsolvable
    else (accrue w.balance c.nominal_rate days c.day_count c.rounding >>= λ interest.
        part_of w.balance per last >>= λ part. add part interest >>= λ payment.
        check_stated c due payment >>= λ _. sub w.balance part >>= λ closing. ok (record {
          n = n;
          due = due;
          days = days;
          opening = w.balance;
          interest = interest;
          principal = part;
          payment = payment;
          closing = closing;
        }))

pub declining_rows : Contract → Amount → List Date → ℕ → Walk → Result Walk
declining_rows c per [] n w = ok w
declining_rows c per (due ∷ dates) n w = declining_row c per n due (is_last dates) w >>= λ row.
    close_row w row >>= λ next.
    if eq_ℤ next.balance.minor (pos 0) then ok next else declining_rows c per dates (suc n) next

-- `principal.Minor()/n/unit*unit`, for n dates.
abbrev pub per_period : Contract → Amount → ℕ → Amount
per_period c principal n =
    let unit = pos_part (unit_of c.rounding) in
    from_minor (wrap64 (quot_ℤ (quot_ℤ principal.minor n) unit *ℤ pos unit)) principal.cur

-- Without a date the division by their number panics.
unfoldable pub project_declining : Contract → Amount → Date → List Date → Result Walk
unfolding declining_rows
project_declining c principal from dates =
    if length dates == 0
    then panic
    else declining_rows c (per_period c principal (length dates)) dates 1
        (start_walk c principal from)

-- `Calendar.decliningDates`
unfoldable pub declining_dates : Calendar → Amount → Date → Result (List Date)
declining_dates cal principal from =
    if leb_ℤ principal.minor (pos 0) then err unsolvable else dates_from cal from

-- The schedule of an outcome; without a row its first and last payments stay `Amount{}`.
abbrev pub declining_schedule : Walk → Schedule
declining_schedule w = record {
  rows = w.rows;
  instalment = if w.out.periods == 0 then no_amount else w.out.first_payment;
  final_payment = if w.out.periods == 0 then no_amount else w.out.final_payment;
  total_paid = w.out.total_paid;
  total_interest = w.out.total_interest;
}

-- `Calendar.ProjectDeclining`
unfoldable pub project_declining_on : Calendar → Amount → Date → Result Schedule
project_declining_on cal principal from = declining_dates cal principal from >>= λ dates.
    project_declining cal.contract principal from dates >>= λ w. ok (declining_schedule w)

-- `ProjectDeclining`
declining_with : Result Calendar → Amount → Date → Result Schedule
declining_with (ok cal) principal from = project_declining_on cal principal from
declining_with (err e) principal from =
    if leb_ℤ principal.minor (pos 0) then err unsolvable else err e
declining_with panic principal from = panic

unfoldable pub declining_contract : Contract → Amount → Date → Result Schedule
unfolding declining_with
declining_contract c principal from = declining_with (new_calendar c) principal from
