-- ===== src/Amortisation/Build.antt =====
-- pkg/core/amortisation/calendar.go: the one place where a contract's way to repay decides how it is
-- projected.
pub mod Agree
use marumbot.Prelude.{Bool, not, ◌&&◌, ◌==◌, if◌then◌else◌, Result, ok, err, ◌>>=◌, unsolvable}
use marumbot.Prelude.Int.{pos, ltb_ℤ}
use marumbot.Money.Amount.{Amount, no_amount}
use marumbot.Date.Calendar.{Date}
use marumbot.Model.Loan.{Contract, RepaymentType, annuity, declining_principal, other_type}
use marumbot.Amortisation.Dates.{Calendar, new_calendar, dates_from}
use marumbot.Amortisation.Rows.{Schedule, Walk}
use marumbot.Amortisation.Level.{check_projection, project}
use marumbot.Amortisation.Declining.{declining_dates, project_declining}
use marumbot.Amortisation.Solve.{solve_on}

-- The outcome with its rows, and the instalment.
pub record Built : Type 0 where
  pub walk : Walk
  pub instalment : Amount

abbrev pub is_stated : Contract → Bool
is_stated c = c.has_scheduled && ltb_ℤ (pos 0) c.scheduled_payment.minor

pub build_declining : Calendar → Amount → Date → Result Built
build_declining cal principal from = declining_dates cal principal from >>= λ dates.
    project_declining cal.contract principal from dates >>= λ w. ok (record {
      walk = w;
      instalment = if w.out.periods == 0 then no_amount else w.out.first_payment;
    })

-- The refusals of a stated instalment that the arithmetic contradicts.
pub accept_stated : Contract → Walk → Result (Unit {0})
accept_stated c w =
    if is_stated c && not (w.out.periods == 0)
    then (if ltb_ℤ w.out.first_principal.minor (pos 0)
        then err unsolvable
        else if ltb_ℤ (pos 0) w.out.final_closing.minor
        then err unsolvable
        else ok tt)
    else ok tt

pub build_level : Calendar → Amount → Date → Result Built
unfolding accept_stated
build_level cal principal from =
    (if is_stated cal.contract
      then ok cal.contract.scheduled_payment
      else solve_on cal principal from)
    >>= λ instalment. check_projection principal instalment >>= λ _.
        dates_from cal from >>= λ dates.
        project cal.contract principal instalment from dates >>= λ w.
        accept_stated cal.contract w >>= λ _. ok (record { walk = w; instalment = instalment })

pub build_as : RepaymentType → Calendar → Amount → Date → Result Built
unfolding build_level build_declining
build_as declining_principal cal principal from = build_declining cal principal from
build_as annuity cal principal from = build_level cal principal from
build_as (other_type n) cal principal from = err unsolvable

-- `Calendar.build`
unfoldable pub build : Calendar → Amount → Date → Result Built
unfolding build_as
build cal principal from = build_as cal.contract.type_of cal principal from

-- The schedule of an outcome with its rows.
abbrev pub shown : Built → Schedule
shown b = record {
  rows = b.walk.rows;
  instalment = b.instalment;
  final_payment = if b.walk.out.periods == 0 then no_amount else b.walk.out.final_payment;
  total_paid = b.walk.out.total_paid;
  total_interest = b.walk.out.total_interest;
}

-- `Calendar.Build`
unfoldable pub build_on : Calendar → Amount → Date → Result Schedule
build_on cal principal from = build cal principal from >>= λ b. ok (shown b)

-- `Build`
unfoldable pub build_contract : Contract → Amount → Date → Result Schedule
build_contract c principal from = new_calendar c >>= λ cal. build_on cal principal from

pub record Obligation : Type 0 where
  pub due : Date
  pub payment : Amount
  pub instalment : Amount

-- `Calendar.Next`
unfoldable pub next : Calendar → Amount → Date → Result Obligation
next cal principal from = build cal principal from >>= λ b.
    if b.walk.out.periods == 0
    then err unsolvable
    else ok (record {
      due = b.walk.out.first_due;
      payment = b.walk.out.first_payment;
      instalment = b.instalment;
    })
