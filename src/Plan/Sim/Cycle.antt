-- ===== src/Plan/Sim/Cycle.antt =====
-- pkg/core/plan/sim.go: the cycles of the report, and the income that opens them.
pub mod Kept
use marumbot.Prelude.{
  suc, false, not, ◌&&◌, ◌||◌, ◌==◌, List, [], ◌∷◌, ◌++◌, Option, none, some, Result, ok, ◌>>=◌,
  ltb, if◌then◌else◌,
}
use marumbot.Prelude.Int.{ℤ, pos, ltb_ℤ, leb_ℤ, eq_ℤ}
use marumbot.Date.Calendar.{Date, before, after, equal, is_zero, no_date, add_days}
use marumbot.Date.Schedule.{add_months, on_day_of_month}
use marumbot.Money.Amount.{Amount, add, cmp, zero_amount}
use marumbot.Plan.Input.{PlanInput, separate_spending, month_key}
use marumbot.Plan.Outcome.{MonthLoan, no_month}
use marumbot.Plan.State.{Sim, LoanState, restricted_cash, ym}
use marumbot.Plan.Sim.Allocate.{allocate}

opened_loans : Amount → List LoanState → List LoanState
opened_loans none_yet [] = []
opened_loans none_yet (l ∷ ls) =
    record l {
      cycle_paid = none_yet;
      cycle_extra = none_yet;
      cycle_cleared = false;
      cycle_fees = none_yet;
    }
    ∷ opened_loans none_yet ls

-- `openCycle`
unfoldable pub open_cycle : Sim → Date → Sim
unfolding opened_loans
open_cycle s on =
    let none_yet = zero_amount s.cur in
    record s {
      cycle = suc s.cycle;
      cycle_income = on;
      month = record no_month {
        month = suc s.cycle;
        on = on;
        required = none_yet;
        extra = none_yet;
        fees = none_yet;
        interest = none_yet;
        owed = none_yet;
        cash = none_yet;
      };
      loans = opened_loans none_yet s.loans;
    }

-- The guard of its callers: a first event opens the first cycle.
unfoldable pub open_first : Sim → Date → Sim
open_first s on = if s.cycle == 0 then open_cycle s on else s

sum_owed : List LoanState → Amount → Result Amount
sum_owed [] owed = ok owed
sum_owed (l ∷ ls) owed =
    if l.closed then sum_owed ls owed else (add owed l.balance >>= λ sum. sum_owed ls sum)

-- The rows of the month: a loan that was paid off long since has none.
month_rows : List LoanState → List MonthLoan
month_rows [] = []
month_rows (l ∷ ls) =
    if leb_ℤ l.cycle_paid.minor (pos 0) && l.closed && not l.cycle_cleared
    then month_rows ls
    else record {
      fees = l.cycle_fees;
      id = l.pos.id;
      name = l.pos.name;
      paid = l.cycle_paid;
      extra = l.cycle_extra;
      owed = l.balance;
      cleared = l.cycle_cleared;
      freed = l.cycle_freed;
    }
      ∷ month_rows ls

-- `closeCycle`
unfoldable pub close_cycle : Sim → Result Sim
unfolding sum_owed month_rows
close_cycle s = sum_owed s.loans (zero_amount s.cur) >>= λ owed. restricted_cash s >>= λ restricted.
    add s.cash restricted >>= λ cash. cmp s.month.required s.res.peak_required >>= λ order.
    let month = record s.month {
      owed = owed;
      cash = cash;
      loans = s.month.loans ++ month_rows s.loans;
    } in
    ok (record s {
      month = month;
      res = record s.res {
        timeline = s.res.timeline ++ (month ∷ []);
        next_month_owed = if s.cycle == 1 then owed else s.res.next_month_owed;
        peak_required = if ltb_ℤ (pos 0) order then s.month.required else s.res.peak_required;
        final_required =
            if ltb_ℤ (pos 0) s.month.required.minor then s.month.required else s.res.final_required;
      };
    })

-- `firstIncome`: the nominal date and the date of receipt, or nothing without a pay day.
unfoldable pub first_income : PlanInput → ℤ → Option (Date × Date)
first_income input delay =
    let c = input.cash in
    let d = on_day_of_month input.valuation_date c.pay_day in
    let first =
      if before d input.valuation_date
        || (not (is_zero c.cash_through) && not (after d c.cash_through))
      then on_day_of_month (add_months input.valuation_date (pos 1)) c.pay_day
      else d in
    if eq_ℤ c.pay_day (pos 0) then none else some (first, add_days first delay)

-- `incomeAfter`
unfoldable pub income_after : Sim → Date → Sim
income_after s on =
    let c = s.input.cash in
    let d = if eq_ℤ s.income_delay_days (pos 0) then on else s.nominal_income in
    let nominal = on_day_of_month (add_months d (pos 1)) c.pay_day in
    record s {
      next_income =
          if eq_ℤ c.pay_day (pos 0) then no_date else add_days nominal s.income_delay_days;
      nominal_income = if eq_ℤ c.pay_day (pos 0) then s.nominal_income else nominal;
    }

unfoldable pub override_or : Option Amount → Amount → Amount
override_or none usual = usual
override_or (some a) usual = a

-- `credit`
unfoldable pub credit : Sim → Date → Amount
unfolding override_or
credit s on =
    let c = s.input.cash in
    let of = if eq_ℤ s.income_delay_days (pos 0) then on else s.nominal_income in
    override_or (c.monthly_overrides (month_key of))
      (if separate_spending c then c.monthly else s.budget)

-- The cycle that an income closes, and the one that it opens.
pub turn_cycle : Sim → Date → Result Sim
turn_cycle s on =
    let turns = not (separate_spending s.input.cash) && not (equal s.cycle_income on) in
    (if turns && ltb 0 s.cycle then close_cycle s else ok s) >>= λ s'.
    ok (if s'.cycle == 0 || turns then open_cycle s' on else s')

-- An amount that comes in: cash, and the record of it.
unfoldable pub receive : Sim → Amount → Result Sim
receive s a = add s.cash a >>= λ cash.
    add s.inflow a >>= λ inflow. ok (record s { cash = cash; inflow = inflow })

-- `income`
unfoldable pub income : Sim → Date → Result Sim
unfolding turn_cycle
income s on = turn_cycle s on >>= λ s'. receive s' (credit s' on) >>= λ s''.
    allocate (record (income_after s'' on) { income_ym = ym on }) on
