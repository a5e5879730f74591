-- ===== src/Plan/Sim/Events.antt =====
-- pkg/core/plan/sim.go and cash_routing.go: what a receipt and an instalment do to the run.
pub mod Kept
use marumbot.Prelude.{
  Bool, ℕ, zero, suc, false, not, ◌&&◌, List, [], ◌∷◌, Option, none, some, Result, ok, err, panic,
  infeasible, ◌>>=◌, ltb, if◌then◌else◌, Text, text_eq,
}
use marumbot.Prelude.Int.{pos, ltb_ℤ, leb_ℤ, eq_ℤ}
use marumbot.Date.Calendar.{Date, before, after, equal, is_zero}
use marumbot.Money.Amount.{Amount, add, sub, zero_amount}
use marumbot.Amortisation.Dates.{new_calendar, dates_from}
use marumbot.Plan.Rules.{carry_to_date, no_carry}
use marumbot.Plan.Period.{period_start, period_end}
use marumbot.Plan.Input.{
  CashEvent, CashRouting, SpendingChange, SpendingPlan, separate_spending, month_key,
}
use marumbot.Plan.Outcome.{instalment}
use marumbot.Plan.State.{Sim, LoanState, put_loan, loan_at, smaller, least, ym}
use marumbot.Plan.Obligation.{refresh}
use marumbot.Plan.Quote.{quote, accrue_to}
use marumbot.Plan.Sim.Payment.{permit, record_action, close_loan, prepay}
use marumbot.Plan.Sim.Reserve.{reserved, optional_cash}
use marumbot.Plan.Sim.Allocate.{allocate, route_cash}
use marumbot.Plan.Sim.Cycle.{override_or, open_cycle, open_first, close_cycle, receive, income}
use marumbot.Plan.Sim.Routed.{add_routed}

pub lump_at : List CashEvent → ℕ → Result CashEvent
lump_at [] i = panic
lump_at (e ∷ es) zero = ok e
lump_at (e ∷ es) (suc i) = lump_at es i

unfoldable pub without : List CashEvent → ℕ → List CashEvent
without [] i = []
without (e ∷ es) zero = es
without (e ∷ es) (suc i) = e ∷ without es i

-- What an event of the day adds: to the pool, or to the buckets.
unfoldable pub receive_event : Sim → CashEvent → Option CashRouting → Result Sim
receive_event s e none = add s.inflow e.amount >>= λ inflow.
    add s.cash e.amount >>= λ cash. ok (record s { inflow = inflow; cash = cash })
receive_event s e (some r) =
    add s.inflow e.amount >>= λ inflow. add_routed (record s { inflow = inflow }) e

-- The loop over the events: the state, and those of other days.
unfoldable pub receive_events : Sim → Date → List CashEvent → Result (Sim × List CashEvent)
unfolding receive_event
receive_events s on [] = ok (s, [])
receive_events s on (e ∷ es) =
    if equal e.on on
    then (receive_event s e e.routing >>= λ s'. receive_events s' on es)
    else (receive_events s on es >>= λ r. ok (r.0, e ∷ r.1))

-- `receiveRoutedDate`
unfoldable pub receive_routed_date : Sim → Date → Result Sim
unfolding receive_events
receive_routed_date s on =
    receive_events (open_first s on) on s.lumps >>= λ r. allocate (record r.0 { lumps = r.1 }) on

-- `lump`
unfoldable pub lump : Sim → ℕ → Result Sim
unfolding lump_at without
lump s i = lump_at s.lumps i >>= λ e.
    if s.has_routing
    then receive_routed_date s e.on
    else (receive (open_first (record s { lumps = without s.lumps i }) e.on) e.amount >>= λ s'.
        allocate s' e.on)

pub refresh_at : Sim → ℕ → LoanState → Result Sim
refresh_at s i l = refresh l >>= λ l'. ok (put_loan s i l')

-- What is due: all that is owed once no date is left, and never more than that.
pub required_on : LoanState → Amount → Result (List Date) → Result Amount
required_on l owed (ok dates) = least l.required owed
required_on l owed (err e) = least owed owed
required_on l owed panic = panic

-- The two refusals of an instalment that cannot be paid.
pub check_feasible : Sim → Amount → Result (Unit {0})
check_feasible s required =
    (if separate_spending s.input.cash then smaller s.period_left required else ok false)
    >>= λ over.
        if over
        then err infeasible
        else (smaller s.cash required >>= λ short. if short then err infeasible else ok tt)

-- The figures of the run and of the month, and the cash.
pub pay_required : Sim → Amount → Amount → Result Sim
pay_required s required interest = permit s required >>= λ s'. sub s'.cash required >>= λ cash.
    add s'.res.total_interest interest >>= λ total_interest.
    add s'.res.total_paid required >>= λ total_paid.
    add s'.month.interest interest >>= λ month_interest.
    add s'.month.required required >>= λ month_required. ok (record s' {
      cash = cash;
      res = record s'.res { total_interest = total_interest; total_paid = total_paid };
      month = record s'.month { interest = month_interest; required = month_required };
    })

-- The figures of the loan.
pub paid_loan : Sim → LoanState → Amount → Result LoanState
paid_loan s l required = add l.cycle_paid required >>= λ paid.
    sub required l.accrued >>= λ principal. sub l.balance principal >>= λ balance.
    ok (record l { cycle_paid = paid; balance = balance; accrued = zero_amount s.cur })

-- The payment of the money that was held for the date, and the next obligation.
pub pay_wanted : Sim → ℕ → LoanState → Date → Amount → Result Sim
unfolding refresh_at
pay_wanted s i l on want = quote s.cur l on want >>= λ answer.
    let s' = put_loan s i answer.0 in
    if leb_ℤ answer.1.outflow.minor (pos 0)
    then refresh_at s' i answer.0
    else (prepay s' i answer.0 on answer.1 false >>= λ s''.
        loan_at s'' i >>= λ l'. if l'.closed then ok s'' else refresh_at s'' i l')

pub pay_held : Sim → ℕ → LoanState → Date → Result Sim
unfolding pay_wanted
pay_held s i l on =
    let l' = record l { pending = zero_amount s.cur } in
    let s' = put_loan s i l' in
    if leb_ℤ l.pending.minor (pos 0)
    then refresh_at s i l
    else ((if separate_spending s.input.cash then optional_cash s' on else ok s'.cash) >>= λ free.
        least l.pending free >>= λ want.
        if leb_ℤ want.minor (pos 0) then ok s' else pay_wanted s' i l' on want)

-- What follows the instalment.
pub after_due : Sim → ℕ → LoanState → Date → Result Sim
unfolding pay_held
after_due s i l on =
    if leb_ℤ l.balance.minor (pos 0)
    then close_loan s i l on
    else ((if separate_spending s.input.cash then refresh l else ok l) >>= λ l'.
        pay_held (put_loan s i l') i l' on)

-- The instalment, once the month's income is in.
pub settle_due : Sim → ℕ → LoanState → Date → Result Sim
unfolding required_on check_feasible pay_required paid_loan after_due
settle_due s i l on = add l.balance l.accrued >>= λ owed. new_calendar l.pos.contract >>= λ cal.
    required_on l owed (dates_from cal on) >>= λ required. check_feasible s required >>= λ _.
    pay_required s required l.accrued >>= λ s'. paid_loan s l required >>= λ l'.
    let none_yet = zero_amount s.cur in
    after_due (put_loan (record_action s' l on instalment required none_yet none_yet) i l') i l' on

-- `due`, before the routing that it defers.
pub due_body : Sim → ℕ → Date → Result Sim
unfolding settle_due
due_body s i on =
    (if eq_ℤ s.input.cash.pay_day (pos 0) && not (eq_ℤ (ym on) s.income_ym)
      then income s on
      else ok s)
    >>= λ s'.
        let opened = open_first s' on in
        loan_at opened i >>= λ l. accrue_to l on >>= λ l'. settle_due opened i l' on

-- `due`, of the loan at an index.
unfoldable pub due : Sim → ℕ → Date → Result Sim
unfolding due_body
due s i on = due_body s i on >>= λ s'. route_cash s' on (some i)
