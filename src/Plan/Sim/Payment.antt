-- ===== src/Plan/Sim/Payment.antt =====
-- pkg/core/plan/sim.go and spending.go: an optional payment, and the end of a loan.
use marumbot.Money.Accrual.{accrue}
use marumbot.Plan.Fees.{contract_year}
use marumbot.Money.Amount.{add, no_amount, zero_amount, Amount, sub}
use marumbot.Date.Calendar.{Date, before, after, days_between}
use marumbot.Prelude.{
  ℕ, suc, Bool, true, false, not, ◌&&◌, List, [], ◌∷◌, ◌++◌, Option, none, some, Result, ok, err,
  panic, ◌>>=◌, ltb, if◌then◌else◌, text_eq,
}
use marumbot.Prelude.Int.{ℤ, pos, ltb_ℤ, eq_ℤ}
use marumbot.Plan.Input.{Rollover, roll_freed, keep_freed, SpendingPlan, separate_spending}
use marumbot.Plan.Outcome.{Action, ActionKind, extra}
use marumbot.Plan.State.{Sim, LoanState, put_loan, all_closed, or_zero}
use marumbot.Plan.Quote.{Quote}
pub mod Kept

-- `spendPermission`
unfoldable pub spend_permission : Sim → Amount → Result Sim
spend_permission s outflow = add s.period_spent outflow >>= λ spent.
    sub s.period_left outflow >>= λ left. ok (record s { period_spent = spent; period_left = left })

-- The guard of its callers.
unfoldable pub permit : Sim → Amount → Result Sim
permit s outflow = if separate_spending s.input.cash then spend_permission s outflow else ok s

collected : Option (List Action) → Action → Option (List Action)
collected none a = none
collected (some as') a = some (as' ++ (a ∷ []))

-- `action`
unfoldable pub record_action : Sim → LoanState → Date → ActionKind → Amount → Amount → Amount → Sim
unfolding collected
record_action s l on kind amount fee saves =
    let a : Action = record {
      on = on;
      loan_id = l.pos.id;
      loan = l.pos.name;
      kind = kind;
      amount = amount;
      fee = fee;
      saves = saves;
    } in
    record s {
      action_sink = collected s.action_sink a;
      res = record s.res {
        actions = if ltb 1 s.cycle then s.res.actions else s.res.actions ++ (a ∷ []);
      };
    }

keeps_freed : Rollover → Bool
keeps_freed roll_freed = false
keeps_freed keep_freed = true

release_is_confirmed : Option SpendingPlan → Bool
release_is_confirmed none = false
release_is_confirmed (some p) = p.confirmed_release_only

-- The budget once a loan's instalment is free.
pub budget_after : Sim → Amount → Result Amount
unfolding keeps_freed release_is_confirmed
budget_after s freed =
    if keeps_freed s.policy.rollover && not (release_is_confirmed s.input.cash.spending)
    then (sub s.budget freed >>= λ b. ok (if ltb_ℤ b.minor (pos 0) then zero_amount s.cur else b))
    else ok s.budget

-- `close`, of the loan at an index.
unfoldable pub close_loan : Sim → ℕ → LoanState → Date → Result Sim
unfolding budget_after
close_loan s i l on =
    let freed = if eq_ℤ l.carried.minor (pos 0) then l.required else l.carried in
    let s' = put_loan s i (record l {
      closed = true;
      closed_on = on;
      cycle_cleared = true;
      cycle_freed = freed;
      balance = zero_amount s.cur;
    }) in
    let first = text_eq s.res.first_clear [] in
    budget_after s freed >>= λ b. ok (record s' {
      month = record s.month { cleared = l.pos.name };
      budget = b;
      res = record s.res {
        first_clear = if first then l.pos.name else s.res.first_clear;
        first_clear_on = if first then on else s.res.first_clear_on;
        first_clear_at = if first then s.cycle else s.res.first_clear_at;
        first_freed = if first then freed else s.res.first_freed;
        payoff_date = if after on s.res.payoff_date then on else s.res.payoff_date;
        months = if all_closed s'.loans then s.cycle else s.res.months;
      };
    })

-- What the early payment saves. An error leaves the empty amount.
value_or_none : Result Amount → Result Amount
value_or_none (ok a) = ok a
value_or_none (err e) = ok no_amount
value_or_none panic = panic

pub saved_by : Sim → LoanState → Date → Quote → Bool → Result Amount
unfolding value_or_none
saved_by s l on q early =
    let c = l.pos.contract in
    if early && before on l.due
    then value_or_none
        (accrue q.principal c.nominal_rate (days_between on l.due) c.day_count c.rounding)
    else ok (zero_amount s.cur)

-- The allowance with the credit of this payment.
used_allowance : Sim → LoanState → Date → Quote → Result (ℤ → Amount)
used_allowance s l on q =
    let y = contract_year l.pos.contract on in
    add (or_zero s.cur (l.allowance y)) q.principal >>= λ used.
    ok (λ year. if eq_ℤ year y then used else l.allowance year)

-- The running figures of the run and of its month, and the cash.
pub pay_optional : Sim → Quote → Bool → Result Sim
pay_optional s q early = permit s q.outflow >>= λ s'. sub s'.cash q.outflow >>= λ cash.
    sub q.outflow q.fee >>= λ credited. add s'.res.total_paid q.outflow >>= λ total_paid.
    add s'.res.total_fees q.fee >>= λ total_fees. add s'.month.fees q.fee >>= λ fees.
    add s'.month.extra credited >>= λ paid. ok (record s' {
      cash = cash;
      res = record s'.res {
        total_paid = total_paid;
        total_fees = total_fees;
        prepayments = suc s'.res.prepayments;
        timing_credited = if early then true else s'.res.timing_credited;
      };
      month = record s'.month { fees = fees; extra = paid };
    })

-- The figures of the loan.
pub prepaid_loan : Sim → LoanState → Date → Quote → Result LoanState
unfolding used_allowance
prepaid_loan s l on q = add l.cycle_paid q.outflow >>= λ paid. add l.cycle_fees q.fee >>= λ fees.
    sub q.outflow q.fee >>= λ credited. add l.cycle_extra credited >>= λ more.
    used_allowance s l on q >>= λ allowance. sub l.balance q.principal >>= λ balance. ok (record l {
      cycle_paid = paid;
      cycle_fees = fees;
      cycle_extra = more;
      allowance = allowance;
      balance = balance;
    })

-- The end of a payment that closes the loan.
pub settle_closed : Sim → ℕ → LoanState → Date → Quote → Result Sim
settle_closed s i l on q = add s.res.total_interest q.interest >>= λ total.
    add s.month.interest q.interest >>= λ interest.
    close_loan
      (record s {
        res = record s.res { total_interest = total };
        month = record s.month { interest = interest };
      })
      i (record l { accrued = zero_amount s.cur }) on

-- `prepay`, of the loan at an index.
unfoldable pub prepay : Sim → ℕ → LoanState → Date → Quote → Bool → Result Sim
unfolding pay_optional prepaid_loan settle_closed saved_by
prepay s i l on q early = pay_optional s q early >>= λ paid. prepaid_loan s l on q >>= λ l'.
    saved_by s l on q early >>= λ saves.
    let s' = record_action paid l on extra q.outflow q.fee saves in
    if q.closes then settle_closed s' i l' on q else ok (put_loan s' i l')
