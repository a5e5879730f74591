-- ===== src/Plan/Sim/Start.antt =====
-- pkg/core/plan/sim.go: the state that a run starts from.
pub mod Opening
use marumbot.Prelude.{
  Bool, true, false, not, ◌&&◌, ◌==◌, List, [], ◌∷◌, ◌++◌, Option, none, some, Result, ok, err,
  panic, invalid_plan, ◌>>=◌, if◌then◌else◌, length,
}
use marumbot.Prelude.Int.{ℤ, pos, leb_ℤ, eq_ℤ}
use marumbot.Money.Amount.{Amount, sub, no_amount, zero_amount}
use marumbot.Money.Currency.{Currency}
use marumbot.Date.Calendar.{Date, is_zero, no_date}
use marumbot.Model.Loan.{PrepaymentEffect, borrower_chooses, shorten_term, reduce_instalment}
use marumbot.Plan.Input.{
  PlanInput, PlanPolicy, Position, Timing, CashEvent, CashRouting, SpendingPlan, separate_spending,
}
use marumbot.Plan.Outcome.{Action, PlanResult, no_month}
use marumbot.Plan.State.{Sim, LoanState, or_zero, ym}
use marumbot.Plan.Obligation.{refresh}
use marumbot.Plan.Sim.Cycle.{first_income}
use marumbot.Plan.Sim.Routed.{add_routed}

-- The effect of a prepayment: the contract's, then the policy's, then a shorter term.
effect_of : PrepaymentEffect → PrepaymentEffect → PrepaymentEffect
effect_of borrower_chooses borrower_chooses = shorten_term
effect_of borrower_chooses shorten_term = shorten_term
effect_of borrower_chooses reduce_instalment = reduce_instalment
effect_of shorten_term chosen = shorten_term
effect_of reduce_instalment chosen = reduce_instalment

-- A loan before its first obligation is known.
fresh_loan : Currency → Position → Timing → PrepaymentEffect → LoanState
unfolding effect_of
fresh_loan cur p timing chosen = record {
  pos = p;
  effect = effect_of p.contract.prepayment.effect chosen;
  timing = timing;
  balance = p.balance;
  accrued = zero_amount cur;
  from = p.from;
  carried = zero_amount cur;
  due = no_date;
  required = no_amount;
  pending = zero_amount cur;
  allowance = λ year. no_amount;
  closed = false;
  closed_on = no_date;
  cycle_paid = no_amount;
  cycle_extra = no_amount;
  cycle_fees = no_amount;
  cycle_cleared = false;
  cycle_freed = no_amount;
}

start_loan : Currency → Position → Timing → PrepaymentEffect → Result LoanState
unfolding fresh_loan
start_loan cur p timing chosen =
    let l = fresh_loan cur p timing chosen in
    if leb_ℤ p.balance.minor (pos 0)
    then ok (record l { closed = true; closed_on = p.from })
    else refresh l

-- The loop over the positions; the policy has been found to cover them.
pub start_loans :
    Currency → List Position → List Timing → List PrepaymentEffect → Result (List LoanState)
unfolding start_loan
start_loans cur [] ts es = ok []
start_loans cur (p ∷ ps) [] es = panic
start_loans cur (p ∷ ps) (t ∷ ts) [] = panic
start_loans cur (p ∷ ps) (t ∷ ts) (e ∷ es) =
    start_loan cur p t e >>= λ l. start_loans cur ps ts es >>= λ ls. ok (l ∷ ls)

pub is_routed : Option CashRouting → Bool
is_routed none = false
is_routed (some r) = true

-- One event of the input: retained cash, an event to come, or one that is only expected.
pub start_lump : Sim → CashEvent → Result Sim
unfolding is_routed
start_lump s e =
    let s' = record s { has_routing = if is_routed e.routing then true else s.has_routing } in
    if e.from_opening
    then (sub s'.cash e.amount >>= λ cash. add_routed (record s' { cash = cash }) e)
    else ok (record s' { lumps = if e.expected then s'.lumps else s'.lumps ++ (e ∷ []) })

pub start_lumps : Sim → List CashEvent → Result Sim
unfolding start_lump
start_lumps s [] = ok s
start_lumps s (e ∷ es) = start_lump s e >>= λ s'. start_lumps s' es

-- `Result`, before anything has happened.
no_result : PlanPolicy → Currency → PlanResult
no_result policy cur = record {
  household_cash = zero_amount cur;
  policy = policy;
  payoff_date = no_date;
  months = 0;
  total_interest = zero_amount cur;
  total_fees = zero_amount cur;
  total_paid = zero_amount cur;
  next_month_owed = zero_amount cur;
  first_clear = [];
  first_clear_on = no_date;
  first_clear_at = 0;
  first_freed = zero_amount cur;
  actions = [];
  timeline = [];
  peak_required = zero_amount cur;
  final_required = zero_amount cur;
  prepayments = 0;
  timing_credited = false;
  assumed = λ id. pos 0;
}

spending_budget : Amount → Option SpendingPlan → Amount
spending_budget monthly none = monthly
spending_budget monthly (some p) = p.monthly

-- The state with its loans, before the events of the input.
unfoldable pub empty_run : PlanInput → PlanPolicy → Option (List Action) → ℤ → List LoanState → Sim
unfolding no_result spending_budget
empty_run input policy sink delay loans =
    let cur = input.cash.monthly.cur in
    record {
      income_delay_days = delay;
      nominal_income = no_date;
      cash_buckets = [];
      has_routing = false;
      action_sink = sink;
      input = input;
      policy = policy;
      cur = cur;
      loans = loans;
      cash = or_zero cur input.cash.opening_cash;
      budget = spending_budget input.cash.monthly input.cash.spending;
      res = no_result policy cur;
      cycle = 0;
      cycle_income = no_date;
      next_income = no_date;
      income_ym = pos 0;
      month = no_month;
      lumps = [];
      inflow = zero_amount cur;
      next_period = no_date;
      period_left = no_amount;
      period_start = no_date;
      period_spent = no_amount;
      carry_rule = [];
      carry_minimum = no_amount;
      carry_until = no_date;
    }

pub dated : Sim → Option (Date × Date) → Sim
dated s none = s
dated s (some d) = record s { nominal_income = d.0; next_income = d.1 }

-- The dates of the first events.
pub with_dates : Sim → Sim
unfolding dated
with_dates s =
    let c = s.input.cash in
    dated
      (record s {
        next_period = if separate_spending c then s.input.valuation_date else s.next_period;
        income_ym =
            if eq_ℤ c.pay_day (pos 0) && not (is_zero c.cash_through)
            then ym c.cash_through
            else s.income_ym;
      })
      (first_income s.input s.income_delay_days)

-- `runConfigured`, from the input that `Validate` has accepted up to its loop.
unfoldable pub start : PlanInput → PlanPolicy → Option (List Action) → ℤ → Result Sim
unfolding start_loans start_lumps empty_run with_dates
start input policy sink delay =
    let n = length input.loans in
    if not (length policy.order == n && length policy.timing == n && length policy.effect == n)
    then err invalid_plan
    else (start_loans input.cash.monthly.cur input.loans policy.timing policy.effect >>= λ loans.
        start_lumps (empty_run input policy sink delay loans) input.cash.lumps >>= λ s.
        ok (with_dates s))
