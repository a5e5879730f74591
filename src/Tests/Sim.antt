-- ===== src/Tests/Sim.antt =====
-- A run of pkg/core/plan on one loan, with a receipt that is meant for it.
use marumbot.Prelude.{
  All, err, arith, text_eq, refl, panic, ok, ◌≡◌, false, ℕ, [], ◌∷◌, none, some, codes, Result,
  Ensures,
}
use marumbot.Plan.Sim.Accepted.Splits.{IsRouted, validate_cash_routing-IsRouted}
use mathlib.Core.List.{Perm}
use marumbot.Plan.Strategy.{snowball}
use marumbot.Plan.Strategy.Order.{strategy_order}
use marumbot.Plan.Strategy.Complete.{strategy_order-perm, count_from}
use marumbot.Plan.Normalise.{normalise_position}
use marumbot.Plan.Normalise.Current.{IsCurrent, normalise_position-IsCurrent}
use marumbot.Plan.State.{
  restricted_cash, least, smaller, LoanState, sum_remaining, Sim, element, replaced, all_closed,
}
use marumbot.Plan.Sim.Payment.{close_loan, record_action, spend_permission, permit, prepay}
use marumbot.Plan.Fees.{contract_year, charge}
use marumbot.Plan.Quote.{accrue_to, quote_accrued, quote}
use marumbot.Plan.Sim.Reserve.{waits, reserved, optional_cash}
use marumbot.Plan.Sim.Allocate.{route_cash, allocate, reduces_principal}
use marumbot.Plan.Sim.Cycle.{open_cycle, open_first, first_income}
use marumbot.Plan.Sim.Events.{without, receive_events, receive_event, receive_routed_date, lump}
use marumbot.Plan.Sim.Run.{consider, next_event, here, further, credits, debits, step}
use marumbot.Plan.Sim.Routed.{add_routed}
use marumbot.Date.Schedule.{occurrence, on_day_of_month, shift, add_months}
use marumbot.Prelude.Int.{◌*ℤ◌, ◌-ℤ◌, ◌+ℤ◌, pos}
use marumbot.Prelude.Int64.{wrap64}
use marumbot.Date.Calendar.{
  is_leap_year, days_in_month, ordinal, days_between, add_days, previous_day, next_day,
  compare_date, Date, date, no_date, before, after,
}
use marumbot.Money.Amount.{same_code, cmp, sub, add, Amount, amount}
use marumbot.Money.Rounding.{round_quotient}
use marumbot.Money.Accrual.{mul_no_overflow, accrue, quantise}
use marumbot.Amortisation.Level.{check_projection, level_row, project}
use marumbot.Amortisation.Rows.{close_row}
use marumbot.Amortisation.Build.{build, next}
use marumbot.Amortisation.Dates.{remaining_from, dates_from, payment_dates, new_calendar}
use marumbot.Plan.Sim.Start.{empty_run, start}
use marumbot.Plan.Obligation.{next_obligation, refresh}
use marumbot.Model.Loan.{Contract, borrower_chooses, shorten_term}
use marumbot.Allocation.{reduce_principal}
use marumbot.Plan.Input.{
  PlanInput, PlanPolicy, Position, CashEvent, CashRouting, on_receipt, roll_freed,
}
use marumbot.Plan.Sim.Accepted.{validate_cash_routing}
use marumbot.Money.Currency.{currency_eq}
use marumbot.Plan.Sim.Run.Balanced.{credits-debits}
use marumbot.Tests.Money.{amd}
use marumbot.Tests.Loans.{contract}

abbrev drams : ℕ → Amount
drams n = amount (pos n) amd

abbrev new_year : Date
new_year = date (pos 2024) (pos 1) (pos 1)

abbrev terms : Contract
terms = record contract {
  maturity_date = date (pos 2024) (pos 3) (pos 31);
  scheduled_payment = drams 51000;
}

abbrev loan : Position
loan = record {
  id = codes "loan";
  name = codes "loan";
  contract = terms;
  balance = drams 100000;
  from = new_year;
  excess = reduce_principal;
  trust = [];
  optional_excluded = false;
}

abbrev routing : CashRouting
routing = record {
  loan_id = [];
  splits = record { loan_id = codes "loan"; amount = drams 5000 } ∷ [];
  hold_until = no_date;
  hold_minimum = drams 0;
}

abbrev receipt : CashEvent
receipt = record {
  id = codes "gift";
  routing = some routing;
  from_opening = false;
  on = new_year;
  amount = drams 5000;
  expected = false;
}

abbrev plan_input : PlanInput
plan_input = record {
  valuation_date = new_year;
  cash = record {
    cash_through = no_date;
    spending = none;
    monthly = drams 60000;
    pay_day = pos 1;
    opening_cash = drams 20000;
    reserve_floor = drams 1000;
    lumps = receipt ∷ [];
    monthly_overrides = λ month. none;
  };
  loans = loan ∷ [];
  horizon = pos 0;
}

abbrev plan_policy : PlanPolicy
plan_policy = record {
  required_only = false;
  name = codes "order";
  order = pos 0 ∷ [];
  timing = on_receipt ∷ [];
  effect = borrower_chooses ∷ [];
  rollover = roll_freed;
  min_prepay = drams 0;
}

abbrev first : Result Sim
first = start plan_input plan_policy none (pos 0)

-- The loan at the start of the run.
abbrev one_loan : LoanState
one_loan = record {
  pos = loan;
  effect = shorten_term;
  timing = on_receipt;
  balance = drams 100000;
  accrued = drams 0;
  from = new_year;
  carried = drams 51000;
  due = date (pos 2024) (pos 2) (pos 5);
  required = drams 51000;
  pending = drams 0;
  allowance = λ year. drams 0;
  closed = false;
  closed_on = no_date;
  cycle_paid = drams 0;
  cycle_extra = drams 0;
  cycle_fees = drams 0;
  cycle_cleared = false;
  cycle_freed = drams 0;
}

-- The state of a run, and any state where there is none.
abbrev state_of : Result Sim → Sim
state_of (ok s) = s
state_of (err e) = empty_run plan_input plan_policy none (pos 0) []
state_of panic = empty_run plan_input plan_policy none (pos 0) []

-- The run, its first step and the two sides of the identity behind it.
one_step :
    (first ≡ ok (state_of first))
    × (all_closed (state_of first).loans ≡ false)
    × (step (state_of first) ≡ ok (state_of (step (state_of first))))
    × (credits (state_of (step (state_of first))) ≡ ok (drams 25000))
    × (debits (state_of (step (state_of first))) ≡ ok (drams 25000))
unfolding all_closed element replaced empty_run start refresh next_obligation new_calendar
    payment_dates dates_from remaining_from next build project level_row close_row check_projection
    accrue mul_no_overflow round_quotient add sub cmp same_code compare_date before after next_day
    previous_day add_days days_between ordinal days_in_month is_leap_year text_eq wrap64 ◌+ℤ◌ ◌-ℤ◌
    ◌*ℤ◌ first_income shift on_day_of_month occurrence add_routed step next_event consider lump
    receive_routed_date receive_event receive_events without open_first open_cycle allocate
    route_cash optional_cash reserved waits smaller least quote quote_accrued accrue_to charge
    contract_year prepay permit spend_permission record_action close_loan restricted_cash credits
    debits sum_remaining add_months currency_eq quantise
one_step = (refl, refl, refl, refl, refl)

receipts_accepted : validate_cash_routing plan_input ≡ ok tt
unfolding validate_cash_routing reduces_principal currency_eq text_eq add cmp same_code compare_date
    before wrap64 ◌+ℤ◌
receipts_accepted = refl

credits-debits_example : (drams 25000).minor ≡ (drams 25000).minor
credits-debits_example =
    credits-debits plan_input plan_policy none (pos 0) (state_of first)
      (state_of (step (state_of first))) receipts_accepted one_step.0
      (further _ _ here one_step.1 one_step.2) (drams 25000) (drams 25000) one_step.3 one_step.4

validate_cash_routing-IsRouted_example :
    Ensures (λ _. All (IsRouted amd) plan_input.cash.lumps) (validate_cash_routing plan_input)
validate_cash_routing-IsRouted_example =
    validate_cash_routing-IsRouted plan_input (((omega arith, omega arith), tt), tt)

-- In March the instalment of February is taken as paid.
abbrev in_march : Date
in_march = date (pos 2024) (pos 3) (pos 1)

normalise_position-IsCurrent_example :
    Ensures (IsCurrent in_march loan 3) (normalise_position in_march loan)
normalise_position-IsCurrent_example = normalise_position-IsCurrent in_march loan

strategy_order-perm_example :
    Ensures (λ order. Perm order (0 ∷ [])) (strategy_order plan_input snowball [])
unfolding count_from
strategy_order-perm_example = strategy_order-perm plan_input snowball []
