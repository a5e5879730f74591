-- ===== src/Plan/Outcome.antt =====
-- pkg/core/plan/result.go: what a run of one policy produces.
use marumbot.Prelude.Int.{ℤ}
use marumbot.Prelude.{Bool, List, [], Text, ℕ}
use marumbot.Plan.Input.{PlanPolicy}
use marumbot.Date.Calendar.{no_date, Date}
use marumbot.Money.Amount.{Amount, no_amount}

pub data ActionKind : Type 0 where
  instalment extra : ActionKind

pub record Action : Type 0 where
  pub on : Date
  pub loan_id : Text
  pub loan : Text
  pub kind : ActionKind
  pub amount : Amount
  pub fee : Amount
  pub saves : Amount

pub record MonthLoan : Type 0 where
  pub fees : Amount
  pub id : Text
  pub name : Text
  pub paid : Amount
  pub extra : Amount
  pub owed : Amount
  pub cleared : Bool
  pub freed : Amount

pub record MonthState : Type 0 where
  pub household_cash : Amount
  pub month : ℕ
  pub on : Date
  pub required : Amount
  pub extra : Amount
  pub fees : Amount
  pub interest : Amount
  pub owed : Amount
  pub cash : Amount
  pub cleared : Text
  pub loans : List MonthLoan

-- `MonthState{}`
abbrev pub no_month : MonthState
no_month = record {
  household_cash = no_amount;
  month = 0;
  on = no_date;
  required = no_amount;
  extra = no_amount;
  fees = no_amount;
  interest = no_amount;
  owed = no_amount;
  cash = no_amount;
  cleared = [];
  loans = [];
}

-- `Result` of result.go. A map with a zero value is a function.
pub record PlanResult : Type 0 where
  pub household_cash : Amount
  pub policy : PlanPolicy
  pub payoff_date : Date
  pub months : ℕ
  pub total_interest : Amount
  pub total_fees : Amount
  pub total_paid : Amount
  pub next_month_owed : Amount
  pub first_clear : Text
  pub first_clear_on : Date
  pub first_clear_at : ℕ
  pub first_freed : Amount
  pub actions : List Action
  pub timeline : List MonthState
  pub peak_required : Amount
  pub final_required : Amount
  pub prepayments : ℕ
  pub timing_credited : Bool
  pub assumed : Text → ℤ
