-- ===== src/Plan/Input.antt =====
-- pkg/core/plan/input.go, policy.go and cash_routing.go: what a run of the planner is given.

use marumbot.Prelude.{
  Bool, false, true, ℕ, zero, suc, ◌+◌, ◌-◌, ◌/◌, ◌%◌, List, [], ◌∷◌, ◌++◌, length, Option, none,
  some, Text, if◌then◌else◌,
}
use marumbot.Prelude.Int.{ℤ, pos, negsuc, ltb_ℤ}
use marumbot.Allocation.{ExcessRule}
use marumbot.Model.Loan.{PrepaymentEffect, Contract}
use marumbot.Money.Amount.{Amount}
use marumbot.Date.Calendar.{Date}

pub data Timing : Type 0 where
  on_due on_receipt : Timing

pub data Rollover : Type 0 where
  roll_freed keep_freed : Rollover

-- `Policy` of policy.go. An index of the order is an int.
pub record PlanPolicy : Type 0 where
  pub required_only : Bool
  pub name : Text
  pub order : List ℤ
  pub timing : List Timing
  pub effect : List PrepaymentEffect
  pub rollover : Rollover
  pub min_prepay : Amount

pub record Position : Type 0 where
  pub id : Text
  pub name : Text
  pub contract : Contract
  pub balance : Amount
  pub from : Date
  pub excess : ExcessRule
  pub trust : Text
  pub optional_excluded : Bool

pub record CashSplit : Type 0 where
  pub loan_id : Text
  pub amount : Amount

pub record CashRouting : Type 0 where
  pub loan_id : Text
  pub splits : List CashSplit
  pub hold_until : Date
  pub hold_minimum : Amount

pub record CashEvent : Type 0 where
  pub id : Text
  pub routing : Option CashRouting
  pub from_opening : Bool
  pub on : Date
  pub amount : Amount
  pub expected : Bool

pub record SpendingChange : Type 0 where
  pub on : Date
  pub limit : Amount
  pub carry_rule : Text
  pub carry_minimum : Amount
  pub carry_until : Date

pub record BudgetReleaseSource : Type 0 where
  pub policy_version : ℤ
  pub source_id : Text
  pub prior_source_id : Text
  pub on : Date
  pub before : Option Amount
  pub after : Option Amount

-- A map keyed by a month is a function of its key.
pub record SpendingPlan : Type 0 where
  pub confirmed_release_only : Bool
  pub release_sources : List Text
  pub release_facts : List BudgetReleaseSource
  pub cycle_day : ℤ
  pub changes : List SpendingChange
  pub rule_error : Text
  pub carry_rule : Text
  pub carry_minimum : Amount
  pub carry_until : Date
  pub monthly : Amount
  pub overrides : Text → Option Amount
  pub spent : Amount

pub record CashPlan : Type 0 where
  pub cash_through : Date
  pub spending : Option SpendingPlan
  pub monthly : Amount
  pub pay_day : ℤ
  pub opening_cash : Amount
  pub reserve_floor : Amount
  pub lumps : List CashEvent
  pub monthly_overrides : Text → Option Amount

-- `SeparateSpending`
abbrev pub separate_spending : CashPlan → Bool
separate_spending c = elim c.spending [ none ↦ false | some p ↦ true ]

pub record PlanInput : Type 0 where
  pub valuation_date : Date
  pub cash : CashPlan
  pub loans : List Position
  pub horizon : ℤ

abbrev pub default_horizon : ℤ
default_horizon = pos 600

-- `Input.horizon`
abbrev pub horizon_of : PlanInput → ℤ
horizon_of input = if ltb_ℤ (pos 0) input.horizon then input.horizon else default_horizon

-- The decimal digits of a number, on at least as many rounds as it has digits.
digits : ℕ → ℕ → Text → Text
digits zero n s = s
digits (suc left) n s = elim (n / 10) [
  | zero ↦ (n % 10 + 48) ∷ s
  | suc k ↦ digits left (suc k) ((n % 10 + 48) ∷ s)
]

-- Zeros in front of a text.
zeros : ℕ → Text → Text
zeros zero s = s
zeros (suc k) s = 48 ∷ zeros k s

-- A text filled up with zeros to a width.
filled : ℕ → Text → Text
unfolding zeros
filled width s = zeros (width - length s) s

-- `%04d` and `%02d`: a sign counts as one of the places.
decimal : ℕ → ℤ → Text
unfolding digits filled
decimal width (pos n) = filled width (digits (suc n) n [])
decimal width (negsuc n) = 45 ∷ filled (width - 1) (digits (suc (suc n)) (suc n) [])

-- `MonthKey`
unfoldable pub month_key : Date → Text
unfolding decimal
month_key d = decimal 4 d.year ++ (45 ∷ decimal 2 d.month)
