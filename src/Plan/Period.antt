-- ===== src/Plan/Period.antt =====
-- pkg/core/plan/spending.go: the monthly permission cycle, and the rules on what it carries over.
pub mod Contains
use marumbot.Plan.Rules.{carry_to_date, batch_until, no_carry, carry_cash}
use marumbot.Money.Currency.{currency_eq, Currency}
use marumbot.Prelude.{
  ok, invalid_plan, err, ◌&&◌, ◌||◌, [], text_eq, not, Bool, if◌then◌else◌, Text, Result,
}
use marumbot.Prelude.Int.{leb_ℤ, negsuc, pos, eq_ℤ, ℤ}
use marumbot.Date.Schedule.{add_months, on_day_of_month}
use marumbot.Date.Calendar.{after, is_zero, Date}
use marumbot.Money.Amount.{Amount}

-- The day on which a cycle starts: 0 stands for the first.
abbrev pub anchor_day : ℤ → ℤ
anchor_day cycle_day = if eq_ℤ cycle_day (pos 0) then pos 1 else cycle_day

-- `PeriodStart`, of the CycleDay of the plan.
unfoldable pub period_start : ℤ → Date → Date
period_start cycle_day on =
    let start = on_day_of_month on (anchor_day cycle_day) in
    if after start on
    then on_day_of_month (add_months on (negsuc 0)) (anchor_day cycle_day)
    else start

-- `periodEnd`
unfoldable pub period_end : ℤ → Date → Date
period_end cycle_day on =
    on_day_of_month (add_months (period_start cycle_day on) (pos 1)) (anchor_day cycle_day)

-- `budgetRuleDateValid` of budget_rules.go
abbrev pub budget_rule_date_valid : Date → Bool
budget_rule_date_valid d = not (is_zero d) && leb_ℤ (pos 1) d.year && leb_ℤ d.year (pos 9999)

-- `validateCarry`
unfoldable pub validate_carry : Text → Amount → Date → Currency → Result (Unit {0})
validate_carry rule minimum until cur =
    if text_eq rule [] || text_eq rule carry_cash || text_eq rule no_carry
    then (if not (eq_ℤ minimum.minor (pos 0)) || not (is_zero until)
        then err invalid_plan
        else ok tt)
    else if text_eq rule batch_until
    then (if not (currency_eq minimum.cur cur) || leb_ℤ minimum.minor (pos 0) || not (is_zero until)
        then err invalid_plan
        else ok tt)
    else if text_eq rule carry_to_date
    then (if not (budget_rule_date_valid until) || not (eq_ℤ minimum.minor (pos 0))
        then err invalid_plan
        else ok tt)
    else err invalid_plan
