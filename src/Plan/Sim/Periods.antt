-- ===== src/Plan/Sim/Periods.antt =====
-- pkg/core/plan/spending.go: what the start of a spending period does to the run.
pub mod Kept
use marumbot.Prelude.{
  Bool, ℕ, zero, suc, false, not, ◌&&◌, List, [], ◌∷◌, Option, none, some, Result, ok, err, panic,
  infeasible, ◌>>=◌, ltb, if◌then◌else◌, Text, text_eq,
}
use marumbot.Prelude.Int.{pos, ltb_ℤ, leb_ℤ, eq_ℤ}
use marumbot.Date.Calendar.{Date, before, after, equal, is_zero}
use marumbot.Money.Amount.{Amount, add, sub, zero_amount}
use marumbot.Amortisation.Dates.{new_calendar, dates_from}
use marumbot.Plan.Rules.{carry_to_date, no_carry}
use marumbot.Plan.Period.{period_start, period_end}
use marumbot.Plan.Input.{
  CashEvent, CashRouting, SpendingChange, SpendingPlan, separate_spending, month_key,
}
use marumbot.Plan.Outcome.{instalment}
use marumbot.Plan.State.{Sim, LoanState, put_loan, loan_at, smaller, least, ym}
use marumbot.Plan.Obligation.{refresh}
use marumbot.Plan.Quote.{quote, accrue_to}
use marumbot.Plan.Sim.Payment.{permit, record_action, close_loan, prepay}
use marumbot.Plan.Sim.Reserve.{reserved, optional_cash}
use marumbot.Plan.Sim.Allocate.{allocate, route_cash}
use marumbot.Plan.Sim.Cycle.{override_or, open_cycle, open_first, close_cycle, receive, income}
use marumbot.Plan.Sim.Routed.{add_routed}

-- The limit and the rule on what it carries over.
pub record Terms : Type 0 where
  pub limit : Amount
  pub rule : Text
  pub minimum : Amount
  pub until : Date

changed_terms : Date → List SpendingChange → Terms → Terms
changed_terms on [] t = t
changed_terms on (c ∷ cs) t =
    let keeps = text_eq c.carry_rule [] in
    if after c.on on
    then t
    else changed_terms on cs (record {
      limit = c.limit;
      rule = if keeps then t.rule else c.carry_rule;
      minimum = if keeps then t.minimum else c.carry_minimum;
      until = if keeps then t.until else c.carry_until;
    })

pub terms_on : SpendingPlan → Amount → Date → Terms
unfolding changed_terms
terms_on p budget on = changed_terms on p.changes (record {
  limit = override_or (p.overrides (month_key (period_start p.cycle_day on))) budget;
  rule = p.carry_rule;
  minimum = p.carry_minimum;
  until = p.carry_until;
})

-- The first change inside the period, or else its end.
pub next_change : Date → Date → List SpendingChange → Date
next_change on end [] = end
next_change on end (c ∷ cs) =
    if after c.on on && before c.on end then c.on else next_change on end cs

pub without_pending : Amount → List LoanState → List LoanState
without_pending nothing [] = []
without_pending nothing (l ∷ ls) = record l { pending = nothing } ∷ without_pending nothing ls

-- The start of a period, and what has been spent in it.
pub begin_period : Sim → SpendingPlan → Date → Sim
begin_period s p start =
    let same = not (is_zero s.period_start) && equal s.period_start start in
    let first =
      equal start (period_start p.cycle_day s.input.valuation_date)
      && ltb_ℤ (pos 0) p.spent.minor in
    record s {
      period_start = if same then s.period_start else start;
      period_spent = if same then s.period_spent else if first then p.spent else zero_amount s.cur;
    }

-- Cash that the household keeps, under the rule that carries none over.
pub household_transfer : Sim → Result Sim
household_transfer s =
    if ltb 0 s.cycle && text_eq s.carry_rule no_carry
    then (reserved s >>= λ held. sub s.cash held >>= λ transfer.
        if ltb_ℤ (pos 0) transfer.minor
        then (sub s.cash transfer >>= λ cash. add s.res.household_cash transfer >>= λ kept.
            ok (record s {
              cash = cash;
              res = record s.res { household_cash = kept };
              month = record s.month { household_cash = transfer };
            }))
        else ok s)
    else ok s

-- A new period: the household's cash, and the next cycle.
pub turn_period : Sim → Date → Result Sim
unfolding household_transfer
turn_period s on = household_transfer s >>= λ s'.
    (if ltb 0 s'.cycle then close_cycle s' else ok s') >>= λ s''. ok (open_cycle s'' on)

-- The cycle of the period, its rule, and what is allocated at its start.
pub enter_period : Sim → Terms → Bool → Date → Date → Result Sim
unfolding turn_period
enter_period s t same end on = (if same then ok s else turn_period s on) >>= λ turned.
    allocate
      (record turned {
        carry_rule = t.rule;
        carry_minimum = t.minimum;
        carry_until = t.until;
        next_period =
            if text_eq t.rule carry_to_date && after t.until on && before t.until end
            then t.until
            else end;
      })
      on

pub period_with : Sim → SpendingPlan → Date → Result Sim
unfolding terms_on next_change without_pending begin_period enter_period
period_with s p on =
    let start = period_start p.cycle_day on in
    let same = not (is_zero s.period_start) && equal s.period_start start in
    let t = terms_on p s.budget on in
    let s' = begin_period s p start in
    let end = next_change on (period_end p.cycle_day on) p.changes in
    sub t.limit s'.period_spent >>= λ left.
    if ltb_ℤ left.minor (pos 0)
    then err infeasible
    else enter_period
        (record s' {
          period_left = left;
          next_period = end;
          loans = without_pending (zero_amount s.cur) s'.loans;
        })
        t same end on

pub period_of : Sim → Option SpendingPlan → Date → Result Sim
unfolding period_with
period_of s none on = panic
period_of s (some p) on = period_with s p on

-- `period`, which reads the spending plan through its pointer.
unfoldable pub period : Sim → Date → Result Sim
unfolding period_of
period s on = period_of s s.input.cash.spending on
