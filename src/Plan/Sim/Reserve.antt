-- ===== src/Plan/Sim/Reserve.antt =====
-- pkg/core/plan/sim.go and spending.go: the cash that an optional payment may not touch.
use marumbot.Prelude.{
  Bool, true, false, not, ◌&&◌, ◌||◌, List, [], ◌∷◌, Option, none, some, Result, ok, panic, ◌>>=◌,
  if◌then◌else◌, text_eq,
}
use marumbot.Prelude.Int.{pos, ltb_ℤ, eq_ℤ}
use marumbot.Date.Calendar.{Date, before, is_zero}
use marumbot.Money.Amount.{Amount, add, sub, zero_amount}
use marumbot.Plan.Rules.{carry_to_date, batch_until}
use marumbot.Plan.Period.{period_end}
use marumbot.Plan.Input.{SpendingPlan, separate_spending}
use marumbot.Plan.State.{Sim, LoanState, or_zero, ym, smaller, least}
use marumbot.Plan.Quote.{Quote}

-- Whether a loan's instalment falls due before the next income.
is_due_first : Sim → LoanState → Bool
is_due_first s l =
    (is_zero s.next_income && eq_ℤ (ym l.due) s.income_ym)
    || (not (is_zero s.next_income) && before l.due s.next_income)

reserve_loans : Sim → List LoanState → Amount → Result Amount
unfolding is_due_first
reserve_loans s [] r = ok r
reserve_loans s (l ∷ ls) r =
    if l.closed
    then reserve_loans s ls r
    else ((if is_due_first s l then add r l.required else ok r) >>= λ held.
        add held l.pending >>= λ all. reserve_loans s ls all)

-- `reserved`
unfoldable pub reserved : Sim → Result Amount
unfolding reserve_loans
reserved s = reserve_loans s s.loans (or_zero s.cur s.input.cash.reserve_floor)

permit_loans : SpendingPlan → Date → List LoanState → Amount → Result Amount
permit_loans p on [] left = ok left
permit_loans p on (l ∷ ls) left =
    if l.closed
    then permit_loans p on ls left
    else ((if not (before l.due on) && before l.due (period_end p.cycle_day on)
          then sub left l.required
          else ok left)
        >>= λ kept. sub kept l.pending >>= λ free. permit_loans p on ls free)

-- `optionalPermission`, which reads the spending plan through its pointer.
optional_permission : Sim → Option SpendingPlan → Date → Result Amount
unfolding permit_loans
optional_permission s none on = panic
optional_permission s (some p) on = permit_loans p on s.loans s.period_left

-- `optionalCash`
unfoldable pub optional_cash : Sim → Date → Result Amount
unfolding optional_permission
optional_cash s on =
    if separate_spending s.input.cash
      && text_eq s.carry_rule carry_to_date
      && before on s.carry_until
    then ok (zero_amount s.cur)
    else (reserved s >>= λ held. sub s.cash held >>= λ surplus.
        if separate_spending s.input.cash
        then (optional_permission s s.input.cash.spending on >>= λ allowed. least surplus allowed)
        else ok surplus)

-- Whether a payment waits until it is worth one: the guards that `allocate` and `routeCash` share.
unfoldable pub waits : Sim → Quote → Result Bool
waits s q =
    (if separate_spending s.input.cash && text_eq s.carry_rule batch_until
      then smaller q.principal s.carry_minimum
      else ok false)
    >>= λ small.
        if small && not q.closes
        then ok true
        else ((if ltb_ℤ (pos 0) s.policy.min_prepay.minor
              then smaller q.principal s.policy.min_prepay
              else ok false)
            >>= λ below. ok (below && not q.closes))
