-- ===== src/Plan/Sim/Cycle/Kept.antt =====
-- pkg/core/plan/sim.go: an income and the cycles that it turns conserve the cash of a run.
use marumbot.Prelude.{
  false, ◌||◌, ok, true, if◌then◌else◌, ◌&&◌, Bool, not, ◌≡◌, refl, arith, ◌==◌, Ensures,
  ensures_ok, Ensures-map, >>=-known, >>=-any, ltb,
}
use marumbot.Plan.Sim.Worth.{
  Keeps-trans, Keeps, Keeps-refl, Keeps-Conserves, Conserves, Conserves-trans, >>=-Conserves,
}
use marumbot.Date.Calendar.{Date, equal}
use marumbot.Money.Amount.{Amount}
use marumbot.Money.Amount.Residue.{residue, residue_lt, add-residue}
use marumbot.Plan.State.{Sim, ym}
use marumbot.Plan.Input.{separate_spending}
use marumbot.Prelude.Int.{ℤ}
use marumbot.Plan.Outcome.{MonthState, PlanResult}
use marumbot.Plan.Sim.Cycle.{
  credit, open_cycle, open_first, close_cycle, income_after, turn_cycle, receive, income,
}
use marumbot.Plan.Sim.Allocate.Kept.{allocate-Conserves}

pub open_cycle-Keeps : (s : Sim) (on : Date) → Keeps s (open_cycle s on)
unfolding open_cycle
open_cycle-Keeps s on = record { same_worth = refl; same_rest = refl }

opened_if-Keeps : (b : Bool) (s : Sim) (on : Date) → Keeps s (if b then open_cycle s on else s)
opened_if-Keeps true s on = open_cycle-Keeps s on
opened_if-Keeps false s on = Keeps-refl s

pub open_first-Keeps : (s : Sim) (on : Date) → Keeps s (open_first s on)
unfolding open_first
open_first-Keeps s on = opened_if-Keeps (s.cycle == 0) s on

pub close_cycle-Keeps : (s : Sim) → Ensures (Keeps s) (close_cycle s)
unfolding close_cycle
close_cycle-Keeps s = search (>>=-any, ensures_ok, same) depth 9
  where
    same :
        (m : MonthState) (res : PlanResult)
        → residue res.total_paid.minor ≡ residue s.res.total_paid.minor
        → residue res.household_cash.minor ≡ residue s.res.household_cash.minor
        → Keeps s (record s { month = m; res = res })
    same m res e k = record { same_worth = omega arith; same_rest = refl }

pub closed_if-Keeps : (b : Bool) (s : Sim) → Ensures (Keeps s) (if b then close_cycle s else ok s)
closed_if-Keeps true s = close_cycle-Keeps s
closed_if-Keeps false s = ensures_ok s (Keeps-refl s)

turn_cycle-Keeps : (s : Sim) (on : Date) → Ensures (Keeps s) (turn_cycle s on)
unfolding turn_cycle
turn_cycle-Keeps s on =
    let turns = not (separate_spending s.input.cash) && not (equal s.cycle_income on) in
    >>=-known (closed_if-Keeps (turns && ltb 0 s.cycle) s)
      λ t h. ensures_ok _ (Keeps-trans h (opened_if-Keeps (t.cycle == 0 || turns) t on))

-- What comes in raises the cash and the record of the income by the same amount.
pub receive-Keeps : (s : Sim) (a : Amount) → Ensures (Keeps s) (receive s a)
unfolding receive
receive-Keeps s a = >>=-known (add-residue s.cash a) λ cash hc.
    >>=-known (add-residue s.inflow a) λ inflow hi.
      let before = residue_lt s.inflow.minor in
      let later = residue_lt inflow.minor in
      ensures_ok _ (record { same_worth = omega arith; same_rest = refl })

income_after-Keeps :
    (s : Sim) (on : Date) (n : ℤ) → Keeps s (record (income_after s on) { income_ym = n })
unfolding income_after
income_after-Keeps s on n = record { same_worth = refl; same_rest = refl }

pub income-Conserves : (s : Sim) (on : Date) → Ensures (Conserves s) (income s on)
unfolding income
income-Conserves s on =
    >>=-Conserves s (turn_cycle s on) _
      (Ensures-map _ (λ t. Keeps-Conserves) (turn_cycle-Keeps s on))
      λ t.
        >>=-Conserves t (receive t (credit t on)) _
          (Ensures-map _ (λ u. Keeps-Conserves) (receive-Keeps t (credit t on)))
          λ u.
            Ensures-map _ (λ v. Conserves-trans (Keeps-Conserves (income_after-Keeps u on (ym on))))
              (allocate-Conserves (record (income_after u on) { income_ym = ym on }) on)
