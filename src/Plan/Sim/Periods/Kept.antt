-- ===== src/Plan/Sim/Periods/Kept.antt =====
-- pkg/core/plan/spending.go: a new period conserves the cash of a run.
use marumbot.Plan.Sim.Allocate.Kept.{allocate-Conserves}
use marumbot.Plan.Sim.Worth.{
  Keeps, Keeps-refl, Keeps-trans, >>=-Keeps, Conserves, Conserves-trans, Keeps-Conserves,
}
use marumbot.Plan.Sim.Periods.{
  household_transfer, turn_period, Terms, terms_on, next_change, without_pending, begin_period,
  enter_period, period_with, period_of, period,
}
use marumbot.Plan.Sim.Cycle.Kept.{open_cycle-Keeps, closed_if-Keeps}
use marumbot.Plan.State.{Sim}
use marumbot.Plan.Sim.Reserve.{reserved}
use marumbot.Plan.Input.{SpendingPlan}
use marumbot.Prelude.Int.{pos, ltb_ℤ}
use marumbot.Money.Amount.{zero_amount, add, sub}
use marumbot.Prelude.{
  infeasible, ◌&&◌, not, refl, arith, Bool, true, false, ltb, Option, none, some, ok, Ensures,
  ensures_ok, ensures_err, ensures_panic, if-Ensures, Ensures-map, ◌>>=◌, >>=-known, >>=-any,
  if◌then◌else◌,
}
use marumbot.Date.Calendar.{Date, is_zero, equal}
use marumbot.Plan.Period.{period_start, period_end}
use marumbot.Money.Amount.Residue.{add-residue, sub-residue}

-- What the household keeps leaves the pool, and is counted.
household_transfer-Keeps : (s : Sim) → Ensures (Keeps s) (household_transfer s)
unfolding household_transfer
household_transfer-Keeps s = let moved = transferred in search (if-Ensures, stays, moved)
  where
    stays : Ensures (Keeps s) (ok s)
    stays = ensures_ok s (Keeps-refl s)

    transferred : Ensures (Keeps s) (
        reserved s >>= λ held. sub s.cash held >>= λ transfer.
        if ltb_ℤ (pos 0) transfer.minor
        then (sub s.cash transfer >>= λ cash. add s.res.household_cash transfer >>= λ kept.
            ok (record s {
              cash = cash;
              res = record s.res { household_cash = kept };
              month = record s.month { household_cash = transfer };
            }))
        else ok s)
    transferred = >>=-any (reserved s) λ held. >>=-any (sub s.cash held) λ transfer.
        if-Ensures (ltb_ℤ (pos 0) transfer.minor)
          (λ _. >>=-known (sub-residue s.cash transfer) λ cash hc.
            >>=-known (add-residue s.res.household_cash transfer)
              λ kept hk. ensures_ok _ (record { same_worth = omega arith; same_rest = refl }))
          (λ _. stays)

turn_period-Keeps : (s : Sim) (on : Date) → Ensures (Keeps s) (turn_period s on)
unfolding turn_period
turn_period-Keeps s on = >>=-Keeps s (household_transfer s) _ (household_transfer-Keeps s) λ t.
    >>=-known (closed_if-Keeps (ltb 0 t.cycle) t)
      λ u h. ensures_ok _ (Keeps-trans h (open_cycle-Keeps u on))

turned_if-Keeps :
    (b : Bool) (s : Sim) (on : Date) → Ensures (Keeps s) (if b then ok s else turn_period s on)
turned_if-Keeps true s on = ensures_ok s (Keeps-refl s)
turned_if-Keeps false s on = turn_period-Keeps s on

enter_period-Conserves :
    (s : Sim) (t : Terms) (same : Bool) (end on : Date)
    → Ensures (Conserves s) (enter_period s t same end on)
unfolding enter_period
enter_period-Conserves s t same end on = >>=-known (turned_if-Keeps same s on) λ turned h.
    Ensures-map _
      (λ u k.
        Conserves-trans (Keeps-Conserves h)
          (record { same_total = k.same_total; same_terms = k.same_terms }))
      (allocate-Conserves _ on)

period_with-Conserves :
    (s : Sim) (p : SpendingPlan) (on : Date) → Ensures (Conserves s) (period_with s p on)
unfolding period_with begin_period
period_with-Conserves s p on =
    let start = period_start p.cycle_day on in
    let same = not (is_zero s.period_start) && equal s.period_start start in
    let s' = begin_period s p start in
    let end = next_change on (period_end p.cycle_day on) p.changes in
    >>=-any (sub (terms_on p s.budget on).limit s'.period_spent) λ left.
      if-Ensures (ltb_ℤ left.minor (pos 0)) (λ _. ensures_err infeasible)
        (λ _.
          Ensures-map _ (λ u k. record { same_total = k.same_total; same_terms = k.same_terms })
            (enter_period-Conserves
              (record s' {
                period_left = left;
                next_period = end;
                loans = without_pending (zero_amount s.cur) s'.loans;
              })
              (terms_on p s.budget on) same end on))

-- A new period moves cash to the household at most: the sum stays.
pub period-Conserves : (s : Sim) (on : Date) → Ensures (Conserves s) (period s on)
unfolding period period_of
period-Conserves s on = by_plan s.input.cash.spending
  where
    by_plan : (p : Option SpendingPlan) → Ensures (Conserves s) (period_of s p on)
    by_plan none = ensures_panic
    by_plan (some p) = period_with-Conserves s p on
