-- ===== src/Plan/Sim/Events/Kept.antt =====
-- pkg/core/plan/sim.go: an instalment conserves the cash of a run.
use marumbot.Plan.Sim.Allocate.Kept.{route_cash-Conserves}
use marumbot.Plan.Sim.Worth.{
  >>=-Conserves, Conserves-refl, Keeps, Keeps-refl, Keeps-trans, >>=-Keeps, Conserves,
  Conserves-trans, Keeps-Conserves,
}
use marumbot.Plan.Outcome.{instalment}
use marumbot.Plan.Sim.Events.{
  due, paid_loan, check_feasible, required_on, after_due, due_body, pay_held, pay_required,
  pay_wanted, refresh_at, settle_due,
}
use marumbot.Plan.Sim.Cycle.Kept.{open_first-Keeps, income-Conserves}
use marumbot.Plan.Quote.{accrue_to, quote}
use marumbot.Plan.State.{least, loan_at, put_loan, ym, LoanState, Sim}
use marumbot.Amortisation.Dates.{dates_from, new_calendar}
use marumbot.Plan.Sim.Reserve.{optional_cash}
use marumbot.Plan.Sim.Payment.Kept.{prepay-Keeps, close_loan-Keeps, permit-Keeps}
use marumbot.Plan.Sim.Cycle.{open_first, income}
use marumbot.Plan.Input.{separate_spending}
use marumbot.Plan.Sim.Payment.{prepay, permit, record_action}
use marumbot.Prelude.Int.{leb_ℤ, eq_ℤ, pos}
use marumbot.Money.Amount.{zero_amount, Amount, add}
use marumbot.Plan.Obligation.{refresh}
use marumbot.Prelude.{
  ◌&&◌, not, ℕ, refl, arith, Bool, true, false, some, ok, Ensures, ensures_ok, if-Ensures,
  Ensures-map, >>=-known, >>=-any, if◌then◌else◌,
}
use marumbot.Date.Calendar.{Date}
use marumbot.Money.Amount.Residue.{add-residue, sub-residue}

refresh_at-Keeps : (s : Sim) (i : ℕ) (l : LoanState) → Ensures (Keeps s) (refresh_at s i l)
unfolding refresh_at
refresh_at-Keeps s i l =
    >>=-any (refresh l) λ l'. ensures_ok _ (record { same_worth = refl; same_rest = refl })

put-Keeps : (s : Sim) (i : ℕ) (l : LoanState) → Keeps s (put_loan s i l)
put-Keeps s i l = record { same_worth = refl; same_rest = refl }

pay_required-Keeps :
    (s : Sim) (required interest : Amount) → Ensures (Keeps s) (pay_required s required interest)
unfolding pay_required
pay_required-Keeps s required interest =
    >>=-Keeps s (permit s required) _ (permit-Keeps s required) λ t.
      >>=-known (sub-residue t.cash required) λ cash hc.
        >>=-any (add t.res.total_interest interest) λ total_interest.
          >>=-known (add-residue t.res.total_paid required) λ paid hp.
            >>=-any (add t.month.interest interest) λ month_interest.
              >>=-any (add t.month.required required) λ month_required.
                ensures_ok _ (record { same_worth = omega arith; same_rest = refl })

pay_wanted-Keeps :
    (s : Sim) (i : ℕ) (l : LoanState) (on : Date) (want : Amount)
    → Ensures (Keeps s) (pay_wanted s i l on want)
unfolding pay_wanted
pay_wanted-Keeps s i l on want = >>=-any (quote s.cur l on want) λ answer.
    let s' = put_loan s i answer.0 in
    Ensures-map _ (λ t. Keeps-trans (put-Keeps s i answer.0))
      (if-Ensures (leb_ℤ answer.1.outflow.minor (pos 0)) (λ _. refresh_at-Keeps s' i answer.0)
        (λ _.
          >>=-Keeps s' (prepay s' i answer.0 on answer.1 false) _
            (prepay-Keeps s' i answer.0 on answer.1 false)
            λ t. >>=-any (loan_at t i) λ l'.
              if-Ensures l'.closed (λ _. ensures_ok _ (Keeps-refl t))
                (λ _. refresh_at-Keeps t i l')))

pay_held-Keeps :
    (s : Sim) (i : ℕ) (l : LoanState) (on : Date) → Ensures (Keeps s) (pay_held s i l on)
unfolding pay_held
pay_held-Keeps s i l on =
    let l' = record l { pending = zero_amount s.cur } in
    let s' = put_loan s i l' in
    if-Ensures (leb_ℤ l.pending.minor (pos 0)) (λ _. refresh_at-Keeps s i l)
      λ _.
        >>=-any (if separate_spending s.input.cash then optional_cash s' on else ok s'.cash) λ free.
          >>=-any (least l.pending free) λ want.
            Ensures-map _ (λ t. Keeps-trans (put-Keeps s i l'))
              (if-Ensures (leb_ℤ want.minor (pos 0)) (λ _. ensures_ok _ (Keeps-refl s'))
                (λ _. pay_wanted-Keeps s' i l' on want))

after_due-Keeps :
    (s : Sim) (i : ℕ) (l : LoanState) (on : Date) → Ensures (Keeps s) (after_due s i l on)
unfolding after_due
after_due-Keeps s i l on =
    if-Ensures (leb_ℤ l.balance.minor (pos 0)) (λ _. close_loan-Keeps s i l on)
      λ _. >>=-any (if separate_spending s.input.cash then refresh l else ok l) λ l'.
        Ensures-map _ (λ t. Keeps-trans (put-Keeps s i l'))
          (pay_held-Keeps (put_loan s i l') i l' on)

settle_due-Keeps :
    (s : Sim) (i : ℕ) (l : LoanState) (on : Date) → Ensures (Keeps s) (settle_due s i l on)
unfolding settle_due record_action
settle_due-Keeps s i l on = >>=-any (add l.balance l.accrued) λ owed.
    >>=-any (new_calendar l.pos.contract) λ cal.
      >>=-any (required_on l owed (dates_from cal on)) λ required.
        >>=-any (check_feasible s required) λ _.
          >>=-Keeps s (pay_required s required l.accrued) _
            (pay_required-Keeps s required l.accrued)
            λ s'. >>=-any (paid_loan s l required) λ l'.
              let z = zero_amount s.cur in
              let booked = record_action s' l on instalment required z z in
              Ensures-map _ (λ t h. record { same_worth = h.same_worth; same_rest = h.same_rest })
                (after_due-Keeps (put_loan booked i l') i l' on)

paid_in-Conserves :
    (b : Bool) (s : Sim) (on : Date) → Ensures (Conserves s) (if b then income s on else ok s)
paid_in-Conserves true s on = income-Conserves s on
paid_in-Conserves false s on = ensures_ok s (Conserves-refl s)

due_body-Conserves : (s : Sim) (i : ℕ) (on : Date) → Ensures (Conserves s) (due_body s i on)
unfolding due_body
due_body-Conserves s i on =
    let comes = eq_ℤ s.input.cash.pay_day (pos 0) && not (eq_ℤ (ym on) s.income_ym) in
    >>=-known (paid_in-Conserves comes s on) λ t h.
      let opened = open_first t on in
      >>=-any (loan_at opened i) λ l. >>=-any (accrue_to l on) λ l'.
        Ensures-map _
          (λ u k. Conserves-trans h (Keeps-Conserves (Keeps-trans (open_first-Keeps t on) k)))
          (settle_due-Keeps opened i l' on)

-- An instalment moves cash to what has been paid: the sum stays.
pub due-Conserves : (s : Sim) (i : ℕ) (on : Date) → Ensures (Conserves s) (due s i on)
unfolding due
due-Conserves s i on =
    >>=-Conserves s (due_body s i on) _ (due_body-Conserves s i on)
      λ t. route_cash-Conserves t on (some i)
