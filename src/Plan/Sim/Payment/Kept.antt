-- ===== src/Plan/Sim/Payment/Kept.antt =====
-- pkg/core/plan/sim.go: an optional payment moves cash to what has been paid, and no more.
use marumbot.Date.Calendar.{Date}
use marumbot.Prelude.{
  ℕ, refl, arith, Bool, Ensures, ensures_ok, if-Ensures, Ensures-map, >>=-known, >>=-any,
  if◌then◌else◌,
}
use marumbot.Money.Amount.{Amount, add, sub, zero_amount}
use marumbot.Money.Amount.Residue.{add-residue, sub-residue}
use marumbot.Plan.State.{Sim, LoanState}
use marumbot.Plan.Quote.{Quote}
use marumbot.Prelude.Int.{eq_ℤ, pos}
use marumbot.Plan.Outcome.{extra}
use marumbot.Plan.Sim.Payment.{
  prepaid_loan, saved_by, record_action, spend_permission, permit, budget_after, close_loan,
  pay_optional, settle_closed, prepay,
}
use marumbot.Plan.Sim.Worth.{Keeps, Keeps-refl, Keeps-trans, >>=-Keeps}

pub permit-Keeps : (s : Sim) (a : Amount) → Ensures (Keeps s) (permit s a)
unfolding permit spend_permission
permit-Keeps s a = search (if-Ensures, >>=-any, ensures_ok, Keeps-refl)

pub close_loan-Keeps :
    (s : Sim) (i : ℕ) (l : LoanState) (on : Date) → Ensures (Keeps s) (close_loan s i l on)
unfolding close_loan
close_loan-Keeps s i l on =
    let freed = if eq_ℤ l.carried.minor (pos 0) then l.required else l.carried in
    >>=-any (budget_after s freed)
      λ b. ensures_ok _ (record { same_worth = refl; same_rest = refl })

pay_optional-Keeps :
    (s : Sim) (q : Quote) (early : Bool) → Ensures (Keeps s) (pay_optional s q early)
unfolding pay_optional
pay_optional-Keeps s q early = >>=-Keeps s (permit s q.outflow) _ (permit-Keeps s q.outflow) λ t.
    >>=-known (sub-residue t.cash q.outflow) λ cash hc. >>=-any (sub q.outflow q.fee) λ credited.
      >>=-known (add-residue t.res.total_paid q.outflow) λ paid hp.
        >>=-any (add t.res.total_fees q.fee) λ fees. >>=-any (add t.month.fees q.fee) λ month_fees.
          >>=-any (add t.month.extra credited)
            λ more. ensures_ok _ (record { same_worth = omega arith; same_rest = refl })

settle_closed-Keeps :
    (s : Sim) (i : ℕ) (l : LoanState) (on : Date) (q : Quote)
    → Ensures (Keeps s) (settle_closed s i l on q)
unfolding settle_closed
settle_closed-Keeps s i l on q = >>=-any (add s.res.total_interest q.interest) λ total.
    >>=-any (add s.month.interest q.interest) λ interest.
      Ensures-map _ (λ t h. record { same_worth = h.same_worth; same_rest = h.same_rest })
        (close_loan-Keeps
          (record s {
            res = record s.res { total_interest = total };
            month = record s.month { interest = interest };
          })
          i (record l { accrued = zero_amount s.cur }) on)

-- A prepayment takes from the cash what it adds to the total paid, whatever the quote and the loan
-- are, and it leaves the buckets alone.
pub prepay-Keeps :
    (s : Sim) (i : ℕ) (l : LoanState) (on : Date) (q : Quote) (early : Bool)
    → Ensures (Keeps s) (prepay s i l on q early)
unfolding prepay record_action
prepay-Keeps s i l on q early =
    >>=-Keeps s (pay_optional s q early) _ (pay_optional-Keeps s q early) λ paid.
      >>=-any (prepaid_loan s l on q) λ l'. >>=-any (saved_by s l on q early) λ saves.
        let s' = record_action paid l on extra q.outflow q.fee saves in
        if-Ensures q.closes
          (λ _.
            Ensures-map _ (λ t h. Keeps-trans (record { same_worth = refl; same_rest = refl }) h)
              (settle_closed-Keeps s' i l' on q))
          (λ _. ensures_ok _ (record { same_worth = refl; same_rest = refl }))
