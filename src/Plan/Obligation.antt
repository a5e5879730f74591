-- ===== src/Plan/Obligation.antt =====
-- pkg/core/plan/projection.go: the next obligation of a loan. The source keeps the answers in a cache;
-- here each is computed again.
use marumbot.Amortisation.Build.{next}
use marumbot.Amortisation.Dates.{dates_from, new_calendar}
use marumbot.Date.Schedule.{occurrence}
use marumbot.Money.Amount.{Amount}
use marumbot.Date.Calendar.{Date}
use marumbot.Model.Loan.{
  RepaymentType, PrepaymentEffect, annuity, declining_principal, other_type, shorten_term,
  borrower_chooses, reduce_instalment,
}
use marumbot.Plan.State.{LoanState}
use marumbot.Prelude.{Bool, false, Result, ok, err, panic, List, [], ◌∷◌, ◌>>=◌, if◌then◌else◌}
use marumbot.Prelude.Int.{pos, ltb_ℤ, eq_ℤ}

pub record LoanObligation : Type 0 where
  pub due : Date
  pub required : Amount
  pub instalment : Amount

-- Whether the instalment fixed at the anchor is carried.
is_fixed : PrepaymentEffect → RepaymentType → Amount → Bool
is_fixed shorten_term annuity carried = ltb_ℤ (pos 0) carried.minor
is_fixed shorten_term declining_principal carried = false
is_fixed shorten_term (other_type n) carried = false
is_fixed borrower_chooses t carried = false
is_fixed reduce_instalment t carried = false

-- The date of a fixed instalment: past the last contractual date, the next monthly occurrence.
fixed_due : LoanState → Result (List Date) → Result Date
fixed_due l (ok []) = panic
fixed_due l (ok (due ∷ dates)) = ok due
fixed_due l (err e) = ok (occurrence l.from l.pos.contract.payment_day (pos 1))
fixed_due l panic = panic

-- `cache.next`
unfoldable pub next_obligation : LoanState → Result LoanObligation
unfolding is_fixed fixed_due
next_obligation l = new_calendar l.pos.contract >>= λ cal.
    if is_fixed l.effect l.pos.contract.type_of l.carried
    then (fixed_due l (dates_from cal l.from) >>= λ due.
        ok (record { due = due; required = l.carried; instalment = l.carried }))
    else (next cal l.balance l.from >>= λ o.
        ok (record { due = o.due; required = o.payment; instalment = o.instalment }))

-- `refresh` of sim.go
unfoldable pub refresh : LoanState → Result LoanState
refresh l = next_obligation l >>= λ o. ok (record l {
  carried = if eq_ℤ l.carried.minor (pos 0) then o.instalment else l.carried;
  due = o.due;
  required = o.required;
})
