-- ===== src/Plan/Sim/Run.antt =====
-- pkg/core/plan/sim.go: the loop of a run as a step relation, and what ends it.
pub mod Conserved
pub mod Balanced
use marumbot.Prelude.{
  ℕ, suc, ◌≡◌, false, ◌&&◌, ◌||◌, ◌==◌, List, [], ◌∷◌, Option, none, some, Result, ok, err,
  horizon_exceeded, broken_invariant, ◌>>=◌, ltb, if◌then◌else◌,
}
use marumbot.Prelude.Int.{pos, ltb_ℤ, eq_ℤ}
use marumbot.Date.Calendar.{Date, before, after, equal, is_zero, no_date}
use marumbot.Date.Schedule.{add_months}
use marumbot.Money.Amount.{Amount, add, cmp, zero_amount}
use marumbot.Plan.Input.{CashEvent, horizon_of}
use marumbot.Plan.Outcome.{MonthState, PlanResult}
use marumbot.Plan.State.{Sim, LoanState, CashBucket, all_closed, or_zero, restricted_cash}
use marumbot.Plan.Sim.Allocate.{allocate}
use marumbot.Plan.Sim.Cycle.{open_first, close_cycle, income}
use marumbot.Plan.Sim.Periods.{period}
use marumbot.Plan.Sim.Events.{due, lump}

-- `eventKind`, in the order of the events of one day.
pub data EventKind : Type 0 where
  of_period of_lump of_income of_route of_due : EventKind

unfoldable rank : EventKind → ℕ
rank of_period = 0
rank of_lump = 1
rank of_income = 2
rank of_route = 3
rank of_due = 4

-- An event to come. Where the source has the index -1, which it does not read, this has 0.
pub record Upcoming : Type 0 where
  pub kind : EventKind
  pub on : Date
  pub index : ℕ

-- `consider`
unfoldable pub consider : Option Upcoming → Upcoming → Option Upcoming
unfolding rank
consider none e = some e
consider (some best) e =
    if before e.on best.on || (equal e.on best.on && ltb (rank e.kind) (rank best.kind))
    then some e
    else some best

consider_date : EventKind → Date → Option Upcoming → Option Upcoming
consider_date kind on best =
    if is_zero on then best else consider best (record { kind = kind; on = on; index = 0 })

consider_buckets : List CashBucket → Option Upcoming → Option Upcoming
unfolding consider_date
consider_buckets [] best = best
consider_buckets (b ∷ bs) best = consider_buckets bs (consider_date of_route b.wake best)

consider_lumps : ℕ → List CashEvent → Option Upcoming → Option Upcoming
consider_lumps i [] best = best
consider_lumps i (e ∷ es) best =
    consider_lumps (suc i) es (consider best (record { kind = of_lump; on = e.on; index = i }))

consider_loans : ℕ → List LoanState → Option Upcoming → Option Upcoming
consider_loans i [] best = best
consider_loans i (l ∷ ls) best =
    consider_loans (suc i) ls
      (if l.closed then best else consider best (record { kind = of_due; on = l.due; index = i }))

or_default : Option Upcoming → Upcoming
or_default none = record { kind = of_period; on = no_date; index = 0 }
or_default (some e) = e

-- `nextEvent`
unfoldable pub next_event : Sim → Upcoming
unfolding consider_buckets consider_lumps consider_loans or_default
next_event s = or_default (
    consider_loans 0 s.loans (
      consider_lumps 0 s.lumps (
        consider_buckets s.cash_buckets
          (consider_date of_income s.next_income (consider_date of_period s.next_period none)))))

pub handle : Sim → EventKind → Date → ℕ → Result Sim
handle s of_period on i = period s on
handle s of_lump on i = lump s i
handle s of_income on i = income s on
handle s of_route on i = allocate (open_first s on) on
handle s of_due on i = due s i on

-- One round of the loop of `runConfigured`.
unfoldable pub step : Sim → Result Sim
unfolding handle
step s =
    let e = next_event s in
    if after e.on (add_months s.input.valuation_date (horizon_of s.input))
    then err horizon_exceeded
    else handle s e.kind e.on e.index

-- The states that the loop comes through: it goes on while a loan is open.
pub data Reaches (s : Sim) : Sim → Type 0 where
  here : Reaches s s
  further : (t u : Sim) → Reaches s t → all_closed t.loans ≡ false → step t ≡ ok u → Reaches s u

sum_month : Amount → MonthState → Result Amount
sum_month paid m = add paid m.required >>= λ a. add a m.extra >>= λ b. add b m.fees

sum_timeline : Amount → List MonthState → Result Amount
unfolding sum_month
sum_timeline paid [] = ok paid
sum_timeline paid (m ∷ ms) = sum_month paid m >>= λ sum. sum_timeline sum ms

-- `checkRestrictedCash`
check_restricted : List CashBucket → Result (Unit {0})
check_restricted [] = ok tt
check_restricted (b ∷ bs) =
    if ltb_ℤ b.remaining.minor (pos 0) then err broken_invariant else check_restricted bs

-- What came in, as `conserve` counts it.
unfoldable pub credits : Sim → Result Amount
credits s = add (or_zero s.cur s.input.cash.opening_cash) s.inflow

-- What went out or is left, as `conserve` counts it.
unfoldable pub debits : Sim → Result Amount
debits s = restricted_cash s >>= λ restricted. add s.cash restricted >>= λ held.
    add s.res.total_paid held >>= λ sum. add sum s.res.household_cash

-- A refusal of two amounts that differ.
unfoldable pub agree : Amount → Amount → Result (Unit {0})
agree a b = cmp a b >>= λ order. if eq_ℤ order (pos 0) then ok tt else err broken_invariant

-- `conserve`
unfoldable pub conserve : Sim → Result (Unit {0})
unfolding sum_timeline check_restricted
conserve s = sum_timeline (zero_amount s.cur) s.res.timeline >>= λ paid.
    agree paid s.res.total_paid >>= λ _.
    if ltb_ℤ s.cash.minor (pos 0)
    then err broken_invariant
    else (credits s >>= λ came.
        check_restricted s.cash_buckets >>= λ _. debits s >>= λ went. agree came went)

-- `runConfigured` behind its loop.
unfoldable pub finish : Sim → Result PlanResult
finish s = (if ltb 0 s.cycle then close_cycle s else ok s) >>= λ s'.
    let res = record s'.res { months = if s'.res.months == 0 then s'.cycle else s'.res.months } in
    conserve (record s' { res = res }) >>= λ _. ok res
