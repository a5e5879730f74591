-- ===== src/Plan/State.antt =====
-- pkg/core/plan/sim.go: the state of a run. An error that the source keeps in `s.err` until the end of
-- an event ends the event here at once, as an error of the result: the source drops the state with it.
use marumbot.Plan.Input.{CashEvent, PlanPolicy, PlanInput, Timing, Position}
use marumbot.Plan.Outcome.{MonthState, PlanResult, Action}
use marumbot.Prelude.{
  zero, [], false, Option, suc, text_eq, true, ◌>>=◌, Bool, if◌then◌else◌, ok, panic, ◌∷◌, List,
  Result, Text, ℕ,
}
use marumbot.Prelude.Int.{ltb_ℤ, ◌+ℤ◌, pos, ◌*ℤ◌, ℤ}
use marumbot.Money.Amount.{add, cmp, zero_amount, Amount}
use marumbot.Model.Loan.{PrepaymentEffect}
use marumbot.Money.Currency.{Currency}
use marumbot.Date.Calendar.{Date}

-- `loanState`. The fingerprint, a key of the cache, is left out.
pub record LoanState : Type 0 where
  pub pos : Position
  pub effect : PrepaymentEffect
  pub timing : Timing
  pub balance : Amount
  pub accrued : Amount
  pub from : Date
  pub carried : Amount
  pub due : Date
  pub required : Amount
  pub pending : Amount
  pub allowance : ℤ → Amount
  pub closed : Bool
  pub closed_on : Date
  pub cycle_paid : Amount
  pub cycle_extra : Amount
  pub cycle_fees : Amount
  pub cycle_cleared : Bool
  pub cycle_freed : Amount

pub record CashBucket : Type 0 where
  pub target : Text
  pub remaining : Amount
  pub until : Date
  pub minimum : Amount
  pub released : Bool
  pub wake : Date

-- `sim`, without its cache.
pub record Sim : Type 0 where
  pub income_delay_days : ℤ
  pub nominal_income : Date
  pub cash_buckets : List CashBucket
  pub has_routing : Bool
  pub action_sink : Option (List Action)
  pub input : PlanInput
  pub policy : PlanPolicy
  pub cur : Currency
  pub loans : List LoanState
  pub cash : Amount
  pub budget : Amount
  pub res : PlanResult
  pub cycle : ℕ
  pub cycle_income : Date
  pub next_income : Date
  pub income_ym : ℤ
  pub month : MonthState
  pub lumps : List CashEvent
  pub inflow : Amount
  pub next_period : Date
  pub period_left : Amount
  pub period_start : Date
  pub period_spent : Amount
  pub carry_rule : Text
  pub carry_minimum : Amount
  pub carry_until : Date

-- An index into a slice: out of range it panics.
unfoldable pub element : List LoanState → ℕ → Result LoanState
element [] i = panic
element (l ∷ ls) zero = ok l
element (l ∷ ls) (suc i) = element ls i

unfoldable pub replaced : List LoanState → ℕ → LoanState → List LoanState
replaced [] i l = []
replaced (k ∷ ls) zero l = l ∷ ls
replaced (k ∷ ls) (suc i) l = k ∷ replaced ls i l

-- `s.loans[i]`, and a write through that pointer.
abbrev pub loan_at : Sim → ℕ → Result LoanState
loan_at s i = element s.loans i

abbrev pub put_loan : Sim → ℕ → LoanState → Sim
put_loan s i l = record s { loans = replaced s.loans i l }

unfoldable pub all_closed : List LoanState → Bool
all_closed [] = true
all_closed (l ∷ ls) = if l.closed then all_closed ls else false

-- `ym`
abbrev pub ym : Date → ℤ
ym d = d.year *ℤ pos 12 +ℤ d.month

-- An amount without a currency counts as nothing.
abbrev pub or_zero : Currency → Amount → Amount
or_zero cur a = if text_eq a.cur.code [] then zero_amount cur else a

unfoldable pub sum_remaining : Amount → List CashBucket → Result Amount
sum_remaining total [] = ok total
sum_remaining total (b ∷ bs) = add total b.remaining >>= λ sum. sum_remaining sum bs

-- `restrictedCash`
unfoldable pub restricted_cash : Sim → Result Amount
unfolding sum_remaining
restricted_cash s = sum_remaining (zero_amount s.cur) s.cash_buckets

-- The guard of most of the tests: whether the first amount is smaller.
unfoldable pub smaller : Amount → Amount → Result Bool
smaller a b = cmp a b >>= λ order. ok (ltb_ℤ order (pos 0))

unfoldable pub least : Amount → Amount → Result Amount
least a b = cmp a b >>= λ order. ok (if ltb_ℤ (pos 0) order then b else a)
