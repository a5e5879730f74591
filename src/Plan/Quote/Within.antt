-- ===== src/Plan/Quote/Within.antt =====
-- pkg/core/plan/sim.go: what a quote promises.
use marumbot.Prelude.{◌≡◌, true, false}
use marumbot.Plan.Quote.{Quote}
use marumbot.Money.Amount.{Amount}
use marumbot.Plan.State.{LoanState}
use marumbot.Date.Calendar.{Date}
use marumbot.Money.Currency.{Currency}
use marumbot.Prelude.Int.{pos, ◌≤ℤ◌}

-- Three ways to answer: settle the loan, credit principal only, or refuse.
pub record IsQuote (l : LoanState) (available : Amount) (q : Quote) : Type 0 where
  pub within : q.outflow.minor ≤ℤ available.minor
  pub settles : q.closes ≡ true → (q.principal ≡ l.balance) × (q.interest ≡ l.accrued)
  pub credits_only : q.closes ≡ false → q.interest.minor ≡ pos 0
