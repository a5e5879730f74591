-- ===== src/Amortisation/Dates/Complete.antt =====
-- The dates of a contract: all of its due dates up to the maturity, in order.
use marumbot.Prelude.{[], false, true, ◌<◌, ◌≡◌, ◌≤◌, length, ◌∷◌, List}
use marumbot.Prelude.Int.{◌+ℤ◌, pos, ℤ}
use marumbot.Date.Calendar.{after, before, Date}
use marumbot.Amortisation.Dates.{max_periods, due_day}
use marumbot.Date.Schedule.{occurrence}
use marumbot.Model.Loan.{Contract}

-- The n-th due date of the contract and the ones after it, up to the maturity: the list stops where
-- the next due date would be past it.
abbrev pub Occurs : Date → ℤ → Date → ℤ → List Date → Type 0
Occurs start day maturity n [] = after (occurrence start day n) maturity ≡ true
Occurs start day maturity n (due ∷ dates) =
    (due ≡ occurrence start day n)
    × (after due maturity ≡ false)
    × Occurs start day maturity (n +ℤ pos 1) dates

-- Each date before the one that follows it.
abbrev pub Increasing : List Date → Type 0
Increasing [] = Unit
Increasing (due ∷ []) = Unit
Increasing (due ∷ later ∷ dates) = (before due later ≡ true) × Increasing (later ∷ dates)

-- All due dates are there, between 1 and 599 of them, in order.
pub record IsCalendar (c : Contract) (dates : List Date) : Type 0 where
  pub complete : Occurs c.start_date (due_day c) c.maturity_date (pos 1) dates
  pub increasing : Increasing dates
  pub some : 1 ≤ length dates
  pub few : length dates < max_periods
