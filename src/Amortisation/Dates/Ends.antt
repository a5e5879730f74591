-- ===== src/Amortisation/Dates/Ends.antt =====
-- The dates left on a calendar are found without fuel.
use marumbot.Prelude.{[], ◌∷◌, List, ok-HasFuel, ◌&&◌, arith, ◌==◌, length, if-HasFuel, HasFuel}
use marumbot.Amortisation.Dates.{some_left, drop_past, Calendar, remaining_from, dates_from}
use marumbot.Date.Calendar.{is_zero, Date}

some_left-HasFuel : (dates : List Date) → HasFuel (some_left dates)
unfolding some_left
some_left-HasFuel [] = λ e. ground arith
some_left-HasFuel (due ∷ dates) = ok-HasFuel _

pub dates_from-HasFuel : (cal : Calendar) (from : Date) → HasFuel (dates_from cal from)
unfolding dates_from remaining_from
dates_from-HasFuel cal from =
    if-HasFuel (length cal.dates == 0) (λ e. ground arith)
      (if-HasFuel (is_zero from && is_zero cal.contract.not_before_due) (ok-HasFuel cal.dates)
        (some_left-HasFuel (drop_past cal.contract from cal.dates)))
