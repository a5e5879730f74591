-- ===== src/Amortisation/Level/Ends.antt =====
-- A projection has no fuel to use up, whatever it is given.
use marumbot.Prelude.{
  if◌then◌else◌, [], suc, ◌∷◌, if-HasFuel, ok-HasFuel, >>=-HasFuel, List, arith, ℕ, HasFuel,
}
use marumbot.Money.Accrual.Errors.{accrue-Refuses}
use marumbot.Ledger.Accrual.Fuel.{Refuses-HasFuel, add-HasFuel}
use marumbot.Money.Accrual.{accrue}
use marumbot.Prelude.Int.{pos, leb_ℤ, ltb_ℤ}
use marumbot.Date.Calendar.{days_between, Date}
use marumbot.Money.Amount.{add, Amount, cmp, sub}
use marumbot.Amortisation.Rows.{Row, Walk, close_row}
use marumbot.Model.Loan.{Contract}
use marumbot.Amortisation.Level.{level_row, level_rows}

sub-HasFuel : (a b : Amount) → HasFuel (sub a b)
unfolding sub
sub-HasFuel a b = λ e. ground arith

cmp-HasFuel : (a b : Amount) → HasFuel (cmp a b)
unfolding cmp
cmp-HasFuel a b = λ e. ground arith

level_row-HasFuel :
    (c : Contract) (instalment : Amount) (n : ℕ) (due : Date) (w : Walk)
    → HasFuel (level_row c instalment n due w)
unfolding level_row
level_row-HasFuel c instalment n due w =
    if-HasFuel (ltb_ℤ (days_between w.prev due) (pos 0)) (λ e. ground arith)
      (>>=-HasFuel
        (accrue w.balance c.nominal_rate (days_between w.prev due) c.day_count c.rounding) _
        (Refuses-HasFuel _ (
          accrue-Refuses w.balance c.nominal_rate (days_between w.prev due) c.day_count c.rounding))
        λ interest _.
          >>=-HasFuel (add w.balance interest) _ (add-HasFuel w.balance interest) λ owed _.
            >>=-HasFuel (cmp instalment owed) _ (cmp-HasFuel instalment owed) λ order _.
              let pay = if leb_ℤ (pos 0) order then owed else instalment in
              >>=-HasFuel (sub pay interest) _ (sub-HasFuel pay interest) λ part _.
                >>=-HasFuel (sub w.balance part) _ (sub-HasFuel w.balance part)
                  λ closing _. ok-HasFuel _)

close_row-HasFuel : (w : Walk) (row : Row) → HasFuel (close_row w row)
unfolding close_row
close_row-HasFuel w row =
    >>=-HasFuel (add w.out.total_paid row.payment) _ (add-HasFuel w.out.total_paid row.payment)
      λ paid _.
        >>=-HasFuel (add w.out.total_interest row.interest) _
          (add-HasFuel w.out.total_interest row.interest) λ charged _. ok-HasFuel _

pub level_rows-HasFuel :
    (c : Contract) (instalment : Amount) (dates : List Date) (n : ℕ) (w : Walk)
    → HasFuel (level_rows c instalment dates n w)
unfolding level_rows
level_rows-HasFuel c instalment [] n w = ok-HasFuel w
level_rows-HasFuel c instalment (due ∷ dates) n w =
    if-HasFuel (leb_ℤ w.balance.minor (pos 0)) (ok-HasFuel w) (
      >>=-HasFuel (level_row c instalment n due w) _ (level_row-HasFuel c instalment n due w)
        λ row _.
          >>=-HasFuel (close_row w row) _ (close_row-HasFuel w row)
            λ next _. level_rows-HasFuel c instalment dates (suc n) next)
