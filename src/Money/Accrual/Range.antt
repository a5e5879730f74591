-- ===== src/Money/Accrual/Range.antt =====
-- What `Accrue` answers with, whatever its inputs: an int64 in the currency of the principal.
use marumbot.Prelude.{
  ℕ, refl, ◌≡◌, Ensures, ensures_ok, ensures_err, >>=-Ensures, if-Ensures, arith,
}
use marumbot.Prelude.Int.{ℤ}
use marumbot.Prelude.Int64.{wrap64, wrap64-InInt64}
use marumbot.Money.Currency.{Currency}
use marumbot.Money.Amount.{Amount, amount, zero_amount}
use marumbot.Money.Amount.Exact.{IsAmount}
use marumbot.Money.Rounding.{Policy, Mode}
use marumbot.Money.Accrual.{Rate, DayCount, scale_back, quantised, scaled, accrue}

-- An amount that fits in int64, in this currency.
pub record IsIn (c : Currency) (a : Amount) : Type 0 where
  pub in_range : IsAmount a
  pub same_currency : a.cur ≡ c

wrapped-IsIn : (z : ℤ) (c : Currency) → IsIn c (amount (wrap64 z) c)
wrapped-IsIn z c = record { in_range = wrap64-InInt64 z; same_currency = refl }

zero-IsIn : (c : Currency) → IsIn c (zero_amount c)
zero-IsIn c = record { in_range = omega arith; same_currency = refl }

scale_back-IsIn :
    (q : ℕ × ℕ) (div unit : ℕ) (m : Mode) (c : Currency)
    → Ensures (IsIn c) (scale_back q div unit m c)
unfolding scale_back
scale_back-IsIn q div unit m c = search (if-Ensures, ensures_ok, ensures_err, wrapped-IsIn) depth 12

quantised-IsIn :
    (n div unit : ℕ) (m : Mode) (c : Currency) → Ensures (IsIn c) (quantised n div unit m c)
unfolding quantised
quantised-IsIn n div unit m c =
    search (if-Ensures, >>=-Ensures, ensures_err, scale_back-IsIn) depth 12

scaled-IsIn :
    (p r d : ℕ) (dc : DayCount) (q : Policy) (c : Currency) → Ensures (IsIn c) (scaled p r d dc q c)
unfolding scaled
scaled-IsIn p r d dc q c = search (if-Ensures, >>=-Ensures, ensures_err, quantised-IsIn) depth 12

pub accrue-IsIn :
    (a : Amount) (r : Rate) (d : ℤ) (dc : DayCount) (p : Policy)
    → Ensures (IsIn a.cur) (accrue a r d dc p)
unfolding accrue
accrue-IsIn a r d dc p =
    search (if-Ensures, ensures_ok, ensures_err, zero-IsIn, scaled-IsIn) depth 12
