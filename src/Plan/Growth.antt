-- ===== src/Plan/Growth.antt =====
-- pkg/core/plan/budget_rules.go: one increase of a spending limit.
pub mod Limits
use marumbot.Money.Amount.{from_minor, Amount}
use marumbot.Prelude.{overflow, err, ◌>>=◌, ok, ◌||◌, not, ◌&&◌, Bool, if◌then◌else◌, Result}
use marumbot.Plan.Shares.{whole_units}
use marumbot.Prelude.Int64.{in_int64}
use marumbot.Money.Currency.{no_currency, currency_eq, Currency}
use marumbot.Prelude.Int.{◌*ℤ◌, eq_ℤ, ltb_ℤ, pos, ◌+ℤ◌, ℤ}
use marumbot.Date.Calendar.{Date}

pub record SpendingLimitGrowth : Type 0 where
  pub every_months : ℤ
  pub starts_on : Date
  pub ends_on : Date
  pub fixed : Amount
  pub percent_ppb : ℤ
  pub maximum : Amount

-- `!= (money.Amount{})`
abbrev pub is_present : Amount → Bool
is_present a = not (eq_ℤ a.minor (pos 0) && currency_eq a.cur no_currency)

-- The numerator and the denominator before the rounding.
abbrev pub grown_fraction : ℤ → SpendingLimitGrowth → ℤ × ℤ
grown_fraction m growth =
    if is_present growth.fixed
    then (m +ℤ growth.fixed.minor, pos 1)
    else if not (eq_ℤ growth.percent_ppb (pos 0))
    then (m *ℤ (pos 1000000000 +ℤ growth.percent_ppb), pos 1000000000)
    else (m, pos 1)

-- The cap, and the check that the result is an int64.
abbrev pub fit_limit : ℤ → Currency → Amount → Result Amount
fit_limit grown cur maximum =
    if is_present maximum && ltb_ℤ maximum.minor grown
    then ok maximum
    else if not (in_int64 grown)
    then err overflow
    else ok (from_minor grown cur)

-- `growSpendingLimit`
unfoldable pub grow_spending_limit : Amount → SpendingLimitGrowth → Result Amount
grow_spending_limit current growth =
    let (n, d) = grown_fraction current.minor growth in
    let unit = current.cur.settlement_unit in
    (if not (eq_ℤ growth.fixed.minor (pos 0)) || not (eq_ℤ growth.percent_ppb (pos 0))
      then (whole_units n (d *ℤ unit) >>= λ units. ok (units *ℤ unit))
      else ok n)
    >>= λ grown. fit_limit grown current.cur growth.maximum
