-- ===== src/Money/Rounding.antt =====
-- pkg/core/money/rounding.go: the rounding modes, the policy, and the one place where a quotient
-- is rounded.
pub mod Nearest
use marumbot.Prelude.{ℕ, ◌≡◌, Bool, not, ◌==◌, if◌then◌else◌}
use marumbot.Prelude.Int.{ℤ, pos, ◌+ℤ◌, ◌*ℤ◌, rem_ℤ, ltb_ℤ, leb_ℤ, eq_ℤ}
use marumbot.Prelude.Int64.{wrap64}
use marumbot.Money.Currency.{Currency}

pub data Mode : Type 0 where
  half_up half_even down up : Mode

pub record Policy : Type 0 where
  pub mode : Mode
  pub unit : ℤ

-- `unit()`
abbrev pub unit_of : Policy → ℤ
unit_of p = if ltb_ℤ p.unit (pos 1) then pos 1 else p.unit

-- `DefaultPolicy` of currency.go
abbrev pub default_policy : Currency → Policy
default_policy c = record { mode = half_up; unit = c.settlement_unit }

-- The switch of `roundQuotient`, for a remainder other than 0.
resolve : ℤ → ℤ → ℤ → Mode → ℤ
resolve quo rem div down = quo
resolve quo rem div up = wrap64 (quo +ℤ pos 1)
resolve quo rem div half_even =
    let twice = wrap64 (rem *ℤ pos 2) in
    if ltb_ℤ div twice
    then wrap64 (quo +ℤ pos 1)
    else if ltb_ℤ twice div
    then quo
    else if not (eq_ℤ (rem_ℤ quo 2) (pos 0))
    then wrap64 (quo +ℤ pos 1)
    else quo
resolve quo rem div half_up =
    if leb_ℤ div (wrap64 (rem *ℤ pos 2)) then wrap64 (quo +ℤ pos 1) else quo

-- `roundQuotient`, on int64.
unfoldable pub round_quotient : ℤ → ℤ → ℤ → Mode → ℤ
unfolding resolve
round_quotient quo rem div m = if eq_ℤ rem (pos 0) then quo else resolve quo rem div m
