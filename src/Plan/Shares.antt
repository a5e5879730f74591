-- ===== src/Plan/Shares.antt =====
-- pkg/core/plan/budget_rules.go and budget_rules_release.go: the rounding of a big.Int quotient half
-- up, which both of them write out.
pub mod Nearest
use marumbot.Prelude.{suc, ok, panic, if◌then◌else◌, Result}
use marumbot.Prelude.Int.{neg_ℤ, negsuc, ◌+ℤ◌, rem_ℤ, ◌*ℤ◌, eq_ℤ, leb_ℤ, quot_ℤ, pos, ℤ}

-- `QuoRem` by a divisor other than 0, and the comparison of twice the remainder.
pub nearest : ℤ → ℤ → ℤ → ℤ
nearest quo rem div = if leb_ℤ div (rem *ℤ pos 2) then quo +ℤ pos 1 else quo

abbrev pub nearest_units : ℤ → ℤ → ℤ
unfolding nearest
nearest_units n (pos d) = nearest (quot_ℤ n d) (rem_ℤ n d) (pos d)
nearest_units n (negsuc d) = nearest (neg_ℤ (quot_ℤ n (suc d))) (rem_ℤ n (suc d)) (negsuc d)

-- A big.Int panics on a division by zero.
unfoldable pub whole_units : ℤ → ℤ → Result ℤ
whole_units n div = if eq_ℤ div (pos 0) then panic else ok (nearest_units n div)
