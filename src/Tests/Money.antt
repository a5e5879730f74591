-- ===== src/Tests/Money.antt =====
-- The amounts and the accrual of pkg/core/money on concrete inputs.
use marumbot.Prelude.Int.{pos, negsuc, ◌+ℤ◌, ◌-ℤ◌}
use marumbot.Money.Accrual.{actual_365, denominator, rate_ppb, accrue}
use marumbot.Prelude.{
  ap, [], ◌∷◌, ℕ, ◌*◌, ◌≡◌, ◌≢◌, refl, arith, Text, codes, ok, err, accrual_range, text_eq,
  trim_space, to_upper,
}
use marumbot.Money.Currency.{Currency, entry, registry, lookup, currency_eq}
use marumbot.Money.Amount.{amount, add, sub, unmarshal}
use marumbot.Money.Amount.Exact.{exact, add-exact, sub-exact}
use marumbot.Money.Rounding.{half_up, half_even, round_quotient}
use marumbot.Money.Rounding.Nearest.{rounded, round_quotient-rounded, IsRounded}
use marumbot.Money.Accrual.Exact.{policy, accrue_rounds, accrue_refuses}
use marumbot.Money.Accrual.Errors.{Refuses, accrue-Refuses}
use marumbot.Money.Amount.Restored.{unmarshal-kept}

abbrev pub amd : Currency
amd = entry "AMD" 2 10 "Armenian dram"

abbrev usd : Currency
usd = entry "USD" 2 1 "US dollar"

-- 10,000 drams for 30 days at 14 % a year.
accrue_rounds_example :
    (u : ℕ) × (accrue
        (amount (pos 1000000) amd)
        (pos 140000000)
        (pos 30)
        actual_365
        (policy half_up 10)
      ≡ ok (amount (pos (u * 10)) amd))
    × IsRounded half_up (1000000 * 30 * 140000000) (denominator actual_365 * rate_ppb * 10) u
accrue_rounds_example =
    accrue_rounds 1000000 30 140000000 10 half_up amd actual_365 (omega arith) (omega arith)
      (omega arith) (omega arith)

accrue_refuses_example :
    accrue (amount (pos 9223372036854775807) amd) (pos 1) (pos 2) actual_365 (policy half_up 10)
    ≡ err accrual_range
accrue_refuses_example =
    accrue_refuses 9223372036854775807 2 1 10 half_up amd actual_365 (omega arith) (omega arith)

accrue-Refuses_example :
    Refuses (accrue (amount (negsuc 4) amd) (pos 1) (pos 2) actual_365 (policy half_up 10))
accrue-Refuses_example =
    accrue-Refuses (amount (negsuc 4) amd) (pos 1) (pos 2) actual_365 (policy half_up 10)

add-exact_example :
    add (amount (pos 9223372036854775807) amd) (amount (pos 1) amd)
    ≡ exact (pos 9223372036854775807 +ℤ pos 1) amd
add-exact_example =
    add-exact (amount (pos 9223372036854775807) amd) (amount (pos 1) amd) (omega arith, omega arith)
      (omega arith, omega arith) refl

sub-exact_example : sub (amount (pos 3) amd) (amount (pos 10) amd) ≡ exact (pos 3 -ℤ pos 10) amd
sub-exact_example =
    sub-exact (amount (pos 3) amd) (amount (pos 10) amd) (omega arith, omega arith)
      (omega arith, omega arith) refl

abbrev first : Text → ℕ
first [] = 0
first (c ∷ cs) = c

amd-usd : codes "AMD" ≢ codes "USD"
amd-usd e = omega (arith, ap first e)

round_quotient-rounded_example :
    round_quotient (pos 7) (pos 5) (pos 10) half_even ≡ pos (rounded 7 5 10 half_even)
round_quotient-rounded_example =
    round_quotient-rounded 7 5 10 half_even (omega arith) (omega arith) (omega arith)

unmarshal_runs : unmarshal (pos 500) amd ≡ ok (amount (pos 500) amd)
unfolding unmarshal lookup registry text_eq trim_space to_upper currency_eq
unmarshal_runs = refl

unmarshal-kept_example :
    ((amount (pos 500) amd).minor ≡ pos 500) × ((amount (pos 500) amd).cur ≡ amd)
unmarshal-kept_example = unmarshal-kept (pos 500) amd (amount (pos 500) amd) unmarshal_runs

abbrev three_years : ℕ
three_years = 1095
