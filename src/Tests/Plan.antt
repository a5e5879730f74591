-- ===== src/Tests/Plan.antt =====
-- The rules of pkg/core/plan on fees, periods and limits, on concrete inputs.
use marumbot.Prelude.{
  false, suc, arith, ok, ◌+◌, trim_space, ◌*◌, ◌≡◌, to_upper, text_eq, Text, ℕ, refl,
}
use marumbot.Plan.Growth.Limits.{
  IsLimited, grow_spending_limit-IsRounded, by_nothing, by_sum, by_percent,
}
use marumbot.Money.Currency.{registry, lookup}
use marumbot.Plan.Growth.{grow_spending_limit, SpendingLimitGrowth}
use marumbot.Plan.Fees.Exact.{bp-IsRounded}
use marumbot.Plan.Release.Kept.{released_reduction-IsRelease, IsRelease}
use marumbot.Money.Accrual.Exact.{policy}
use marumbot.Plan.Fees.{bp}
use marumbot.Money.Rounding.{half_even, half_up}
use marumbot.Money.Amount.{amount, no_amount}
use marumbot.Date.Calendar.{no_date}
use marumbot.Money.Rounding.Nearest.{IsRounded}
use marumbot.Plan.Release.{released_reduction}
use marumbot.Prelude.Int.{pos}
use marumbot.Tests.Money.{amd}
use marumbot.Tests.Date.{leap_day}

amd_found : lookup amd.code ≡ ok amd
unfolding lookup text_eq to_upper trim_space registry
amd_found = refl

released_reduction-IsRelease_example :
    ((rule : Text)
      → released_reduction
          (amount (pos 50000) amd)
          (amount (pos 30000) amd)
          rule
          (amount (pos 5000) amd)
          (pos 250000000)
          false
        ≡ ok (amount (pos 0) amd))
    × IsRelease 50000 30000 amd (amount (pos 5000) amd) (pos 250000000)
released_reduction-IsRelease_example =
    released_reduction-IsRelease 50000 30000 10 5000 250000000 amd amd_found refl (omega arith)
      (omega arith) (omega arith) (omega arith)

bp-IsRounded_example :
    (k fee : ℕ) × IsRounded half_up (123456 * 250) 10000 fee
    × IsRounded half_even fee 10 k
    × (bp (amount (pos 123456) amd) (pos 250) (policy half_even 10)
        ≡ ok (amount (pos (k * 10)) amd))
bp-IsRounded_example =
    bp-IsRounded 123456 250 10 half_even amd (omega arith) (omega arith) (omega arith)

abbrev growth : SpendingLimitGrowth
growth = record {
  every_months = pos 12;
  starts_on = leap_day;
  ends_on = no_date;
  fixed = no_amount;
  percent_ppb = pos 30000000;
  maximum = amount (pos 60000) amd;
}

grow_spending_limit-IsRounded_example :
    ((k : ℕ) × IsRounded half_up (50000 * (1000000000 + suc 29999999)) (1000000000 * 10) k
      × IsLimited
          (k * 10)
          amd
          growth.maximum
          (grow_spending_limit (amount (pos 50000) amd) (by_percent growth 29999999)))
    × ((k : ℕ) × IsRounded half_up (50000 + suc 999) (1 * 10) k
        × IsLimited
            (k * 10)
            amd
            growth.maximum
            (grow_spending_limit (amount (pos 50000) amd) (by_sum growth 999 amd)))
    × IsLimited 50000 amd growth.maximum
        (grow_spending_limit (amount (pos 50000) amd) (by_nothing growth))
grow_spending_limit-IsRounded_example =
    grow_spending_limit-IsRounded 50000 10 29999999 999 growth amd refl (omega arith)
