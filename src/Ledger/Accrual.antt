-- ===== src/Ledger/Accrual.antt =====
-- pkg/core/ledger/helpers.go: the contract version in force on a date, and interest over an
-- interval that is split where versions change.
pub mod Version
pub mod Fuel
use marumbot.Prelude.{
  ℕ, zero, suc, ◌≡◌, Bool, true, false, not, ◌&&◌, ◌||◌, List, [], ◌∷◌, if◌then◌else◌, Result, ok,
  err, panic, ◌>>=◌, Option, none, some, no_contract, out_of_fuel,
}
use marumbot.Prelude.Int.{ℤ, pos, pos_part, ◌-ℤ◌, ltb_ℤ, leb_ℤ, eq_ℤ}
use marumbot.Money.Amount.{Amount, zero_amount, add}
use marumbot.Money.Accrual.{DayCount, actual_365, actual_360, thirty_360, actual_actual, accrue}
use marumbot.Date.Calendar.{
  Date, before, after, is_zero, add_days, days_between, days_30360, ordinal,
}
use marumbot.Model.Buckets.{Buckets, currency_of}
use marumbot.Model.Loan.{Contract, covers_date}

-- The loop of `contractFor`: the best version so far, if any.
better : Date → Option Contract → Contract → Option Contract
better d none c = if covers_date c d then some c else none
better d (some best) c =
    if covers_date c d && after c.effective_from best.effective_from then some c else some best

best_contract : Date → Option Contract → List Contract → Option Contract
best_contract d best [] = best
best_contract d best (c ∷ cs) = best_contract d (better d best c) cs

chosen : Option Contract → Result Contract
chosen none = err no_contract
chosen (some c) = ok c

unfoldable pub contract_for : List Contract → Date → Result Contract
unfolding better best_contract chosen
contract_for versions d = chosen (best_contract d none versions)

is_thirty_360 : DayCount → Bool
is_thirty_360 thirty_360 = true
is_thirty_360 actual_365 = false
is_thirty_360 actual_360 = false
is_thirty_360 actual_actual = false

-- `accrue` of this package, after its day count.
accrue_on : Buckets → Contract → ℤ → Result Amount
accrue_on b c days = add b.principal_due b.late_principal >>= λ base.
    if leb_ℤ base.minor (pos 0)
    then ok (zero_amount (currency_of b))
    else accrue base c.nominal_rate days c.day_count c.rounding

unfoldable pub accrue_segment : Buckets → Contract → Date → Date → Result Amount
unfolding is_thirty_360 accrue_on
accrue_segment b c from to =
    if leb_ℤ (days_between from to) (pos 0)
    then ok (zero_amount (currency_of b))
    else if is_thirty_360 c.day_count
    then (if leb_ℤ (days_30360 from to) (pos 0)
        then ok (zero_amount (currency_of b))
        else accrue_on b c (days_30360 from to))
    else accrue_on b c (days_between from to)

-- Where a segment that one version governs ends.
abbrev pub segment_end : Contract → Date → Date
segment_end c to =
    if not (is_zero c.effective_thru) && before c.effective_thru to then c.effective_thru else to

-- The body of the loop of `accrueAcross` for the version that governs the segment; `rest` is the
-- loop from the segment's end on.
segment :
    Buckets → Date → Date → Amount → (Date → Amount → Result Amount) → Contract → Result Amount
segment b seg_start to total rest c =
    if not (after (segment_end c to) seg_start)
    then err no_contract
    else (accrue_segment b c seg_start (segment_end c to) >>= λ part.
        add total part >>= λ total'. rest (segment_end c to) total')

-- The loop, on fuel.
pub across : ℕ → Buckets → List Contract → Date → Date → Amount → Result Amount
across zero b versions seg_start to total = err out_of_fuel
across (suc fuel) b versions seg_start to total =
    if not (before seg_start to)
    then ok total
    else (contract_for versions (add_days seg_start (pos 1))
        >>= segment b seg_start to total (λ next total'. across fuel b versions next to total'))

-- `accrueAcross`. Each round moves on by a day or more, so the days of the interval are fuel enough.
unfoldable pub accrue_across : Buckets → List Contract → Date → Date → Result Amount
unfolding across segment
accrue_across b versions from to =
    across (suc (pos_part (ordinal to -ℤ ordinal from))) b versions from to
      (zero_amount (currency_of b))

unfoldable pub add_interest : Buckets → Amount → Result Buckets
add_interest b interest =
    if eq_ℤ interest.minor (pos 0)
    then ok b
    else (add b.accrued interest >>= λ sum. ok (record b { accrued = sum }))
