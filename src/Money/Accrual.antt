-- ===== src/Money/Accrual.antt =====
-- pkg/core/money/accrual.go: interest over a number of days, with the product in 128 bits, one
-- division and one rounding.
pub mod Monotone
pub mod Range
pub mod Exact
pub mod Errors
pub mod Quantised
use marumbot.Prelude.{
  ℕ, ◌+◌, ◌-◌, ◌*◌, ◌/◌, ◌%◌, ◌≤◌, ◌<◌, ◌≡◌, Bool, true, false, not, ◌&&◌, ◌||◌, List, [], ◌∷◌,
  ◌==◌, ltb, leb, if◌then◌else◌, Result, ok, err, panic, negative, accrual_range, ◌>>=◌, length,
}
use marumbot.Prelude.Int.{
  ℤ, pos, negsuc, pos_part, ◌+ℤ◌, ◌*ℤ◌, neg_ℤ, rem_ℤ, quot_ℤ, ltb_ℤ, leb_ℤ, eq_ℤ,
}
use marumbot.Prelude.Int64.{wrap64, max_int64}
use marumbot.Money.Currency.{Currency}
use marumbot.Money.Amount.{Amount, amount, no_amount, zero_amount, add}
use marumbot.Money.Rounding.{Policy, Mode, half_up, unit_of, round_quotient}

-- A rate in parts per billion, an int64.
abbrev pub Rate : Type 0
Rate = ℤ

abbrev pub rate_ppb : ℕ
rate_ppb = 1_000_000_000

unfoldable rate_from_percent : ℤ → ℤ → Rate
rate_from_percent percent micro =
    wrap64
      (quot_ℤ (wrap64 (percent *ℤ pos rate_ppb)) 100 +ℤ quot_ℤ (wrap64 (micro *ℤ pos 1000)) 100)

pub data DayCount : Type 0 where
  actual_365 actual_360 thirty_360 actual_actual : DayCount

abbrev pub denominator : DayCount → ℕ
denominator actual_360 = 360
denominator thirty_360 = 360
denominator actual_365 = 365
denominator actual_actual = 365

pub is_leap : ℤ → Bool
is_leap y =
    eq_ℤ (rem_ℤ y 4) (pos 0) && (not (eq_ℤ (rem_ℤ y 100) (pos 0)) || eq_ℤ (rem_ℤ y 400) (pos 0))

unfoldable year_denominator : DayCount → ℤ → ℕ
unfolding is_leap
year_denominator actual_actual year = if is_leap year then 366 else 365
year_denominator actual_365 year = denominator actual_365
year_denominator actual_360 year = denominator actual_360
year_denominator thirty_360 year = denominator thirty_360

-- `mulNoOverflow`, on operands that are not negative: its callers pass no other.
unfoldable pub mul_no_overflow : ℕ → ℕ → Result ℕ
mul_no_overflow a b =
    if a == 0 || b == 0
    then ok 0
    else if ltb (max_int64 / b) a
    then err accrual_range
    else ok (a * b)

-- The high and the low word of a product, `bits.Mul64`.
abbrev pub high_word : ℕ → ℕ
high_word n = n / 18446744073709551616

abbrev pub low_word : ℕ → ℕ
low_word n = n % 18446744073709551616

-- `bits.Div64`, which panics where the quotient does not fit in a word, a division by 0 included.
pub div_64 : ℕ → ℕ → ℕ → Result (ℕ × ℕ)
div_64 hi lo div =
    let wide = hi * 18446744073709551616 + lo in
    if leb div hi then panic else ok (wide / div, wide % div)

-- `Accrue` from the division on.
scale_back : ℕ × ℕ → ℕ → ℕ → Mode → Currency → Result Amount
scale_back quotient div unit m c =
    let units = round_quotient (pos quotient.0) (pos quotient.1) (pos div) m in
    if ltb (max_int64 / unit) quotient.0
    then err accrual_range
    else if ltb_ℤ (pos (max_int64 / unit)) units
    then err accrual_range
    else ok (amount (wrap64 (units *ℤ pos unit)) c)

-- `Accrue` from the test of hi on: n is the product of 128 bits. `int64(rem)` is below div.
quantised : ℕ → ℕ → ℕ → Mode → Currency → Result Amount
unfolding div_64 scale_back
quantised n div unit m c =
    if leb div (high_word n)
    then err accrual_range
    else (div_64 (high_word n) (low_word n) div >>= λ quotient. scale_back quotient div unit m c)

-- `Accrue` from step 1 on, where none of the three operands is negative or zero: each is the
-- natural number that it holds.
scaled : ℕ → ℕ → ℕ → DayCount → Policy → Currency → Result Amount
unfolding quantised
scaled principal rate days dc p c =
    let unit = pos_part (unit_of p) in
    if ltb (max_int64 / days) principal
    then err accrual_range
    else (mul_no_overflow (denominator dc) rate_ppb >>= λ year.
        mul_no_overflow year unit >>= λ div. quantised (principal * days * rate) div unit p.mode c)

unfoldable pub accrue : Amount → Rate → ℤ → DayCount → Policy → Result Amount
unfolding scaled
accrue principal rate days dc p =
    if ltb_ℤ days (pos 0)
    then err accrual_range
    else if ltb_ℤ principal.minor (pos 0)
    then err negative
    else if ltb_ℤ rate (pos 0)
    then err accrual_range
    else if eq_ℤ days (pos 0) || eq_ℤ rate (pos 0) || eq_ℤ principal.minor (pos 0)
    then ok (zero_amount principal.cur)
    else scaled (pos_part principal.minor) (pos_part rate) (pos_part days) dc p principal.cur

-- `abs64`
abbrev pub abs64 : ℤ → ℤ
abs64 v = if ltb_ℤ v (pos 0) then wrap64 (neg_ℤ v) else v

-- `Quantise`
unfoldable pub quantise : Amount → Policy → Amount
quantise a p =
    let unit = pos_part (unit_of p) in
    let v = abs64 a.minor in
    let out =
      wrap64 (round_quotient (quot_ℤ v unit) (rem_ℤ v unit) (pos unit) p.mode *ℤ pos unit) in
    if unit == 1
    then a
    else amount (if ltb_ℤ a.minor (pos 0) then wrap64 (neg_ℤ out) else out) a.cur

pub record YearSpan : Type 0 where
  pub year : ℤ
  pub days : ℤ

-- `accrueUnrounded` after its first test. Its callers have turned away a negative number of days;
-- a negative principal or rate passes its tests and is then read as a uint64.
abbrev as_uint64 : ℤ → ℕ
as_uint64 (pos n) = n
as_uint64 (negsuc n) = 18446744073709551615 - n

unrounded_quotient : ℕ → ℕ → Currency → Result Amount
unfolding div_64
unrounded_quotient n div c =
    if leb div (high_word n)
    then err accrual_range
    else (div_64 (high_word n) (low_word n) div >>= λ quotient.
        if ltb max_int64 quotient.0
        then err accrual_range
        else ok (amount (round_quotient (pos quotient.0) (pos quotient.1) (pos div) half_up) c))

unfoldable accrue_unrounded : Amount → Rate → ℤ → ℕ → Result Amount
unfolding unrounded_quotient
accrue_unrounded principal rate days denom =
    if eq_ℤ days (pos 0) || eq_ℤ rate (pos 0) || eq_ℤ principal.minor (pos 0)
    then ok (zero_amount principal.cur)
    else if ltb_ℤ (pos (max_int64 / pos_part days)) principal.minor
    then err accrual_range
    else (mul_no_overflow denom rate_ppb >>= λ div.
        unrounded_quotient (as_uint64 (wrap64 (principal.minor *ℤ days)) * as_uint64 rate) div
          principal.cur)

any_negative : List YearSpan → Bool
any_negative [] = false
any_negative (s ∷ spans) = ltb_ℤ s.days (pos 0) || any_negative spans

total_days : List YearSpan → ℤ → ℤ
total_days [] total = total
total_days (s ∷ spans) total = total_days spans (wrap64 (total +ℤ s.days))

-- The loop over the spans of more than one year.
sum_spans : Amount → Rate → DayCount → List YearSpan → Amount → Result Amount
sum_spans principal rate dc [] sum = ok sum
sum_spans principal rate dc (s ∷ spans) sum =
    accrue_unrounded principal rate s.days (year_denominator dc s.year) >>= λ part.
    add sum part >>= λ sum'. sum_spans principal rate dc spans sum'

abbrev is_actual_actual : DayCount → Bool
is_actual_actual actual_actual = true
is_actual_actual actual_365 = false
is_actual_actual actual_360 = false
is_actual_actual thirty_360 = false

-- `AccrueBetween`
unfoldable accrue_between : Amount → Rate → List YearSpan → DayCount → Policy → Result Amount
unfolding any_negative total_days sum_spans
accrue_between principal rate spans dc p =
    if any_negative spans
    then err accrual_range
    else if not (is_actual_actual dc) || leb (length spans) 1
    then accrue principal rate (total_days spans (pos 0)) dc p
    else (sum_spans principal rate dc spans (zero_amount principal.cur) >>= λ sum.
        ok (quantise sum p))
