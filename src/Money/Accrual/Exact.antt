-- ===== src/Money/Accrual/Exact.antt =====
-- Interest is the exact fraction principal x rate x days / (denominator x 10^9), rounded once.
use native.Mathlib.Nat.{
  le-div_iff_mul-le, div-add-mod', mod-lt, mul-le-mul_right, mul-le-mul, div-mul-le_self, le_trans,
  div-lt_iff_lt-mul,
}
use marumbot.Prelude.{
  subst, ℕ, zero, suc, ◌+◌, ◌*◌, ◌/◌, ◌%◌, ◌≤◌, ◌<◌, ◌≡◌, refl, true, false, arith, ltb, leb, ok,
  err, accrual_range, inl, inr, ap, ◌∙◌, ◌⊎◌,
}
use marumbot.Prelude.Int.{pos, pos_part, ◌*ℤ◌, ltb_ℤ}
use marumbot.Prelude.Int64.{max_int64, wrap64_id}
use marumbot.Money.Currency.{Currency}
use marumbot.Money.Amount.{amount}
use marumbot.Money.Rounding.{Policy, Mode, half_up, half_even, down, up, unit_of, round_quotient}
use marumbot.Money.Rounding.Nearest.{
  rounded-le, IsRounded, rounded, rounded-IsRounded, round_quotient-rounded,
}
use marumbot.Money.Accrual.{
  DayCount, actual_365, actual_360, thirty_360, actual_actual, denominator, rate_ppb,
  mul_no_overflow, scale_back, quantised, scaled, accrue,
}

pub *ℤ_pos : (a b : ℕ) → pos a *ℤ pos b ≡ pos (a * b)
unfolding ◌*ℤ◌
*ℤ_pos a b = ground arith

mul_no_overflow_fits :
    (a b : ℕ) → 0 < a → 0 < b → a * b ≤ max_int64 → mul_no_overflow a b ≡ ok (a * b)
unfolding mul_no_overflow
mul_no_overflow_fits a b ha hb h =
    let k : a ≤ max_int64 / b = (le-div_iff_mul-le hb).1 h in ground arith

module _ (n div unit : ℕ) (m : Mode) (c : Currency) (hdiv : 0 < div) (hunit : 0 < unit)
    (small : n / div * unit + unit ≤ max_int64) (narrow : div ≤ 4611686018427387904)
    (high : n / 18446744073709551616 < div) where
  units : ℕ
  units = rounded (n / div) (n % div) div m

  units-fit : units * unit ≤ max_int64
  unfolding units
  units-fit =
      let h = rounded-le (n / div) (n % div) div m in
      let k : units * unit ≤ (n / div + 1) * unit = mul-le-mul_right unit h in omega arith

  units-IsRounded : IsRounded m n div units
  unfolding units
  units-IsRounded =
      subst (λ k. IsRounded m k div units) (div-add-mod' n div)
        (rounded-IsRounded (n / div) (n % div) div m (mod-lt n hdiv))

  quantised_lem : quantised n div unit m c ≡ ok (amount (pos (units * unit)) c)
  unfolding quantised scale_back
  quantised_lem =
      let wide : n / 18446744073709551616 * 18446744073709551616 + n % 18446744073709551616 ≡ n =
        omega arith in
      let narrow_high : leb div (n / 18446744073709551616) ≡ false = ground arith in
      let fits : units ≤ max_int64 / unit = (le-div_iff_mul-le hunit).1 units-fit in
      let quo_fits : n / div ≤ max_int64 / unit = (le-div_iff_mul-le hunit).1 (omega arith) in
      let quo_ok : ltb (max_int64 / unit) (n / div) ≡ false = ground arith in
      let units_ok : ltb_ℤ (pos (max_int64 / unit)) (pos units) ≡ false = ground arith in
      let r : round_quotient (pos (n / div)) (pos (n % div)) (pos div) m ≡ pos units =
        unfold units in
        round_quotient-rounded (n / div) (n % div) div m (mod-lt n hdiv) narrow (grind arith) in
      rw (narrow_high, wide, quo_ok, r, units_ok, *ℤ_pos)
        (ap (λ z. ok (amount z c)) (wrap64_id (pos (units * unit)) (units-fit, omega arith)))

abbrev pub policy : Mode → ℕ → Policy
policy m unit = record { mode = m; unit = pos unit }

pub year_divisor_range :
    (dc : DayCount)
    → (360_000_000_000 ≤ denominator dc * rate_ppb) × (denominator dc * rate_ppb ≤ 365_000_000_000)
year_divisor_range actual_365 = omega arith
year_divisor_range actual_360 = omega arith
year_divisor_range thirty_360 = omega arith
year_divisor_range actual_actual = omega arith

module _ (p d r unit y : ℕ) (m : Mode) (c : Currency) (hd : 0 < d) (hu : 0 < unit)
    (hu' : unit ≤ 10_000_000) (hr : r ≤ 100_000_000_000) (fits : p * d ≤ max_int64)
    (hy : 360_000_000_000 ≤ y) (hy' : y ≤ 365_000_000_000) where
  div_bounds : (y ≤ y * unit) × (y * unit ≤ 3_650_000_000_000_000_000)
  div_bounds = (grind arith, mul-le-mul hy' hu')

  product-le : p * d * r ≤ 922337203685477580700000000000
  product-le = mul-le-mul fits hr

  quotient_small : p * d * r / (y * unit) * unit + unit ≤ max_int64
  quotient_small =
      let q = p * d * r / (y * unit) in
      omega
        (arith, product-le, div-mul-le_self (p * d * r) (y * unit), mul-le-mul_right (q * unit) hy)

  product_rounds :
      (u : ℕ) × (quantised (p * d * r) (y * unit) unit m c ≡ ok (amount (pos (u * unit)) c))
      × IsRounded m (p * d * r) (y * unit) u
  product_rounds =
      let pos_div : 0 < y * unit = omega (arith, div_bounds) in
      let narrow : y * unit ≤ 4611686018427387904 = omega (arith, div_bounds) in
      let high : p * d * r / 18446744073709551616 < y * unit =
        omega (arith, product-le, div_bounds) in
      (
        units (p * d * r) (y * unit) unit m c pos_div hu quotient_small narrow high,
        quantised_lem (p * d * r) (y * unit) unit m c pos_div hu quotient_small narrow high,
        units-IsRounded (p * d * r) (y * unit) unit m c pos_div hu quotient_small narrow high,
      )

module _ (p d r unit : ℕ) (m : Mode) (c : Currency) (dc : DayCount) where
  accrue_positive :
      0 < p
      → 0 < d
      → 0 < r
      → accrue (amount (pos p) c) (pos r) (pos d) dc (policy m unit)
        ≡ scaled p r d dc (policy m unit) c
  unfolding accrue
  accrue_positive hp hd hr = ground arith

  pub accrue_nothing :
      ((p ≡ 0) ⊎ ((d ≡ 0) ⊎ (r ≡ 0)))
      → accrue (amount (pos p) c) (pos r) (pos d) dc (policy m unit) ≡ ok (amount (pos 0) c)
  unfolding accrue
  accrue_nothing h = ground arith

  unit_of-policy : 0 < unit → pos_part (unit_of (policy m unit)) ≡ unit
  unit_of-policy hu = ground arith

  scaled_fits :
      0 < d
      → 0 < unit
      → unit ≤ 10_000_000
      → p * d ≤ max_int64
      → scaled p r d dc (policy m unit) c
        ≡ quantised (p * d * r) (denominator dc * rate_ppb * unit) unit m c
  unfolding scaled
  scaled_fits hd hu hu' fits =
      let y = year_divisor_range dc in
      let days_ok : ltb (max_int64 / d) p ≡ false =
        let k : p ≤ max_int64 / d = (le-div_iff_mul-le hd).1 fits in ground arith in
      rw (
        unit_of-policy hu,
        days_ok,
        mul_no_overflow_fits (denominator dc) rate_ppb (omega arith) (omega arith) (omega arith),
        mul_no_overflow_fits (denominator dc * rate_ppb) unit (omega arith) hu
            (le_trans (mul-le-mul y.1 hu') (omega arith)),
      )

  scaled_wide : 0 < d → max_int64 < p * d → scaled p r d dc (policy m unit) c ≡ err accrual_range
  unfolding scaled
  scaled_wide hd wide =
      let k : max_int64 / d < p = (div-lt_iff_lt-mul hd).1 wide in
      let days_wide : ltb (max_int64 / d) p ≡ true = ground arith in rw days_wide

-- One of three numbers is 0, or none is.
zero-cases : (p d r : ℕ) → ((p ≡ 0) ⊎ ((d ≡ 0) ⊎ (r ≡ 0))) ⊎ ((0 < p) × (0 < d) × (0 < r))
zero-cases zero d r = inl (inl refl)
zero-cases (suc p) zero r = inl (inr (inl refl))
zero-cases (suc p) (suc d) zero = inl (inr (inr refl))
zero-cases (suc p) (suc d) (suc r) = inr (omega arith)

no_product : (p d r : ℕ) → ((p ≡ 0) ⊎ ((d ≡ 0) ⊎ (r ≡ 0))) → p * d * r ≡ 0
no_product p d r (inl h) = rw h (grind arith)
no_product p d r (inr (inl h)) = rw h (grind arith)
no_product p d r (inr (inr h)) = rw h (grind arith)

IsRounded-zero : (m : Mode) (d : ℕ) → 0 < d → IsRounded m 0 d 0
IsRounded-zero half_up d h = omega arith
IsRounded-zero half_even d h = (omega arith, omega arith, λ _. refl)
IsRounded-zero down d h = omega arith
IsRounded-zero up d h = omega arith

-- Accrue, for a principal of p minor units, d days and a rate of r parts per billion that is at
-- most 10,000 % a year, under a settlement unit of 1 to 10^7 minor units: if p x d fits in int64
-- it returns a multiple of the unit in the principal's currency, and the number of units is the
-- exact fraction p x d x r / (denominator x 10^9 x unit) rounded once by the policy's mode. It
-- never fails and never wraps round there.
pub accrue_rounds :
    (p d r unit : ℕ) (m : Mode) (c : Currency) (dc : DayCount)
    → 0 < unit
    → unit ≤ 10_000_000
    → r ≤ 100_000_000_000
    → p * d ≤ max_int64
    → (u : ℕ) × (accrue (amount (pos p) c) (pos r) (pos d) dc (policy m unit)
        ≡ ok (amount (pos (u * unit)) c))
      × IsRounded m (p * d * r) (denominator dc * rate_ppb * unit) u
unfolding accrue
accrue_rounds p d r unit m c dc hu hu' hr fits =
    let y = year_divisor_range dc in
    elim (zero-cases p d r) [
      | inl none_left ↦ (
        0,
        (let e : 0 ≡ 0 * unit = omega arith in
            accrue_nothing p d r unit m c dc none_left ∙ ap (λ z. ok (amount (pos z) c)) e),
        rw (no_product p d r none_left) (
            IsRounded-zero m (denominator dc * rate_ppb * unit)
              (le_trans (omega arith) (mul-le-mul y.0 hu))),
      )
      | inr all_left ↦
          let q =
            product_rounds p d r unit (denominator dc * rate_ppb) m c all_left.1 hu hu' hr fits y.0
              y.1 in
          (
            q.0,
            accrue_positive p d r unit m c dc all_left.0 all_left.1 all_left.2
                ∙ scaled_fits p d r unit m c dc all_left.1 hu hu' fits
                ∙ q.1,
            q.2,
          )
    ]

-- Accrue refuses with ErrAccrualRange, and never wraps round, when the product of the principal
-- and the days does not fit in int64 and the rate is not zero.
pub accrue_refuses :
    (p d r unit : ℕ) (m : Mode) (c : Currency) (dc : DayCount)
    → 0 < r
    → max_int64 < p * d
    → accrue (amount (pos p) c) (pos r) (pos d) dc (policy m unit) ≡ err accrual_range
accrue_refuses p d r unit m c dc hr wide = elim (zero-cases p d 1) [
  | inl none_left ↦ absurd (omega (arith, no_product p d 1 none_left))
  | inr all_left ↦
      accrue_positive p d r unit m c dc all_left.0 all_left.1 hr
      ∙ scaled_wide p d r unit m c dc all_left.1 wide
]
