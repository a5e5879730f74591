-- ===== src/Money/Accrual/Monotone.antt =====
-- More principal never accrues less interest.
use marumbot.Prelude.Int.{nonneg_pos, one_part, pos_part, ℤ, ◌≤ℤ◌, pos}
use marumbot.Money.Rounding.{Policy, Mode, half_up, half_even, down, up}
use marumbot.Money.Accrual.{Rate, DayCount, denominator, rate_ppb, accrue}
use marumbot.Prelude.{
  err, Error, ◌∙◌, sym, ok_injective, ap, Result, leb, ◌+◌, inl, arith, inr, ltb, Bool-cases, ok,
  ◌*◌, suc, ◌≡◌, ◌≤◌, ◌<◌, ℕ,
}
use marumbot.Prelude.Int64.{max_int64}
use marumbot.Money.Currency.{Currency}
use native.Mathlib.Nat.{mul-le-mul_right, mul-le-mul, le_trans}
use marumbot.Money.Amount.{Amount, amount}
use marumbot.Money.Rounding.Nearest.{IsRounded}
use marumbot.Money.Accrual.Exact.{
  policy, accrue_rounds, accrue_refuses, accrue_nothing, year_divisor_range,
}

-- Fractions in order cannot have roundings that are the other way round.
no_crossing :
    (m : Mode) (n k d u v : ℕ)
    → 0 < d
    → n ≤ k
    → IsRounded m n d u
    → IsRounded m k d v
    → suc v ≤ u
    → ¬ (v * d + d ≤ u * d)
no_crossing down n k d u v hd le hu hv above over = omega (arith, hu, hv)
no_crossing up n k d u v hd le hu hv above over = omega (arith, hu, hv)
no_crossing half_up n k d u v hd le hu hv above over = omega (arith, hu, hv)
no_crossing half_even n k d u v hd le hu hv above over =
    let tie_down : 2 * (u * d) ≡ 2 * n + d = omega (arith, hu.0, hv.1) in
    let tie_up : 2 * k ≡ 2 * (v * d) + d = omega (arith, hu.0, hv.1) in
    let even_u = hu.2 (inl tie_down) in
    let even_v = hv.2 (inr tie_up) in
    elim (Bool-cases (ltb (suc v) u)) [
      | inr next ↦ let same : u ≡ suc v = ground arith in omega (arith, even_u, even_v, same)
      | inl far ↦
          let two : suc (suc v) ≤ u = ground arith in
          let more : suc (suc v) * d ≤ u * d = mul-le-mul_right d two in
          omega (arith, more, tie_down, hv.1)
    ]

-- The roundings of two fractions with one divisor are in the order of the fractions.
pub IsRounded-monotone :
    (m : Mode) (n k d u v : ℕ) → 0 < d → n ≤ k → IsRounded m n d u → IsRounded m k d v → u ≤ v
IsRounded-monotone m n k d u v hd le hu hv = elim (Bool-cases (ltb v u)) [
  | inr no_more ↦ ground arith
  | inl more ↦
      let above : suc v ≤ u = ground arith in
      let over : suc v * d ≤ u * d = mul-le-mul_right d above in
      absurd (no_crossing m n k d u v hd le hu hv above (omega (arith, over)))
]

refused_not_ok : (r : Result Amount) (j : Amount) {e : Error} → r ≡ ok j → ¬ (r ≡ err e)
refused_not_ok r j e f = cc

of_value : (i k : Amount) (r : Result Amount) → r ≡ ok i → r ≡ ok k → i.minor ≡ k.minor
of_value i k r e f = ap (λ a. a.minor) (ok_injective (sym e ∙ f))

-- The same amount of interest, from the numbers that the arguments hold.
pub accrue_monotone_numbers :
    (p q d r unit : ℕ) (m : Mode) (b c : Currency) (dc : DayCount)
    → 0 < unit
    → unit ≤ 10_000_000
    → r ≤ 100_000_000_000
    → p ≤ q
    → (i j : Amount) → accrue (amount (pos p) b) (pos r) (pos d) dc (policy m unit) ≡ ok i
    → accrue (amount (pos q) c) (pos r) (pos d) dc (policy m unit) ≡ ok j
    → (pos 0 ≤ℤ i.minor) × (i.minor ≤ℤ j.minor)
accrue_monotone_numbers p q d r unit m b c dc hu hu' hr le i j ei ej =
    elim (Bool-cases (leb (q * d) max_int64)) [
      | inl fits ↦
          let more : p * d ≤ q * d = mul-le-mul_right d le in
          let (u, eu, hu1) = accrue_rounds p d r unit m b dc hu hu' hr (ground arith) in
          let (v, ev, hv1) = accrue_rounds q d r unit m c dc hu hu' hr (ground arith) in
          let y = year_divisor_range dc in
          let low : u ≤ v =
            IsRounded-monotone m (p * d * r) (q * d * r) (denominator dc * rate_ppb * unit) u v
              (le_trans (omega arith) (mul-le-mul y.0 hu)) (mul-le-mul_right r more) hu1 hv1 in
          let scaled_up : u * unit ≤ v * unit = mul-le-mul_right unit low in
          rw (of_value i _ _ ei eu, of_value j _ _ ej ev) (omega arith, omega (arith, scaled_up))
      | inr wide ↦ elim (Bool-cases (ltb 0 r)) [
        | inl some_rate ↦
            absurd (
              refused_not_ok _ _ ej
                (accrue_refuses q d r unit m c dc (ground arith) (ground arith)))
        | inr no_rate ↦
            let z : r ≡ 0 = ground arith in
            rw
              (
                of_value i _ _ ei (accrue_nothing p d r unit m b dc (inr (inr z))),
                of_value j _ _ ej (accrue_nothing q d r unit m c dc (inr (inr z))),
              )
              (omega arith, omega arith)
      ]
    ]

-- Terms inside the bounds of the theorems on interest: a rate of at most 10,000 % a year and a
-- settlement unit of 1 to 10^7 minor units.
pub record HasTerms (rate : Rate) (p : Policy) : Type 0 where
  pub rate_low : pos 0 ≤ℤ rate
  pub rate_high : pos_part rate ≤ 100_000_000_000
  pub unit_low : pos 1 ≤ℤ p.unit
  pub unit_high : pos_part p.unit ≤ 10_000_000

pub as_numbers :
    (a : Amount) (rate : Rate) (days : ℤ) (dc : DayCount) (p : Policy)
    → HasTerms rate p
    → pos 0 ≤ℤ a.minor
    → pos 0 ≤ℤ days
    → accrue a rate days dc p
      ≡ accrue
          (amount (pos (pos_part a.minor)) a.cur)
          (pos (pos_part rate))
          (pos (pos_part days))
          dc
          (policy p.mode (pos_part p.unit))
as_numbers a rate days dc p t ha hd =
    ap (λ z. accrue (amount z a.cur) rate days dc p) (nonneg_pos a.minor ha)
    ∙ ap (λ z. accrue (amount (pos (pos_part a.minor)) a.cur) z days dc p)
        (nonneg_pos rate t.rate_low)
    ∙ ap (λ z. accrue (amount (pos (pos_part a.minor)) a.cur) (pos (pos_part rate)) z dc p)
        (nonneg_pos days hd)
    ∙ ap
        (λ z.
          accrue (amount (pos (pos_part a.minor)) a.cur) (pos (pos_part rate)) (pos (pos_part days))
            dc (record { mode = p.mode; unit = z }))
        (nonneg_pos p.unit (let low = t.unit_low in omega arith))

pub accrue_monotone :
    (a b : Amount) (rate : Rate) (days : ℤ) (dc : DayCount) (p : Policy) (i j : Amount)
    → HasTerms rate p
    → pos 0 ≤ℤ days
    → pos 0 ≤ℤ a.minor
    → a.minor ≤ℤ b.minor
    → accrue a rate days dc p ≡ ok i
    → accrue b rate days dc p ≡ ok j
    → (pos 0 ≤ℤ i.minor) × (i.minor ≤ℤ j.minor)
accrue_monotone a b rate days dc p i j t hd ha le ei ej =
    accrue_monotone_numbers (pos_part a.minor) (pos_part b.minor) (pos_part days) (pos_part rate)
      (pos_part p.unit) p.mode a.cur b.cur dc (let low = t.unit_low in omega arith) t.unit_high
      t.rate_high (omega (arith, one_part a.minor, one_part b.minor)) i j
      (sym (as_numbers a rate days dc p t ha hd) ∙ ei)
      (sym (as_numbers b rate days dc p t (omega (arith, ha, le)) hd) ∙ ej)
