-- ===== src/Plan/Fees/Exact.antt =====
-- The fee in basis points, and the two roundings behind it.
use marumbot.Prelude.{refl, zero, subst, arith, suc, false, ok, ◌+◌, ◌/◌, ◌&&◌, ◌*◌, ◌≤◌, ℕ, ◌≡◌}
use marumbot.Money.Accrual.Exact.{*ℤ_pos, policy}
use marumbot.Prelude.Int64.{wrap64_id, wrap64}
use marumbot.Money.Accrual.Quantised.{quantise-IsRounded}
use marumbot.Prelude.Int.{int_laws, ◌+ℤ◌, ltb_ℤ, pos}
use marumbot.Money.Rounding.{half_up, Mode}
use marumbot.Money.Rounding.Nearest.{IsRounded}
use marumbot.Money.Currency.{Currency}
use marumbot.Plan.Fees.{bp}
use marumbot.Money.Amount.{amount}
use native.Mathlib.Nat.{le-div_iff_mul-le, mul_comm}

no_overflow :
    (m points : ℕ)
    → m * points ≤ 4_611_686_018_427_387_904
    → (ltb_ℤ (pos 0) (pos m) && ltb_ℤ (pos (4611686018427387904 / m)) (pos points)) ≡ false
no_overflow zero points h = refl
no_overflow (suc m) points h =
    let k : points * suc m ≤ 4611686018427387904 =
      subst (λ n. n ≤ 4611686018427387904) (mul_comm (suc m) points) h in
    let q : points ≤ 4611686018427387904 / suc m = (le-div_iff_mul-le (omega arith)).1 k in
    ground (arith, q)

wrapped :
    (n : ℕ) → n ≤ 4_611_686_018_427_387_904 → wrap64 (wrap64 (pos n) +ℤ pos 5000) ≡ pos (n + 5000)
wrapped n h =
    rw (wrap64_id (pos n) (omega (arith, h), omega arith))
      (rw (sum n) (wrap64_id (pos (n + 5000)) (omega (arith, h), omega arith)))
  where
    sum : (n : ℕ) → pos n +ℤ pos 5000 ≡ pos (n + 5000)
    sum n = omega int_laws

-- `bp` on a principal and a number of basis points whose product is at most 2^62, under a settlement
-- unit of 1 to 10^7: the product is divided by 10,000 and rounded half up to the minor unit, and what
-- comes out is rounded again to whole settlement units, by the mode of the policy.
pub bp-IsRounded :
    (m points unit : ℕ) (mode : Mode) (cur : Currency)
    → 1 ≤ unit
    → unit ≤ 10_000_000
    → m * points ≤ 4_611_686_018_427_387_904
    → (k fee : ℕ) × IsRounded half_up (m * points) 10000 fee
      × IsRounded mode fee unit k
      × (bp (amount (pos m) cur) (pos points) (policy mode unit) ≡ ok (amount (pos (k * unit)) cur))
unfolding bp
bp-IsRounded m points unit mode cur low high fits =
    let fee = (m * points + 5000) / 10000 in
    let (k, nearest, runs) = quantise-IsRounded fee unit mode cur low high (omega (arith, fits)) in
    (
      k,
      fee,
      omega arith,
      nearest,
      rw (no_overflow m points fits, *ℤ_pos m points, wrapped (m * points) fits, runs) refl,
    )
