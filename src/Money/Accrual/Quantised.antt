-- ===== src/Money/Accrual/Quantised.antt =====
-- `Quantise` rounds an amount that is not negative to whole units.
use marumbot.Money.Rounding.{half_even, half_up, up, down, round_quotient, Mode}
use marumbot.Prelude.{
  sym, subst, inr, ap, ◌+◌, inl, Bool-cases, true, ◌%◌, ◌==◌, arith, ◌*◌, ◌/◌, false, ◌≤◌, ℕ, ◌≡◌,
}
use marumbot.Money.Rounding.Nearest.{
  rounded-IsRounded, rounded-le, round_quotient-rounded, rounded, IsRounded,
}
use marumbot.Prelude.Int64.{wrap64_id, wrap64}
use marumbot.Money.Accrual.Exact.{*ℤ_pos, policy}
use marumbot.Prelude.Int.{◌*ℤ◌, ltb_ℤ, pos}
use marumbot.Money.Currency.{Currency}
use marumbot.Money.Accrual.{quantise}
use marumbot.Money.Amount.{amount}
use native.Mathlib.Nat.{mod-lt, div-add-mod', div-le_self, mul-le-mul_right, div-mul-le_self}

exactly : (m : Mode) (v : ℕ) → IsRounded m v 1 v
exactly down v = omega arith
exactly up v = omega arith
exactly half_up v = omega arith
exactly half_even v = (
  omega arith,
  omega arith,
  λ h. elim h [ inl e ↦ absurd (omega (arith, e)) | inr e ↦ absurd (omega (arith, e)) ],
)

module _ (v unit : ℕ) (m : Mode) (low : 1 ≤ unit) (high : unit ≤ 10_000_000)
    (small : v ≤ 4_611_686_018_427_387_904) where
  scaled_is :
      wrap64 (round_quotient (pos (v / unit)) (pos (v % unit)) (pos unit) m *ℤ pos unit)
      ≡ pos (rounded (v / unit) (v % unit) unit m * unit)
  scaled_is =
      let r =
        round_quotient-rounded (v / unit) (v % unit) unit m (mod-lt v low) (omega (arith, high))
          (let q = div-le_self v unit in omega (arith, small, q)) in
      let bound : rounded (v / unit) (v % unit) unit m * unit ≤ (v / unit + 1) * unit =
        mul-le-mul_right unit (rounded-le (v / unit) (v % unit) unit m) in
      let whole : v / unit * unit ≤ v = div-mul-le_self v unit in
      rw (r, *ℤ_pos) (wrap64_id _ (grind (arith, bound, whole, small, high), omega arith))

  unit_kept : ltb_ℤ (pos unit) (pos 1) ≡ false
  unit_kept = ground (arith, low)

  one_unit : unit ≡ 1 → IsRounded m v unit v
  one_unit e = subst (λ u. IsRounded m v u v) (sym e) (exactly m v)

  positive : ltb_ℤ (pos v) (pos 0) ≡ false
  positive = ground arith

pub quantise-IsRounded :
    (v unit : ℕ) (m : Mode) (cur : Currency)
    → 1 ≤ unit
    → unit ≤ 10_000_000
    → v ≤ 4_611_686_018_427_387_904
    → (k : ℕ) × IsRounded m v unit k
      × (quantise (amount (pos v) cur) (policy m unit) ≡ amount (pos (k * unit)) cur)
unfolding quantise
quantise-IsRounded v unit m cur low high small = elim (Bool-cases (unit == 1)) [
  | inl one ↦ (
    v,
    one_unit v unit m low high small (is_one unit one),
    rw (unit_kept v unit m low high small, one)
        (ap (λ n. amount (pos n) cur) (times_one v unit (is_one unit one))),
  )
  | inr more ↦ (
    rounded (v / unit) (v % unit) unit m,
    subst (λ k. IsRounded m k unit (rounded (v / unit) (v % unit) unit m)) (div-add-mod' v unit)
        (rounded-IsRounded (v / unit) (v % unit) unit m (mod-lt v low)),
    rw (unit_kept v unit m low high small, more, positive v unit m low high small)
        (ap (λ z. amount z cur) (scaled_is v unit m low high small)),
  )
]
  where
    is_one : (unit : ℕ) → (unit == 1) ≡ true → unit ≡ 1
    is_one unit h = ground arith

    times_one : (v unit : ℕ) → unit ≡ 1 → v ≡ v * unit
    times_one v unit e = rw e (omega arith)
