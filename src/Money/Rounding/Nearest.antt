-- ===== src/Money/Rounding/Nearest.antt =====
-- What each rounding mode promises of a quotient, and that `roundQuotient` keeps it.
use marumbot.Prelude.{
  Bool-cases, inl, inr, ℕ, ◌+◌, ◌*◌, ◌%◌, ◌≤◌, ◌<◌, ◌≡◌, ◌⊎◌, arith, ◌==◌, ltb, if◌then◌else◌, leb,
}
use marumbot.Prelude.Int.{pos, ◌+ℤ◌, ◌*ℤ◌}
use marumbot.Prelude.Int64.{wrap64, max_int64}
use marumbot.Money.Rounding.{Mode, half_up, half_even, down, up, round_quotient}

-- The rounding on naturals, without the width of a word.
abbrev pub rounded : ℕ → ℕ → ℕ → Mode → ℕ
rounded q r d down = q
rounded q r d up = if r == 0 then q else q + 1
rounded q r d half_even =
    if ltb d (2 * r) then q + 1 else if ltb (2 * r) d then q else if q % 2 == 0 then q else q + 1
rounded q r d half_up = if r == 0 then q else if leb d (2 * r) then q + 1 else q

-- roundQuotient is the rounding of the quotient in exact arithmetic, and never wraps round, for a
-- remainder below a divisor of at most 2^62 and a quotient below the largest int64.
pub round_quotient-rounded :
    (q r d : ℕ) (m : Mode)
    → r < d
    → d ≤ 4611686018427387904
    → q < max_int64
    → round_quotient (pos q) (pos r) (pos d) m ≡ pos (rounded q r d m)
unfolding round_quotient ◌+ℤ◌ ◌*ℤ◌ wrap64
round_quotient-rounded q r d down h k l = ground arith
round_quotient-rounded q r d up h k l = ground arith
round_quotient-rounded q r d half_even h k l = ground arith
round_quotient-rounded q r d half_up h k l = ground arith

-- The number of units `u` is the value n / d rounded by the mode: the greatest below for `down`,
-- the least above for `up`, and for the half modes one at most half a unit away, where a tie goes
-- up (`half_up`) or to the even neighbour (`half_even`).
abbrev pub IsRounded : Mode → ℕ → ℕ → ℕ → Type 0
IsRounded down n d u = (u * d ≤ n) × (n < u * d + d)
IsRounded up n d u = (n ≤ u * d) × (u * d < n + d)
IsRounded half_up n d u = (2 * (u * d) ≤ 2 * n + d) × (2 * n < 2 * (u * d) + d)
IsRounded half_even n d u =
    (2 * (u * d) ≤ 2 * n + d)
    × (2 * n ≤ 2 * (u * d) + d)
    × ((2 * (u * d) ≡ 2 * n + d) ⊎ (2 * n ≡ 2 * (u * d) + d) → u % 2 ≡ 0)

pub rounded-IsRounded : (q r d : ℕ) (m : Mode) → r < d → IsRounded m (q * d + r) d (rounded q r d m)
rounded-IsRounded q r d down h = grind arith
rounded-IsRounded q r d up h = elim (Bool-cases (r == 0)) [
  | inl zero_rem ↦ rw zero_rem (grind arith)
  | inr some_rem ↦ rw some_rem (grind arith)
]
rounded-IsRounded q r d half_even h = elim (Bool-cases (ltb d (2 * r))) [
  | inl above ↦ rw above (grind arith)
  | inr not_above ↦ elim (Bool-cases (ltb (2 * r) d)) [
    | inl below ↦ rw (not_above, below) (grind arith)
    | inr not_below ↦ elim (Bool-cases (q % 2 == 0)) [
      | inl even ↦ rw (not_above, not_below, even) (grind arith)
      | inr odd ↦ rw (not_above, not_below, odd) (grind arith)
    ]
  ]
]
rounded-IsRounded q r d half_up h = elim (Bool-cases (r == 0)) [
  | inl zero_rem ↦ rw zero_rem (grind arith)
  | inr some_rem ↦ elim (Bool-cases (leb d (2 * r))) [
    | inl high ↦ rw (some_rem, high) (grind arith)
    | inr low ↦ rw (some_rem, low) (grind arith)
  ]
]

pub rounded-le : (q r d : ℕ) (m : Mode) → rounded q r d m ≤ q + 1
rounded-le q r d down = omega arith
rounded-le q r d up = ground arith
rounded-le q r d half_even = ground arith
rounded-le q r d half_up = ground arith
