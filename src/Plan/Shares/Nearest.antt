-- ===== src/Plan/Shares/Nearest.antt =====
-- The rounded quotient of two numbers, half up.
use marumbot.Money.Rounding.Nearest.{rounded-IsRounded, IsRounded, rounded}
use marumbot.Prelude.{subst, ap, arith, false, ◌%◌, ◌/◌, ok, ◌<◌, ℕ, ◌≡◌}
use marumbot.Prelude.Int.{eq_ℤ, pos, ◌*ℤ◌, ◌+ℤ◌}
use marumbot.Plan.Shares.{nearest, nearest_units, whole_units}
use native.Mathlib.Nat.{mod-lt, div-add-mod'}
use marumbot.Money.Rounding.{half_up}

nearest-rounded :
    (q r d : ℕ) → 0 < d → nearest (pos q) (pos r) (pos d) ≡ pos (rounded q r d half_up)
unfolding nearest ◌+ℤ◌ ◌*ℤ◌
nearest-rounded q r d h = ground arith

pub nearest_units-rounded :
    (n d : ℕ) → 0 < d → nearest_units (pos n) (pos d) ≡ pos (rounded (n / d) (n % d) d half_up)
unfolding nearest_units
nearest_units-rounded n d h = nearest-rounded (n / d) (n % d) d h

-- The number of whole units in n / d, a half counting as one, without a bound on the numbers.
pub whole_units-IsRounded :
    (n d : ℕ)
    → 0 < d
    → (k : ℕ) × (whole_units (pos n) (pos d) ≡ ok (pos k)) × IsRounded half_up n d k
unfolding whole_units
whole_units-IsRounded n d h =
    let positive : eq_ℤ (pos d) (pos 0) ≡ false = ground arith in
    (
      rounded (n / d) (n % d) d half_up,
      rw positive (ap ok (nearest_units-rounded n d h)),
      subst (λ m. IsRounded half_up m d (rounded (n / d) (n % d) d half_up)) (div-add-mod' n d)
          (rounded-IsRounded (n / d) (n % d) d half_up (mod-lt n h)),
    )
