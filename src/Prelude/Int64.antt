-- ===== src/Prelude/Int64.antt =====
-- Go's int64: integers between -2^63 and 2^63 - 1, with the wrap-around of its operations.
use Prim.Native.Nat.{ℕ, ◌+◌, ◌-◌, ◌≤◌, ◌<◌}
use mathlib.Core.Path.{◌≡◌}
use mathlib.Core.Bool.{Bool, ◌&&◌}
use native.Mathlib.Omega.{arith}
use marumbot.Prelude.Tests.{leb, if◌then◌else◌}
use marumbot.Prelude.Int.{ℤ, pos, negsuc, pos_part, neg_part, floor_mod}

abbrev pub max_int64 : ℕ
max_int64 = 9223372036854775807

abbrev pub InInt64 : ℤ → Type 0
InInt64 z = (pos_part z ≤ max_int64) × (neg_part z ≤ max_int64 + 1)

abbrev pub in_int64 : ℤ → Bool
in_int64 z = leb (pos_part z) max_int64 && leb (neg_part z) (max_int64 + 1)

-- The int64 that a result of arithmetic is cut down to.
unfoldable pub wrap64 : ℤ → ℤ
wrap64 z =
    let u = floor_mod z 18446744073709551616 in
    if leb u max_int64 then pos u else negsuc (18446744073709551615 - u)

pub wrap64-InInt64 : (z : ℤ) → InInt64 (wrap64 z)
unfolding wrap64
wrap64-InInt64 z = ground arith

pub wrap64_id : (z : ℤ) → InInt64 z → wrap64 z ≡ z
unfolding wrap64
wrap64_id z h = ground arith

-- A sum of two int64 that is out of range comes out with the other sign.
pub wrap64_high :
    (z : ℤ)
    → max_int64 < pos_part z
    → pos_part z ≤ 18446744073709551615
    → wrap64 z ≡ negsuc (18446744073709551615 - pos_part z)
unfolding wrap64
wrap64_high z h k = ground arith

pub wrap64_low :
    (z : ℤ)
    → max_int64 + 1 < neg_part z
    → neg_part z ≤ 18446744073709551616
    → wrap64 z ≡ pos (18446744073709551616 - neg_part z)
unfolding wrap64
wrap64_low z h k = ground arith
