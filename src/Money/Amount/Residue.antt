-- ===== src/Money/Amount/Residue.antt =====
-- Sums and differences of amounts modulo 2^64: what holds of them whatever the integers are.
use marumbot.Prelude.Int64.{wrap64-InInt64, InInt64, wrap64}
use marumbot.Prelude.{
  refl, ap, ◌∙◌, ensures_ok, ensures_err, ensures_panic, if-Ensures, Ensures, ℕ, ◌+◌, ◌%◌, ◌<◌, ◌≡◌,
  arith,
}
use marumbot.Prelude.Int.{pos, ℤ, floor_mod, ◌+ℤ◌, ◌-ℤ◌}
use marumbot.Money.Amount.{Amount, add, sub}

abbrev pub modulus : ℕ
modulus = 18446744073709551616

unfoldable pub residue : ℤ → ℕ
residue z = floor_mod z 18446744073709551616

pub residue_lt : (z : ℤ) → residue z < modulus
unfolding residue
residue_lt z = ground arith

residue-wrap64 : (z : ℤ) → residue (wrap64 z) ≡ residue z
unfolding residue wrap64
residue-wrap64 z = ground arith

pub residue-add : (a b : ℤ) → residue (a +ℤ b) ≡ (residue a + residue b) % modulus
unfolding residue ◌+ℤ◌
residue-add a b = ground arith

residue-sub : (a b : ℤ) → (residue (a -ℤ b) + residue b) % modulus ≡ residue a
unfolding residue ◌-ℤ◌
residue-sub a b = ground arith

pub add-residue :
    (a b : Amount)
    → Ensures (λ r. residue r.minor ≡ (residue a.minor + residue b.minor) % modulus) (add a b)
unfolding add
add-residue a b =
    let sum = residue-wrap64 (a.minor +ℤ b.minor) ∙ residue-add a.minor b.minor in
    search (if-Ensures, ensures_panic, ensures_err, ensures_ok, sum)

pub sub-residue :
    (a b : Amount)
    → Ensures (λ r. (residue r.minor + residue b.minor) % modulus ≡ residue a.minor) (sub a b)
unfolding sub
sub-residue a b =
    let difference =
      ap (λ n. (n + residue b.minor) % modulus) (residue-wrap64 (a.minor -ℤ b.minor))
      ∙ residue-sub a.minor b.minor in
    search (if-Ensures, ensures_panic, ensures_err, ensures_ok, difference)

pub zero_residue : residue (pos 0) ≡ 0
unfolding residue
zero_residue = refl

pub add-InInt64 : (a b : Amount) → Ensures (λ r. InInt64 r.minor) (add a b)
unfolding add
add-InInt64 a b =
    let range = wrap64-InInt64 (a.minor +ℤ b.minor) in
    search (if-Ensures, ensures_panic, ensures_err, ensures_ok, range)

-- Two int64 that agree modulo 2^64 are the same.
pub eq_of_residue : (a b : ℤ) → InInt64 a → InInt64 b → residue a ≡ residue b → a ≡ b
unfolding residue
eq_of_residue a b ha hb h = ground arith
