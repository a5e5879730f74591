-- ===== src/Money/Amount/Exact.antt =====
-- Sums, differences and comparisons of amounts: exact within int64, refused outside.
use marumbot.Prelude.{
  subst, sym, inl, inr, Bool-cases, text_eq, eq_of_text_eq, Ensures, ensures_ok, ensures_err,
  ensures_panic, if-Ensures, ◌≡◌, ◌⊎◌, inl, inr, refl, true, arith, if◌then◌else◌, text_eq,
  text_eq_refl, eq_of_text_eq, Result, ok, err, overflow, Bool-cases,
}
use marumbot.Prelude.Int.{ℤ, ◌+ℤ◌, ◌-ℤ◌, leb_ℤ, +ℤ_parts, -ℤ_parts, ◌≤ℤ◌}
use marumbot.Prelude.Int64.{InInt64, in_int64, wrap64_id, wrap64_high, wrap64_low}
use marumbot.Money.Currency.{Currency}
use marumbot.Money.Amount.{Amount, amount, add, sub, cmp, min_amount, same_code}

-- An amount as the program can hold it.
abbrev pub IsAmount : Amount → Type 0
IsAmount a = InInt64 a.minor

pub same_code_of_eq : (a b : Amount) → a.cur.code ≡ b.cur.code → same_code a b ≡ true
unfolding same_code
same_code_of_eq a b e = rw e (text_eq_refl b.cur.code)

-- The answer to an operation whose exact value is `z`.
abbrev pub exact : ℤ → Currency → Result Amount
exact z c = if in_int64 z then ok (amount z c) else err overflow

-- Add returns the exact sum when it fits in int64, and ErrOverflow exactly when it does not, for
-- amounts of one currency.
pub add-exact :
    (a b : Amount)
    → IsAmount a
    → IsAmount b
    → a.cur.code ≡ b.cur.code
    → add a b ≡ exact (a.minor +ℤ b.minor) a.cur
unfolding add
add-exact a b ha hb e =
    let z = a.minor +ℤ b.minor in
    ground (
      arith,
      same_code_of_eq a b e,
      +ℤ_parts a.minor b.minor,
      wrap64_id z,
      wrap64_high z,
      wrap64_low z,
    )

-- Sub returns the exact difference when it fits in int64, and ErrOverflow exactly when it does
-- not, for amounts of one currency.
pub sub-exact :
    (a b : Amount)
    → IsAmount a
    → IsAmount b
    → a.cur.code ≡ b.cur.code
    → sub a b ≡ exact (a.minor -ℤ b.minor) a.cur
unfolding sub
sub-exact a b ha hb e =
    let z = a.minor -ℤ b.minor in
    ground (
      arith,
      same_code_of_eq a b e,
      -ℤ_parts a.minor b.minor,
      wrap64_id z,
      wrap64_high z,
      wrap64_low z,
    )

-- Min of two amounts of one currency returns one of the two, and it is no greater than either.
pub min_amount_lem :
    (a b : Amount)
    → a.cur.code ≡ b.cur.code
    → (m : Amount) × (min_amount a b ≡ ok m)
      × (m.minor ≤ℤ a.minor)
      × (m.minor ≤ℤ b.minor)
      × ((m ≡ a) ⊎ (m ≡ b))
unfolding min_amount cmp
min_amount_lem a b e = elim (Bool-cases (leb_ℤ a.minor b.minor)) [
  | inl le ↦ (a, ground (arith, same_code_of_eq a b e), ground arith, ground arith, inl refl)
  | inr gt ↦ (b, ground (arith, same_code_of_eq a b e), ground arith, ground arith, inr refl)
]

-- What a sum or a difference with the exact value z is.
pub record IsExact (z : ℤ) (c : Currency) (a : Amount) : Type 0 where
  pub value_is : a.minor ≡ z
  pub in_range : IsAmount a
  pub same_currency : a.cur ≡ c

exact-IsExact : (z : ℤ) (c : Currency) → Ensures (IsExact z c) (exact z c)
exact-IsExact z c =
    if-Ensures (in_int64 z)
      (λ fits.
        ensures_ok (amount z c)
          (record { value_is = refl; in_range = ground arith; same_currency = refl }))
      (λ _. ensures_err overflow)

-- Two amounts of different currencies have no sum at all.
pub add-IsExact :
    (a b : Amount)
    → IsAmount a
    → IsAmount b
    → Ensures (IsExact (a.minor +ℤ b.minor) a.cur) (add a b)
unfolding add same_code
add-IsExact a b ha hb = elim (Bool-cases (text_eq a.cur.code b.cur.code)) [
  | inl same ↦
      subst (Ensures (IsExact (a.minor +ℤ b.minor) a.cur))
        (sym (add-exact a b ha hb (eq_of_text_eq a.cur.code b.cur.code same)))
        (exact-IsExact (a.minor +ℤ b.minor) a.cur)
  | inr other ↦ rw other ensures_panic
]

pub sub-IsExact :
    (a b : Amount)
    → IsAmount a
    → IsAmount b
    → Ensures (IsExact (a.minor -ℤ b.minor) a.cur) (sub a b)
unfolding sub same_code
sub-IsExact a b ha hb = elim (Bool-cases (text_eq a.cur.code b.cur.code)) [
  | inl same ↦
      subst (Ensures (IsExact (a.minor -ℤ b.minor) a.cur))
        (sym (sub-exact a b ha hb (eq_of_text_eq a.cur.code b.cur.code same)))
        (exact-IsExact (a.minor -ℤ b.minor) a.cur)
  | inr other ↦ rw other ensures_panic
]
