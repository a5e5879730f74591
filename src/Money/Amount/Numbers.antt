-- ===== src/Money/Amount/Numbers.antt =====
-- The operations on amounts of one currency that are not negative, as operations on numbers.
use marumbot.Prelude.{refl, ◌∙◌, arith, if◌then◌else◌, leb, ltb, ok, ◌+◌, ◌-◌, ◌≤◌, ℕ, ◌≡◌}
use marumbot.Money.Amount.Exact.{same_code_of_eq, sub-exact, add-exact, exact}
use marumbot.Prelude.Int.{int_laws, negsuc, ◌+ℤ◌, leb_ℤ, ltb_ℤ, pos, ℤ, ◌-ℤ◌}
use marumbot.Money.Amount.{add, sub, Amount, cmp, amount}
use marumbot.Prelude.Int64.{max_int64}
use marumbot.Money.Currency.{Currency}

-- An amount of a number of minor units.
abbrev pub of : ℕ → Currency → Amount
of n cur = amount (pos n) cur

difference : (b a : ℕ) → a ≤ b → pos b -ℤ pos a ≡ pos (b - a)
unfolding ◌-ℤ◌
difference b a le = ground arith

pub sub_numbers :
    (b a : ℕ) (cur : Currency)
    → a ≤ b
    → b ≤ max_int64
    → sub (of b cur) (of a cur) ≡ ok (of (b - a) cur)
sub_numbers b a cur le small =
    sub-exact (of b cur) (of a cur) (omega arith, omega arith) (omega arith, omega arith) refl
    ∙ exact_numbers b a cur le small
  where
    exact_numbers :
        (b a : ℕ) (cur : Currency)
        → a ≤ b
        → b ≤ max_int64
        → exact (pos b -ℤ pos a) cur ≡ ok (of (b - a) cur)
    exact_numbers b a cur le small = rw (difference b a le) (ground (arith, small))

-- What `Cmp` answers on two numbers of one currency.
abbrev pub order_of : ℕ → ℕ → ℤ
order_of a b = if ltb a b then negsuc 0 else if ltb b a then pos 1 else pos 0

pub cmp_numbers : (a b : ℕ) (cur : Currency) → cmp (of a cur) (of b cur) ≡ ok (order_of a b)
unfolding cmp
cmp_numbers a b cur = ground (arith, same_code_of_eq (of a cur) (of b cur) refl)

pub order_of-more : (a b : ℕ) → ltb_ℤ (pos 0) (order_of a b) ≡ ltb b a
order_of-more a b = ground arith

pub order_of-least : (a b : ℕ) → leb_ℤ (pos 0) (order_of a b) ≡ leb b a
order_of-least a b = ground arith

total : (a b : ℕ) → pos a +ℤ pos b ≡ pos (a + b)
total a b = omega int_laws

pub sum_numbers :
    (a b : ℕ) (cur : Currency) → a + b ≤ max_int64 → add (of a cur) (of b cur) ≡ ok (of (a + b) cur)
sum_numbers a b cur small =
    add-exact (of a cur) (of b cur) (omega (arith, small), omega arith)
      (omega (arith, small), omega arith) refl
    ∙ exact_sum a b cur small
  where
    exact_sum :
        (a b : ℕ) (cur : Currency)
        → a + b ≤ max_int64
        → exact (pos a +ℤ pos b) cur ≡ ok (of (a + b) cur)
    exact_sum a b cur small = rw (total a b) (ground (arith, small))
