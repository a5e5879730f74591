-- ===== src/Money/Accrual/Errors.antt =====
-- The ways in which `Accrue` can fail.
use marumbot.Prelude.{
  leb, Bool-cases, inl, inr, ℕ, Bool, true, false, if◌then◌else◌, Result, ok, err, ◌>>=◌,
  accrual_range, negative,
}
use marumbot.Prelude.Int.{ℤ}
use marumbot.Money.Currency.{Currency}
use marumbot.Money.Amount.{Amount}
use marumbot.Money.Rounding.{Policy, Mode}
use marumbot.Money.Accrual.{
  Rate, DayCount, mul_no_overflow, scale_back, high_word, quantised, scaled, accrue,
}

-- A result that is a value, or one of the two errors of an accrual. It is not a panic.
pub data Refuses {A : Type 0} : Result A → Type 0 where
  value : (a : A) → Refuses (ok a)
  out_of_range : Refuses (err accrual_range)
  is_negative : Refuses (err negative)

pub >>=-Refuses :
    {A B : Type 0} (m : Result A) (f : A → Result B)
    → Refuses m
    → ((a : A) → Refuses (f a))
    → Refuses (m >>= f)
>>=-Refuses _ f (value a) k = k a
>>=-Refuses _ f out_of_range k = out_of_range
>>=-Refuses _ f is_negative k = is_negative

pub if-Refuses :
    {A : Type 0} (b : Bool) {x y : Result A} → Refuses x → Refuses y → Refuses (if b then x else y)
if-Refuses true h k = h
if-Refuses false h k = k

mul_no_overflow-Refuses : (a b : ℕ) → Refuses (mul_no_overflow a b)
unfolding mul_no_overflow
mul_no_overflow-Refuses a b = search (if-Refuses, value, out_of_range) depth 9

scale_back-Refuses :
    (q : ℕ × ℕ) (div unit : ℕ) (m : Mode) (c : Currency) → Refuses (scale_back q div unit m c)
unfolding scale_back
scale_back-Refuses q div unit m c = search (if-Refuses, value, out_of_range) depth 9

quantised-Refuses : (n div unit : ℕ) (m : Mode) (c : Currency) → Refuses (quantised n div unit m c)
unfolding quantised
quantised-Refuses n div unit m c = elim (Bool-cases (leb div (high_word n))) [
  | inl wide ↦ rw wide out_of_range
  -- A high word below the divisor is what `bits.Div64` asks for.
  | inr fits ↦ rw fits (scale_back-Refuses _ div unit m c)
]

scaled-Refuses :
    (p r d : ℕ) (dc : DayCount) (q : Policy) (c : Currency) → Refuses (scaled p r d dc q c)
unfolding scaled
scaled-Refuses p r d dc q c =
    search (if-Refuses, >>=-Refuses, mul_no_overflow-Refuses, quantised-Refuses, out_of_range) depth
      9

-- Accrue returns an amount, ErrAccrualRange or ErrNegative for every input; it never panics.
pub accrue-Refuses :
    (a : Amount) (r : Rate) (d : ℤ) (dc : DayCount) (p : Policy) → Refuses (accrue a r d dc p)
unfolding accrue
accrue-Refuses a r d dc p =
    search (if-Refuses, scaled-Refuses, value, out_of_range, is_negative) depth 9
