-- ===== src/Model/Buckets/Owed.antt =====
-- Sound positions: every bucket a non-negative int64 in one currency. `Validate` decides the sign and
-- the currency, and what is owed by a sound position is a plain sum.
use marumbot.Prelude.{
  ℕ, ◌+◌, ◌-◌, ◌≤◌, ◌≡◌, refl, sym, ap, ◌∙◌, true, arith, Bool-cases, inl, inr, ◌↔◌, not, List, [],
  ◌∷◌, Text, text_eq, text_eq_refl, eq_of_text_eq, ok, ◌&&◌, and_parts,
}
use marumbot.Prelude.Int.{ℤ, pos, pos_part, ◌+ℤ◌, ◌-ℤ◌, ltb_ℤ, ◌≤ℤ◌, int_laws, one_part, nonneg_pos}
use marumbot.Prelude.Int64.{max_int64, InInt64}
use marumbot.Money.Currency.{Currency}
use marumbot.Money.Amount.{Amount, amount, zero_amount, add, sub}
use marumbot.Money.Amount.Exact.{add-exact, sub-exact, exact}
use marumbot.Model.Buckets.{
  Bucket, penalties, overdue_fees, current_fees, unpaid_interest, accrued_interest,
  overdue_principal, principal, advance_credit, all_buckets, Buckets, currency_of, get, add_all,
  all_sound, validate, total_owed, debts,
}

abbrev pub value : Amount → ℕ
value a = pos_part a.minor

-- A non-negative int64 in the currency with this code.
pub record IsSound (code : Text) (a : Amount) : Type 0 where
  pub low : pos 0 ≤ℤ a.minor
  pub high : value a ≤ max_int64
  pub in_code : a.cur.code ≡ code

abbrev pub IsPosition : Text → Buckets → Type 0
IsPosition code b = (k : Bucket) → IsSound code (get b k)

pub minor-value : {code : Text} {a : Amount} → IsSound code a → a.minor ≡ pos (value a)
minor-value {a = a} h = nonneg_pos a.minor h.low

exact_pos :
    (z : ℤ) (n : ℕ) (c : Currency) → z ≡ pos n → n ≤ max_int64 → exact z c ≡ ok (amount (pos n) c)
exact_pos z n c e h = rw e (ground arith)

exact_in : (z : ℤ) (c : Currency) → InInt64 z → exact z c ≡ ok (amount z c)
exact_in z c h = ground arith

-- Sums and differences of sound amounts, where they fit.
pub add_sound :
    (code : Text) (a b : Amount)
    → IsSound code a
    → IsSound code b
    → value a + value b ≤ max_int64
    → add a b ≡ ok (amount (pos (value a + value b)) a.cur)
add_sound code a b h k fits =
    add-exact a b (h.high, omega (arith, h.low)) (k.high, omega (arith, k.low))
      (h.in_code ∙ sym k.in_code)
    ∙ exact_pos (a.minor +ℤ b.minor) (value a + value b) a.cur
        (omega (int_laws, one_part a.minor, one_part b.minor)) fits

pub sub_sound :
    (code : Text) (a b : Amount)
    → IsSound code a
    → IsSound code b
    → value b ≤ value a
    → sub a b ≡ ok (amount (pos (value a - value b)) a.cur)
sub_sound code a b h k le =
    sub-exact a b (h.high, omega (arith, h.low)) (k.high, omega (arith, k.low))
      (h.in_code ∙ sym k.in_code)
    ∙ exact_pos (a.minor -ℤ b.minor) (value a - value b) a.cur
        (omega (int_laws, one_part a.minor, one_part b.minor)) (omega (arith, h.high))

-- Not negative, and in the currency with this code.
pub record IsClean (code : Text) (a : Amount) : Type 0 where
  pub nonnegative : pos 0 ≤ℤ a.minor
  pub same_code : a.cur.code ≡ code

IsClean-test :
    (code : Text) (a : Amount)
    → ((not (ltb_ℤ a.minor (pos 0)) && text_eq a.cur.code code) ≡ true) ↔ IsClean code a
IsClean-test code a = (
  (λ h.
      let (low, same) = and_parts (not (ltb_ℤ a.minor (pos 0))) (text_eq a.cur.code code) h in
      record { nonnegative = ground arith; same_code = eq_of_text_eq a.cur.code code same }),
  (λ s.
      let same : text_eq a.cur.code code ≡ true = rw s.same_code (text_eq_refl code) in
      ground (arith, s.nonnegative)),
)

module _ (b : Buckets) where
  abbrev AllClean : Text → List Bucket → Type 0
  AllClean code [] = Unit
  AllClean code (k ∷ ks) = IsClean code (get b k) × AllClean code ks

  all_sound-AllClean :
      (code : Text) (ks : List Bucket) → (all_sound code ks b ≡ true) ↔ AllClean code ks
  unfolding all_sound
  all_sound-AllClean code [] = ((λ _. tt), (λ _. refl))
  all_sound-AllClean code (k ∷ ks) = (
    (λ h.
        let (x, y) = and_parts _ _ h in
        ((IsClean-test code (get b k)).0 x, (all_sound-AllClean code ks).0 y)),
    (λ s. rw ((IsClean-test code (get b k)).1 s.0) ((all_sound-AllClean code ks).1 s.1)),
  )

  AllClean-each : (code : Text) → AllClean code all_buckets → (k : Bucket) → IsClean code (get b k)
  AllClean-each code h penalties = h.0
  AllClean-each code h overdue_fees = h.1.0
  AllClean-each code h current_fees = h.1.1.0
  AllClean-each code h unpaid_interest = h.1.1.1.0
  AllClean-each code h accrued_interest = h.1.1.1.1.0
  AllClean-each code h overdue_principal = h.1.1.1.1.1.0
  AllClean-each code h principal = h.1.1.1.1.1.1.0
  AllClean-each code h advance_credit = h.1.1.1.1.1.1.1.0

  each-AllClean :
      (code : Text) (ks : List Bucket) → ((k : Bucket) → IsClean code (get b k)) → AllClean code ks
  each-AllClean code [] h = tt
  each-AllClean code (k ∷ ks) h = (h k, each-AllClean code ks h)

  -- Validate accepts a position exactly when no bucket is negative and every one is in the currency
  -- of the principal.
  pub validate-IsClean :
      (validate b ≡ ok tt) ↔ ((k : Bucket) → IsClean (currency_of b).code (get b k))
  unfolding validate
  validate-IsClean = elim (Bool-cases (all_sound (currency_of b).code all_buckets b)) [
    | inl good ↦ (
      (λ _. AllClean-each _ ((all_sound-AllClean (currency_of b).code all_buckets).0 good)),
      (λ _. rw good),
    )
    | inr bad ↦ (
      (λ h. let e = rw bad at h in cc),
      (λ h.
          let good =
            (all_sound-AllClean (currency_of b).code all_buckets).1
              (each-AllClean _ all_buckets h) in
          cc),
    )
  ]

abbrev pub sum_of : List Amount → ℕ
sum_of [] = 0
sum_of (a ∷ as') = value a + sum_of as'

abbrev pub AllOf : Text → List Amount → Type 0
AllOf code [] = Unit
AllOf code (a ∷ as') = IsSound code a × AllOf code as'

pub IsSound-amount :
    (code : Text) (n : ℕ) (c : Currency)
    → c.code ≡ code
    → n ≤ max_int64
    → IsSound code (amount (pos n) c)
IsSound-amount code n c e h = record { low = omega arith; high = h; in_code = e }

-- A chain of sums of sound amounts that fits.
pub add_all_sound :
    (code : Text) (n : ℕ) (c : Currency) (as' : List Amount)
    → c.code ≡ code
    → AllOf code as'
    → n + sum_of as' ≤ max_int64
    → add_all (amount (pos n) c) as' ≡ ok (amount (pos (n + sum_of as')) c)
unfolding add_all
add_all_sound code n c [] e h fits = ap (λ m. ok (amount (pos m) c)) (omega arith)
add_all_sound code n c (a ∷ as') e h fits =
    rw
      (add_sound code (amount (pos n) c) a (IsSound-amount code n c e (omega arith)) h.0
        (omega arith))
      (add_all_sound code (n + value a) c as' e h.1 (omega arith)
        ∙ ap (λ m. ok (amount (pos m) c)) (omega arith))

owed_less :
    (n : ℕ) (c : Currency) (a : Amount)
    → n ≤ max_int64
    → IsSound c.code a
    → sub (amount (pos n) c) a ≡ ok (amount (pos n -ℤ pos (value a)) c)
owed_less n c a fits h =
    sub-exact (amount (pos n) c) a (fits, omega arith) (h.high, omega (arith, h.low))
      (sym h.in_code)
    ∙ rw (minor-value h) (
        exact_in (pos n -ℤ pos (value a)) c
          (omega (int_laws, h.high, one_part (pos n -ℤ pos (value a)))))

owed_exact :
    (b : Buckets)
    → IsPosition (currency_of b).code b
    → sum_of (debts b) ≤ max_int64
    → total_owed b ≡ ok (amount (pos (sum_of (debts b)) -ℤ pos (value b.credit)) (currency_of b))
unfolding total_owed
owed_exact b h fits =
    let code = (currency_of b).code in
    let start : add_all (zero_amount (currency_of b)) (debts b)
        ≡ ok (amount (pos (sum_of (debts b))) (currency_of b)) =
      add_all_sound code 0 (currency_of b) (debts b) refl
        (
          h principal,
          (
            h overdue_principal,
            (
              h accrued_interest,
              (h unpaid_interest, (h current_fees, (h overdue_fees, (h penalties, tt)))),
            ),
          ),
        )
        (omega arith)
      ∙ ap (λ m. ok (amount (pos m) (currency_of b))) (omega arith) in
    rw start (owed_less (sum_of (debts b)) (currency_of b) b.credit fits (h advance_credit))

-- The seven buckets that a borrower owes; the advance credit is no debt.
abbrev pub seven_debts : Buckets → ℕ
seven_debts b =
    value b.principal_due
    + value b.late_principal
    + value b.accrued
    + value b.unpaid
    + value b.fees
    + value b.late_fees
    + value b.penalty

sum_of-debts : (b : Buckets) → sum_of (debts b) ≡ seven_debts b
sum_of-debts b = omega arith

-- TotalOwed of a sound position is the exact sum of principal, overdue principal, accrued and unpaid
-- interest, current and overdue fees and penalties, less the advance credit, and never an error, as
-- long as the sum of the seven fits in int64.
pub total_owed_exact :
    (b : Buckets)
    → IsPosition (currency_of b).code b
    → seven_debts b ≤ max_int64
    → total_owed b ≡ ok (amount (pos (seven_debts b) -ℤ pos (value b.credit)) (currency_of b))
total_owed_exact b h fits =
    let same = sum_of-debts b in
    owed_exact b h (omega (arith, same, fits))
    ∙ ap (λ n. ok (amount (pos n -ℤ pos (value b.credit)) (currency_of b))) same
