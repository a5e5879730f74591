-- ===== src/Plan/Growth/Limits.antt =====
-- One increase of a spending limit: exact before its one rounding, and capped.
use marumbot.Plan.Shares.Nearest.{whole_units-IsRounded}
use marumbot.Prelude.{
  ok, err, overflow, ◌>>=◌, refl, ◌*◌, arith, true, false, ◌+◌, suc, ◌≤◌, ◌<◌, ℕ, ◌≡◌, ◌⊎◌, inl,
  inr, Result, sym, subst, ap, ◌∙◌, ◌&&◌, and_parts, Bool-cases,
}
use marumbot.Prelude.Int64.{max_int64, in_int64}
use marumbot.Money.Accrual.Exact.{*ℤ_pos}
use marumbot.Prelude.Int.{◌*ℤ◌, int_laws, ◌+ℤ◌, eq_ℤ, ltb_ℤ, pos, ℤ, ◌≤ℤ◌, ◌<ℤ◌, eq_of_parts}
use marumbot.Money.Currency.{
  no_currency, currency_eq_refl, currency_eq, eq_of_currency_eq, Currency,
}
use marumbot.Plan.Shares.{whole_units}
use marumbot.Plan.Growth.{is_present, fit_limit, grow_spending_limit, SpendingLimitGrowth}
use marumbot.Money.Rounding.{half_up}
use marumbot.Money.Rounding.Nearest.{IsRounded}
use marumbot.Money.Amount.{Amount, amount, no_amount}

whole_limit :
    (n d unit : ℕ) (u : ℤ)
    → u ≡ pos unit
    → 1 ≤ unit
    → 1 ≤ d
    → (k : ℕ) × IsRounded half_up n (d * unit) k
      × ((whole_units (pos n) (pos d *ℤ u) >>= λ units. ok (units *ℤ u)) ≡ ok (pos (k * unit)))
whole_limit n d unit u e low some =
    let (k, runs, nearest) = whole_units-IsRounded n (d * unit) (grind (arith, low, some)) in
    (k, nearest, rw (e, *ℤ_pos d unit, runs, *ℤ_pos k unit) refl)

some_sum : (f : ℕ) → eq_ℤ (pos (suc f)) (pos 0) ≡ false
some_sum f = ground arith

plus : (a b : ℕ) → pos a +ℤ pos b ≡ pos (a + b)
plus a b = omega int_laws

-- A growth by a percentage of suc p parts per billion, by a fixed sum of suc f minor units, or by
-- nothing, with the other fields of `growth`.
abbrev pub by_percent : SpendingLimitGrowth → ℕ → SpendingLimitGrowth
by_percent growth p = record growth { fixed = no_amount; percent_ppb = pos (suc p) }

abbrev pub by_sum : SpendingLimitGrowth → ℕ → Currency → SpendingLimitGrowth
by_sum growth f cur = record growth { fixed = amount (pos (suc f)) cur; percent_ppb = pos 0 }

abbrev pub by_nothing : SpendingLimitGrowth → SpendingLimitGrowth
by_nothing growth = record growth { fixed = no_amount; percent_ppb = pos 0 }

module _ (m unit : ℕ) (growth : SpendingLimitGrowth) (cur : Currency)
    (eu : cur.settlement_unit ≡ pos unit) (low : 1 ≤ unit) where
  percent-IsRounded :
      (p : ℕ)
      → (k : ℕ) × IsRounded half_up (m * (1000000000 + suc p)) (1000000000 * unit) k
        × (grow_spending_limit (amount (pos m) cur) (by_percent growth p)
            ≡ fit_limit (pos (k * unit)) cur growth.maximum)
  unfolding grow_spending_limit
  percent-IsRounded p =
      let (k, nearest, runs) =
        whole_limit (m * (1000000000 + suc p)) 1000000000 unit cur.settlement_unit eu low
          (omega arith) in
      (
        k,
        nearest,
        rw
            (
              currency_eq_refl no_currency,
              some_sum p,
              plus 1000000000 (suc p),
              *ℤ_pos m (1000000000 + suc p),
              runs,
            )
            refl,
      )

  sum-IsRounded :
      (f : ℕ)
      → (k : ℕ) × IsRounded half_up (m + suc f) (1 * unit) k
        × (grow_spending_limit (amount (pos m) cur) (by_sum growth f cur)
            ≡ fit_limit (pos (k * unit)) cur growth.maximum)
  unfolding grow_spending_limit
  sum-IsRounded f =
      let (k, nearest, runs) =
        whole_limit (m + suc f) 1 unit cur.settlement_unit eu low (omega arith) in
      (k, nearest, rw (some_sum f, plus m (suc f), runs) refl)

  nothing-same :
      grow_spending_limit (amount (pos m) cur) (by_nothing growth)
      ≡ fit_limit (pos m) cur growth.maximum
  unfolding grow_spending_limit
  nothing-same = rw (currency_eq_refl no_currency) refl

-- A limit of `grown` minor units as growSpendingLimit is to answer with it: the maximum where one is
-- set and it is smaller, the limit itself where it is not and the limit is an int64, and ErrOverflow
-- otherwise.
pub record IsLimited (grown : ℕ) (cur : Currency) (maximum : Amount) (r : Result Amount)
    : Type 0 where
  pub capped : ¬ (maximum ≡ no_amount) → maximum.minor <ℤ pos grown → r ≡ ok maximum
  pub kept :
      (maximum ≡ no_amount) ⊎ (pos grown ≤ℤ maximum.minor)
      → grown ≤ max_int64
      → r ≡ ok (amount (pos grown) cur)
  pub refused :
      (maximum ≡ no_amount) ⊎ (pos grown ≤ℤ maximum.minor) → max_int64 < grown → r ≡ err overflow

no_amount-absent : is_present no_amount ≡ false
no_amount-absent = rw (currency_eq_refl no_currency) refl

absent-no_amount : (a : Amount) → is_present a ≡ false → a ≡ no_amount
absent-no_amount a h =
    let (zero_sum, no_cur) =
      and_parts (eq_ℤ a.minor (pos 0)) (currency_eq a.cur no_currency) (ground arith) in
    let m : a.minor ≡ pos 0 = ground (arith, eq_of_parts a.minor (pos 0)) in
    ap (λ x. amount x a.cur) m ∙ ap (amount (pos 0)) (eq_of_currency_eq a.cur no_currency no_cur)

present-some : (a : Amount) → ¬ (a ≡ no_amount) → is_present a ≡ true
present-some a n = elim (Bool-cases (is_present a)) [
  | inl e ↦ e
  | inr e ↦ absurd (n (absent-no_amount a e))
]

module _ (grown : ℕ) (cur : Currency) (maximum : Amount) where
  not_capped :
      (maximum ≡ no_amount) ⊎ (pos grown ≤ℤ maximum.minor)
      → (is_present maximum && ltb_ℤ maximum.minor (pos grown)) ≡ false
  not_capped (inl e) = rw e (rw no_amount-absent refl)
  not_capped (inr h) = ground arith

  fit_limit-IsLimited : IsLimited grown cur maximum (fit_limit (pos grown) cur maximum)
  fit_limit-IsLimited = record {
    capped = λ some less.
        let smaller : ltb_ℤ maximum.minor (pos grown) ≡ true = ground arith in
        rw (present-some maximum some, smaller) refl;
    kept = λ free fits.
        let inside : in_int64 (pos grown) ≡ true = ground arith in
        rw (not_capped free, inside) refl;
    refused = λ free wide.
        let outside : in_int64 (pos grown) ≡ false = ground arith in
        rw (not_capped free, outside) refl;
  }

fitted :
    (grown : ℕ) (cur : Currency) (maximum : Amount) (r : Result Amount)
    → r ≡ fit_limit (pos grown) cur maximum
    → IsLimited grown cur maximum r
fitted grown cur maximum r e =
    subst (IsLimited grown cur maximum) (sym e) (fit_limit-IsLimited grown cur maximum)

-- growSpendingLimit on a limit of m minor units, in a currency whose settlement unit is 1 or more: with a
-- percentage and no fixed sum the product is exact, whatever its size, and is rounded half up, once,
-- to whole settlement units; with a positive fixed sum and no percentage the sum is rounded
-- likewise; with neither the limit stays as it is. It answers with a smaller maximum that is set,
-- else with what comes out where that is an int64, else with ErrOverflow.
pub grow_spending_limit-IsRounded :
    (m unit p f : ℕ) (growth : SpendingLimitGrowth) (cur : Currency)
    → cur.settlement_unit ≡ pos unit
    → 1 ≤ unit
    → ((k : ℕ) × IsRounded half_up (m * (1000000000 + suc p)) (1000000000 * unit) k
        × IsLimited
            (k * unit)
            cur
            growth.maximum
            (grow_spending_limit (amount (pos m) cur) (by_percent growth p)))
      × ((k : ℕ) × IsRounded half_up (m + suc f) (1 * unit) k
          × IsLimited
              (k * unit)
              cur
              growth.maximum
              (grow_spending_limit (amount (pos m) cur) (by_sum growth f cur)))
      × IsLimited m cur growth.maximum
          (grow_spending_limit (amount (pos m) cur) (by_nothing growth))
grow_spending_limit-IsRounded m unit p f growth cur eu low =
    let (k, near_k, runs_k) = percent-IsRounded m unit growth cur eu low p in
    let (j, near_j, runs_j) = sum-IsRounded m unit growth cur eu low f in
    (
      (k, near_k, fitted (k * unit) cur growth.maximum _ runs_k),
      (j, near_j, fitted (j * unit) cur growth.maximum _ runs_j),
      fitted m cur growth.maximum _ (nothing-same m unit growth cur eu low),
    )
