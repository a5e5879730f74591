-- ===== src/Amortisation/Declining/Total.antt =====
-- A declining projection of a loan of ordinary size never fails.
use marumbot.Prelude.Int64.{wrap64_id, wrap64, max_int64}
use marumbot.Amortisation.Declining.Booked.{project_declining-IsSettled, IsSettled}
use marumbot.Money.Accrual.Exact.{*ℤ_pos, year_divisor_range, accrue_rounds, policy}
use marumbot.Prelude.{
  Ensures-value, ap, ◌==◌, ◌/◌, suc, if◌then◌else◌, Result, true, inr, inl, Bool-cases, ◌++◌, ◌∙◌,
  ltb, ◌-◌, refl, length, [], false, ok, arith, ◌*◌, ◌∷◌, ◌≤◌, Bool, List, ◌+◌, ℕ, ◌≡◌,
}
use marumbot.Money.Amount.{Amount, amount}
use marumbot.Amortisation.Rows.{start_walk, counted, Walk, Row, close_row, Outcome}
use marumbot.Money.Rounding.{unit_of, half_even, half_up, up, down, Mode}
use marumbot.Amortisation.Dates.{max_periods}
use marumbot.Amortisation.Declining.{
  per_period, project_declining, is_last, check_stated, declining_row, declining_rows, part_of,
}
use marumbot.Money.Amount.Numbers.{cmp_numbers, sub_numbers, sum_numbers, of, order_of}
use marumbot.Money.Accrual.Monotone.{as_numbers, HasTerms}
use marumbot.Money.Accrual.{rate_ppb, denominator, accrue, DayCount}
use marumbot.Prelude.Int.{pos_part, ltb_ℤ, ℤ, ◌≤ℤ◌, pos, one_part, eq_ℤ}
use marumbot.Date.Calendar.{days_between, Date}
use marumbot.Model.Loan.{Contract}
use marumbot.Money.Rounding.Nearest.{IsRounded}
use marumbot.Money.Currency.{Currency}
use native.Mathlib.Nat.{mul-le-mul, le_refl, div-mul-le_self, div-le_self}

near : (m : Mode) (n d u : ℕ) → IsRounded m n d u → u * d ≤ n + d
near down n d u h = omega (arith, h.0)
near up n d u h = omega (arith, h.1)
near half_up n d u h = omega (arith, h.0)
near half_even n d u h = omega (arith, h.0)

-- One period's interest on a balance of at most 10^12 minor units.
interest_fits :
    (b d r unit : ℕ) (m : Mode) (cur : Currency) (dc : DayCount)
    → 1 ≤ unit
    → unit ≤ 10_000_000
    → r ≤ 100_000_000_000
    → b ≤ 1_000_000_000_000
    → d ≤ 10_000
    → (i : ℕ) × (i ≤ 3_000_000_000_000_000)
      × (accrue (amount (pos b) cur) (pos r) (pos d) dc (policy m unit) ≡ ok (amount (pos i) cur))
interest_fits b d r unit m cur dc low high hr hb hd =
    let bd : b * d ≤ 10_000_000_000_000_000 = mul-le-mul hb hd in
    let n : b * d * r ≤ 1_000_000_000_000_000_000_000_000_000 = mul-le-mul bd hr in
    let (u, runs, rounded) = accrue_rounds b d r unit m cur dc low high hr (omega (arith, bd)) in
    (
      u * unit,
      small u (denominator dc * rate_ppb) unit (b * d * r) (year_divisor_range dc).0
          (year_divisor_range dc).1 high n (near m _ _ u rounded),
      runs,
    )
  where
    small :
        (u y unit n : ℕ)
        → 360_000_000_000 ≤ y
        → y ≤ 365_000_000_000
        → unit ≤ 10_000_000
        → n ≤ 1_000_000_000_000_000_000_000_000_000
        → u * (y * unit) ≤ n + y * unit
        → u * unit ≤ 3_000_000_000_000_000
    small u y unit n low high hu hn h =
        let scaled : 360_000_000_000 * (u * unit) ≤ y * (u * unit) =
          mul-le-mul low (le_refl (u * unit)) in
        let top : y * unit ≤ 3_650_000_000_000_000_000 = mul-le-mul high hu in
        let same : y * (u * unit) ≡ u * (y * unit) = grind arith in
        omega (arith, scaled, top, same, h, hn)

-- Dates of which each is at most 10,000 days after the one before it.
abbrev pub Spaced : Date → List Date → Type 0
Spaced prev [] = Unit
Spaced prev (due ∷ dates) =
    (pos 0 ≤ℤ days_between prev due) × (days_between prev due ≤ℤ pos 10000) × Spaced due dates

abbrev at : Currency → Date → Outcome → List Row → ℕ → ℕ → ℕ → Walk
at cur prev out rows b t s = record {
  balance = amount (pos b) cur;
  prev = prev;
  out = record out { total_paid = amount (pos t) cur; total_interest = amount (pos s) cur };
  rows = rows;
}

part_of-numbers :
    (b q : ℕ) (cur : Currency) (last : Bool)
    → (k : ℕ) × (k ≤ b)
      × (part_of (amount (pos b) cur) (amount (pos q) cur) last ≡ ok (amount (pos k) cur))
unfolding part_of
part_of-numbers b q cur true = (b, omega arith, refl)
part_of-numbers b q cur false = elim (Bool-cases (ltb b q)) [
  | inl less ↦ (b, omega arith, rw (cmp_numbers b q cur, order_less b q, less) refl)
  | inr fits ↦ (q, within b q fits, rw (cmp_numbers b q cur, order_less b q, fits) refl)
]
  where
    order_less : (b q : ℕ) → ltb_ℤ (order_of b q) (pos 0) ≡ ltb b q
    order_less b q = ground arith

    within : (b q : ℕ) → ltb b q ≡ false → q ≤ b
    within b q h = ground arith

abbrev row_of : Currency → ℕ → Date → ℤ → ℕ → ℕ → ℕ → Row
row_of cur n due days b i k = record {
  n = n;
  due = due;
  days = days;
  opening = of b cur;
  interest = of i cur;
  principal = of k cur;
  payment = of (k + i) cur;
  closing = of (b - k) cur;
}

module _ (c : Contract) (cur : Currency) (n : ℕ) (due prev : Date) (out : Outcome) (rows : List Row)
    (b t s i k q : ℕ) (last : Bool) (none : c.has_scheduled ≡ false)
    (forward : ltb_ℤ (days_between prev due) (pos 0) ≡ false)
    (charges : accrue (of b cur) c.nominal_rate (days_between prev due) c.day_count c.rounding
      ≡ ok (of i cur))
    (part : part_of (of b cur) (of q cur) last ≡ ok (of k cur)) (le : k ≤ b) (small : b ≤ max_int64)
    (owed : t + (k + i) ≤ max_int64) (charged : s + i ≤ max_int64) where
  row_runs :
      declining_row c (of q cur) n due last (at cur prev out rows b t s)
      ≡ ok (row_of cur n due (days_between prev due) b i k)
  unfolding declining_row check_stated
  row_runs =
      rw
        (
          forward,
          charges,
          part,
          sum_numbers k i cur (omega (arith, owed)),
          none,
          sub_numbers b k cur le small,
        )
        refl

  close_runs :
      close_row (at cur prev out rows b t s) (row_of cur n due (days_between prev due) b i k)
      ≡ ok (
          at cur due
            (counted out
              (row_of cur n due (days_between prev due) b i k)
              (of (t + (k + i)) cur)
              (of (s + i) cur))
            (rows ++ ((row_of cur n due (days_between prev due) b i k) ∷ []))
            (b - k)
            (t + (k + i))
            (s + i))
  unfolding close_row
  close_runs = rw (sum_numbers t (k + i) cur owed, sum_numbers s i cur charged) refl

declining_rows-Succeeds :
    (c : Contract) (q : ℕ) (cur : Currency) (dates : List Date) (n : ℕ) (prev : Date)
    (out : Outcome) (rows : List Row) (b t s : ℕ)
    → HasTerms c.nominal_rate c.rounding
    → c.has_scheduled ≡ false
    → Spaced prev dates
    → b ≤ 1_000_000_000_000
    → t + length dates * 4_000_000_000_000_000 ≤ max_int64
    → s + length dates * 4_000_000_000_000_000 ≤ max_int64
    → (w : Walk) × (declining_rows c (amount (pos q) cur) dates n (at cur prev out rows b t s)
        ≡ ok w)
unfolding declining_rows
declining_rows-Succeeds c q cur [] n prev out rows b t s terms none spaced hb ht hs =
    (at cur prev out rows b t s, refl)
declining_rows-Succeeds c q cur (due ∷ dates) n prev out rows b t s terms none (low, high, spaced)
      hb ht hs =
    let forward : ltb_ℤ (days_between prev due) (pos 0) ≡ false =
      not_back (days_between prev due) low in
    let (i, few, runs) =
      interest_fits b (pos_part (days_between prev due)) (pos_part c.nominal_rate)
        (pos_part c.rounding.unit) c.rounding.mode cur c.day_count
        (let low = terms.unit_low in omega arith) terms.unit_high terms.rate_high hb
        (omega (arith, high, one_part (days_between prev due))) in
    let charges =
      as_numbers (amount (pos b) cur) c.nominal_rate (days_between prev due) c.day_count c.rounding
        terms (omega arith) low
      ∙ runs in
    let (k, le, part) = part_of-numbers b q cur (is_last dates) in
    let owed : t + (k + i) + length dates * 4_000_000_000_000_000 ≤ max_int64 =
      omega (arith, ht, few, le, hb) in
    let charged : s + i + length dates * 4_000_000_000_000_000 ≤ max_int64 =
      omega (arith, hs, few) in
    rw
      (
        row_runs c cur n due prev out rows b t s i k q (is_last dates) none forward charges part le
            (omega (arith, hb)) (omega (arith, owed)) (omega (arith, charged)),
        close_runs c cur n due prev out rows b t s i k q (is_last dates) none forward charges part
            le (omega (arith, hb)) (omega (arith, owed)) (omega (arith, charged)),
      )
      (one_more_round (eq_ℤ (pos (b - k)) (pos 0)) _ _ (
        declining_rows-Succeeds c q cur dates (suc n) due
          (counted out (row_of cur n due (days_between prev due) b i k) (of (t + (k + i)) cur)
            (of (s + i) cur))
          _ (b - k) (t + (k + i)) (s + i) terms none spaced (omega (arith, hb)) owed charged))
  where
    not_back : (d : ℤ) → pos 0 ≤ℤ d → ltb_ℤ d (pos 0) ≡ false
    not_back d h = ground arith

    one_more_round :
        (done : Bool) (next : Walk) (later : Result Walk)
        → ((w : Walk) × (later ≡ ok w))
        → (w : Walk) × ((if done then ok next else later) ≡ ok w)
    one_more_round true next later h = (next, refl)
    one_more_round false next later h = h

part_is :
    (c : Contract) (p n : ℕ) (cur : Currency)
    → p ≤ max_int64
    → per_period c (of p cur) n
      ≡ of (p / n / pos_part (unit_of c.rounding) * pos_part (unit_of c.rounding)) cur
part_is c p n cur small =
    let unit = pos_part (unit_of c.rounding) in
    let bound : p / n / unit * unit ≤ p / n = div-mul-le_self (p / n) unit in
    let less : p / n ≤ p = div-le_self p n in
    ap (λ z. of_int z cur)
      (ap wrap64 (*ℤ_pos (p / n / unit) unit)
        ∙ wrap64_id (pos (p / n / unit * unit)) (omega (arith, bound, less, small), omega arith))
  where
    of_int : ℤ → Currency → Amount
    of_int z cur = amount z cur

-- The declining projection of at most 10^12 minor units succeeds and leaves nothing owed: on 1 to 600
-- dates, none before the one ahead of it and none more than 10,000 days after it, the first counted
-- from the date of the balance; under the bounded terms of HasTerms; and where the bank has stated
-- no payment to compare with. Its books balance.
pub project_declining_total :
    (c : Contract) (p : ℕ) (cur : Currency) (from : Date) (dates : List Date)
    → HasTerms c.nominal_rate c.rounding
    → c.has_scheduled ≡ false
    → p ≤ 1_000_000_000_000
    → 1 ≤ length dates
    → length dates ≤ max_periods
    → Spaced (start_walk c (of p cur) from).prev dates
    → (w : Walk) × (project_declining c (of p cur) from dates ≡ ok w) × IsSettled (of p cur) w
unfolding project_declining
project_declining_total c p cur from dates terms none small some few spaced =
    let out = (start_walk c (of p cur) from).out in
    let q = p / length dates / pos_part (unit_of c.rounding) * pos_part (unit_of c.rounding) in
    let (w, runs) =
      declining_rows-Succeeds c q cur dates 1 (start_walk c (of p cur) from).prev out [] p 0 0 terms
        none spaced small (omega (arith, few)) (omega (arith, few)) in
    let whole : project_declining c (of p cur) from dates ≡ ok w =
      rw (not_empty (length dates) some, part_is c p (length dates) cur (omega (arith, small)))
        runs in
    (
      w,
      whole,
      Ensures-value _ w
          (project_declining-IsSettled c (of p cur) from dates (omega (arith, small), omega arith))
          whole,
    )
  where
    not_empty : (k : ℕ) → 1 ≤ k → (k == 0) ≡ false
    not_empty k h = ground arith
