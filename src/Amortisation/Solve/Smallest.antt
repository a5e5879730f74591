-- ===== src/Amortisation/Solve/Smallest.antt =====
-- `Solve` finds the smallest instalment that clears the loan.
use marumbot.Prelude.{
  subst, ensures_err, ensures_ok, Ensures-map, ◌>>=◌, if-Ensures, >>=-Ensures, Ensures, ◌/◌, ◌-◌,
  false, ok_injective, sym, Ensures-value, >>=-HandsOver, ◌≤◌, ok, ◌+◌, Bool, ◌<◌, refl, ◌*◌, [],
  ap, inr, length, arith, suc, ◌∙◌, inl, ◌∷◌, Bool-cases, true, ◌==◌, ◌≡◌, List, ℕ,
}
use marumbot.Prelude.Int.{
  le_of_leb_ℤ, eq_of_parts, neg_part, one_part, nonneg_pos, ◌*ℤ◌, ◌+ℤ◌, ◌-ℤ◌, ◌<ℤ◌, pos_part, leb_ℤ,
  ◌≤ℤ◌, ℤ, pos, int_laws,
}
use marumbot.Amortisation.Solve.{
  whole_loan, solve_on, solve_units, ceil_div, is_cleared, candidate, clears,
}
use marumbot.Amortisation.Dates.{dates_from, Calendar}
use marumbot.Amortisation.Rows.Booked.{start_walk-IsBooked, last_closing, IsBooked, IsFirst}
use marumbot.Amortisation.Rows.{start_walk, Row, Walk, Outcome}
use marumbot.Amortisation.Level.Monotone.{level_rows-low, project_monotone}
use marumbot.Money.Accrual.Exact.{*ℤ_pos}
use marumbot.Prelude.Int64.{wrap64_id, wrap64, wrap64-InInt64, max_int64}
use native.Mathlib.Nat.{mul-le-mul_right, div-mul-le_self, le-div_iff_mul-le}
use marumbot.Amortisation.Level.{project}
use marumbot.Money.Rounding.{unit_of}
use marumbot.Date.Calendar.{Date}
use marumbot.Money.Amount.{Amount}
use marumbot.Money.Amount.Exact.{IsAmount}
use marumbot.Money.Accrual.Monotone.{HasTerms}
use marumbot.Model.Loan.{Contract}
use marumbot.Amortisation.Level.Booked.{project-IsProjected}
use marumbot.Amortisation.Solve.Bisect.{IsFound, bisect-IsFound}

no_rows :
    (rows : List Row) (out : Outcome) (start : ℤ)
    → IsFirst rows out
    → out.periods == 0 ≡ true
    → last_closing start rows ≡ start
no_rows [] out start h e = refl
no_rows (row ∷ rows) out start (n, due, interest, part, payment) e =
    absurd (some_periods (length rows) out.periods n e)
  where
    some_periods : (k n : ℕ) → n ≡ suc k → ¬ ((n == 0) ≡ true)
    some_periods k n h e = ground arith

-- For a principal that is not zero a projection clears the loan exactly where nothing is left.
is_cleared_iff :
    (start : ℤ) (w : Walk)
    → pos 1 ≤ℤ start
    → IsBooked start w
    → is_cleared w ≡ leb_ℤ w.balance.minor (pos 0)
is_cleared_iff start w h books = elim (Bool-cases (w.out.periods == 0)) [
  | inl none_yet ↦
      let e = books.ends ∙ no_rows w.rows w.out start books.first none_yet in
      rw (none_yet, e) (ground arith)
  | inr some_yet ↦ elim books.last [
    | inl no_periods ↦ absurd (cc (ap (λ k. k == 0) no_periods, some_yet))
    | inr final ↦ rw (some_yet, final) refl
  ]
]

-- What a test of the bisection has seen.
clears-walk :
    (c : Contract) (principal : Amount) (from : Date) (dates : List Date) (units : ℤ) (fits : Bool)
    → IsAmount principal
    → pos 1 ≤ℤ principal.minor
    → clears c principal from dates units ≡ ok fits
    → (w : Walk) × (project c principal (candidate c principal units) from dates ≡ ok w)
      × (leb_ℤ w.balance.minor (pos 0) ≡ fits)
unfolding clears
clears-walk c principal from dates units fits hp some e =
    let s = >>=-HandsOver (project c principal (candidate c principal units) from dates) _ fits e in
    let books =
      Ensures-value _ s.handed
        (project-IsProjected c principal (candidate c principal units) from dates hp
          (wrap64-InInt64 _))
        s.first in
    (
      s.handed,
      s.first,
      sym (is_cleared_iff principal.minor s.handed some books.books) ∙ ok_injective s.second,
    )

-- The product of a candidate does not wrap round below a bound that fits.
candidate_fits :
    (c : Contract) (principal : Amount) (u : ℤ) (top : ℕ)
    → pos 0 ≤ℤ u
    → u ≤ℤ pos top
    → top * pos_part (unit_of c.rounding) ≤ max_int64
    → (candidate c principal u).minor ≡ pos (pos_part u * pos_part (unit_of c.rounding))
candidate_fits c principal u top low high fits =
    let unit = pos_part (unit_of c.rounding) in
    let bound : pos_part u * unit ≤ top * unit =
      mul-le-mul_right unit (omega (arith, high, one_part u)) in
    ap (λ z. wrap64 (z *ℤ pos unit)) (nonneg_pos u low)
    ∙ ap wrap64 (*ℤ_pos (pos_part u) unit)
    ∙ wrap64_id (pos (pos_part u * unit)) (omega (arith, bound, fits), omega arith)

candidate_order :
    (c : Contract) (principal : Amount) (u v : ℤ) (top : ℕ)
    → pos 0 ≤ℤ u
    → u ≤ℤ v
    → v ≤ℤ pos top
    → top * pos_part (unit_of c.rounding) ≤ max_int64
    → (candidate c principal u).minor ≤ℤ (candidate c principal v).minor
candidate_order c principal u v top low le high fits =
    let unit = pos_part (unit_of c.rounding) in
    let more : pos_part u * unit ≤ pos_part v * unit =
      mul-le-mul_right unit (omega (arith, le, low, one_part u, one_part v)) in
    rw
      (
        candidate_fits c principal u top low (omega (arith, le, high)) fits,
        candidate_fits c principal v top (omega (arith, le, low)) high fits,
      )
      (omega (arith, more))

pos_sum : (a b : ℕ) → pos a +ℤ pos b ≡ pos (a + b)
pos_sum a b = omega int_laws

pos_less_one : (a : ℕ) → 0 < a → pos a -ℤ pos 1 ≡ pos (a - 1)
pos_less_one a h = omega int_laws

-- The number of units that the whole loan takes.
ceil_div_fits :
    (n unit : ℕ)
    → 0 < n
    → 0 < unit
    → n + unit ≤ max_int64
    → (k : ℕ) × (ceil_div (pos n) unit ≡ pos k) × (1 ≤ k) × (k * unit ≤ max_int64)
unfolding ceil_div
ceil_div_fits n unit hn hu fits =
    let some : leb_ℤ (pos n) (pos 0) ≡ false = ground arith in
    let sum : wrap64 (pos n +ℤ pos unit) ≡ pos (n + unit) =
      ap wrap64 (pos_sum n unit) ∙ wrap64_id (pos (n + unit)) (omega (arith, fits), omega arith) in
    let less : wrap64 (pos (n + unit) -ℤ pos 1) ≡ pos (n + unit - 1) =
      ap wrap64 (pos_less_one (n + unit) (omega arith))
      ∙ wrap64_id (pos (n + unit - 1)) (omega (arith, fits), omega arith) in
    let whole : (n + unit - 1) / unit * unit ≤ n + unit - 1 = div-mul-le_self (n + unit - 1) unit in
    (
      (n + unit - 1) / unit,
      rw (some, sum, less) refl,
      (le-div_iff_mul-le hu).1 (omega arith),
      omega (arith, whole, fits),
    )

-- What the answer of `Solve` is: a number of settlement units that clears the loan, where every
-- smaller number leaves something owed at maturity.
pub record IsSmallest (c : Contract) (principal : Amount) (from : Date) (dates : List Date)
    (instalment : Amount) : Type 0 where
  pub units : ℤ
  pub is_candidate : instalment ≡ candidate c principal units
  pub positive : pos 1 ≤ℤ units
  pub settles :
      (w : Walk) × (project c principal instalment from dates ≡ ok w) × (w.balance.minor ≡ pos 0)
  pub smaller_fails :
      (u : ℤ)
      → pos 1 ≤ℤ u
      → u <ℤ units
      → (w : Walk) → project c principal (candidate c principal u) from dates ≡ ok w
      → pos 1 ≤ℤ w.balance.minor

module _ (c : Contract) (principal : Amount) (from : Date) (dates : List Date)
    (terms : HasTerms c.nominal_rate c.rounding) (hp : IsAmount principal)
    (some : pos 1 ≤ℤ principal.minor) where
  settles_loan :
      (units : ℤ)
      → clears c principal from dates units ≡ ok true
      → (w : Walk) × (project c principal (candidate c principal units) from dates ≡ ok w)
        × (w.balance.minor ≡ pos 0)
  unfolding project
  settles_loan units e =
      let (w, run, done) = clears-walk c principal from dates units true hp some e in
      let low =
        Ensures-value _ w
          (level_rows-low c (candidate c principal units) principal.minor dates 1
            (start_walk c principal from) (wrap64-InInt64 _)
            (start_walk-IsBooked c principal from hp) (omega (arith, some)))
          run in
      (
        w,
        run,
        eq_of_parts w.balance.minor (pos 0)
            (let no_more = le_of_leb_ℤ w.balance.minor (pos 0) done in omega (arith, low, no_more)),
      )

  smaller_owes :
      (top : ℕ) (u v : ℤ)
      → top * pos_part (unit_of c.rounding) ≤ max_int64
      → pos 1 ≤ℤ u
      → u ≤ℤ v
      → v ≤ℤ pos top
      → clears c principal from dates v ≡ ok false
      → (w : Walk) → project c principal (candidate c principal u) from dates ≡ ok w
      → pos 1 ≤ℤ w.balance.minor
  smaller_owes top u v fits low le high fails w run =
      let (x, run', owes) = clears-walk c principal from dates v false hp some fails in
      let less =
        project_monotone c principal (candidate c principal u) (candidate c principal v) from dates
          w x terms hp (omega (arith, some)) (wrap64-InInt64 _) (wrap64-InInt64 _)
          (candidate_order c principal u v top (omega (arith, low)) le high fits) run run' in
      let more : pos 1 ≤ℤ x.balance.minor = ground arith in omega (arith, less, more)

  found-IsSmallest :
      (top : ℕ) (units : ℤ)
      → top * pos_part (unit_of c.rounding) ≤ max_int64
      → IsFound (clears c principal from dates) (pos 1) (pos top) units
      → IsSmallest c principal from dates (candidate c principal units)
  found-IsSmallest top units fits found = record {
    units = units;
    is_candidate = refl;
    positive = found.low;
    settles = settles_loan units found.passes;
    smaller_fails = λ u low less w run. elim found.below_fails [
      | inl first ↦ absurd (no_less u units low less first)
      | inr fails ↦
          smaller_owes top u (units -ℤ pos 1) fits low (omega (int_laws, less))
            (omega (int_laws, found.high)) fails w run
    ];
  }
    where
      no_less : (u units : ℤ) → pos 1 ≤ℤ u → u <ℤ units → ¬ (units ≡ pos 1)
      no_less u units low less e = omega (arith, low, less, ap pos_part e, ap neg_part e)

  solve_units-IsSmallest :
      (top : ℕ)
      → 1 ≤ top
      → top * pos_part (unit_of c.rounding) ≤ max_int64
      → Ensures
          (λ units. IsSmallest c principal from dates (candidate c principal units))
          (solve_units (clears c principal from dates) (pos top))
  unfolding solve_units
  solve_units-IsSmallest top low fits =
      >>=-Ensures (clears c principal from dates (pos top)) _ λ passed e.
        if-Ensures passed
          (λ is_passed.
            Ensures-map _ (λ units found. found-IsSmallest top units fits found)
              (bisect-IsFound 64 (clears c principal from dates) (pos 1) (pos top) (pos 1) (pos top)
                (record {
                  ordered = omega arith;
                  from_first = omega arith;
                  passes = e ∙ ap ok is_passed;
                  fails = inl refl;
                })
                (omega arith)))
          (λ _. ensures_err _)

unit_positive : (c : Contract) → 0 < pos_part (unit_of c.rounding)
unit_positive c = ground arith

-- Solve answers with the smallest instalment, in whole settlement units, that clears the loan: it
-- leaves nothing at maturity, and every smaller number of units whose projection returns leaves
-- something owed. This holds for a positive principal and the bounded terms of HasTerms, where the
-- whole loan settled on the first date, and one unit more, fits in int64.
pub solve_on-IsSmallest :
    (cal : Calendar) (principal : Amount) (from : Date) (dates : List Date)
    (whole instalment : Amount)
    → HasTerms cal.contract.nominal_rate cal.contract.rounding
    → IsAmount principal
    → pos 1 ≤ℤ principal.minor
    → dates_from cal from ≡ ok dates
    → whole_loan cal.contract principal from dates ≡ ok whole
    → pos 1 ≤ℤ whole.minor
    → pos_part whole.minor + pos_part (unit_of cal.contract.rounding) ≤ max_int64
    → solve_on cal principal from ≡ ok instalment
    → IsSmallest cal.contract principal from dates instalment
unfolding solve_on
solve_on-IsSmallest cal principal from dates whole instalment terms hp some ed ew low fits run =
    let c = cal.contract in
    let owes : leb_ℤ principal.minor (pos 0) ≡ false = ground arith in
    let (top, et, one, small) =
      ceil_div_fits (pos_part whole.minor) (pos_part (unit_of c.rounding))
        (omega (arith, low, one_part whole.minor)) (omega (arith, unit_positive c)) fits in
    let hi =
      ap (λ z. ceil_div z (pos_part (unit_of c.rounding)))
        (nonneg_pos whole.minor (omega (arith, low)))
      ∙ et in
    let e : (solve_units (clears c principal from dates) (pos top) >>= λ units.
    ok (candidate c principal units))
        ≡ ok instalment =
      subst
        (λ z.
          (solve_units (clears c principal from dates) z >>= λ units.
          ok (candidate c principal units))
          ≡ ok instalment)
        hi (rw (owes, ed, ew) at run) in
    Ensures-value {Q = IsSmallest c principal from dates} _ instalment
      (>>=-Ensures (solve_units (clears c principal from dates) (pos top)) _ λ units found.
        ensures_ok _ (
          Ensures-value _ units
            (solve_units-IsSmallest c principal from dates terms hp some top one small) found))
      e
