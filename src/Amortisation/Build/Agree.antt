-- ===== src/Amortisation/Build/Agree.antt =====
-- `Calendar.Next` is `Calendar.Build` without the schedule.
use marumbot.Prelude.{
  length, [], ensures_panic, refl, ◌∷◌, List, Ensures-value, ensures_ok, ensures_err, ok,
  unsolvable, ◌>>=◌, >>=-Ensures, err, if-Ensures, ◌≡◌, ◌==◌, if◌then◌else◌, Result, Ensures,
}
use marumbot.Amortisation.Rows.Booked.{suc_not_zero, IsFirst}
use marumbot.Amortisation.Rows.{Row, Outcome, Schedule}
use marumbot.Prelude.Int64.{wrap64-InInt64}
use marumbot.Money.Rounding.{unit_of}
use marumbot.Prelude.Int.{pos_part, pos, leb_ℤ}
use marumbot.Amortisation.Solve.{ceil_div, clears, solve_units, whole_loan, solve_on}
use marumbot.Amortisation.Level.Booked.{project-IsProjected}
use marumbot.Amortisation.Build.{
  accept_stated, shown, is_stated, Obligation, build, build_on, Built, build_as, build_declining,
  build_level, next,
}
use marumbot.Amortisation.Level.{project, check_projection}
use marumbot.Amortisation.Declining.Booked.{project_declining-IsSettled}
use marumbot.Model.Loan.{annuity, declining_principal, other_type, RepaymentType}
use marumbot.Amortisation.Dates.{dates_from, Calendar}
use marumbot.Amortisation.Declining.{project_declining, declining_dates}
use marumbot.Money.Amount.Exact.{IsAmount}
use marumbot.Date.Calendar.{Date}
use marumbot.Money.Amount.{Amount}

-- The first row of a schedule, as an obligation.
abbrev pub first_obligation : Schedule → Result Obligation
first_obligation s = elim s.rows [
  | [] ↦ err unsolvable
  | row ∷ rows ↦ ok (record { due = row.due; payment = row.payment; instalment = s.instalment })
]

-- The outcome counts the rows, and its first figures are those of the first row.
abbrev HasFirst : Built → Type 0
HasFirst b = IsFirst b.walk.rows b.walk.out

build_declining-HasFirst :
    (cal : Calendar) (principal : Amount) (from : Date)
    → IsAmount principal
    → Ensures HasFirst (build_declining cal principal from)
unfolding build_declining
build_declining-HasFirst cal principal from hp =
    >>=-Ensures (declining_dates cal principal from) _ λ dates _.
      >>=-Ensures (project_declining cal.contract principal from dates) _ λ w ew.
        ensures_ok _
          (Ensures-value _ w (project_declining-IsSettled cal.contract principal from dates hp)
            ew).books.first

solve_on-IsAmount :
    (cal : Calendar) (principal : Amount) (from : Date)
    → Ensures IsAmount (solve_on cal principal from)
unfolding solve_on
solve_on-IsAmount cal principal from =
    if-Ensures (leb_ℤ principal.minor (pos 0)) (λ _. ensures_err _)
      λ _. >>=-Ensures (dates_from cal from) _ λ dates _.
        >>=-Ensures (whole_loan cal.contract principal from dates) _ λ hi _.
          >>=-Ensures
            (solve_units (clears cal.contract principal from dates)
              (ceil_div hi.minor (pos_part (unit_of cal.contract.rounding))))
            _ λ units _. ensures_ok _ (wrap64-InInt64 _)

instalment_of-IsAmount :
    (cal : Calendar) (principal : Amount) (from : Date)
    → IsAmount cal.contract.scheduled_payment
    → Ensures IsAmount (
        if is_stated cal.contract
        then ok cal.contract.scheduled_payment
        else solve_on cal principal from)
instalment_of-IsAmount cal principal from hs =
    if-Ensures (is_stated cal.contract) (λ _. ensures_ok _ hs)
      λ _. solve_on-IsAmount cal principal from

build_level-HasFirst :
    (cal : Calendar) (principal : Amount) (from : Date)
    → IsAmount principal
    → IsAmount cal.contract.scheduled_payment
    → Ensures HasFirst (build_level cal principal from)
unfolding build_level
build_level-HasFirst cal principal from hp hs =
    >>=-Ensures
      (if is_stated cal.contract
        then ok cal.contract.scheduled_payment
        else solve_on cal principal from)
      _
      λ instalment ei. >>=-Ensures (check_projection principal instalment) _ λ _ _.
        >>=-Ensures (dates_from cal from) _ λ dates _.
          >>=-Ensures (project cal.contract principal instalment from dates) _ λ w ew.
            >>=-Ensures (accept_stated cal.contract w) _ λ _ _.
              let hi =
                Ensures-value _ instalment (instalment_of-IsAmount cal principal from hs) ei in
              ensures_ok _
                (Ensures-value _ w
                  (project-IsProjected cal.contract principal instalment from dates hp hi)
                  ew).books.first

build_as-HasFirst :
    (t : RepaymentType) (cal : Calendar) (principal : Amount) (from : Date)
    → IsAmount principal
    → IsAmount cal.contract.scheduled_payment
    → Ensures HasFirst (build_as t cal principal from)
unfolding build_as
build_as-HasFirst declining_principal cal principal from hp hs =
    build_declining-HasFirst cal principal from hp
build_as-HasFirst annuity cal principal from hp hs = build_level-HasFirst cal principal from hp hs
build_as-HasFirst (other_type n) cal principal from hp hs = ensures_err _

module _ (instalment : Amount) (out : Outcome) (s : Schedule) where
  -- The two answers on the same rows.
  first_of_rows :
      (rows : List Row)
      → IsFirst rows out
      → (if out.periods == 0
          then err unsolvable
          else ok (record {
            due = out.first_due;
            payment = out.first_payment;
            instalment = s.instalment;
          }))
        ≡ first_obligation (record s { rows = rows })
  first_of_rows [] none = rw none refl
  first_of_rows (row ∷ rows) (n, due, _, _, payment) =
      rw (n, suc_not_zero (length rows), due, payment) refl

-- Next says what the first row of Build says, and refuses where Build refuses or has no row: for every
-- calendar and date, where the principal and the stated instalment are int64.
pub next-build_on :
    (cal : Calendar) (principal : Amount) (from : Date)
    → IsAmount principal
    → IsAmount cal.contract.scheduled_payment
    → next cal principal from ≡ (build_on cal principal from >>= first_obligation)
unfolding next build_on build
next-build_on cal principal from hp hs =
    both _ (build_as-HasFirst cal.contract.type_of cal principal from hp hs)
  where
    both :
        (r : Result Built)
        → Ensures HasFirst r
        → (r >>= λ b.
            if b.walk.out.periods == 0
            then err unsolvable
            else ok (record {
              due = b.walk.out.first_due;
              payment = b.walk.out.first_payment;
              instalment = b.instalment;
            }))
          ≡ (r >>= (λ b. ok (shown b)) >>= first_obligation)
    both _ (ensures_ok b h) = first_of_rows b.instalment b.walk.out (shown b) b.walk.rows h
    both _ (ensures_err e) = refl
    both _ ensures_panic = refl
