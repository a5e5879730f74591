-- ===== src/Ledger/Accrual/Fuel.antt =====
-- The loop of `accrueAcross` ends: its fuel is never used up.
use marumbot.Prelude.{
  ok-HasFuel, >>=-HasFuel, if-HasFuel, HasFuel, ℕ, zero, suc, ◌<◌, ◌≡◌, refl, sym, ◌∙◌, subst, Bool,
  true, false, not, ◌&&◌, arith, Bool-cases, inl, inr, ◌⊎◌, List, Result, ok, err, panic, All,
}
use marumbot.Prelude.Int.{ℤ, pos, pos_part, ◌-ℤ◌, ◌<ℤ◌, leb_ℤ, fewer_left}
use marumbot.Money.Amount.{Amount, zero_amount, add}
use marumbot.Money.Accrual.Errors.{Refuses, value, out_of_range, is_negative, accrue-Refuses}
use marumbot.Date.Calendar.{
  Date, before, after, is_zero, add_days, days_between, days_30360, ordinal,
}
use marumbot.Date.Calendar.Order.{after-before}
use marumbot.Date.Calendar.Ordinal.{IsDate}
use marumbot.Date.Calendar.Ordinal.Ordered.{before-ordinal}
use marumbot.Model.Buckets.{Buckets, currency_of}
use marumbot.Model.Loan.{Contract}
use marumbot.Ledger.Accrual.{
  contract_for, accrue_on, accrue_segment, segment, segment_end, is_thirty_360, across,
  accrue_across,
}
use marumbot.Ledger.Accrual.Version.{All-Among, Answers, contract_for-Answers}

pub add-HasFuel : (a b : Amount) → HasFuel (add a b)
unfolding add
add-HasFuel a b = λ e. ground arith

pub Refuses-HasFuel : {A : Type 0} (r : Result A) → Refuses r → HasFuel r
Refuses-HasFuel _ (value a) = λ e. cc
Refuses-HasFuel _ out_of_range = λ e. ground arith
Refuses-HasFuel _ is_negative = λ e. ground arith

accrue_on-HasFuel : (b : Buckets) (c : Contract) (days : ℤ) → HasFuel (accrue_on b c days)
unfolding accrue_on
accrue_on-HasFuel b c days =
    >>=-HasFuel (add b.principal_due b.late_principal) _
      (add-HasFuel b.principal_due b.late_principal)
      λ base _.
        if-HasFuel (leb_ℤ base.minor (pos 0)) (ok-HasFuel (zero_amount (currency_of b)))
          (Refuses-HasFuel _ (accrue-Refuses base c.nominal_rate days c.day_count c.rounding))

accrue_segment-HasFuel :
    (b : Buckets) (c : Contract) (from to : Date) → HasFuel (accrue_segment b c from to)
unfolding accrue_segment
accrue_segment-HasFuel b c from to =
    if-HasFuel (leb_ℤ (days_between from to) (pos 0)) (ok-HasFuel (zero_amount (currency_of b))) (
      if-HasFuel (is_thirty_360 c.day_count)
        (if-HasFuel (leb_ℤ (days_30360 from to) (pos 0)) (ok-HasFuel (zero_amount (currency_of b)))
          (accrue_on-HasFuel b c (days_30360 from to)))
        (accrue_on-HasFuel b c (days_between from to)))

Answers-HasFuel : (d : Date) (cs : List Contract) (r : Result Contract) → Answers d cs r → HasFuel r
Answers-HasFuel d cs (ok c) h = λ e. cc
Answers-HasFuel d cs (err e) h = λ eq. ground arith
Answers-HasFuel d cs panic h = absurd h

-- The last day of a version, where it has one, is a date of the calendar.
abbrev pub EndsOnDate : Contract → Type 0
EndsOnDate c = (is_zero c.effective_thru ≡ true) ⊎ IsDate c.effective_thru

segment_end-IsDate :
    (c : Contract) (to : Date) → EndsOnDate c → IsDate to → IsDate (segment_end c to)
segment_end-IsDate c to h v = elim h [
  | inl open_ended ↦ rw open_ended v
  | inr ends ↦ elim (Bool-cases (not (is_zero c.effective_thru) && before c.effective_thru to)) [
    | inl short ↦ rw short ends
    | inr long ↦ rw long v
  ]
]

-- The days left fall from round to round.
days_left-lt :
    (from next to : Date)
    → IsDate from
    → IsDate next
    → after next from ≡ true
    → ordinal from <ℤ ordinal to
    → pos_part (ordinal to -ℤ ordinal next) < pos_part (ordinal to -ℤ ordinal from)
days_left-lt from next to vf vn h lt =
    let step : ordinal from <ℤ ordinal next =
      (before-ordinal from next vf vn).0 (sym (after-before next from) ∙ h) in
    fewer_left (ordinal from) (ordinal next) (ordinal to) step lt

not_flip : (b : Bool) → not b ≡ false → b ≡ true
not_flip true h = refl
not_flip false h = cc

segment-HasFuel :
    (fuel : ℕ) (b : Buckets) (c : Contract) (from to : Date) (sum : Amount)
    (rest : Date → Amount → Result Amount)
    → ((total : Amount)
        → after (segment_end c to) from ≡ true
        → HasFuel (rest (segment_end c to) total))
    → HasFuel (segment b from to sum rest c)
unfolding segment
segment-HasFuel fuel b c from to sum rest h = elim (Bool-cases (after (segment_end c to) from)) [
  | inr stuck ↦ rw stuck (λ e. ground arith)
  | inl moves ↦ rw moves (
      >>=-HasFuel (accrue_segment b c from (segment_end c to)) _
        (accrue_segment-HasFuel b c from (segment_end c to))
        λ part _. >>=-HasFuel (add sum part) _ (add-HasFuel sum part) λ total _. h total moves)
]

across-HasFuel :
    (fuel : ℕ) (b : Buckets) (versions : List Contract) (from to : Date) (sum : Amount)
    → All EndsOnDate versions
    → IsDate from
    → IsDate to
    → pos_part (ordinal to -ℤ ordinal from) < fuel
    → HasFuel (across fuel b versions from to sum)
unfolding across
across-HasFuel zero b versions from to sum ends vf vt enough = absurd (omega arith)
across-HasFuel (suc fuel) b versions from to sum ends vf vt enough =
    elim (Bool-cases (before from to)) [
      | inr done ↦ rw done (λ e. cc)
      | inl more ↦ rw more (
          >>=-HasFuel (contract_for versions (add_days from (pos 1))) _
            (Answers-HasFuel (add_days from (pos 1)) versions _
              (contract_for-Answers versions (add_days from (pos 1))))
            λ c found. segment-HasFuel fuel b c from to sum _ λ total moves.
              let answer : Answers (add_days from (pos 1)) versions (ok c) =
                subst (Answers (add_days from (pos 1)) versions) found
                  (contract_for-Answers versions (add_days from (pos 1))) in
              let next_valid =
                segment_end-IsDate c to (All-Among EndsOnDate c versions ends answer.2) vt in
              let fewer =
                days_left-lt from (segment_end c to) to vf next_valid moves
                  ((before-ordinal from to vf vt).0 more) in
              across-HasFuel fuel b versions (segment_end c to) to total ends next_valid vt
                (omega (arith, fewer, enough)))
    ]

-- accrueAcross has fuel enough: where the two dates and the last days of the versions are dates of
-- the calendar, its loop ends.
pub accrue_across-HasFuel :
    (b : Buckets) (versions : List Contract) (from to : Date)
    → All EndsOnDate versions
    → IsDate from
    → IsDate to
    → HasFuel (accrue_across b versions from to)
unfolding accrue_across
accrue_across-HasFuel b versions from to ends vf vt =
    across-HasFuel (suc (pos_part (ordinal to -ℤ ordinal from))) b versions from to
      (zero_amount (currency_of b)) ends vf vt (omega arith)
