-- ===== src/Amortisation/Declining/Booked.antt =====
-- The books of a declining projection, and that it always settles the loan.
use marumbot.Amortisation.Rows.Booked.{start_walk-IsBooked, close_row-IsBooked, IsNext, IsBooked}
use marumbot.Prelude.Int64.{wrap64-InInt64}
use marumbot.Prelude.Int.{int_laws, ◌-ℤ◌, zero_of_eq_ℤ, eq_ℤ, ltb_ℤ, pos, ℤ}
use marumbot.Amortisation.Rows.{start_walk, close_row, Row, Walk}
use marumbot.Amortisation.Declining.{
  per_period, check_stated, is_last, declining_row, declining_rows, part_of, project_declining,
}
use marumbot.Prelude.{
  ◌∙◌, ◌==◌, ap, arith, length, Bool, ℕ, suc, ◌≡◌, refl, true, false, List, [], ◌∷◌, Ensures,
  ensures_ok, ensures_err, >>=-Ensures, if-Ensures, Ensures-value,
}
use marumbot.Money.Amount.Exact.{sub-IsExact, add-IsExact, IsAmount}
use marumbot.Money.Accrual.Range.{accrue-IsIn}
use marumbot.Money.Amount.{sub, add, cmp, Amount}
use marumbot.Money.Accrual.{accrue}
use marumbot.Date.Calendar.{days_between, Date}
use marumbot.Model.Loan.{Contract}

-- The part is the whole balance on the last date.
record IsPart (balance : Amount) (last : Bool) (part : Amount) : Type 0 where
  range : IsAmount part
  whole : last ≡ true → part ≡ balance

part_of-IsPart :
    (balance per : Amount) (last : Bool)
    → IsAmount balance
    → IsAmount per
    → Ensures (IsPart balance last) (part_of balance per last)
unfolding part_of
part_of-IsPart balance per true hb hp = ensures_ok _ (record { range = hb; whole = λ _. refl })
part_of-IsPart balance per false hb hp =
    >>=-Ensures (cmp balance per) _
      λ order _. ensures_ok _ (record { range = ground arith; whole = λ e. cc })

-- A row that fits the balance, and that settles the loan on the last date.
record Fits (w : Walk) (last : Bool) (row : Row) : Type 0 where
  follows : IsNext w row
  settles : last ≡ true → row.closing.minor ≡ pos 0

declining_row-Fits :
    (c : Contract) (per : Amount) (n : ℕ) (due : Date) (last : Bool) (w : Walk)
    → IsAmount w.balance
    → IsAmount per
    → Ensures (Fits w last) (declining_row c per n due last w)
unfolding declining_row
declining_row-Fits c per n due last w hb hp =
    if-Ensures (ltb_ℤ (days_between w.prev due) (pos 0)) (λ _. ensures_err _)
      λ _.
        >>=-Ensures
          (accrue w.balance c.nominal_rate (days_between w.prev due) c.day_count c.rounding) _
          λ interest ei. >>=-Ensures (part_of w.balance per last) _ λ part ep.
            >>=-Ensures (add part interest) _ λ payment ey.
              >>=-Ensures (check_stated c due payment) _ λ u _.
                >>=-Ensures (sub w.balance part) _ λ closing el.
                  let ri =
                    Ensures-value _ interest
                      (accrue-IsIn w.balance c.nominal_rate (days_between w.prev due) c.day_count
                        c.rounding)
                      ei in
                  let rp = Ensures-value _ part (part_of-IsPart w.balance per last hb hp) ep in
                  let ry =
                    Ensures-value _ payment (add-IsExact part interest rp.range ri.in_range) ey in
                  let rl = Ensures-value _ closing (sub-IsExact w.balance part hb rp.range) el in
                  ensures_ok _ (record {
                    follows = record {
                      opens = refl;
                      balanced = record { pays = ry.value_is; falls = rl.value_is };
                      payment_range = ry.in_range;
                      interest_range = ri.in_range;
                      closing_range = rl.in_range;
                    };
                    settles = λ e.
                        rl.value_is
                        ∙ ap (λ a. w.balance.minor -ℤ a.minor) (rp.whole e)
                        ∙ omega int_laws;
                  })

-- A projection with its books that has settled the loan.
pub record IsSettled (principal : Amount) (w : Walk) : Type 0 where
  pub books : IsBooked principal.minor w
  pub nothing_left : w.balance.minor ≡ pos 0

no_last : (closing : ℤ) → closing ≡ pos 0 → ¬ (eq_ℤ closing (pos 0) ≡ false)
no_last closing h e = cc (ap (λ z. eq_ℤ z (pos 0)) h, e)

settled_later :
    (dates : List Date) (closing : ℤ)
    → (is_last dates ≡ true → closing ≡ pos 0)
    → eq_ℤ closing (pos 0) ≡ false
    → ¬ (length dates ≡ 0)
settled_later [] closing h e = absurd (no_last closing (h refl) e)
settled_later (d ∷ dates) closing h e = λ z. omega (arith, z)

declining_rows-IsSettled :
    (c : Contract) (principal per : Amount) (dates : List Date) (n : ℕ) (w : Walk)
    → IsAmount per
    → ¬ (length dates ≡ 0)
    → IsBooked principal.minor w
    → Ensures (IsSettled principal) (declining_rows c per dates n w)
unfolding declining_rows
declining_rows-IsSettled c principal per [] n w hp some h = absurd (some refl)
declining_rows-IsSettled c principal per (due ∷ dates) n w hp some h =
    >>=-Ensures (declining_row c per n due (is_last dates) w) _ λ row er.
      >>=-Ensures (close_row w row) _ λ next en.
        let fits =
          Ensures-value _ row (declining_row-Fits c per n due (is_last dates) w h.ranges.0 hp) er in
        let (books, balance, _, _) =
          Ensures-value _ next (close_row-IsBooked principal.minor w row h fits.follows) en in
        if-Ensures (eq_ℤ next.balance.minor (pos 0))
          (λ done.
            ensures_ok next
              (record { books = books; nothing_left = zero_of_eq_ℤ next.balance.minor done }))
          λ open_still.
            declining_rows-IsSettled c principal per dates (suc n) next hp
              (settled_later dates next.balance.minor
                (λ e. ap (λ a. a.minor) balance ∙ fits.settles e) open_still)
              books

-- Where the declining projection of a principal in int64 returns, nothing is left of the loan, and the
-- books of its rows balance as those of a level projection do.
pub project_declining-IsSettled :
    (c : Contract) (principal : Amount) (from : Date) (dates : List Date)
    → IsAmount principal
    → Ensures (IsSettled principal) (project_declining c principal from dates)
unfolding project_declining
project_declining-IsSettled c principal from dates hp =
    if-Ensures (length dates == 0) (λ _. Ensures.ensures_panic)
      λ some.
        declining_rows-IsSettled c principal (per_period c principal (length dates)) dates 1
          (start_walk c principal from) (wrap64-InInt64 _) (λ e. cc (ap (λ k. k == 0) e, some))
          (start_walk-IsBooked c principal from hp)
