-- ===== src/Amortisation/Level/Booked.antt =====
-- The books of a projection with a level instalment, and where it ends.
use marumbot.Prelude.Int.{
  le_of_ltb_ℤ, ℤ, pos, ◌+ℤ◌, ◌-ℤ◌, ◌≤ℤ◌, ltb_ℤ, leb_ℤ, int_laws, le_of_leb_ℤ,
}
use marumbot.Prelude.{
  false, ℕ, suc, ◌≡◌, refl, sym, ap, ◌∙◌, subst, arith, not, ◌⊎◌, inl, inr, Bool-cases, List, [],
  ◌∷◌, All, ok, panic, ◌>>=◌, Ensures, ensures_ok, ensures_err, >>=-Ensures, if-Ensures,
  Ensures-value,
}
use marumbot.Money.Amount.{Amount, add, sub, cmp, same_code}
use marumbot.Money.Amount.Exact.{IsAmount, add-IsExact, sub-IsExact}
use marumbot.Money.Accrual.{accrue}
use marumbot.Money.Accrual.Range.{accrue-IsIn}
use marumbot.Date.Calendar.{Date, days_between}
use marumbot.Model.Loan.{Contract}
use marumbot.Amortisation.Rows.{Row, Walk, start_walk, close_row}
use marumbot.Amortisation.Rows.Booked.{
  IsBooked, IsNext, start_walk-IsBooked, All-snoc, close_row-IsBooked,
}
use marumbot.Amortisation.Level.{level_row, level_rows, project}

-- `Cmp` answers with at least 0 where the first amount is not smaller.
cmp_order :
    (a b : Amount) → Ensures (λ order. leb_ℤ (pos 0) order ≡ leb_ℤ b.minor a.minor) (cmp a b)
unfolding cmp
cmp_order a b =
    if-Ensures (not (same_code a b)) (λ _. panic_order)
      λ _.
        if-Ensures (ltb_ℤ a.minor b.minor) (λ less. ensures_ok _ (ground arith))
          λ no_less.
            if-Ensures (ltb_ℤ b.minor a.minor) (λ more. ensures_ok _ (ground arith))
              λ no_more. ensures_ok _ (ground arith)
  where
    panic_order : Ensures (λ order. leb_ℤ (pos 0) order ≡ leb_ℤ b.minor a.minor) panic
    panic_order = Ensures.ensures_panic

-- A row of the projection: it fits the balance, it pays no more than the instalment, and where it
-- pays another sum the loan is settled.
pub record IsLevel (instalment : Amount) (row : Row) : Type 0 where
  pub at_most : row.payment.minor ≤ℤ instalment.minor
  pub not_below : pos 0 ≤ℤ row.closing.minor
  pub else_settled : (row.payment ≡ instalment) ⊎ (row.closing.minor ≡ pos 0)

-- A row for one date: it follows the balance and carries the interest since the date before.
pub record Fits (c : Contract) (instalment : Amount) (due : Date) (w : Walk) (row : Row)
    : Type 0 where
  pub follows : IsNext w row
  pub level : IsLevel instalment row
  pub on_date : row.due ≡ due
  pub days_low : pos 0 ≤ℤ days_between w.prev due
  pub charges :
      accrue w.balance c.nominal_rate (days_between w.prev due) c.day_count c.rounding
      ≡ ok row.interest

settled :
    (b i owed part closing : ℤ)
    → owed ≡ b +ℤ i
    → part ≡ owed -ℤ i
    → closing ≡ b -ℤ part
    → closing ≡ pos 0
settled b i owed part closing e f g = g ∙ ap (λ z. b -ℤ z) (f ∙ ap (λ z. z -ℤ i) e) ∙ omega int_laws

pays_back : (pay i part : ℤ) → part ≡ pay -ℤ i → pay ≡ part +ℤ i
pays_back pay i part e = omega int_laws ∙ ap (λ z. z +ℤ i) (sym e)

left_over :
    (b i owed pay part closing : ℤ)
    → owed ≡ b +ℤ i
    → pay ≤ℤ owed
    → part ≡ pay -ℤ i
    → closing ≡ b -ℤ part
    → pos 0 ≤ℤ closing
left_over b i owed pay part closing e le f g =
    rw (g, f) (omega (int_laws, subst (λ z. pay ≤ℤ z) e le))

more_of_leb_ℤ : (a b : ℤ) → leb_ℤ a b ≡ false → b ≤ℤ a
more_of_leb_ℤ a b h = ground arith

abbrev row_of : Walk → ℕ → Date → Amount → Amount → Amount → Amount → Row
row_of w n due interest pay part closing = record {
  n = n;
  due = due;
  days = days_between w.prev due;
  opening = w.balance;
  interest = interest;
  principal = part;
  payment = pay;
  closing = closing;
}

module _ (c : Contract) (instalment : Amount) (w : Walk) (n : ℕ) (due : Date)
    (hi : IsAmount instalment) (hb : IsAmount w.balance) where
  -- The end of a round, for either payment.
  paid-Fits :
      (interest pay : Amount)
      → IsAmount interest
      → IsAmount pay
      → pos 0 ≤ℤ days_between w.prev due
      → accrue w.balance c.nominal_rate (days_between w.prev due) c.day_count c.rounding
        ≡ ok interest
      → ((part closing : Amount)
          → part.minor ≡ pay.minor -ℤ interest.minor
          → closing.minor ≡ w.balance.minor -ℤ part.minor
          → IsLevel instalment (row_of w n due interest pay part closing))
      → Ensures (Fits c instalment due w) (
          sub pay interest >>= λ part.
          sub w.balance part >>= λ closing. ok (row_of w n due interest pay part closing))
  paid-Fits interest pay ri rp days charges level = >>=-Ensures (sub pay interest) _ λ part ep.
      >>=-Ensures (sub w.balance part) _ λ closing el.
        let rq = Ensures-value _ part (sub-IsExact pay interest rp ri) ep in
        let rl = Ensures-value _ closing (sub-IsExact w.balance part hb rq.in_range) el in
        ensures_ok _ (record {
          follows = record {
            opens = refl;
            balanced = record {
              pays = pays_back pay.minor interest.minor part.minor rq.value_is;
              falls = rl.value_is;
            };
            payment_range = rp;
            interest_range = ri;
            closing_range = rl.in_range;
          };
          level = level part closing rq.value_is rl.value_is;
          on_date = refl;
          days_low = days;
          charges = charges;
        })

  pub level_row-Fits : Ensures (Fits c instalment due w) (level_row c instalment n due w)
  unfolding level_row
  level_row-Fits =
      if-Ensures (ltb_ℤ (days_between w.prev due) (pos 0)) (λ _. ensures_err _)
        λ forward.
          >>=-Ensures
            (accrue w.balance c.nominal_rate (days_between w.prev due) c.day_count c.rounding) _
            λ interest ei. >>=-Ensures (add w.balance interest) _ λ owed eo.
              >>=-Ensures (cmp instalment owed) _ λ order ec.
                let days = le_of_ltb_ℤ (days_between w.prev due) (pos 0) forward in
                let ri =
                  Ensures-value _ interest
                    (accrue-IsIn w.balance c.nominal_rate (days_between w.prev due) c.day_count
                      c.rounding)
                    ei in
                let ro = Ensures-value _ owed (add-IsExact w.balance interest hb ri.in_range) eo in
                let rc = Ensures-value _ order (cmp_order instalment owed) ec in
                elim (Bool-cases (leb_ℤ (pos 0) order)) [
                  | inl closes ↦
                      let no_more : owed.minor ≤ℤ instalment.minor =
                        le_of_leb_ℤ owed.minor instalment.minor (sym rc ∙ closes) in
                      rw closes (
                        paid-Fits interest owed ri.in_range ro.in_range days ei
                          λ part closing ep el.
                            let nothing =
                              settled w.balance.minor interest.minor owed.minor part.minor
                                closing.minor ro.value_is ep el in
                            record {
                              at_most = no_more;
                              not_below = rw nothing (omega arith);
                              else_settled = inr nothing;
                            })
                  | inr stays ↦
                      let more : instalment.minor ≤ℤ owed.minor =
                        more_of_leb_ℤ owed.minor instalment.minor (sym rc ∙ stays) in
                      rw stays (
                        paid-Fits interest instalment ri.in_range hi days ei λ part closing ep el.
                          record {
                            at_most = omega arith;
                            not_below =
                                left_over w.balance.minor interest.minor owed.minor instalment.minor
                                  part.minor closing.minor ro.value_is more ep el;
                            else_settled = inl refl;
                          })
                ]

-- A projection with its books, whose rows pay the instalment or settle the loan.
pub record IsProjected (principal instalment : Amount) (w : Walk) : Type 0 where
  pub books : IsBooked principal.minor w
  pub level : All (IsLevel instalment) w.rows

level_rows-IsProjected :
    (c : Contract) (principal instalment : Amount) (dates : List Date) (n : ℕ) (w : Walk)
    → IsAmount instalment
    → IsProjected principal instalment w
    → Ensures (IsProjected principal instalment) (level_rows c instalment dates n w)
unfolding level_rows
level_rows-IsProjected c principal instalment [] n w hi h = ensures_ok w h
level_rows-IsProjected c principal instalment (due ∷ dates) n w hi h =
    if-Ensures (leb_ℤ w.balance.minor (pos 0)) (λ _. ensures_ok w h)
      λ _. >>=-Ensures (level_row c instalment n due w) _ λ row er.
        >>=-Ensures (close_row w row) _ λ next en.
          let fits =
            Ensures-value _ row (level_row-Fits c instalment w n due hi h.books.ranges.0) er in
          let (books, _, rows, _) =
            Ensures-value _ next (close_row-IsBooked principal.minor w row h.books fits.follows)
              en in
          level_rows-IsProjected c principal instalment dates (suc n) next hi (record {
            books = books;
            level =
                subst (All (IsLevel instalment)) (sym rows)
                  (All-snoc (IsLevel instalment) w.rows row h.level fits.level);
          })

pub project-IsProjected :
    (c : Contract) (principal instalment : Amount) (from : Date) (dates : List Date)
    → IsAmount principal
    → IsAmount instalment
    → Ensures (IsProjected principal instalment) (project c principal instalment from dates)
unfolding project
project-IsProjected c principal instalment from dates hp hi =
    level_rows-IsProjected c principal instalment dates 1 (start_walk c principal from) hi
      (record { books = start_walk-IsBooked c principal from hp; level = tt })
