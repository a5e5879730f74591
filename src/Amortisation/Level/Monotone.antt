-- ===== src/Amortisation/Level/Monotone.antt =====
-- A larger instalment never leaves more behind, which is what the bisection rests on.
use marumbot.Prelude.{
  refl, [], >>=-HandsOver, Ensures-value, >>=-Ensures, Bool-cases, ◌>>=◌, arith, if-Ensures,
  ok_injective, ensures_ok, false, true, Ensures, suc, ◌∷◌, List, ok, subst, sym, ap, inl, inr, ◌∙◌,
  ◌⊎◌, ◌≡◌, ℕ,
}
use marumbot.Amortisation.Rows.{start_walk, close_row, Row, Walk}
use marumbot.Amortisation.Rows.Booked.{start_walk-IsBooked, close_row-IsBooked, IsBooked, IsNext}
use marumbot.Amortisation.Level.{project, level_row, level_rows}
use marumbot.Prelude.Int.{le_of_leb_ℤ, leb_ℤ, ◌-ℤ◌, ◌+ℤ◌, ◌≤ℤ◌, ℤ, pos, int_laws}
use marumbot.Money.Accrual.{accrue}
use marumbot.Date.Calendar.{days_between, Date}
use marumbot.Money.Amount.{Amount}
use marumbot.Money.Amount.Exact.{IsAmount}
use marumbot.Money.Accrual.Monotone.{HasTerms, accrue_monotone}
use marumbot.Model.Loan.{Contract}
use marumbot.Amortisation.Level.Booked.{Fits, level_row-Fits}

-- The second walk owes no more on the same date.
record Behind (w v : Walk) : Type 0 where
  no_more : v.balance.minor ≤ℤ w.balance.minor
  low : pos 0 ≤ℤ v.balance.minor
  same_day : v.prev ≡ w.prev

closing_is :
    (w : Walk) (row : Row)
    → IsNext w row
    → row.closing.minor ≡ w.balance.minor +ℤ row.interest.minor -ℤ row.payment.minor
closing_is w row h =
    h.balanced.falls
    ∙ ap (λ a. a.minor -ℤ row.principal.minor) h.opens
    ∙ (let e : w.balance.minor -ℤ row.principal.minor
            ≡ w.balance.minor +ℤ row.interest.minor -ℤ (row.principal.minor +ℤ row.interest.minor) =
          omega int_laws in
        e)
    ∙ ap (λ z. w.balance.minor +ℤ row.interest.minor -ℤ z) (sym h.balanced.pays)

closing_order :
    (x i pay close y j pay' close' a b : ℤ)
    → close ≡ x +ℤ i -ℤ pay
    → close' ≡ y +ℤ j -ℤ pay'
    → y ≤ℤ x
    → j ≤ℤ i
    → pay ≤ℤ a
    → a ≤ℤ b
    → pos 0 ≤ℤ close
    → (pay' ≡ b) ⊎ (close' ≡ pos 0)
    → close' ≤ℤ close
closing_order x i pay close y j pay' close' a b e e' hy hj hp hb hc (inr nothing) = rw nothing hc
closing_order x i pay close y j pay' close' a b e e' hy hj hp hb hc (inl full) =
    rw (e, e', full) (omega (int_laws, hy, hj, hp, hb))

module _ (c : Contract) (a b : Amount) (terms : HasTerms c.nominal_rate c.rounding)
    (le : a.minor ≤ℤ b.minor) where
  rows-Behind :
      (due : Date) (w v : Walk) (row row' : Row)
      → Behind w v
      → Fits c a due w row
      → Fits c b due v row'
      → row'.closing.minor ≤ℤ row.closing.minor
  rows-Behind due w v row row' h p q =
      let less =
        accrue_monotone v.balance w.balance c.nominal_rate (days_between w.prev due) c.day_count
          c.rounding row'.interest row.interest terms p.days_low h.low h.no_more
          (subst
            (λ t.
              accrue v.balance c.nominal_rate (days_between t due) c.day_count c.rounding
              ≡ ok row'.interest)
            h.same_day q.charges)
          p.charges in
      closing_order w.balance.minor row.interest.minor row.payment.minor row.closing.minor
        v.balance.minor row'.interest.minor row'.payment.minor row'.closing.minor a.minor b.minor
        (closing_is w row p.follows) (closing_is v row' q.follows) h.no_more less.1 p.level.at_most
        le p.level.not_below (paid_or_settled q.level.else_settled)
    where
      paid_or_settled :
          (row'.payment ≡ b) ⊎ (row'.closing.minor ≡ pos 0)
          → (row'.payment.minor ≡ b.minor) ⊎ (row'.closing.minor ≡ pos 0)
      paid_or_settled (inl full) = inl (ap (λ x. x.minor) full)
      paid_or_settled (inr nothing) = inr nothing

-- A projection never ends below zero.
pub level_rows-low :
    (c : Contract) (a : Amount) (p : ℤ) (dates : List Date) (n : ℕ) (w : Walk)
    → IsAmount a
    → IsBooked p w
    → pos 0 ≤ℤ w.balance.minor
    → Ensures (λ out. pos 0 ≤ℤ out.balance.minor) (level_rows c a dates n w)
unfolding level_rows
level_rows-low c a p [] n w ha books low = ensures_ok w low
level_rows-low c a p (due ∷ dates) n w ha books low =
    if-Ensures (leb_ℤ w.balance.minor (pos 0)) (λ _. ensures_ok w low)
      λ _. >>=-Ensures (level_row c a n due w) _ λ row er.
        >>=-Ensures (close_row w row) _ λ next en.
          let fits = Ensures-value _ row (level_row-Fits c a w n due ha books.ranges.0) er in
          let (books', balance, _, _) =
            Ensures-value _ next (close_row-IsBooked p w row books fits.follows) en in
          level_rows-low c a p dates (suc n) next ha books'
            (subst (λ x. pos 0 ≤ℤ x.minor) (sym balance) fits.level.not_below)

-- One round of the loop that goes on.
record GoesOn (c : Contract) (a : Amount) (p : ℤ) (due : Date) (dates : List Date) (n : ℕ)
    (w out : Walk) : Type 0 where
  row : Row
  next : Walk
  fits : Fits c a due w row
  books : IsBooked p next
  balance : next.balance ≡ row.closing
  prev : next.prev ≡ due
  rest : level_rows c a dates (suc n) next ≡ ok out

loop-GoesOn :
    (c : Contract) (a : Amount) (p : ℤ) (due : Date) (dates : List Date) (n : ℕ) (w out : Walk)
    → IsAmount a
    → IsBooked p w
    → leb_ℤ w.balance.minor (pos 0) ≡ false
    → level_rows c a (due ∷ dates) n w ≡ ok out
    → GoesOn c a p due dates n w out
unfolding level_rows
loop-GoesOn c a p due dates n w out ha books owes run =
    let e : (level_row c a n due w >>= λ row.
    close_row w row >>= λ next. level_rows c a dates (suc n) next)
        ≡ ok out =
      rw owes at run in
    let s = >>=-HandsOver (level_row c a n due w) _ out e in
    let t = >>=-HandsOver (close_row w s.handed) _ out s.second in
    let fits = Ensures-value _ s.handed (level_row-Fits c a w n due ha books.ranges.0) s.first in
    let (books', balance, _, prev) =
      Ensures-value _ t.handed (close_row-IsBooked p w s.handed books fits.follows) t.first in
    record {
      row = s.handed;
      next = t.handed;
      fits = fits;
      books = books';
      balance = balance;
      prev = prev ∙ fits.on_date;
      rest = t.second;
    }

stops :
    (c : Contract) (a : Amount) (due : Date) (dates : List Date) (n : ℕ) (w out : Walk)
    → leb_ℤ w.balance.minor (pos 0) ≡ true
    → level_rows c a (due ∷ dates) n w ≡ ok out
    → w ≡ out
unfolding level_rows
stops c a due dates n w out done run = ok_injective (rw done at run)

ends_here :
    (c : Contract) (a : Amount) (n : ℕ) (w out : Walk) → level_rows c a [] n w ≡ ok out → w ≡ out
unfolding level_rows
ends_here c a n w out run = ok_injective run

module _ (c : Contract) (a b : Amount) (p q : ℤ) (terms : HasTerms c.nominal_rate c.rounding)
    (le : a.minor ≤ℤ b.minor) (ha : IsAmount a) (hb : IsAmount b) where
  level_rows-Behind :
      (dates : List Date) (n m : ℕ) (w v w' v' : Walk)
      → IsBooked p w
      → IsBooked q v
      → Behind w v
      → level_rows c a dates n w ≡ ok w'
      → level_rows c b dates m v ≡ ok v'
      → v'.balance.minor ≤ℤ w'.balance.minor
  level_rows-Behind [] n m w v w' v' bw bv h rw' rv' =
      subst (λ z. z.balance.minor ≤ℤ w'.balance.minor) (ends_here c b m v v' rv')
        (subst (λ z. v.balance.minor ≤ℤ z.balance.minor) (ends_here c a n w w' rw') h.no_more)
  level_rows-Behind (due ∷ dates) n m w v w' v' bw bv h rw' rv' =
      elim (Bool-cases (leb_ℤ w.balance.minor (pos 0))) [
        | inl w_done ↦
            let x = stops c a due dates n w w' w_done rw' in
            let y =
              stops c b due dates m v v'
                (also_done w.balance.minor v.balance.minor w_done h.no_more) rv' in
            subst (λ z. z.balance.minor ≤ℤ w'.balance.minor) y
              (subst (λ z. v.balance.minor ≤ℤ z.balance.minor) x h.no_more)
        | inr w_owes ↦ elim (Bool-cases (leb_ℤ v.balance.minor (pos 0))) [
          | inl v_done ↦
              let y = stops c b due dates m v v' v_done rv' in
              let low =
                Ensures-value (level_rows c a (due ∷ dates) n w) w'
                  (level_rows-low c a p (due ∷ dates) n w ha bw (omega (arith, h.low, h.no_more)))
                  rw' in
              subst (λ z. z.balance.minor ≤ℤ w'.balance.minor) y
                (let none_left = le_of_leb_ℤ v.balance.minor (pos 0) v_done in
                  omega (arith, none_left, low))
          | inr v_owes ↦
              let g = loop-GoesOn c a p due dates n w w' ha bw w_owes rw' in
              let k = loop-GoesOn c b q due dates m v v' hb bv v_owes rv' in
              let less = rows-Behind c a b terms le due w v g.row k.row h g.fits k.fits in
              level_rows-Behind dates (suc n) (suc m) g.next k.next w' v' g.books k.books
                (record {
                  no_more =
                      subst (λ z. z.minor ≤ℤ g.next.balance.minor) (sym k.balance)
                        (subst (λ z. k.row.closing.minor ≤ℤ z.minor) (sym g.balance) less);
                  low = subst (λ z. pos 0 ≤ℤ z.minor) (sym k.balance) k.fits.level.not_below;
                  same_day = k.prev ∙ sym g.prev;
                })
                g.rest k.rest
        ]
      ]
    where
      also_done : (x y : ℤ) → leb_ℤ x (pos 0) ≡ true → y ≤ℤ x → leb_ℤ y (pos 0) ≡ true
      also_done x y h le = ground arith

pub project_monotone :
    (c : Contract) (principal a b : Amount) (from : Date) (dates : List Date) (w v : Walk)
    → HasTerms c.nominal_rate c.rounding
    → IsAmount principal
    → pos 0 ≤ℤ principal.minor
    → IsAmount a
    → IsAmount b
    → a.minor ≤ℤ b.minor
    → project c principal a from dates ≡ ok w
    → project c principal b from dates ≡ ok v
    → v.balance.minor ≤ℤ w.balance.minor
unfolding project
project_monotone c principal a b from dates w v terms hp low ha hb le ew ev =
    let start = start_walk-IsBooked c principal from hp in
    level_rows-Behind c a b principal.minor principal.minor terms le ha hb dates 1 1
      (start_walk c principal from) (start_walk c principal from) w v start start
      (record { no_more = omega arith; low = low; same_day = refl }) ew ev
