-- ===== src/Amortisation/Rows/Booked.antt =====
-- The books of a projection: what its rows, its totals and its balance have to do with one another.
use marumbot.Prelude.{
  false, ℕ, suc, ◌≡◌, refl, sym, ap, ◌∙◌, arith, ◌==◌, ◌⊎◌, inl, inr, List, [], ◌∷◌, ◌++◌, All,
  length, length-append, Ensures, ensures_ok, >>=-Ensures, Ensures-value,
}
use marumbot.Prelude.Int.{ℤ, pos, ◌+ℤ◌, ◌-ℤ◌, int_laws}
use marumbot.Money.Amount.{Amount, add}
use marumbot.Money.Amount.Exact.{IsAmount, add-IsExact}
use marumbot.Date.Calendar.{Date}
use marumbot.Model.Loan.{Contract}
use marumbot.Amortisation.Rows.{Row, Outcome, Walk, start_walk, counted, close_row}

-- One row: the payment is its interest and its part of the principal, and the balance falls by that
-- part.
pub record IsBalanced (row : Row) : Type 0 where
  pub pays : row.payment.minor ≡ row.principal.minor +ℤ row.interest.minor
  pub falls : row.closing.minor ≡ row.opening.minor -ℤ row.principal.minor

-- The rows, each of which opens with the balance that the one before it has left.
abbrev pub Linked : ℤ → List Row → Type 0
Linked start [] = Unit
Linked start (row ∷ rows) = (row.opening.minor ≡ start) × Linked row.closing.minor rows

abbrev pub last_closing : ℤ → List Row → ℤ
last_closing start [] = start
last_closing start (row ∷ rows) = last_closing row.closing.minor rows

abbrev pub sum_by : (Row → Amount) → List Row → ℤ
sum_by f [] = pos 0
sum_by f (row ∷ rows) = (f row).minor +ℤ sum_by f rows

Linked-append :
    (start : ℤ) (rows : List Row) (row : Row)
    → Linked start rows
    → row.opening.minor ≡ last_closing start rows
    → Linked start (rows ++ (row ∷ []))
Linked-append start [] row h e = (e, tt)
Linked-append start (r ∷ rows) row h e = (h.0, Linked-append r.closing.minor rows row h.1 e)

last_closing-append :
    (start : ℤ) (rows : List Row) (row : Row)
    → last_closing start (rows ++ (row ∷ [])) ≡ row.closing.minor
last_closing-append start [] row = refl
last_closing-append start (r ∷ rows) row = last_closing-append r.closing.minor rows row

sum_by-append :
    (f : Row → Amount) (rows : List Row) (row : Row)
    → sum_by f (rows ++ (row ∷ [])) ≡ sum_by f rows +ℤ (f row).minor
sum_by-append f [] row = omega int_laws
sum_by-append f (r ∷ rows) row =
    ap (λ z. (f r).minor +ℤ z) (sum_by-append f rows row) ∙ omega int_laws

pub All-snoc :
    (P : Row → Type 0) (rows : List Row) (row : Row)
    → All P rows
    → P row
    → All P (rows ++ (row ∷ []))
All-snoc P [] row all p = (p, tt)
All-snoc P (r ∷ rows) row all p = (all.0, All-snoc P rows row all.1 p)

-- What the outcome says of the first row and of the last.
abbrev pub IsFirst : List Row → Outcome → Type 0
IsFirst [] out = out.periods ≡ 0
IsFirst (row ∷ rows) out =
    (out.periods ≡ suc (length rows))
    × (out.first_due ≡ row.due)
    × (out.first_interest ≡ row.interest)
    × (out.first_principal ≡ row.principal)
    × (out.first_payment ≡ row.payment)

pub suc_not_zero : (n : ℕ) → (suc n == 0) ≡ false
suc_not_zero n = ground arith

IsFirst-append :
    (rows : List Row) (out : Outcome) (row : Row) (paid charged : Amount)
    → IsFirst rows out
    → IsFirst (rows ++ (row ∷ [])) (counted out row paid charged)
IsFirst-append [] out row paid charged h = rw h (refl, refl, refl, refl, refl)
IsFirst-append (r ∷ rows) out row paid charged (n, due, interest, part, payment) =
    rw (n, suc_not_zero (length rows))
      (ap suc (omega (arith, length-append rows (row ∷ []))), due, interest, part, payment)

-- The books of a projection of this principal.
pub record IsBooked (start : ℤ) (w : Walk) : Type 0 where
  pub linked : Linked start w.rows
  pub ends : w.balance.minor ≡ last_closing start w.rows
  pub balanced : All IsBalanced w.rows
  pub first : IsFirst w.rows w.out
  pub last : (w.out.periods ≡ 0) ⊎ (w.out.final_closing ≡ w.balance)
  pub paid : w.out.total_paid.minor ≡ sum_by (λ row. row.payment) w.rows
  pub charged : w.out.total_interest.minor ≡ sum_by (λ row. row.interest) w.rows
  pub conserved : w.out.total_paid.minor +ℤ w.balance.minor ≡ start +ℤ w.out.total_interest.minor
  pub ranges : IsAmount w.balance × IsAmount w.out.total_paid × IsAmount w.out.total_interest

pub start_walk-IsBooked :
    (c : Contract) (principal : Amount) (from : Date)
    → IsAmount principal
    → IsBooked principal.minor (start_walk c principal from)
start_walk-IsBooked c principal from range = record {
  linked = tt;
  ends = refl;
  balanced = tt;
  first = refl;
  last = inl refl;
  paid = refl;
  charged = refl;
  conserved = omega int_laws;
  ranges = (range, omega arith, omega arith);
}

regroup : (t b part interest : ℤ) → t +ℤ (part +ℤ interest) +ℤ (b -ℤ part) ≡ t +ℤ b +ℤ interest
regroup t b part interest = omega int_laws

+ℤ_assoc : (a b c : ℤ) → a +ℤ b +ℤ c ≡ a +ℤ (b +ℤ c)
+ℤ_assoc a b c = omega int_laws

-- A row that fits the balance of a walk.
pub record IsNext (w : Walk) (row : Row) : Type 0 where
  pub opens : row.opening ≡ w.balance
  pub balanced : IsBalanced row
  pub payment_range : IsAmount row.payment
  pub interest_range : IsAmount row.interest
  pub closing_range : IsAmount row.closing

closing_from :
    (w : Walk) (row : Row)
    → IsNext w row
    → row.closing.minor ≡ w.balance.minor -ℤ row.principal.minor
closing_from w row r = r.balanced.falls ∙ ap (λ a. a.minor -ℤ row.principal.minor) r.opens

book_step :
    (t b s i pay part interest : ℤ)
    → pay ≡ part +ℤ interest
    → t +ℤ b ≡ s +ℤ i
    → t +ℤ pay +ℤ (b -ℤ part) ≡ s +ℤ (i +ℤ interest)
book_step t b s i pay part interest e h =
    ap (λ z. t +ℤ z +ℤ (b -ℤ part)) e
    ∙ regroup t b part interest
    ∙ ap (λ z. z +ℤ interest) h
    ∙ +ℤ_assoc s i interest

pub close_row-IsBooked :
    (start : ℤ) (w : Walk) (row : Row)
    → IsBooked start w
    → IsNext w row
    → Ensures
        (λ next.
          IsBooked start next
          × (next.balance ≡ row.closing)
          × (next.rows ≡ w.rows ++ (row ∷ []))
          × (next.prev ≡ row.due))
        (close_row w row)
unfolding close_row
close_row-IsBooked start w row h r = >>=-Ensures (add w.out.total_paid row.payment) _ λ paid e.
    >>=-Ensures (add w.out.total_interest row.interest) _ λ charged e'.
      let p =
        Ensures-value _ paid (add-IsExact w.out.total_paid row.payment h.ranges.1 r.payment_range)
          e in
      let q =
        Ensures-value _ charged
          (add-IsExact w.out.total_interest row.interest h.ranges.2 r.interest_range) e' in
      ensures_ok _ (
        record {
          linked = Linked-append start w.rows row h.linked (ap (λ a. a.minor) r.opens ∙ h.ends);
          ends = sym (last_closing-append start w.rows row);
          balanced = All-snoc IsBalanced w.rows row h.balanced r.balanced;
          first = IsFirst-append w.rows w.out row paid charged h.first;
          last = inr refl;
          paid =
              p.value_is
              ∙ ap (λ z. z +ℤ row.payment.minor) h.paid
              ∙ sym (sum_by-append (λ x. x.payment) w.rows row);
          charged =
              q.value_is
              ∙ ap (λ z. z +ℤ row.interest.minor) h.charged
              ∙ sym (sum_by-append (λ x. x.interest) w.rows row);
          conserved =
              ap (λ z. z +ℤ row.closing.minor) p.value_is
              ∙ ap (λ z. w.out.total_paid.minor +ℤ row.payment.minor +ℤ z) (closing_from w row r)
              ∙ book_step w.out.total_paid.minor w.balance.minor start w.out.total_interest.minor
                  row.payment.minor row.principal.minor row.interest.minor r.balanced.pays
                  h.conserved
              ∙ ap (λ z. start +ℤ z) (sym q.value_is);
          ranges = (r.closing_range, p.in_range, q.in_range);
        },
        refl,
        refl,
        refl,
      )
