-- ===== src/Amortisation/Rows.antt =====
-- pkg/core/amortisation/schedule.go: the rows of a schedule, and what both ways to project do with a
-- row. The source has a nil pointer for the rows where its caller wants the outcome alone; here the
-- rows are always kept, and such a caller drops them.
pub mod Booked
use marumbot.Prelude.{ℕ, suc, ◌==◌, if◌then◌else◌, List, [], ◌∷◌, ◌++◌, Result, ok, ◌>>=◌}
use marumbot.Prelude.Int.{ℤ}
use marumbot.Money.Amount.{Amount, no_amount, zero_amount, add}
use marumbot.Date.Calendar.{Date, no_date, is_zero}
use marumbot.Model.Loan.{Contract}

pub record Row : Type 0 where
  pub n : ℕ
  pub due : Date
  pub days : ℤ
  pub opening : Amount
  pub interest : Amount
  pub principal : Amount
  pub payment : Amount
  pub closing : Amount

pub record Schedule : Type 0 where
  pub rows : List Row
  pub instalment : Amount
  pub final_payment : Amount
  pub total_paid : Amount
  pub total_interest : Amount

-- `outcome`
pub record Outcome : Type 0 where
  pub periods : ℕ
  pub first_due : Date
  pub first_interest : Amount
  pub first_principal : Amount
  pub first_payment : Amount
  pub final_payment : Amount
  pub final_closing : Amount
  pub total_paid : Amount
  pub total_interest : Amount

-- The variables of the loop of a projection.
pub record Walk : Type 0 where
  pub balance : Amount
  pub prev : Date
  pub out : Outcome
  pub rows : List Row

-- The variables before the loop.
abbrev pub start_walk : Contract → Amount → Date → Walk
start_walk c principal from = record {
  balance = principal;
  prev = if is_zero from then c.start_date else from;
  out = record {
    periods = 0;
    first_due = no_date;
    first_interest = no_amount;
    first_principal = no_amount;
    first_payment = no_amount;
    final_payment = no_amount;
    final_closing = no_amount;
    total_paid = zero_amount principal.cur;
    total_interest = zero_amount principal.cur;
  };
  rows = [];
}

-- The outcome with one more row, and the new totals.
abbrev pub counted : Outcome → Row → Amount → Amount → Outcome
counted out row paid charged = record {
  periods = suc out.periods;
  first_due = if out.periods == 0 then row.due else out.first_due;
  first_interest = if out.periods == 0 then row.interest else out.first_interest;
  first_principal = if out.periods == 0 then row.principal else out.first_principal;
  first_payment = if out.periods == 0 then row.payment else out.first_payment;
  final_payment = row.payment;
  final_closing = row.closing;
  total_paid = paid;
  total_interest = charged;
}

-- The end of a round, from the append of its row on.
unfoldable pub close_row : Walk → Row → Result Walk
close_row w row = add w.out.total_paid row.payment >>= λ paid.
    add w.out.total_interest row.interest >>= λ charged. ok (record {
      balance = row.closing;
      prev = row.due;
      out = counted w.out row paid charged;
      rows = w.rows ++ (row ∷ []);
    })
