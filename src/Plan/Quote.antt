-- ===== src/Plan/Quote.antt =====
-- pkg/core/plan/sim.go: the accrual of a loan, and the quote for an optional payment.
pub mod Within
use marumbot.Date.Calendar.{days_between, after, Date}
use marumbot.Money.Rounding.{down}
use marumbot.Money.Accrual.{accrue, quantise}
use marumbot.Prelude.{
  true, ◌||◌, broken_invariant, not, err, ok, ◌>>=◌, false, if◌then◌else◌, Bool, Result,
}
use marumbot.Plan.Fees.{contract_year, charge}
use marumbot.Plan.State.{least, or_zero, LoanState, smaller}
use marumbot.Prelude.Int.{leb_ℤ, pos, ltb_ℤ}
use marumbot.Money.Amount.{sub, cmp, add, zero_amount, Amount}
use marumbot.Model.Loan.{Contract}
use marumbot.Money.Currency.{Currency}

pub record Quote : Type 0 where
  pub principal : Amount
  pub interest : Amount
  pub fee : Amount
  pub outflow : Amount
  pub closes : Bool

abbrev pub no_quote : Currency → Quote
no_quote cur = record {
  principal = zero_amount cur;
  interest = zero_amount cur;
  fee = zero_amount cur;
  outflow = zero_amount cur;
  closes = false;
}

-- `accrueTo`
unfoldable pub accrue_to : LoanState → Date → Result LoanState
accrue_to l on =
    let c = l.pos.contract in
    if not (after on l.from) || leb_ℤ l.balance.minor (pos 0)
    then ok l
    else (accrue l.balance c.nominal_rate (days_between l.from on) c.day_count c.rounding >>= λ i.
        add l.accrued i >>= λ accrued. ok (record l { accrued = accrued; from = on }))

-- The test against the lender's least payment.
pub below_min : Contract → Amount → Result Bool
below_min c a =
    if ltb_ℤ (pos 0) c.prepayment.min_amount.minor
    then smaller a c.prepayment.min_amount
    else ok false

-- The credit that a payment of `available` leaves after its fee, in whole settlement units.
pub payable : Contract → LoanState → Date → Amount → Amount → Result Amount
payable c l on used available = charge c on available used >>= λ fee.
    sub available fee >>= λ principal. least principal l.balance >>= λ capped.
    ok (quantise capped (record { mode = down; unit = c.rounding.unit }))

-- The fee on the credit itself, and the check that the payment stays within what is available.
pub quote_part : Contract → Currency → Date → Amount → Amount → Amount → Result Quote
quote_part c cur on used available principal = charge c on principal used >>= λ fee.
    add principal fee >>= λ out. cmp out available >>= λ order.
    if ltb_ℤ (pos 0) order
    then err broken_invariant
    else ok (record {
      principal = principal;
      interest = zero_amount cur;
      fee = fee;
      outflow = out;
      closes = false;
    })

-- A payment that does not close the loan.
pub quote_partial : Contract → Currency → LoanState → Date → Amount → Amount → Result Quote
unfolding below_min payable quote_part
quote_partial c cur l on used available = below_min c available >>= λ too_small.
    if too_small
    then ok (no_quote cur)
    else (payable c l on used available >>= λ principal.
        if leb_ℤ principal.minor (pos 0)
        then ok (no_quote cur)
        else (below_min c principal >>= λ too_little.
            if too_little then ok (no_quote cur) else quote_part c cur on used available principal))

-- `quote`, of the loan once its interest is accrued.
unfoldable pub quote_accrued : Currency → LoanState → Date → Amount → Result Quote
unfolding quote_partial
quote_accrued cur l on available =
    let c = l.pos.contract in
    let used = or_zero cur (l.allowance (contract_year c on)) in
    charge c on l.balance used >>= λ close_fee. add l.balance l.accrued >>= λ owed.
    add owed close_fee >>= λ close_out. cmp available close_out >>= λ order.
    if leb_ℤ (pos 0) order
    then ok (record {
      principal = l.balance;
      interest = l.accrued;
      fee = close_fee;
      outflow = close_out;
      closes = true;
    })
    else quote_partial c cur l on used available

-- `quote`: the loan that it has accrued, and the answer.
unfoldable pub quote : Currency → LoanState → Date → Amount → Result (LoanState × Quote)
quote cur l on available =
    accrue_to l on >>= λ l'. quote_accrued cur l' on available >>= λ q. ok (l', q)
