-- ===== src/Plan/Fees.antt =====
-- pkg/core/plan/fees.go: the fee of a prepayment under the dated charges of a contract.
pub mod Exact
use marumbot.Money.Amount.{from_minor, zero_amount, add, cmp, sub, Amount}
use marumbot.Money.Accrual.{quantise}
use marumbot.Prelude.{
  invalid_plan, err, ◌/◌, [], ◌&&◌, ◌∷◌, ok, ◌==◌, ◌||◌, Bool, List, length, if◌then◌else◌, ◌>>=◌,
  Result,
}
use marumbot.Prelude.Int.{pos_part, ◌*ℤ◌, ◌+ℤ◌, eq_ℤ, leb_ℤ, pos, quot_ℤ, ltb_ℤ, ◌-ℤ◌, ℤ}
use marumbot.Prelude.Int64.{wrap64}
use marumbot.Money.Rounding.{Policy}
use marumbot.Money.Currency.{Currency}
use marumbot.Date.Calendar.{Date}
use marumbot.Model.Loan.{Contract, PrepaymentCharge}

-- The guard of `bp`, and the amount that it computes.
unfoldable pub bp : Amount → ℤ → Policy → Result Amount
bp a points p =
    let m = a.minor in
    let minor = quot_ℤ (wrap64 (wrap64 (m *ℤ points) +ℤ pos 5000)) 10000 in
    if ltb_ℤ (pos 0) m && ltb_ℤ (pos (4611686018427387904 / pos_part m)) points
    then err invalid_plan
    else ok (quantise (from_minor minor a.cur) p)

-- `contractYear`
unfoldable pub contract_year : Contract → Date → ℤ
contract_year c on =
    let y = on.year -ℤ c.start_date.year in
    let passed =
      if ltb_ℤ on.month c.start_date.month
        || (eq_ℤ on.month c.start_date.month && ltb_ℤ on.day c.start_date.day)
      then y -ℤ pos 1
      else y in
    passed +ℤ pos 1

-- The test that skips a charge in a year that it does not cover.
abbrev pub is_skipped : PrepaymentCharge → ℤ → Bool
is_skipped r year =
    (ltb_ℤ (pos 0) r.from_year && ltb_ℤ year r.from_year)
    || (ltb_ℤ (pos 0) r.through_year && ltb_ℤ r.through_year year)

-- The principal beyond what is left of the free allowance.
unfoldable pub chargeable_of : PrepaymentCharge → Amount → Amount → Result Amount
chargeable_of r principal used =
    if ltb_ℤ (pos 0) r.free_allowance.minor
    then (sub r.free_allowance used >>= λ left.
        if ltb_ℤ (pos 0) left.minor
        then (sub principal left >>= λ rest.
            ok (if ltb_ℤ rest.minor (pos 0) then zero_amount principal.cur else rest))
        else ok principal)
    else ok principal

-- The parts of one fee, in the order of the source: the percentage, the fixed sum, the least and
-- the greatest charge.
percent_fee : Contract → PrepaymentCharge → Currency → Amount → Result Amount
percent_fee c r cur chargeable =
    if ltb_ℤ (pos 0) r.percent_bp && ltb_ℤ (pos 0) chargeable.minor
    then bp chargeable r.percent_bp c.rounding
    else ok (zero_amount cur)

with_fixed : PrepaymentCharge → Amount → Result Amount
with_fixed r fee = if ltb_ℤ (pos 0) r.fixed.minor then add fee r.fixed else ok fee

raised : PrepaymentCharge → Amount → Result Amount
raised r fee =
    if ltb_ℤ (pos 0) r.min_charge.minor
    then (cmp fee r.min_charge >>= λ order. ok (if ltb_ℤ order (pos 0) then r.min_charge else fee))
    else ok fee

capped : PrepaymentCharge → Amount → Result Amount
capped r fee =
    if ltb_ℤ (pos 0) r.max_charge.minor
    then (cmp fee r.max_charge >>= λ order. ok (if ltb_ℤ (pos 0) order then r.max_charge else fee))
    else ok fee

-- The fee of one charge that applies.
unfoldable pub charge_fee : Contract → PrepaymentCharge → Amount → Amount → Result Amount
unfolding percent_fee with_fixed raised capped
charge_fee c r principal used = chargeable_of r principal used >>= λ chargeable.
    percent_fee c r principal.cur chargeable >>= λ percent.
    with_fixed r percent >>= λ fee. raised r fee >>= λ more. capped r more

-- The loop of `charge`, on the total so far.
pub add_charges : Contract → ℤ → Amount → Amount → List PrepaymentCharge → Amount → Result Amount
add_charges c year principal used [] total = ok total
add_charges c year principal used (r ∷ rules) total =
    if is_skipped r year
    then add_charges c year principal used rules total
    else (charge_fee c r principal used >>= λ fee.
        add total fee >>= λ sum. add_charges c year principal used rules sum)

-- `charge`
unfoldable pub charge : Contract → Date → Amount → Amount → Result Amount
unfolding add_charges
charge c on principal used =
    let pp = c.prepayment in
    if length pp.charges == 0
    then (if leb_ℤ pp.fee_bp (pos 0)
        then ok (zero_amount principal.cur)
        else bp principal pp.fee_bp c.rounding)
    else add_charges c (contract_year c on) principal used pp.charges (zero_amount principal.cur)
