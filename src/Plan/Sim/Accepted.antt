-- ===== src/Plan/Sim/Accepted.antt =====
-- pkg/core/plan/cash_routing.go and strategies.go: what is refused of the routing of receipts.
pub mod Fitting
pub mod Splits
use marumbot.Prelude.{
  ℕ, Bool, true, false, not, ◌&&◌, ◌||◌, List, [], ◌∷◌, Option, none, some, Result, ok, err, panic,
  unsupported, ◌>>=◌, if◌then◌else◌, Text, text_eq,
}
use marumbot.Prelude.Int.{ℤ, pos, ltb_ℤ, leb_ℤ, eq_ℤ, rem_ℤ, pos_part}
use marumbot.Date.Calendar.{Date, before, equal, is_zero}
use marumbot.Money.Currency.{Currency, currency_eq}
use marumbot.Money.Amount.{Amount, add, cmp, zero_amount}
use marumbot.Plan.Period.{budget_rule_date_valid}
use marumbot.Plan.Input.{PlanInput, Position, CashEvent, CashRouting, CashSplit}
use marumbot.Plan.State.{or_zero}
use marumbot.Plan.Sim.Allocate.{reduces_principal}

unfoldable pub is_among : Text → List Text → Bool
is_among s [] = false
is_among s (t ∷ ts) = text_eq s t || is_among s ts

-- `validateStrategyIDs`, from the identifiers that it has seen.
pub validate_ids : List Text → List Position → Result (Unit {0})
unfolding is_among
validate_ids seen [] = ok tt
validate_ids seen (p ∷ ps) =
    if text_eq p.id [] || is_among p.id seen then err unsupported else validate_ids (p.id ∷ seen) ps

-- The settlement unit of a loan, at least 1.
settlement_unit_of : Position → Currency → ℤ
settlement_unit_of p cur =
    let unit =
      if ltb_ℤ p.contract.rounding.unit (pos 1)
      then cur.settlement_unit
      else p.contract.rounding.unit in
    if ltb_ℤ unit (pos 1) then pos 1 else unit

-- The function `target` of `validateCashRouting`.
pub check_target : Currency → List Position → Text → Amount → Result (Unit {0})
unfolding settlement_unit_of reduces_principal
check_target cur [] id amount = err unsupported
check_target cur (p ∷ ps) id amount =
    if not (text_eq p.id id)
    then check_target cur ps id amount
    else if leb_ℤ p.balance.minor (pos 0) || p.optional_excluded
    then err unsupported
    else if not (reduces_principal p.excess)
    then err unsupported
    else if not (eq_ℤ (rem_ℤ amount.minor (pos_part (settlement_unit_of p cur))) (pos 0))
    then err unsupported
    else ok tt

pub part_fails : Currency → List Text → CashSplit → Bool
unfolding is_among
part_fails cur seen part =
    text_eq part.loan_id []
    || is_among part.loan_id seen
    || not (currency_eq part.amount.cur cur)
    || leb_ℤ part.amount.minor (pos 0)

-- The loop over the parts of a split, from the loans that it has seen and the sum so far.
pub sum_splits : PlanInput → List Text → Amount → List CashSplit → Result Amount
unfolding part_fails check_target
sum_splits input seen sum [] = ok sum
sum_splits input seen sum (part ∷ parts) =
    let cur = input.cash.monthly.cur in
    if part_fails cur seen part
    then err unsupported
    else (check_target cur input.loans part.loan_id part.amount >>= λ _.
        add sum part.amount >>= λ more. sum_splits input (part.loan_id ∷ seen) more parts)

-- A split adds up to its receipt.
pub check_splits : PlanInput → CashEvent → List CashSplit → Result (Unit {0})
unfolding sum_splits
check_splits input e [] = ok tt
check_splits input e (part ∷ parts) =
    sum_splits input [] (zero_amount input.cash.monthly.cur) (part ∷ parts) >>= λ sum.
    cmp sum e.amount >>= λ order. if eq_ℤ order (pos 0) then ok tt else err unsupported

has_splits : List CashSplit → Bool
has_splits [] = false
has_splits (part ∷ parts) = true

-- The tests on the gates of a routing, and on what it routes to.
pub gates_fail : Currency → CashEvent → CashRouting → Bool
unfolding has_splits
gates_fail cur e r =
    (not (is_zero r.hold_until)
      && (not (budget_rule_date_valid r.hold_until) || before r.hold_until e.on))
    || (ltb_ℤ r.hold_minimum.minor (pos 0)
        || (not (text_eq r.hold_minimum.cur.code []) && not (currency_eq r.hold_minimum.cur cur))
        || (ltb_ℤ (pos 0) r.hold_minimum.minor && not (currency_eq r.hold_minimum.cur cur)))
    || (not (text_eq r.loan_id []) && has_splits r.splits)
    || (text_eq r.loan_id []
        && not (has_splits r.splits)
        && is_zero r.hold_until
        && eq_ℤ r.hold_minimum.minor (pos 0))

-- The part of a round behind the tests that concern all events.
pub check_routing : PlanInput → CashEvent → Option CashRouting → Result (Unit {0})
unfolding gates_fail check_target check_splits
check_routing input e none = ok tt
check_routing input e (some r) =
    let cur = input.cash.monthly.cur in
    if text_eq e.id [] || gates_fail cur e r
    then err unsupported
    else ((if text_eq r.loan_id [] then ok tt else check_target cur input.loans r.loan_id e.amount)
        >>= λ _. check_splits input e r.splits)

pub routing_is_set : Option CashRouting → Bool
routing_is_set none = false
routing_is_set (some r) = true

-- What an event takes of the opening cash, added up.
pub retained : PlanInput → CashEvent → Amount → Result Amount
unfolding routing_is_set
retained input e opening =
    if e.from_opening
    then (if not (routing_is_set e.routing) || e.expected || not (equal e.on input.valuation_date)
        then err unsupported
        else add opening e.amount)
    else ok opening

is_repeated : CashEvent → List Text → Bool
unfolding is_among
is_repeated e seen = not (text_eq e.id []) && is_among e.id seen

amount_fails : Currency → CashEvent → Bool
unfolding routing_is_set
amount_fails cur e =
    routing_is_set e.routing && (not (currency_eq e.amount.cur cur) || leb_ℤ e.amount.minor (pos 0))

-- Whether an event is refused at once.
pub event_fails : Currency → CashEvent → List Text → Bool
unfolding is_repeated amount_fails
event_fails cur e seen = is_repeated e seen || amount_fails cur e

-- The loop over the events, from the identifiers that it has seen.
pub check_events : PlanInput → List Text → Amount → List CashEvent → Result Amount
unfolding event_fails retained check_routing
check_events input seen opening [] = ok opening
check_events input seen opening (e ∷ es) =
    if event_fails input.cash.monthly.cur e seen
    then err unsupported
    else (retained input e opening >>= λ more. check_routing input e e.routing >>= λ _.
        check_events input (if text_eq e.id [] then seen else e.id ∷ seen) more es)

pub any_routing : List CashEvent → Bool
unfolding routing_is_set
any_routing [] = false
any_routing (e ∷ es) = routing_is_set e.routing || e.from_opening || any_routing es

-- `validateCashRouting`
unfoldable pub validate_cash_routing : PlanInput → Result (Unit {0})
unfolding validate_ids check_events any_routing
validate_cash_routing input =
    let cur = input.cash.monthly.cur in
    if not (any_routing input.cash.lumps)
    then ok tt
    else (validate_ids [] input.loans >>= λ _.
        check_events input [] (zero_amount cur) input.cash.lumps >>= λ opening.
        cmp opening (or_zero cur input.cash.opening_cash) >>= λ order.
        if ltb_ℤ (pos 0) order then err unsupported else ok tt)
