-- ===== src/Plan/Strategy/Order.antt =====
-- pkg/core/plan/strategies.go: the order of the loans under a strategy.
use marumbot.Prelude.{
  ◌++◌, length, ◌==◌, ℕ, Bool, true, false, not, ◌&&◌, List, [], ◌∷◌, Result, ok, err, unsupported,
  ◌>>=◌, if◌then◌else◌, Text,
}
use marumbot.Plan.Sim.Accepted.{validate_ids}
use marumbot.Prelude.Int.{ℤ, pos, negsuc, ltb_ℤ, leb_ℤ, eq_ℤ, ◌*ℤ◌}
use marumbot.Date.Calendar.{is_zero}
use marumbot.Money.Accrual.{
  DayCount, actual_365, actual_360, thirty_360, actual_actual, denominator,
}
use marumbot.Money.Rounding.{Mode, half_up, half_even, down, up, Policy}
use marumbot.Model.Loan.{Contract}
use marumbot.Plan.Sim.Allocate.{reduces_principal}
use marumbot.Plan.Input.{PlanInput, Position}
use marumbot.Plan.Strategy.{
  Strategy, Candidate, highest_rate, snowball, avalanche, hybrid, highest_required,
  highest_interest, cashflow_index, custom, other_strategy, eligible_from, rest_from, less_id,
  sort_candidates, indexes, take_all,
}
use marumbot.Plan.Strategy.Figures.{price_all}

-- `compareInt` and `compareRatio`
compare_int : ℤ → ℤ → ℤ
compare_int a b = if ltb_ℤ a b then negsuc 0 else if ltb_ℤ b a then pos 1 else pos 0

compare_ratio : ℤ → ℤ → ℤ → ℤ → ℤ
unfolding compare_int
compare_ratio a b c d = compare_int (a *ℤ d) (c *ℤ b)

-- The switch of the comparison.
compare_by : Strategy → Candidate → Candidate → ℤ
unfolding compare_int compare_ratio
compare_by highest_rate x y =
    compare_int y.position.contract.nominal_rate x.position.contract.nominal_rate
compare_by avalanche x y =
    compare_int y.position.contract.nominal_rate x.position.contract.nominal_rate
compare_by snowball x y = compare_int x.payoff y.payoff
compare_by hybrid x y =
    compare_ratio x.position.balance.minor x.position.contract.nominal_rate y.position.balance.minor
      y.position.contract.nominal_rate
compare_by highest_required x y = compare_int y.required x.required
compare_by highest_interest x y = compare_int y.interest x.interest
compare_by cashflow_index x y = compare_ratio x.payoff x.required y.payoff y.required
compare_by custom x y = pos 0
compare_by (other_strategy s) x y = pos 0

unfoldable pub comes_first : Strategy → Candidate → Candidate → Bool
unfolding compare_by less_id
comes_first id x y =
    let order = compare_by id x y in
    if not (eq_ℤ order (pos 0)) then ltb_ℤ order (pos 0) else less_id x y

is_marginal : DayCount → Bool
is_marginal actual_365 = true
is_marginal actual_360 = true
is_marginal thirty_360 = false
is_marginal actual_actual = false

-- Two conventions that have passed that test are the same where their years have as many days.
same_basis : DayCount → DayCount → Bool
same_basis a b = denominator a == denominator b

mode_number : Mode → ℕ
mode_number half_up = 0
mode_number half_even = 1
mode_number down = 2
mode_number up = 3

same_rounding : Policy → Policy → Bool
unfolding mode_number
same_rounding a b = mode_number a.mode == mode_number b.mode && eq_ℤ a.unit b.unit

-- The tests on one loan of `avalancheDomain`.
is_recognisable : Position → Bool
unfolding is_marginal
is_recognisable p =
    let c = p.contract in
    let pp = c.prepayment in
    length pp.charges == 0
    && eq_ℤ pp.fee_bp (pos 0)
    && eq_ℤ pp.min_amount.minor (pos 0)
    && reduces_principal p.excess
    && not p.optional_excluded
    && is_zero c.effective_thru
    && leb_ℤ (pos 0) c.nominal_rate
    && is_marginal c.day_count

-- The loop behind its first loan.
share_basis : Contract → List Position → Bool
unfolding is_recognisable same_basis same_rounding
share_basis first [] = true
share_basis first (p ∷ ps) =
    is_recognisable p
    && same_basis first.day_count p.contract.day_count
    && same_rounding first.rounding p.contract.rounding
    && share_basis first ps

-- `avalancheDomain`: whether it has no reason to refuse.
unfoldable pub avalanche_domain : List Position → Bool
unfolding share_basis
avalanche_domain [] = true
avalanche_domain (p ∷ ps) = is_recognisable p && share_basis p.contract ps

unfoldable pub custom_order : PlanInput → List Text → Result (List Candidate)
unfolding eligible_from take_all
custom_order input names =
    let eligible = eligible_from 0 input.loans in
    if not (length names == length eligible) then err unsupported else take_all names eligible

-- The order by the figures of a strategy.
unfoldable pub sorted_order : PlanInput → Strategy → Result (List Candidate)
unfolding eligible_from price_all sort_candidates comes_first
sorted_order input id = price_all input id (eligible_from 0 input.loans) >>= λ cs.
    ok (sort_candidates (comes_first id) cs)

-- The eligible loans in the order of a strategy.
unfoldable pub eligible_order : PlanInput → Strategy → List Text → Result (List Candidate)
unfolding custom_order avalanche_domain sorted_order
eligible_order input custom names = custom_order input names
eligible_order input (other_strategy s) names = err unsupported
eligible_order input avalanche names =
    if avalanche_domain input.loans then sorted_order input avalanche else err unsupported
eligible_order input highest_rate names = sorted_order input highest_rate
eligible_order input snowball names = sorted_order input snowball
eligible_order input hybrid names = sorted_order input hybrid
eligible_order input highest_required names = sorted_order input highest_required
eligible_order input highest_interest names = sorted_order input highest_interest
eligible_order input cashflow_index names = sorted_order input cashflow_index

-- `StrategyOrder`
unfoldable pub strategy_order : PlanInput → Strategy → List Text → Result (List ℕ)
unfolding rest_from sort_candidates less_id indexes eligible_order
strategy_order input id names = validate_ids [] input.loans >>= λ _.
    eligible_order input id names >>= λ cs.
    ok (indexes cs ++ indexes (sort_candidates less_id (rest_from 0 input.loans)))
