-- ===== src/Plan/Strategy/Figures.antt =====
-- pkg/core/plan/strategies.go: the figures of a loan that a strategy reads.
use marumbot.Prelude.{
  Bool, true, false, not, ◌&&◌, List, [], ◌∷◌, Result, ok, err, unsupported, ◌>>=◌, if◌then◌else◌,
}
use marumbot.Prelude.Int.{ℤ, pos, leb_ℤ}
use marumbot.Date.Calendar.{equal}
use marumbot.Money.Amount.{add, zero_amount}
use marumbot.Amortisation.Rows.{Row}
use marumbot.Amortisation.Build.{build_contract}
use marumbot.Plan.Fees.{charge}
use marumbot.Plan.Input.{PlanInput, Position}
use marumbot.Plan.Strategy.{
  Strategy, Candidate, highest_rate, snowball, avalanche, hybrid, highest_required,
  highest_interest, cashflow_index, custom, other_strategy,
}

-- Which strategies read the next contractual period, and which the payoff.
unfoldable pub reads_rates : Strategy → Bool
reads_rates highest_rate = true
reads_rates avalanche = true
reads_rates hybrid = true
reads_rates snowball = false
reads_rates highest_required = false
reads_rates highest_interest = false
reads_rates cashflow_index = false
reads_rates custom = false
reads_rates (other_strategy s) = false

unfoldable pub is_hybrid : Strategy → Bool
is_hybrid hybrid = true
is_hybrid highest_rate = false
is_hybrid avalanche = false
is_hybrid snowball = false
is_hybrid highest_required = false
is_hybrid highest_interest = false
is_hybrid cashflow_index = false
is_hybrid custom = false
is_hybrid (other_strategy s) = false

unfoldable pub is_cashflow : Strategy → Bool
is_cashflow cashflow_index = true
is_cashflow highest_rate = false
is_cashflow avalanche = false
is_cashflow hybrid = false
is_cashflow snowball = false
is_cashflow highest_required = false
is_cashflow highest_interest = false
is_cashflow custom = false
is_cashflow (other_strategy s) = false

unfoldable pub reads_payoff : Strategy → Bool
unfolding is_cashflow
reads_payoff snowball = true
reads_payoff cashflow_index = true
reads_payoff highest_rate = false
reads_payoff avalanche = false
reads_payoff hybrid = false
reads_payoff highest_required = false
reads_payoff highest_interest = false
reads_payoff custom = false
reads_payoff (other_strategy s) = false

-- The cost of settling a loan at its anchor.
unfoldable pub payoff_of : PlanInput → Position → Result ℤ
payoff_of input p =
    if not (equal p.from input.valuation_date)
    then err unsupported
    else (charge p.contract input.valuation_date p.balance (zero_amount p.balance.cur) >>= λ fee.
        add p.balance fee >>= λ total. ok total.minor)

-- The figures of the first row of a schedule.
unfoldable pub priced_row : PlanInput → Strategy → Candidate → List Row → Result Candidate
unfolding reads_payoff is_cashflow payoff_of
priced_row input id c [] = err unsupported
priced_row input id c (row ∷ rows) =
    (if reads_payoff id then payoff_of input c.position else ok (pos 0)) >>= λ payoff.
    if is_cashflow id && leb_ℤ row.payment.minor (pos 0)
    then err unsupported
    else ok
        (record c { payoff = payoff; required = row.payment.minor; interest = row.interest.minor })

-- One round of the loop over the figures.
unfoldable pub priced : PlanInput → Strategy → Candidate → Result Candidate
unfolding is_hybrid reads_rates priced_row
priced input id c =
    let p = c.position in
    if is_hybrid id && leb_ℤ p.contract.nominal_rate (pos 0)
    then err unsupported
    else if reads_rates id
    then ok c
    else (build_contract p.contract p.balance p.from >>= λ s. priced_row input id c s.rows)

unfoldable pub price_all : PlanInput → Strategy → List Candidate → Result (List Candidate)
unfolding priced
price_all input id [] = ok []
price_all input id (c ∷ cs) = priced input id c >>= λ d. price_all input id cs >>= λ ds. ok (d ∷ ds)
