-- ===== src/Plan/Strategy.antt =====
-- pkg/core/plan/strategies.go: the loans that a named priority puts in order.
pub mod Figures
pub mod Order
pub mod Complete
use marumbot.Prelude.{
  ◌++◌, length, ◌==◌, ℕ, suc, Bool, true, false, not, ◌&&◌, List, [], ◌∷◌, Result, ok, err,
  unsupported, ◌>>=◌, if◌then◌else◌, Text, text_eq,
}
use marumbot.Plan.Sim.Accepted.{validate_ids}
use marumbot.Prelude.Int.{ℤ, pos, negsuc, ltb_ℤ, leb_ℤ, eq_ℤ, ◌*ℤ◌}
use marumbot.Date.Calendar.{is_zero, equal}
use marumbot.Money.Amount.{add, zero_amount}
use marumbot.Amortisation.Rows.{Row}
use marumbot.Money.Accrual.{
  DayCount, actual_365, actual_360, thirty_360, actual_actual, denominator,
}
use marumbot.Money.Rounding.{Mode, half_up, half_even, down, up, Policy}
use marumbot.Model.Loan.{Contract}
use marumbot.Plan.Sim.Allocate.{reduces_principal}
use marumbot.Amortisation.Build.{build_contract}
use marumbot.Plan.Fees.{charge}
use marumbot.Plan.Input.{PlanInput, Position}
use marumbot.Plan.Sim.Routed.{text_lt}

-- `StrategyID`, and any other value of the string.
pub data Strategy : Type 0 where
  highest_rate snowball avalanche hybrid highest_required highest_interest cashflow_index custom :
      Strategy
  other_strategy : Text → Strategy

-- A loan by its index, with its entries of the three slices of figures.
pub record Candidate : Type 0 where
  pub index : ℕ
  pub position : Position
  pub payoff : ℤ
  pub required : ℤ
  pub interest : ℤ

abbrev pub candidate_of : ℕ → Position → Candidate
candidate_of i p = record {
  index = i;
  position = p;
  payoff = pos 0;
  required = pos 0;
  interest = pos 0;
}

unfoldable pub is_eligible : Position → Bool
is_eligible p = ltb_ℤ (pos 0) p.balance.minor && not p.optional_excluded

-- The first loop: the eligible loans, and those that are not.
unfoldable pub eligible_from : ℕ → List Position → List Candidate
unfolding is_eligible
eligible_from i [] = []
eligible_from i (p ∷ ps) =
    if is_eligible p then candidate_of i p ∷ eligible_from (suc i) ps else eligible_from (suc i) ps

unfoldable pub rest_from : ℕ → List Position → List Candidate
unfolding is_eligible
rest_from i [] = []
rest_from i (p ∷ ps) =
    if is_eligible p then rest_from (suc i) ps else candidate_of i p ∷ rest_from (suc i) ps

unfoldable pub less_id : Candidate → Candidate → Bool
less_id a b = text_lt a.position.id b.position.id

-- `sort.Slice`. No two loans have one identifier, so no two are equal in an order that ends with it.
unfoldable pub insert_candidate :
    (Candidate → Candidate → Bool) → Candidate → List Candidate → List Candidate
insert_candidate less c [] = c ∷ []
insert_candidate less c (d ∷ ds) = if less d c then d ∷ insert_candidate less c ds else c ∷ d ∷ ds

unfoldable pub sort_candidates : (Candidate → Candidate → Bool) → List Candidate → List Candidate
unfolding insert_candidate
sort_candidates less [] = []
sort_candidates less (c ∷ cs) = insert_candidate less c (sort_candidates less cs)

unfoldable pub indexes : List Candidate → List ℕ
indexes [] = []
indexes (c ∷ cs) = c.index ∷ indexes cs

-- `lookup` and `delete`: the candidate of a name, and the others.
unfoldable pub take_named : Text → List Candidate → Result (Candidate × List Candidate)
take_named name [] = err unsupported
take_named name (c ∷ cs) =
    if text_eq c.position.id name
    then ok (c, cs)
    else (take_named name cs >>= λ r. ok (r.0, c ∷ r.1))

unfoldable pub take_all : List Text → List Candidate → Result (List Candidate)
unfolding take_named
take_all [] cs = ok []
take_all (name ∷ names) cs =
    take_named name cs >>= λ r. take_all names r.1 >>= λ others. ok (r.0 ∷ others)
