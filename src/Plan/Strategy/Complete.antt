-- ===== src/Plan/Strategy/Complete.antt =====
-- pkg/core/plan/strategies.go: an order names every loan exactly once.
use mathlib.Core.List.{Perm, perm_middle}
use marumbot.Prelude.{
  ℕ, suc, ◌≡◌, refl, subst, arith, Bool, true, false, not, ◌==◌, List, [], ◌∷◌, ◌++◌, length, ok,
  unsupported, Ensures, ensures_ok, ensures_err, >>=-known, >>=-any, if-Ensures, if◌then◌else◌,
  Text, text_eq, ◌&&◌,
}
use marumbot.Prelude.Int.{pos, leb_ℤ}
use marumbot.Amortisation.Rows.{Row}
use marumbot.Amortisation.Build.{build_contract}
use marumbot.Plan.Input.{PlanInput, Position}
use marumbot.Plan.Sim.Accepted.{validate_ids}
use marumbot.Plan.Strategy.{
  highest_rate, snowball, avalanche, hybrid, highest_required, highest_interest, cashflow_index,
  custom, other_strategy, Strategy, Candidate, candidate_of, is_eligible, eligible_from, rest_from,
  less_id, insert_candidate, sort_candidates, indexes, take_named, take_all,
}
use marumbot.Plan.Strategy.Figures.{
  priced_row, reads_payoff, reads_rates, is_hybrid, is_cashflow, payoff_of, priced, price_all,
}
use marumbot.Plan.Strategy.Order.{
  avalanche_domain, comes_first, custom_order, sorted_order, eligible_order, strategy_order,
}
use mathlib.Core.List.Perm

-- The indexes from one on.
unfoldable pub count_from : ℕ → List Position → List ℕ
count_from i [] = []
count_from i (p ∷ ps) = i ∷ count_from (suc i) ps

insert_candidate-perm :
    (less : Candidate → Candidate → Bool) (c : Candidate) (ds : List Candidate)
    → Perm (indexes (insert_candidate less c ds)) (c.index ∷ indexes ds)
unfolding insert_candidate indexes
insert_candidate-perm less c [] = Perm.refl _
insert_candidate-perm less c (d ∷ ds) = by_order (less d c) (insert_candidate-perm less c ds)
  where
    by_order :
        (b : Bool)
        → Perm (indexes (insert_candidate less c ds)) (c.index ∷ indexes ds)
        → Perm
            (indexes (if b then d ∷ insert_candidate less c ds else c ∷ d ∷ ds))
            (c.index ∷ d.index ∷ indexes ds)
    by_order true h = Perm.trans (Perm.cons d.index h) (Perm.swap c.index d.index (indexes ds))
    by_order false h = Perm.refl _

sort_candidates-perm :
    (less : Candidate → Candidate → Bool) (cs : List Candidate)
    → Perm (indexes (sort_candidates less cs)) (indexes cs)
unfolding sort_candidates indexes
sort_candidates-perm less [] = Perm.refl _
sort_candidates-perm less (c ∷ cs) =
    Perm.trans (insert_candidate-perm less c (sort_candidates less cs))
      (Perm.cons c.index (sort_candidates-perm less cs))

-- The two loops that part the loans miss none.
parted-perm :
    (i : ℕ) (ps : List Position)
    → Perm (indexes (eligible_from i ps) ++ indexes (rest_from i ps)) (count_from i ps)
unfolding eligible_from rest_from indexes count_from
parted-perm i [] = Perm.refl _
parted-perm i (p ∷ ps) = by_test (is_eligible p) (parted-perm (suc i) ps)
  where
    by_test :
        (b : Bool)
        → Perm
            (indexes (eligible_from (suc i) ps) ++ indexes (rest_from (suc i) ps))
            (count_from (suc i) ps)
        → Perm
            (indexes (
                if b then candidate_of i p ∷ eligible_from (suc i) ps else eligible_from (suc i) ps)
              ++ indexes
                  (if b then rest_from (suc i) ps else candidate_of i p ∷ rest_from (suc i) ps))
            (i ∷ count_from (suc i) ps)
    by_test true h = Perm.cons i h
    by_test false h =
        Perm.trans
          (perm_middle (indexes (eligible_from (suc i) ps)) (indexes (rest_from (suc i) ps)))
          (Perm.cons i h)

priced_row-index :
    (input : PlanInput) (id : Strategy) (c : Candidate) (rows : List Row)
    → Ensures (λ d. d.index ≡ c.index) (priced_row input id c rows)
unfolding priced_row
priced_row-index input id c [] = ensures_err unsupported
priced_row-index input id c (row ∷ rows) =
    >>=-any (if reads_payoff id then payoff_of input c.position else ok (pos 0)) λ payoff.
      if-Ensures (is_cashflow id && leb_ℤ row.payment.minor (pos 0)) (λ _. ensures_err unsupported)
        (λ _. ensures_ok _ refl)

priced-index :
    (input : PlanInput) (id : Strategy) (c : Candidate)
    → Ensures (λ d. d.index ≡ c.index) (priced input id c)
unfolding priced
priced-index input id c =
    let p = c.position in
    if-Ensures (is_hybrid id && leb_ℤ p.contract.nominal_rate (pos 0))
      (λ _. ensures_err unsupported)
      λ _.
        if-Ensures (reads_rates id) (λ _. ensures_ok c refl)
          λ _.
            >>=-any (build_contract p.contract p.balance p.from)
              λ s. priced_row-index input id c s.rows

-- Pricing keeps the indexes.
price_all-indexes :
    (input : PlanInput) (id : Strategy) (cs : List Candidate)
    → Ensures (λ ds. indexes ds ≡ indexes cs) (price_all input id cs)
unfolding price_all indexes
price_all-indexes input id [] = ensures_ok [] refl
price_all-indexes input id (c ∷ cs) =
    >>=-known (priced-index input id c)
      λ d h. >>=-known (price_all-indexes input id cs) λ ds k. ensures_ok _ (cc)

take_named-perm :
    (name : Text) (cs : List Candidate)
    → Ensures
        (λ r. Perm (r.0.index ∷ indexes r.1) (indexes cs) × (suc (length r.1) ≡ length cs))
        (take_named name cs)
unfolding take_named indexes
take_named-perm name [] = ensures_err unsupported
take_named-perm name (c ∷ cs) =
    let deeper = take_named-perm name cs in
    if-Ensures (text_eq c.position.id name) (λ _. ensures_ok _ (Perm.refl _, refl))
      λ _. >>=-known deeper λ r h. ensures_ok _ (
        Perm.trans (Perm.swap c.index r.0.index (indexes r.1)) (Perm.cons c.index h.0),
        omega (arith, h.1),
      )

take_all-perm :
    (names : List Text) (cs : List Candidate)
    → length names ≡ length cs
    → Ensures (λ ds. Perm (indexes ds) (indexes cs)) (take_all names cs)
unfolding take_all indexes
take_all-perm [] [] h = ensures_ok _ (Perm.refl _)
take_all-perm [] (c ∷ cs) h = absurd (omega arith)
take_all-perm (name ∷ names) cs h = >>=-known (take_named-perm name cs) λ r k.
    >>=-known (take_all-perm names r.1 (omega (arith, k.1)))
      λ ds m. ensures_ok _ (Perm.trans (Perm.cons r.0.index m) k.0)

custom_order-perm :
    (input : PlanInput) (names : List Text)
    → Ensures
        (λ cs. Perm (indexes cs) (indexes (eligible_from 0 input.loans)))
        (custom_order input names)
unfolding custom_order
custom_order-perm input names =
    let eligible = eligible_from 0 input.loans in
    if-Ensures (not (length names == length eligible)) (λ _. ensures_err unsupported)
      λ same. take_all-perm names eligible (ground arith)

sorted_order-perm :
    (input : PlanInput) (id : Strategy)
    → Ensures
        (λ cs. Perm (indexes cs) (indexes (eligible_from 0 input.loans)))
        (sorted_order input id)
unfolding sorted_order
sorted_order-perm input id =
    >>=-known (price_all-indexes input id (eligible_from 0 input.loans)) λ cs h. ensures_ok _ (
      subst (Perm (indexes (sort_candidates (comes_first id) cs))) h
        (sort_candidates-perm (comes_first id) cs))

eligible_order-perm :
    (input : PlanInput) (id : Strategy) (names : List Text)
    → Ensures
        (λ cs. Perm (indexes cs) (indexes (eligible_from 0 input.loans)))
        (eligible_order input id names)
unfolding eligible_order
eligible_order-perm input custom names = custom_order-perm input names
eligible_order-perm input (other_strategy s) names = ensures_err unsupported
eligible_order-perm input avalanche names =
    if-Ensures (avalanche_domain input.loans) (λ _. sorted_order-perm input avalanche)
      (λ _. ensures_err unsupported)
eligible_order-perm input highest_rate names = sorted_order-perm input highest_rate
eligible_order-perm input snowball names = sorted_order-perm input snowball
eligible_order-perm input hybrid names = sorted_order-perm input hybrid
eligible_order-perm input highest_required names = sorted_order-perm input highest_required
eligible_order-perm input highest_interest names = sorted_order-perm input highest_interest
eligible_order-perm input cashflow_index names = sorted_order-perm input cashflow_index

-- Under every strategy an order that StrategyOrder gives names the index of each loan exactly once,
-- those of loans that are closed or excluded with them.
pub strategy_order-perm :
    (input : PlanInput) (id : Strategy) (names : List Text)
    → Ensures (λ order. Perm order (count_from 0 input.loans)) (strategy_order input id names)
unfolding strategy_order
strategy_order-perm input id names = >>=-any (validate_ids [] input.loans) λ _.
    >>=-known (eligible_order-perm input id names) λ cs h. ensures_ok _ (
      Perm.trans (Perm.append h (sort_candidates-perm less_id (rest_from 0 input.loans)))
        (parted-perm 0 input.loans))
