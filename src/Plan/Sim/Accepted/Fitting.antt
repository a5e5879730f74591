-- ===== src/Plan/Sim/Accepted/Fitting.antt =====
-- pkg/core/plan/cash_routing.go: in an accepted input the parts of a split add up to their receipt.
use marumbot.Prelude.{
  ok, if◌then◌else◌, ◌||◌, text_eq, ap, ◌+◌, ◌%◌, ◌≡◌, arith, true, false, not, All, List, [], ◌∷◌,
  Option, none, some, unsupported, Ensures, ensures_ok, ensures_err, ensures_panic, if-Ensures,
  Ensures-map, >>=-known, >>=-any, Text,
}
use marumbot.Plan.Sim.Accepted.{
  gates_fail, check_target, retained, event_fails, part_fails, validate_ids, sum_splits,
  check_splits, check_routing, routing_is_set, check_events, any_routing, validate_cash_routing,
}
use marumbot.Prelude.Int.{pos, eq_ℤ, ltb_ℤ}
use marumbot.Money.Amount.{Amount, cmp, zero_amount, same_code}
use marumbot.Money.Amount.Residue.{residue, modulus, residue_lt, zero_residue, add-residue}
use marumbot.Plan.Input.{PlanInput, CashEvent, CashRouting, CashSplit}
use marumbot.Plan.State.{or_zero}
use marumbot.Plan.Sim.Routed.Sums.{Fits, RoutingFits, SplitsFit, sum_parts}

sum_splits-sum :
    (input : PlanInput) (seen : List Text) (sum : Amount) (parts : List CashSplit)
    → Ensures
        (λ r. residue r.minor % modulus ≡ (residue sum.minor + sum_parts parts) % modulus)
        (sum_splits input seen sum parts)
unfolding sum_splits sum_parts
sum_splits-sum input seen sum [] = ensures_ok _ (omega arith)
sum_splits-sum input seen sum (part ∷ parts) =
    let cur = input.cash.monthly.cur in
    if-Ensures (part_fails cur seen part) (λ _. ensures_err unsupported)
      λ _. >>=-any (check_target cur input.loans part.loan_id part.amount) λ checked.
        >>=-known (add-residue sum part.amount) λ more h.
          Ensures-map _ (λ r k. omega arith) (sum_splits-sum input (part.loan_id ∷ seen) more parts)

-- Equal amounts compare as 0, and only they.
pub cmp-same : (a b : Amount) → Ensures (λ o. eq_ℤ o (pos 0) ≡ true → a.minor ≡ b.minor) (cmp a b)
unfolding cmp
cmp-same a b =
    if-Ensures (not (same_code a b)) (λ _. ensures_panic)
      λ _.
        if-Ensures (ltb_ℤ a.minor b.minor) (λ less. ensures_ok _ (λ e. cc))
          λ no_less.
            if-Ensures (ltb_ℤ b.minor a.minor) (λ more. ensures_ok _ (λ e. ground arith))
              λ no_more. ensures_ok _ (λ e. ground arith)

check_splits-Fits :
    (input : PlanInput) (e : CashEvent) (splits : List CashSplit)
    → Ensures (λ _. SplitsFit e splits) (check_splits input e splits)
unfolding check_splits SplitsFit
check_splits-Fits input e [] = ensures_ok tt tt
check_splits-Fits input e (part ∷ parts) =
    let nothing = zero_amount input.cash.monthly.cur in
    >>=-known (sum_splits-sum input [] nothing (part ∷ parts)) λ sum h.
      >>=-known (cmp-same sum e.amount) λ order k.
        let none_yet = zero_residue in
        let below = residue_lt e.amount.minor in
        if-Ensures (eq_ℤ order (pos 0))
          (λ same. let equal_sums = ap residue (k same) in ensures_ok tt (omega arith))
          (λ _. ensures_err unsupported)

check_routing-Fits :
    (input : PlanInput) (e : CashEvent) (routing : Option CashRouting)
    → Ensures (λ _. RoutingFits e routing) (check_routing input e routing)
unfolding check_routing RoutingFits
check_routing-Fits input e none = ensures_ok tt tt
check_routing-Fits input e (some r) =
    let cur = input.cash.monthly.cur in
    if-Ensures (text_eq e.id [] || gates_fail cur e r) (λ _. ensures_err unsupported)
      λ _.
        >>=-any
          (if text_eq r.loan_id [] then ok tt else check_target cur input.loans r.loan_id e.amount)
          λ _. check_splits-Fits input e r.splits

check_events-Fits :
    (input : PlanInput) (seen : List Text) (opening : Amount) (es : List CashEvent)
    → Ensures (λ _. All Fits es) (check_events input seen opening es)
unfolding check_events
check_events-Fits input seen opening [] = ensures_ok _ tt
check_events-Fits input seen opening (e ∷ es) =
    if-Ensures (event_fails input.cash.monthly.cur e seen) (λ _. ensures_err unsupported)
      λ _. >>=-any (retained input e opening) λ more.
        >>=-known (check_routing-Fits input e e.routing) λ _ fit.
          Ensures-map _ (λ _ fits. (fit, fits))
            (check_events-Fits input (if text_eq e.id [] then seen else e.id ∷ seen) more es)

unrouted-Fits : (es : List CashEvent) → any_routing es ≡ false → All Fits es
unfolding any_routing routing_is_set RoutingFits
unrouted-Fits [] h = tt
unrouted-Fits (e ∷ es) h = (no_routing e.routing (ground arith), unrouted-Fits es (ground arith))
  where
    no_routing :
        (routing : Option CashRouting) → routing_is_set routing ≡ false → RoutingFits e routing
    no_routing none k = tt
    no_routing (some r) k = cc

-- In an input whose routing is accepted, the parts of every split add up to the amount of their
-- receipt, modulo 2^64.
pub validate_cash_routing-Fits :
    (input : PlanInput) → Ensures (λ _. All Fits input.cash.lumps) (validate_cash_routing input)
unfolding validate_cash_routing
validate_cash_routing-Fits input =
    let cur = input.cash.monthly.cur in
    if-Ensures (not (any_routing input.cash.lumps))
      (λ e. ensures_ok tt (unrouted-Fits input.cash.lumps (ground arith)))
      λ _. >>=-any (validate_ids [] input.loans) λ _.
        >>=-known (check_events-Fits input [] (zero_amount cur) input.cash.lumps) λ opening fits.
          >>=-any (cmp opening (or_zero cur input.cash.opening_cash)) λ order.
            if-Ensures (ltb_ℤ (pos 0) order) (λ _. ensures_err unsupported)
              (λ _. ensures_ok tt fits)
