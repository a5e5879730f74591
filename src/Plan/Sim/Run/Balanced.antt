-- ===== src/Plan/Sim/Run/Balanced.antt =====
-- pkg/core/plan/sim.go: the identity that `conserve` checks at the end of a run.
use marumbot.Money.Amount.{zero_amount, Amount, add}
use marumbot.Prelude.{
  ℕ, ◌+◌, ◌%◌, ◌≡◌, refl, ◌∙◌, ap, sym, arith, List, [], ◌∷◌, Option, Result, ok, Ensures,
  ensures_ok, ensures_err, ensures_panic, Ensures-map, Ensures-value, >>=-known,
}
use marumbot.Prelude.Int.{ℤ}
use marumbot.Prelude.Int64.{InInt64}
use marumbot.Money.Amount.Residue.{
  residue, modulus, residue_lt, zero_residue, add-residue, add-InInt64, eq_of_residue,
}
use marumbot.Plan.Input.{PlanInput, PlanPolicy}
use marumbot.Plan.Outcome.{Action}
use marumbot.Plan.State.{Sim, CashBucket, or_zero, restricted_cash, sum_remaining}
use marumbot.Plan.Sim.Accepted.{validate_cash_routing}
use marumbot.Plan.Sim.Accepted.Fitting.{validate_cash_routing-Fits}
use marumbot.Plan.Sim.Start.{start}
use marumbot.Plan.Sim.Start.Opening.{Opens, start-Opens, opening_of}
use marumbot.Plan.Sim.Run.{Reaches, credits, debits}
use marumbot.Plan.Sim.Run.Conserved.{Follows, Reaches-Follows}
use marumbot.Plan.Sim.Worth.{total, sum_buckets}

sum_remaining-sum :
    (bs : List CashBucket) (a : Amount)
    → Ensures
        (λ r. residue r.minor % modulus ≡ (residue a.minor + sum_buckets bs) % modulus)
        (sum_remaining a bs)
unfolding sum_remaining
sum_remaining-sum [] a = ensures_ok a (omega arith)
sum_remaining-sum (b ∷ bs) a =
    >>=-known (add-residue a b.remaining)
      λ sum h. Ensures-map _ (λ r k. omega arith) (sum_remaining-sum bs sum)

-- An int64 with the value of some sum, modulo 2^64.
record IsSum (n : ℕ) (a : Amount) : Type 0 where
  value_is : residue a.minor ≡ n % modulus
  in_range : InInt64 a.minor

add-IsSum : (a b : Amount) → Ensures (IsSum (residue a.minor + residue b.minor)) (add a b)
add-IsSum a b = both (add-residue a b) (add-InInt64 a b)
  where
    both :
        {r : Result Amount}
        → Ensures (λ x. residue x.minor ≡ (residue a.minor + residue b.minor) % modulus) r
        → Ensures (λ x. InInt64 x.minor) r
        → Ensures (IsSum (residue a.minor + residue b.minor)) r
    both (ensures_ok x h) k =
        ensures_ok x (record { value_is = h; in_range = Ensures-value (ok x) x k refl })
    both (ensures_err e) k = ensures_err e
    both ensures_panic k = ensures_panic

credits-IsSum :
    (s : Sim)
    → Ensures
        (IsSum (residue (or_zero s.cur s.input.cash.opening_cash).minor + residue s.inflow.minor))
        (credits s)
unfolding credits
credits-IsSum s = add-IsSum (or_zero s.cur s.input.cash.opening_cash) s.inflow

abbrev spent : Sim → ℕ
spent s =
    residue s.cash.minor
    + residue s.res.total_paid.minor
    + residue s.res.household_cash.minor
    + sum_buckets s.cash_buckets

debits-IsSum : (s : Sim) → Ensures (IsSum (spent s)) (debits s)
unfolding debits restricted_cash
debits-IsSum s = >>=-known (sum_remaining-sum s.cash_buckets (zero_amount s.cur)) λ restricted hr.
    >>=-known (add-residue s.cash restricted) λ held hh.
      >>=-known (add-residue s.res.total_paid held) λ sum hs.
        let nothing = zero_residue in
        Ensures-map _
          (λ r h.
            let value = h.value_is in record { value_is = omega arith; in_range = h.in_range })
          (add-IsSum sum s.res.household_cash)

opening_same :
    (input : PlanInput) (t : Sim)
    → t.input ≡ input
    → t.cur ≡ input.cash.monthly.cur
    → residue (or_zero t.cur t.input.cash.opening_cash).minor ≡ residue (opening_of input).minor
opening_same input t p q =
    ap (λ x. residue (or_zero t.cur x.cash.opening_cash).minor) p
    ∙ ap (λ c. residue (or_zero c input.cash.opening_cash).minor) q

-- In every state that the loop of a run comes to, from an input whose routing of receipts was
-- accepted, the two amounts that `conserve` compares at the end are equal where both can be computed:
-- the opening cash and all that came in are what was paid, the cash that is left, free or restricted,
-- and what went to the household.
pub credits-debits :
    (input : PlanInput) (policy : PlanPolicy) (sink : Option (List Action)) (delay : ℤ) (s t : Sim)
    → validate_cash_routing input ≡ ok tt
    → start input policy sink delay ≡ ok s
    → Reaches s t
    → (came went : Amount) → credits t ≡ ok came
    → debits t ≡ ok went
    → came.minor ≡ went.minor
credits-debits input policy sink delay s t accepted started reached came went hc hd =
    let fits = Ensures-value _ tt (validate_cash_routing-Fits input) accepted in
    let opens = Ensures-value _ s (start-Opens input policy sink delay fits) started in
    let follows = Reaches-Follows s t opens.lumps_fit reached in
    let came_in = Ensures-value _ came (credits-IsSum t) hc in
    let went_out = Ensures-value _ went (debits-IsSum t) hd in
    let same = opening-total input s t opens follows in
    let bound = residue_lt t.inflow.minor in
    let left = came_in.value_is in
    let right = went_out.value_is in
    eq_of_residue came.minor went.minor came_in.in_range went_out.in_range (omega arith)
  where
    opening-total :
        (input' : PlanInput) (s' t' : Sim)
        → Opens input' s'
        → Follows s' t'
        → total t' ≡ residue (or_zero t'.cur t'.input.cash.opening_cash).minor
    opening-total input' s' t' opens follows =
        follows.same_total
        ∙ opens.has_opening
        ∙ sym (
            opening_same input' t' (follows.same_input ∙ opens.same_input)
              (follows.same_currency ∙ opens.same_currency))
