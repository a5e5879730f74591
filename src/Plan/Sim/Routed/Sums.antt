-- ===== src/Plan/Sim/Routed/Sums.antt =====
-- pkg/core/plan/cash_routing.go: a receipt that is routed adds its parts to the buckets.
use marumbot.Prelude.{
  ℕ, ◌+◌, ◌%◌, ◌≡◌, refl, arith, List, [], ◌∷◌, Option, none, some, Result, ok, Ensures, ensures_ok,
  ensures_panic, if-Ensures, Ensures-map, ◌>>=◌, >>=-known,
}
use marumbot.Date.Calendar.{Date}
use marumbot.Money.Amount.{add}
use marumbot.Money.Amount.Residue.{residue, modulus, residue_lt, add-residue}
use marumbot.Plan.Input.{CashEvent, CashRouting, CashSplit}
use marumbot.Plan.State.{Sim, CashBucket}
use marumbot.Plan.Sim.Routed.{
  insert_bucket, sort_buckets, add_part, add_parts, parts_of, add_routing, add_routed,
}
use marumbot.Plan.Sim.Worth.{sum_buckets, total, terms}

insert_bucket-sum :
    (b : CashBucket) (bs : List CashBucket)
    → sum_buckets (insert_bucket b bs) ≡ residue b.remaining.minor + sum_buckets bs
unfolding insert_bucket
insert_bucket-sum b [] = refl
insert_bucket-sum b (c ∷ cs) = ground (arith, insert_bucket-sum b cs)

-- Sorting the buckets leaves their sum.
sort_buckets-sum : (bs : List CashBucket) → sum_buckets (sort_buckets bs) ≡ sum_buckets bs
unfolding sort_buckets
sort_buckets-sum [] = refl
sort_buckets-sum (b ∷ bs) =
    omega (arith, insert_bucket-sum b (sort_buckets bs), sort_buckets-sum bs)

unfoldable pub sum_parts : List CashSplit → ℕ
sum_parts [] = 0
sum_parts (part ∷ parts) = residue part.amount.minor + sum_parts parts

add_part-sum :
    (on : Date) (r : CashRouting) (part : CashSplit) (bs : List CashBucket)
    → Ensures
        (λ cs. sum_buckets cs % modulus ≡ (sum_buckets bs + residue part.amount.minor) % modulus)
        (add_part on r part bs)
unfolding add_part
add_part-sum on r part [] = ensures_ok _ (omega arith)
add_part-sum on r part (b ∷ bs) =
    let deeper = passed (add_part-sum on r part bs) in search (if-Ensures, joined, deeper)
  where
    joined :
        Ensures
          (λ cs.
            sum_buckets cs % modulus ≡ (sum_buckets (b ∷ bs) + residue part.amount.minor) % modulus)
          (add b.remaining part.amount >>= λ sum. ok (record b { remaining = sum } ∷ bs))
    joined = >>=-known (add-residue b.remaining part.amount) λ sum h. ensures_ok _ (omega arith)

    passed :
        {m : Result (List CashBucket)}
        → Ensures
            (λ cs.
              sum_buckets cs % modulus ≡ (sum_buckets bs + residue part.amount.minor) % modulus)
            m
        → Ensures
            (λ cs.
              sum_buckets cs % modulus
              ≡ (sum_buckets (b ∷ bs) + residue part.amount.minor) % modulus)
            (m >>= λ others. ok (b ∷ others))
    passed h = >>=-known h λ others k. ensures_ok _ (omega arith)

add_parts-sum :
    (on : Date) (r : CashRouting) (parts : List CashSplit) (bs : List CashBucket)
    → Ensures
        (λ cs. sum_buckets cs % modulus ≡ (sum_buckets bs + sum_parts parts) % modulus)
        (add_parts on r parts bs)
unfolding add_parts sum_parts
add_parts-sum on r [] bs = ensures_ok _ (omega arith)
add_parts-sum on r (part ∷ parts) bs =
    >>=-known (add_part-sum on r part bs)
      λ cs h. Ensures-map _ (λ ds k. omega arith) (add_parts-sum on r parts cs)

unfoldable pub SplitsFit : CashEvent → List CashSplit → Type 0
SplitsFit e [] = Unit
SplitsFit e (part ∷ parts) = sum_parts (part ∷ parts) % modulus ≡ residue e.amount.minor

unfoldable pub RoutingFits : CashEvent → Option CashRouting → Type 0
RoutingFits e none = Unit
RoutingFits e (some r) = SplitsFit e r.splits

-- What `validateCashRouting` has checked of an event: a split adds up to its amount, modulo 2^64.
abbrev pub Fits : CashEvent → Type 0
Fits e = RoutingFits e e.routing

parts_of-sum :
    (e : CashEvent) (r : CashRouting) (splits : List CashSplit)
    → SplitsFit e splits
    → sum_parts (parts_of e r splits) % modulus ≡ residue e.amount.minor
unfolding parts_of sum_parts SplitsFit
parts_of-sum e r [] h = omega (arith, residue_lt e.amount.minor)
parts_of-sum e r (part ∷ parts) h = h

-- The state after a receipt into the buckets.
pub record Gains (s : Sim) (n : ℕ) (t : Sim) : Type 0 where
  pub gained : total t ≡ (total s + n) % modulus
  pub same_terms : terms t ≡ terms s

-- A receipt that is routed raises the buckets by its amount.
pub add_routed-Gains :
    (s : Sim) (e : CashEvent) → Fits e → Ensures (Gains s (residue e.amount.minor)) (add_routed s e)
unfolding add_routed RoutingFits
add_routed-Gains s e h = by_routing e.routing h
  where
    by_routing :
        (routing : Option CashRouting)
        → RoutingFits e routing
        → Ensures (Gains s (residue e.amount.minor)) (add_routing s e routing)
    by_routing none fits = ensures_panic
    by_routing (some r) fits =
        >>=-known (add_parts-sum e.on r (parts_of e r r.splits) s.cash_buckets) λ bs k.
          let sorted = sort_buckets-sum bs in
          let parts = parts_of-sum e r r.splits fits in
          ensures_ok _ (record { gained = omega arith; same_terms = refl })
