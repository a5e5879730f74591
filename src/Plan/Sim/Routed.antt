-- ===== src/Plan/Sim/Routed.antt =====
-- pkg/core/plan/cash_routing.go: the buckets of cash that is meant for one loan.
pub mod Sums
use marumbot.Prelude.{
  Bool, true, false, not, ◌&&◌, ◌||◌, ◌==◌, List, [], ◌∷◌, Option, none, some, Result, ok, panic,
  ◌>>=◌, ltb, if◌then◌else◌, Text, text_eq,
}
use marumbot.Prelude.Int.{ltb_ℤ, eq_ℤ}
use marumbot.Date.Calendar.{Date, before, equal}
use marumbot.Money.Amount.{add}
use marumbot.Plan.Input.{CashEvent, CashRouting, CashSplit}
use marumbot.Plan.State.{Sim, CashBucket}

-- `<` on strings, which goes by bytes: in UTF-8 these order texts as their code points do.
pub text_lt : Text → Text → Bool
text_lt s [] = false
text_lt [] (b ∷ t) = true
text_lt (a ∷ s) (b ∷ t) = ltb a b || (a == b && text_lt s t)

-- The order of the buckets.
bucket_lt : CashBucket → CashBucket → Bool
unfolding text_lt
bucket_lt a b =
    if not (text_eq a.target b.target)
    then text_lt a.target b.target
    else if not (equal a.until b.until)
    then before a.until b.until
    else if not (eq_ℤ a.minimum.minor b.minimum.minor)
    then ltb_ℤ a.minimum.minor b.minimum.minor
    else not a.released && b.released

-- A bucket goes behind those that it is not smaller than, so that equal ones keep their order.
pub insert_bucket : CashBucket → List CashBucket → List CashBucket
unfolding bucket_lt
insert_bucket b [] = b ∷ []
insert_bucket b (c ∷ cs) = if bucket_lt c b then c ∷ insert_bucket b cs else b ∷ c ∷ cs

-- `sort.SliceStable`
pub sort_buckets : List CashBucket → List CashBucket
unfolding insert_bucket
sort_buckets [] = []
sort_buckets (b ∷ bs) = insert_bucket b (sort_buckets bs)

-- Whether a part joins a bucket.
joins : CashSplit → CashRouting → CashBucket → Bool
joins part r b =
    not b.released
    && text_eq b.target part.loan_id
    && equal b.until r.hold_until
    && eq_ℤ b.minimum.minor r.hold_minimum.minor

pub add_part : Date → CashRouting → CashSplit → List CashBucket → Result (List CashBucket)
unfolding joins
add_part on r part [] = ok (
    record {
      target = part.loan_id;
      remaining = part.amount;
      until = r.hold_until;
      minimum = r.hold_minimum;
      released = false;
      wake = on;
    }
    ∷ [])
add_part on r part (b ∷ bs) =
    if joins part r b
    then (add b.remaining part.amount >>= λ sum. ok (record b { remaining = sum } ∷ bs))
    else (add_part on r part bs >>= λ rest. ok (b ∷ rest))

pub add_parts : Date → CashRouting → List CashSplit → List CashBucket → Result (List CashBucket)
unfolding add_part
add_parts on r [] bs = ok bs
add_parts on r (part ∷ parts) bs = add_part on r part bs >>= λ more. add_parts on r parts more

-- The parts of a receipt: without a split, all of it.
pub parts_of : CashEvent → CashRouting → List CashSplit → List CashSplit
parts_of e r [] = record { loan_id = r.loan_id; amount = e.amount } ∷ []
parts_of e r (part ∷ parts) = part ∷ parts

pub add_routing : Sim → CashEvent → Option CashRouting → Result Sim
unfolding add_parts parts_of sort_buckets
add_routing s e none = panic
add_routing s e (some r) = add_parts e.on r (parts_of e r r.splits) s.cash_buckets >>= λ bs.
    ok (record s { cash_buckets = sort_buckets bs })

-- `addRouted`, which reads the routing through its pointer.
unfoldable pub add_routed : Sim → CashEvent → Result Sim
unfolding add_routing
add_routed s e = add_routing s e e.routing
