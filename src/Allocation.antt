-- ===== src/Allocation.antt =====
-- Package allocation (pkg/core/allocation/allocation.go): which buckets a payment settles.
-- `Split.Applied`, a map from buckets to amounts, is a function that gives `none` for a missing key.
pub mod Round
pub mod Conserved
use marumbot.Prelude.{
  ℕ, ◌≡◌, Bool, true, false, not, ◌&&◌, ◌||◌, List, [], ◌∷◌, if◌then◌else◌, Text, codes, text_eq,
  Result, ok, err, panic, invalid_model, ◌>>=◌, Option, none, some, currency_mismatch,
  nonpositive_payment, ◌==◌,
}
use marumbot.Prelude.Int.{ℤ, pos, ltb_ℤ, leb_ℤ, eq_ℤ}
use marumbot.Money.Currency.{Currency}
use marumbot.Money.Amount.{Amount, zero_amount, add, sub, min_amount, is_zero}
use marumbot.Model.Buckets.{
  Bucket, penalties, overdue_fees, current_fees, unpaid_interest, accrued_interest,
  overdue_principal, principal, advance_credit, all_buckets, Buckets, currency_of, get, put,
  add_all,
}
use marumbot.Model.Loan.{PolicyRef, is_unset}

pub data ExcessRule : Type 0 where
  unknown_excess reduce_principal hold_as_advance requires_bank_request : ExcessRule

pub excess_name : ExcessRule → Text
excess_name unknown_excess = codes "unknown"
excess_name reduce_principal = codes "reduce_principal"
excess_name hold_as_advance = codes "hold_as_advance"
excess_name requires_bank_request = codes "requires_bank_request"

find_rule : Text → List ExcessRule → Result ExcessRule
find_rule s [] = err invalid_model
find_rule s (r ∷ rs) = if text_eq (excess_name r) s then ok r else find_rule s rs

-- `ParseExcessRule`
unfoldable parse_excess_rule : Text → Result ExcessRule
unfolding find_rule excess_name
parse_excess_rule s =
    find_rule s (unknown_excess ∷ reduce_principal ∷ hold_as_advance ∷ requires_bank_request ∷ [])

pub record AllocationPolicy : Type 0 where
  pub ref : PolicyRef
  pub sequence : List Bucket
  pub excess : ExcessRule
  pub source : Text

-- `Policy{}`, which is also what a map gives for a missing key.
abbrev pub no_policy : AllocationPolicy
no_policy = record {
  ref = record { key = []; version = pos 0 };
  sequence = [];
  excess = unknown_excess;
  source = [];
}

abbrev pub has_order : List Bucket → Bool
has_order [] = false
has_order (k ∷ ks) = true

abbrev pub is_known : AllocationPolicy → Bool
is_known p = not (is_unset p.ref) && has_order p.sequence

abbrev pub standard_order : List Bucket
standard_order =
    penalties ∷ overdue_fees ∷ unpaid_interest ∷ current_fees ∷ accrued_interest ∷ overdue_principal
    ∷ principal ∷ []

abbrev pub Applied : Type 0
Applied = Bucket → Option Amount

pub record Split : Type 0 where
  pub applied : Applied
  pub extra_to_advance : Amount
  pub pending : Amount
  pub unapplied : Amount
  pub confident : Bool

abbrev number : Bucket → ℕ
number penalties = 0
number overdue_fees = 1
number current_fees = 2
number unpaid_interest = 3
number accrued_interest = 4
number overdue_principal = 5
number principal = 6
number advance_credit = 7

abbrev pub bucket_eq : Bucket → Bucket → Bool
bucket_eq j k = number j == number k

-- `split.Applied[k] = v`
abbrev pub record_taken : Applied → Bucket → Amount → Applied
record_taken m k v j = if bucket_eq k j then some v else m j

-- `order`, with the amounts that its caller looks up.
taken_of : Option Amount → List Amount → List Amount
taken_of none rest = rest
taken_of (some a) rest = a ∷ rest

amounts_of : Applied → List Bucket → List Amount
amounts_of m [] = []
amounts_of m (k ∷ ks) = taken_of (m k) (amounts_of m ks)

-- The second loop of `Total`, which skips a zero.
add_rest : Amount → List Amount → Result Amount
add_rest sum [] = ok sum
add_rest sum (a ∷ as') = (if is_zero a then ok sum else add sum a) >>= λ sum'. add_rest sum' as'

-- `Split.Total`
pub total : Split → Currency → Result Amount
unfolding taken_of amounts_of add_rest
total s cur = add_all (zero_amount cur) (amounts_of s.applied all_buckets) >>= λ sum.
    add_rest sum (s.extra_to_advance ∷ s.pending ∷ s.unapplied ∷ [])

-- The variables of the loop of `Apply`.
pub record Settling : Type 0 where
  pub position : Buckets
  pub remaining : Amount
  pub taken : Applied

-- One round of the loop. A `break` is a round, like all that follow, in which nothing is left.
unfoldable pub settle : Bucket → Settling → Result Settling
settle k s =
    let owed = get s.position k in
    if leb_ℤ s.remaining.minor (pos 0) || leb_ℤ owed.minor (pos 0)
    then ok s
    else (min_amount owed s.remaining >>= λ take. sub owed take >>= λ left.
        sub s.remaining take >>= λ rest. ok (record {
          position = put s.position k left;
          remaining = rest;
          taken = record_taken s.taken k take;
        }))

pub settle_all : List Bucket → Settling → Result Settling
settle_all [] s = ok s
settle_all (k ∷ ks) s = settle k s >>= settle_all ks

-- What `Apply` returns: the position, the split, and whether the error was ErrUnknownPolicy. With
-- any other error its caller drops the position and the split, and so does the model.
pub record Interpreted : Type 0 where
  pub position : Buckets
  pub split : Split
  pub policy_unknown : Bool

abbrev pub none_taken : Applied
none_taken k = none

abbrev split_of : Currency → Applied → Bool → Split
split_of c taken confident = record {
  applied = taken;
  extra_to_advance = zero_amount c;
  pending = zero_amount c;
  unapplied = zero_amount c;
  confident = confident;
}

-- The switch on what is left over.
place_excess : ExcessRule → Currency → Settling → Result Interpreted
place_excess reduce_principal c s = add s.position.credit s.remaining >>= λ credit. ok (record {
  position = put s.position advance_credit credit;
  split = record (split_of c s.taken true) { extra_to_advance = s.remaining };
  policy_unknown = false;
})
place_excess hold_as_advance c s = add s.position.credit s.remaining >>= λ credit. ok (record {
  position = put s.position advance_credit credit;
  split = record (split_of c s.taken true) { extra_to_advance = s.remaining };
  policy_unknown = false;
})
place_excess requires_bank_request c s = ok (record {
  position = s.position;
  split = record (split_of c s.taken false) { pending = s.remaining };
  policy_unknown = false;
})
place_excess unknown_excess c s = ok (record {
  position = s.position;
  split = record (split_of c s.taken false) { unapplied = s.remaining };
  policy_unknown = false;
})

-- `Apply` after its loop.
finish : AllocationPolicy → Currency → Settling → Result Interpreted
unfolding place_excess
finish p c s =
    if leb_ℤ s.remaining.minor (pos 0)
    then ok
        (record { position = s.position; split = split_of c s.taken true; policy_unknown = false })
    else place_excess p.excess c s

unfoldable pub apply : Buckets → Amount → AllocationPolicy → Result Interpreted
unfolding settle_all finish
apply position payment p =
    let c = currency_of position in
    if not (text_eq payment.cur.code c.code)
    then err currency_mismatch
    else if leb_ℤ payment.minor (pos 0)
    then err nonpositive_payment
    else if not (is_known p)
    then ok (record {
      position = position;
      split = record (split_of c none_taken false) { unapplied = payment };
      policy_unknown = true;
    })
    else (settle_all p.sequence
          (record { position = position; remaining = payment; taken = none_taken })
        >>= finish p c)
