-- ===== src/Model/Buckets.antt =====
-- pkg/core/model/buckets.go: the eight amounts that make up what a borrower owes.
-- A message names the first bad bucket that a map's iteration meets; messages are not modelled.
pub mod Owed
use marumbot.Prelude.{
  ℕ, ◌≡◌, Bool, true, false, not, ◌&&◌, ◌||◌, List, [], ◌∷◌, if◌then◌else◌, Text, codes, text_eq,
  Result, ok, err, panic, invalid_position, invalid_model, ◌>>=◌,
}
use marumbot.Prelude.Int.{ℤ, pos, ltb_ℤ, leb_ℤ}
use marumbot.Money.Currency.{Currency}
use marumbot.Money.Amount.{Amount, zero_amount, add, sub}

pub data Bucket : Type 0 where
  penalties overdue_fees current_fees unpaid_interest : Bucket
  accrued_interest overdue_principal principal advance_credit : Bucket

-- The entries of `bucketNames`, which are what `String` prints.
unfoldable pub bucket_name : Bucket → Text
bucket_name penalties = codes "penalties"
bucket_name overdue_fees = codes "overdue_fees"
bucket_name current_fees = codes "current_fees"
bucket_name unpaid_interest = codes "unpaid_interest"
bucket_name accrued_interest = codes "accrued_interest"
bucket_name overdue_principal = codes "overdue_principal"
bucket_name principal = codes "principal"
bucket_name advance_credit = codes "advance_credit"

abbrev pub all_buckets : List Bucket
all_buckets =
    penalties ∷ overdue_fees ∷ current_fees ∷ unpaid_interest ∷ accrued_interest ∷ overdue_principal
    ∷ principal ∷ advance_credit ∷ []

find_bucket : Text → List Bucket → Result Bucket
find_bucket s [] = err invalid_model
find_bucket s (b ∷ bs) = if text_eq (bucket_name b) s then ok b else find_bucket s bs

-- `ParseBucket`. No two names are equal, so the order of the map's iteration is of no account.
unfoldable pub parse_bucket : Text → Result Bucket
unfolding find_bucket bucket_name
parse_bucket s = find_bucket s all_buckets

pub record Buckets : Type 0 where
  pub principal_due : Amount
  pub accrued : Amount
  pub unpaid : Amount
  pub fees : Amount
  pub late_fees : Amount
  pub penalty : Amount
  pub late_principal : Amount
  pub credit : Amount

-- `NewBuckets`
abbrev pub new_buckets : Currency → Buckets
new_buckets c =
    let z = zero_amount c in
    record {
      principal_due = z;
      accrued = z;
      unpaid = z;
      fees = z;
      late_fees = z;
      penalty = z;
      late_principal = z;
      credit = z;
    }

-- `Buckets.Currency`
abbrev pub currency_of : Buckets → Currency
currency_of b = b.principal_due.cur

abbrev pub get : Buckets → Bucket → Amount
get b penalties = b.penalty
get b overdue_fees = b.late_fees
get b current_fees = b.fees
get b unpaid_interest = b.unpaid
get b accrued_interest = b.accrued
get b overdue_principal = b.late_principal
get b advance_credit = b.credit
get b principal = b.principal_due

-- `With`
abbrev pub put : Buckets → Bucket → Amount → Buckets
put b penalties v = record b { penalty = v }
put b overdue_fees v = record b { late_fees = v }
put b current_fees v = record b { fees = v }
put b unpaid_interest v = record b { unpaid = v }
put b accrued_interest v = record b { accrued = v }
put b overdue_principal v = record b { late_principal = v }
put b advance_credit v = record b { credit = v }
put b principal v = record b { principal_due = v }

pub add_all : Amount → List Amount → Result Amount
add_all sum [] = ok sum
add_all sum (a ∷ as') = add sum a >>= λ sum'. add_all sum' as'

-- The order in which `TotalOwed` adds up.
abbrev pub debts : Buckets → List Amount
debts b =
    b.principal_due ∷ b.late_principal ∷ b.accrued ∷ b.unpaid ∷ b.fees ∷ b.late_fees ∷ b.penalty
    ∷ []

pub total_owed : Buckets → Result Amount
unfolding add_all
total_owed b = add_all (zero_amount (currency_of b)) (debts b) >>= λ sum. sub sum b.credit

closed : Result Amount → Result Bool
closed (ok t) = ok (leb_ℤ t.minor (pos 0))
closed (err e) = ok false
closed panic = panic

unfoldable is_closed : Buckets → Result Bool
unfolding closed
is_closed b = closed (total_owed b)

abbrev positive : Amount → Bool
positive a = ltb_ℤ (pos 0) a.minor

unfoldable pub has_arrears : Buckets → Bool
has_arrears b =
    positive b.penalty || positive b.late_principal || positive b.late_fees || positive b.unpaid

-- A bucket as the loop of `Validate` wants it.
abbrev sound : Text → Amount → Bool
sound code a = not (ltb_ℤ a.minor (pos 0)) && text_eq a.cur.code code

pub all_sound : Text → List Bucket → Buckets → Bool
all_sound code [] b = true
all_sound code (k ∷ ks) b = sound code (get b k) && all_sound code ks b

-- `Validate`
unfoldable pub validate : Buckets → Result (Unit {0})
unfolding all_sound
validate b = if all_sound (currency_of b).code all_buckets b then ok tt else err invalid_position
