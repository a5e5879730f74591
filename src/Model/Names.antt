-- ===== src/Model/Names.antt =====
-- The names under which enumerations are stored, and their parsers.
use marumbot.Prelude.{
  subst, ◌↔◌, ◌≡◌, refl, Text, text_eq, eq_of_text_eq, All, ok, ensures_ok, ensures_err, Ensures,
  if-Ensures, Ensures-value,
}
use marumbot.Model.Buckets.{
  Bucket, penalties, overdue_fees, current_fees, unpaid_interest, accrued_interest,
  overdue_principal, principal, advance_credit, bucket_name, parse_bucket,
}
use marumbot.Model.Event.{EventKind, named_kinds, kind_name, parse_event_kind}

parse_bucket-name : (k : Bucket) → parse_bucket (bucket_name k) ≡ ok k
unfolding parse_bucket bucket_name text_eq
parse_bucket-name penalties = refl
parse_bucket-name overdue_fees = refl
parse_bucket-name current_fees = refl
parse_bucket-name unpaid_interest = refl
parse_bucket-name accrued_interest = refl
parse_bucket-name overdue_principal = refl
parse_bucket-name principal = refl
parse_bucket-name advance_credit = refl

parse_bucket-Ensures : (s : Text) → Ensures (λ k. bucket_name k ≡ s) (parse_bucket s)
unfolding parse_bucket
parse_bucket-Ensures s = search (if-Ensures, ensures_ok, ensures_err, eq_of_text_eq) depth 30

-- ParseBucket answers with a bucket exactly where the text is the name of that bucket.
pub parse_bucket-name_iff : (s : Text) (k : Bucket) → (parse_bucket s ≡ ok k) ↔ (bucket_name k ≡ s)
parse_bucket-name_iff s k = (
  (λ h. Ensures-value (parse_bucket s) k (parse_bucket-Ensures s) h),
  (λ e. subst (λ t. parse_bucket t ≡ ok k) e (parse_bucket-name k)),
)

parse_event_kind-names : All (λ k. parse_event_kind (kind_name k) ≡ ok k) named_kinds
unfolding parse_event_kind kind_name text_eq
parse_event_kind-names = (refl, (refl, (refl, (refl, (refl, tt)))))

parse_event_kind-Ensures : (s : Text) → Ensures (λ k. kind_name k ≡ s) (parse_event_kind s)
unfolding parse_event_kind
parse_event_kind-Ensures s = search (if-Ensures, ensures_ok, ensures_err, eq_of_text_eq) depth 30

-- ParseEventKind reads back the name of every kind that has one, and what it accepts is the name of
-- its answer.
pub parse_event_kind-round_trip :
    All (λ k. parse_event_kind (kind_name k) ≡ ok k) named_kinds
    × ((s : Text) (k : EventKind) → parse_event_kind s ≡ ok k → kind_name k ≡ s)
parse_event_kind-round_trip = (
  parse_event_kind-names,
  λ s k h. Ensures-value (parse_event_kind s) k (parse_event_kind-Ensures s) h,
)
