-- ===== src/Tests/Loans.antt =====
-- Positions, allocation and the replay of a ledger on a concrete loan.
use mathlib.Core.List.{Perm}
use marumbot.Prelude.{
  ◌≡◌, ◌↔◌, refl, true, false, not, arith, List, [], ◌∷◌, Text, codes, ok, inl, HasFuel, Result,
  err, panic,
}
use marumbot.Prelude.Int.{ℤ, pos, ◌-ℤ◌}
use marumbot.Money.Amount.{Amount, amount, zero_amount, min_amount}
use marumbot.Money.Rounding.{half_up}
use marumbot.Money.Accrual.{actual_365}
use marumbot.Date.Calendar.{date, no_date}
use marumbot.Model.Buckets.{
  Bucket, penalties, overdue_fees, current_fees, unpaid_interest, accrued_interest,
  overdue_principal, principal, advance_credit, Buckets, new_buckets, get, total_owed, validate,
  bucket_name, parse_bucket,
}
use marumbot.Model.Buckets.Owed.{
  IsPosition, IsClean, value, seven_debts, total_owed_exact, validate-IsClean,
}
use marumbot.Model.Loan.{Contract, annuity, borrower_chooses, Snapshot, bank_confirmed}
use marumbot.Model.Event.{Event, payment_reported, entry_voided, EventKind, sort_for_replay}
use marumbot.Model.Event.Sorted.{IsSorted, sort_for_replay-sorts}
use marumbot.Model.State.{confirmed}
use marumbot.Allocation.{
  AllocationPolicy, reduce_principal, standard_order, Interpreted, is_known, apply,
}
use marumbot.Allocation.Conserved.{Accounted, apply-Accounted}
use marumbot.Ledger.Accrual.{contract_for, accrue_across}
use marumbot.Ledger.Accrual.Version.{Answers, contract_for-Answers}
use marumbot.Ledger.Accrual.Fuel.{accrue_across-HasFuel}
use marumbot.Ledger.Partition.{Input, partition}
use marumbot.Ledger.Partition.Complete.{Partitioned, partition-Partitioned}
use marumbot.Ledger.Replay.{grade, Replayed}
use marumbot.Ledger.Replay.Grade.{CanConfirm, grade-CanConfirm}
use marumbot.Tests.Money.{amd}
use marumbot.Tests.Date.{leap_day, january_31, leap_day-IsDate, january_31-IsDate}
use marumbot.Model.Names.{parse_bucket-name_iff}

-- 1,000 drams of principal and 20 drams of interest.
abbrev position : Buckets
position = record (new_buckets amd) {
  principal_due = amount (pos 100000) amd;
  accrued = amount (pos 2000) amd;
}

position-IsPosition : IsPosition amd.code position
position-IsPosition penalties = record { low = omega arith; high = omega arith; in_code = refl }
position-IsPosition overdue_fees = record { low = omega arith; high = omega arith; in_code = refl }
position-IsPosition current_fees = record { low = omega arith; high = omega arith; in_code = refl }
position-IsPosition unpaid_interest = record {
  low = omega arith;
  high = omega arith;
  in_code = refl;
}
position-IsPosition accrued_interest = record {
  low = omega arith;
  high = omega arith;
  in_code = refl;
}
position-IsPosition overdue_principal = record {
  low = omega arith;
  high = omega arith;
  in_code = refl;
}
position-IsPosition principal = record { low = omega arith; high = omega arith; in_code = refl }
position-IsPosition advance_credit = record {
  low = omega arith;
  high = omega arith;
  in_code = refl;
}

abbrev known_policy : AllocationPolicy
known_policy = record {
  ref = record { key = codes "standard"; version = pos 1 };
  sequence = standard_order;
  excess = reduce_principal;
  source = codes "contract";
}

abbrev payment : Amount
payment = amount (pos 5000) amd

apply-Accounted_example :
    (r : Interpreted) × (apply position payment known_policy ≡ ok r)
    × Accounted position 5000 r
    × (r.policy_unknown ≡ not (is_known known_policy))
apply-Accounted_example =
    apply-Accounted position payment known_policy position-IsPosition
      (record { low = omega arith; high = omega arith; in_code = refl }) (omega arith) (omega arith)

total_owed_exact_example :
    total_owed position
    ≡ ok (amount (pos (seven_debts position) -ℤ pos (value position.credit)) amd)
total_owed_exact_example = total_owed_exact position position-IsPosition (omega arith)

validate-IsClean_example :
    (validate position ≡ ok tt) ↔ ((k : Bucket) → IsClean amd.code (get position k))
validate-IsClean_example = validate-IsClean position

-- A version in force from the start of 2024, at 14 % a year.
abbrev pub contract : Contract
contract = record {
  loan_id = codes "loan";
  version = pos 1;
  currency = amd;
  effective_from = date (pos 2024) (pos 1) (pos 1);
  effective_thru = no_date;
  nominal_rate = pos 140000000;
  day_count = actual_365;
  type_of = annuity;
  start_date = date (pos 2024) (pos 1) (pos 1);
  maturity_date = date (pos 2026) (pos 1) (pos 1);
  payment_day = pos 5;
  not_before_due = no_date;
  scheduled_payment = payment;
  has_scheduled = true;
  rounding = record { mode = half_up; unit = pos 10 };
  prepayment = record {
    effect = borrower_chooses;
    fee_bp = pos 0;
    charges = [];
    min_amount = zero_amount amd;
  };
  allocation_policy = record { key = codes "standard"; version = pos 1 };
}

contract_for-Answers_example :
    Answers leap_day (contract ∷ []) (contract_for (contract ∷ []) leap_day)
contract_for-Answers_example = contract_for-Answers (contract ∷ []) leap_day

accrue_across-HasFuel_example : HasFuel (accrue_across position (contract ∷ []) january_31 leap_day)
accrue_across-HasFuel_example =
    accrue_across-HasFuel position (contract ∷ []) january_31 leap_day (inl refl, tt)
      january_31-IsDate leap_day-IsDate

abbrev event : Text → ℤ → EventKind → Text → Event
event name seq kind voids = record {
  id = name;
  loan_id = codes "loan";
  contract_ver = pos 1;
  recorded_seq = seq;
  kind = kind;
  value_date = date (pos 2024) (pos 2) (pos 5);
  amount = payment;
  bank_order = pos 0;
  has_bank_order = false;
  voids_event = voids;
  intended_prepayment = false;
}

abbrev events : List Event
events =
    event (codes "c") (pos 3) payment_reported []
    ∷ event (codes "a") (pos 1) payment_reported []
    ∷ event (codes "v") (pos 2) entry_voided (codes "c")
    ∷ []

sort_for_replay-sorts_example :
    Perm (sort_for_replay events) events × IsSorted (sort_for_replay events)
sort_for_replay-sorts_example = sort_for_replay-sorts events

abbrev anchor : Snapshot
anchor = record {
  id = codes "anchor";
  loan_id = codes "loan";
  contract_id = pos 1;
  as_of = january_31;
  trust = bank_confirmed;
  position = position;
  next_instalment = payment;
  next_due_date = date (pos 2024) (pos 2) (pos 5);
  remaining_instalments = pos 20;
}

abbrev input : Input
input = record {
  contracts = contract ∷ [];
  anchor = anchor;
  events = events;
  covered = λ e. false;
  policies = λ p. known_policy;
  as_of = leap_day;
  freshness_days = pos 0;
  engine_version = codes "1";
}

partition-Partitioned_example : Partitioned input events (pos 0) (partition input)
partition-Partitioned_example = partition-Partitioned input

grade-CanConfirm_example :
    ((grade input position [] false).0 ≡ confirmed) ↔ CanConfirm input position [] false
grade-CanConfirm_example = grade-CanConfirm input position [] false

abbrev answer_of : Result Replayed → Replayed
answer_of (ok r) = r
answer_of (err e) = record {
  state = record {
    loan_id = [];
    position = position;
    anchor_snapshot = [];
    balance_as_of = no_date;
    last_recorded_seq = pos 0;
    reliability = confirmed;
    reasons = [];
    engine_version = [];
  };
  splits = [];
}
answer_of panic = record {
  state = record {
    loan_id = [];
    position = position;
    anchor_snapshot = [];
    balance_as_of = no_date;
    last_recorded_seq = pos 0;
    reliability = confirmed;
    reasons = [];
    engine_version = [];
  };
  splits = [];
}

parse_bucket-name_iff_example :
    (parse_bucket (codes "current_fees") ≡ ok current_fees)
    ↔ (bucket_name current_fees ≡ codes "current_fees")
parse_bucket-name_iff_example = parse_bucket-name_iff (codes "current_fees") current_fees
