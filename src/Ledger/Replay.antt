-- ===== src/Ledger/Replay.antt =====
-- pkg/core/ledger/replay.go and the rest of helpers.go: the application of events, the grade, and
-- `Replay` itself.
pub mod Grade
pub mod Explained
pub mod Known
pub mod Sound
use marumbot.Prelude.{
  ◌≡◌, Bool, true, false, not, ◌&&◌, ◌||◌, List, [], ◌∷◌, ◌++◌, if◌then◌else◌, Text, text_eq,
  Result, ok, err, panic, ◌>>=◌, Option, none, some, no_contract, no_as_of, as_of_precedes_anchor,
  cannot_apply,
}
use marumbot.Prelude.Int.{ℤ, pos, ltb_ℤ, leb_ℤ}
use marumbot.Money.Amount.{Amount, no_amount, zero_amount, add}
use marumbot.Date.Calendar.{Date, before, is_zero, days_between}
use marumbot.Model.Buckets.{Buckets, new_buckets, currency_of, has_arrears, current_fees}
use marumbot.Model.Buckets
use marumbot.Model.Loan.{
  Ident, Contract, Snapshot, PolicyRef, Trust, user_entered, bank_confirmed, imported_verified,
  validate_snapshot,
}
use marumbot.Model.Event.{
  Event, EventKind, payment_reported, prepayment_reported, bank_fee_reported, entry_voided,
  loan_closed_reported, other_kind, sort_for_replay,
}
use marumbot.Model.State.{
  Reason, ambiguous_pre_anchor_event, arrears_present, anchor_not_confirmed, anchor_stale,
  allocation_policy_unknown, Reliability, confirmed, estimated, stale, needs_reconciliation,
  unsupported, LoanState,
}
use marumbot.Allocation.{AllocationPolicy, Split, none_taken, Interpreted, record_taken, apply}
use marumbot.Ledger.Accrual.{contract_for, accrue_across, add_interest}
use marumbot.Ledger.Partition.{Input, Skipped, applied, AppliedEvent, Parts, partition}

-- A `Split` literal that names only `Applied` and `Confident`.
abbrev bare_split : (taken : Bool) → Amount → Split
bare_split taken a = record {
  applied = if taken then record_taken none_taken current_fees a else none_taken;
  extra_to_advance = no_amount;
  pending = no_amount;
  unapplied = no_amount;
  confident = true;
}

-- `applyEvent`, by the kind.
unfoldable pub apply_kind : EventKind → Buckets → Amount → AllocationPolicy → Result Interpreted
apply_kind payment_reported b a p = apply b a p
apply_kind prepayment_reported b a p = apply b a p
apply_kind bank_fee_reported b a p = add b.fees a >>= λ fees. ok (record {
  position = record b { fees = fees };
  split = bare_split true a;
  policy_unknown = false;
})
apply_kind loan_closed_reported b a p = ok (record {
  position = new_buckets (currency_of b);
  split = bare_split false a;
  policy_unknown = false;
})
apply_kind entry_voided b a p = err cannot_apply
apply_kind (other_kind n) b a p = err cannot_apply

unfoldable pub apply_event : Buckets → Event → AllocationPolicy → Result Interpreted
unfolding apply_kind
apply_event b e p = apply_kind e.kind b e.amount p

unfoldable pub is_ambiguous : Reason → Bool
is_ambiguous ambiguous_pre_anchor_event = true
is_ambiguous arrears_present = false
is_ambiguous anchor_not_confirmed = false
is_ambiguous anchor_stale = false
is_ambiguous allocation_policy_unknown = false

unfoldable pub any_ambiguous : List Reason → Bool
unfolding is_ambiguous
any_ambiguous [] = false
any_ambiguous (r ∷ rs) = is_ambiguous r || any_ambiguous rs

abbrev pub is_trusted : Trust → Bool
is_trusted bank_confirmed = true
is_trusted imported_verified = true
is_trusted user_entered = false

abbrev pub default_freshness_days : ℤ
default_freshness_days = pos 35

abbrev pub freshness_limit : Input → ℤ
freshness_limit input =
    if leb_ℤ input.freshness_days (pos 0) then default_freshness_days else input.freshness_days

unfoldable pub grade : Input → Buckets → List Reason → Bool → Reliability × List Reason
grade input b reasons policy_unknown =
    if has_arrears b || has_arrears input.anchor.position
    then (unsupported, reasons ++ (arrears_present ∷ []))
    else if any_ambiguous reasons
    then (needs_reconciliation, reasons)
    else if policy_unknown
    then (needs_reconciliation, reasons)
    else if not (is_trusted input.anchor.trust)
    then (estimated, reasons ++ (anchor_not_confirmed ∷ []))
    else if ltb_ℤ (freshness_limit input) (days_between input.anchor.as_of input.as_of)
    then (stale, reasons ++ (anchor_stale ∷ []))
    else (confirmed, reasons)

-- The variables of the loop of `Replay`.
pub record Cursor : Type 0 where
  pub position : Buckets
  pub at : Date
  pub policy_unknown : Bool
  pub done : List AppliedEvent

-- One round of the loop.
unfoldable pub replay_event : Input → Cursor → Event → Result Cursor
replay_event input s e = contract_for input.contracts e.value_date >>= λ contract.
    accrue_across s.position input.contracts s.at e.value_date >>= λ interest.
    add_interest s.position interest >>= λ accrued.
    apply_event accrued e (input.policies contract.allocation_policy) >>= λ r. ok (record {
      position = r.position;
      at = e.value_date;
      policy_unknown = s.policy_unknown || r.policy_unknown;
      done =
          s.done
          ++ (record { event = e; split = r.split; interest = interest; skipped = applied } ∷ []);
    })

pub replay_all : Input → List Event → Cursor → Result Cursor
replay_all input [] s = ok s
replay_all input (e ∷ es) s = replay_event input s e >>= replay_all input es

pub record Replayed : Type 0 where
  pub state : LoanState
  pub splits : List AppliedEvent

-- The end of `Replay`, from the position with the interest of the tail.
settled_state : Input → Parts → Cursor → Buckets → Replayed
settled_state input parts s position =
    let reasons =
      parts.reasons ++ (if s.policy_unknown then allocation_policy_unknown ∷ [] else []) in
    let (reliability, all_reasons) = grade input position reasons s.policy_unknown in
    record {
      state = record {
        loan_id = input.anchor.loan_id;
        position = position;
        anchor_snapshot = input.anchor.id;
        balance_as_of = input.as_of;
        last_recorded_seq = parts.watermark;
        reliability = reliability;
        reasons = all_reasons;
        engine_version = input.engine_version;
      };
      splits = s.done;
    }

-- `Replay` after its checks.
unfoldable pub replay_parts : Input → Parts → Result Replayed
unfolding replay_all settled_state
replay_parts input parts =
    replay_all input (sort_for_replay parts.active) (record {
      position = input.anchor.position;
      at = input.anchor.as_of;
      policy_unknown = false;
      done = parts.left;
    })
    >>= λ s. accrue_across s.position input.contracts s.at input.as_of >>= λ tail.
        add_interest s.position tail >>= λ position.
        Buckets.validate position >>= λ _. ok (settled_state input parts s position)

abbrev no_contracts : List Contract → Bool
no_contracts [] = true
no_contracts (c ∷ cs) = false

unfoldable pub replay : Input → Result Replayed
unfolding replay_parts
replay input = validate_snapshot input.anchor >>= λ _.
    if no_contracts input.contracts
    then err no_contract
    else if is_zero input.as_of
    then err no_as_of
    else if before input.as_of input.anchor.as_of
    then err as_of_precedes_anchor
    else replay_parts input (partition input)
