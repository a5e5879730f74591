-- ===== src/Ledger/Partition.antt =====
-- pkg/core/ledger/replay.go: the input of a replay, and which events take part in the arithmetic.
-- A Go map with a zero value for missing keys is a function.
pub mod Complete
use marumbot.Prelude.{
  ◌≡◌, Bool, true, false, not, ◌&&◌, ◌||◌, List, [], ◌∷◌, ◌++◌, if◌then◌else◌, Text, text_eq,
}
use marumbot.Prelude.Int.{ℤ, pos, ltb_ℤ}
use marumbot.Money.Amount.{Amount, no_amount}
use marumbot.Date.Calendar.{Date, before}
use marumbot.Model.Loan.{Ident, Contract, Snapshot, PolicyRef}
use marumbot.Model.Event.{Event, is_void}
use marumbot.Model.State.{Reason, ambiguous_pre_anchor_event}
use marumbot.Allocation.{AllocationPolicy, Split, none_taken}

pub record Input : Type 0 where
  pub contracts : List Contract
  pub anchor : Snapshot
  pub events : List Event
  pub covered : Ident → Bool
  pub policies : PolicyRef → AllocationPolicy
  pub as_of : Date
  pub freshness_days : ℤ
  pub engine_version : Text

-- Why an event was left out; `applied` for one that was not.
pub data Skipped : Type 0 where
  applied void_marker voided already_included predates_anchor : Skipped

pub record AppliedEvent : Type 0 where
  pub event : Event
  pub split : Split
  pub interest : Amount
  pub skipped : Skipped

-- `Split{}`
abbrev no_split : Split
no_split = record {
  applied = none_taken;
  extra_to_advance = no_amount;
  pending = no_amount;
  unapplied = no_amount;
  confident = false;
}

abbrev pub left_out : Event → Skipped → AppliedEvent
left_out e why = record { event = e; split = no_split; interest = no_amount; skipped = why }

-- `voided[id]` after the first loop of `partition`.
unfoldable pub is_voided : List Event → Text → Bool
is_voided [] id = false
is_voided (e ∷ es) id =
    (is_void e.kind && not (text_eq e.voids_event []) && text_eq e.voids_event id)
    || is_voided es id

-- The switch of `partition`, given the whole list of events.
unfoldable pub reason_to_skip : Input → Event → Skipped
reason_to_skip input e =
    if is_void e.kind
    then void_marker
    else if is_voided input.events e.id
    then voided
    else if input.covered e.id
    then already_included
    else if before e.value_date input.anchor.as_of
    then predates_anchor
    else applied

-- The four results of `partition`.
pub record Parts : Type 0 where
  pub active : List Event
  pub left : List AppliedEvent
  pub reasons : List Reason
  pub watermark : ℤ

-- One round of the second loop, in front of what the rounds behind it append.
sort_out : Event → Skipped → Parts → Parts
sort_out e applied r = record r { active = e ∷ r.active }
sort_out e void_marker r = record r { left = left_out e void_marker ∷ r.left }
sort_out e voided r = record r { left = left_out e voided ∷ r.left }
sort_out e already_included r = record r { left = left_out e already_included ∷ r.left }
sort_out e predates_anchor r = record r {
  left = left_out e predates_anchor ∷ r.left;
  reasons = ambiguous_pre_anchor_event ∷ r.reasons;
}

-- The rounds, with the highest sequence number so far.
pub parts_of : Input → List Event → ℤ → Parts
parts_of input [] watermark = record { active = []; left = []; reasons = []; watermark = watermark }
parts_of input (e ∷ es) watermark =
    sort_out e (reason_to_skip input e)
      (parts_of input es (if ltb_ℤ watermark e.recorded_seq then e.recorded_seq else watermark))

unfoldable pub partition : Input → Parts
unfolding parts_of sort_out
partition input = parts_of input input.events (pos 0)
