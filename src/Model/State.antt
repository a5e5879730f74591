-- ===== src/Model/State.antt =====
-- pkg/core/model/state.go: how far a derived position may be trusted, and the position itself.
-- The fingerprint of the events, `EventSetHash`, is left out.
use marumbot.Prelude.{List, Text}
use marumbot.Prelude.Int.{ℤ}
use marumbot.Date.Calendar.{Date}
use marumbot.Model.Buckets.{Buckets}
use marumbot.Model.Loan.{Ident}

pub data Reliability : Type 0 where
  confirmed estimated stale needs_reconciliation unsupported : Reliability

pub data PlanTier : Type 0 where
  tier_confident tier_indicative tier_blocked : PlanTier

-- `Reliability.Tier`
unfoldable tier : Reliability → PlanTier
tier confirmed = tier_confident
tier estimated = tier_indicative
tier stale = tier_indicative
tier needs_reconciliation = tier_blocked
tier unsupported = tier_blocked

-- The codes of the reasons that replay gives. Their details are prose, and are left out.
pub data Reason : Type 0 where
  arrears_present ambiguous_pre_anchor_event anchor_not_confirmed anchor_stale : Reason
  allocation_policy_unknown : Reason

pub record LoanState : Type 0 where
  pub loan_id : Ident
  pub position : Buckets
  pub anchor_snapshot : Ident
  pub balance_as_of : Date
  pub last_recorded_seq : ℤ
  pub reliability : Reliability
  pub reasons : List Reason
  pub engine_version : Text
