-- ===== src/Ledger/Replay/Sound.antt =====
-- What holds of a result of `Replay`.
use mathlib.Core.List.{Perm}
use marumbot.Prelude.{◌≡◌, false, List, All}
use marumbot.Prelude.Int.{◌≤ℤ◌}
use marumbot.Date.Calendar.{before, days_between}
use marumbot.Model.Buckets.{Bucket, get, Buckets, currency_of}
use marumbot.Model.Buckets.Owed.{IsClean}
use marumbot.Model.State.{confirmed}
use marumbot.Ledger.Partition.{Input, predates_anchor}
use marumbot.Ledger.Partition.Complete.{TakesPart, Explains}
use marumbot.Ledger.Replay.{Replayed}
use marumbot.Ledger.Replay.Grade.{NoArrears, Trusted, IsFresh}
use marumbot.Ledger.Replay.Explained.{events_of}
use marumbot.Ledger.Replay.Known.{HasPolicy, none_early}

-- What a balance graded Confirmed rests on: nothing overdue now or at the anchor, a trusted anchor
-- that is not too old, no event that is ambiguous, and a known allocation policy for every payment
-- that takes part.
pub record IsEarned (input : Input) (b : Buckets) : Type 0 where
  pub no_arrears : NoArrears b
  pub none_at_anchor : NoArrears input.anchor.position
  pub trusted : Trusted input.anchor.trust
  pub fresh : IsFresh input.freshness_days (days_between input.anchor.as_of input.as_of)
  pub none_early : All (λ e. ¬ (Explains input e predates_anchor)) input.events
  pub policies : All (λ e. TakesPart input e → HasPolicy input e) input.events

-- What a result of `Replay` promises.
pub record IsAnswer (input : Input) (r : Replayed) : Type 0 where
  pub sound_position :
      (k : Bucket) → IsClean (currency_of r.state.position).code (get r.state.position k)
  pub in_time : before input.as_of input.anchor.as_of ≡ false
  pub every_event : Perm (events_of r.splits) input.events
  pub up_to_date : All (λ e. e.recorded_seq ≤ℤ r.state.last_recorded_seq) input.events
  pub earned : r.state.reliability ≡ confirmed → IsEarned input r.state.position
