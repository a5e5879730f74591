-- ===== src/Ledger/Replay/Explained.antt =====
-- The explanation of a replay: one entry for every event of the ledger.
use mathlib.Core.List.{Perm, perm_middle, append_assoc, append-nil}
use mathlib.Core.List.Perm
use marumbot.Prelude.{
  ◌≡◌, refl, sym, ap, ◌∙◌, subst, List, [], ◌∷◌, ◌++◌, Ensures, ensures_ok, >>=-Ensures,
  Ensures-value, Ensures-map,
}
use marumbot.Model.Event.{Event, sort_for_replay}
use marumbot.Model.Event.Sorted.{sort_for_replay-sorts}
use marumbot.Model.State.{Reason}
use marumbot.Ledger.Accrual.{contract_for, accrue_across, add_interest}
use marumbot.Ledger.Partition.{Input, applied, AppliedEvent}
use marumbot.Ledger.Partition.Complete.{Sorts, none_left, takes_part, stays_out, too_early}
use marumbot.Ledger.Replay.{Cursor, apply_event, replay_event, replay_all}

abbrev pub events_of : List AppliedEvent → List Event
events_of [] = []
events_of (a ∷ as') = a.event ∷ events_of as'

events_of-append : (xs ys : List AppliedEvent) → events_of (xs ++ ys) ≡ events_of xs ++ events_of ys
events_of-append [] ys = refl
events_of-append (a ∷ as') ys = ap (λ es. a.event ∷ es) (events_of-append as' ys)

replay_event-events :
    (input : Input) (s : Cursor) (e : Event)
    → Ensures (λ t. events_of t.done ≡ events_of s.done ++ (e ∷ [])) (replay_event input s e)
unfolding replay_event
replay_event-events input s e =
    >>=-Ensures (contract_for input.contracts e.value_date) _ λ contract _.
      >>=-Ensures (accrue_across s.position input.contracts s.at e.value_date) _ λ interest _.
        >>=-Ensures (add_interest s.position interest) _ λ accrued _.
          >>=-Ensures (apply_event accrued e (input.policies contract.allocation_policy)) _ λ r _.
            ensures_ok _ (
              events_of-append s.done (
                record { event = e; split = r.split; interest = interest; skipped = applied } ∷ []))

pub replay_all-events :
    (input : Input) (es : List Event) (s : Cursor)
    → Ensures (λ t. events_of t.done ≡ events_of s.done ++ es) (replay_all input es s)
unfolding replay_all
replay_all-events input [] s = ensures_ok s (sym (append-nil (events_of s.done)))
replay_all-events input (e ∷ es) s = >>=-Ensures (replay_event input s e) _ λ mid step.
    let one = Ensures-value _ mid (replay_event-events input s e) step in
    Ensures-map _
      (λ t h. h ∙ ap (λ front. front ++ es) one ∙ append_assoc (events_of s.done) (e ∷ []) es)
      (replay_all-events input es mid)

Sorts-perm :
    (input : Input) (es kept : List Event) (ls : List AppliedEvent) (rs : List Reason)
    → Sorts input es kept ls rs
    → Perm (events_of ls ++ kept) es
Sorts-perm input _ _ _ _ none_left = Perm.refl []
Sorts-perm input _ _ _ _ (takes_part {e = e} {es = es} {kept = kept} {ls = ls} {rs = rs} t h) =
    Perm.trans (perm_middle (events_of ls) kept) (Perm.cons e (Sorts-perm input es kept ls rs h))
Sorts-perm input _ _ _ _ (stays_out {e = e} {es = es} {kept = kept} {ls = ls} {rs = rs} x n m h) =
    Perm.cons e (Sorts-perm input es kept ls rs h)
Sorts-perm input _ _ _ _ (too_early {e = e} {es = es} {kept = kept} {ls = ls} {rs = rs} x h) =
    Perm.cons e (Sorts-perm input es kept ls rs h)

-- The entries of the events left out, and behind them those of the others in the order of replay.
pub explained :
    (input : Input) (es kept : List Event) (ls done : List AppliedEvent) (rs : List Reason)
    → Sorts input es kept ls rs
    → events_of done ≡ events_of ls ++ sort_for_replay kept
    → Perm (events_of done) es
explained input es kept ls done rs h e =
    subst (λ xs. Perm xs es) (sym e)
      (Perm.trans (Perm.append_left (events_of ls) (sort_for_replay-sorts kept).0)
        (Sorts-perm input es kept ls rs h))
