-- ===== src/Ledger/Replay/Known.antt =====
-- What a replay without an unknown allocation policy says of the events of the ledger.
use marumbot.Prelude.{
  and_parts, text_eq, ◌≡◌, refl, ◌⊎◌, inl, inr, ◌||◌, Bool, true, false, not, arith, List, [], ◌∷◌,
  All, Result, ok, err, panic, Ensures, ensures_ok, ensures_err, ensures_panic, >>=-Ensures,
  Ensures-value, Ensures-map, if-Ensures,
}
use marumbot.Prelude.Int.{pos, leb_ℤ}
use marumbot.Money.Amount.{Amount}
use marumbot.Model.Buckets.{Bucket, Buckets, currency_of}
use marumbot.Model.Loan.{Contract, is_unset}
use marumbot.Model.Event.{
  Event, EventKind, payment_reported, prepayment_reported, bank_fee_reported, entry_voided,
  loan_closed_reported, other_kind, sort_for_replay,
}
use marumbot.Model.Event.Sorted.{All-sort_for_replay}
use marumbot.Model.State.{Reason}
use marumbot.Allocation.{AllocationPolicy, has_order, is_known, apply}
use marumbot.Ledger.Accrual.{contract_for, accrue_across, add_interest}
use marumbot.Ledger.Partition.{Input, applied, predates_anchor, AppliedEvent}
use marumbot.Ledger.Partition.Complete.{
  TakesPart, Explains, taken, Explains-unique, Sorts, none_left, takes_part, stays_out, too_early,
}
use marumbot.Ledger.Replay.{Cursor, apply_kind, apply_event, replay_event, replay_all}
use marumbot.Ledger.Replay.Grade.{Unambiguous}

-- A payment, which an allocation policy interprets.
abbrev pub IsPayment : EventKind → Type 0
IsPayment k = (k ≡ payment_reported) ⊎ (k ≡ prepayment_reported)

-- A known policy: its reference is set, and it gives an order of buckets.
pub record IsKnown (p : AllocationPolicy) : Type 0 where
  pub has_reference : is_unset p.ref ≡ false
  pub has_sequence : ¬ (p.sequence ≡ [])

order_given : (ks : List Bucket) → has_order ks ≡ true → ¬ (ks ≡ [])
order_given [] h e = cc
order_given (k ∷ ks) h e = cc

is_known-IsKnown : (p : AllocationPolicy) → is_known p ≡ true → IsKnown p
is_known-IsKnown p h =
    let (reference, order) = and_parts (not (is_unset p.ref)) (has_order p.sequence) h in
    record { has_reference = ground arith; has_sequence = order_given p.sequence order }

-- If the event is a payment, the contract version in force on its date has a known policy.
abbrev pub HasPolicy : Input → Event → Type 0
HasPolicy input e =
    IsPayment e.kind
    → (c : Contract) × (contract_for input.contracts e.value_date ≡ ok c)
      × IsKnown (input.policies c.allocation_policy)

any-Ensures : {A : Type 0} {Q : A → Type 0} (r : Result A) → ((a : A) → Q a) → Ensures Q r
any-Ensures (ok a) h = ensures_ok a (h a)
any-Ensures (err e) h = ensures_err e
any-Ensures panic h = ensures_panic

no_answer : {P : Type 0} → true ≡ false → P
no_answer h = cc

negated_lem : (b : Bool) → not b ≡ false → b ≡ true
negated_lem b h = ground arith

apply-known :
    (b : Buckets) (a : Amount) (p : AllocationPolicy)
    → Ensures (λ r. r.policy_unknown ≡ false → is_known p ≡ true) (apply b a p)
unfolding apply
apply-known b a p =
    if-Ensures (not (text_eq a.cur.code (currency_of b).code)) (λ _. ensures_err _)
      λ _.
        if-Ensures (leb_ℤ a.minor (pos 0)) (λ _. ensures_err _)
          λ _.
            if-Ensures (not (is_known p)) (λ _. ensures_ok _ (λ h. no_answer h))
              λ known. any-Ensures _ (λ r h. negated_lem (is_known p) known)

apply_kind-known :
    (k : EventKind) (b : Buckets) (a : Amount) (p : AllocationPolicy)
    → Ensures (λ r. r.policy_unknown ≡ false → IsPayment k → is_known p ≡ true) (apply_kind k b a p)
unfolding apply_kind
apply_kind-known payment_reported b a p =
    Ensures-map _ (λ r h unknown pays. h unknown) (apply-known b a p)
apply_kind-known prepayment_reported b a p =
    Ensures-map _ (λ r h unknown pays. h unknown) (apply-known b a p)
apply_kind-known bank_fee_reported b a p =
    any-Ensures _ (λ r h pays. elim pays [ inl e ↦ cc | inr e ↦ cc ])
apply_kind-known loan_closed_reported b a p =
    any-Ensures _ (λ r h pays. elim pays [ inl e ↦ cc | inr e ↦ cc ])
apply_kind-known entry_voided b a p = ensures_err _
apply_kind-known (other_kind n) b a p = ensures_err _

or_false : (x y : Bool) → (x || y) ≡ false → (x ≡ false) × (y ≡ false)
or_false x y h = (ground arith, ground arith)

replay_event-known :
    (input : Input) (s : Cursor) (e : Event)
    → Ensures
        (λ t. t.policy_unknown ≡ false → (s.policy_unknown ≡ false) × HasPolicy input e)
        (replay_event input s e)
unfolding replay_event apply_event
replay_event-known input s e = >>=-Ensures (contract_for input.contracts e.value_date) _ λ c found.
    >>=-Ensures (accrue_across s.position input.contracts s.at e.value_date) _ λ interest _.
      >>=-Ensures (add_interest s.position interest) _ λ accrued _.
        >>=-Ensures (apply_event accrued e (input.policies c.allocation_policy)) _ λ r run.
          ensures_ok _ λ h.
            let (front, here) = or_false s.policy_unknown r.policy_unknown h in
            (
              front,
              λ pays. (
                c,
                found,
                is_known-IsKnown _ (
                    Ensures-value _ r
                      (apply_kind-known e.kind accrued e.amount
                        (input.policies c.allocation_policy))
                      run here pays),
              ),
            )

pub replay_all-known :
    (input : Input) (es : List Event) (s : Cursor)
    → Ensures
        (λ t. t.policy_unknown ≡ false → (s.policy_unknown ≡ false) × All (HasPolicy input) es)
        (replay_all input es s)
unfolding replay_all
replay_all-known input [] s = ensures_ok s (λ h. (h, tt))
replay_all-known input (e ∷ es) s = >>=-Ensures (replay_event input s e) _ λ mid step.
    let one = Ensures-value _ mid (replay_event-known input s e) step in
    Ensures-map _
      (λ t h k. let (m, rest) = h k in let (start, here) = one m in (start, (here, rest)))
      (replay_all-known input es mid)

-- What holds of every event that takes part.
All-kept :
    (input : Input) (P : Event → Type 0) (es kept : List Event) (ls : List AppliedEvent)
    (rs : List Reason)
    → Sorts input es kept ls rs
    → All P kept
    → All (λ e. TakesPart input e → P e) es
All-kept input P _ _ _ _ none_left all = tt
All-kept input P _ _ _ _ (takes_part {es = es} {kept = kept} {ls = ls} {rs = rs} t h) all =
    ((λ _. all.0), All-kept input P es kept ls rs h all.1)
All-kept input P _ _ _ _
      (stays_out {e = e} {es = es} {kept = kept} {ls = ls} {rs = rs} {why = why} x n m h) all =
    (
      (λ t. absurd (n (Explains-unique input e why applied x (taken t)))),
      All-kept input P es kept ls rs h all,
    )
All-kept input P _ _ _ _ (too_early {e = e} {es = es} {kept = kept} {ls = ls} {rs = rs} x h) all = (
  (λ t. absurd (cc (Explains-unique input e predates_anchor applied x (taken t)))),
  All-kept input P es kept ls rs h all,
)

pub All-known :
    (input : Input) (es kept : List Event) (ls : List AppliedEvent) (rs : List Reason)
    → Sorts input es kept ls rs
    → All (HasPolicy input) (sort_for_replay kept)
    → All (λ e. TakesPart input e → HasPolicy input e) es
All-known input es kept ls rs h all =
    All-kept input (HasPolicy input) es kept ls rs h
      (All-sort_for_replay (HasPolicy input) kept all)

-- Where no reason is ambiguous, no event was left out as dated before the anchor.
pub none_early :
    (input : Input) (es kept : List Event) (ls : List AppliedEvent) (rs : List Reason)
    → Sorts input es kept ls rs
    → Unambiguous rs
    → All (λ e. ¬ (Explains input e predates_anchor)) es
none_early input _ _ _ _ none_left clear = tt
none_early input _ _ _ _ (takes_part {e = e} {es = es} {kept = kept} {ls = ls} {rs = rs} t h)
      clear =
    (
      (λ x. cc (Explains-unique input e predates_anchor applied x (taken t))),
      none_early input es kept ls rs h clear,
    )
none_early input _ _ _ _
      (stays_out {e = e} {es = es} {kept = kept} {ls = ls} {rs = rs} {why = why} x n m h) clear =
    (
      (λ y. m (Explains-unique input e why predates_anchor x y)),
      none_early input es kept ls rs h clear,
    )
none_early input _ _ _ _ (too_early x h) clear = absurd (clear.0 refl)
