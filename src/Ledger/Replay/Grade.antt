-- ===== src/Ledger/Replay/Grade.antt =====
-- What it takes to grade a balance as confirmed.
use marumbot.Prelude.{
  if◌then◌else◌, ◌≡◌, refl, ◌↔◌, ◌⊎◌, inl, inr, Bool, true, false, Bool-cases, arith, List, [], ◌∷◌,
  All,
}
use marumbot.Prelude.Int.{ℤ, pos, ltb_ℤ, leb_ℤ, ◌≤ℤ◌, ◌<ℤ◌}
use marumbot.Date.Calendar.{days_between}
use marumbot.Model.Buckets.{Buckets, has_arrears}
use marumbot.Model.Loan.{Trust, user_entered, bank_confirmed, imported_verified}
use marumbot.Model.State.{
  Reason, ambiguous_pre_anchor_event, arrears_present, anchor_not_confirmed, anchor_stale,
  allocation_policy_unknown, confirmed,
}
use marumbot.Ledger.Partition.{Input}
use marumbot.Ledger.Replay.{is_ambiguous, any_ambiguous, is_trusted, freshness_limit, grade}

-- Nothing overdue: no penalty, no overdue principal, no overdue fee and no unpaid interest.
pub record NoArrears (b : Buckets) : Type 0 where
  pub penalty : b.penalty.minor ≤ℤ pos 0
  pub late_principal : b.late_principal.minor ≤ℤ pos 0
  pub late_fees : b.late_fees.minor ≤ℤ pos 0
  pub unpaid : b.unpaid.minor ≤ℤ pos 0

-- A trusted anchor: confirmed by the bank, or a verified import.
abbrev pub Trusted : Trust → Type 0
Trusted t = (t ≡ bank_confirmed) ⊎ (t ≡ imported_verified)

-- No older than the freshness that is set, or than 35 days where none is.
pub record IsFresh (freshness age : ℤ) : Type 0 where
  pub within : pos 0 <ℤ freshness → age ≤ℤ freshness
  pub by_default : freshness ≤ℤ pos 0 → age ≤ℤ pos 35

abbrev pub Unambiguous : List Reason → Type 0
Unambiguous reasons = All (λ r. ¬ (r ≡ ambiguous_pre_anchor_event)) reasons

-- All that it takes to grade a balance as confirmed.
pub record CanConfirm (input : Input) (b : Buckets) (reasons : List Reason) (policy_unknown : Bool)
    : Type 0 where
  pub no_arrears : NoArrears b
  pub none_at_anchor : NoArrears input.anchor.position
  pub unambiguous : Unambiguous reasons
  pub policies_known : policy_unknown ≡ false
  pub trusted : Trusted input.anchor.trust
  pub fresh : IsFresh input.freshness_days (days_between input.anchor.as_of input.as_of)

has_arrears-NoArrears : (b : Buckets) → (has_arrears b ≡ false) ↔ NoArrears b
unfolding has_arrears
has_arrears-NoArrears b = (
  (λ h. record {
    penalty = ground arith;
    late_principal = ground arith;
    late_fees = ground arith;
    unpaid = ground arith;
  }),
  (λ n. ground (arith, n.penalty, n.late_principal, n.late_fees, n.unpaid)),
)

is_trusted-Trusted : (t : Trust) → (is_trusted t ≡ true) ↔ Trusted t
is_trusted-Trusted user_entered = ((λ h. cc), (λ n. elim n [ inl e ↦ cc | inr e ↦ cc ]))
is_trusted-Trusted bank_confirmed = ((λ h. inl refl), (λ n. refl))
is_trusted-Trusted imported_verified = ((λ h. inr refl), (λ n. refl))

is_ambiguous-not : (r : Reason) → (is_ambiguous r ≡ false) ↔ ¬ (r ≡ ambiguous_pre_anchor_event)
unfolding is_ambiguous
is_ambiguous-not ambiguous_pre_anchor_event = ((λ h. cc), (λ n. absurd (n refl)))
is_ambiguous-not arrears_present = ((λ h k. cc), (λ n. refl))
is_ambiguous-not anchor_not_confirmed = ((λ h k. cc), (λ n. refl))
is_ambiguous-not anchor_stale = ((λ h k. cc), (λ n. refl))
is_ambiguous-not allocation_policy_unknown = ((λ h k. cc), (λ n. refl))

any_ambiguous-Unambiguous :
    (reasons : List Reason) → (any_ambiguous reasons ≡ false) ↔ Unambiguous reasons
unfolding any_ambiguous
any_ambiguous-Unambiguous [] = ((λ h. tt), (λ n. refl))
any_ambiguous-Unambiguous (r ∷ rs) = (
  (λ h. ((is_ambiguous-not r).0 (ground arith), (any_ambiguous-Unambiguous rs).0 (ground arith))),
  (λ n. rw ((is_ambiguous-not r).1 n.0) ((any_ambiguous-Unambiguous rs).1 n.1)),
)

freshness-IsFresh :
    (freshness age : ℤ)
    → (ltb_ℤ (if leb_ℤ freshness (pos 0) then pos 35 else freshness) age ≡ false)
      ↔ IsFresh freshness age
freshness-IsFresh freshness age = (
  (λ h. record { within = λ p. ground arith; by_default = λ p. ground arith }),
  (λ n. elim (Bool-cases (leb_ℤ freshness (pos 0))) [
    | inl none_set ↦ let k = n.by_default (ground arith) in rw none_set (ground arith)
    | inr some_set ↦ let k = n.within (ground arith) in rw some_set (ground arith)
  ]),
)

-- The tests of grade on its way to its last branch.
grade_tests :
    (input : Input) (b : Buckets) (reasons : List Reason) (policy_unknown : Bool)
    → (grade input b reasons policy_unknown).0 ≡ confirmed
    → (has_arrears b ≡ false)
      × (has_arrears input.anchor.position ≡ false)
      × (any_ambiguous reasons ≡ false)
      × (policy_unknown ≡ false)
      × (is_trusted input.anchor.trust ≡ true)
      × (ltb_ℤ (freshness_limit input) (days_between input.anchor.as_of input.as_of) ≡ false)
unfolding grade
grade_tests input b reasons policy_unknown h =
    (ground arith, ground arith, ground arith, ground arith, ground arith, ground arith)

-- grade answers Confirmed exactly where neither the position nor the anchor has a penalty, overdue
-- principal, an overdue fee or unpaid interest, no reason is ambiguous_pre_anchor_event, every
-- allocation policy is known, the anchor is confirmed by the bank or a verified import, and it is no
-- older than the freshness that is set, or than 35 days where none is.
pub grade-CanConfirm :
    (input : Input) (b : Buckets) (reasons : List Reason) (policy_unknown : Bool)
    → ((grade input b reasons policy_unknown).0 ≡ confirmed)
      ↔ CanConfirm input b reasons policy_unknown
unfolding grade
grade-CanConfirm input b reasons policy_unknown = (
  (λ h.
      let (here, anchor, clear, known, trust, age) = grade_tests input b reasons policy_unknown h in
      record {
        no_arrears = (has_arrears-NoArrears b).0 here;
        none_at_anchor = (has_arrears-NoArrears input.anchor.position).0 anchor;
        unambiguous = (any_ambiguous-Unambiguous reasons).0 clear;
        policies_known = known;
        trusted = (is_trusted-Trusted input.anchor.trust).0 trust;
        fresh = (freshness-IsFresh input.freshness_days _).0 age;
      }),
  (λ c.
      rw
        (
          (has_arrears-NoArrears b).1 c.no_arrears,
          (has_arrears-NoArrears input.anchor.position).1 c.none_at_anchor,
          (any_ambiguous-Unambiguous reasons).1 c.unambiguous,
          c.policies_known,
          (is_trusted-Trusted input.anchor.trust).1 c.trusted,
          (freshness-IsFresh input.freshness_days _).1 c.fresh,
        )
        refl),
)
