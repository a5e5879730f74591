-- ===== src/Ledger/Partition/Complete.antt =====
-- `partition` keeps every event: one that takes part in the arithmetic is in the first list, any
-- other is recorded with the reason that holds of it.
use marumbot.Prelude.{
  ◌↔◌, subst, sym, ◌∙◌, ◌≡◌, refl, true, false, if◌then◌else◌, arith, inl, inr, Bool-cases, List,
  [], ◌∷◌, All, Text, text_eq,
}
use marumbot.Prelude.Int.{ℤ, pos, ltb_ℤ, ◌≤ℤ◌, int_laws}
use marumbot.Date.Calendar.{before}
use marumbot.Model.Event.{
  Event, EventKind, payment_reported, prepayment_reported, bank_fee_reported, entry_voided,
  loan_closed_reported, other_kind, is_void,
}
use marumbot.Model.State.{Reason, ambiguous_pre_anchor_event}
use marumbot.Ledger.Partition.{
  Input, Skipped, applied, void_marker, voided, already_included, predates_anchor, AppliedEvent,
  left_out, is_voided, reason_to_skip, Parts, sort_out, parts_of, partition,
}

-- No void of the ledger names the event with this identifier.
abbrev pub NoVoidNames : List Event → Text → Type 0
NoVoidNames events id =
    All
      (λ v.
        v.kind ≡ entry_voided → text_eq v.voids_event [] ≡ false → text_eq v.voids_event id ≡ false)
      events

-- An event that takes part: it voids nothing, nothing in the ledger voids it, the anchor does not
-- include it, and it is not dated before the anchor.
pub record TakesPart (input : Input) (e : Event) : Type 0 where
  pub no_void : ¬ (e.kind ≡ entry_voided)
  pub not_voided : NoVoidNames input.events e.id
  pub not_covered : input.covered e.id ≡ false
  pub not_early : before e.value_date input.anchor.as_of ≡ false

-- What each reason to leave an event out says of it; `applied` says that it takes part.
pub data Explains (input : Input) (e : Event) : Skipped → Type 0 where
  taken : TakesPart input e → Explains input e applied
  is_marker : e.kind ≡ entry_voided → Explains input e void_marker
  is_named : ¬ (e.kind ≡ entry_voided) → ¬ (NoVoidNames input.events e.id) → Explains input e voided
  is_covered :
      ¬ (e.kind ≡ entry_voided)
      → NoVoidNames input.events e.id
      → input.covered e.id ≡ true
      → Explains input e already_included
  is_early :
      ¬ (e.kind ≡ entry_voided)
      → NoVoidNames input.events e.id
      → input.covered e.id ≡ false
      → before e.value_date input.anchor.as_of ≡ true
      → Explains input e predates_anchor

-- Every event of a list, in one of two lists in its order: those that take part, and those left out,
-- each with a reason that holds of it. Of an event left out because it predates the anchor there is
-- one reason in the last list, and of no other.
pub data Sorts (input : Input)
    : List Event → List Event → List AppliedEvent → List Reason → Type 0 where
  none_left : Sorts input [] [] [] []
  takes_part :
      {e : Event} {es kept : List Event} {ls : List AppliedEvent} {rs : List Reason}
      → TakesPart input e
      → Sorts input es kept ls rs
      → Sorts input (e ∷ es) (e ∷ kept) ls rs
  stays_out :
      {e : Event} {es kept : List Event} {ls : List AppliedEvent} {rs : List Reason} {why : Skipped}
      → Explains input e why
      → ¬ (why ≡ applied)
      → ¬ (why ≡ predates_anchor)
      → Sorts input es kept ls rs
      → Sorts input (e ∷ es) kept (left_out e why ∷ ls) rs
  too_early :
      {e : Event} {es kept : List Event} {ls : List AppliedEvent} {rs : List Reason}
      → Explains input e predates_anchor
      → Sorts input es kept ls rs
      → Sorts input
          (e ∷ es)
          kept
          (left_out e predates_anchor ∷ ls)
          (ambiguous_pre_anchor_event ∷ rs)

is_void-kind : (k : EventKind) → (is_void k ≡ true) ↔ (k ≡ entry_voided)
is_void-kind payment_reported = ((λ h. cc), (λ e. cc))
is_void-kind prepayment_reported = ((λ h. cc), (λ e. cc))
is_void-kind bank_fee_reported = ((λ h. cc), (λ e. cc))
is_void-kind entry_voided = ((λ h. refl), (λ e. refl))
is_void-kind loan_closed_reported = ((λ h. cc), (λ e. cc))
is_void-kind (other_kind n) = ((λ h. cc), (λ e. cc))

no_marker : (k : EventKind) → is_void k ≡ false → ¬ (k ≡ entry_voided)
no_marker k h e = cc (h, (is_void-kind k).1 e)

marker_none : (k : EventKind) → ¬ (k ≡ entry_voided) → is_void k ≡ false
marker_none k n = elim (Bool-cases (is_void k)) [
  | inl void ↦ absurd (n ((is_void-kind k).0 void))
  | inr no_void ↦ no_void
]

is_voided-false :
    (events : List Event) (id : Text) → is_voided events id ≡ false → NoVoidNames events id
unfolding is_voided
is_voided-false [] id h = tt
is_voided-false (e ∷ es) id h = (
  (λ void named. let marks = (is_void-kind e.kind).1 void in ground arith),
  is_voided-false es id (ground arith),
)

is_voided-true :
    (events : List Event) (id : Text) → is_voided events id ≡ true → ¬ (NoVoidNames events id)
unfolding is_voided
is_voided-true [] id h k = cc
is_voided-true (e ∷ es) id h k = elim (Bool-cases (is_voided es id)) [
  | inl later ↦ is_voided-true es id later k.1
  | inr no_later ↦
      let void : is_void e.kind ≡ true = ground arith in
      ground (arith, k.0 ((is_void-kind e.kind).0 void))
]

reason_to_skip-Explains : (input : Input) (e : Event) → Explains input e (reason_to_skip input e)
unfolding reason_to_skip
reason_to_skip-Explains input e = elim (Bool-cases (is_void e.kind)) [
  | inl void ↦ rw void (is_marker ((is_void-kind e.kind).0 void))
  | inr no_void ↦
      let no_mark = no_marker e.kind no_void in
      elim (Bool-cases (is_voided input.events e.id)) [
        | inl void ↦ rw (no_void, void) (is_named no_mark (is_voided-true input.events e.id void))
        | inr kept ↦
            let free = is_voided-false input.events e.id kept in
            elim (Bool-cases (input.covered e.id)) [
              | inl cov ↦ rw (no_void, kept, cov) (is_covered no_mark free cov)
              | inr not_cov ↦ elim (Bool-cases (before e.value_date input.anchor.as_of)) [
                | inl early ↦
                    rw (no_void, kept, not_cov, early) (is_early no_mark free not_cov early)
                | inr late ↦
                    rw (no_void, kept, not_cov, late)
                      (taken (record {
                        no_void = no_mark;
                        not_voided = free;
                        not_covered = not_cov;
                        not_early = late;
                      }))
              ]
            ]
      ]
]

named-false :
    (events : List Event) (id : Text) → NoVoidNames events id → is_voided events id ≡ false
named-false events id h = elim (Bool-cases (is_voided events id)) [
  | inl void ↦ absurd (is_voided-true events id void h)
  | inr kept ↦ kept
]

named-true :
    (events : List Event) (id : Text) → ¬ (NoVoidNames events id) → is_voided events id ≡ true
named-true events id h = elim (Bool-cases (is_voided events id)) [
  | inl void ↦ void
  | inr kept ↦ absurd (h (is_voided-false events id kept))
]

Explains-why :
    (input : Input) (e : Event) (why : Skipped)
    → Explains input e why
    → reason_to_skip input e ≡ why
unfolding reason_to_skip
Explains-why input e _ (taken t) =
    rw
      (
        marker_none e.kind t.no_void,
        named-false input.events e.id t.not_voided,
        t.not_covered,
        t.not_early,
      )
      refl
Explains-why input e _ (is_marker v) = rw ((is_void-kind e.kind).1 v) refl
Explains-why input e _ (is_named v n) =
    rw (marker_none e.kind v, named-true input.events e.id n) refl
Explains-why input e _ (is_covered v n c) =
    rw (marker_none e.kind v, named-false input.events e.id n, c) refl
Explains-why input e _ (is_early v n c b) =
    rw (marker_none e.kind v, named-false input.events e.id n, c, b) refl

-- An event has one reason.
pub Explains-unique :
    (input : Input) (e : Event) (v w : Skipped) → Explains input e v → Explains input e w → v ≡ w
Explains-unique input e v w h k = sym (Explains-why input e v h) ∙ Explains-why input e w k

-- What a list is partitioned into.
pub record Partitioned (input : Input) (events : List Event) (start : ℤ) (r : Parts) : Type 0 where
  pub sorted_out : Sorts input events r.active r.left r.reasons
  pub above_start : start ≤ℤ r.watermark
  pub above_all : All (λ e. e.recorded_seq ≤ℤ r.watermark) events

sort_out-Sorts :
    (input : Input) (e : Event) (why : Skipped) (es : List Event) (r : Parts)
    → Explains input e why
    → Sorts input es r.active r.left r.reasons
    → Sorts input
        (e ∷ es)
        (sort_out e why r).active
        (sort_out e why r).left
        (sort_out e why r).reasons
unfolding sort_out
sort_out-Sorts input e _ es r (taken t) h = takes_part t h
sort_out-Sorts input e _ es r (is_marker v) h = stays_out (is_marker v) (λ k. cc) (λ k. cc) h
sort_out-Sorts input e _ es r (is_named v n) h = stays_out (is_named v n) (λ k. cc) (λ k. cc) h
sort_out-Sorts input e _ es r (is_covered v n c) h =
    stays_out (is_covered v n c) (λ k. cc) (λ k. cc) h
sort_out-Sorts input e _ es r (is_early v n c b) h = too_early (is_early v n c b) h

sort_out-watermark :
    (e : Event) (why : Skipped) (r : Parts) → (sort_out e why r).watermark ≡ r.watermark
unfolding sort_out
sort_out-watermark e applied r = refl
sort_out-watermark e void_marker r = refl
sort_out-watermark e voided r = refl
sort_out-watermark e already_included r = refl
sort_out-watermark e predates_anchor r = refl

higher : ℤ → Event → ℤ
higher start e = if ltb_ℤ start e.recorded_seq then e.recorded_seq else start

higher-start : (start : ℤ) (e : Event) → start ≤ℤ higher start e
unfolding higher
higher-start start e = ground arith

higher-seq : (start : ℤ) (e : Event) → e.recorded_seq ≤ℤ higher start e
unfolding higher
higher-seq start e = ground arith

le_trans_ℤ : (a b c : ℤ) → a ≤ℤ b → b ≤ℤ c → a ≤ℤ c
le_trans_ℤ a b c h k = omega int_laws

parts_of-Partitioned :
    (input : Input) (events : List Event) (start : ℤ)
    → Partitioned input events start (parts_of input events start)
unfolding parts_of higher
parts_of-Partitioned input [] start = record {
  sorted_out = none_left;
  above_start = omega int_laws;
  above_all = tt;
}
parts_of-Partitioned input (e ∷ es) start =
    let rest = parts_of-Partitioned input es (higher start e) in
    let r = parts_of input es (higher start e) in
    let same = sort_out-watermark e (reason_to_skip input e) r in
    record {
      sorted_out =
          sort_out-Sorts input e (reason_to_skip input e) es r (reason_to_skip-Explains input e)
            rest.sorted_out;
      above_start =
          rw same
            (le_trans_ℤ start (higher start e) r.watermark (higher-start start e) rest.above_start);
      above_all =
          subst (λ w. All (λ f. f.recorded_seq ≤ℤ w) (e ∷ es)) (sym same)
            (
              le_trans_ℤ e.recorded_seq (higher start e) r.watermark (higher-seq start e)
                  rest.above_start,
              rest.above_all,
            );
    }

-- partition puts every event of the ledger, in order, into one of two lists: those that take part,
-- and those that stay out, each with the one reason that holds of it. An event takes part if it is no
-- void, no void of the ledger names it, the anchor does not cover it and it is not dated before the
-- anchor; the reasons to stay out are the first of these that fails. For each event that stays out
-- as dated before the anchor, and for no other, the state gets one ambiguous_pre_anchor_event. The
-- watermark is at least 0 and at least every recorded number, also of the events that stay out.
pub partition-Partitioned :
    (input : Input) → Partitioned input input.events (pos 0) (partition input)
unfolding partition
partition-Partitioned input = parts_of-Partitioned input input.events (pos 0)
