-- ===== src/Model/Event/Sorted.antt =====
-- `SortForReplay` puts a ledger in the order of replay.
use mathlib.Core.List.{Perm}
use mathlib.Core.List.Perm
use marumbot.Prelude.{
  ◌≡◌, refl, sym, ◌∙◌, subst, ◌⊎◌, inl, inr, true, not, ◌&&◌, if◌then◌else◌, arith, Bool-cases,
  List, [], ◌∷◌, All,
}
use marumbot.Prelude.Int.{pos, ltb_ℤ, eq_ℤ, eq_of_parts}
use marumbot.Date.Calendar.{compare_date}
use marumbot.Date.Calendar.Order.{Earlier, compare_date_trichotomy, Earlier-trans, Earlier-irrefl}
use marumbot.Model.Event.{Event, replay_less, insert_event, sort_for_replay, same}

-- What decides between two events of one day.
abbrev SameDay : Event → Event → Type 0
SameDay a b =
    (if not (same a.has_bank_order b.has_bank_order)
      then a.has_bank_order
      else if a.has_bank_order && not (eq_ℤ a.bank_order b.bank_order)
      then ltb_ℤ a.bank_order b.bank_order
      else ltb_ℤ a.recorded_seq b.recorded_seq)
    ≡ true

less-SameDay :
    (a b : Event)
    → compare_date a.value_date b.value_date ≡ pos 0
    → SameDay a b
    → replay_less a b ≡ true
unfolding replay_less
less-SameDay a b e h = rw e h

-- What comes first by the day comes first.
SameDay-split : (a b c : Event) → SameDay a c → SameDay a b ⊎ SameDay b c
SameDay-split a b c h =
    ground (arith, eq_of_parts a.bank_order b.bank_order, eq_of_parts c.bank_order b.bank_order)

SameDay-irrefl : (a b : Event) → SameDay a b → ¬ (SameDay b a)
SameDay-irrefl a b h k = ground (arith, eq_of_parts a.bank_order b.bank_order)

-- The order of replay: by the day, and within one day what the bank has numbered before what it
-- has not, by the bank's number, and by the number of the record.
abbrev pub Precedes : Event → Event → Type 0
Precedes a b = Earlier a.value_date b.value_date ⊎ ((a.value_date ≡ b.value_date) × SameDay a b)

less-Precedes : (a b : Event) → replay_less a b ≡ true → Precedes a b
unfolding replay_less
less-Precedes a b h = elim (compare_date_trichotomy a.value_date b.value_date) [
  | inl (e, first) ↦ inl first
  | inr (inl (e, day)) ↦ inr (day, (rw e at h))
  | inr (inr (e, last)) ↦ absurd (cc (rw e at h))
]

Precedes-less : (a b : Event) → Precedes a b → replay_less a b ≡ true
unfolding replay_less
Precedes-less a b h = elim (compare_date_trichotomy a.value_date b.value_date) [
  | inl (e, first) ↦ rw e refl
  | inr (inl (e, day)) ↦ rw e (elim h [
    | inl first ↦
        absurd (Earlier-irrefl b.value_date (subst (λ t. Earlier t b.value_date) day first))
    | inr (_, order) ↦ order
  ])
  | inr (inr (_, last)) ↦ absurd (elim h [
    | inl first ↦
        Earlier-irrefl a.value_date
          (Earlier-trans a.value_date b.value_date a.value_date first last)
    | inr (day, _) ↦ Earlier-irrefl b.value_date (subst (Earlier b.value_date) day last)
  ])
]

-- If a precedes c, then every b is behind a or before c.
Precedes-split : (a b c : Event) → Precedes a c → Precedes a b ⊎ Precedes b c
Precedes-split a b c h = elim (compare_date_trichotomy a.value_date b.value_date) [
  | inl (_, first) ↦ inl (inl first)
  | inr (inl (_, day)) ↦ elim h [
    | inl before_c ↦ inr (inl (subst (λ t. Earlier t c.value_date) day before_c))
    | inr (day_c, order) ↦ elim (SameDay-split a b c order) [
      | inl left ↦ inl (inr (day, left))
      | inr right ↦ inr (inr (sym day ∙ day_c, right))
    ]
  ]
  | inr (inr (_, last)) ↦ elim h [
    | inl before_c ↦ inr (inl (Earlier-trans b.value_date a.value_date c.value_date last before_c))
    | inr (day_c, _) ↦ inr (inl (subst (Earlier b.value_date) day_c last))
  ]
]

Precedes-asym : (a b : Event) → Precedes a b → ¬ (Precedes b a)
Precedes-asym a b h k = elim h [
  | inl first ↦ elim k [
    | inl last ↦
        Earlier-irrefl a.value_date
          (Earlier-trans a.value_date b.value_date a.value_date first last)
    | inr (day, _) ↦ Earlier-irrefl a.value_date (subst (Earlier a.value_date) day first)
  ]
  | inr (day, order) ↦ elim k [
    | inl last ↦ Earlier-irrefl b.value_date (subst (Earlier b.value_date) day last)
    | inr (_, back) ↦ SameDay-irrefl a b order back
  ]
]

-- Each event is followed by no event that precedes it.
abbrev pub IsSorted : List Event → Type 0
IsSorted [] = Unit
IsSorted (e ∷ es) = All (λ f. ¬ (Precedes f e)) es × IsSorted es

insert_event-All :
    (P : Event → Type 0) (e : Event) (fs : List Event) → P e → All P fs → All P (insert_event e fs)
unfolding insert_event
insert_event-All P e [] pe all = (pe, tt)
insert_event-All P e (f ∷ fs) pe all = elim (Bool-cases (replay_less f e)) [
  | inl less ↦ rw less (all.0, insert_event-All P e fs pe all.1)
  | inr no_less ↦ rw no_less (pe, all)
]

All-behind :
    (e f : Event) (gs : List Event)
    → ¬ (Precedes f e)
    → All (λ g. ¬ (Precedes g f)) gs
    → All (λ g. ¬ (Precedes g e)) gs
All-behind e f [] h all = tt
All-behind e f (g ∷ gs) h all = (
  (λ k. elim (Precedes-split g f e k) [ inl l ↦ all.0 l | inr r ↦ h r ]),
  All-behind e f gs h all.1,
)

insert_event-IsSorted : (e : Event) (fs : List Event) → IsSorted fs → IsSorted (insert_event e fs)
unfolding insert_event
insert_event-IsSorted e [] h = (tt, tt)
insert_event-IsSorted e (f ∷ fs) h = elim (Bool-cases (replay_less f e)) [
  | inl less ↦ rw less (
    insert_event-All _ e fs (Precedes-asym f e (less-Precedes f e less)) h.0,
    insert_event-IsSorted e fs h.1,
  )
  | inr no_less ↦
      let behind : ¬ (Precedes f e) = λ k. cc (Precedes-less f e k, no_less) in
      rw no_less ((behind, All-behind e f fs behind h.0), h)
]

insert_event-perm : (e : Event) (fs : List Event) → Perm (insert_event e fs) (e ∷ fs)
unfolding insert_event
insert_event-perm e [] = Perm.refl _
insert_event-perm e (f ∷ fs) = elim (Bool-cases (replay_less f e)) [
  | inl less ↦ rw less (Perm.trans (Perm.cons f (insert_event-perm e fs)) (Perm.swap _ _ _))
  | inr no_less ↦ rw no_less (Perm.refl _)
]

sort_for_replay-perm : (events : List Event) → Perm (sort_for_replay events) events
unfolding sort_for_replay
sort_for_replay-perm [] = Perm.refl _
sort_for_replay-perm (e ∷ es) =
    Perm.trans (insert_event-perm e (sort_for_replay es)) (Perm.cons e (sort_for_replay-perm es))

sort_for_replay-IsSorted : (events : List Event) → IsSorted (sort_for_replay events)
unfolding sort_for_replay
sort_for_replay-IsSorted [] = tt
sort_for_replay-IsSorted (e ∷ es) =
    insert_event-IsSorted e (sort_for_replay es) (sort_for_replay-IsSorted es)

-- SortForReplay answers with a permutation of the events in which no event stands behind one that
-- it precedes in the order of replay.
pub sort_for_replay-sorts :
    (events : List Event) → Perm (sort_for_replay events) events × IsSorted (sort_for_replay events)
sort_for_replay-sorts events = (sort_for_replay-perm events, sort_for_replay-IsSorted events)

-- What holds of all the sorted events holds of all the events.
All-insert_event :
    (P : Event → Type 0) (e : Event) (fs : List Event) → All P (insert_event e fs) → P e × All P fs
unfolding insert_event
All-insert_event P e [] h = h
All-insert_event P e (f ∷ fs) h = elim (Bool-cases (replay_less f e)) [
  | inl less ↦
      let h' = rw less at h in let (pe, rest) = All-insert_event P e fs h'.1 in (pe, (h'.0, rest))
  | inr no_less ↦ rw no_less at h
]

pub All-sort_for_replay :
    (P : Event → Type 0) (es : List Event) → All P (sort_for_replay es) → All P es
unfolding sort_for_replay
All-sort_for_replay P [] h = tt
All-sort_for_replay P (e ∷ es) h =
    let (pe, rest) = All-insert_event P e (sort_for_replay es) h in
    (pe, All-sort_for_replay P es rest)
