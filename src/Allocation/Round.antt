-- ===== src/Allocation/Round.antt =====
-- One round of the loop of `Apply`: what it takes from a bucket, and the invariant that it keeps.
use marumbot.Prelude.{
  ℕ, ◌+◌, ◌-◌, ◌≤◌, ◌<◌, ◌≡◌, refl, sym, ap, ◌∙◌, true, false, leb, if◌then◌else◌, arith,
  Bool-cases, inl, inr, ◌⊎◌, subst, List, [], ◌∷◌, Text, ok, ◌||◌, Option, none, some,
}
use marumbot.Prelude.Int.{pos, leb_ℤ, one_part}
use marumbot.Money.Amount.{Amount, amount, min_amount, cmp}
use marumbot.Money.Amount.Exact.{same_code_of_eq}
use marumbot.Model.Buckets.{
  Bucket, penalties, overdue_fees, current_fees, unpaid_interest, accrued_interest,
  overdue_principal, principal, advance_credit, all_buckets, Buckets, get, put,
}
use marumbot.Model.Buckets.Owed.{value, IsSound, IsPosition, sub_sound, IsSound-amount}
use marumbot.Allocation.{Applied, bucket_eq, record_taken, Settling, settle, settle_all}

pub get-put :
    (b : Buckets) (k j : Bucket) (v : Amount)
    → get (put b k v) j ≡ (if bucket_eq k j then v else get b j)
get-put b penalties penalties v = refl
get-put b penalties _ v = refl
get-put b overdue_fees penalties v = refl
get-put b overdue_fees _ v = refl
get-put b current_fees penalties v = refl
get-put b current_fees _ v = refl
get-put b unpaid_interest penalties v = refl
get-put b unpaid_interest _ v = refl
get-put b accrued_interest penalties v = refl
get-put b accrued_interest _ v = refl
get-put b overdue_principal penalties v = refl
get-put b overdue_principal _ v = refl
get-put b principal penalties v = refl
get-put b principal _ v = refl
get-put b advance_credit penalties v = refl
get-put b advance_credit _ v = refl

abbrev pub taken_value : Option Amount → ℕ
taken_value none = 0
taken_value (some a) = value a

-- What was taken from the listed buckets.
abbrev pub taken_sum : Applied → List Bucket → ℕ
taken_sum m [] = 0
taken_sum m (k ∷ ks) = taken_value (m k) + taken_sum m ks

pub taken_sum-record_taken :
    (m : Applied) (k : Bucket) (a : Amount)
    → m k ≡ none
    → taken_sum (record_taken m k a) all_buckets ≡ taken_sum m all_buckets + value a
taken_sum-record_taken m penalties a e = omega (arith, ap taken_value e)
taken_sum-record_taken m overdue_fees a e = omega (arith, ap taken_value e)
taken_sum-record_taken m current_fees a e = omega (arith, ap taken_value e)
taken_sum-record_taken m unpaid_interest a e = omega (arith, ap taken_value e)
taken_sum-record_taken m accrued_interest a e = omega (arith, ap taken_value e)
taken_sum-record_taken m overdue_principal a e = omega (arith, ap taken_value e)
taken_sum-record_taken m principal a e = omega (arith, ap taken_value e)
taken_sum-record_taken m advance_credit a e = omega (arith, ap taken_value e)

abbrev pub IsTaken : Text → Option Amount → Type 0
IsTaken code none = Unit
IsTaken code (some a) = IsSound code a

-- What holds between rounds, for a position b₀ at the start and a payment of n minor units: all
-- amounts are sound; what a bucket has lost is recorded for it; what is recorded and what is left
-- make up the payment; and a bucket that has been taken from is empty, or nothing is left.
pub record IsSettling (code : Text) (start : Buckets) (n : ℕ) (s : Settling) : Type 0 where
  pub remaining_sound : IsSound code s.remaining
  pub position_sound : IsPosition code s.position
  pub taken_sound : (k : Bucket) → IsTaken code (s.taken k)
  pub account :
      (k : Bucket) → value (get s.position k) + taken_value (s.taken k) ≡ value (get start k)
  pub conserved : taken_sum s.taken all_buckets + value s.remaining ≡ n
  pub free :
      (k : Bucket) → (value s.remaining ≡ 0) ⊎ ((value (get s.position k) ≡ 0) ⊎ (s.taken k ≡ none))

-- The amount that a round takes.
abbrev take_of : Amount → Amount → Amount
take_of owed remaining = if leb (value owed) (value remaining) then owed else remaining

abbrev moved : Bucket → Settling → Settling
moved k s =
    let owed = get s.position k in
    let take = take_of owed s.remaining in
    record {
      position = put s.position k (amount (pos (value owed - value take)) owed.cur);
      remaining = amount (pos (value s.remaining - value take)) s.remaining.cur;
      taken = record_taken s.taken k take;
    }

min_sound :
    (code : Text) (a b : Amount)
    → IsSound code a
    → IsSound code b
    → min_amount a b ≡ ok (take_of a b)
unfolding min_amount cmp
min_sound code a b h k =
    ground
      (arith, same_code_of_eq a b (h.in_code ∙ sym k.in_code), one_part a.minor, one_part b.minor)

take-IsSound :
    (code : Text) (a b : Amount) → IsSound code a → IsSound code b → IsSound code (take_of a b)
take-IsSound code a b h k = elim (Bool-cases (leb (value a) (value b))) [
  | inl le ↦ rw le h
  | inr gt ↦ rw gt k
]

take-le : (a b : Amount) → (value (take_of a b) ≤ value a) × (value (take_of a b) ≤ value b)
take-le a b = ground arith

take_all :
    (a b : Amount) → (value b - value (take_of a b) ≡ 0) ⊎ (value a - value (take_of a b) ≡ 0)
take_all a b = ground arith

-- A round on sound amounts never fails, and does nothing or moves the lesser of the two amounts.
pub settle_lem :
    (code : Text) (k : Bucket) (s : Settling)
    → IsSound code s.remaining
    → IsPosition code s.position
    → settle k s
      ≡ ok (
          if leb_ℤ s.remaining.minor (pos 0) || leb_ℤ (get s.position k).minor (pos 0)
          then s
          else moved k s)
unfolding settle
settle_lem code k s hr hp =
    let owed = get s.position k in
    elim (Bool-cases (leb_ℤ s.remaining.minor (pos 0) || leb_ℤ owed.minor (pos 0))) [
      | inl stay ↦ rw stay
      | inr move ↦
          let take = take-IsSound code owed s.remaining (hp k) hr in
          rw (
            move,
            min_sound code owed s.remaining (hp k) hr,
            sub_sound code owed (take_of owed s.remaining) (hp k) take (take-le owed s.remaining).0,
            sub_sound code s.remaining (take_of owed s.remaining) hr take
                (take-le owed s.remaining).1,
          )
    ]

eq_of_bucket_eq : (k j : Bucket) → bucket_eq k j ≡ true → k ≡ j
eq_of_bucket_eq k j h = ground arith

-- A statement about every bucket, after one amount was put and what was taken was recorded.
at_bucket {ℓ} :
    (P : Bucket → Amount → Option Amount → Type ℓ) (b : Buckets) (m : Applied) (k : Bucket)
    (v t : Amount)
    → P k v (some t)
    → ((j : Bucket) → P j (get b j) (m j))
    → (j : Bucket) → P j (get (put b k v) j) (record_taken m k t j)
at_bucket P b m k v t new old j = rw get-put (elim (Bool-cases (bucket_eq k j)) [
  | inl here ↦ rw here (subst (λ i. P i v (some t)) (eq_of_bucket_eq k j here) new)
  | inr there ↦ rw there (old j)
])

-- A statement about every bucket, after one amount was put.
pub put_at {ℓ} :
    (P : Bucket → Amount → Type ℓ) (b : Buckets) (k : Bucket) (v : Amount)
    → P k v
    → ((j : Bucket) → bucket_eq k j ≡ false → P j (get b j))
    → (j : Bucket) → P j (get (put b k v) j)
put_at P b k v new old j = rw get-put (elim (Bool-cases (bucket_eq k j)) [
  | inl here ↦ rw here (subst (λ i. P i v) (eq_of_bucket_eq k j here) new)
  | inr there ↦ rw there (old j there)
])

-- Where a round moves, both amounts are positive.
both_positive :
    (code : Text) (a b : Amount)
    → IsSound code a
    → IsSound code b
    → leb_ℤ b.minor (pos 0) || leb_ℤ a.minor (pos 0) ≡ false
    → (0 < value a) × (0 < value b)
both_positive code a b h k e = ground arith

module _ (code : Text) (start : Buckets) (n : ℕ) (k : Bucket) (s : Settling)
    (inv : IsSettling code start n s)
    (has : (0 < value (get s.position k)) × (0 < value s.remaining)) where
  abbrev owed : Amount
  owed = get s.position k

  untouched : s.taken k ≡ none
  untouched = elim (inv.free k) [
    | inl nothing ↦ absurd (omega arith)
    | inr (inl empty) ↦ absurd (omega arith)
    | inr (inr e) ↦ e
  ]

  -- What the invariant says of one bucket, its amount and what was taken from it.
  Holds : ℕ → Bucket → Amount → Option Amount → Type 0
  Holds left j a o =
      IsSound code a
      × IsTaken code o
      × (value a + taken_value o ≡ value (get start j))
      × ((left ≡ 0) ⊎ ((value a ≡ 0) ⊎ (o ≡ none)))

  moved_holds :
      (j : Bucket)
      → Holds (value (moved k s).remaining) j (get (moved k s).position j) ((moved k s).taken j)
  unfolding Holds
  moved_holds =
      let take = take-IsSound code owed s.remaining (inv.position_sound k) inv.remaining_sound in
      let le = take-le owed s.remaining in
      at_bucket (λ j a o. Holds (value (moved k s).remaining) j a o) s.position s.taken k _ _
        (
          IsSound-amount code _ owed.cur (inv.position_sound k).in_code
              (omega (arith, (inv.position_sound k).high)),
          take,
          omega (arith, inv.account k, ap taken_value untouched),
          elim (take_all owed s.remaining) [ inl e ↦ inl e | inr e ↦ inr (inl e) ],
        )
        (λ j. (inv.position_sound j, inv.taken_sound j, inv.account j, still j))
    where
      still :
          (j : Bucket)
          → ((value (moved k s).remaining ≡ 0)
              ⊎ ((value (get s.position j) ≡ 0) ⊎ (s.taken j ≡ none)))
      still j = elim (inv.free j) [ inl nothing ↦ absurd (omega arith) | inr others ↦ inr others ]

  moved-IsSettling : IsSettling code start n (moved k s)
  unfolding moved_holds Holds
  moved-IsSettling = record {
    remaining_sound =
        IsSound-amount code _ s.remaining.cur inv.remaining_sound.in_code
          (omega (arith, inv.remaining_sound.high));
    position_sound = λ j. (moved_holds j).0;
    taken_sound = λ j. (moved_holds j).1;
    account = λ j. (moved_holds j).2;
    conserved =
        rw (taken_sum-record_taken s.taken k _ untouched)
          (omega (arith, inv.conserved, take-le owed s.remaining));
    free = λ j. (moved_holds j).3;
  }

-- One round returns, and keeps the invariant.
settle-IsSettling :
    (code : Text) (start : Buckets) (n : ℕ) (k : Bucket) (s : Settling)
    → IsSettling code start n s
    → (t : Settling) × (settle k s ≡ ok t) × IsSettling code start n t
settle-IsSettling code start n k s inv =
    let test = leb_ℤ s.remaining.minor (pos 0) || leb_ℤ (get s.position k).minor (pos 0) in
    let step = settle_lem code k s inv.remaining_sound inv.position_sound in
    elim (Bool-cases test) [
      | inl stay ↦ (s, step ∙ rw stay, inv)
      | inr move ↦ (
        moved k s,
        step ∙ rw move,
        moved-IsSettling code start n k s inv (
            both_positive code (get s.position k) s.remaining (inv.position_sound k)
              inv.remaining_sound move),
      )
    ]

-- So does the loop, in any order of the buckets and with buckets that are named twice.
pub settle_all-IsSettling :
    (code : Text) (start : Buckets) (n : ℕ) (ks : List Bucket) (s : Settling)
    → IsSettling code start n s
    → (t : Settling) × (settle_all ks s ≡ ok t) × IsSettling code start n t
unfolding settle_all
settle_all-IsSettling code start n [] s inv = (s, refl, inv)
settle_all-IsSettling code start n (k ∷ ks) s inv =
    let (t, step, inv') = settle-IsSettling code start n k s inv in
    let (u, rest, inv'') = settle_all-IsSettling code start n ks t inv' in (u, rw step rest, inv'')
