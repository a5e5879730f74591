-- ===== src/Allocation/Conserved.antt =====
-- `Apply` conserves money: the split accounts for exactly the payment, and what a bucket lost is
-- what the split records for it.
use marumbot.Prelude.{
  ℕ, ◌+◌, ◌≤◌, ◌<◌, ◌≡◌, refl, ap, ◌∙◌, Bool, true, false, if◌then◌else◌, arith, Bool-cases, inl,
  inr, not, List, [], ◌∷◌, Text, text_eq, text_eq_refl, ok, Option, none, some,
}
use marumbot.Prelude.Int.{pos, leb_ℤ, one_part}
use marumbot.Prelude.Int64.{max_int64}
use marumbot.Money.Currency.{Currency}
use marumbot.Money.Amount.{Amount, amount, zero_amount, add, is_zero}
use marumbot.Model.Buckets.{Bucket, advance_credit, all_buckets, Buckets, currency_of, get, put}
use marumbot.Model.Buckets.Owed.{
  value, IsSound, IsPosition, IsSound-amount, add_sound, sum_of, AllOf, add_all_sound,
}
use marumbot.Allocation.{
  ExcessRule, unknown_excess, reduce_principal, hold_as_advance, requires_bank_request,
  AllocationPolicy, is_known, Applied, Split, total, taken_of, amounts_of, add_rest, Settling,
  Interpreted, bucket_eq, none_taken, split_of, place_excess, finish, apply,
}
use marumbot.Allocation.Round.{
  taken_value, taken_sum, IsTaken, IsSettling, settle_all-IsSettling, put_at,
}

amounts_of-AllOf :
    (code : Text) (m : Applied) (ks : List Bucket)
    → ((k : Bucket) → IsTaken code (m k))
    → AllOf code (amounts_of m ks)
unfolding amounts_of taken_of
amounts_of-AllOf code m [] h = tt
amounts_of-AllOf code m (k ∷ ks) h = one (m k) (h k) (amounts_of-AllOf code m ks h)
  where
    one :
        (o : Option Amount)
        → IsTaken code o
        → AllOf code (amounts_of m ks)
        → AllOf code (taken_of o (amounts_of m ks))
    one none t rest = rest
    one (some a) t rest = (t, rest)

sum_of-amounts_of : (m : Applied) (ks : List Bucket) → sum_of (amounts_of m ks) ≡ taken_sum m ks
unfolding amounts_of taken_of
sum_of-amounts_of m [] = refl
sum_of-amounts_of m (k ∷ ks) = one (m k) (sum_of-amounts_of m ks)
  where
    one :
        (o : Option Amount)
        → sum_of (amounts_of m ks) ≡ taken_sum m ks
        → sum_of (taken_of o (amounts_of m ks)) ≡ taken_value o + taken_sum m ks
    one none e = omega arith
    one (some a) e = omega arith

-- Skipping a zero or adding it is the same.
add_rest_sound :
    (code : Text) (n : ℕ) (c : Currency) (as' : List Amount)
    → c.code ≡ code
    → AllOf code as'
    → n + sum_of as' ≤ max_int64
    → add_rest (amount (pos n) c) as' ≡ ok (amount (pos (n + sum_of as')) c)
unfolding add_rest
add_rest_sound code n c [] e h fits = ap (λ m. ok (amount (pos m) c)) (omega arith)
add_rest_sound code n c (a ∷ as') e h fits =
    let later : n + value a + sum_of as' ≤ max_int64 = omega arith in
    let rest =
      add_rest_sound code (n + value a) c as' e h.1 later
      ∙ ap (λ m. ok (amount (pos m) c))
          (let s : n + value a + sum_of as' ≡ n + (value a + sum_of as') = omega arith in s) in
    elim (Bool-cases (is_zero a)) [
      | inl nothing ↦ let same : n + value a ≡ n = ground arith in rw nothing (rw same at rest)
      | inr something ↦
          rw
            (
              something,
              add_sound code (amount (pos n) c) a (IsSound-amount code n c e (omega arith)) h.0
                  (omega arith),
            )
            rest
    ]

total_sound :
    (s : Split) (c : Currency) (n : ℕ)
    → ((k : Bucket) → IsTaken c.code (s.applied k))
    → IsSound c.code s.extra_to_advance
    → IsSound c.code s.pending
    → IsSound c.code s.unapplied
    → taken_sum s.applied all_buckets
        + (value s.extra_to_advance + (value s.pending + (value s.unapplied + 0)))
      ≡ n
    → n ≤ max_int64
    → total s c ≡ ok (amount (pos n) c)
unfolding total
total_sound s c n h x p u sum fits =
    let all = sum_of-amounts_of s.applied all_buckets in
    let first =
      add_all_sound c.code 0 c (amounts_of s.applied all_buckets) refl
        (amounts_of-AllOf c.code s.applied all_buckets h) (omega arith) in
    let rest =
      add_rest_sound c.code (0 + sum_of (amounts_of s.applied all_buckets)) c
        (s.extra_to_advance ∷ s.pending ∷ s.unapplied ∷ []) refl (x, (p, (u, tt))) (omega arith) in
    rw first (rest ∙ ap (λ m. ok (amount (pos m) c)) (omega arith))

-- What `Apply` owes for a payment of n minor units into a position b: a split that totals exactly
-- the payment, a sound position, and for each bucket the sum of what is left in it and what the
-- split says it was paid equals what it held, but for the advance credit, which has grown by what
-- the split says was parked there.
pub record Accounted (b : Buckets) (n : ℕ) (r : Interpreted) : Type 0 where
  pub total_is : total r.split (currency_of b) ≡ ok (amount (pos n) (currency_of b))
  pub position_sound : IsPosition (currency_of b).code r.position
  pub debt :
      (k : Bucket)
      → value (get r.position k) + taken_value (r.split.applied k)
        ≡ value (get b k)
          + (if bucket_eq k advance_credit then value r.split.extra_to_advance else 0)

zero-IsSound : (c : Currency) → IsSound c.code (zero_amount c)
zero-IsSound c = IsSound-amount c.code 0 c refl (omega arith)

module _ (b : Buckets) (n : ℕ) (s : Settling) (inv : IsSettling (currency_of b).code b n s)
    (fits : value b.credit + n ≤ max_int64) where
  abbrev c : Currency
  c = currency_of b

  same_debts :
      (k : Bucket)
      → value (get s.position k) + taken_value (s.taken k)
        ≡ value (get b k) + (if bucket_eq k advance_credit then 0 else 0)
  same_debts k = ground (arith, inv.account k)

  -- The loop used the payment up.
  used_up :
      (confident : Bool)
      → value s.remaining ≡ 0
      → Accounted b n (record {
        position = s.position;
        split = split_of c s.taken confident;
        policy_unknown = false;
      })
  used_up confident none_left = record {
    total_is =
        total_sound _ c n inv.taken_sound (zero-IsSound c) (zero-IsSound c) (zero-IsSound c)
          (omega (arith, inv.conserved)) (omega arith);
    position_sound = inv.position_sound;
    debt = same_debts;
  }

  abbrev credit : Amount
  credit = amount (pos (value s.position.credit + value s.remaining)) s.position.credit.cur

  abbrev parked : Interpreted
  parked = record {
    position = put s.position advance_credit credit;
    split = record (split_of c s.taken true) { extra_to_advance = s.remaining };
    policy_unknown = false;
  }

  credit_fits : value s.position.credit + value s.remaining ≤ max_int64
  credit_fits = omega (arith, inv.account advance_credit, inv.conserved)

  -- A bucket of the parked position.
  parked_at :
      (k : Bucket)
      → IsSound c.code (get parked.position k)
        × (value (get parked.position k) + taken_value (s.taken k)
            ≡ value (get b k) + (if bucket_eq k advance_credit then value s.remaining else 0))
  parked_at =
      put_at
        (λ k a.
          IsSound c.code a
          × (value a + taken_value (s.taken k)
              ≡ value (get b k) + (if bucket_eq k advance_credit then value s.remaining else 0)))
        s.position advance_credit credit
        (
          IsSound-amount c.code _ s.position.credit.cur (inv.position_sound advance_credit).in_code
              credit_fits,
          omega (arith, inv.account advance_credit),
        )
        (λ k other. (inv.position_sound k, ground (arith, inv.account k)))

  parked-Accounted : Accounted b n parked
  parked-Accounted = record {
    total_is =
        total_sound _ c n inv.taken_sound inv.remaining_sound (zero-IsSound c) (zero-IsSound c)
          (omega (arith, inv.conserved)) (omega arith);
    position_sound = λ k. (parked_at k).0;
    debt = λ k. (parked_at k).1;
  }

  park : add s.position.credit s.remaining ≡ ok credit
  park =
      add_sound c.code s.position.credit s.remaining (inv.position_sound advance_credit)
        inv.remaining_sound credit_fits

  excess_placed :
      (rule : ExcessRule)
      → (r : Interpreted) × (place_excess rule c s ≡ ok r)
        × Accounted b n r
        × (r.policy_unknown ≡ false)
  unfolding place_excess
  excess_placed reduce_principal = (parked, rw park, parked-Accounted, refl)
  excess_placed hold_as_advance = (parked, rw park, parked-Accounted, refl)
  excess_placed requires_bank_request = (
    _,
    refl,
    record {
      total_is =
          total_sound _ c n inv.taken_sound (zero-IsSound c) inv.remaining_sound (zero-IsSound c)
            (omega (arith, inv.conserved)) (omega arith);
      position_sound = inv.position_sound;
      debt = same_debts;
    },
    refl,
  )
  excess_placed unknown_excess = (
    _,
    refl,
    record {
      total_is =
          total_sound _ c n inv.taken_sound (zero-IsSound c) (zero-IsSound c) inv.remaining_sound
            (omega (arith, inv.conserved)) (omega arith);
      position_sound = inv.position_sound;
      debt = same_debts;
    },
    refl,
  )

  finished :
      (p : AllocationPolicy)
      → (r : Interpreted) × (finish p c s ≡ ok r) × Accounted b n r × (r.policy_unknown ≡ false)
  unfolding finish
  finished p = elim (Bool-cases (leb_ℤ s.remaining.minor (pos 0))) [
    | inl nothing ↦ (
      _,
      rw nothing,
      used_up true (ground (arith, one_part s.remaining.minor, inv.remaining_sound.low)),
      refl,
    )
    | inr something ↦ rw something (excess_placed p.excess)
  ]

abbrev first_round : Buckets → Amount → Settling
first_round b payment = record { position = b; remaining = payment; taken = none_taken }

first_round-IsSettling :
    (b : Buckets) (payment : Amount)
    → IsPosition (currency_of b).code b
    → IsSound (currency_of b).code payment
    → IsSettling (currency_of b).code b (value payment) (first_round b payment)
first_round-IsSettling b payment hb hp = record {
  remaining_sound = hp;
  position_sound = hb;
  taken_sound = λ k. tt;
  account = λ k. omega arith;
  conserved = omega arith;
  free = λ k. inr (inr refl);
}

-- What an unknown policy leaves: the position as it was, and the payment unapplied.
abbrev not_applied : Buckets → Amount → Interpreted
not_applied b payment = record {
  position = b;
  split = record (split_of (currency_of b) none_taken false) { unapplied = payment };
  policy_unknown = true;
}

not_applied-Accounted :
    (b : Buckets) (payment : Amount)
    → IsPosition (currency_of b).code b
    → IsSound (currency_of b).code payment
    → Accounted b (value payment) (not_applied b payment)
not_applied-Accounted b payment hb hp = record {
  total_is =
      total_sound _ (currency_of b) (value payment) (λ k. tt) (zero-IsSound (currency_of b))
        (zero-IsSound (currency_of b)) hp (omega arith) hp.high;
  position_sound = hb;
  debt = λ k. ground arith;
}

-- Apply conserves money on every branch: for a sound position, a positive payment in its currency
-- and any policy, known or not, it returns (as long as the advance credit and the payment together
-- fit in int64); the split totals exactly the payment; the position stays sound; each debt has
-- fallen by exactly what the split says was applied to it and the advance credit has grown by what
-- was parked; and ErrUnknownPolicy is signalled exactly when the policy is not known.
pub apply-Accounted :
    (b : Buckets) (payment : Amount) (p : AllocationPolicy)
    → IsPosition (currency_of b).code b
    → IsSound (currency_of b).code payment
    → 0 < value payment
    → value b.credit + value payment ≤ max_int64
    → (r : Interpreted) × (apply b payment p ≡ ok r)
      × Accounted b (value payment) r
      × (r.policy_unknown ≡ not (is_known p))
unfolding apply
apply-Accounted b payment p hb hp positive fits =
    let same : text_eq payment.cur.code (currency_of b).code ≡ true =
      rw hp.in_code (text_eq_refl (currency_of b).code) in
    let paid : leb_ℤ payment.minor (pos 0) ≡ false = ground arith in
    elim (Bool-cases (is_known p)) [
      | inl known ↦
          let (t, run, inv) =
            settle_all-IsSettling (currency_of b).code b (value payment) p.sequence
              (first_round b payment) (first_round-IsSettling b payment hb hp) in
          rw (same, paid, known, run) (finished b (value payment) t inv fits p)
      | inr unknown ↦ (
        not_applied b payment,
        rw (same, paid, unknown),
        not_applied-Accounted b payment hb hp,
        rw unknown,
      )
    ]
