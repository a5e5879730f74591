-- ===== src/Plan/Release/Kept.antt =====
-- What `ReleasedReduction` takes off a limit, under each of its rules.
use marumbot.Money.Amount.Numbers.{sub_numbers, order_of-least, order_of-more, cmp_numbers, of}
use marumbot.Prelude.{
  text_eq_refl, sym, text_eq, subst, ◌<◌, Text, Result, inr, ap, overflow, err, inl, Bool-cases,
  false, not, if◌then◌else◌, true, refl, ◌∙◌, arith, ◌>>=◌, ltb, ◌*◌, leb, ◌-◌, ok, ◌≤◌, ℕ, ◌≡◌,
}
use marumbot.Plan.Rules.{roll_percent, roll_amount, release_all, roll_all}
use marumbot.Prelude.Int.{pos_part, ◌*ℤ◌, ltb_ℤ, pos, ℤ}
use marumbot.Plan.Release.{kept_of, released_reduction, beyond, kept_share}
use marumbot.Money.Currency.{currency_eq_refl, lookup, Currency}
use marumbot.Plan.Shares.{whole_units}
use marumbot.Money.Accrual.Exact.{*ℤ_pos}
use marumbot.Plan.Shares.Nearest.{whole_units-IsRounded}
use marumbot.Money.Amount.{from_minor, Amount}
use marumbot.Prelude.Int64.{in_int64, max_int64}
use marumbot.Money.Rounding.{half_up}
use marumbot.Money.Rounding.Nearest.{IsRounded}

module _ (gap : ℕ) (cur : Currency) (small : gap ≤ max_int64) where
  -- What is kept is at most what is released.
  beyond-numbers : (kept : ℕ) → beyond (of gap cur) (of kept cur) ≡ ok (of (gap - kept) cur)
  unfolding beyond
  beyond-numbers kept = elim (Bool-cases (ltb gap kept)) [
    | inl more ↦
        rw
          (
            cmp_numbers kept gap cur,
            order_of-more kept gap,
            more,
            sub_numbers gap gap cur (omega arith) small,
          )
          (ap (λ n. ok (of n cur)) (none_left more))
    | inr fits ↦
        rw (cmp_numbers kept gap cur, order_of-more kept gap, fits)
          (sub_numbers gap kept cur (within fits) small)
  ]
    where
      none_left : ltb gap kept ≡ true → gap - gap ≡ gap - kept
      none_left h = ground arith

      within : ltb gap kept ≡ false → kept ≤ gap
      within h = ground arith

  kept_share-IsRounded :
      (percent unit : ℕ)
      → 1 ≤ unit
      → cur.settlement_unit ≡ pos unit
      → (k : ℕ) × IsRounded half_up (gap * percent) (1000000000 * unit) k
        × ((kept_share (of gap cur) (pos percent) cur >>= λ kept. beyond (of gap cur) kept)
            ≡ ok (of (gap - k * unit) cur))
  unfolding kept_share
  kept_share-IsRounded percent unit low e =
      let (k, runs, nearest) =
        whole_units-IsRounded (gap * percent) (1000000000 * unit) (grind (arith, low)) in
      (
        k,
        nearest,
        subst
            (λ u.
              (share_with u >>= λ kept. beyond (of gap cur) kept) ≡ ok (of (gap - k * unit) cur))
            (sym e)
            (rw (*ℤ_pos gap percent, *ℤ_pos 1000000000 unit, runs, *ℤ_pos k unit)
              (either (k * unit))),
      )
    where
      share_with : ℤ → Result Amount
      share_with u = whole_units (pos gap *ℤ pos percent) (pos 1000000000 *ℤ u) >>= λ units.
          (if ltb_ℤ (pos gap) (units *ℤ u)
            then ok (of gap cur)
            else if not (in_int64 (units *ℤ u))
            then err overflow
            else ok (from_minor (units *ℤ u) cur))

      either :
          (kept : ℕ)
          → ((if ltb_ℤ (pos gap) (pos kept)
                then ok (of gap cur)
                else if not (in_int64 (pos kept))
                then err overflow
                else ok (from_minor (pos kept) cur))
              >>= λ kept. beyond (of gap cur) kept)
            ≡ ok (of (gap - kept) cur)
      either kept = elim (Bool-cases (ltb_ℤ (pos gap) (pos kept))) [
        | inl more ↦ rw more (beyond-numbers gap ∙ ap (λ n. ok (of n cur)) (none_left more))
        | inr fits ↦ rw (fits, in_range fits) (beyond-numbers kept)
      ]
        where
          none_left : ltb_ℤ (pos gap) (pos kept) ≡ true → gap - gap ≡ gap - kept
          none_left h = ground arith

          in_range : ltb_ℤ (pos gap) (pos kept) ≡ false → in_int64 (pos kept) ≡ true
          in_range h = ground (arith, small)

not_negative : (n : ℕ) → ltb_ℤ (pos n) (pos 0) ≡ false
not_negative n = ground arith

module _ (b a : ℕ) (cur : Currency) (retain : Amount) (percent : ℤ)
    (known : lookup cur.code ≡ ok cur) where
  unconfirmed :
      (rule : Text)
      → released_reduction (of b cur) (of a cur) rule retain percent false ≡ ok (of 0 cur)
  unfolding released_reduction
  unconfirmed rule = rw (known, currency_eq_refl cur, not_negative b, not_negative a) refl

  no_reduction :
      (rule : Text)
      → b ≤ a
      → released_reduction (of b cur) (of a cur) rule retain percent true ≡ ok (of 0 cur)
  unfolding released_reduction
  no_reduction rule le =
      rw
        (
          known,
          currency_eq_refl cur,
          not_negative b,
          not_negative a,
          cmp_numbers a b cur,
          order_of-least a b,
          at_least b a le,
        )
        refl
    where
      at_least : (b a : ℕ) → b ≤ a → leb b a ≡ true
      at_least b a le = ground arith

  rolled :
      a < b → released_reduction (of b cur) (of a cur) roll_all retain percent true ≡ ok (of 0 cur)
  unfolding released_reduction
  rolled less =
      rw
        (
          known,
          currency_eq_refl cur,
          not_negative b,
          not_negative a,
          cmp_numbers a b cur,
          order_of-least a b,
          below less,
          text_eq_refl roll_all,
        )
        refl
    where
      below : a < b → leb b a ≡ false
      below h = ground arith

  -- A confirmed reduction, under a rule other than roll_all.
  opened :
      (rule : Text)
      → a < b
      → b ≤ max_int64
      → text_eq rule roll_all ≡ false
      → released_reduction (of b cur) (of a cur) rule retain percent true ≡ (
          kept_of rule cur (of (b - a) cur) retain percent >>= λ kept. beyond (of (b - a) cur) kept)
  unfolding released_reduction
  opened rule less small other =
      rw
        (
          known,
          currency_eq_refl cur,
          not_negative b,
          not_negative a,
          cmp_numbers a b cur,
          order_of-least a b,
          below b a less,
          other,
          sub_numbers b a cur (omega (arith, less)) small,
        )
        refl
    where
      below : (b a : ℕ) → a < b → leb b a ≡ false
      below b a h = ground arith

module _ (cur : Currency) (released : Amount) where
  kept_of-release_all :
      (retain : Amount) (percent : ℤ)
      → kept_of release_all cur released retain percent ≡ ok (of 0 cur)
  unfolding kept_of text_eq
  kept_of-release_all retain percent = refl

  kept_of-roll_amount :
      (retained : ℕ) (percent : ℤ)
      → kept_of roll_amount cur released (of retained cur) percent ≡ ok (of retained cur)
  unfolding kept_of text_eq
  kept_of-roll_amount retained percent = rw (currency_eq_refl cur, not_negative retained) refl

  kept_of-roll_percent :
      (retain : Amount) (percent : ℕ)
      → percent ≤ 1000000000
      → kept_of roll_percent cur released retain (pos percent)
        ≡ kept_share released (pos percent) cur
  unfolding kept_of text_eq
  kept_of-roll_percent retain percent most = rw (not_negative percent, in_percent percent most) refl
    where
      in_percent : (n : ℕ) → n ≤ 1000000000 → ltb_ℤ (pos 1000000000) (pos n) ≡ false
      in_percent n h = ground arith

less_none : (n : ℕ) → n - 0 ≡ n
less_none n = omega arith

no_other_name :
    (text_eq release_all roll_all ≡ false)
    × (text_eq roll_amount roll_all ≡ false)
    × (text_eq roll_percent roll_all ≡ false)
unfolding text_eq
no_other_name = (refl, refl, refl)

-- What is taken off a limit for a required payment that falls from b to a minor units, where `kept`
-- minor units may be kept.
abbrev pub IsRelease : ℕ → ℕ → Currency → Amount → ℤ → Type 0
IsRelease b a cur retain percent =
    let run : Text → Result Amount =
      λ rule. released_reduction (of b cur) (of a cur) rule retain percent true in
    (run roll_all ≡ ok (of 0 cur))
    × (run release_all ≡ ok (of (b - a) cur))
    × (run roll_amount ≡ ok (of (b - a - pos_part retain.minor) cur))
    × ((k : ℕ) × IsRounded half_up ((b - a) * pos_part percent)
          (1000000000 * pos_part cur.settlement_unit) k
        × (run roll_percent ≡ ok (of (b - a - k * pos_part cur.settlement_unit) cur)))

-- ReleasedReduction on a required payment that has fallen from b to a minor units, in a currency of
-- the registry under its own code: nothing where the fall is not confirmed, whatever the rule; and where
-- it is confirmed, nothing under roll_all, all of the fall under release_all, the fall less the
-- retained amount and never less than nothing under roll_amount, and the fall less its percentage,
-- rounded half up to whole settlement units, under roll_percent. The retained amount is an amount of
-- that currency that is not negative, and the percentage is at most 100.
pub released_reduction-IsRelease :
    (b a unit retained percent : ℕ) (cur : Currency)
    → lookup cur.code ≡ ok cur
    → cur.settlement_unit ≡ pos unit
    → 1 ≤ unit
    → a < b
    → b ≤ max_int64
    → percent ≤ 1000000000
    → ((rule : Text)
        → released_reduction (of b cur) (of a cur) rule (of retained cur) (pos percent) false
          ≡ ok (of 0 cur))
      × IsRelease b a cur (of retained cur) (pos percent)
released_reduction-IsRelease b a unit retained percent cur known eu low less small most =
    let retain = of retained cur in
    let p = pos percent in
    let gap = of (b - a) cur in
    let gap_small : b - a ≤ max_int64 = omega (arith, small) in
    let (not_all, not_amount, not_percent) = no_other_name in
    let (k, nearest, share) = kept_share-IsRounded (b - a) cur gap_small percent unit low eu in
    (
      unconfirmed b a cur retain p known,
      (
        rolled b a cur retain p known less,
        opened b a cur retain p known release_all less small not_all
            ∙ rw (kept_of-release_all cur gap retain p) (
                beyond-numbers (b - a) cur gap_small 0
                ∙ ap (λ n. ok (of n cur)) (less_none (b - a))),
        opened b a cur retain p known roll_amount less small not_amount
            ∙ rw (kept_of-roll_amount cur gap retained p)
                (beyond-numbers (b - a) cur gap_small retained),
        (
          k,
          subst (λ u. IsRounded half_up ((b - a) * percent) (1000000000 * pos_part u) k) (sym eu)
              nearest,
          opened b a cur retain p known roll_percent less small not_percent
              ∙ ap (λ r. r >>= λ kept. beyond gap kept)
                  (kept_of-roll_percent cur gap retain percent most)
              ∙ share
              ∙ ap (λ u. ok (of (b - a - k * pos_part u) cur)) (sym eu),
        ),
      ),
    )
