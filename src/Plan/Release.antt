-- ===== src/Plan/Release.antt =====
-- pkg/core/plan/budget_rules_release.go: the permission that goes with a required payment.
pub mod Kept
use marumbot.Prelude.{
  unsupported, overflow, panic, invalid_plan, err, ◌||◌, Bool, not, text_eq, ◌>>=◌, if◌then◌else◌,
  ok, Text, Result,
}
use marumbot.Money.Amount.{from_minor, zero_amount, sub, cmp, Amount}
use marumbot.Plan.Rules.{roll_all, roll_percent, roll_amount, release_all}
use marumbot.Prelude.Int.{leb_ℤ, ltb_ℤ, pos, ◌*ℤ◌, ℤ}
use marumbot.Prelude.Int64.{in_int64}
use marumbot.Money.Currency.{lookup, currency_eq, Currency}
use marumbot.Plan.Shares.{whole_units}

-- The first test: the currency is known under its code, as it is.
check_known : Result Currency → Currency → Result (Unit {0})
check_known (ok known) cur = if currency_eq known cur then ok tt else err invalid_plan
check_known (err e) cur = err invalid_plan
check_known panic cur = panic

check_facts : Amount → Amount → Result (Unit {0})
check_facts before after =
    if not (currency_eq before.cur after.cur)
      || ltb_ℤ before.minor (pos 0)
      || ltb_ℤ after.minor (pos 0)
    then err invalid_plan
    else ok tt

-- The case of a percentage, in exact integers.
pub kept_share : Amount → ℤ → Currency → Result Amount
kept_share released percent cur =
    let unit = cur.settlement_unit in
    whole_units (released.minor *ℤ percent) (pos 1000000000 *ℤ unit) >>= λ units.
    let kept = units *ℤ unit in
    if ltb_ℤ released.minor kept
    then ok released
    else if not (in_int64 kept)
    then err overflow
    else ok (from_minor kept cur)

-- The switch on the rule.
pub kept_of : Text → Currency → Amount → Amount → ℤ → Result Amount
unfolding kept_share
kept_of rule cur released retain percent =
    if text_eq rule release_all
    then ok (zero_amount cur)
    else if text_eq rule roll_amount
    then (if not (currency_eq retain.cur cur) || ltb_ℤ retain.minor (pos 0)
        then err invalid_plan
        else ok retain)
    else if text_eq rule roll_percent
    then (if ltb_ℤ percent (pos 0) || ltb_ℤ (pos 1000000000) percent
        then err invalid_plan
        else kept_share released percent cur)
    else err unsupported

-- What is released beyond what is kept.
pub beyond : Amount → Amount → Result Amount
beyond released kept =
    cmp kept released >>= λ order. sub released (if ltb_ℤ (pos 0) order then released else kept)

-- `ReleasedReduction`
unfoldable pub released_reduction : Amount → Amount → Text → Amount → ℤ → Bool → Result Amount
unfolding check_known check_facts kept_of beyond
released_reduction before after rule retain percent confirmed =
    let cur = before.cur in
    check_known (lookup cur.code) cur >>= λ _. check_facts before after >>= λ _.
    if not confirmed
    then ok (zero_amount cur)
    else (cmp after before >>= λ order.
        if leb_ℤ (pos 0) order || text_eq rule roll_all
        then ok (zero_amount cur)
        else (sub before after >>= λ released.
            kept_of rule cur released retain percent >>= λ kept. beyond released kept))
