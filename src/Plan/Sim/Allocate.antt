-- ===== src/Plan/Sim/Allocate.antt =====
-- pkg/core/plan/sim.go and cash_routing.go: what is paid of the cash that is free, and of the cash that
-- is meant for one loan.
pub mod Kept
use marumbot.Prelude.{
  ℕ, suc, Bool, true, false, not, ◌&&◌, ◌||◌, ◌==◌, List, [], ◌∷◌, Option, none, some, Result, ok,
  panic, ◌>>=◌, if◌then◌else◌, text_eq, Text,
}
use marumbot.Prelude.Int.{ℤ, pos, negsuc, ltb_ℤ, leb_ℤ}
use marumbot.Allocation.{
  ExcessRule, unknown_excess, reduce_principal, hold_as_advance, requires_bank_request,
}
use marumbot.Date.Calendar.{Date, before, after, is_zero, no_date}
use marumbot.Money.Amount.{Amount, add, sub, zero_amount}
use marumbot.Plan.Input.{Timing, on_due, on_receipt}
use marumbot.Plan.State.{Sim, LoanState, CashBucket, loan_at, put_loan, least}
use marumbot.Plan.Quote.{Quote, quote}
use marumbot.Plan.Obligation.{refresh}
use marumbot.Plan.Sim.Payment.{prepay}
use marumbot.Plan.Sim.Reserve.{optional_cash, waits}

is_on_receipt : Timing → Bool
is_on_receipt on_due = false
is_on_receipt on_receipt = true

unfoldable pub reduces_principal : ExcessRule → Bool
reduces_principal unknown_excess = false
reduces_principal reduce_principal = true
reduces_principal hold_as_advance = false
reduces_principal requires_bank_request = false

-- The first loan with an identifier.
find_loan : Text → ℕ → List LoanState → Option ℕ
find_loan target i [] = none
find_loan target i (l ∷ ls) =
    if text_eq l.pos.id target then some i else find_loan target (suc i) ls

-- `dueLoan`: whether the loan at an index is the one that has just been settled.
is_due_loan : Option ℕ → ℕ → Bool
is_due_loan none i = false
is_due_loan (some k) i = k == i

-- The part of one round behind the quote: nothing, or the payment of it out of the bucket.
pub pay_routed :
    Sim → CashBucket → ℕ → LoanState → Date → Bool → Bool → Quote → Result (Sim × CashBucket)
pay_routed s b i l on early settled q =
    if leb_ℤ q.outflow.minor (pos 0)
    then ok (s, b)
    else (waits s q >>= λ later.
        if later
        then ok (s, b)
        else (sub b.remaining q.outflow >>= λ left. add s.cash q.outflow >>= λ cash.
            prepay (record s { cash = cash }) i l on q early >>= λ s'. loan_at s' i >>= λ l'.
            (if settled && not l'.closed
              then (refresh l' >>= λ fresh. ok (put_loan s' i fresh))
              else ok s')
            >>= λ s''. ok (s'', record b { remaining = left })))

-- The cash that is free for the loan once the bucket is part of the pool. The pool is restored.
pub routed_cash : Sim → CashBucket → Date → Result (Amount × Amount)
routed_cash s b on = add s.cash b.remaining >>= λ cash.
    optional_cash (record s { cash = cash }) on >>= λ free. sub cash b.remaining >>= λ restored.
    least free b.remaining >>= λ available. ok (available, restored)

-- The payment to a loan out of its bucket.
pub route_loan : Sim → CashBucket → Date → Option ℕ → ℕ → LoanState → Result (Sim × CashBucket)
unfolding is_on_receipt is_due_loan routed_cash pay_routed
route_loan s b on due_loan i l =
    let settled = is_due_loan due_loan i in
    let early = not settled && is_on_receipt l.timing && before on l.due in
    if l.closed || (not early && not settled && before on l.due)
    then ok (s, b)
    else (routed_cash s b on >>= λ cash.
        let s' = record s { cash = cash.1 } in
        if leb_ℤ cash.0.minor (pos 0)
        then ok (s', b)
        else (quote s.cur l on cash.0 >>= λ q.
            pay_routed (put_loan s' i q.0) b i q.0 on early settled q.1))

pub route_found : Sim → CashBucket → Date → Option ℕ → Option ℕ → Result (Sim × CashBucket)
unfolding route_loan
route_found s b on due_loan none = ok (s, b)
route_found s b on due_loan (some i) = loan_at s i >>= λ l. route_loan s b on due_loan i l

-- A bucket that is released.
pub route_released : Sim → CashBucket → Date → Option ℕ → Result (Sim × CashBucket)
unfolding route_found find_loan
route_released s b on due_loan =
    if text_eq b.target []
    then (add s.cash b.remaining >>= λ cash.
        ok (record s { cash = cash }, record b { remaining = zero_amount s.cur }))
    else if s.policy.required_only
    then ok (s, b)
    else route_found s b on due_loan (find_loan b.target 0 s.loans)

-- The wake-up call of a bucket is over once it has come.
abbrev pub woken : CashBucket → Date → CashBucket
woken b on = record b {
  wake = if not (is_zero b.wake) && not (after b.wake on) then no_date else b.wake;
}

-- One round of the loop of `routeCash`.
pub route_bucket : Sim → CashBucket → Date → Option ℕ → Result (Sim × CashBucket)
unfolding route_released
route_bucket s b on due_loan =
    let b' = woken b on in
    if leb_ℤ b.remaining.minor (pos 0)
    then ok (s, b')
    else if before on b.until
    then ok (s, record b' { wake = b.until })
    else if not b.released && ltb_ℤ b.remaining.minor b.minimum.minor
    then ok (s, b')
    else route_released s (record b' { released = true }) on due_loan

pub route_buckets : Sim → List CashBucket → Date → Option ℕ → Result (Sim × List CashBucket)
unfolding route_bucket
route_buckets s [] on due_loan = ok (s, [])
route_buckets s (b ∷ bs) on due_loan = route_bucket s b on due_loan >>= λ one.
    route_buckets one.0 bs on due_loan >>= λ rest. ok (rest.0, one.1 ∷ rest.1)

-- `routeCash`. The buckets are read and written one after the other; no other operation on the way
-- reads them.
unfoldable pub route_cash : Sim → Date → Option ℕ → Result Sim
unfolding route_buckets
route_cash s on due_loan =
    route_buckets s s.cash_buckets on due_loan >>= λ r. ok (record r.0 { cash_buckets = r.1 })

-- The payment that a quote allows: now, or held to the due date.
pub pay_or_hold : Sim → ℕ → LoanState → Date → Quote → Result Sim
unfolding is_on_receipt reduces_principal
pay_or_hold s i l on q =
    if is_on_receipt l.timing && reduces_principal l.pos.excess && before on l.due
    then prepay s i l on q true
    else (add l.pending q.outflow >>= λ held. ok (put_loan s i (record l { pending = held })))

-- One round of the loop of `allocate`: the state, and what is left of the surplus.
pub allocate_loan : Sim → Date → Amount → ℕ → LoanState → Result (Sim × Amount)
unfolding pay_or_hold
allocate_loan s on surplus i l =
    if l.closed || l.pos.optional_excluded || leb_ℤ surplus.minor (pos 0)
    then ok (s, surplus)
    else (quote s.cur l on surplus >>= λ answer.
        let q = answer.1 in
        let s' = put_loan s i answer.0 in
        if leb_ℤ q.outflow.minor (pos 0)
        then ok (s', surplus)
        else (waits s' q >>= λ later.
            if later
            then ok (s', surplus)
            else (pay_or_hold s' i answer.0 on q >>= λ s''.
                sub surplus q.outflow >>= λ left. ok (s'', left))))

-- The loop over the order of the policy. An index that is out of range panics.
pub allocate_order : Sim → Date → Amount → List ℤ → Result Sim
unfolding allocate_loan
allocate_order s on surplus [] = ok s
allocate_order s on surplus (negsuc i ∷ order) = panic
allocate_order s on surplus (pos i ∷ order) =
    loan_at s i >>= λ l. allocate_loan s on surplus i l >>= λ r. allocate_order r.0 on r.1 order

-- `allocate`
unfoldable pub allocate : Sim → Date → Result Sim
unfolding allocate_order
allocate s on = route_cash s on none >>= λ s'.
    if s'.policy.required_only
    then ok s'
    else (optional_cash s' on >>= λ surplus.
        if leb_ℤ surplus.minor (pos 0) then ok s' else allocate_order s' on surplus s'.policy.order)
