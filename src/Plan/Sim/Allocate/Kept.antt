-- ===== src/Plan/Sim/Allocate/Kept.antt =====
-- pkg/core/plan/sim.go and cash_routing.go: an allocation and a routing conserve the cash of a run.
use marumbot.Money.Amount.Residue.{zero_residue, residue, modulus, add-residue, sub-residue}
use marumbot.Prelude.{
  ap, ℕ, ◌+◌, ◌%◌, ◌≡◌, refl, ◌∙◌, arith, Bool, true, not, ◌&&◌, ◌||◌, List, [], ◌∷◌, Option, none,
  some, ok, Ensures, ensures_ok, ensures_panic, if-Ensures, Ensures-map, ◌>>=◌, >>=-known, >>=-any,
  if◌then◌else◌,
}
use marumbot.Money.Amount.{zero_amount, Amount, add, sub}
use marumbot.Prelude.Int.{ℤ, pos, negsuc, leb_ℤ}
use marumbot.Date.Calendar.{Date}
use marumbot.Plan.State.{Sim, LoanState, CashBucket, loan_at, put_loan, least}
use marumbot.Plan.Quote.{Quote, quote}
use marumbot.Plan.Obligation.{refresh}
use marumbot.Plan.Sim.Payment.{prepay}
use marumbot.Plan.Sim.Payment.Kept.{prepay-Keeps}
use marumbot.Plan.Sim.Reserve.{optional_cash, waits}
use marumbot.Plan.Sim.Allocate.{
  pay_routed, routed_cash, route_loan, route_found, route_released, woken, route_bucket,
  route_buckets, route_cash, pay_or_hold, allocate_loan, allocate_order, allocate,
}
use marumbot.Plan.Sim.Worth.{
  Keeps, Keeps-refl, Keeps-trans, worth, Moves, Conserves, Conserves-refl, Keeps-Conserves,
  >>=-Conserves, sum_buckets, rest,
}

stays : (s : Sim) (b : CashBucket) → Moves s b (s, b)
stays s b = record { moved = refl; same_rest = refl }

pay_routed-Moves :
    (s : Sim) (b : CashBucket) (i : ℕ) (l : LoanState) (on : Date) (early settled : Bool)
    (q : Quote)
    → Ensures (Moves s b) (pay_routed s b i l on early settled q)
unfolding pay_routed
pay_routed-Moves s b i l on early settled q =
    if-Ensures (leb_ℤ q.outflow.minor (pos 0)) (λ _. ensures_ok _ (stays s b))
      λ _. >>=-any (waits s q) λ later.
        if-Ensures later (λ _. ensures_ok _ (stays s b))
          λ _. >>=-known (sub-residue b.remaining q.outflow) λ left hl.
            >>=-known (add-residue s.cash q.outflow) λ cash hc.
              >>=-known (prepay-Keeps (record s { cash = cash }) i l on q early) λ s' h.
                >>=-any (loan_at s' i) λ l'. >>=-known (refreshed-Keeps s' l') λ s'' k.
                  let kept = Keeps-trans h k in
                  let same = kept.same_worth in
                  ensures_ok _ (record { moved = omega arith; same_rest = kept.same_rest })
  where
    refreshed-Keeps :
        (t : Sim) (l' : LoanState)
        → Ensures (Keeps t) (
            if settled && not l'.closed
            then refresh l' >>= (λ fresh. ok (put_loan t i fresh))
            else ok t)
    refreshed-Keeps t l' =
        if-Ensures (settled && not l'.closed)
          (λ _.
            >>=-any (refresh l')
              λ fresh. ensures_ok _ (record { same_worth = refl; same_rest = refl }))
          (λ _. ensures_ok _ (Keeps-refl t))

routed_cash-restores :
    (s : Sim) (b : CashBucket) (on : Date)
    → Ensures
        (λ r. residue r.1.minor % modulus ≡ residue s.cash.minor % modulus)
        (routed_cash s b on)
unfolding routed_cash
routed_cash-restores s b on = >>=-known (add-residue s.cash b.remaining) λ cash hc.
    >>=-any (optional_cash (record s { cash = cash }) on) λ free.
      >>=-known (sub-residue cash b.remaining)
        λ restored hr. >>=-any (least free b.remaining) λ available. ensures_ok _ (omega arith)

route_loan-Moves :
    (s : Sim) (b : CashBucket) (on : Date) (due_loan : Option ℕ) (i : ℕ) (l : LoanState)
    → Ensures (Moves s b) (route_loan s b on due_loan i l)
unfolding route_loan
route_loan-Moves s b on due_loan i l = search (if-Ensures, stayed, spent) depth 4
  where
    stayed : Ensures (Moves s b) (ok (s, b))
    stayed = ensures_ok _ (stays s b)

    paid :
        (s' : Sim) (early settled : Bool) (cash : Amount)
        → (worth s' ≡ worth s)
        → (rest s' ≡ rest s)
        → Ensures (Moves s b) (
            if leb_ℤ cash.minor (pos 0)
            then ok (s', b)
            else (quote s.cur l on cash >>= λ q.
                pay_routed (put_loan s' i q.0) b i q.0 on early settled q.1))
    paid s' early settled cash same same_rest =
        if-Ensures (leb_ℤ cash.minor (pos 0))
          (λ _. ensures_ok _ (record { moved = omega arith; same_rest = same_rest }))
          (λ _. >>=-any (quote s.cur l on cash) λ q.
            Ensures-map _
              (λ r m.
                let moved = m.moved in
                record { moved = omega arith; same_rest = m.same_rest ∙ same_rest })
              (pay_routed-Moves (put_loan s' i q.0) b i q.0 on early settled q.1))

    spent :
        (early settled : Bool)
        → Ensures (Moves s b) (
            routed_cash s b on >>= λ cash.
            let s' = record s { cash = cash.1 } in
            if leb_ℤ cash.0.minor (pos 0)
            then ok (s', b)
            else (quote s.cur l on cash.0 >>= λ q.
                pay_routed (put_loan s' i q.0) b i q.0 on early settled q.1))
    spent early settled =
        >>=-known (routed_cash-restores s b on)
          λ cash h. paid (record s { cash = cash.1 }) early settled cash.0 (omega arith) refl

route_released-Moves :
    (s : Sim) (b : CashBucket) (on : Date) (due_loan : Option ℕ)
    → Ensures (Moves s b) (route_released s b on due_loan)
unfolding route_released route_found
route_released-Moves s b on due_loan = search (if-Ensures, pooled, stayed, found)
  where
    pooled : Ensures (Moves s b) (
        add s.cash b.remaining >>= λ cash.
        ok (record s { cash = cash }, record b { remaining = zero_amount s.cur }))
    pooled = >>=-known (add-residue s.cash b.remaining) λ cash h.
        let nothing = zero_residue in
        ensures_ok _ (record { moved = omega arith; same_rest = refl })

    stayed : Ensures (Moves s b) (ok (s, b))
    stayed = ensures_ok _ (stays s b)

    found : (at : Option ℕ) → Ensures (Moves s b) (route_found s b on due_loan at)
    found none = stayed
    found (some i) = >>=-any (loan_at s i) λ l. route_loan-Moves s b on due_loan i l

route_bucket-Moves :
    (s : Sim) (b : CashBucket) (on : Date) (due_loan : Option ℕ)
    → Ensures (Moves s b) (route_bucket s b on due_loan)
unfolding route_bucket
route_bucket-Moves s b on due_loan = search (if-Ensures, ensures_ok, same, released) depth 6
  where
    same : (d : Date) (k : Bool) → Moves s b (s, record b { wake = d; released = k })
    same d k = record { moved = refl; same_rest = refl }

    released :
        Ensures (Moves s b) (route_released s (record (woken b on) { released = true }) on due_loan)
    released =
        Ensures-map _ (λ r m. record { moved = m.moved; same_rest = m.same_rest })
          (route_released-Moves s (record (woken b on) { released = true }) on due_loan)

-- The buckets and a state, after the loop.
record MovesAll (s : Sim) (bs : List CashBucket) (r : Sim × List CashBucket) : Type 0 where
  moved : (worth r.0 + sum_buckets r.1) % modulus ≡ (worth s + sum_buckets bs) % modulus
  same_rest : rest r.0 ≡ rest s

route_buckets-MovesAll :
    (s : Sim) (bs : List CashBucket) (on : Date) (due_loan : Option ℕ)
    → Ensures (MovesAll s bs) (route_buckets s bs on due_loan)
unfolding route_buckets
route_buckets-MovesAll s [] on due_loan = ensures_ok _ (record { moved = refl; same_rest = refl })
route_buckets-MovesAll s (b ∷ bs) on due_loan =
    >>=-known (route_bucket-Moves s b on due_loan) λ one h.
      >>=-known (route_buckets-MovesAll one.0 bs on due_loan) λ others k.
        let first = h.moved in
        let second = k.moved in
        ensures_ok _ (record { moved = omega arith; same_rest = k.same_rest ∙ h.same_rest })

-- Routing moves cash between the buckets, the pool and the lenders: the sum stays.
pub route_cash-Conserves :
    (s : Sim) (on : Date) (due_loan : Option ℕ) → Ensures (Conserves s) (route_cash s on due_loan)
unfolding route_cash
route_cash-Conserves s on due_loan =
    >>=-known (route_buckets-MovesAll s s.cash_buckets on due_loan) λ r h.
      ensures_ok _
        (record { same_total = h.moved; same_terms = ap (λ x. (x.1, x.2, x.3)) h.same_rest })

pay_or_hold-Keeps :
    (s : Sim) (i : ℕ) (l : LoanState) (on : Date) (q : Quote)
    → Ensures (Keeps s) (pay_or_hold s i l on q)
unfolding pay_or_hold
pay_or_hold-Keeps s i l on q = search (if-Ensures, >>=-any, ensures_ok, put-Keeps, paid)
  where
    put-Keeps : (l' : LoanState) → Keeps s (put_loan s i l')
    put-Keeps l' = record { same_worth = refl; same_rest = refl }

    paid : Ensures (Keeps s) (prepay s i l on q true)
    paid = prepay-Keeps s i l on q true

allocate_loan-Keeps :
    (s : Sim) (on : Date) (surplus : Amount) (i : ℕ) (l : LoanState)
    → Ensures (λ r. Keeps s r.0) (allocate_loan s on surplus i l)
unfolding allocate_loan
allocate_loan-Keeps s on surplus i l =
    if-Ensures (l.closed || l.pos.optional_excluded || leb_ℤ surplus.minor (pos 0))
      (λ _. ensures_ok _ (Keeps-refl s))
      λ _. >>=-any (quote s.cur l on surplus) λ answer.
        let s' = put_loan s i answer.0 in
        let put : Keeps s s' = record { same_worth = refl; same_rest = refl } in
        if-Ensures (leb_ℤ answer.1.outflow.minor (pos 0)) (λ _. ensures_ok _ put)
          λ _. >>=-any (waits s' answer.1) λ later.
            if-Ensures later (λ _. ensures_ok _ put)
              λ _. >>=-known (pay_or_hold-Keeps s' i answer.0 on answer.1) λ s'' h.
                >>=-any (sub surplus answer.1.outflow) λ left. ensures_ok _ (Keeps-trans put h)

allocate_order-Keeps :
    (s : Sim) (on : Date) (surplus : Amount) (order : List ℤ)
    → Ensures (Keeps s) (allocate_order s on surplus order)
unfolding allocate_order
allocate_order-Keeps s on surplus [] = ensures_ok _ (Keeps-refl s)
allocate_order-Keeps s on surplus (negsuc i ∷ order) = ensures_panic
allocate_order-Keeps s on surplus (pos i ∷ order) = >>=-any (loan_at s i) λ l.
    >>=-known (allocate_loan-Keeps s on surplus i l)
      λ r h. Ensures-map _ (λ t. Keeps-trans h) (allocate_order-Keeps r.0 on r.1 order)

-- An allocation conserves the cash of a run, the buckets with it.
pub allocate-Conserves : (s : Sim) (on : Date) → Ensures (Conserves s) (allocate s on)
unfolding allocate
allocate-Conserves s on =
    >>=-Conserves s (route_cash s on none) _ (route_cash-Conserves s on none) λ t.
      if-Ensures t.policy.required_only (λ _. ensures_ok _ (Conserves-refl t))
        λ _. >>=-any (optional_cash t on) λ surplus.
          if-Ensures (leb_ℤ surplus.minor (pos 0)) (λ _. ensures_ok _ (Conserves-refl t))
            λ _.
              Ensures-map _ (λ u. Keeps-Conserves)
                (allocate_order-Keeps t on surplus t.policy.order)
