-- ===== src/Plan/Sim/Accepted/Splits.antt =====
-- pkg/core/plan/cash_routing.go: what an accepted split is, in exact numbers.
use marumbot.Prelude.{
  ok, if◌then◌else◌, ◌||◌, ◌≡◌, refl, sym, ◌∙◌, ap, subst, arith, Bool, false, not, All, List, [],
  ◌∷◌, Option, none, some, unsupported, Ensures, ensures_ok, ensures_err, if-Ensures, Ensures-map,
  >>=-known, >>=-any, Text, text_eq,
}
use marumbot.Prelude.Int.{ℤ, pos, eq_ℤ, ltb_ℤ, ◌+ℤ◌, ◌<ℤ◌, int_laws}
use marumbot.Prelude.Int64.{in_int64}
use marumbot.Money.Currency.{Currency, eq_of_currency_eq}
use marumbot.Money.Amount.{Amount, add, cmp, zero_amount}
use marumbot.Money.Amount.Exact.{IsAmount, add-exact, exact}
use marumbot.Plan.Input.{PlanInput, CashEvent, CashRouting, CashSplit}
use marumbot.Plan.State.{or_zero}
use marumbot.Plan.Sim.Accepted.{
  gates_fail, check_target, retained, event_fails, part_fails, is_among, validate_ids, sum_splits,
  check_splits, check_routing, routing_is_set, check_events, any_routing, validate_cash_routing,
}
use marumbot.Plan.Sim.Accepted.Fitting.{cmp-same}

-- The exact sum of the parts of a split.
abbrev pub sum_of_parts : List CashSplit → ℤ
sum_of_parts [] = pos 0
sum_of_parts (part ∷ parts) = part.amount.minor +ℤ sum_of_parts parts

-- No two parts name one loan.
abbrev pub Distinct : List CashSplit → Type 0
Distinct [] = Unit
Distinct (part ∷ parts) = All (λ q. text_eq q.loan_id part.loan_id ≡ false) parts × Distinct parts

-- The parts of a split: each a positive sum in this currency, for a loan of its own.
pub record HasParts (cur : Currency) (parts : List CashSplit) : Type 0 where
  pub positive : All (λ p. pos 0 <ℤ p.amount.minor) parts
  pub one_currency : All (λ p. p.amount.cur ≡ cur) parts
  pub distinct : Distinct parts

-- A receipt that is split is split into such parts, whose exact sum it is.
abbrev pub IsSplit : Currency → CashEvent → List CashSplit → Type 0
IsSplit cur e [] = Unit
IsSplit cur e (part ∷ parts) =
    HasParts cur (part ∷ parts) × (sum_of_parts (part ∷ parts) ≡ e.amount.minor)

abbrev SplitOf : Currency → CashEvent → Option CashRouting → Type 0
SplitOf cur e none = Unit
SplitOf cur e (some r) = IsSplit cur e r.splits

abbrev pub IsRouted : Currency → CashEvent → Type 0
IsRouted cur e = SplitOf cur e e.routing

-- Every part an int64.
abbrev InRange : Option CashRouting → Type 0
InRange none = Unit
InRange (some r) = All (λ p. IsAmount p.amount) r.splits

abbrev pub HasInt64 : CashEvent → Type 0
HasInt64 e = InRange e.routing

add-Ensures :
    (a b : Amount)
    → IsAmount a
    → IsAmount b
    → a.cur ≡ b.cur
    → Ensures (λ c. (c.minor ≡ a.minor +ℤ b.minor) × IsAmount c × (c.cur ≡ a.cur)) (add a b)
add-Ensures a b ha hb e = subst (Ensures _) (sym (add-exact a b ha hb (ap (λ c. c.code) e))) fitting
  where
    fitting :
        Ensures
          (λ c. (c.minor ≡ a.minor +ℤ b.minor) × IsAmount c × (c.cur ≡ a.cur))
          (exact (a.minor +ℤ b.minor) a.cur)
    fitting =
        if-Ensures (in_int64 (a.minor +ℤ b.minor)) (λ h. ensures_ok _ (refl, ground arith, refl))
          (λ _. ensures_err _)

-- What the tests of one part let through.
record IsPart (cur : Currency) (seen : List Text) (part : CashSplit) : Type 0 where
  more_than_zero : pos 0 <ℤ part.amount.minor
  same_currency : part.amount.cur ≡ cur
  unseen : is_among part.loan_id seen ≡ false

part_fails-IsPart :
    (cur : Currency) (seen : List Text) (part : CashSplit)
    → part_fails cur seen part ≡ false
    → IsPart cur seen part
unfolding part_fails
part_fails-IsPart cur seen part h = record {
  more_than_zero = ground arith;
  same_currency = eq_of_currency_eq part.amount.cur cur (ground arith);
  unseen = ground arith;
}

-- The parts that a loop over them has seen to be fit.
record Seen (cur : Currency) (seen : List Text) (sum : ℤ) (parts : List CashSplit) (r : Amount)
    : Type 0 where
  exact_sum : r.minor ≡ sum +ℤ sum_of_parts parts
  fit : HasParts cur parts
  unseen : All (λ p. is_among p.loan_id seen ≡ false) parts

add_assoc_ℤ : (a b c : ℤ) → a +ℤ b +ℤ c ≡ a +ℤ (b +ℤ c)
add_assoc_ℤ a b c = omega int_laws

no_more : (z : ℤ) → pos 0 +ℤ z ≡ z
no_more z = omega int_laws

either_false : (x y : Bool) → (x || y) ≡ false → (x ≡ false) × (y ≡ false)
either_false x y h = (ground arith, ground arith)

apart :
    (id : Text) (seen : List Text) (parts : List CashSplit)
    → All (λ p. is_among p.loan_id (id ∷ seen) ≡ false) parts
    → All (λ p. text_eq p.loan_id id ≡ false) parts
      × All (λ p. is_among p.loan_id seen ≡ false) parts
unfolding is_among
apart id seen [] h = (tt, tt)
apart id seen (p ∷ ps) h =
    let (rest, others) = apart id seen ps h.1 in
    let (new_id, unseen) = either_false (text_eq p.loan_id id) (is_among p.loan_id seen) h.0 in
    ((new_id, rest), (unseen, others))

sum_splits-Seen :
    (input : PlanInput) (seen : List Text) (sum : Amount) (parts : List CashSplit)
    → IsAmount sum
    → sum.cur ≡ input.cash.monthly.cur
    → All (λ p. IsAmount p.amount) parts
    → Ensures (Seen input.cash.monthly.cur seen sum.minor parts) (sum_splits input seen sum parts)
unfolding sum_splits
sum_splits-Seen input seen sum [] hs hc hp = ensures_ok _ (record {
  exact_sum = omega int_laws;
  fit = record { positive = tt; one_currency = tt; distinct = tt };
  unseen = tt;
})
sum_splits-Seen input seen sum (part ∷ parts) hs hc hp =
    let cur = input.cash.monthly.cur in
    if-Ensures (part_fails cur seen part) (λ _. ensures_err unsupported)
      λ passes.
        let one = part_fails-IsPart cur seen part passes in
        >>=-any (check_target cur input.loans part.loan_id part.amount) λ checked.
          >>=-known (add-Ensures sum part.amount hs hp.0 (hc ∙ sym one.same_currency)) λ more h.
            Ensures-map _ (λ r k. joined one more r h.0 k)
              (sum_splits-Seen input (part.loan_id ∷ seen) more parts h.1 (h.2 ∙ hc) hp.1)
  where
    joined :
        IsPart input.cash.monthly.cur seen part
        → (more r : Amount) → more.minor ≡ sum.minor +ℤ part.amount.minor
        → Seen input.cash.monthly.cur (part.loan_id ∷ seen) more.minor parts r
        → Seen input.cash.monthly.cur seen sum.minor (part ∷ parts) r
    joined one more r h k =
        let (away, others) = apart part.loan_id seen parts k.unseen in
        record {
          exact_sum =
              k.exact_sum
              ∙ ap (λ z. z +ℤ sum_of_parts parts) h
              ∙ add_assoc_ℤ sum.minor part.amount.minor (sum_of_parts parts);
          fit = record {
            positive = (one.more_than_zero, k.fit.positive);
            one_currency = (one.same_currency, k.fit.one_currency);
            distinct = (away, k.fit.distinct);
          };
          unseen = (one.unseen, others);
        }

module _ (input : PlanInput) where
  check_splits-IsSplit :
      (e : CashEvent) (splits : List CashSplit)
      → All (λ p. IsAmount p.amount) splits
      → Ensures (λ _. IsSplit input.cash.monthly.cur e splits) (check_splits input e splits)
  unfolding check_splits
  check_splits-IsSplit e [] h = ensures_ok tt tt
  check_splits-IsSplit e (part ∷ parts) h =
      let nothing = zero_amount input.cash.monthly.cur in
      >>=-known (sum_splits-Seen input [] nothing (part ∷ parts) (omega arith) refl h) λ sum k.
        >>=-known (cmp-same sum e.amount) λ order equal.
          if-Ensures (eq_ℤ order (pos 0))
            (λ same.
              ensures_ok tt
                (k.fit, sym (no_more (sum_of_parts (part ∷ parts))) ∙ sym k.exact_sum ∙ equal same))
            (λ _. ensures_err unsupported)

  check_routing-IsRouted :
      (e : CashEvent) (routing : Option CashRouting)
      → InRange routing
      → Ensures (λ _. SplitOf input.cash.monthly.cur e routing) (check_routing input e routing)
  unfolding check_routing
  check_routing-IsRouted e none h = ensures_ok tt tt
  check_routing-IsRouted e (some r) h =
      let cur = input.cash.monthly.cur in
      if-Ensures (text_eq e.id [] || gates_fail cur e r) (λ _. ensures_err unsupported)
        λ _.
          >>=-any
            (if text_eq r.loan_id []
              then ok tt
              else check_target cur input.loans r.loan_id e.amount)
            λ _. check_splits-IsSplit e r.splits h

  check_events-IsRouted :
      (seen : List Text) (opening : Amount) (es : List CashEvent)
      → All HasInt64 es
      → Ensures (λ _. All (IsRouted input.cash.monthly.cur) es) (check_events input seen opening es)
  unfolding check_events
  check_events-IsRouted seen opening [] h = ensures_ok _ tt
  check_events-IsRouted seen opening (e ∷ es) h =
      if-Ensures (event_fails input.cash.monthly.cur e seen) (λ _. ensures_err unsupported)
        λ _. >>=-any (retained input e opening) λ more.
          >>=-known (check_routing-IsRouted e e.routing h.0) λ _ here.
            Ensures-map _ (λ _ rest. (here, rest))
              (check_events-IsRouted (if text_eq e.id [] then seen else e.id ∷ seen) more es h.1)

unrouted-IsRouted :
    (cur : Currency) (es : List CashEvent) → any_routing es ≡ false → All (IsRouted cur) es
unfolding any_routing routing_is_set
unrouted-IsRouted cur [] h = tt
unrouted-IsRouted cur (e ∷ es) h =
    (no_routing e.routing (ground arith), unrouted-IsRouted cur es (ground arith))
  where
    no_routing :
        (routing : Option CashRouting) → routing_is_set routing ≡ false → SplitOf cur e routing
    no_routing none k = tt
    no_routing (some r) k = cc

-- In an input whose routing is accepted, and whose parts are int64 amounts, the parts of every split
-- are positive sums in the currency of the budget, no two of them for one loan, and their exact sum
-- is the amount of the receipt: no overflow in the check lets another sum through.
pub validate_cash_routing-IsRouted :
    (input : PlanInput)
    → All HasInt64 input.cash.lumps
    → Ensures
        (λ _. All (IsRouted input.cash.monthly.cur) input.cash.lumps)
        (validate_cash_routing input)
unfolding validate_cash_routing
validate_cash_routing-IsRouted input range =
    let cur = input.cash.monthly.cur in
    if-Ensures (not (any_routing input.cash.lumps))
      (λ e. ensures_ok tt (unrouted-IsRouted cur input.cash.lumps (ground arith)))
      λ _. >>=-any (validate_ids [] input.loans) λ _.
        >>=-known (check_events-IsRouted input [] (zero_amount cur) input.cash.lumps range)
          λ opening fits. >>=-any (cmp opening (or_zero cur input.cash.opening_cash)) λ order.
            if-Ensures (ltb_ℤ (pos 0) order) (λ _. ensures_err unsupported)
              (λ _. ensures_ok tt fits)
