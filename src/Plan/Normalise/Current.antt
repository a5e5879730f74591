-- ===== src/Plan/Normalise/Current.antt =====
-- pkg/core/plan/input.go: what a normalised position is, and how it is reached.
use marumbot.Prelude.{
  ◌>>=◌, [], ◌∷◌, List, if◌then◌else◌, ℕ, zero, suc, ◌+◌, ◌≤◌, ◌≡◌, refl, subst, arith, Bool, true,
  false, Result, Error, ok, err, panic, ok_injective, invalid_plan, Ensures, ensures_ok,
  ensures_err, Ensures-map, >>=-Ensures, >>=-known, Bool-cases, inl, inr,
}
use marumbot.Prelude.Int.{pos, leb_ℤ, ◌≤ℤ◌, ◌<ℤ◌}
use marumbot.Date.Calendar.{Date, before}
use marumbot.Amortisation.Dates.{remaining_dates}
use marumbot.Amortisation.Build.{build_contract}
use marumbot.Amortisation.Rows.{Row, Schedule}
use marumbot.Plan.Input.{Position}
use marumbot.Plan.Normalise.{
  first_before, is_behind, assume_paid, after_row, advance, normalise_position,
}

-- A position of which no instalment due before the valuation date is outstanding: nothing is owed,
-- no date can be computed, or the first date that is left is not before it.
pub data IsUpToDate (valuation : Date) (p : Position) : Type 0 where
  settled : p.balance.minor ≤ℤ pos 0 → IsUpToDate valuation p
  undated : (e : Error) → remaining_dates p.contract p.from ≡ err e → IsUpToDate valuation p
  not_due :
      (due : Date) (dates : List Date)
      → remaining_dates p.contract p.from ≡ ok (due ∷ dates)
      → before due valuation ≡ false
      → IsUpToDate valuation p

-- An instalment outstanding: something is owed, and the first date that is left has passed.
pub record IsOutstanding (valuation : Date) (p : Position) : Type 0 where
  pub owing : pos 0 <ℤ p.balance.minor
  pub due : Date
  pub dates : List Date
  pub first_date : remaining_dates p.contract p.from ≡ ok (due ∷ dates)
  pub passed : before due valuation ≡ true

-- The position after n outstanding instalments were taken as paid, each the first row of the
-- schedule of what was then left.
pub data Advances (valuation : Date) : ℕ → Position → Position → Type 0 where
  stays : {p : Position} → Advances valuation 0 p p
  pays :
      {n : ℕ} {p q : Position} {s : Schedule} {row : Row} {rows : List Row}
      → IsOutstanding valuation p
      → build_contract p.contract p.balance p.from ≡ ok s
      → s.rows ≡ row ∷ rows
      → Advances valuation n (record p { balance = row.closing; from = row.due }) q
      → Advances valuation (suc n) p q

first_before-false :
    (valuation : Date) (p : Position) (r : Result (List Date))
    → remaining_dates p.contract p.from ≡ r
    → first_before valuation r ≡ ok false
    → IsUpToDate valuation p
unfolding first_before
first_before-false valuation p (ok []) e h = cc
first_before-false valuation p (ok (due ∷ dates)) e h = not_due due dates e (ok_injective h)
first_before-false valuation p (err x) e h = undated x e
first_before-false valuation p panic e h = cc

first_before-true :
    (valuation : Date) (p : Position) (r : Result (List Date))
    → pos 0 <ℤ p.balance.minor
    → remaining_dates p.contract p.from ≡ r
    → first_before valuation r ≡ ok true
    → IsOutstanding valuation p
unfolding first_before
first_before-true valuation p (ok []) owing e h = cc
first_before-true valuation p (ok (due ∷ dates)) owing e h = record {
  owing = owing;
  due = due;
  dates = dates;
  first_date = e;
  passed = ok_injective h;
}
first_before-true valuation p (err x) owing e h = cc
first_before-true valuation p panic owing e h = cc

-- The test of the loop, either way.
is_behind-false :
    (valuation : Date) (p : Position) → is_behind valuation p ≡ ok false → IsUpToDate valuation p
unfolding is_behind
is_behind-false valuation p h = elim (Bool-cases (leb_ℤ p.balance.minor (pos 0))) [
  | inl nothing ↦ settled (ground arith)
  | inr owing ↦ first_before-false valuation p _ refl (rw owing at h)
]

is_behind-true :
    (valuation : Date) (p : Position) → is_behind valuation p ≡ ok true → IsOutstanding valuation p
unfolding is_behind
is_behind-true valuation p h = elim (Bool-cases (leb_ℤ p.balance.minor (pos 0))) [
  | inl nothing ↦ cc (rw nothing at h)
  | inr owing ↦ first_before-true valuation p _ (ground arith) refl (rw owing at h)
]

-- A position brought up to date from n instalments already assumed, on at most `most` more.
record Arrives (valuation : Date) (p : Position) (most n : ℕ) (r : Position × ℕ) : Type 0 where
  steps : ℕ
  few : steps ≤ most
  counted : r.1 ≡ n + steps
  up_to_date : IsUpToDate valuation r.0
  advanced : Advances valuation steps p r.0

-- One instalment taken as paid.
record Paid (p q : Position) : Type 0 where
  schedule : Schedule
  row : Row
  rows : List Row
  built : build_contract p.contract p.balance p.from ≡ ok schedule
  first_row : schedule.rows ≡ row ∷ rows
  result : q ≡ record p { balance = row.closing; from = row.due }

after_row-Paid :
    (p : Position) (s : Schedule) (rows : List Row)
    → build_contract p.contract p.balance p.from ≡ ok s
    → s.rows ≡ rows
    → Ensures (Paid p) (after_row p rows)
unfolding after_row
after_row-Paid p s [] built e = ensures_err invalid_plan
after_row-Paid p s (row ∷ rows) built e =
    ensures_ok _
      (record { schedule = s; row = row; rows = rows; built = built; first_row = e; result = refl })

assume_paid-Paid : (p : Position) → Ensures (Paid p) (assume_paid p)
unfolding assume_paid
assume_paid-Paid p =
    >>=-Ensures (build_contract p.contract p.balance p.from) _
      λ s built. after_row-Paid p s s.rows built refl

advance-Arrives :
    (valuation : Date) (left n : ℕ) (p : Position)
    → Ensures (Arrives valuation p left n) (advance valuation left n p)
unfolding advance
advance-Arrives valuation zero n p = >>=-Ensures (is_behind valuation p) _ by_answer
  where
    by_answer :
        (behind : Bool)
        → is_behind valuation p ≡ ok behind
        → Ensures (Arrives valuation p 0 n) (if behind then err invalid_plan else ok (p, n))
    by_answer true e = ensures_err invalid_plan
    by_answer false e = ensures_ok _ (record {
      steps = 0;
      few = omega arith;
      counted = omega arith;
      up_to_date = is_behind-false valuation p e;
      advanced = stays;
    })
advance-Arrives valuation (suc left) n p =
    let deeper = advance-Arrives valuation left (suc n) in
    >>=-Ensures (is_behind valuation p) _ λ behind e. by_answer behind e deeper
  where
    moved_on :
        (q : Position) (r : Position × ℕ)
        → IsOutstanding valuation p
        → Paid p q
        → Arrives valuation q left (suc n) r
        → Arrives valuation p (suc left) n r
    moved_on q r due h k =
        let few = k.few in
        let counted = k.counted in
        record {
          steps = suc k.steps;
          few = omega arith;
          counted = omega arith;
          up_to_date = k.up_to_date;
          advanced =
              pays due h.built h.first_row
                (subst (λ x. Advances valuation k.steps x r.0) h.result k.advanced);
        }

    by_answer :
        (behind : Bool)
        → is_behind valuation p ≡ ok behind
        → ((q : Position)
            → Ensures (Arrives valuation q left (suc n)) (advance valuation left (suc n) q))
        → Ensures (Arrives valuation p (suc left) n) (elim behind [
          | true ↦ assume_paid p >>= λ q. advance valuation left (suc n) q
          | false ↦ ok (p, n)
        ])
    by_answer true e deeper =
        >>=-known (assume_paid-Paid p)
          λ q h. Ensures-map _ (λ r k. moved_on q r (is_behind-true valuation p e) h k) (deeper q)
    by_answer false e deeper = ensures_ok _ (record {
      steps = 0;
      few = omega arith;
      counted = omega arith;
      up_to_date = is_behind-false valuation p e;
      advanced = stays;
    })

Advances-terms :
    (valuation : Date) (n : ℕ) (p q : Position)
    → Advances valuation n p q
    → q ≡ record p { balance = q.balance; from = q.from }
Advances-terms valuation _ p _ stays = refl
Advances-terms valuation _ p q (pays {n = n} {row = row} due built first_row more) =
    Advances-terms valuation n (record p { balance = row.closing; from = row.due }) q more

-- A position brought up to date: how many instalments were assumed, that it is, how it got there,
-- and that nothing but its balance and its date has moved.
pub record IsCurrent (valuation : Date) (p : Position) (most : ℕ) (r : Position × ℕ) : Type 0 where
  pub few : r.1 ≤ most
  pub up_to_date : IsUpToDate valuation r.0
  pub advanced : Advances valuation r.1 p r.0
  pub same_terms : r.0 ≡ record p { balance = r.0.balance; from = r.0.from }

Arrives-IsCurrent :
    (valuation : Date) (p : Position) (most : ℕ) (r : Position × ℕ)
    → Arrives valuation p most 0 r
    → IsCurrent valuation p most r
Arrives-IsCurrent valuation p most r h =
    let same : h.steps ≡ r.1 = omega (arith, h.counted) in
    let steps = subst (λ n. Advances valuation n p r.0) same h.advanced in
    record {
      few = omega (arith, h.few, same);
      up_to_date = h.up_to_date;
      advanced = steps;
      same_terms = Advances-terms valuation r.1 p r.0 steps;
    }

-- Where Normalize gives a position, nothing is owed on it, or no date of it can be computed, or the
-- first date that is left is not before the valuation date. It was reached by as many assumed
-- instalments as are counted, at most three, each outstanding when it was taken as paid, with the
-- balance after the first row of the schedule of what was left and the date of that row. Nothing but
-- the balance and the date has changed.
pub normalise_position-IsCurrent :
    (valuation : Date) (p : Position)
    → Ensures (IsCurrent valuation p 3) (normalise_position valuation p)
unfolding normalise_position
normalise_position-IsCurrent valuation p =
    Ensures-map _ (Arrives-IsCurrent valuation p 3) (advance-Arrives valuation 3 0 p)
