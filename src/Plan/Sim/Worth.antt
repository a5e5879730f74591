-- ===== src/Plan/Sim/Worth.antt =====
-- pkg/core/plan/sim.go: what the cash of a run is worth, modulo 2^64, and the operations that keep it.
use marumbot.Prelude.{
  ap, ℕ, ◌+◌, ◌-◌, ◌%◌, ◌≡◌, refl, ◌∙◌, List, [], ◌∷◌, Result, Ensures, ensures_ok, ensures_err,
  ensures_panic, Ensures-map, ◌>>=◌,
}
use marumbot.Money.Amount.Residue.{residue, modulus}
use marumbot.Money.Currency.{Currency}
use marumbot.Plan.Input.{PlanInput, CashEvent}
use marumbot.Plan.State.{Sim, CashBucket}

-- The free cash, what has been paid and what the household keeps, less what came in.
abbrev pub worth : Sim → ℕ
worth s =
    (residue s.cash.minor
      + residue s.res.total_paid.minor
      + residue s.res.household_cash.minor
      + (modulus - residue s.inflow.minor))
    % modulus

abbrev pub sum_buckets : List CashBucket → ℕ
sum_buckets [] = 0
sum_buckets (b ∷ bs) = residue b.remaining.minor + sum_buckets bs

-- What the operations on the free cash leave as it is.
abbrev pub rest : Sim → List CashBucket × PlanInput × Currency × List CashEvent
rest s = (s.cash_buckets, s.input, s.cur, s.lumps)

pub record Keeps (s t : Sim) : Type 0 where
  pub same_worth : worth t ≡ worth s
  pub same_rest : rest t ≡ rest s

pub Keeps-refl : (s : Sim) → Keeps s s
Keeps-refl s = record { same_worth = refl; same_rest = refl }

pub Keeps-trans : {s t u : Sim} → Keeps s t → Keeps t u → Keeps s u
Keeps-trans h k = record {
  same_worth = k.same_worth ∙ h.same_worth;
  same_rest = k.same_rest ∙ h.same_rest;
}

-- Two operations in a row.
pub >>=-Keeps :
    (s : Sim) (m : Result Sim) (f : Sim → Result Sim)
    → Ensures (Keeps s) m
    → ((t : Sim) → Ensures (Keeps t) (f t))
    → Ensures (Keeps s) (m >>= f)
>>=-Keeps s _ f (ensures_ok t h) k = Ensures-map (f t) (λ u. Keeps-trans h) (k t)
>>=-Keeps s _ f (ensures_err e) k = ensures_err e
>>=-Keeps s _ f ensures_panic k = ensures_panic

-- A bucket and a state, after a step that pays out of the bucket.
pub record Moves (s : Sim) (b : CashBucket) (r : Sim × CashBucket) : Type 0 where
  pub moved :
      (worth r.0 + residue r.1.remaining.minor) % modulus
      ≡ (worth s + residue b.remaining.minor) % modulus
  pub same_rest : rest r.0 ≡ rest s

-- All the cash of a run, that of the buckets with it, less what came in.
abbrev pub total : Sim → ℕ
total s = (worth s + sum_buckets s.cash_buckets) % modulus

abbrev pub terms : Sim → PlanInput × Currency × List CashEvent
terms s = (s.input, s.cur, s.lumps)

pub record Conserves (s t : Sim) : Type 0 where
  pub same_total : total t ≡ total s
  pub same_terms : terms t ≡ terms s

pub Conserves-refl : (s : Sim) → Conserves s s
Conserves-refl s = record { same_total = refl; same_terms = refl }

pub Conserves-trans : {s t u : Sim} → Conserves s t → Conserves t u → Conserves s u
Conserves-trans h k = record {
  same_total = k.same_total ∙ h.same_total;
  same_terms = k.same_terms ∙ h.same_terms;
}

pub Keeps-Conserves : {s t : Sim} → Keeps s t → Conserves s t
Keeps-Conserves {s} {t} h =
    let buckets : sum_buckets t.cash_buckets ≡ sum_buckets s.cash_buckets =
      ap (λ r. sum_buckets r.0) h.same_rest in
    let same : worth t ≡ worth s = h.same_worth in
    record { same_total = cc; same_terms = ap (λ r. (r.1, r.2, r.3)) h.same_rest }

-- Two operations in a row.
pub >>=-Conserves :
    (s : Sim) (m : Result Sim) (f : Sim → Result Sim)
    → Ensures (Conserves s) m
    → ((t : Sim) → Ensures (Conserves t) (f t))
    → Ensures (Conserves s) (m >>= f)
>>=-Conserves s _ f (ensures_ok t h) k = Ensures-map (f t) (λ u. Conserves-trans h) (k t)
>>=-Conserves s _ f (ensures_err e) k = ensures_err e
>>=-Conserves s _ f ensures_panic k = ensures_panic
