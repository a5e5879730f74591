-- ===== src/Plan/Sim/Start/Opening.antt =====
-- pkg/core/plan/sim.go: a run starts with the opening cash, part of it in buckets.
use marumbot.Prelude.Int.{ℤ}
use marumbot.Prelude.{
  ◌≡◌, refl, ◌∙◌, ap, subst, sym, arith, Bool, true, false, All, List, [], ◌∷◌, ◌++◌, Option, none,
  some, invalid_plan, Ensures, ensures_ok, ensures_err, if-Ensures, Ensures-map, >>=-known, >>=-any,
  if◌then◌else◌,
}
use marumbot.Date.Calendar.{Date}
use marumbot.Money.Amount.{Amount}
use marumbot.Money.Amount.Residue.{residue, residue_lt, zero_residue, sub-residue}
use marumbot.Plan.Input.{PlanInput, PlanPolicy, CashEvent}
use marumbot.Plan.Outcome.{Action}
use marumbot.Plan.State.{Sim, LoanState, or_zero}
use marumbot.Plan.Sim.Routed.Sums.{Fits, add_routed-Gains}
use marumbot.Plan.Sim.Start.{
  start_loans, start_lump, start_lumps, empty_run, dated, with_dates, start,
}
use marumbot.Plan.Sim.Cycle.{first_income}
use marumbot.Plan.Sim.Worth.{total}

abbrev pub opening_of : PlanInput → Amount
opening_of input = or_zero input.cash.monthly.cur input.cash.opening_cash

-- A state of the start of a run.
pub record Opens (input : PlanInput) (s : Sim) : Type 0 where
  pub has_opening : total s ≡ residue (opening_of input).minor
  pub same_input : s.input ≡ input
  pub same_currency : s.cur ≡ input.cash.monthly.cur
  pub lumps_fit : All Fits s.lumps

append-Fits :
    (es : List CashEvent) (e : CashEvent) → All Fits es → Fits e → All Fits (es ++ (e ∷ []))
append-Fits [] e fits fit = (fit, tt)
append-Fits (d ∷ es) e fits fit = (fits.0, append-Fits es e fits.1 fit)

kept_if-Fits :
    (b : Bool) (es : List CashEvent) (e : CashEvent)
    → All Fits es
    → Fits e
    → All Fits (if b then es else es ++ (e ∷ []))
kept_if-Fits true es e fits fit = fits
kept_if-Fits false es e fits fit = append-Fits es e fits fit

start_lump-Opens :
    (input : PlanInput) (s : Sim) (e : CashEvent)
    → Opens input s
    → Fits e
    → Ensures (Opens input) (start_lump s e)
unfolding start_lump
start_lump-Opens input s e h fit =
    if-Ensures e.from_opening
      (λ _. >>=-known (sub-residue s.cash e.amount) λ cash hc.
        let before = h.has_opening in
        Ensures-map _
          (λ t g.
            let gained = g.gained in
            let lumps = ap (λ r. r.2) g.same_terms in
            record {
              has_opening = omega (arith, residue_lt (opening_of input).minor);
              same_input = ap (λ r. r.0) g.same_terms ∙ h.same_input;
              same_currency = ap (λ r. r.1) g.same_terms ∙ h.same_currency;
              lumps_fit = subst (All Fits) (sym lumps) h.lumps_fit;
            })
          (add_routed-Gains _ e fit))
      (λ _. ensures_ok _ (record {
        has_opening = h.has_opening;
        same_input = h.same_input;
        same_currency = h.same_currency;
        lumps_fit = kept_if-Fits e.expected s.lumps e h.lumps_fit fit;
      }))

start_lumps-Opens :
    (input : PlanInput) (s : Sim) (es : List CashEvent)
    → Opens input s
    → All Fits es
    → Ensures (Opens input) (start_lumps s es)
unfolding start_lumps
start_lumps-Opens input s [] h fits = ensures_ok s h
start_lumps-Opens input s (e ∷ es) h fits =
    >>=-known (start_lump-Opens input s e h fits.0) λ t k. start_lumps-Opens input t es k fits.1

empty_run-Opens :
    (input : PlanInput) (policy : PlanPolicy) (sink : Option (List Action)) (delay : ℤ)
    (loans : List LoanState)
    → Opens input (empty_run input policy sink delay loans)
unfolding empty_run
empty_run-Opens input policy sink delay loans =
    let nothing = zero_residue in
    record {
      has_opening = omega (arith, residue_lt (opening_of input).minor);
      same_input = refl;
      same_currency = refl;
      lumps_fit = tt;
    }

dated-Opens :
    (input : PlanInput) (s : Sim) (d : Option (Date × Date))
    → Opens input s
    → Opens input (dated s d)
unfolding dated
dated-Opens input s none h = h
dated-Opens input s (some d) h = record {
  has_opening = h.has_opening;
  same_input = h.same_input;
  same_currency = h.same_currency;
  lumps_fit = h.lumps_fit;
}

with_dates-Opens : (input : PlanInput) (s : Sim) → Opens input s → Opens input (with_dates s)
unfolding with_dates
with_dates-Opens input s h =
    dated-Opens input _ (first_income s.input s.income_delay_days) (record {
      has_opening = h.has_opening;
      same_input = h.same_input;
      same_currency = h.same_currency;
      lumps_fit = h.lumps_fit;
    })

pub start-Opens :
    (input : PlanInput) (policy : PlanPolicy) (sink : Option (List Action)) (delay : ℤ)
    → All Fits input.cash.lumps
    → Ensures (Opens input) (start input policy sink delay)
unfolding start
start-Opens input policy sink delay fits =
    if-Ensures _ (λ _. ensures_err invalid_plan)
      λ _.
        >>=-any (start_loans input.cash.monthly.cur input.loans policy.timing policy.effect)
          λ loans.
            >>=-known
              (start_lumps-Opens input (empty_run input policy sink delay loans) input.cash.lumps
                (empty_run-Opens input policy sink delay loans) fits)
              λ s h. ensures_ok _ (with_dates-Opens input s h)
