-- ===== src/Plan/Sim/Run/Conserved.antt =====
-- pkg/core/plan/sim.go: no event of a run makes cash or loses it, modulo 2^64.
use marumbot.Date.Calendar.{equal, Date}
use marumbot.Prelude.{
  ℕ, zero, suc, ◌≡◌, refl, ◌∙◌, ap, subst, sym, arith, All, List, [], ◌∷◌, Option, none, some,
  horizon_exceeded, Ensures, ensures_ok, ensures_err, if-Ensures, Ensures-map, Ensures-value,
  >>=-known, >>=-any,
}
use marumbot.Money.Amount.Residue.{residue_lt, add-residue}
use marumbot.Plan.Input.{CashEvent, CashRouting}
use marumbot.Plan.State.{Sim}
use marumbot.Plan.Sim.Allocate.{allocate}
use marumbot.Plan.Sim.Allocate.Kept.{allocate-Conserves}
use marumbot.Plan.Sim.Cycle.{open_first}
use marumbot.Plan.Sim.Cycle.Kept.{open_first-Keeps, receive-Keeps, income-Conserves}
use marumbot.Plan.Sim.Routed.Sums.{Fits, add_routed-Gains}
use marumbot.Plan.Sim.Events.{
  lump_at, without, receive_event, receive_events, receive_routed_date, lump,
}
use marumbot.Plan.Sim.Periods.Kept.{period-Conserves}
use marumbot.Plan.Sim.Events.Kept.{due-Conserves}
use marumbot.Plan.Sim.Run.{
  EventKind, of_period, of_lump, of_income, of_route, of_due, next_event, handle, step, Reaches,
  here, further,
}
use marumbot.Plan.Sim.Worth.{
  total, Keeps-trans, Conserves, Conserves-refl, Conserves-trans, Keeps-Conserves,
}

-- A later state of a run: the sum stays, and the events to come still fit.
pub record Follows (s t : Sim) : Type 0 where
  pub same_total : total t ≡ total s
  pub same_input : t.input ≡ s.input
  pub same_currency : t.cur ≡ s.cur
  pub lumps_fit : All Fits t.lumps

-- An event that leaves the events to come as they are.
followed : (s t : Sim) → All Fits s.lumps → Conserves s t → Follows s t
followed s t fit h = record {
  same_total = h.same_total;
  same_input = ap (λ r. r.0) h.same_terms;
  same_currency = ap (λ r. r.1) h.same_terms;
  lumps_fit = subst (All Fits) (sym (ap (λ r. r.2) h.same_terms)) fit;
}

receive_event-Conserves :
    (s : Sim) (e : CashEvent) (routing : Option CashRouting)
    → Fits e
    → Ensures (Conserves s) (receive_event s e routing)
unfolding receive_event
receive_event-Conserves s e none fit = >>=-known (add-residue s.inflow e.amount) λ inflow hi.
    >>=-known (add-residue s.cash e.amount) λ cash hc.
      let before = residue_lt s.inflow.minor in
      let later = residue_lt inflow.minor in
      ensures_ok _ (record { same_total = omega arith; same_terms = refl })
receive_event-Conserves s e (some r) fit = >>=-known (add-residue s.inflow e.amount) λ inflow hi.
    let before = residue_lt s.inflow.minor in
    let later = residue_lt inflow.minor in
    Ensures-map _
      (λ t h.
        let gained = h.gained in record { same_total = omega arith; same_terms = h.same_terms })
      (add_routed-Gains (record s { inflow = inflow }) e fit)

-- The state and the events that are left.
record Received (s : Sim) (r : Sim × List CashEvent) : Type 0 where
  conserved : Conserves s r.0
  left_fit : All Fits r.1

receive_events-Received :
    (s : Sim) (on : Date) (es : List CashEvent)
    → All Fits es
    → Ensures (Received s) (receive_events s on es)
unfolding receive_events
receive_events-Received s on [] fit =
    ensures_ok _ (record { conserved = Conserves-refl s; left_fit = tt })
receive_events-Received s on (e ∷ es) fit =
    if-Ensures (equal e.on on)
      (λ _. >>=-known (receive_event-Conserves s e e.routing fit.0) λ t h.
        Ensures-map _
          (λ r k. record { conserved = Conserves-trans h k.conserved; left_fit = k.left_fit })
          (receive_events-Received t on es fit.1))
      (λ _.
        >>=-known (receive_events-Received s on es fit.1)
          λ r k. ensures_ok _ (record { conserved = k.conserved; left_fit = (fit.0, k.left_fit) }))

-- An event once the events to come have been replaced.
replaced-Follows :
    (s t : Sim) (es : List CashEvent) (on : Date)
    → total t ≡ total s
    → t.input ≡ s.input
    → t.cur ≡ s.cur
    → All Fits es
    → t.lumps ≡ es
    → Ensures (Follows s) (allocate t on)
replaced-Follows s t es on same input cur fit lumps =
    Ensures-map _
      (λ u h. record {
        same_total = h.same_total ∙ same;
        same_input = ap (λ r. r.0) h.same_terms ∙ input;
        same_currency = ap (λ r. r.1) h.same_terms ∙ cur;
        lumps_fit = subst (All Fits) (sym (ap (λ r. r.2) h.same_terms ∙ lumps)) fit;
      })
      (allocate-Conserves t on)

receive_routed_date-Follows :
    (s : Sim) (on : Date) → All Fits s.lumps → Ensures (Follows s) (receive_routed_date s on)
unfolding receive_routed_date
receive_routed_date-Follows s on fit =
    let opened = Keeps-Conserves (open_first-Keeps s on) in
    >>=-known (receive_events-Received (open_first s on) on s.lumps fit) λ r h.
      let same = Conserves-trans opened h.conserved in
      replaced-Follows s (record r.0 { lumps = r.1 }) r.1 on same.same_total
        (ap (λ x. x.0) same.same_terms) (ap (λ x. x.1) same.same_terms) h.left_fit refl

without-Fits : (es : List CashEvent) (i : ℕ) → All Fits es → All Fits (without es i)
unfolding without
without-Fits [] i fit = tt
without-Fits (e ∷ es) zero fit = fit.1
without-Fits (e ∷ es) (suc i) fit = (fit.0, without-Fits es i fit.1)

lump-Follows : (s : Sim) (i : ℕ) → All Fits s.lumps → Ensures (Follows s) (lump s i)
unfolding lump
lump-Follows s i fit = >>=-any (lump_at s.lumps i) λ e.
    if-Ensures s.has_routing (λ _. receive_routed_date-Follows s e.on fit)
      λ _.
        let shorter = record s { lumps = without s.lumps i } in
        let opened = open_first-Keeps shorter e.on in
        >>=-known (receive-Keeps (open_first shorter e.on) e.amount) λ t h.
          let same = Keeps-Conserves (Keeps-trans opened h) in
          replaced-Follows s t (without s.lumps i) e.on same.same_total
            (ap (λ x. x.0) same.same_terms) (ap (λ x. x.1) same.same_terms)
            (without-Fits s.lumps i fit) (ap (λ x. x.2) same.same_terms)

handle-Follows :
    (s : Sim) (kind : EventKind) (on : Date) (i : ℕ)
    → All Fits s.lumps
    → Ensures (Follows s) (handle s kind on i)
unfolding handle
handle-Follows s of_period on i fit = Ensures-map _ (λ t. followed s t fit) (period-Conserves s on)
handle-Follows s of_lump on i fit = lump-Follows s i fit
handle-Follows s of_income on i fit = Ensures-map _ (λ t. followed s t fit) (income-Conserves s on)
handle-Follows s of_route on i fit =
    Ensures-map _
      (λ t h. followed s t fit (Conserves-trans (Keeps-Conserves (open_first-Keeps s on)) h))
      (allocate-Conserves (open_first s on) on)
handle-Follows s of_due on i fit = Ensures-map _ (λ t. followed s t fit) (due-Conserves s i on)

step-Follows : (s : Sim) → All Fits s.lumps → Ensures (Follows s) (step s)
unfolding step
step-Follows s fit =
    if-Ensures _ (λ _. ensures_err horizon_exceeded)
      (λ _. handle-Follows s (next_event s).kind (next_event s).on (next_event s).index fit)

-- Along a run the sum stays.
pub Reaches-Follows : (s t : Sim) → All Fits s.lumps → Reaches s t → Follows s t
Reaches-Follows s _ fit here = record {
  same_total = refl;
  same_input = refl;
  same_currency = refl;
  lumps_fit = fit;
}
Reaches-Follows s _ fit (further t u r open_still e) =
    let h = Reaches-Follows s t fit r in
    let k = Ensures-value (step t) u (step-Follows t h.lumps_fit) e in
    record {
      same_total = k.same_total ∙ h.same_total;
      same_input = k.same_input ∙ h.same_input;
      same_currency = k.same_currency ∙ h.same_currency;
      lumps_fit = k.lumps_fit;
    }
