-- ===== src/Plan/Period/Contains.antt =====
-- The permission cycle of a date contains it, and the next cycle starts where it ends.
use marumbot.Prelude.Int.{int_laws, negsuc, ◌≤ℤ◌, pos, ℤ}
use marumbot.Date.Schedule.InMonth.{
  Lands-month_index, on_day_of_month-add_months, Lands-unique, IsDate-Lands, on_day_of_month-Lands,
  on_day_of_month-same,
}
use marumbot.Date.Schedule.Clamp.{occurrence-Lands, month-Earlier, Lands, at_least_one}
use marumbot.Date.Calendar.Order.{
  Earlier-trans, before-Earlier, Earlier-irrefl, Earlier-before, after-before, Earlier,
}
use marumbot.Prelude.{
  sym, arith, inl, subst, ◌-◌, inr, ◌∙◌, Bool-cases, refl, false, suc, true, ℕ, ◌≡◌,
}
use marumbot.Date.Schedule.{add_months, on_day_of_month}
use marumbot.Plan.Period.{period_end, anchor_day, period_start}
use marumbot.Date.Calendar.Ordinal.{IsDate}
use marumbot.Date.Calendar.{after, Date}

not_after : (a b : Date) → Earlier a b → after a b ≡ false
not_after a b h = elim (Bool-cases (after a b)) [
  | inr fine ↦ fine
  | inl later ↦ absurd (
      Earlier-irrefl a
        (Earlier-trans a b a h (before-Earlier b a (sym (after-before a b) ∙ later))))
]

not_after_itself : (a : Date) → after a a ≡ false
not_after_itself a = elim (Bool-cases (after a a)) [
  | inr fine ↦ fine
  | inl later ↦ absurd (Earlier-irrefl a (before-Earlier a a (sym (after-before a a) ∙ later)))
]

is_after : (a b : Date) → Earlier b a → after a b ≡ true
is_after a b h = after-before a b ∙ Earlier-before b a h

-- The day of the month on which a cycle starts, in a month long enough for it.
abbrev pub day_of_cycle : ℤ → ℤ
day_of_cycle cycle_day = at_least_one (anchor_day cycle_day)

-- One cycle around a date: from the day meant in one month, or the last day of a shorter one, up to
-- that of the next month.
pub record IsCycle (cycle_day : ℤ) (on start end : Date) : Type 0 where
  pub month : ℕ
  pub start_in : Lands month (day_of_cycle cycle_day) start
  pub end_in : Lands (suc month) (day_of_cycle cycle_day) end
  pub starts : after start on ≡ false
  pub ends : after end on ≡ true

next_month-Lands :
    (k : ℕ) (day : ℤ) (start : Date) {d : ℤ}
    → Lands k d start
    → Lands (suc k) (at_least_one day) (on_day_of_month (add_months start (pos 1)) day)
next_month-Lands k day start l =
    subst (Lands (suc k) (at_least_one day)) (sym (on_day_of_month-add_months start (pos 1) day)) (
      occurrence-Lands start day (pos 1) (suc k)
        (rw (Lands-month_index k start l) (omega int_laws)))

module _ (cycle_day : ℤ) (on : Date) (j : ℕ) (l : Lands (suc j) on.day on) where
  this_month : Lands (suc j) (day_of_cycle cycle_day) (on_day_of_month on (anchor_day cycle_day))
  this_month = on_day_of_month-Lands on (anchor_day cycle_day) (suc j) l

  month_before :
      Lands j
        (day_of_cycle cycle_day)
        (on_day_of_month (add_months on (negsuc 0)) (anchor_day cycle_day))
  month_before =
      subst (Lands j (day_of_cycle cycle_day))
        (sym (on_day_of_month-add_months on (negsuc 0) (anchor_day cycle_day)))
        (occurrence-Lands on (anchor_day cycle_day) (negsuc 0) j
          (rw (Lands-month_index (suc j) on l) (omega int_laws)))

  started :
      after (on_day_of_month on (anchor_day cycle_day)) on ≡ false
      → IsCycle cycle_day on (period_start cycle_day on) (period_end cycle_day on)
  unfolding period_start period_end
  started h = rw h (record {
    month = suc j;
    start_in = this_month;
    end_in = next_month-Lands (suc j) (anchor_day cycle_day) _ this_month;
    starts = h;
    ends = is_after _ on (
        month-Earlier (suc j) (suc (suc j)) on.day on _ (omega arith) l
          (next_month-Lands (suc j) (anchor_day cycle_day) _ this_month));
  })

  not_started :
      after (on_day_of_month on (anchor_day cycle_day)) on ≡ true
      → IsCycle cycle_day on (period_start cycle_day on) (period_end cycle_day on)
  unfolding period_start period_end
  not_started h =
      let end_in = next_month-Lands j (anchor_day cycle_day) _ month_before in
      rw h (record {
        month = j;
        start_in = month_before;
        end_in = end_in;
        starts = not_after _ on (month-Earlier j (suc j) _ _ on (omega arith) month_before l);
        ends =
            subst (λ d. after d on ≡ true)
              (Lands-unique (suc j) (day_of_cycle cycle_day) _ _ this_month end_in) h;
      })

pub period-IsCycle :
    (cycle_day : ℤ) (on : Date)
    → IsDate on
    → pos 1 ≤ℤ on.year
    → IsCycle cycle_day on (period_start cycle_day on) (period_end cycle_day on)
period-IsCycle cycle_day on v late =
    let (k, _, low, l) = IsDate-Lands on v late in
    let e : k ≡ suc (k - 1) = omega (arith, low) in
    let l' = subst (λ k. Lands k on.day on) e l in
    elim (Bool-cases (after (on_day_of_month on (anchor_day cycle_day)) on)) [
      | inl later ↦ not_started cycle_day on (k - 1) l' later
      | inr fine ↦ started cycle_day on (k - 1) l' fine
    ]

at_its_start :
    (cycle_day : ℤ) (t : Date) (k : ℕ)
    → Lands k (day_of_cycle cycle_day) t
    → period_start cycle_day t ≡ t
unfolding period_start
at_its_start cycle_day t k l =
    rw (on_day_of_month-same k (anchor_day cycle_day) t l, not_after_itself t) refl

-- The cycle after: the date on which a cycle ends starts the next one.
pub period_start-period_end :
    (cycle_day : ℤ) (on : Date)
    → IsDate on
    → pos 1 ≤ℤ on.year
    → period_start cycle_day (period_end cycle_day on) ≡ period_end cycle_day on
period_start-period_end cycle_day on v late =
    let cycle = period-IsCycle cycle_day on v late in
    at_its_start cycle_day (period_end cycle_day on) (suc cycle.month) cycle.end_in
