-- ===== src/Plan/Normalise.antt =====
-- pkg/core/plan/input.go: balances brought up to the valuation date by instalments taken as paid.
pub mod Current
use marumbot.Prelude.{
  ℕ, zero, suc, Bool, true, false, ◌==◌, List, [], ◌∷◌, Result, ok, err, panic, invalid_plan, ◌>>=◌,
  if◌then◌else◌, Text, text_eq,
}
use marumbot.Prelude.Int.{ℤ, pos, leb_ℤ}
use marumbot.Date.Calendar.{Date, before}
use marumbot.Amortisation.Dates.{remaining_dates}
use marumbot.Amortisation.Rows.{Row, Schedule}
use marumbot.Amortisation.Build.{build_contract}
use marumbot.Plan.Input.{PlanInput, Position}

abbrev pub max_assumed_instalments : ℕ
max_assumed_instalments = 3

-- Whether the first of the dates that are left is before the valuation date.
pub first_before : Date → Result (List Date) → Result Bool
first_before valuation (ok []) = panic
first_before valuation (ok (due ∷ dates)) = ok (before due valuation)
first_before valuation (err e) = ok false
first_before valuation panic = panic

-- The conditions on which the loop goes on.
unfoldable pub is_behind : Date → Position → Result Bool
unfolding first_before
is_behind valuation p =
    if leb_ℤ p.balance.minor (pos 0)
    then ok false
    else first_before valuation (remaining_dates p.contract p.from)

-- The position once its next instalment is taken as paid.
pub after_row : Position → List Row → Result Position
after_row p [] = err invalid_plan
after_row p (row ∷ rows) = ok (record p { balance = row.closing; from = row.due })

unfoldable pub assume_paid : Position → Result Position
unfolding after_row
assume_paid p = build_contract p.contract p.balance p.from >>= λ s. after_row p s.rows

-- The loop over the instalments, on the number that may still be assumed.
pub advance : Date → ℕ → ℕ → Position → Result (Position × ℕ)
advance valuation zero n p =
    is_behind valuation p >>= λ behind. if behind then err invalid_plan else ok (p, n)
advance valuation (suc left) n p = is_behind valuation p >>= λ behind. elim behind [
  | true ↦ assume_paid p >>= λ p'. advance valuation left (suc n) p'
  | false ↦ ok (p, n)
]

-- What the loop does to one position: the position, and how many instalments were assumed.
unfoldable pub normalise_position : Date → Position → Result (Position × ℕ)
unfolding advance
normalise_position valuation p = advance valuation max_assumed_instalments 0 p

-- The loop over the positions.
normalise_loans : Date → List Position → (Text → ℕ) → Result (List Position × (Text → ℕ))
normalise_loans valuation [] assumed = ok ([], assumed)
normalise_loans valuation (p ∷ ps) assumed = normalise_position valuation p >>= λ r.
    normalise_loans valuation ps
      (λ id. if r.1 == 0 then assumed id else if text_eq id p.id then r.1 else assumed id)
    >>= λ others. ok (r.0 ∷ others.0, others.1)

-- `Normalize`, of an input that `Validate` has accepted.
unfoldable pub normalise : PlanInput → Result (PlanInput × (Text → ℕ))
unfolding normalise_loans
normalise input = normalise_loans input.valuation_date input.loans (λ id. 0) >>= λ r.
    ok (record input { loans = r.0 }, r.1)
