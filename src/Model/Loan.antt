-- ===== src/Model/Loan.antt =====
-- pkg/core/model/loan.go: contracts, their terms and bank snapshots.
use marumbot.Prelude.{
  ℕ, Bool, true, false, not, ◌&&◌, ◌||◌, List, [], if◌then◌else◌, Text, codes, text_eq, Result, ok,
  err, invalid_model,
}
use marumbot.Prelude.Int.{ℤ, pos, ltb_ℤ, leb_ℤ}
use marumbot.Money.Currency.{Currency}
use marumbot.Money.Amount.{Amount}
use marumbot.Money.Rounding.{Policy}
use marumbot.Money.Accrual.{Rate, DayCount}
use marumbot.Date.Calendar.{Date, before, after, is_zero}
use marumbot.Model.Buckets.{Buckets}
use marumbot.Model.Buckets

abbrev pub Ident : Type 0
Ident = Text

-- The two repayment types of the source, and any other value of the uint8.
pub data RepaymentType : Type 0 where
  annuity declining_principal : RepaymentType
  other_type : ℕ → RepaymentType

pub data PrepaymentEffect : Type 0 where
  borrower_chooses shorten_term reduce_instalment : PrepaymentEffect

unfoldable effect_name : PrepaymentEffect → Text
effect_name shorten_term = codes "shorten_term"
effect_name reduce_instalment = codes "reduce_instalment"
effect_name borrower_chooses = codes "borrower_chooses"

unfoldable parse_prepayment_effect : Text → Result PrepaymentEffect
parse_prepayment_effect s =
    if text_eq s [] || text_eq s (codes "borrower_chooses")
    then ok borrower_chooses
    else if text_eq s (codes "shorten_term")
    then ok shorten_term
    else if text_eq s (codes "reduce_instalment")
    then ok reduce_instalment
    else err invalid_model

pub record PrepaymentCharge : Type 0 where
  pub from_year : ℤ
  pub through_year : ℤ
  pub percent_bp : ℤ
  pub fixed : Amount
  pub free_allowance : Amount
  pub min_charge : Amount
  pub max_charge : Amount

pub record Prepayment : Type 0 where
  pub effect : PrepaymentEffect
  pub fee_bp : ℤ
  pub charges : List PrepaymentCharge
  pub min_amount : Amount

pub record PolicyRef : Type 0 where
  pub key : Text
  pub version : ℤ

-- `PolicyRef.IsZero`
abbrev pub is_unset : PolicyRef → Bool
is_unset p = text_eq p.key []

pub record Contract : Type 0 where
  pub loan_id : Ident
  pub version : ℤ
  pub currency : Currency
  pub effective_from : Date
  pub effective_thru : Date
  pub nominal_rate : Rate
  pub day_count : DayCount
  pub type_of : RepaymentType
  pub start_date : Date
  pub maturity_date : Date
  pub payment_day : ℤ
  pub not_before_due : Date
  pub scheduled_payment : Amount
  pub has_scheduled : Bool
  pub rounding : Policy
  pub prepayment : Prepayment
  pub allocation_policy : PolicyRef

unfoldable pub covers_date : Contract → Date → Bool
covers_date c d =
    if before d c.effective_from
    then false
    else is_zero c.effective_thru || not (after d c.effective_thru)

is_supported : RepaymentType → Bool
is_supported annuity = true
is_supported declining_principal = true
is_supported (other_type n) = false

-- The cases of `Contract.Validate`: whether one of them rejects.
rejected : Contract → Bool
unfolding is_supported
rejected c =
    text_eq c.loan_id []
    || ltb_ℤ c.version (pos 1)
    || ltb_ℤ c.nominal_rate (pos 0)
    || (ltb_ℤ c.payment_day (pos 1) || ltb_ℤ (pos 31) c.payment_day)
    || (is_zero c.start_date || is_zero c.maturity_date)
    || not (after c.maturity_date c.start_date)
    || is_zero c.effective_from
    || (not (is_zero c.effective_thru) && before c.effective_thru c.effective_from)
    || not (is_supported c.type_of)
    || (c.has_scheduled && leb_ℤ c.scheduled_payment.minor (pos 0))
    || ltb_ℤ c.rounding.unit (pos 1)

unfoldable validate_contract : Contract → Result (Unit {0})
unfolding rejected
validate_contract c = if rejected c then err invalid_model else ok tt

pub data Trust : Type 0 where
  user_entered bank_confirmed imported_verified : Trust

pub record Snapshot : Type 0 where
  pub id : Ident
  pub loan_id : Ident
  pub contract_id : ℤ
  pub as_of : Date
  pub trust : Trust
  pub position : Buckets
  pub next_instalment : Amount
  pub next_due_date : Date
  pub remaining_instalments : ℤ

unfoldable pub validate_snapshot : Snapshot → Result (Unit {0})
validate_snapshot s =
    if text_eq s.loan_id [] || is_zero s.as_of || ltb_ℤ s.remaining_instalments (pos 0)
    then err invalid_model
    else Buckets.validate s.position
