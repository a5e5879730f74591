-- ===== src/Model/Event.antt =====
-- pkg/core/model/event.go: the entries of a loan's ledger and the order in which they are replayed.
pub mod Sorted
use marumbot.Prelude.{
  ℕ, ◌≡◌, Bool, true, false, not, ◌&&◌, ◌||◌, List, [], ◌∷◌, if◌then◌else◌, Text, codes, text_eq,
  Result, ok, err, panic, invalid_model, ◌>>=◌,
}
use marumbot.Prelude.Int.{ℤ, pos, ltb_ℤ, leb_ℤ, eq_ℤ}
use marumbot.Money.Amount.{Amount}
use marumbot.Date.Calendar.{Date, is_zero, compare_date}
use marumbot.Model.Loan.{Ident}

-- The five kinds of the source, and any other value of the uint8.
pub data EventKind : Type 0 where
  payment_reported prepayment_reported bank_fee_reported entry_voided : EventKind
  loan_closed_reported : EventKind
  other_kind : ℕ → EventKind

unfoldable pub kind_name : EventKind → Text
kind_name payment_reported = codes "payment_reported"
kind_name prepayment_reported = codes "prepayment_reported"
kind_name bank_fee_reported = codes "bank_fee_reported"
kind_name entry_voided = codes "entry_voided"
kind_name loan_closed_reported = codes "loan_closed_reported"
kind_name (other_kind n) = codes "unknown"

-- The keys of `eventKindNames`.
abbrev pub named_kinds : List EventKind
named_kinds =
    payment_reported ∷ prepayment_reported ∷ bank_fee_reported ∷ entry_voided ∷ loan_closed_reported
    ∷ []

find_kind : Text → List EventKind → Result EventKind
find_kind s [] = err invalid_model
find_kind s (k ∷ ks) = if text_eq (kind_name k) s then ok k else find_kind s ks

-- `ParseEventKind`
unfoldable pub parse_event_kind : Text → Result EventKind
unfolding find_kind kind_name
parse_event_kind s = find_kind s named_kinds

pub record Event : Type 0 where
  pub id : Ident
  pub loan_id : Ident
  pub contract_ver : ℤ
  pub recorded_seq : ℤ
  pub kind : EventKind
  pub value_date : Date
  pub amount : Amount
  pub bank_order : ℤ
  pub has_bank_order : Bool
  pub voids_event : Ident
  pub intended_prepayment : Bool

abbrev pub is_void : EventKind → Bool
is_void entry_voided = true
is_void payment_reported = false
is_void prepayment_reported = false
is_void bank_fee_reported = false
is_void loan_closed_reported = false
is_void (other_kind n) = false

abbrev is_closing : EventKind → Bool
is_closing loan_closed_reported = true
is_closing entry_voided = false
is_closing payment_reported = false
is_closing prepayment_reported = false
is_closing bank_fee_reported = false
is_closing (other_kind n) = false

-- `Event.Validate`
unfoldable validate_event : Event → Result (Unit {0})
validate_event e =
    if text_eq e.loan_id []
    then err invalid_model
    else if ltb_ℤ e.recorded_seq (pos 1)
    then err invalid_model
    else if is_zero e.value_date
    then err invalid_model
    else if is_void e.kind && text_eq e.voids_event []
    then err invalid_model
    else if not (is_void e.kind) && not (text_eq e.voids_event [])
    then err invalid_model
    else if is_closing e.kind || is_void e.kind
    then ok tt
    else if leb_ℤ e.amount.minor (pos 0)
    then err invalid_model
    else ok tt

-- `==` on bool.
abbrev same : Bool → Bool → Bool
same true b = b
same false b = not b

-- The comparison that `SortForReplay` hands to sort.SliceStable.
unfoldable pub replay_less : Event → Event → Bool
replay_less a b =
    let c = compare_date a.value_date b.value_date in
    if not (eq_ℤ c (pos 0))
    then ltb_ℤ c (pos 0)
    else if not (same a.has_bank_order b.has_bank_order)
    then a.has_bank_order
    else if a.has_bank_order && not (eq_ℤ a.bank_order b.bank_order)
    then ltb_ℤ a.bank_order b.bank_order
    else ltb_ℤ a.recorded_seq b.recorded_seq

-- An event that comes before the list, put where a stable sort has it: behind what is less.
pub insert_event : Event → List Event → List Event
insert_event e [] = e ∷ []
insert_event e (f ∷ fs) = if replay_less f e then f ∷ insert_event e fs else e ∷ f ∷ fs

-- `SortForReplay`: the stable sort of package sort, as an insertion sort.
unfoldable pub sort_for_replay : List Event → List Event
unfolding insert_event
sort_for_replay [] = []
sort_for_replay (e ∷ es) = insert_event e (sort_for_replay es)
