-- ===== src/Plan/Rules.antt =====
-- pkg/core/plan/budget_rules_policies.go: the persisted names of the rules.
use marumbot.Prelude.{Text, codes}

abbrev pub carry_cash : Text
carry_cash = codes "carry_cash"

abbrev pub no_carry : Text
no_carry = codes "no_carry"

abbrev pub batch_until : Text
batch_until = codes "batch_until"

abbrev pub carry_to_date : Text
carry_to_date = codes "carry_to_date"

abbrev pub roll_all : Text
roll_all = codes "roll_all"

abbrev pub release_all : Text
release_all = codes "release_all"

abbrev pub roll_amount : Text
roll_amount = codes "roll_amount"

abbrev pub roll_percent : Text
roll_percent = codes "roll_percent"
