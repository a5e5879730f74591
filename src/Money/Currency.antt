-- ===== src/Money/Currency.antt =====
-- pkg/core/money/currency.go: the registry of currencies and its lookup.
-- A code is a text, so a lookup trims and upper-cases code points as package strings does.
use marumbot.Prelude.{
  ℕ, ◌≡◌, Bool, true, ◌&&◌, List, [], ◌∷◌, arith, ◌==◌, if◌then◌else◌, Text, codes, text_eq,
  trim_space, to_upper, Result, ok, err, unknown_currency, Option, none, some, eq_of_text_eq,
  text_eq_refl,
}
use marumbot.Prelude.Int.{ℤ, pos, eq_ℤ, ltb_ℤ}
use Prim.Native.String.{String}

pub record Currency : Type 0 where
  pub code : Text
  pub exponent : ℕ
  pub settlement_unit : ℤ
  pub name : Text

-- The zero value of the struct.
abbrev pub no_currency : Currency
no_currency = record { code = []; exponent = 0; settlement_unit = pos 0; name = [] }

-- The four fields of one entry of the registry.
abbrev pub entry : String → ℕ → ℕ → String → Currency
entry code e unit name = record {
  code = codes code;
  exponent = e;
  settlement_unit = pos unit;
  name = codes name;
}

-- The map's values, in the order of the source. No two have the same code.
unfoldable pub registry : List Currency
registry =
    entry "AMD" 2 10 "Armenian dram"
    ∷ entry "GEL" 2 1 "Georgian lari"
    ∷ entry "RUB" 2 1 "Russian rouble"
    ∷ entry "USD" 2 1 "US dollar"
    ∷ entry "EUR" 2 1 "Euro"
    ∷ entry "GBP" 2 1 "Pound sterling"
    ∷ entry "CHF" 2 1 "Swiss franc"
    ∷ entry "AED" 2 1 "UAE dirham"
    ∷ entry "TRY" 2 1 "Turkish lira"
    ∷ entry "CNY" 2 1 "Chinese yuan"
    ∷ entry "INR" 2 1 "Indian rupee"
    ∷ entry "CAD" 2 1 "Canadian dollar"
    ∷ entry "AUD" 2 1 "Australian dollar"
    ∷ entry "PLN" 2 1 "Polish zloty"
    ∷ entry "CZK" 2 1 "Czech koruna"
    ∷ entry "SEK" 2 1 "Swedish krona"
    ∷ entry "NOK" 2 1 "Norwegian krone"
    ∷ entry "DKK" 2 1 "Danish krone"
    ∷ entry "ILS" 2 1 "Israeli new shekel"
    ∷ entry "UAH" 2 1 "Ukrainian hryvnia"
    ∷ entry "KZT" 2 1 "Kazakhstani tenge"
    ∷ entry "JPY" 0 1 "Japanese yen"
    ∷ entry "KRW" 0 1 "South Korean won"
    ∷ entry "ISK" 0 1 "Icelandic krona"
    ∷ entry "CLP" 0 1 "Chilean peso"
    ∷ entry "VND" 0 1 "Vietnamese dong"
    ∷ entry "HUF" 2 1 "Hungarian forint"
    ∷ entry "KWD" 3 1 "Kuwaiti dinar"
    ∷ entry "BHD" 3 1 "Bahraini dinar"
    ∷ entry "OMR" 3 1 "Omani rial"
    ∷ entry "JOD" 3 1 "Jordanian dinar"
    ∷ entry "TND" 3 1 "Tunisian dinar"
    ∷ entry "IQD" 3 1 "Iraqi dinar"
    ∷ entry "LYD" 3 1 "Libyan dinar"
    ∷ []

-- `registry[code]`, with the missing key.
pub find_code : Text → List Currency → Option Currency
find_code code [] = none
find_code code (c ∷ cs) = if text_eq c.code code then some c else find_code code cs

found : Option Currency → Result Currency
found (some c) = ok c
found none = err unknown_currency

unfoldable pub lookup : Text → Result Currency
unfolding found find_code
lookup code = found (find_code (to_upper (trim_space code)) registry)

-- `==` on two structs.
unfoldable pub currency_eq : Currency → Currency → Bool
currency_eq a b =
    text_eq a.code b.code
    && (a.exponent == b.exponent)
    && eq_ℤ a.settlement_unit b.settlement_unit
    && text_eq a.name b.name

pub eq_of_currency_eq : (a b : Currency) → currency_eq a b ≡ true → a ≡ b
unfolding currency_eq
eq_of_currency_eq a b h = ground (arith, eq_of_text_eq a.code b.code, eq_of_text_eq a.name b.name)

pub currency_eq_refl : (a : Currency) → currency_eq a a ≡ true
unfolding currency_eq
currency_eq_refl a = ground (arith, text_eq_refl a.code, text_eq_refl a.name)

-- What every entry satisfies, as a test.
abbrev pub is_well_formed : Currency → Bool
is_well_formed c =
    (if c.exponent == 0 then true else if c.exponent == 2 then true else c.exponent == 3)
    && ltb_ℤ (pos 0) c.settlement_unit
    && text_eq (to_upper (trim_space c.code)) c.code
