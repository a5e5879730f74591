-- ===== src/Money/Amount/Restored.antt =====
-- The registry's lookup, and amounts restored from storage.
use marumbot.Prelude.{
  ◌≡◌, refl, sym, ◌&&◌, arith, [], text_eq, Result, ok, err, panic, Ensures, ensures_ok,
  ensures_err, ensures_panic, Ensures-value, if-Ensures, and_parts,
}
use marumbot.Prelude.Int.{ℤ, pos, eq_ℤ, eq_of_parts}
use marumbot.Money.Currency.{Currency, no_currency, lookup, currency_eq, eq_of_currency_eq}
use marumbot.Money.Amount.{Amount, restored, unmarshal}

restored-Ensures :
    (m : ℤ) (c : Currency) (r : Result Currency)
    → Ensures (λ a. (a.minor ≡ m) × (a.cur ≡ c)) (restored m c r)
unfolding restored
restored-Ensures m c (ok cur) =
    if-Ensures (currency_eq cur c) (λ e. ensures_ok _ (refl, eq_of_currency_eq cur c e))
      (λ _. ensures_err _)
restored-Ensures m c (err e) = ensures_err e
restored-Ensures m c panic = ensures_panic

unmarshal-Ensures :
    (m : ℤ) (c : Currency) → Ensures (λ a. (a.minor ≡ m) × (a.cur ≡ c)) (unmarshal m c)
unfolding unmarshal
unmarshal-Ensures m c =
    if-Ensures (text_eq c.code [] && eq_ℤ m (pos 0) && currency_eq c no_currency)
      (λ h.
        let (front, same) =
          and_parts (text_eq c.code [] && eq_ℤ m (pos 0)) (currency_eq c no_currency) h in
        let (_, none_left) = and_parts (text_eq c.code []) (eq_ℤ m (pos 0)) front in
        ensures_ok _
          (ground (arith, eq_of_parts m (pos 0)), sym (eq_of_currency_eq c no_currency same)))
      (λ _. restored-Ensures m c (lookup c.code))

-- UnmarshalJSON never reinterprets what was stored: an amount that it accepts has the stored number
-- of minor units and the stored currency, exponent and settlement unit included.
pub unmarshal-kept :
    (m : ℤ) (c : Currency) (a : Amount) → unmarshal m c ≡ ok a → (a.minor ≡ m) × (a.cur ≡ c)
unmarshal-kept m c a h = Ensures-value (unmarshal m c) a (unmarshal-Ensures m c) h
