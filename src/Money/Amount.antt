-- ===== src/Money/Amount.antt =====
-- pkg/core/money/money.go: amounts, and what json.go restores. The minor units are an int64: an
-- integer of the model whose sums, differences and products are cut down by `wrap64`.
-- `String` and `group` are not modelled.
pub mod Restored
pub mod Exact
pub mod Residue
pub mod Numbers
use marumbot.Prelude.{
  ℕ, zero, suc, ◌+◌, ◌-◌, ◌*◌, ◌/◌, ◌%◌, ◌≤◌, ◌<◌, ◌≡◌, refl, Bool, true, false, not, ◌&&◌, ◌||◌,
  List, [], ◌∷◌, arith, ◌==◌, ltb, leb, if◌then◌else◌, Text, codes, text_eq, Result, ok, err, panic,
  overflow, unknown_currency, ◌>>=◌,
}
use marumbot.Prelude.Int.{ℤ, pos, negsuc, ◌+ℤ◌, ◌-ℤ◌, ◌*ℤ◌, neg_ℤ, quot_ℤ, ltb_ℤ, leb_ℤ, eq_ℤ}
use marumbot.Prelude.Int64.{wrap64, max_int64}
use marumbot.Money.Currency.{Currency, no_currency, lookup, currency_eq}

pub record Amount : Type 0 where
  pub minor : ℤ
  pub cur : Currency

abbrev pub amount : ℤ → Currency → Amount
amount m c = record { minor = m; cur = c }

-- `Amount{}`
abbrev pub no_amount : Amount
no_amount = amount (pos 0) no_currency

-- `Zero`
abbrev pub zero_amount : Currency → Amount
zero_amount c = amount (pos 0) c

abbrev pub from_minor : ℤ → Currency → Amount
from_minor m c = amount m c

-- The loop of `pow10`, on the number of rounds left.
pow10_loop : ℕ → ℤ → ℤ
pow10_loop zero p = p
pow10_loop (suc e) p = pow10_loop e (wrap64 (p *ℤ pos 10))

pub pow10 : ℕ → ℤ
unfolding pow10_loop
pow10 e = pow10_loop e (pos 1)

-- `/` on int64, for a divisor other than 0.
div_int64 : ℤ → ℤ → ℤ
div_int64 a (pos k) = quot_ℤ a k
div_int64 a (negsuc k) = wrap64 (neg_ℤ (quot_ℤ a (suc k)))

abbrev min_int64 : ℤ
min_int64 = negsuc max_int64

-- `FromMajor`. A scale that has wrapped round to 0 is a division by zero, which panics.
unfoldable from_major : ℤ → Currency → Result Amount
unfolding pow10 div_int64
from_major major c =
    let scale = pow10 c.exponent in
    if not (eq_ℤ major (pos 0)) && eq_ℤ scale (pos 0)
    then panic
    else if not (eq_ℤ major (pos 0))
        && (ltb_ℤ (div_int64 (pos max_int64) scale) major
            || ltb_ℤ major (div_int64 min_int64 scale))
    then err overflow
    else ok (amount (wrap64 (major *ℤ scale)) c)

abbrev pub is_zero : Amount → Bool
is_zero a = eq_ℤ a.minor (pos 0)

-- `Sign`
abbrev pub sign : Amount → ℤ
sign a = if ltb_ℤ (pos 0) a.minor then pos 1 else if ltb_ℤ a.minor (pos 0) then negsuc 0 else pos 0

-- `mustMatch` panics when this is false.
unfoldable pub same_code : Amount → Amount → Bool
same_code a b = text_eq a.cur.code b.cur.code

unfoldable pub add : Amount → Amount → Result Amount
unfolding same_code
add a b =
    let sum = wrap64 (a.minor +ℤ b.minor) in
    if not (same_code a b)
    then panic
    else if (ltb_ℤ (pos 0) a.minor && ltb_ℤ (pos 0) b.minor && ltb_ℤ sum (pos 0))
        || (ltb_ℤ a.minor (pos 0) && ltb_ℤ b.minor (pos 0) && leb_ℤ (pos 0) sum)
    then err overflow
    else ok (amount sum a.cur)

unfoldable pub sub : Amount → Amount → Result Amount
unfolding same_code
sub a b =
    let diff = wrap64 (a.minor -ℤ b.minor) in
    if not (same_code a b)
    then panic
    else if (ltb_ℤ b.minor (pos 0) && ltb_ℤ diff a.minor)
        || (ltb_ℤ (pos 0) b.minor && ltb_ℤ a.minor diff)
    then err overflow
    else ok (amount diff a.cur)

unfoldable neg : Amount → Amount
neg a = amount (wrap64 (neg_ℤ a.minor)) a.cur

-- `Cmp`
unfoldable pub cmp : Amount → Amount → Result ℤ
unfolding same_code
cmp a b =
    if not (same_code a b)
    then panic
    else if ltb_ℤ a.minor b.minor
    then ok (negsuc 0)
    else if ltb_ℤ b.minor a.minor
    then ok (pos 1)
    else ok (pos 0)

-- `Min`
unfoldable pub min_amount : Amount → Amount → Result Amount
unfolding cmp
min_amount a b = cmp a b >>= λ c. ok (if leb_ℤ c (pos 0) then a else b)

restored : ℤ → Currency → Result Currency → Result Amount
restored m c (ok cur) = if currency_eq cur c then ok (from_minor m cur) else err unknown_currency
restored m c (err e) = err e
restored m c panic = panic

-- `UnmarshalJSON`, from the two fields that encoding/json has read.
unfoldable pub unmarshal : ℤ → Currency → Result Amount
unfolding restored
unmarshal m c =
    if text_eq c.code [] && eq_ℤ m (pos 0) && currency_eq c no_currency
    then ok no_amount
    else restored m c (lookup c.code)
