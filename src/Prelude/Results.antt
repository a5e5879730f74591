-- ===== src/Prelude/Results.antt =====
-- What a Go function gives back: a value, a value of the error type, or a panic. An error is
-- known by the sentinel that it wraps; its message is not modelled.
use mathlib.Core.Path.{◌≡◌, refl, subst}
use mathlib.Core.Logic.{◌≢◌}
use mathlib.Core.Bool.{Bool, true, false}
use marumbot.Prelude.Tests.{if◌then◌else◌}

pub data Error : Type 0 where
  overflow negative accrual_range unknown_currency : Error
  invalid_date invalid_model : Error
  unknown_policy currency_mismatch nonpositive_payment : Error
  out_of_fuel no_contract no_as_of as_of_precedes_anchor cannot_apply : Error
  invalid_position unsolvable : Error
  invalid_plan unsupported : Error
  horizon_exceeded infeasible broken_invariant : Error

pub data Result {ℓ} (A : Type ℓ) : Type ℓ where
  ok : A → Result A
  err : Error → Result A
  panic : Result A

infixl 5 ◌>>=◌
abbrev pub ◌>>=◌ {ℓ κ} : {A : Type ℓ} {B : Type κ} → Result A → (A → Result B) → Result B
panic >>= next = panic
err why >>= next = err why
ok value >>= next = next value

pub ok_injective : {A : Type 0} {a b : A} → ok b ≡ ok a → b ≡ a
ok_injective h = cc

-- What holds of the value of a result, where it has one.
pub data Ensures {A : Type 0} (Q : A → Type 0) : Result A → Type 0 where
  ensures_ok : (a : A) → Q a → Ensures Q (ok a)
  ensures_err : (e : Error) → Ensures Q (err e)
  ensures_panic : Ensures Q panic

pub >>=-Ensures :
    {A B : Type 0} {Q : B → Type 0} (m : Result A) (f : A → Result B)
    → ((a : A) → m ≡ ok a → Ensures Q (f a))
    → Ensures Q (m >>= f)
>>=-Ensures (ok a) f h = h a refl
>>=-Ensures (err e) f h = ensures_err e
>>=-Ensures panic f h = ensures_panic

-- What the first of two steps ensures, handed to the second.
pub >>=-known :
    {A B : Type 0} {P : A → Type 0} {Q : B → Type 0} {m : Result A} {f : A → Result B}
    → Ensures P m
    → ((a : A) → P a → Ensures Q (f a))
    → Ensures Q (m >>= f)
>>=-known (ensures_ok a p) h = h a p
>>=-known (ensures_err e) h = ensures_err e
>>=-known ensures_panic h = ensures_panic

pub >>=-any :
    {A B : Type 0} {Q : B → Type 0} (m : Result A) {f : A → Result B}
    → ((a : A) → Ensures Q (f a))
    → Ensures Q (m >>= f)
>>=-any m h = >>=-Ensures m _ (λ a e. h a)

pub Ensures-value :
    {A : Type 0} {Q : A → Type 0} (r : Result A) (a : A) → Ensures Q r → r ≡ ok a → Q a
Ensures-value {Q = Q} _ a (ensures_ok b q) h = subst Q (ok_injective h) q
Ensures-value _ a (ensures_err e) h = cc
Ensures-value _ a ensures_panic h = cc

pub if-Ensures :
    {A : Type 0} {Q : A → Type 0} (b : Bool) {x y : Result A}
    → (b ≡ true → Ensures Q x)
    → (b ≡ false → Ensures Q y)
    → Ensures Q (if b then x else y)
if-Ensures true h k = h refl
if-Ensures false h k = k refl

pub Ensures-map :
    {A : Type 0} {Q R : A → Type 0} (r : Result A)
    → ((a : A) → Q a → R a)
    → Ensures Q r
    → Ensures R r
Ensures-map _ f (ensures_ok a q) = ensures_ok a (f a q)
Ensures-map _ f (ensures_err e) = ensures_err e
Ensures-map _ f ensures_panic = ensures_panic

-- The result is not that the fuel ran out.
abbrev pub HasFuel : {A : Type 0} → Result A → Type 0
HasFuel r = r ≢ err out_of_fuel

pub >>=-HasFuel :
    {A B : Type 0} (m : Result A) (f : A → Result B)
    → HasFuel m
    → ((a : A) → m ≡ ok a → HasFuel (f a))
    → HasFuel (m >>= f)
>>=-HasFuel (ok a) f h k = k a refl
>>=-HasFuel (err e) f h k = λ eq. h (cc)
>>=-HasFuel panic f h k = λ eq. cc

pub if-HasFuel :
    {A : Type 0} (b : Bool) {x y : Result A} → HasFuel x → HasFuel y → HasFuel (if b then x else y)
if-HasFuel true h k = h
if-HasFuel false h k = k

pub ok-HasFuel : {A : Type 0} (a : A) → HasFuel (ok a)
ok-HasFuel a = λ e. cc

-- The value that the first of two steps has handed to the second, where both have one.
pub record HandsOver {A B : Type 0} (m : Result A) (next : A → Result B) (b : B) : Type 0 where
  pub handed : A
  pub first : m ≡ ok handed
  pub second : next handed ≡ ok b

pub >>=-HandsOver :
    {A B : Type 0} (m : Result A) (next : A → Result B) (b : B)
    → (m >>= next) ≡ ok b
    → HandsOver m next b
>>=-HandsOver panic next b h = cc
>>=-HandsOver (err why) next b h = cc
>>=-HandsOver (ok a) next b h = record { handed = a; first = refl; second = h }
