-- ===== src/Base/Results.antt =====
-- The outcome of code that can fail: by an exception, by running into undefined behaviour of C++,
-- or, in the model only, by too little fuel.
use qubus.Base.Tests.{if◌then◌else◌}
use mathlib.Core.Path.{◌≡◌, refl}
use mathlib.Core.Bool.{Bool, true, false}

pub data Failure : Type 0 where
  exception undefined_behaviour out_of_fuel : Failure

pub data Result {ℓ} (A : Type ℓ) : Type ℓ where
  ok : A → Result A
  fail : Failure → Result A

-- The next step runs on the value of the first, if that has one.
module _ {ℓ₁ ℓ₂} {Value : Type ℓ₁} {Next : Type ℓ₂} where
  infixl 5 ◌>>=◌
  abbrev pub ◌>>=◌ : Result Value → (Value → Result Next) → Result Next
  fail why >>= step = fail why
  ok value >>= step = step value

  pub >>=-eq-ok :
      (first : Result Value) (step : Value → Result Next) {outcome : Next}
      → (first >>= step) ≡ ok outcome
      → (value : Value) × (first ≡ ok value) × (step value ≡ ok outcome)
  >>=-eq-ok (fail why) step reached = cc
  >>=-eq-ok (ok value) step reached = (value, refl, reached)

pub ok-injective {ℓ} : {A : Type ℓ} {a b : A} → ok a ≡ ok b → a ≡ b
ok-injective h = cc

-- Whatever the outcome, it is not for want of fuel.
abbrev pub IsFueled {ℓ} : {A : Type ℓ} → Result A → Type 0
IsFueled (ok a) = Unit
IsFueled (fail out_of_fuel) = ⊥
IsFueled (fail _) = Unit

pub >>=-IsFueled {ℓ κ} :
    {A : Type ℓ} {B : Type κ} (m : Result A) (f : A → Result B)
    → IsFueled m
    → ((a : A) → m ≡ ok a → IsFueled (f a))
    → IsFueled (m >>= f)
>>=-IsFueled (ok a) f h k = k a refl
>>=-IsFueled (fail out_of_fuel) f h k = h
>>=-IsFueled (fail _) f h k = tt

pub if-IsFueled {ℓ} :
    {A : Type ℓ} (b : Bool) (x y : Result A)
    → IsFueled x
    → IsFueled y
    → IsFueled (if b then x else y)
if-IsFueled true x y h k = h
if-IsFueled false x y h k = k
