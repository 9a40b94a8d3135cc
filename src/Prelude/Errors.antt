-- ===== src/Prelude/Errors.antt =====
-- Exceptions of the planning code, and the results of functions that may raise one.
use mathlib.Core.Path.{◌≡◌, refl}
use mathlib.Core.Option.{Option, none, some}

pub data Error : Type 0 where
  no_people unfeasible value_error key_error index_error assertion_error type_error : Error

pub data Result {ℓ} (A : Type ℓ) : Type ℓ where
  ok : A → Result A
  err : Error → Result A

module _ {ℓ κ} {A : Type ℓ} {B : Type κ} where
  infixl 5 ◌>>=◌
  -- An exception ends the chain of calls.
  abbrev pub ◌>>=◌ : Result A → (A → Result B) → Result B
  err raised >>= next = err raised
  ok value >>= next = next value

  -- If a chain of calls returns, its first call did.
  pub >>=-eq-ok :
      (first : Result A) (next : A → Result B) {answer : B}
      → (first >>= next) ≡ ok answer
      → (value : A) × (first ≡ ok value) × (next value ≡ ok answer)
  >>=-eq-ok (err raised) next returned = cc
  >>=-eq-ok (ok value) next returned = (value, refl, returned)

-- A lookup that raises where the value is absent.
abbrev pub or_raise {ℓ} : {A : Type ℓ} → Error → Option A → Result A
or_raise e none = err e
or_raise e (some a) = ok a

pub or_raise-eq-ok {ℓ} :
    {A : Type ℓ} (e : Error) (o : Option A) (a : A) → or_raise e o ≡ ok a → o ≡ some a
or_raise-eq-ok e none a h = cc
or_raise-eq-ok e (some b) a h = cc
