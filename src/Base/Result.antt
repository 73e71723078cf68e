-- ===== src/Base/Result.antt =====
-- Values or exceptions: the classes of exception that the code throws.
use mathlib.Core.Path.{◌≡◌, refl}
use mathlib.Core.Option.{Option, none, some}

pub data Failure : Type 0 where
  runtime_error out_of_range invalid_argument bad_request json_error command_exception : Failure

pub data Result {ℓ} (A : Type ℓ) : Type ℓ where
  ok : A → Result A
  throws : Failure → Result A

module _ {ℓ κ} {A : Type ℓ} {B : Type κ} where
  infixl 5 ◌>>=◌
  -- Goes on with a value, and passes an exception on.
  abbrev pub ◌>>=◌ : Result A → (A → Result B) → Result B
  throws e >>= next = throws e
  ok a >>= next = next a

  -- A value at the end means that there was one before.
  pub >>=-eq-ok :
      (first : Result A) (next : A → Result B) {b : B}
      → (first >>= next) ≡ ok b
      → (a : A) × ((first ≡ ok a) × (next a ≡ ok b))
  >>=-eq-ok (throws e) next h = cc
  >>=-eq-ok (ok a) next h = (a, (refl, h))

-- Goes on unless an exception was thrown, or `none` stands for undefined behaviour.
abbrev pub and_then {ℓ κ} :
    {A : Type ℓ} {B : Type κ} → Option (Result A) → (A → Option (Result B)) → Option (Result B)
and_then none f = none
and_then (some (throws e)) f = some (throws e)
and_then (some (ok a)) f = f a
