-- ===== src/Common/Outcome.antt =====
-- What stops code generation, as values: `ice` is the panic of util.go's ice, `error_message` the
-- *Error that each caller passes on at once, and the others are the runtime's panics.
use mathlib.Core.Bool.{Bool, true, false}

pub data Fault : Type 0 where
  internal_error error_message panics nil_dereference out_of_fuel : Fault

pub data Result {ℓ} (A : Type ℓ) : Type ℓ where
  ok : A → Result A
  fault : Fault → Result A

abbrev pub ice {ℓ} : {A : Type ℓ} → Result A
ice = fault internal_error

abbrev pub unsupported {ℓ} : {A : Type ℓ} → Result A
unsupported = fault error_message

infixl 5 ◌>>=◌ ◌>>◌
abbrev pub ◌>>=◌ {ℓ κ} : {A : Type ℓ} {B : Type κ} → Result A → (A → Result B) → Result B
ok a >>= f = f a
fault e >>= f = fault e

abbrev pub ◌>>◌ {ℓ} : {B : Type ℓ} → Result (Unit {0}) → Result B → Result B
m >> k = m >>= λ _. k

abbrev pub ice_if : Bool → Result (Unit {0})
ice_if true = ice
ice_if false = ok tt

-- A normal return, with a result of which `P` holds.
abbrev pub Returns {ℓ} : {A : Type ℓ} → Result A → (A → Type 0) → Type 0
Returns (ok a) P = P a
Returns (fault e) P = ⊥
