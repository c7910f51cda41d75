-- ===== src/Prelude/Results.antt =====
-- Exceptions as values: the result of code that may raise.
use mathlib.Core.Path.{◌≡◌, refl}
use mathlib.Core.Bool.{Bool, true, false}
use mathlib.Core.Option.{Option, none, some}
use Prim.Native.String.{String}
use Prim.Native.Nat.{ℕ}

pub data Error : Type 0 where
  index_error attribute_error invalid_tag : Error
  value_error struct_error : Error
  overflow_error runtime_error eof_error : Error
  vmess_error : String → Error
  vmess_auth_error : String → Error
  http_error : ℕ → Error

pub data Result {ℓ} (A : Type ℓ) : Type ℓ where
  err : Error → Result A
  ok : A → Result A

-- What a missing value raises.
abbrev pub of_option {ℓ} : {A : Type ℓ} → Option A → Error → Result A
of_option (some x) missing = ok x
of_option none missing = err missing

-- `if not test: raise problem`
abbrev pub require : Bool → Error → Result (Unit {0})
require false problem = err problem
require true _ = ok tt

-- The rest of a body runs only where no exception was raised.
infixl 5 ◌>>=◌ ◌>>◌
abbrev pub ◌>>=◌ {ℓ κ} : {X : Type ℓ} {Y : Type κ} → Result X → (X → Result Y) → Result Y
err problem >>= next = err problem
ok x >>= next = next x

abbrev pub ◌>>◌ {ℓ} : {Y : Type ℓ} → Result (Unit {0}) → Result Y → Result Y
first >> second = first >>= λ _. second

-- Where a bind succeeds, its first part did, and the second gave the result.
pub >>=-eq-ok {ℓ κ} :
    {X : Type ℓ} {Y : Type κ} (first : Result X) (next : X → Result Y) {y : Y}
    → (first >>= next) ≡ ok y
    → (x : X) × (first ≡ ok x) × (next x ≡ ok y)
>>=-eq-ok (err problem) next e = cc
>>=-eq-ok (ok x) next e = (x, refl, e)
