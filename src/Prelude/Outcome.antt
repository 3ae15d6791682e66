-- ===== src/Prelude/Outcome.antt =====
-- What a Python call gives: a value, or the exception that it raises.
use Prim.Native.Nat.{ℕ}
use Prim.Native.String.{String}
use mathlib.Core.Path.{◌≡◌, refl}
use mathlib.Core.Bool.{Bool, true, false}
use mathlib.Core.List.{List}
use mathlib.Core.Option.{Option, none, some}

-- The second argument of `value_error_at` and `runtime_error_at` is what the source puts into the message. `not_found`
-- is the `ValueError` of `str.index`.
pub data Error : Type 0 where
  value_error : String → Error
  value_error_at runtime_error_at : String → List ℕ → Error
  runtime_error : String → Error
  assertion_error : String → Error
  credential_error : String → Error
  not_found unicode_error key_error os_error : Error

pub data Result {ℓ} (Value : Type ℓ) : Type ℓ where
  ok : Value → Result Value
  err : Error → Result Value

-- `if not test: raise e`
abbrev pub require : Bool → Error → Result (Unit {0})
require true e = ok tt
require false e = err e

-- `if test: raise e`
abbrev pub refuse : Bool → Error → Result (Unit {0})
refuse true e = err e
refuse false e = ok tt

abbrev pub from_option {ℓ} : {A : Type ℓ} → Error → Option A → Result A
from_option e none = err e
from_option e (some a) = ok a

infixl 5 ◌>>=◌
abbrev pub ◌>>=◌ {ℓ κ} :
    {M : Type ℓ} {N : Type κ} (call : Result M) (next : M → Result N) → Result N
ok value >>= next = next value
err raised >>= next = err raised

infixl 5 ◌>>◌
abbrev pub ◌>>◌ {ℓ} : {N : Type ℓ} (call : Result (Unit {0})) (next : Result N) → Result N
call >> next = call >>= λ done. next

-- A sequence that ends well: its first call gives a value, and the rest ends well from there.
pub >>=-eq-ok {ℓ κ} :
    {M : Type ℓ} {N : Type κ} (call : Result M) (next : M → Result N) {end : N}
    → (call >>= next) ≡ ok end
    → (value : M) × (call ≡ ok value) × (next value ≡ ok end)
>>=-eq-ok (err raised) next h = cc
>>=-eq-ok (ok value) next h = (value, refl, h)

pub require-eq-ok {ℓ} :
    {B : Type ℓ} (t : Bool) (e : Error) (k : Result B) {b : B}
    → (require t e >> k) ≡ ok b
    → (t ≡ true) × (k ≡ ok b)
require-eq-ok true e k h = (refl, h)
require-eq-ok false e k h = cc

pub refuse-eq-ok {ℓ} :
    {B : Type ℓ} (t : Bool) (e : Error) (k : Result B) {b : B}
    → (refuse t e >> k) ≡ ok b
    → (t ≡ false) × (k ≡ ok b)
refuse-eq-ok true e k h = cc
refuse-eq-ok false e k h = (refl, h)
