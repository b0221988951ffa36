-- ===== src/Common/Results.antt =====
-- What a handler returns: a value or the error that it throws.
use mathlib.Core.Path.{◌≡◌, refl}
use mathlib.Core.Bool.{Bool, true, false}
use mathlib.Core.Option.{Option, none, some}
use Prim.Native.String.{String}

-- The error classes of the modules, with the `code` that each instance carries.
-- The texts of the messages are left out.
pub data Error : Type 0 where
  order_conflict order_validation catalog_validation : String → Error
  order_not_found catalog_not_found : Error
  shipping_domain : String → Error
  failure : String → Error

pub data Result {ℓ} (A : Type ℓ) : Type ℓ where
  ok : A → Result A
  err : Error → Result A

-- `if (row === undefined) throw e`.
abbrev pub or_throw {ℓ} : {Row : Type ℓ} → Option Row → Error → Result Row
or_throw (some row) thrown = ok row
or_throw none thrown = err thrown

-- `if (!test) throw e`.
abbrev pub guard : Bool → Error → Result (Unit {0})
guard false thrown = err thrown
guard true thrown = ok tt

infixl 5 ◌>>=◌
abbrev pub ◌>>=◌ {κ ℓ} :
    {Row : Type κ} {Next : Type ℓ} → Result Row → (Row → Result Next) → Result Next
err thrown >>= next = err thrown
ok row >>= next = next row

infixl 5 ◌>>◌
abbrev pub ◌>>◌ {ℓ} : {Next : Type ℓ} → Result (Unit {0}) → Result Next → Result Next
check >> next = check >>= λ done. next

-- A chain that succeeds has a first step that does.
pub >>=-eq-ok {κ ℓ} :
    {Row : Type κ} {Next : Type ℓ} (first : Result Row) (next : Row → Result Next) {last : Next}
    → (first >>= next) ≡ ok last
    → (row : Row) × (first ≡ ok row) × (next row ≡ ok last)
>>=-eq-ok (err thrown) next e = cc
>>=-eq-ok (ok row) next e = (row, refl, e)

pub guard-eq-ok : (b : Bool) (e : Error) {u : Unit {0}} → guard b e ≡ ok u → b ≡ true
guard-eq-ok true e h = refl
guard-eq-ok false e h = cc

pub or_throw-eq-ok {ℓ} :
    {A : Type ℓ} (o : Option A) (e : Error) {a : A} → or_throw o e ≡ ok a → o ≡ some a
or_throw-eq-ok none e h = cc
or_throw-eq-ok (some b) e h = cc

pub ok-injective {ℓ} : {A : Type ℓ} {a b : A} → ok a ≡ ok b → a ≡ b
ok-injective e = cc
