-- ===== src/Prelude/Results.antt =====
-- The outcome of a call that may be refused: a value, or the exception that reaches the caller
-- with its HTTP status.
use mathlib.Core.Path.{◌≡◌, refl}
use mathlib.Core.Bool.{Bool}
use elchi_backend.Prelude.Tests.{if◌then◌else◌}
use mathlib.Core.Option.{Option, none, some}

-- `bad_request` is status 400, `forbidden` 403, `not_found` 404, `conflict` 409 and `internal` 500.
pub data Error : Type 0 where
  bad_request forbidden not_found conflict internal : Error

pub data Result {ℓ} (A : Type ℓ) : Type ℓ where
  ok : A → Result A
  err : Error → Result A

-- The value of a call, or a value to stand in for it.
abbrev pub ok_or {ℓ} : {A : Type ℓ} → A → Result A → A
ok_or d (ok a) = a
ok_or d (err e) = d

-- `if (!o) throw e`
abbrev pub or_throw {ℓ} : {A : Type ℓ} → Option A → Error → Result A
or_throw none e = err e
or_throw (some a) e = ok a

-- `if (!test) throw e`
abbrev pub guard : Bool → Error → Result (Unit {0})
guard test e = or_throw (if test then some tt else none) e

infixl 5 ◌>>=◌ ◌>>◌
-- What follows a call that throws is not run.
abbrev pub ◌>>=◌ {ℓ κ} : {A : Type ℓ} {B : Type κ} → Result A → (A → Result B) → Result B
err e >>= f = err e
ok a >>= f = f a

abbrev pub ◌>>◌ {ℓ} : {B : Type ℓ} → Result (Unit {0}) → Result B → Result B
first >> rest = first >>= λ u. rest

module _ {ℓ κ} {A : Type ℓ} {B : Type κ} where
  -- Inversion of a successful bind: the call has returned a value, and what follows made of it what
  -- was returned.
  pub >>=-eq-ok :
      (call : Result A) (next : A → Result B) {result : B}
      → (call >>= next) ≡ ok result
      → (value : A) × (call ≡ ok value) × (next value ≡ ok result)
  >>=-eq-ok (err thrown) next returned = cc
  >>=-eq-ok (ok value) next returned = (value, refl, returned)

pub ok-injective {ℓ} : {A : Type ℓ} {a b : A} → ok a ≡ ok b → a ≡ b
ok-injective h = cc

-- Inversion of a successful `or_throw`.
pub or_throw-eq-ok {ℓ} :
    {A : Type ℓ} (o : Option A) (e : Error) (a : A) → or_throw o e ≡ ok a → o ≡ some a
or_throw-eq-ok none e a h = cc
or_throw-eq-ok (some b) e a h = cc
