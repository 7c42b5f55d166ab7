-- ===== src/Prelude/Runs.antt =====
-- The outcome of a call with a loop that is given fuel: `none` when the fuel has run out, and else
-- what the call returns or throws.
use mathlib.Core.Path.{◌≡◌, refl}
use mathlib.Core.Option.{Option, none, some}
use elchi_backend.Prelude.Results.{Result, ok, err}

abbrev pub Run : Type 0 → Type 0
Run A = Option (Result A)

infixl 5 ◌>>=◌ ◌>>◌
abbrev pub ◌>>=◌ : {A B : Type 0} → Run A → (A → Run B) → Run B
none >>= f = none
some (err e) >>= f = some (err e)
some (ok a) >>= f = f a

abbrev pub ◌>>◌ : {B : Type 0} → Run (Unit {0}) → Run B → Run B
first >> rest = first >>= λ u. rest

-- A loop that throws nothing.
abbrev pub finished : {A : Type 0} → Option A → Run A
finished none = none
finished (some a) = some (ok a)

-- Inversion of a run that has returned a value.
pub >>=-eq-ok :
    {A B : Type 0} (call : Run A) (next : A → Run B) {result : B}
    → (call >>= next) ≡ some (ok result)
    → (value : A) × (call ≡ some (ok value)) × (next value ≡ some (ok result))
>>=-eq-ok none next returned = cc
>>=-eq-ok (some (err e)) next returned = cc
>>=-eq-ok (some (ok value)) next returned = (value, refl, returned)
