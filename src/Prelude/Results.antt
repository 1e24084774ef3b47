-- ===== src/Prelude/Results.antt =====
-- `Result<A, E>`, the `?` operator as bind, and the conversion of its error.
use mathlib.Core.Path.{◌≡◌, refl}
use mathlib.Core.Option.{Option, none, some}
use mathlib.Core.Bool.{Bool, true, false}

pub data Result {ℓ κ} (E : Type ℓ) (A : Type κ) : Type (ℓ ⊔ κ) where
  ok : A → Result E A
  err : E → Result E A

module _ {ℓ} {E : Type ℓ} where
  abbrev pub ok_or {κ} : {A : Type κ} → Option A → E → Result E A
  ok_or none missing = err missing
  ok_or (some a) missing = ok a

  -- An early return with an error unless the test passes.
  abbrev pub guard : Bool → E → Result E (Unit {0})
  guard false failure = err failure
  guard true failure = ok tt

  abbrev pub map_err {κ ι} : {F : Type κ} {A : Type ι} → (E → F) → Result E A → Result F A
  map_err f (ok a) = ok a
  map_err f (err e) = err (f e)

  infixl 5 ◌>>=◌ ◌>>◌
  abbrev pub ◌>>=◌ {κ ι} : {A : Type κ} {B : Type ι} → Result E A → (A → Result E B) → Result E B
  ◌>>=◌ (err e) next = err e
  ◌>>=◌ (ok a) next = next a

  abbrev pub ◌>>◌ {κ} : {B : Type κ} → Result E (Unit {0}) → Result E B → Result E B
  ◌>>◌ first next = ◌>>=◌ first (λ _. next)

  -- A chain that succeeds has succeeded at its first step, and then at the others.
  pub >>=-eq-ok {κ ι} :
      {A : Type κ} {B : Type ι} (first : Result E A) (next : A → Result E B) {b : B}
      → (first >>= next) ≡ ok b
      → (a : A) × (first ≡ ok a) × (next a ≡ ok b)
  >>=-eq-ok (err e) next done = cc
  >>=-eq-ok (ok a) next done = (a, refl, done)
