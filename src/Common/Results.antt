-- ===== src/Common/Results.antt =====
-- A value or an error, as a Go function returns them.
use mathlib.Core.Path.{◌≡◌, refl}
use mathlib.Core.Bool.{Bool, true, false}
use mathlib.Core.Option.{Option, none, some}

pub data Result {κ ℓ} (E : Type κ) (A : Type ℓ) : Type (κ ⊔ ℓ) where
  err : E → Result E A
  ok : A → Result E A

module _ {E : Type 0} where
  infixl 5 ◌>>=◌ ◌>>◌
  abbrev pub ◌>>=◌ {ℓ ℓ'} : {A : Type ℓ} {B : Type ℓ'} → Result E A → (A → Result E B) → Result E B
  err why >>= next = err why
  ok value >>= next = next value

  -- if err := check(); err != nil { return err }
  abbrev pub ◌>>◌ {ℓ} : {B : Type ℓ} → Result E (Unit {0}) → Result E B → Result E B
  checked >> rest = checked >>= λ nothing. rest

  -- if !condition { return err }
  abbrev pub guard : Bool → E → Result E (Unit {0})
  guard false why = err why
  guard true why = ok tt

  abbrev pub or_fail {ℓ} : {A : Type ℓ} → Option A → E → Result E A
  or_fail none why = err why
  or_fail (some value) why = ok value

  pub bind-eq-ok {ℓ ℓ'} :
      {A : Type ℓ} {B : Type ℓ'} (r : Result E A) (next : A → Result E B) {b : B}
      → (r >>= next) ≡ ok b
      → (value : A) × (r ≡ ok value) × (next value ≡ ok b)
  bind-eq-ok (err why) next h = absurd (cc)
  bind-eq-ok (ok value) next h = (value, refl, h)
