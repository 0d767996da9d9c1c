-- ===== src/Prelude/Results.antt =====
-- A function that returns a value and an `error`: the error is nil exactly in `ok`.
use mathlib.Core.Path.{◌≡◌, refl}
use native.Mathlib.Omega.{arith}

pub data Result {ℓ} (E A : Type ℓ) : Type ℓ where
  ok : A → Result E A
  err : E → Result E A

module _ {ℓ} {E A B : Type ℓ} where
  infixl 5 ◌>>=◌ ◌>>◌
  -- `v, err := first; if err != nil { return err }; next(v)`
  abbrev pub ◌>>=◌ : Result E A → (A → Result E B) → Result E B
  first >>= next = elim first [ err e ↦ err e | ok v ↦ next v ]

  abbrev pub ◌>>◌ : Result E A → Result E B → Result E B
  first >> second = elim first [ err e ↦ err e | ok _ ↦ second ]

  -- A sequence gives a value only where both of its parts do.
  pub >>=-eq-ok :
      (first : Result E A) (next : A → Result E B) {w : B}
      → (first >>= next) ≡ ok w
      → (v : A) × (first ≡ ok v) × (next v ≡ ok w)
  >>=-eq-ok (err e) next given = ground (arith, given)
  >>=-eq-ok (ok v) next given = (v, refl, given)
