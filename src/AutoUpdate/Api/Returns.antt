-- ===== src/AutoUpdate/Api/Returns.antt =====
-- What is known of the parts of an action that returned.
use openclaw_operator.Prelude.{◌≡◌, refl, arith, Result, ok, err}
use openclaw_operator.AutoUpdate.{World, Error}
use openclaw_operator.AutoUpdate.Api.{Action, ◌>>=◌}

ok_not_err : {A : Type 0} {e : Error} {a : A} → ◌≡◌ {A = Result Error A} (err e) (ok a) → ⊥
ok_not_err p = ground (arith, p)

-- An action in two parts returns where both do.
pub >>=-ok :
    {A B : Type 0} (m : Action A) (f : A → Action B) (w : World) (b : B)
    → ((m >>= f) w).0 ≡ ok b
    → (a : A) × ((m w).0 ≡ ok a) × ((f a (m w).1).0 ≡ ok b)
unfolding ◌>>=◌
>>=-ok {A} {B} m f w b p = split (m w).0 (m w).1 refl p
  where
    split :
        (r : Result Error A) (w' : World)
        → (m w).0 ≡ r
        → (elim r as (λ r. Result Error B × World) [ ok a ↦ f a w' | err e ↦ (err e, w') ]).0 ≡ ok b
        → (a : A) × ((m w).0 ≡ ok a) × ((f a w').0 ≡ ok b)
    split (ok a) w' q p = (a, q, p)
    split (err e) w' q p = absurd (ok_not_err p)
