-- ===== src/AutoUpdate/Api/Leads.antt =====
-- What an action does to the object in memory and to the stored one: one rule for each way to
-- build an action, whatever the server answers.
use openclaw_operator.Prelude.{
  ◌≡◌, refl, Bool, true, false, Option, none, some, Result, ok, err, if◌then◌else◌,
}
use openclaw_operator.AutoUpdate.{World, Instance, Status, Error, not_found}
use openclaw_operator.AutoUpdate.Api.{
  Action, ◌>>=◌, raise, gets, modify_status, on_option, on_result, on_found,
}

pub record Leads {A : Type 0} (P Q : Instance → Instance → Type 0) (m : Action A) : Type 0 where
  pub at : (w : World) → P w.inst w.stored → Q (m w).1.inst (m w).1.stored

abbrev pub Keeps : {A : Type 0} (P : Instance → Instance → Type 0) → Action A → Type 0
Keeps P m = Leads P P m

module _ {P Q : Instance → Instance → Type 0} where
  pub Leads-bind :
      {A B : Type 0} (m : Action A) (f : A → Action B)
      → ((i s : Instance) → P i s → Q i s)
      → Keeps P m
      → ((a : A) → Leads P Q (f a))
      → Leads P Q (m >>= f)
  unfolding ◌>>=◌
  Leads-bind {A} {B} m f sub km kf = record { at = λ w h. next (m w).0 (m w).1 (km.at w h) }
    where
      next :
          (r : Result Error A) (w' : World)
          → P w'.inst w'.stored
          → let out = elim r as (λ r. Result Error B × World) [
            | ok a ↦ f a w'
            | err e ↦ (err e, w')
          ] in
            Q out.1.inst out.1.stored
      next (ok a) w' h = (kf a).at w' h
      next (err e) w' h = sub w'.inst w'.stored h

  pub Leads-then :
      {A B : Type 0} (m : Action A) (f : A → Action B)
      → Leads P Q m
      → ((a : A) → Keeps Q (f a))
      → Leads P Q (m >>= f)
  unfolding ◌>>=◌
  Leads-then {A} {B} m f km kf = record { at = λ w h. next (m w).0 (m w).1 (km.at w h) }
    where
      next :
          (r : Result Error A) (w' : World)
          → Q w'.inst w'.stored
          → let out = elim r as (λ r. Result Error B × World) [
            | ok a ↦ f a w'
            | err e ↦ (err e, w')
          ] in
            Q out.1.inst out.1.stored
      next (ok a) w' h = (kf a).at w' h
      next (err e) w' h = h

  -- What is read has what is known of the state that it is read from.
  pub Leads-gets :
      {A B : Type 0} (f : World → A) (k : A → Action B)
      → ((w : World) → P w.inst w.stored → Leads P Q (k (f w)))
      → Leads P Q (gets f >>= k)
  unfolding ◌>>=◌ gets
  Leads-gets f k l = record { at = λ w h. (l w h).at w h }

  pub Leads-modify_status :
      (f : Status → Status)
      → ((i s : Instance) → P i s → Q (record i { status = f i.status }) s)
      → Leads P Q (modify_status f)
  unfolding modify_status
  Leads-modify_status f k = record { at = λ w h. k w.inst w.stored h }

  pub Leads-if :
      {A : Type 0} (b : Bool) (m n : Action A)
      → (b ≡ true → Leads P Q m)
      → (b ≡ false → Leads P Q n)
      → Leads P Q (if b then m else n)
  Leads-if true m n km kn = km refl
  Leads-if false m n km kn = kn refl

  pub Leads-option :
      {A B : Type 0} (o : Option B) (m : Action A) (f : B → Action A)
      → Leads P Q m
      → ((b : B) → Leads P Q (f b))
      → Leads P Q (on_option o m f)
  unfolding on_option
  Leads-option none m f km kf = km
  Leads-option (some b) m f km kf = kf b

  pub Leads-result :
      {A B : Type 0} (r : Result Error B) (g : Error → Action A) (f : B → Action A)
      → ((e : Error) → Leads P Q (g e))
      → ((b : B) → Leads P Q (f b))
      → Leads P Q (on_result r g f)
  unfolding on_result
  Leads-result (ok b) g f kg kf = kf b
  Leads-result (err e) g f kg kf = kg e

  pub Leads-raise :
      {A : Type 0} (e : Error) → ((i s : Instance) → P i s → Q i s) → Leads P Q (raise {A = A} e)
  unfolding raise
  Leads-raise e sub = record { at = λ w h. sub w.inst w.stored h }

  pub Leads-found :
      {A B : Type 0} (r : Result Error B) (m : Action A) (f : B → Action A)
      → ((i s : Instance) → P i s → Q i s)
      → Leads P Q m
      → ((b : B) → Leads P Q (f b))
      → Leads P Q (on_found r m f)
  unfolding on_found
  Leads-found (ok b) m f sub km kf = kf b
  Leads-found (err not_found) m f sub km kf = km
  Leads-found (err e) m f sub km kf = Leads-raise e sub

  pub Leads-of :
      {A : Type 0} (m : Action A) → ((i s : Instance) → P i s → Q i s) → Keeps P m → Leads P Q m
  Leads-of m sub k = record { at = λ w h. sub (m w).1.inst (m w).1.stored (k.at w h) }

pub Leads-from :
    {P R Q : Instance → Instance → Type 0} {A : Type 0} (m : Action A)
    → ((i s : Instance) → P i s → R i s)
    → Leads R Q m
    → Leads P Q m
Leads-from m sub k = record { at = λ w h. k.at w (sub w.inst w.stored h) }
