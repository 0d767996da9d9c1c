-- ===== src/AutoUpdate/Api/Keeps.antt =====
-- What an action keeps of the object in memory and of the stored one, whatever the server answers.
use openclaw_operator.Prelude.{ℕ, String, List, [], ◌∷◌, Result, ok, err}
use openclaw_operator.GoMap.{get}
use openclaw_operator.AutoUpdate.{
  World, Instance, Status, Job, Event, Error, Answer, not_found, already_exists,
}
use openclaw_operator.AutoUpdate.Api.{
  Action, ◌>>=◌, pure, raise, attempt, gets, modify_status, emit, request, get_sts, scale,
  list_pods, get_job, create_job, update_status, patch_tag, update, answer, tagged, on_found,
  on_created,
}
use openclaw_operator.AutoUpdate.Api.Leads.{
  Leads, Keeps, Leads-bind, Leads-if, Leads-option, Leads-result, Leads-raise, Leads-found,
}

Keeps-answer :
    (P : Instance → Instance → Type 0) (l : List Answer) (w : World)
    → P w.inst w.stored
    → P (answer l w).1.inst (answer l w).1.stored
unfolding answer
Keeps-answer P [] w h = h
Keeps-answer P (a ∷ l) w h = h

module _ {P : Instance → Instance → Type 0} where
  pub Keeps-pure : {A : Type 0} (a : A) → Keeps P (pure a)
  unfolding pure
  Keeps-pure a = record { at = λ w h. h }

  pub Keeps-raise : {A : Type 0} (e : Error) → Keeps P (raise {A = A} e)
  unfolding raise
  Keeps-raise e = record { at = λ w h. h }

  pub Keeps-gets : {A : Type 0} (f : World → A) → Keeps P (gets f)
  unfolding gets
  Keeps-gets f = record { at = λ w h. h }

  pub Keeps-attempt : {A : Type 0} (m : Action A) → Keeps P m → Keeps P (attempt m)
  unfolding attempt
  Keeps-attempt m k = record { at = λ w h. k.at w h }

  pub Keeps-bind :
      {A B : Type 0} (m : Action A) (f : A → Action B)
      → Keeps P m
      → ((a : A) → Keeps P (f a))
      → Keeps P (m >>= f)
  Keeps-bind m f km kf = Leads-bind m f (λ i s h. h) km kf

  pub Keeps-found :
      {A B : Type 0} (r : Result Error B) (m : Action A) (f : B → Action A)
      → Keeps P m
      → ((b : B) → Keeps P (f b))
      → Keeps P (on_found r m f)
  Keeps-found r m f km kf = Leads-found r m f (λ i s h. h) km kf

  pub Keeps-created :
      {A : Type 0} (r : Result Error (Unit {0})) (m n : Action A)
      → Keeps P m
      → Keeps P n
      → Keeps P (on_created r m n)
  unfolding on_created
  Keeps-created (ok u) m n km kn = kn
  Keeps-created (err already_exists) m n km kn = km
  Keeps-created (err e) m n km kn = Keeps-raise e

  pub Keeps-emit : (e : Event) → Keeps P (emit e)
  unfolding emit
  Keeps-emit e = record { at = λ w h. h }

  pub Keeps-request : Keeps P request
  unfolding request
  Keeps-request = record { at = λ w h. Keeps-answer P w.answers w h }

  -- An update of the state that leaves both objects alone.
  Keeps-update :
      (f : World → World)
      → ((w : World) → P w.inst w.stored → P (f w).inst (f w).stored)
      → Keeps P (update f)
  unfolding update
  Keeps-update f k = record { at = k }

  pub Keeps-modify_status :
      (f : Status → Status)
      → ((i s : Instance) → P i s → P (record i { status = f i.status }) s)
      → Keeps P (modify_status f)
  unfolding modify_status
  Keeps-modify_status f k = record { at = λ w h. k w.inst w.stored h }

  pub Keeps-get_sts : Keeps P get_sts
  unfolding get_sts
  Keeps-get_sts = Keeps-bind request _ Keeps-request λ u.
      Keeps-bind (gets (λ w. w.sts)) _ (Keeps-gets (λ w. w.sts))
        λ sts. Leads-option sts (raise not_found) pure (Keeps-raise not_found) Keeps-pure

  pub Keeps-scale : (n : ℕ) → Keeps P (scale n)
  unfolding scale
  Keeps-scale n = Keeps-bind request _ Keeps-request (λ u. Keeps-update _ (λ w h. h))

  pub Keeps-list_pods : Keeps P list_pods
  unfolding list_pods
  Keeps-list_pods = Keeps-bind request _ Keeps-request (λ u. Keeps-gets _)

  pub Keeps-get_job : (name : String) → Keeps P (get_job name)
  unfolding get_job
  Keeps-get_job name = Keeps-bind request _ Keeps-request λ u.
      Keeps-bind (gets (λ w. get name w.jobs)) _ (Keeps-gets _)
        λ job. Leads-option job (raise not_found) pure (Keeps-raise not_found) Keeps-pure

  pub Keeps-create_job : (job : Job) → Keeps P (create_job job)
  unfolding create_job
  Keeps-create_job job = Keeps-bind request _ Keeps-request λ u.
      Keeps-bind (gets (λ w. get job.name w.jobs)) _ (Keeps-gets _)
        λ old. Leads-option old _ _ (Keeps-update _ (λ w h. h)) (λ j. Keeps-raise already_exists)

  pub Keeps-update_status :
      ((i s : Instance)
        → P i s
        → P (record s { status = i.status }) (record s { status = i.status }))
      → Keeps P update_status
  unfolding update_status
  Keeps-update_status k =
      Keeps-bind request _ Keeps-request (λ u. Keeps-update _ (λ w h. k w.inst w.stored h))

  pub Keeps-patch_tag :
      (v : String)
      → ((i s : Instance) → P i s → P (tagged v i) s)
      → ((i s : Instance) → P i s → P (tagged v s) (tagged v s))
      → Keeps P (patch_tag v)
  unfolding patch_tag
  Keeps-patch_tag v k l =
      Keeps-bind (update (λ w. record w { inst = tagged v w.inst })) _
        (Keeps-update _ (λ w h. k w.inst w.stored h))
        λ u. Keeps-bind request _ Keeps-request λ u. Keeps-update _ (λ w h. l w.inst w.stored h)

pub ruleset keeps_rules = (
  Keeps-pure, Keeps-raise, Keeps-gets, Keeps-attempt, Keeps-bind, Leads-if, Leads-option,
  Keeps-emit, Keeps-request, Keeps-found, Keeps-created, Leads-result, Keeps-get_sts, Keeps-scale,
  Keeps-list_pods, Keeps-get_job, Keeps-create_job,
)
