-- ===== src/AutoUpdate/Api.antt =====
-- Actions on the state: the client calls of a reconcile, each of which the server may refuse.
pub mod Leads
pub mod Keeps
pub mod Returns
pub mod Triples
use openclaw_operator.Prelude.{
  ℕ, String, Bool, true, false, Option, none, some, List, [], ◌∷◌, ◌++◌, Result, ok, err,
  if◌then◌else◌,
}
use openclaw_operator.GoMap.{GoMap, get, set}
use openclaw_operator.AutoUpdate.{
  World, Instance, Spec, Status, AutoUpdateStatus, StatefulSet, Job, Event, Answer, accepted,
  already_exists_answer, rejected, CtrlResult, Error, not_found, already_exists, api_failed,
}

-- An action returns a value or an error. What it did before an error stays done.
abbrev pub Action : Type 0 → Type 0
Action A = World → Result Error A × World

infixl 5 ◌>>=◌ ◌>>◌
unfoldable pub ◌>>=◌ : {A B : Type 0} → Action A → (A → Action B) → Action B
◌>>=◌ m f w = let (r, w') = m w in elim r [ ok a ↦ f a w' | err e ↦ (err e, w') ]

abbrev pub ◌>>◌ : {A B : Type 0} → Action A → Action B → Action B
m >> k = m >>= λ _. k

unfoldable pub pure : {A : Type 0} → A → Action A
pure a w = (ok a, w)

unfoldable pub raise : {A : Type 0} → Error → Action A
raise e w = (err e, w)

-- `v, err := m()`, with the error as a value.
unfoldable pub attempt : {A : Type 0} → Action A → Action (Result Error A)
attempt m w = let (r, w') = m w in (ok r, w')

-- `if err != nil { failed(err) } else { next(v) }`
unfoldable pub on_result :
    {A B : Type 0} → Result Error B → (Error → Action A) → (B → Action A) → Action A
on_result (ok x) failed next = next x
on_result (err e) failed next = failed e

-- `if apierrors.IsNotFound(err) { missing }; if err != nil { return err }; next(v)`
unfoldable pub on_found : {A B : Type 0} → Result Error B → Action A → (B → Action A) → Action A
on_found (ok x) missing next = next x
on_found (err not_found) missing next = missing
on_found (err e) missing next = raise e

-- `if apierrors.IsAlreadyExists(err) { there }; if err != nil { return err }; next`
unfoldable pub on_created : {A : Type 0} → Result Error (Unit {0}) → Action A → Action A → Action A
on_created (ok u) there next = next
on_created (err already_exists) there next = there
on_created (err e) there next = raise e

-- A value that may be nil.
unfoldable pub on_option : {A B : Type 0} → Option B → Action A → (B → Action A) → Action A
on_option none missing next = missing
on_option (some x) missing next = next x

unfoldable pub gets : {A : Type 0} → (World → A) → Action A
gets f w = (ok (f w), w)

unfoldable pub update : (World → World) → Action (Unit {0})
update f w = (ok tt, f w)

-- An assignment to fields of `instance.Status`, in memory.
unfoldable pub modify_status : (Status → Status) → Action (Unit {0})
modify_status f w = (ok tt, record w { inst = record w.inst { status = f w.inst.status } })

-- `r.Recorder.Event`
unfoldable pub emit : Event → Action (Unit {0})
emit e w = (ok tt, record w { events = w.events ++ e ∷ [] })

abbrev to_result : Answer → Result Error (Unit {0})
to_result accepted = ok tt
to_result already_exists_answer = err already_exists
to_result (rejected text) = err (api_failed text)

-- The next answer; behind those that are listed the server accepts.
unfoldable pub answer : List Answer → World → Result Error (Unit {0}) × World
answer [] w = (ok tt, w)
answer (a ∷ rest) w = (to_result a, record w { answers = rest })

-- One request, with the server's answer.
unfoldable pub request : Action (Unit {0})
unfolding answer
request w = answer w.answers w

-- `r.Get` of the StatefulSet.
unfoldable pub get_sts : Action StatefulSet
get_sts = do request; sts ← gets (λ w. w.sts); on_option sts (raise not_found) pure

-- `r.Patch` of the StatefulSet that was got, with a new number of replicas. Every caller has just
-- got it, so the patch of one that is gone does nothing here.
unfoldable pub scale : ℕ → Action (Unit {0})
scale n = do
  request
  update (λ w. record w {
    sts = elim w.sts [ none ↦ none | some s ↦ some (record s { replicas = some n }) ];
  })

-- `r.List` of the pods, of which the length is read.
unfoldable pub list_pods : Action ℕ
list_pods = do request; gets (λ w. w.pods)

-- `getJob` of internal/controller/s3.go
unfoldable pub get_job : String → Action Job
get_job name = do request; job ← gets (λ w. get name w.jobs); on_option job (raise not_found) pure

-- `r.Create` of a Job.
unfoldable pub create_job : Job → Action (Unit {0})
create_job job = do
  request
  old ← gets (λ w. get job.name w.jobs)
  on_option old (update (λ w. record w { jobs = set job.name job w.jobs }))
      (λ j. raise already_exists)

-- `r.Status().Update`: the server takes the status, and the object in memory becomes what the
-- server then stores.
unfoldable pub store_status : World → World
store_status w =
    let next = record w.stored { status = w.inst.status } in record w { stored = next; inst = next }

unfoldable pub update_status : Action (Unit {0})
unfolding store_status
update_status = do request; update store_status

-- `instance.Spec.Image.Tag = v; r.Patch(ctx, instance, client.MergeFrom(original))`: the tag is
-- set in memory first; the server takes the tag, and the object in memory becomes what the server
-- then stores, its status included.
abbrev pub tagged : String → Instance → Instance
tagged v inst = record inst { spec = record inst.spec { image_tag = v } }

unfoldable pub store_tag : String → World → World
store_tag v w = let next = tagged v w.stored in record w { stored = next; inst = next }

unfoldable pub patch_tag : String → Action (Unit {0})
unfolding store_tag
patch_tag v = do update (λ w. record w { inst = tagged v w.inst }); request; update (store_tag v)

abbrev pub no_requeue : CtrlResult
no_requeue = record { requeue = false; requeue_after = 0 }

abbrev pub requeue_now : CtrlResult
requeue_now = record { requeue = true; requeue_after = 0 }

abbrev pub after : ℕ → CtrlResult
after seconds = record { requeue = false; requeue_after = seconds }
