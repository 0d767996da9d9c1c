-- ===== src/Backup/Restore/Outcomes.antt =====
-- What a restore records, and what it leaves where its last request is refused, in
-- `reconcileRestore` of internal/controller/restore.go.
use openclaw_operator.Prelude.{
  String, ◌≡◌, ◌≢◌, true, none, some, [], ◌∷◌, arith, ok, Result, eq_iff, ◌∙◌, sym, ap, Bool, false,
  List, refl,
}
use openclaw_operator.GoMap.{GoMap, get}
use openclaw_operator.AutoUpdate.{
  World, Instance, provisioning, Job, job_complete, Error, accepted, rejected, Answer,
}
use openclaw_operator.AutoUpdate.Api.{
  ◌>>=◌, pure, raise, attempt, gets, update, request, answer, modify_status, emit, get_job,
  update_status, store_status, no_requeue, on_result, on_found, on_option,
}
use openclaw_operator.AutoUpdate.S3.{
  S3Credentials, read_credentials, get_s3_credentials, reconcile_s3_mirror_secret, is_job_finished,
}
use openclaw_operator.AutoUpdate.Backup.{Progress}
use openclaw_operator.Backup.Restore.{
  restore_job_name, enter_restoring, restored, clear_restore_from, finish_restore, by_restore_job,
  run_restore_of, restore, reconcile_restore, is_restoring, entered,
}

-- The restore Job of the instance is there and has completed.
abbrev pub IsRestoreComplete : World → Type 0
IsRestoreComplete w = elim (get (restore_job_name w.inst) w.jobs) [
  | none ↦ ⊥
  | some job ↦ is_job_finished job.conditions ≡ some job_complete
]

-- The stored object says that `path` has been restored, and asks for no restore.
abbrev pub IsRecorded : String → World → Type 0
IsRecorded path w =
    (w.stored.restored_from ≡ path) × (w.stored.restore_from ≡ "") × (w.stored.phase ≡ provisioning)

-- The mirror Secret takes a read and a write, unless the credentials come from the environment, and
-- a restore that has not begun takes a status update: these the server accepts.
abbrev mirror_answers : Bool → List Answer → List Answer
mirror_answers true rest = rest
mirror_answers false rest = accepted ∷ accepted ∷ rest

abbrev begin_answers : Bool → List Answer → List Answer
begin_answers true rest = rest
begin_answers false rest = accepted ∷ rest

-- The server's answers while a restore is finished: the last one refuses the patch of the spec.
abbrev pub refused_at_last : Bool → String → World → World
refused_at_last env_auth text w = record w {
  answers =
      begin_answers (is_restoring w.inst.phase)
        (accepted ∷ mirror_answers env_auth (accepted ∷ accepted ∷ rejected text ∷ []));
}

-- The controller reads the stored object.
abbrev pub reloaded : World → World
reloaded w = record w { inst = w.stored; answers = [] }

-- A restore is about to be finished: the restore Job has completed, the credentials are there, and
-- the object has not been restored before.
pub record IsFinishing (creds : S3Credentials) (w : World) : Type 0 where
  pub asked : w.inst.restore_from ≢ ""
  pub open_yet : w.inst.restored_from ≡ ""
  pub current : w.stored ≡ w.inst
  pub secret : GoMap String
  pub held : w.secret ≡ some secret
  pub read : read_credentials secret ≡ ok creds
  pub job : Job
  pub there : get (restore_job_name w.inst) w.jobs ≡ some job
  pub complete : is_job_finished job.conditions ≡ some job_complete

module _ (text : String) (creds : S3Credentials) where
  -- What the last requests leave, the patch of the spec being refused.
  finish_refused :
      (w : World)
      → w.answers ≡ accepted ∷ rejected text ∷ []
      → w.stored.spec ≡ w.inst.spec
      → (finish_restore w).1.stored
        ≡ record w.inst { status = restored w.inst.restore_from w.inst.status }
  unfolding finish_restore clear_restore_from emit modify_status update_status store_status gets
      pure update request answer ◌>>=◌
  finish_refused w a s = ground (arith, a, s)

  run_refused :
      (w : World) (job : Job)
      → w.answers ≡ mirror_answers creds.env_auth (accepted ∷ accepted ∷ rejected text ∷ [])
      → get (restore_job_name w.inst) w.jobs ≡ some job
      → is_job_finished job.conditions ≡ some job_complete
      → run_restore_of creds w
        ≡ finish_restore (record w { answers = accepted ∷ rejected text ∷ [] })
  unfolding run_restore_of reconcile_s3_mirror_secret get_job by_restore_job on_found on_option
      attempt gets pure raise request answer ◌>>=◌
  run_refused w job a there complete = ground (arith, a, there, complete)

module _ (creds : S3Credentials) (w : World) (text : String) (f : IsFinishing creds w) where
  abbrev start : World
  start = refused_at_last creds.env_auth text w

  -- Behind the credentials.
  abbrev ready : Instance → World
  ready i = record w {
    inst = i;
    stored = i;
    answers = mirror_answers creds.env_auth (accepted ∷ accepted ∷ rejected text ∷ []);
  }

  abbrev begun : Bool → Instance
  begun true = w.inst
  begun false = record w.inst { status = entered w.inst.status }

  restore_refused : restore start ≡ run_restore_of creds (ready (begun (is_restoring w.inst.phase)))
  unfolding restore enter_restoring modify_status update_status store_status get_s3_credentials
      on_result on_option attempt gets pure raise update request answer ◌>>=◌
  restore_refused = ground (arith, f.held, f.read, f.current)

  reconcile_refused : reconcile_restore start ≡ restore start
  unfolding reconcile_restore gets ◌>>=◌
  reconcile_refused =
      ground
        (arith, f.open_yet, f.asked, eq_iff w.inst.restore_from "", eq_iff w.inst.restored_from "")

  run_begun :
      (b : Bool)
      → (run_restore_of creds (ready (begun b))).1.stored
        ≡ record w.inst { status = restored w.inst.restore_from w.inst.status }
  unfolding restore_job_name
  run_begun true =
      ap (λ (p : Result Error Progress × World). p.1.stored)
        (run_refused text creds (ready (begun true)) f.job refl f.there f.complete)
      ∙ finish_refused text creds _ refl refl
  run_begun false =
      ap (λ (p : Result Error Progress × World). p.1.stored)
        (run_refused text creds (ready (begun false)) f.job refl f.there f.complete)
      ∙ finish_refused text creds _ refl refl

  stored_refused :
      (reconcile_restore start).1.stored
      ≡ record w.inst { status = restored w.inst.restore_from w.inst.status }
  stored_refused =
      ap (λ (p : Result Error Progress × World). p.1.stored) (reconcile_refused ∙ restore_refused)
      ∙ run_begun (is_restoring w.inst.phase)

-- A reconcile of an object that has been restored once does nothing.
already_restored :
    (w : World) → w.inst.restored_from ≢ "" → reconcile_restore w ≡ (ok (no_requeue, true), w)
unfolding reconcile_restore gets pure ◌>>=◌
already_restored w h = ground (arith, h, eq_iff w.inst.restored_from "")

-- Where the restore Job has completed, the controller reads the current object and the credentials
-- are complete, and the server takes every request until it refuses the last, to clear
-- `spec.restoreFrom`, the field is never cleared: the controller finds the request still in the
-- object that it reads, and from then on a reconcile does nothing.
pub reconcile_restore-IsUncleared :
    (creds : S3Credentials) (w : World) (text : String)
    → IsFinishing creds w
    → let later = reloaded (reconcile_restore (refused_at_last creds.env_auth text w)).1 in
      (later.inst.restore_from ≡ w.inst.restore_from)
      × (later.inst.restored_from ≡ w.inst.restore_from)
      × (reconcile_restore later ≡ (ok (no_requeue, true), later))
reconcile_restore-IsUncleared creds w text f =
    let e = stored_refused creds w text f in
    let later = reloaded (reconcile_restore (refused_at_last creds.env_auth text w)).1 in
    let r : later.inst.restored_from ≡ w.inst.restore_from =
      ap (λ (i : Instance). i.restored_from) e in
    (ap (λ (i : Instance). i.restore_from) e, r, already_restored later (λ p. f.asked (sym r ∙ p)))
