-- ===== src/Backup/Restore.antt =====
-- `reconcileRestore` of internal/controller/restore.go.
pub mod Outcomes
pub mod Recorded
use openclaw_operator.Prelude.{
  String, Bool, true, false, Option, none, some, [], ◌∷◌, concat, ◌==◌, if◌then◌else◌,
}
use openclaw_operator.AutoUpdate.{
  World, Instance, Status, Phase, provisioning, restoring, JobConditionType, job_complete,
  job_failed, restore_started, restore_complete, restore_failed, restore_credentials_failed,
}
use openclaw_operator.AutoUpdate.Api.{
  Action, ◌>>=◌, ◌>>◌, pure, attempt, gets, update, request, modify_status, emit, get_job,
  create_job, update_status, after, on_result, on_found, on_created,
}
use openclaw_operator.AutoUpdate.S3.{
  S3Credentials, get_s3_credentials, reconcile_s3_mirror_secret, backup_labels, is_job_finished,
  build_rclone_job,
}
use openclaw_operator.AutoUpdate.Backup.{Progress, waiting, done}

-- `restoreJobName`
unfoldable pub restore_job_name : Instance → String
restore_job_name inst = concat (inst.name ∷ "-restore" ∷ [])

abbrev pub is_restoring : Phase → Bool
is_restoring Phase.restoring = true
is_restoring p = false

abbrev pub entered : Status → Status
entered s = record s { phase = restoring }

unfoldable pub enter_restoring : Action (Unit {0})
enter_restoring = do
  phase ← gets (λ w. w.inst.phase)
  if is_restoring phase then pure tt else (do modify_status entered; update_status)

abbrev pub job_named : String → Status → Status
job_named job_name s = record s { restore_job_name = job_name }

unfoldable pub create_restore_job : S3Credentials → Action Progress
create_restore_job creds = do
  inst ← gets (λ w. w.inst)
  let job =
      build_rclone_job (restore_job_name inst) inst inst.restore_from (backup_labels inst "restore")
        creds false
  modify_status (job_named (restore_job_name inst))
  update_status
  created ← attempt (create_job job)
  on_created created (waiting 10) (do emit restore_started; waiting 10)

abbrev pub restore_failed_status : Status → Status
restore_failed_status s = record s {
  restore_condition = some (record { is_true = false; reason = "RestoreFailed" });
}

abbrev pub restored : String → Status → Status
restored path s = record s {
  restored_from = path;
  phase = provisioning;
  restore_condition = some (record { is_true = true; reason = "RestoreSucceeded" });
}

abbrev pub cleared : Instance → Instance
cleared inst = record inst { spec = record inst.spec { restore_from = "" } }

-- `r.Patch` that clears `spec.restoreFrom`: the server clears the field, and the object in memory
-- becomes what the server then stores.
unfoldable pub clear_restore_from : Action (Unit {0})
clear_restore_from = do
  update (λ w. record w { inst = cleared w.inst })
  request
  update (λ w. record w { stored = cleared w.stored; inst = cleared w.stored })

unfoldable pub finish_restore : Action Progress
finish_restore = do
  emit restore_complete
  path ← gets (λ w. w.inst.restore_from)
  modify_status (restored path)
  update_status
  clear_restore_from
  done

-- A Job that is there, by `isJobFinished`.
unfoldable pub by_restore_job : Option JobConditionType → Action Progress
by_restore_job none = waiting 10
by_restore_job (some job_failed) = do
  emit restore_failed
  modify_status restore_failed_status
  update_status
  waiting 30
by_restore_job (some job_complete) = finish_restore

unfoldable pub run_restore_of : S3Credentials → Action Progress
run_restore_of creds = do
  reconcile_s3_mirror_secret creds
  inst ← gets (λ w. w.inst)
  existing ← attempt (get_job (restore_job_name inst))
  on_found existing (create_restore_job creds)
      (λ job. by_restore_job (is_job_finished job.conditions))

unfoldable pub restore : Action Progress
restore = do
  enter_restoring
  creds ← attempt get_s3_credentials
  on_result creds (λ e. do emit restore_credentials_failed; waiting 30) run_restore_of

unfoldable pub reconcile_restore : Action Progress
reconcile_restore = do
  inst ← gets (λ w. w.inst)
  if inst.restore_from == "" then done else if inst.restored_from == "" then restore else done
