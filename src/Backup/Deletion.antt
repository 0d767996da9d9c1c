-- ===== src/Backup/Deletion.antt =====
-- `reconcileDeleteWithBackup`, `removeFinalizer` and `orphanPVC` of internal/controller/backup.go.
pub mod Excuses
pub mod Orphan
pub mod Rounds
pub mod Progress
pub mod Stuck
use openclaw_operator.Prelude.{
  ℕ, ◌-◌, String, Bool, true, false, not, ◌&&◌, ◌||◌, Option, none, some, List, [], ◌∷◌, concat,
  ltb, leb, eqb, length, ◌==◌, if◌then◌else◌, Result, ok, err,
}
use openclaw_operator.GoMap.{get}
use openclaw_operator.AutoUpdate.{
  World, Instance, Spec, Status, Phase, terminating, phase_backing_up, StatefulSet, Job,
  JobConditionType, job_complete, job_failed, backup_started, backup_complete, backup_timed_out,
  backup_skipped, backup_credentials_failed, backup_job_failed, CtrlResult, Error, not_found,
}
use openclaw_operator.AutoUpdate.Api.{
  Action, ◌>>=◌, ◌>>◌, pure, raise, attempt, gets, update, request, modify_status, emit, get_sts,
  scale, list_pods, get_job, create_job, update_status, no_requeue, after, on_result, on_found,
  on_created, on_option,
}
use openclaw_operator.AutoUpdate.Intervals.{parse_backup_timeout}
use openclaw_operator.AutoUpdate.S3.{
  S3Credentials, get_s3_credentials, reconcile_s3_mirror_secret, get_tenant_id, backup_labels,
  is_job_finished, build_rclone_job,
}
use openclaw_operator.AutoUpdate.Backup.{is_scaled_up}
use openclaw_operator.AutoUpdate.Rollback.{is_persistence_enabled}

abbrev pub finalizer_name : String
finalizer_name = "openclaw.rocks/finalizer"

abbrev pub annotation_skip_backup : String
annotation_skip_backup = "openclaw.rocks/skip-backup"

-- `backupJobName`
unfoldable pub backup_job_name : Instance → String
backup_job_name inst = concat (inst.name ∷ "-backup" ∷ [])

-- The texts that are not `x`, as `RemoveFinalizer` and the loop of `orphanPVC` keep them.
unfoldable pub without : String → List String → List String
without x [] = []
without x (y ∷ ys) = if y == x then without x ys else y ∷ without x ys

-- `orphanPVC`
unfoldable pub orphan_pvc : Action (Unit {0})
orphan_pvc = do
  request
  w ← gets (λ w. w)
  on_option w.owners (pure tt) (λ owners.
      if eqb (length (without w.inst.uid owners)) (length owners)
      then pure tt
      else (do request; update (λ w'. record w' { owners = some (without w.inst.uid owners) })))

-- The claim is the operator's, and shall outlive the instance.
unfoldable pub keeps_claim : Instance → Bool
keeps_claim inst =
    (elim inst.orphan [ none ↦ true | some b ↦ b ])
    && is_persistence_enabled inst
    && inst.existing_claim == ""

-- `controllerutil.RemoveFinalizer`, in memory.
abbrev pub released : Instance → Instance
released inst = record inst {
  spec = record inst.spec { finalizers = without finalizer_name inst.spec.finalizers };
}

-- `r.Update(ctx, instance)`: the server takes all but the status.
unfoldable pub store_object : World → World
store_object w =
    let next = record w.inst { status = w.stored.status } in record w { stored = next; inst = next }

unfoldable pub remove_finalizer : Action CtrlResult
unfolding store_object
remove_finalizer = do
  inst ← gets (λ w. w.inst)
  if keeps_claim inst then (do attempt orphan_pvc; pure tt) else pure tt
  update (λ w. record w { inst = released w.inst })
  request
  update store_object
  pure no_requeue

-- The end of the branches that give the backup up at once.
unfoldable pub let_go : Action CtrlResult
let_go = do modify_status (λ s. record s { phase = terminating }); update_status; remove_finalizer

-- `instance.Annotations[AnnotationSkipBackup] == "true"`
unfoldable pub is_backup_skipped : Instance → Bool
is_backup_skipped inst = elim (get annotation_skip_backup inst.annotations) [
  | none ↦ false
  | some v ↦ v == "true"
]

abbrev pub is_under_way : Phase → Bool
is_under_way Phase.phase_backing_up = true
is_under_way Phase.terminating = true
is_under_way p = false

abbrev pub backup_begun : ℕ → Status → Status
backup_begun now s = record s { phase = phase_backing_up; backing_up_since = some now }

-- Step 1: the phase, and the time at which the backup began.
unfoldable pub begin_backup : Action (Unit {0})
begin_backup = do
  w ← gets (λ w. w)
  if is_under_way w.inst.phase
      then pure tt
      else (do modify_status (backup_begun w.now); update_status)

-- Step 2: `BackingUpSince != nil`, and the timeout has elapsed.
unfoldable pub is_timed_out : World → Bool
is_timed_out w = elim w.inst.backing_up_since [
  | none ↦ false
  | some since ↦ leb (parse_backup_timeout w.inst.backup_timeout) (w.now - since)
]

abbrev pub timed_out : Status → Status
timed_out s = record s {
  backup_condition = some (record { is_true = false; reason = "BackupTimedOut" });
  phase = terminating;
  backing_up_since = none;
}

unfoldable pub time_out : Action CtrlResult
time_out = do emit backup_timed_out; modify_status timed_out; update_status; remove_finalizer

unfoldable pub deletion_path : World → String
deletion_path w =
    concat ("backups/" ∷ get_tenant_id w.inst ∷ "/" ∷ w.inst.name ∷ "/" ∷ w.timestamp ∷ [])

abbrev pub path_recorded : World → Status → Status
path_recorded w s = record s {
  last_backup_path = deletion_path w;
  backup_job_name = backup_job_name w.inst;
}

-- The path in the status, which is set where there is none.
unfoldable pub record_path : Action String
record_path = do
  w ← gets (λ w. w)
  if w.inst.last_backup_path == ""
      then (do modify_status (path_recorded w); update_status; pure (deletion_path w))
      else pure w.inst.last_backup_path

unfoldable pub create_backup_job : S3Credentials → Action CtrlResult
create_backup_job creds = do
  path ← record_path
  inst ← gets (λ w. w.inst)
  created ← attempt (
      create_job (
        build_rclone_job (backup_job_name inst) inst path (backup_labels inst "backup") creds true))
  on_created created (pure (after 10)) (do emit backup_started; pure (after 10))

abbrev pub backup_failed_status : Status → Status
backup_failed_status s = record s {
  backup_condition = some (record { is_true = false; reason = "BackupFailed" });
}

abbrev pub backed_up_status : ℕ → Status → Status
backed_up_status now s = record s {
  last_backup_time = some now;
  phase = terminating;
  backing_up_since = none;
  backup_condition = some (record { is_true = true; reason = "BackupSucceeded" });
}

-- Step 6
unfoldable pub finish_backup : Action CtrlResult
finish_backup = do
  emit backup_complete
  now ← gets (λ w. w.now)
  modify_status (backed_up_status now)
  update_status
  remove_finalizer

-- A Job that is there, by `isJobFinished`.
unfoldable pub by_backup_job : Option JobConditionType → Action CtrlResult
by_backup_job none = pure (after 10)
by_backup_job (some job_failed) = do
  emit backup_job_failed
  modify_status backup_failed_status
  update_status
  pure (after 30)
by_backup_job (some job_complete) = finish_backup

-- Step 5 behind the credentials.
unfoldable pub run_deletion_job : S3Credentials → Action CtrlResult
run_deletion_job creds = do
  reconcile_s3_mirror_secret creds
  inst ← gets (λ w. w.inst)
  existing ← attempt (get_job (backup_job_name inst))
  on_found existing (create_backup_job creds)
      (λ job. by_backup_job (is_job_finished job.conditions))

-- No credentials: the backup is skipped; any other error is tried again.
unfoldable pub without_credentials : Error → Action CtrlResult
without_credentials not_found = do emit backup_skipped; let_go
without_credentials e = do emit backup_credentials_failed; pure (after 30)

unfoldable pub back_up : Action CtrlResult
back_up = do
  creds ← attempt get_s3_credentials
  on_result creds without_credentials run_deletion_job

-- Steps 3 and 4; `r.Update` of the StatefulSet that was got is `scale`.
unfoldable pub stop_and_back_up : StatefulSet → Action CtrlResult
stop_and_back_up sts =
    if is_scaled_up sts.replicas
    then (do scale 0; pure (after 5))
    else do pods ← list_pods; if ltb 0 pods then pure (after 5) else back_up

unfoldable pub delete_in_time : Action CtrlResult
delete_in_time = do found ← attempt get_sts; on_found found back_up stop_and_back_up

unfoldable pub delete_with_backup : Action CtrlResult
delete_with_backup = do
  begin_backup
  w ← gets (λ w. w)
  if is_timed_out w then time_out else delete_in_time

unfoldable pub reconcile_delete_with_backup : Action CtrlResult
reconcile_delete_with_backup = do
  inst ← gets (λ w. w.inst)
  if is_backup_skipped inst
      then let_go
      else if is_persistence_enabled inst
      then delete_with_backup
      else let_go
