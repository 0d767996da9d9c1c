-- ===== src/AutoUpdate/Backup.antt =====
-- `drivePreUpdateBackup`, `lastPreUpdateBackupPath` and `abortUpdate` of
-- internal/controller/autoupdate.go.
use openclaw_operator.Prelude.{
  ℕ, String, Bool, true, false, Option, none, some, List, [], ◌∷◌, concat, len, slice, ltb, eqb,
  ◌==◌, if◌then◌else◌, Result, ok, err,
}
use openclaw_operator.AutoUpdate.{
  World, Instance, Status, idle, running, StatefulSet, Job, Container, JobConditionType,
  job_complete, job_failed, backup_started, backup_complete, aborted, CtrlResult, Error,
  backup_failed,
}
use openclaw_operator.AutoUpdate.Api.{
  Action, ◌>>=◌, ◌>>◌, pure, raise, attempt, gets, modify_status, emit, get_sts, scale, list_pods,
  get_job, create_job, update_status, no_requeue, after, on_result, on_found, on_created, on_option,
}
use openclaw_operator.AutoUpdate.S3.{
  S3Credentials, get_s3_credentials, reconcile_s3_mirror_secret, get_tenant_id, backup_labels,
  is_job_finished, build_rclone_job,
}

-- `sts.Spec.Replicas == nil || *sts.Spec.Replicas > 0`
abbrev pub is_scaled_up : Option ℕ → Bool
is_scaled_up none = true
is_scaled_up (some n) = ltb 0 n

-- `sts.Spec.Replicas != nil && *sts.Spec.Replicas == 0`
abbrev pub is_scaled_down : Option ℕ → Bool
is_scaled_down none = false
is_scaled_down (some n) = eqb n 0

-- The outcome of a step: what to return, and whether the step is done.
abbrev pub Progress : Type 0
Progress = CtrlResult × Bool

abbrev pub waiting : ℕ → Action Progress
waiting seconds = pure (after seconds, false)

abbrev pub done : Action Progress
done = pure (no_requeue, true)

unfoldable pub pre_update_backup_job_name : Instance → String
pre_update_backup_job_name inst = concat (inst.name ∷ "-pre-update-backup" ∷ [])

-- Scaling the StatefulSet down and waiting until no pod is left, as the backup and the restore
-- both begin; then `next`.
unfoldable pub quiesce : Action Progress → StatefulSet → Action Progress
quiesce next sts =
    if is_scaled_up sts.replicas
    then (do scale 0; waiting 5)
    else do pods ← list_pods; if ltb 0 pods then waiting 5 else next

-- `r.Create` of a Job: one that is there already is waited for.
unfoldable pub start_job : Job → Action (Unit {0}) → Action Progress
start_job job announce = do
  created ← attempt (create_job job)
  on_created created (waiting 10) (do announce; waiting 10)

unfoldable pub backup_path : World → String
backup_path w =
    concat
      ("backups/" ∷ get_tenant_id w.inst ∷ "/" ∷ w.inst.name ∷ "/pre-update-" ∷ w.timestamp ∷ [])

-- `isJobFinished` of a Job that is there: it is waited for, its failure is an error, and what
-- follows its completion is `next`.
unfoldable pub by_outcome : Option JobConditionType → Error → Action Progress → Action Progress
by_outcome none failure next = waiting 10
by_outcome (some job_failed) failure next = raise failure
by_outcome (some job_complete) failure next = next

-- Creating the backup Job, or waiting for the one that is there.
unfoldable pub run_backup_job : S3Credentials → Action Progress
run_backup_job creds = do
  w ← gets (λ w. w)
  let job_name = pre_update_backup_job_name w.inst
  existing ← attempt (get_job job_name)
  on_found existing
      (start_job
        (build_rclone_job job_name w.inst (backup_path w) (backup_labels w.inst "pre-update-backup")
          creds true)
        (emit backup_started))
      (λ job.
        by_outcome (is_job_finished job.conditions) (backup_failed job_name)
          (do emit backup_complete; done))

-- Behind the wait for the pods.
unfoldable pub run_backup : Action Progress
run_backup = do creds ← get_s3_credentials; reconcile_s3_mirror_secret creds; run_backup_job creds

unfoldable pub drive_pre_update_backup : Action Progress
drive_pre_update_backup = do found ← attempt get_sts; on_found found done (quiesce run_backup)

-- What is behind the prefix ":s3:bucket/", if that is not empty; and else what the rest of the
-- loop gives.
unfoldable pub strip_prefix : Result Error S3Credentials → String → Action String → Action String
strip_prefix (err e) remote rest = rest
strip_prefix (ok creds) remote rest =
    let prefix = concat (":s3:" ∷ creds.bucket ∷ "/" ∷ []) in
    if ltb (len prefix) (len remote) then pure (slice remote (len prefix) (len remote)) else rest

-- `c.Args[1]`, where there is such an argument.
abbrev pub second_arg : List String → Option String
second_arg [] = none
second_arg (a ∷ []) = none
second_arg (a ∷ b ∷ args) = some b

-- The loop over the containers: those named "rclone" with two arguments or more are looked at.
unfoldable pub path_from : List Container → Action String
path_from [] = pure ""
path_from (c ∷ cs) =
    let rest = path_from cs in
    on_option (second_arg c.args) rest (λ remote.
      if c.name == "rclone"
      then (do creds ← attempt get_s3_credentials; strip_prefix creds remote rest)
      else rest)

unfoldable pub last_pre_update_backup_path : Action String
last_pre_update_backup_path = do
  w ← gets (λ w. w)
  found ← attempt (get_job (pre_update_backup_job_name w.inst))
  on_result found (λ e. pure "") (λ job. path_from job.containers)

-- Scaling a StatefulSet that is at 0 up to 1.
unfoldable pub scale_up : StatefulSet → Action (Unit {0})
scale_up sts = if is_scaled_down sts.replicas then scale 1 else pure tt

abbrev pub clear_update : String → Status → Status
clear_update reason s = record s {
  auto_update = record s.auto_update {
    pending_version = "";
    update_phase = idle;
    last_update_error = reason;
  };
  phase = running;
  available = none;
}

unfoldable pub abort_update : String → Action CtrlResult
abort_update reason = do
  modify_status (clear_update reason)
  emit aborted
  update_status
  found ← attempt get_sts
  on_result found (λ e. pure (after 30)) (λ sts. do attempt (scale_up sts); pure (after 30))
