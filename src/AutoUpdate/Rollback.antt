-- ===== src/AutoUpdate/Rollback.antt =====
-- `driveRollbackRestore` and `driveRollback` of internal/controller/autoupdate.go.
use openclaw_operator.Prelude.{
  ℕ, ◌+◌, String, Bool, true, false, not, ◌&&◌, none, some, [], ◌∷◌, concat, leb, ◌==◌,
  if◌then◌else◌,
}
use openclaw_operator.AutoUpdate.{
  Instance, Status, idle, provisioning, restore_started, restore_complete, restore_failed,
  rolled_back, paused, CtrlResult, restore_job_failed,
}
use openclaw_operator.AutoUpdate.Api.{
  Action, ◌>>=◌, ◌>>◌, pure, attempt, gets, modify_status, emit, get_sts, get_job, update_status,
  patch_tag, requeue_now, on_result, on_found,
}
use openclaw_operator.AutoUpdate.S3.{
  S3Credentials, get_s3_credentials, reconcile_s3_mirror_secret, backup_labels, is_job_finished,
  build_rclone_job,
}
use openclaw_operator.AutoUpdate.Backup.{
  Progress, done, quiesce, start_job, abort_update, by_outcome,
}

unfoldable pub rollback_restore_job_name : Instance → String
rollback_restore_job_name inst = concat (inst.name ∷ "-rollback-restore" ∷ [])

-- Creating the restore Job, or waiting for the one that is there.
unfoldable pub run_restore_job : String → S3Credentials → Action Progress
run_restore_job backup_path creds = do
  inst ← gets (λ w. w.inst)
  let job_name = rollback_restore_job_name inst
  existing ← attempt (get_job job_name)
  on_found existing
      (start_job
        (build_rclone_job job_name inst backup_path (backup_labels inst "rollback-restore") creds
          false)
        (emit restore_started))
      (λ job.
        by_outcome (is_job_finished job.conditions) (restore_job_failed job_name)
          (do emit restore_complete; done))

-- Behind the wait for the pods.
unfoldable pub run_restore : String → Action Progress
run_restore backup_path = do
  creds ← get_s3_credentials
  reconcile_s3_mirror_secret creds
  run_restore_job backup_path creds

unfoldable pub drive_rollback_restore : String → Action Progress
drive_rollback_restore backup_path = do
  found ← attempt get_sts
  on_found found done (quiesce (run_restore backup_path))

-- `resources.IsPersistenceEnabled` of internal/resources/common.go
unfoldable pub is_persistence_enabled : Instance → Bool
is_persistence_enabled inst = elim inst.persistence_enabled [ none ↦ true | some b ↦ b ]

abbrev pub max_rollback_count : ℕ
max_rollback_count = 3

-- The assignments of steps 8d to 8g.
abbrev pub roll_back : String → Status → Status
roll_back previous s = record s {
  auto_update = record s.auto_update {
    failed_version = s.pending_version;
    pending_version = "";
    update_phase = idle;
    pre_update_backup_path = "";
    previous_version = "";
    last_update_error =
        concat (
          "version " ∷ s.pending_version ∷ " failed health check, rolled back to " ∷ previous ∷ []);
    rollback_count = s.rollback_count + 1;
    current_version = previous;
  };
  phase = provisioning;
  available = none;
}

-- Step 8c and what follows: the tag, then the status.
unfoldable pub revert_tag : String → Action CtrlResult
revert_tag previous = do
  patch_tag previous
  modify_status (roll_back previous)
  update_status
  emit rolled_back
  count ← gets (λ w. w.inst.rollback_count)
  if leb max_rollback_count count then emit paused else pure tt
  pure requeue_now

-- Step 8b: a restore that fails is reported, and the tag is reverted all the same.
unfoldable pub restore_then_revert : String → String → Action CtrlResult
restore_then_revert previous backup_path = do
  restored ← attempt (drive_rollback_restore backup_path)
  on_result restored (λ e. do emit restore_failed; revert_tag previous)
      (λ (p : Progress). if p.1 then revert_tag previous else pure p.0)

unfoldable pub drive_rollback : Action CtrlResult
drive_rollback = do
  inst ← gets (λ w. w.inst)
  if inst.previous_version == ""
      then abort_update "rollback failed: no previous version recorded"
      else if not (inst.pre_update_backup_path == "") && is_persistence_enabled inst
      then restore_then_revert inst.previous_version inst.pre_update_backup_path
      else revert_tag inst.previous_version
