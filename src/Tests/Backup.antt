-- ===== src/Tests/Backup.antt =====
-- The theorems on the backup before an update at concrete worlds.
use openclaw_operator.Prelude.{◌≡◌, refl, true, some, [], ◌∷◌, ok}
use openclaw_operator.GoMap.{get}
use openclaw_operator.AutoUpdate.{World, Instance, backing_up, updating, Job, job_complete}
use openclaw_operator.AutoUpdate.Api.{
  ◌>>=◌, gets, pure, raise, update, request, answer, store_status, update_status, modify_status,
  patch_tag, store_tag, emit, attempt, on_result, on_found, on_option, get_sts, get_job, list_pods,
  scale, no_requeue,
}
use openclaw_operator.AutoUpdate.S3.{
  S3Credentials, get_s3_credentials, read_credentials, reconcile_s3_mirror_secret, build_rclone_job,
  is_job_finished, rclone_args,
}
use openclaw_operator.AutoUpdate.Backup.{
  pre_update_backup_job_name, quiesce, by_outcome, run_backup_job, run_backup,
  drive_pre_update_backup, last_pre_update_backup_path, path_from, strip_prefix, scale_up,
}
use openclaw_operator.AutoUpdate.BackupFirst.{
  IsSafeToUpdate, drive_pre_update_backup-IsSafeToUpdate,
}
use openclaw_operator.AutoUpdate.BackupPath.{last_pre_update_backup_path-IsLost}
use openclaw_operator.AutoUpdate.Rollback.{is_persistence_enabled}
use openclaw_operator.AutoUpdate.Drive.{
  takes_backup, drive_steps, backup_then_apply, after_backup, apply_update, scale_back_up,
  finish_update, enter_health_check,
}
use openclaw_operator.AutoUpdate.TagAfterBackup.{drive_steps-IsSafeToUpdate}
use openclaw_operator.Tests.Fixtures.{spec, instance_of, in_flight, scaled, world_of, v2_not_v1}

abbrev creds : S3Credentials
creds = record {
  bucket = "data";
  key_id = "";
  app_key = "";
  endpoint = "https://s3";
  region = "";
  provider = "Other";
  env_auth = true;
}

abbrev instance : Instance
instance = record (instance_of "v1" (in_flight backing_up) updating) {
  spec = record (spec "v1") { backup_before_update = some true };
}

abbrev finished : Job
finished =
    record (build_rclone_job "demo-pre-update-backup" instance "backups/a/demo/pre-update-1" []
      creds true) { conditions = record { type = job_complete; is_true = true } ∷ [] }

-- Scaled down, no pod, and the backup Job complete.
abbrev backed_up : World
backed_up = record (world_of instance) {
  sts = some (scaled 0);
  pods = 0;
  jobs = ("demo-pre-update-backup", finished) ∷ [];
  secret = some (("S3_BUCKET", "data") ∷ ("S3_ENDPOINT", "https://s3") ∷ []);
}

drive_pre_update_backup-IsSafeToUpdate_example : IsSafeToUpdate backed_up
unfolding drive_pre_update_backup quiesce run_backup run_backup_job by_outcome is_job_finished
    build_rclone_job pre_update_backup_job_name get_s3_credentials read_credentials
    reconcile_s3_mirror_secret get_sts get_job list_pods attempt on_found on_option on_result emit
    gets pure raise request answer get ◌>>=◌
drive_pre_update_backup-IsSafeToUpdate_example =
    drive_pre_update_backup-IsSafeToUpdate backed_up no_requeue refl

drive_steps-IsSafeToUpdate_example : IsSafeToUpdate backed_up
unfolding takes_backup is_persistence_enabled drive_steps backup_then_apply after_backup
    apply_update scale_back_up finish_update enter_health_check scale_up scale
    last_pre_update_backup_path path_from strip_prefix rclone_args modify_status update_status
    store_status patch_tag store_tag update drive_pre_update_backup quiesce run_backup
    run_backup_job by_outcome is_job_finished build_rclone_job pre_update_backup_job_name
    get_s3_credentials read_credentials reconcile_s3_mirror_secret get_sts get_job list_pods attempt
    on_found on_option on_result emit gets pure raise request answer get ◌>>=◌
drive_steps-IsSafeToUpdate_example = drive_steps-IsSafeToUpdate backed_up refl refl v2_not_v1

last_pre_update_backup_path-IsLost_example : (last_pre_update_backup_path backed_up).0 ≡ ok ""
unfolding get pre_update_backup_job_name
last_pre_update_backup_path-IsLost_example =
    last_pre_update_backup_path-IsLost backed_up "backups/a/demo/pre-update-1" [] instance creds
      (record { type = job_complete; is_true = true } ∷ []) refl
