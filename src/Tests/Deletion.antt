-- ===== src/Tests/Deletion.antt =====
-- The theorems on backup at deletion, restore and the periodic backup at concrete worlds.
use openclaw_operator.Prelude.{String, ◌≡◌, ◌≢◌, refl, ◌⊎◌, true, some, [], ◌∷◌, ok, arith, eq_iff}
use openclaw_operator.GoMap.{GoMap, get}
use openclaw_operator.AutoUpdate.{
  World, Instance, Job, job_complete, job_failed, terminating, restoring, rejected, running,
}
use openclaw_operator.AutoUpdate.Api.{
  ◌>>=◌, gets, pure, raise, update, request, answer, store_status, update_status, modify_status,
  emit, attempt, on_result, on_found, on_option, get_job, no_requeue, after,
}
use openclaw_operator.AutoUpdate.S3.{
  S3Credentials, get_s3_credentials, read_credentials, reconcile_s3_mirror_secret, build_rclone_job,
  is_job_finished,
}
use openclaw_operator.AutoUpdate.Rollback.{is_persistence_enabled}
use openclaw_operator.Backup.Deletion.{
  reconcile_delete_with_backup, remove_finalizer, keeps_claim, backup_job_name, is_backup_skipped,
}
use openclaw_operator.Backup.Deletion.Excuses.{IsExcused}
use openclaw_operator.Backup.Deletion.Excuses.Release.{reconcile_delete_with_backup-IsExcused}
use openclaw_operator.Backup.Deletion.Progress.{is_gone, Access}
use openclaw_operator.Backup.Deletion.Rounds.{rounds, rounds-is_gone}
use openclaw_operator.Backup.Deletion.Stuck.{IsLost, reconcile_delete_with_backup-IsLost}
use openclaw_operator.Backup.Deletion.Orphan.{remove_finalizer-of_refusal}
use openclaw_operator.Backup.Restore.{
  reconcile_restore, restore_job_name, restore, enter_restoring, run_restore_of, by_restore_job,
  finish_restore, clear_restore_from,
}
use openclaw_operator.Backup.Restore.Outcomes.{
  IsFinishing, IsRestoreComplete, IsRecorded, refused_at_last, reloaded,
  reconcile_restore-IsUncleared,
}
use openclaw_operator.Backup.Restore.Recorded.{reconcile_restore-IsRecorded}
use openclaw_operator.Backup.Schedule.{reconcile_backup_cron_job}
use openclaw_operator.Backup.Schedule.Desired.{desired, reconcile_backup_cron_job-desired}
use openclaw_operator.Tests.Fixtures.{spec, quiet, instance_of, scaled, world_of}

abbrev secret : GoMap String
secret = ("S3_BUCKET", "data") ∷ ("S3_ENDPOINT", "https://s3") ∷ []

abbrev creds : S3Credentials
creds = record {
  bucket = "data";
  key_id = "";
  app_key = "";
  endpoint = "https://s3";
  region = "";
  provider = "Other";
  env_auth = true;
}

readable : read_credentials secret ≡ ok creds
unfolding read_credentials get
readable = refl

abbrev access : Access
access = record { secret = secret; credentials = creds; read = readable }

-- Running, with a pod, and credentials in the operator's namespace.
abbrev serving : World
serving = record (world_of (instance_of "v1" quiet running)) { secret = some secret }

reconcile_delete_with_backup-IsExcused_example :
    ((reconcile_delete_with_backup serving).1.stored.spec ≡ spec "v1") ⊎ IsExcused serving
reconcile_delete_with_backup-IsExcused_example = reconcile_delete_with_backup-IsExcused serving refl

rounds-is_gone_example : is_gone (rounds 3 serving) ≡ true
unfolding get backup_job_name
rounds-is_gone_example = rounds-is_gone access serving (refl, refl, refl, tt)

abbrev job_of : String → World → Job
job_of name w = record (build_rclone_job name w.inst "backups/a/demo/1" [] creds true) {
  conditions = record { type = job_failed; is_true = true } ∷ [];
}

-- Behind a timeout whose finalizer could not be removed.
abbrev lost : World
lost = record (world_of (instance_of "v1" quiet terminating)) {
  sts = some (scaled 0);
  pods = 0;
  secret = some secret;
  jobs = ("demo-backup", job_of "demo-backup" serving) ∷ [];
}

lost-IsLost : IsLost lost
unfolding get backup_job_name is_backup_skipped is_persistence_enabled is_job_finished
    build_rclone_job
lost-IsLost = record {
  accepting = refl;
  current = refl;
  phase = refl;
  since = refl;
  asked = refl;
  claim = refl;
  stopped = (refl, refl);
  secret = secret;
  held = refl;
  credentials = creds;
  read = readable;
  job = job_of "demo-backup" serving;
  there = refl;
  failed = refl;
}

reconcile_delete_with_backup-IsLost_example :
    let out = reconcile_delete_with_backup lost in
    (out.0 ≡ ok (after 30)) × (out.1.stored.spec ≡ spec "v1") × IsLost (record out.1 { now = 100 })
reconcile_delete_with_backup-IsLost_example =
    reconcile_delete_with_backup-IsLost lost lost-IsLost 100

abbrev refusing : World
refusing = record serving { answers = rejected "conflict" ∷ [] }

remove_finalizer-of_refusal_example :
    (is_gone (remove_finalizer refusing).1 ≡ true)
    × ((remove_finalizer refusing).1.owners ≡ some ("1" ∷ []))
unfolding keeps_claim is_persistence_enabled
remove_finalizer-of_refusal_example = remove_finalizer-of_refusal refusing "conflict" refl refl

abbrev asking : Instance
asking = record (instance_of "v1" quiet restoring) {
  spec = record (spec "v1") { restore_from = "backups/a/demo/1" };
}

abbrev restore_job : Job
restore_job = record (job_of "demo-restore" serving) {
  conditions = record { type = job_complete; is_true = true } ∷ [];
}

-- The restore Job has completed.
abbrev copied : World
copied = record (world_of asking) {
  secret = some secret;
  jobs = ("demo-restore", restore_job) ∷ [];
}

path_not_empty : ◌≢◌ {A = String} "backups/a/demo/1" ""
path_not_empty p = ground (arith, (eq_iff "backups/a/demo/1" "").1 p)

reconcile_restore-IsRecorded_example :
    IsRestoreComplete copied × IsRecorded "backups/a/demo/1" (reconcile_restore copied).1
unfolding reconcile_restore restore enter_restoring run_restore_of by_restore_job finish_restore
    clear_restore_from restore_job_name get_s3_credentials read_credentials
    reconcile_s3_mirror_secret is_job_finished get_job emit modify_status update_status store_status
    attempt on_found on_option on_result gets pure raise update request answer get ◌>>=◌
reconcile_restore-IsRecorded_example =
    reconcile_restore-IsRecorded copied no_requeue refl path_not_empty refl refl

copied-IsFinishing : IsFinishing creds copied
unfolding get restore_job_name is_job_finished
copied-IsFinishing = record {
  asked = path_not_empty;
  open_yet = refl;
  current = refl;
  secret = secret;
  held = refl;
  read = readable;
  job = restore_job;
  there = refl;
  complete = refl;
}

reconcile_restore-IsUncleared_example :
    let later = reloaded (reconcile_restore (refused_at_last true "conflict" copied)).1 in
    (later.inst.restore_from ≡ "backups/a/demo/1")
    × (later.inst.restored_from ≡ "backups/a/demo/1")
    × (reconcile_restore later ≡ (ok (no_requeue, true), later))
reconcile_restore-IsUncleared_example =
    reconcile_restore-IsUncleared creds copied "conflict" copied-IsFinishing

-- A backup every night.
abbrev nightly : World
nightly = record serving {
  inst = record serving.inst { spec = record (spec "v1") { schedule = "0 2 * * *" } };
}

reconcile_backup_cron_job-desired_example :
    (reconcile_backup_cron_job nightly).1.cron_job ≡ desired nightly
reconcile_backup_cron_job-desired_example = reconcile_backup_cron_job-desired nightly refl
