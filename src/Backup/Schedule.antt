-- ===== src/Backup/Schedule.antt =====
-- The periodic backup of internal/controller/s3.go: `buildBackupCronJob`, `reconcileBackupCronJob`
-- and `cleanupBackupCronJob`.
pub mod Desired
use openclaw_operator.Prelude.{
  ℕ, String, true, false, Option, none, some, List, [], ◌∷◌, concat, append, decimal, ◌==◌,
  if◌then◌else◌, Result, ok, err,
}
use openclaw_operator.AutoUpdate.{World, Instance, Status, CronJob, Error, not_found}
use openclaw_operator.AutoUpdate.Api.{
  Action, ◌>>=◌, ◌>>◌, pure, raise, attempt, gets, update, request, modify_status, on_result,
  on_found, on_option,
}
use openclaw_operator.AutoUpdate.S3.{
  S3Credentials, get_s3_credentials, reconcile_s3_mirror_secret, get_tenant_id, backup_labels,
  pvc_name_for_instance, rclone_env, mirror_secret_name,
}
use openclaw_operator.AutoUpdate.Rollback.{is_persistence_enabled}

-- `backupCronJobName`
unfoldable pub backup_cron_job_name : Instance → String
backup_cron_job_name inst = concat (inst.name ∷ "-backup-periodic" ∷ [])

-- A pointer that may be nil, with its default.
abbrev pub or_default : ℕ → Option ℕ → ℕ
or_default d none = d
or_default d (some n) = n

-- The flags of rclone in the shell command.
unfoldable pub s3_flags : S3Credentials → String
s3_flags creds =
    let auth_flags : String =
      if creds.env_auth
      then "--s3-env-auth=true"
      else "--s3-access-key-id=\"${S3_ACCESS_KEY_ID}\" --s3-secret-access-key=\"${S3_SECRET_ACCESS_KEY}\"" in
    let region : String = if creds.region == "" then "" else " --s3-region=\"${S3_REGION}\"" in
    concat (
      "--s3-provider=" ∷ creds.provider ∷ " --s3-endpoint=\"${S3_ENDPOINT}\" " ∷ auth_flags ∷ region
      ∷ [])

-- The shell command: sync to a fixed path, copy to the snapshot of the day, and purge the
-- snapshots that are older than the retention.
unfoldable pub rclone_cmd : String → String → ℕ → String
rclone_cmd flags remote retention = concat (
    "set -e && R=\""
    ∷ flags
    ∷ "\" && S3=\""
    ∷ remote
    ∷ "\" && echo \"Step 1: incremental sync to latest\""
    ∷ " && rclone sync /data/ \"${S3}/latest\" $R --skip-links --transfers=8 --checkers=16 -v"
    ∷ " && TODAY=$(date -u +%Y-%m-%d) && echo \"Step 2: snapshot ${TODAY}\""
    ∷ " && rclone copy \"${S3}/latest\" \"${S3}/snapshots/${TODAY}\" $R --transfers=8 --checkers=16 -v"
    ∷ " && CUTOFF=$(date -u -d @$(($(date -u +%s) - 86400 * "
    ∷ decimal retention
    ∷ ")) +%Y-%m-%d) && echo \"Step 3: pruning snapshots older than ${CUTOFF} ("
    ∷ decimal retention
    ∷ " day retention)\" && for dir in $(rclone lsf \"${S3}/snapshots/\" $R --dirs-only 2>/dev/null); do"
    ∷ "   d=$(echo \"$dir\" | tr -d \"/\");   if [ \"$d\" \\< \"$CUTOFF\" ]; then"
    ∷ "     echo \"Pruning snapshot $d\";     rclone purge \"${S3}/snapshots/$d\" $R -v;   fi;"
    ∷ " done && echo \"Backup complete\""
    ∷ [])

-- `buildBackupCronJob`: all of the object but what is constant.
unfoldable pub build_backup_cron_job : Instance → S3Credentials → String → CronJob
build_backup_cron_job inst creds secret_name = record {
  name = backup_cron_job_name inst;
  namespace = inst.namespace;
  labels = backup_labels inst "periodic-backup";
  schedule = inst.schedule;
  successful_jobs_history_limit = or_default 3 inst.history_limit;
  failed_jobs_history_limit = or_default 1 inst.failed_history_limit;
  service_account_name = inst.service_account_name;
  node_selector = inst.node_selector;
  tolerations = inst.tolerations;
  claim_name = pvc_name_for_instance inst;
  command =
      rclone_cmd (s3_flags creds)
        (concat (
          ":s3:"
          ∷ creds.bucket
          ∷ "/backups/"
          ∷ get_tenant_id inst
          ∷ "/"
          ∷ inst.name
          ∷ "/periodic"
          ∷ []))
        (or_default 7 inst.retention_days);
  env = rclone_env creds secret_name;
}

abbrev pub no_cron_job : Status → Status
no_cron_job s = record s { backup_cron_job = ""; scheduled_condition = none }

-- `r.Get` of the CronJob.
unfoldable pub get_cron_job : Action CronJob
get_cron_job = do request; job ← gets (λ w. w.cron_job); on_option job (raise not_found) pure

-- `r.Delete`, of which a missing object is no error.
unfoldable pub cleanup_backup_cron_job : Action (Unit {0})
cleanup_backup_cron_job = do
  found ← attempt get_cron_job
  on_found found (modify_status no_cron_job)
      (λ job. do request; update (λ w. record w { cron_job = none }); modify_status no_cron_job)

abbrev pub unscheduled : String → Status → Status
unscheduled why s = record s {
  scheduled_condition = some (record { is_true = false; reason = why });
}

abbrev pub scheduled : String → Status → Status
scheduled job_name s = record s {
  backup_cron_job = job_name;
  scheduled_condition = some (record { is_true = true; reason = "CronJobReady" });
}

-- `CreateOrUpdate`: a request that reads and one that writes, also where nothing changes.
unfoldable pub put_cron_job : CronJob → Action (Unit {0})
put_cron_job job = do request; request; update (λ w. record w { cron_job = some job })

unfoldable pub schedule_backup : S3Credentials → Action (Unit {0})
schedule_backup creds = do
  reconcile_s3_mirror_secret creds
  inst ← gets (λ w. w.inst)
  put_cron_job (build_backup_cron_job inst creds (mirror_secret_name inst))
  modify_status (scheduled (backup_cron_job_name inst))

unfoldable pub with_credentials : Result Error S3Credentials → Action (Unit {0})
with_credentials found =
    on_result found (λ e. modify_status (unscheduled "S3CredentialsMissing")) schedule_backup

unfoldable pub reconcile_backup_cron_job : Action (Unit {0})
reconcile_backup_cron_job = do
  inst ← gets (λ w. w.inst)
  if inst.schedule == ""
      then cleanup_backup_cron_job
      else if is_persistence_enabled inst
      then (do creds ← attempt get_s3_credentials; with_credentials creds)
      else (do modify_status (unscheduled "PersistenceDisabled"); cleanup_backup_cron_job)
