-- ===== src/Backup/Schedule/Desired.antt =====
-- Which periodic backup `reconcileBackupCronJob` of internal/controller/s3.go leaves behind.
use openclaw_operator.Prelude.{
  String, ◌≡◌, refl, none, some, Option, [], arith, ok, err, Result, if◌then◌else◌, ◌==◌,
}
use openclaw_operator.GoMap.{GoMap}
use openclaw_operator.AutoUpdate.{World, CronJob, not_found, Error}
use openclaw_operator.AutoUpdate.Api.{
  ◌>>=◌, pure, raise, attempt, gets, update, request, answer, modify_status, on_result, on_found,
  on_option,
}
use openclaw_operator.AutoUpdate.S3.{
  S3Credentials, read_credentials, get_s3_credentials, reconcile_s3_mirror_secret,
  mirror_secret_name,
}
use openclaw_operator.AutoUpdate.Rollback.{is_persistence_enabled}
use openclaw_operator.Backup.Schedule.{
  backup_cron_job_name, build_backup_cron_job, get_cron_job, cleanup_backup_cron_job, put_cron_job,
  schedule_backup, with_credentials, reconcile_backup_cron_job, no_cron_job, unscheduled, scheduled,
}

-- The credentials that the Secret holds, if they are complete.
abbrev pub usable : Option (GoMap String) → Option S3Credentials
usable none = none
usable (some m) = elim (read_credentials m) [ err e ↦ none | ok creds ↦ some creds ]

-- The periodic backup that an instance shall have: none without a schedule or without a claim, and
-- else the one for the credentials. Without credentials it stays what it was.
abbrev pub desired : World → Option CronJob
desired w =
    if w.inst.schedule == ""
    then none
    else if is_persistence_enabled w.inst
    then elim (usable w.secret) [
      | none ↦ w.cron_job
      | some creds ↦ some (build_backup_cron_job w.inst creds (mirror_secret_name w.inst))
    ]
    else none

cleanup_lem :
    (w : World)
    → w.answers ≡ []
    → cleanup_backup_cron_job w ≡ (
      ok tt,
      record w { cron_job = none; inst = record w.inst { status = no_cron_job w.inst.status } },
    )
unfolding cleanup_backup_cron_job get_cron_job modify_status on_found on_option attempt gets pure
    raise update request answer ◌>>=◌
cleanup_lem w a = ground (arith, a)

schedule_backup_lem :
    (w : World) (creds : S3Credentials)
    → w.answers ≡ []
    → schedule_backup creds w ≡ (
      ok tt,
      record w {
        cron_job = some (build_backup_cron_job w.inst creds (mirror_secret_name w.inst));
        inst = record w.inst { status = scheduled (backup_cron_job_name w.inst) w.inst.status };
      },
    )
unfolding schedule_backup reconcile_s3_mirror_secret put_cron_job modify_status gets pure update
    request answer ◌>>=◌
schedule_backup_lem w creds a = ground (arith, a)

-- What the client reads of the Secret.
found_credentials : Option (GoMap String) → Result Error S3Credentials
found_credentials none = err not_found
found_credentials (some m) = read_credentials m

attempt_credentials :
    (w : World)
    → w.answers ≡ []
    → attempt get_s3_credentials w ≡ (ok (found_credentials w.secret), w)
unfolding found_credentials get_s3_credentials on_result on_option attempt gets pure raise request
    answer ◌>>=◌
attempt_credentials w a = by w.secret refl
  where
    by :
        (o : Option (GoMap String))
        → w.secret ≡ o
        → attempt get_s3_credentials w ≡ (ok (found_credentials w.secret), w)
    by none e = ground (arith, a, e)
    by (some m) e = ground (arith, a, e)

with_credentials_lem :
    (w : World)
    → w.answers ≡ []
    → (with_credentials (found_credentials w.secret) w).1.cron_job ≡ (elim (usable w.secret) [
      | none ↦ w.cron_job
      | some creds ↦ some (build_backup_cron_job w.inst creds (mirror_secret_name w.inst))
    ])
unfolding found_credentials with_credentials modify_status on_result
with_credentials_lem w a = by w.secret
  where
    by_read :
        (r : Result Error S3Credentials)
        → (with_credentials r w).1.cron_job
          ≡ (elim (elim r as (λ r. Option S3Credentials) [ err e ↦ none | ok creds ↦ some creds ]) [
            | none ↦ w.cron_job
            | some creds ↦ some (build_backup_cron_job w.inst creds (mirror_secret_name w.inst))
          ])
    by_read (err e) = refl
    by_read (ok creds) = rw (schedule_backup_lem w creds a) refl

    by :
        (o : Option (GoMap String))
        → (with_credentials (found_credentials o) w).1.cron_job ≡ (elim (usable o) [
          | none ↦ w.cron_job
          | some creds ↦ some (build_backup_cron_job w.inst creds (mirror_secret_name w.inst))
        ])
    by none = refl
    by (some m) = by_read (read_credentials m)

-- Where the server accepts every request, a reconcile leaves exactly the desired CronJob behind, on
-- every branch.
pub reconcile_backup_cron_job-desired :
    (w : World) → w.answers ≡ [] → (reconcile_backup_cron_job w).1.cron_job ≡ desired w
unfolding reconcile_backup_cron_job modify_status gets ◌>>=◌
reconcile_backup_cron_job-desired w a =
    let unclaimed = record w {
      inst = record w.inst { status = unscheduled "PersistenceDisabled" w.inst.status };
    } in
    ground (
      arith,
      a,
      attempt_credentials w a,
      with_credentials_lem w a,
      cleanup_lem w a,
      cleanup_lem unclaimed a,
    )
