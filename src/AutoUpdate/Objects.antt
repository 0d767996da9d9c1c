-- ===== src/AutoUpdate/Objects.antt =====
-- The backup and the restore leave the instance alone, in memory and on the server.
use openclaw_operator.Prelude.{String, Option, none, some, List, [], ◌∷◌, Result, ok, err, ◌==◌}
use openclaw_operator.AutoUpdate.{
  Instance, StatefulSet, Job, Container, Error, JobConditionType, job_complete, job_failed,
}
use openclaw_operator.AutoUpdate.Api.{Action}
use openclaw_operator.AutoUpdate.Api.Leads.{Keeps, Leads-if, Leads-option}
use openclaw_operator.AutoUpdate.Api.Keeps.{
  keeps_rules, Keeps-bind, Keeps-pure, Keeps-raise, Keeps-attempt,
}
use openclaw_operator.AutoUpdate.S3.{S3Credentials, get_s3_credentials, reconcile_s3_mirror_secret}
use openclaw_operator.AutoUpdate.Backup.{
  Progress, by_outcome, run_backup, quiesce, start_job, run_backup_job, drive_pre_update_backup,
  strip_prefix, path_from, last_pre_update_backup_path, scale_up, second_arg,
}
use openclaw_operator.AutoUpdate.Rollback.{run_restore_job, run_restore, drive_rollback_restore}

module _ {P : Instance → Instance → Type 0} where
  pub Keeps-get_s3_credentials : Keeps P get_s3_credentials
  unfolding get_s3_credentials
  Keeps-get_s3_credentials = search keeps_rules

  pub Keeps-quiesce :
      (next : Action Progress) (sts : StatefulSet) → Keeps P next → Keeps P (quiesce next sts)
  unfolding quiesce
  Keeps-quiesce next sts k = search keeps_rules

  pub Keeps-start_job :
      (job : Job) (announce : Action (Unit {0}))
      → Keeps P announce
      → Keeps P (start_job job announce)
  unfolding start_job
  Keeps-start_job job announce k = search keeps_rules

  pub Keeps-reconcile_s3_mirror_secret :
      (creds : S3Credentials) → Keeps P (reconcile_s3_mirror_secret creds)
  unfolding reconcile_s3_mirror_secret
  Keeps-reconcile_s3_mirror_secret creds = search keeps_rules

  Keeps-by_outcome :
      (o : Option JobConditionType) (e : Error) (next : Action Progress)
      → Keeps P next
      → Keeps P (by_outcome o e next)
  unfolding by_outcome
  Keeps-by_outcome none e next k = Keeps-pure _
  Keeps-by_outcome (some job_failed) e next k = Keeps-raise e
  Keeps-by_outcome (some job_complete) e next k = k

  Keeps-run_backup_job : (creds : S3Credentials) → Keeps P (run_backup_job creds)
  unfolding run_backup_job
  Keeps-run_backup_job creds = search (keeps_rules, Keeps-by_outcome, Keeps-start_job) depth 12

  Keeps-run_backup : Keeps P run_backup
  unfolding run_backup
  Keeps-run_backup = search (
    keeps_rules, Keeps-get_s3_credentials, Keeps-reconcile_s3_mirror_secret, Keeps-run_backup_job,
  )

  pub Keeps-drive_pre_update_backup : Keeps P drive_pre_update_backup
  unfolding drive_pre_update_backup
  Keeps-drive_pre_update_backup = search (keeps_rules, Keeps-quiesce, Keeps-run_backup)

  Keeps-run_restore_job :
      (path : String) (creds : S3Credentials) → Keeps P (run_restore_job path creds)
  unfolding run_restore_job
  Keeps-run_restore_job path creds =
      search (keeps_rules, Keeps-by_outcome, Keeps-start_job) depth 12

  Keeps-run_restore : (path : String) → Keeps P (run_restore path)
  unfolding run_restore
  Keeps-run_restore path = search (
    keeps_rules, Keeps-get_s3_credentials, Keeps-reconcile_s3_mirror_secret, Keeps-run_restore_job,
  )

  pub Keeps-drive_rollback_restore : (path : String) → Keeps P (drive_rollback_restore path)
  unfolding drive_rollback_restore
  Keeps-drive_rollback_restore path = search (keeps_rules, Keeps-quiesce, Keeps-run_restore)

  Keeps-strip_prefix :
      (r : Result Error S3Credentials) (remote : String) (rest : Action String)
      → Keeps P rest
      → Keeps P (strip_prefix r remote rest)
  unfolding strip_prefix
  Keeps-strip_prefix (ok creds) remote rest k = search keeps_rules
  Keeps-strip_prefix (err e) remote rest k = k

  Keeps-path_from : (cs : List Container) → Keeps P (path_from cs)
  unfolding path_from
  Keeps-path_from [] = Keeps-pure ""
  Keeps-path_from (c ∷ cs) =
      let rest = Keeps-path_from cs in
      Leads-option (second_arg c.args) _ _ rest λ remote.
        Leads-if (c.name == "rclone") _ _
          (λ _.
            Keeps-bind _ _ (Keeps-attempt _ Keeps-get_s3_credentials)
              (λ creds. Keeps-strip_prefix creds remote (path_from cs) rest))
          (λ _. rest)

  pub Keeps-last_pre_update_backup_path : Keeps P last_pre_update_backup_path
  unfolding last_pre_update_backup_path
  Keeps-last_pre_update_backup_path = search (keeps_rules, Keeps-path_from)

  pub Keeps-scale_up : (sts : StatefulSet) → Keeps P (scale_up sts)
  unfolding scale_up
  Keeps-scale_up sts = search keeps_rules
