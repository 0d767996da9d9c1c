-- ===== src/Backup/Deletion/Stuck.antt =====
-- A deletion whose timeout is lost, in `reconcileDeleteWithBackup` of internal/controller/backup.go.
use openclaw_operator.Prelude.{
  ℕ, String, ◌≡◌, refl, true, false, none, some, [], ◌∷◌, ◌++◌, arith, ok, ap, Result,
}
use openclaw_operator.GoMap.{GoMap, get}
use openclaw_operator.AutoUpdate.{
  World, terminating, Job, job_failed, backup_job_failed, CtrlResult, Error,
}
use openclaw_operator.AutoUpdate.Api.{
  ◌>>=◌, pure, raise, attempt, gets, update, request, answer, modify_status, emit, get_sts,
  list_pods, get_job, update_status, store_status, after, on_result, on_found, on_option,
}
use openclaw_operator.AutoUpdate.S3.{
  S3Credentials, get_s3_credentials, read_credentials, reconcile_s3_mirror_secret, is_job_finished,
}
use openclaw_operator.AutoUpdate.Rollback.{is_persistence_enabled}
use openclaw_operator.Backup.Deletion.{
  backup_job_name, is_backup_skipped, is_timed_out, begin_backup, delete_in_time,
  delete_with_backup, reconcile_delete_with_backup, back_up, stop_and_back_up, run_deletion_job,
  by_backup_job, backup_failed_status,
}
use openclaw_operator.Backup.Deletion.Excuses.{IsStopped}

-- The phase is Terminating with no time at which the backup began, the instance has stopped, and
-- its backup Job has failed. The server accepts every request.
pub record IsLost (w : World) : Type 0 where
  pub accepting : w.answers ≡ []
  pub current : w.stored ≡ w.inst
  pub phase : w.inst.phase ≡ terminating
  pub since : w.inst.backing_up_since ≡ none
  pub asked : is_backup_skipped w.inst ≡ false
  pub claim : is_persistence_enabled w.inst ≡ true
  pub stopped : IsStopped w
  pub secret : GoMap String
  pub held : w.secret ≡ some secret
  pub credentials : S3Credentials
  pub read : read_credentials secret ≡ ok credentials
  pub job : Job
  pub there : get (backup_job_name w.inst) w.jobs ≡ some job
  pub failed : is_job_finished job.conditions ≡ some job_failed

module _ (w : World) (lost : IsLost w) where
  -- What the reconcile leaves behind.
  abbrev Waited : World
  Waited =
      let next = record w.inst { status = backup_failed_status w.inst.status } in
      record w { inst = next; stored = next; events = w.events ++ backup_job_failed ∷ [] }

  begin_backup_lost : begin_backup w ≡ (ok tt, w)
  unfolding begin_backup gets pure ◌>>=◌
  begin_backup_lost = rw (lost.phase) refl

  run_deletion_job_lost : run_deletion_job lost.credentials w ≡ (ok (after 30), Waited)
  unfolding run_deletion_job reconcile_s3_mirror_secret get_job by_backup_job update_status
      store_status modify_status emit on_found on_option attempt gets pure raise update request
      answer ◌>>=◌
  run_deletion_job_lost = ground (arith, lost.accepting, lost.current, lost.there, lost.failed)

  back_up_lost : back_up w ≡ (ok (after 30), Waited)
  unfolding back_up get_s3_credentials on_result on_option attempt gets pure raise request answer
      ◌>>=◌
  back_up_lost = ground (arith, lost.accepting, lost.held, lost.read, run_deletion_job_lost)

  delete_in_time_lost : delete_in_time w ≡ (ok (after 30), Waited)
  unfolding delete_in_time stop_and_back_up get_sts list_pods on_found on_option attempt gets pure
      raise request answer ◌>>=◌
  delete_in_time_lost = ground (arith, lost.accepting, lost.stopped, back_up_lost)

  reconcile_lost : reconcile_delete_with_backup w ≡ (ok (after 30), Waited)
  unfolding reconcile_delete_with_backup delete_with_backup is_timed_out gets ◌>>=◌
  reconcile_lost =
      ground (arith, lost.asked, lost.claim, lost.since, begin_backup_lost, delete_in_time_lost)

  still-IsLost : (now : ℕ) → IsLost (record Waited { now = now })
  unfolding backup_job_name is_backup_skipped is_persistence_enabled
  still-IsLost now = record {
    accepting = lost.accepting;
    current = refl;
    phase = lost.phase;
    since = lost.since;
    asked = lost.asked;
    claim = lost.claim;
    stopped = lost.stopped;
    secret = lost.secret;
    held = lost.held;
    credentials = lost.credentials;
    read = lost.read;
    job = lost.job;
    there = lost.there;
    failed = lost.failed;
  }

-- A deletion whose backup Job has failed, in the phase Terminating and with no time at which the
-- backup began, waits without end: where the server accepts every request, each reconcile waits for
-- 30 seconds, keeps the finalizers, and leaves such a state behind, however late it then is. The
-- backup timeout is not looked at.
pub reconcile_delete_with_backup-IsLost :
    (w : World)
    → IsLost w
    → (now : ℕ)
    → let out = reconcile_delete_with_backup w in
      (out.0 ≡ ok (after 30))
      × (out.1.stored.spec ≡ w.inst.spec)
      × IsLost (record out.1 { now = now })
reconcile_delete_with_backup-IsLost w lost now =
    let e = reconcile_lost w lost in
    (
      ap (λ (p : Result Error CtrlResult × World). p.0) e,
      ap (λ (p : Result Error CtrlResult × World). p.1.stored.spec) e,
      rw e (still-IsLost w lost now),
    )
