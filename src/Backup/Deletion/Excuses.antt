-- ===== src/Backup/Deletion/Excuses.antt =====
-- The reasons to let an instance go, and what the waits of `reconcileDeleteWithBackup` of
-- internal/controller/backup.go keep.
pub mod Release
use openclaw_operator.Prelude.{
  ℕ, ◌≡◌, refl, ◌⊎◌, inl, inr, true, false, Option, none, some, arith, Result, ok, err, ltb,
  if◌then◌else◌, ap, ◌∙◌, sym,
}
use openclaw_operator.GoMap.{get}
use openclaw_operator.AutoUpdate.{
  World, Instance, Status, StatefulSet, Job, JobConditionType, job_complete, job_failed,
  backup_credentials_failed, CtrlResult, Error, not_found, backup_skipped,
}
use openclaw_operator.AutoUpdate.Api.{
  Action, ◌>>=◌, pure, attempt, get_job, scale, on_found, store_status, update_status,
  modify_status, emit, after,
}
use openclaw_operator.AutoUpdate.Api.Leads.{Keeps}
use openclaw_operator.AutoUpdate.Api.Keeps.{keeps_rules, Keeps-update_status, Keeps-modify_status}
use openclaw_operator.AutoUpdate.Api.Triples.{
  Triple, Ends, Post, Triple-bind, Triple-attempt, Triple-if, Triple-gets, Triple-weaken,
  Triple-get_sts, Triple-get_job, Triple-list_pods, Triple-result, Triple-found, Triple-pure,
  Triple-modify_status, Triple-update_status,
}
use openclaw_operator.AutoUpdate.Intervals.{intervals_bounded}
use openclaw_operator.AutoUpdate.S3.{S3Credentials, is_job_finished, reconcile_s3_mirror_secret}
use openclaw_operator.AutoUpdate.Backup.{is_scaled_up}
use openclaw_operator.AutoUpdate.Rollback.{is_persistence_enabled}
use openclaw_operator.AutoUpdate.S3.Reads.{
  Triple-reconcile_s3_mirror_secret, Triple-get_s3_credentials,
}
use openclaw_operator.Backup.Deletion.{
  backup_job_name, is_backup_skipped, is_timed_out, begin_backup, time_out, delete_in_time,
  delete_with_backup, reconcile_delete_with_backup, back_up, stop_and_back_up, without_credentials,
  run_deletion_job, by_backup_job, create_backup_job, record_path, let_go, backup_begun,
}

-- There is no StatefulSet; or it is scaled down and no pod is left.
abbrev pub IsStopped : World → Type 0
IsStopped w = elim w.sts [
  | none ↦ Unit {0}
  | some sts ↦ (is_scaled_up sts.replicas ≡ false) × (w.pods ≡ 0)
]

-- The backup Job of the instance is there and has completed.
abbrev pub IsDeletionBackedUp : World → Type 0
IsDeletionBackedUp w = elim (get (backup_job_name w.inst) w.jobs) [
  | none ↦ ⊥
  | some job ↦ is_job_finished job.conditions ≡ some job_complete
]

-- The reasons to let an instance go: the user skips the backup, there is no claim, the time is
-- over; or the instance has stopped, and there are no credentials or the backup has completed.
abbrev pub IsExcused : World → Type 0
IsExcused w =
    (is_backup_skipped w.inst ≡ true)
    ⊎ (is_persistence_enabled w.inst ≡ false)
    ⊎ (is_timed_out w ≡ true)
    ⊎ (IsStopped w × (w.secret ≡ none))
    ⊎ (IsStopped w × IsDeletionBackedUp w)

pub no_pods : (n : ℕ) → ltb 0 n ≡ false → n ≡ 0
no_pods n p = ground (arith, p)

module _ (w₀ : World) where
  -- Both objects have the spec and the metadata that the reconcile began with.
  abbrev Same : Instance → Instance → Type 0
  Same i s = (i.spec ≡ w₀.inst.spec) × (s.spec ≡ w₀.inst.spec)

  -- Nothing but the status, the events and the answers has changed.
  abbrev pub Near : World → Type 0
  Near w =
      (w.inst.spec ≡ w₀.inst.spec)
      × (w.stored.spec ≡ w₀.inst.spec)
      × (w.sts ≡ w₀.sts)
      × (w.pods ≡ w₀.pods)
      × (w.jobs ≡ w₀.jobs)
      × (w.secret ≡ w₀.secret)
      × (w.now ≡ w₀.now)

  abbrev pub Final : World → Type 0
  Final w = (w.stored.spec ≡ w₀.inst.spec) ⊎ IsExcused w₀

  pub Ends-excused :
      {A : Type 0} {P : World → Type 0} (m : Action A) → IsExcused w₀ → Ends P m Final
  Ends-excused {A} m e = record { at = λ w h. post (m w).0 (m w).1 }
    where
      post : (r : Result Error A) (w : World) → Post (λ a. Final) (λ e. Final) r w
      post (ok a) w = inr e
      post (err x) w = inr e

  pub Ends-kept :
      {A : Type 0} {P : World → Type 0} (m : Action A)
      → ((w : World) → P w → Near w)
      → Keeps Same m
      → Ends P m Final
  Ends-kept {A} m sub k = record {
    at = λ w h. post (m w).0 (m w).1 (k.at w ((sub w h).0, (sub w h).1));
  }
    where
      post :
          (r : Result Error A) (w : World)
          → Same w.inst w.stored
          → Post (λ a. Final) (λ e. Final) r w
      post (ok a) w h = inl h.1
      post (err x) w h = inl h.1

  Same-update_status : Keeps Same update_status
  Same-update_status = Keeps-update_status (λ i s h. (h.1, h.1))

  Same-modify_status : (f : Status → Status) → Keeps Same (modify_status f)
  Same-modify_status f = Keeps-modify_status f (λ i s h. h)

  ruleset same_rules = (keeps_rules, Same-update_status, Same-modify_status)

  -- The waits and the retries change no spec.
  pub Same-create_backup_job : (creds : S3Credentials) → Keeps Same (create_backup_job creds)
  unfolding create_backup_job record_path
  Same-create_backup_job creds = search same_rules depth 14

  pub Same-scale_down : Keeps Same (scale 0 >>= λ u. pure (after 5))
  Same-scale_down = search same_rules depth 8

  pub Same-pure : (r : CtrlResult) → Keeps Same (pure r)
  Same-pure r = search same_rules depth 8

  Same-by_failed_job : Keeps Same (by_backup_job (some job_failed))
  unfolding by_backup_job
  Same-by_failed_job = search same_rules depth 14

  pub Same-retry : Keeps Same (emit backup_credentials_failed >>= λ u. pure (after 30))
  Same-retry = search same_rules depth 8

  Same-running_job : Keeps Same (by_backup_job none)
  unfolding by_backup_job
  Same-running_job = Same-pure (after 10)

  IsDeletionBackedUp-of :
      {job : Job}
      → get (backup_job_name w₀.inst) w₀.jobs ≡ some job
      → is_job_finished job.conditions ≡ some job_complete
      → IsDeletionBackedUp w₀
  IsDeletionBackedUp-of there e = ground (arith, there, e)

  pub IsStopped-of_none : w₀.sts ≡ none → IsStopped w₀
  IsStopped-of_none e = ground (arith, e)

  pub IsStopped-of :
      {sts : StatefulSet}
      → w₀.sts ≡ some sts
      → is_scaled_up sts.replicas ≡ false
      → w₀.pods ≡ 0
      → IsStopped w₀
  IsStopped-of e down p = ground (arith, e, down, p)

  -- A Job that is there lets the instance go where it has completed.
  pub Ends-by_backup_job :
      (job : Job)
      → IsStopped w₀
      → get (backup_job_name w₀.inst) w₀.jobs ≡ some job
      → Ends Near (by_backup_job (is_job_finished job.conditions)) Final
  Ends-by_backup_job job stopped there = by (is_job_finished job.conditions) refl
    where
      by :
          (o : Option JobConditionType)
          → is_job_finished job.conditions ≡ o
          → Ends Near (by_backup_job o) Final
      by none e = Ends-kept _ (λ w h. h) Same-running_job
      by (some job_failed) e = Ends-kept _ (λ w h. h) Same-by_failed_job
      by (some job_complete) e =
          Ends-excused _ (inr (inr (inr (inr (stopped, IsDeletionBackedUp-of there e)))))

  name_of :
      (w : World) (inst : Instance)
      → Near w
      → w.inst ≡ inst
      → backup_job_name inst ≡ backup_job_name w₀.inst
  unfolding backup_job_name
  name_of w inst h e = ground (arith, e, h.0)

  pub there_of :
      (w : World) (inst : Instance) (job : Job)
      → Near w
      → w.inst ≡ inst
      → get (backup_job_name inst) w.jobs ≡ some job
      → get (backup_job_name w₀.inst) w₀.jobs ≡ some job
  there_of w inst job h e g = rw (← name_of w inst h e) (rw (← h.4) g)
