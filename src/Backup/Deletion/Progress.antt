-- ===== src/Backup/Deletion/Progress.antt =====
-- Each deletion that the cluster serves comes to its end.
pub mod Stages
use openclaw_operator.Prelude.{
  String, ◌≡◌, ◌≢◌, refl, ◌⊎◌, inl, inr, Bool, true, false, none, some, Option, List, [], ◌∷◌,
  arith, ok, Result, ltb, if◌then◌else◌, contains, ◌==◌, eq_iff,
}
use openclaw_operator.GoMap.{GoMap, get, get-set}
use openclaw_operator.AutoUpdate.{
  World, Instance, StatefulSet, Job, Error, job_complete, job_failed, backup_job_failed,
  backup_timed_out, backup_complete, terminating, CtrlResult, backup_started, JobConditionType,
  Event,
}
use openclaw_operator.AutoUpdate.Api.{
  Action, ◌>>=◌, ◌>>◌, pure, raise, attempt, gets, update, request, answer, modify_status, emit,
  get_sts, list_pods, get_job, update_status, store_status, after, on_result, on_found, on_option,
  on_created, create_job, scale,
}
use openclaw_operator.AutoUpdate.Api.Triples.{
  Triple, Post, Triple-bind, Triple-if, Triple-gets, Triple-weaken, Triple-pure,
  Triple-modify_status, Triple-emit,
}
use openclaw_operator.AutoUpdate.S3.{
  S3Credentials, get_s3_credentials, read_credentials, reconcile_s3_mirror_secret, is_job_finished,
  build_rclone_job, backup_labels,
}
use openclaw_operator.AutoUpdate.Backup.{is_scaled_up}
use openclaw_operator.AutoUpdate.Rollback.{is_persistence_enabled}
use openclaw_operator.Backup.Deletion.{
  backup_job_name, is_backup_skipped, is_timed_out, begin_backup, delete_in_time, finalizer_name,
  without, delete_with_backup, reconcile_delete_with_backup, back_up, stop_and_back_up, time_out,
  run_deletion_job, by_backup_job, remove_finalizer, store_object, orphan_pvc, finish_backup,
  create_backup_job, record_path, let_go, path_recorded, deletion_path, backup_failed_status,
  timed_out, backed_up_status,
}
use openclaw_operator.Backup.Deletion.Excuses.{IsDeletionBackedUp}

-- The finalizer is gone from the stored object, which the API server then deletes.
abbrev pub is_gone : World → Bool
is_gone w = if contains w.stored.finalizers finalizer_name then false else true

pub contains-without : (x : String) (l : List String) → contains (without x l) x ≡ false
unfolding contains without
contains-without x [] = refl
contains-without x (y ∷ l) = ground (arith, contains-without x l, eq_iff y x)

unfoldable pub Never : Error → World → Type 0
Never e w = ⊥

-- An action that cannot fail where `P` holds.
unfoldable pub Makes : {A : Type 0} → (World → Type 0) → Action A → (World → Type 0) → Type 0
Makes P m Q = Triple P m (λ a. Q) Never

unfoldable pub Gone : World → Type 0
Gone w = is_gone w ≡ true

abbrev pub IsDown : World → Type 0
IsDown w = elim w.sts [ none ↦ Unit {0} | some sts ↦ is_scaled_up sts.replicas ≡ false ]

abbrev pub HasJob : World → Type 0
HasJob w = elim (get (backup_job_name w.inst) w.jobs) [ none ↦ ⊥ | some job ↦ Unit {0} ]

pub HasJob-of : (w : World) {job : Job} → get (backup_job_name w.inst) w.jobs ≡ some job → HasJob w
HasJob-of w e = ground (arith, e)

pub not_missing :
    (w : World) → get (backup_job_name w.inst) w.jobs ≡ none → IsDeletionBackedUp w → ⊥
not_missing w e h = ground (arith, e, h)

pub finished_of :
    (w : World) {job : Job}
    → get (backup_job_name w.inst) w.jobs ≡ some job
    → IsDeletionBackedUp w
    → is_job_finished job.conditions ≡ some job_complete
finished_of w e h = ground (arith, e, h)

pub IsDown-of :
    (w : World) {sts : StatefulSet}
    → is_scaled_up sts.replicas ≡ false
    → w.sts ≡ some sts
    → IsDown w
IsDown-of w down e = ground (arith, down, e)

pub IsDown-of_none : (w : World) → w.sts ≡ none → IsDown w
IsDown-of_none w e = ground (arith, e)

-- No Job, or one that has not failed.
abbrev pub HasNotFailed : Option Job → Type 0
HasNotFailed none = Unit {0}
HasNotFailed (some job) = is_job_finished job.conditions ≢ some job_failed

-- The credentials Secret, and the complete credentials that are read from it.
pub record Access : Type 0 where
  pub secret : GoMap String
  pub credentials : S3Credentials
  pub read : read_credentials secret ≡ ok credentials

module _ (access : Access) where
  open access use {secret, credentials, read}

  -- The server accepts every request, the object in memory is current, there are credentials, and
  -- the backup Job has not failed.
  abbrev pub IsServed : World → Type 0
  IsServed w =
      (w.answers ≡ [])
      × (w.stored.spec ≡ w.inst.spec)
      × (w.secret ≡ some secret)
      × HasNotFailed (get (backup_job_name w.inst) w.jobs)

  Makes-remove_finalizer : Makes IsServed remove_finalizer Gone
  unfolding Makes Gone Never remove_finalizer store_object orphan_pvc on_option attempt gets pure
      update request answer ◌>>=◌
  Makes-remove_finalizer = record {
    at = λ w h. ground (arith, h, contains-without finalizer_name w.inst.finalizers);
  }

  abbrev pub Down : World → Type 0
  Down w = IsServed w × IsDown w

  abbrev pub Settled : World → Type 0
  Settled w = Down w × (w.pods ≡ 0)

  abbrev pub Started : World → Type 0
  Started w = Down w × HasJob w

  abbrev pub Complete : World → Type 0
  Complete w = Settled w × IsDeletionBackedUp w

  Makes-update_status : Makes IsServed update_status IsServed
  unfolding Makes Never update_status store_status update request answer backup_job_name ◌>>=◌
  Makes-update_status = record { at = λ w h. ground (arith, h) }

  pub Makes-let_go : Makes IsServed let_go Gone
  unfolding let_go Makes backup_job_name
  Makes-let_go =
      Triple-bind (λ u. IsServed) _ _
        (Triple-modify_status (λ s. record s { phase = terminating }) (λ w h. h))
        λ u. Triple-bind (λ u. IsServed) _ _ Makes-update_status λ u. Makes-remove_finalizer

  pub Makes-time_out : Makes IsServed time_out Gone
  unfolding time_out Makes backup_job_name
  Makes-time_out =
      Triple-bind (λ u. IsServed) _ _ (Triple-emit backup_timed_out (λ w h. h))
        λ u.
          Triple-bind (λ u. IsServed) _ _ (Triple-modify_status timed_out (λ w h. h))
            λ u. Triple-bind (λ u. IsServed) _ _ Makes-update_status λ u. Makes-remove_finalizer

  pub Makes-finish_backup : Makes IsServed finish_backup Gone
  unfolding finish_backup Makes backup_job_name
  Makes-finish_backup =
      Triple-bind (λ u. IsServed) _ _ (Triple-emit backup_complete (λ w h. h))
        λ u. Triple-gets _ _ λ now.
          Triple-bind (λ u. IsServed) _ _ (Triple-modify_status (backed_up_status now) (λ w h. h.0))
            λ u. Triple-bind (λ u. IsServed) _ _ Makes-update_status λ u. Makes-remove_finalizer

  pub begin_backup-IsServed : Makes IsServed begin_backup IsServed
  unfolding Makes Never begin_backup update_status store_status modify_status gets pure update
      request answer backup_job_name ◌>>=◌
  begin_backup-IsServed = record { at = λ w h. ground (arith, h) }

  pub begin_backup-Settled : Makes Settled begin_backup Settled
  unfolding Makes Never begin_backup update_status store_status modify_status gets pure update
      request answer backup_job_name ◌>>=◌
  begin_backup-Settled = record { at = λ w h. ground (arith, h) }

  pub begin_backup-Complete : Makes Complete begin_backup Complete
  unfolding Makes Never begin_backup update_status store_status modify_status gets pure update
      request answer backup_job_name ◌>>=◌
  begin_backup-Complete = record { at = λ w h. ground (arith, h) }

  -- With the credentials at hand, only the Job is left to look at.
  pub back_up_served :
      (w : World)
      → IsServed w
      → back_up w
        ≡ (elim (get (backup_job_name w.inst) w.jobs) as (λ o. Result Error CtrlResult × World) [
          | none ↦ create_backup_job credentials w
          | some job ↦ by_backup_job (is_job_finished job.conditions) w
        ])
  unfolding back_up run_deletion_job get_s3_credentials reconcile_s3_mirror_secret get_job on_found
      on_result on_option attempt gets pure raise request answer ◌>>=◌
  back_up_served w h = ground (arith, h, read)

  abbrev Unstarted : World → Type 0
  Unstarted w = Down w × (get (backup_job_name w.inst) w.jobs ≡ none)

  update_status-Unstarted : Makes Unstarted update_status Unstarted
  unfolding Makes Never update_status store_status update request answer backup_job_name ◌>>=◌
  update_status-Unstarted = record { at = λ w h. ground (arith, h) }

  record_path-Unstarted : Makes Unstarted record_path Unstarted
  unfolding Makes record_path backup_job_name
  record_path-Unstarted =
      Triple-gets (λ w. w) _
        λ a.
          Triple-if (a.inst.last_backup_path == "") _ _
            (λ p.
              Triple-bind (λ u. Unstarted) _ _ (Triple-modify_status (path_recorded a) (λ w h. h.0))
                λ u.
                  Triple-bind (λ u. Unstarted) _ _ update_status-Unstarted
                    (λ u. Triple-pure (deletion_path a) (λ w h. h)))
            (λ p. Triple-pure a.inst.last_backup_path (λ w h. h.0))

  create_job-Started :
      (path : String) (a : Instance)
      → Makes
          (λ w. Unstarted w × (w.inst ≡ a))
          (attempt (
              create_job (
                build_rclone_job
                  (backup_job_name a)
                  a
                  path
                  (backup_labels a "backup")
                  credentials
                  true))
            >>= λ created.
                on_created created (pure (after 10)) (do emit backup_started; pure (after 10)))
          Started
  unfolding Makes Never create_job build_rclone_job on_created on_option emit attempt gets pure
      raise update request answer backup_job_name is_job_finished ◌>>=◌
  create_job-Started path a =
      let name = backup_job_name a in
      let job = build_rclone_job name a path (backup_labels a "backup") credentials true in
      record { at = λ w h. ground (arith, h, get-set name name job w.jobs, eq_iff name name) }

  pub Makes-create_backup_job : Makes Unstarted (create_backup_job credentials) Started
  unfolding Makes create_backup_job
  Makes-create_backup_job =
      Triple-bind (λ path. Unstarted) _ _ record_path-Unstarted
        λ path. Triple-gets _ _ (create_job-Started path)
