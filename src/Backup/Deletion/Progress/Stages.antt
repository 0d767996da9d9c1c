-- ===== src/Backup/Deletion/Progress/Stages.antt =====
-- One reconcile of a deletion, of internal/controller/backup.go, from each stage on.
use openclaw_operator.Prelude.{
  ◌≡◌, refl, ◌⊎◌, inl, inr, none, some, Option, arith, Result, ltb, if◌then◌else◌,
}
use openclaw_operator.GoMap.{get}
use openclaw_operator.AutoUpdate.{
  World, StatefulSet, Job, Error, job_complete, job_failed, backup_job_failed, CtrlResult,
  JobConditionType, Event,
}
use openclaw_operator.AutoUpdate.Api.{
  Action, ◌>>=◌, pure, raise, attempt, gets, update, request, answer, emit, get_sts, list_pods,
  update_status, store_status, after, on_found, on_option, scale,
}
use openclaw_operator.AutoUpdate.Api.Triples.{
  Post, Triple-bind, Triple-if, Triple-gets, Triple-weaken, Triple-pure, Triple-modify_status,
  Triple-emit,
}
use openclaw_operator.AutoUpdate.S3.{is_job_finished}
use openclaw_operator.AutoUpdate.Backup.{is_scaled_up}
use openclaw_operator.AutoUpdate.Rollback.{is_persistence_enabled}
use openclaw_operator.Backup.Deletion.{
  backup_job_name, is_backup_skipped, is_timed_out, begin_backup, delete_in_time,
  delete_with_backup, reconcile_delete_with_backup, back_up, stop_and_back_up, by_backup_job,
  create_backup_job, backup_failed_status,
}
use openclaw_operator.Backup.Deletion.Progress.{
  Access, Never, Makes, Gone, HasJob-of, not_missing, finished_of, IsDown-of, IsDown-of_none,
  IsServed, Down, Settled, Started, Complete, Makes-let_go, Makes-time_out, Makes-finish_backup,
  begin_backup-IsServed, begin_backup-Settled, begin_backup-Complete, back_up_served,
  Makes-create_backup_job,
}

module _ (access : Access) where
  open access use {secret, credentials, read}

  Makes-weaken :
      {A : Type 0} {P P' Q Q' : World → Type 0} (m : Action A)
      → ((w : World) → P w → P' w)
      → ((w : World) → Q' w → Q w)
      → Makes P' m Q'
      → Makes P m Q
  unfolding Makes
  Makes-weaken m p q t = Triple-weaken m p (λ a. q) (λ e w h. h) t

  emit-Started : (e : Event) → Makes (Started access) (emit e) (Started access)
  unfolding Makes
  emit-Started e = Triple-emit e (λ w h. h)

  update_status-Started : Makes (Started access) update_status (Started access)
  unfolding Makes Never update_status store_status update request answer backup_job_name ◌>>=◌
  update_status-Started = record { at = λ w h. ground (arith, h) }

  failed_job-Started : Makes (Started access) (by_backup_job (some job_failed)) (Started access)
  unfolding Makes by_backup_job backup_job_name
  failed_job-Started =
      Triple-bind (λ u. (Started access)) _ _ (emit-Started backup_job_failed)
        λ u.
          Triple-bind (λ u. (Started access)) _ _
            (Triple-modify_status backup_failed_status (λ w h. h))
            λ u.
              Triple-bind (λ u. (Started access)) _ _ update_status-Started
                (λ u. Triple-pure (after 30) (λ w h. h))

  running_job-Started : Makes (Started access) (by_backup_job none) (Started access)
  unfolding Makes by_backup_job
  running_job-Started = Triple-pure (after 10) (λ w h. h)

  complete_job-Gone : Makes (IsServed access) (by_backup_job (some job_complete)) Gone
  unfolding by_backup_job
  complete_job-Gone = (Makes-finish_backup access)

  -- The backup step lets the instance go, or has a Job behind it.
  unfoldable pub Ahead : World → Type 0
  Ahead w = Gone w ⊎ (Started access) w

  Started-Ahead : (w : World) → (Started access) w → Ahead w
  unfolding Ahead
  Started-Ahead w h = inr h

  Gone-Ahead : (w : World) → Gone w → Ahead w
  unfolding Ahead
  Gone-Ahead w h = inl h

  by_backup_job-Ahead :
      (o : Option JobConditionType) → Makes (Started access) (by_backup_job o) Ahead
  by_backup_job-Ahead none = Makes-weaken _ (λ w h. h) Started-Ahead running_job-Started
  by_backup_job-Ahead (some job_failed) = Makes-weaken _ (λ w h. h) Started-Ahead failed_job-Started
  by_backup_job-Ahead (some job_complete) =
      Makes-weaken _ (λ w h. h.0.0) Gone-Ahead complete_job-Gone

  back_up-Ahead : Makes (Down access) back_up Ahead
  unfolding Makes
  back_up-Ahead = record {
    at = λ w h.
        rw ((back_up_served access) w h.0) (by w h (get (backup_job_name w.inst) w.jobs) refl);
  }
    where
      by :
          (w : World)
          → (Down access) w
          → (o : Option Job) → get (backup_job_name w.inst) w.jobs ≡ o
          → let out = elim o as (λ o. Result Error CtrlResult × World) [
            | none ↦ create_backup_job credentials w
            | some job ↦ by_backup_job (is_job_finished job.conditions) w
          ] in
            Post (λ a. Ahead) Never out.0 out.1
      by w h none e =
          (Makes-weaken _ (λ w h. h) Started-Ahead (Makes-create_backup_job access)).at w (h, e)
      by w h (some job) e =
          (by_backup_job-Ahead (is_job_finished job.conditions)).at w (h, HasJob-of w e)

  back_up-Gone : Makes (Complete access) back_up Gone
  unfolding Makes
  back_up-Gone = record {
    at = λ w h.
        rw ((back_up_served access) w h.0.0.0) (by w h (get (backup_job_name w.inst) w.jobs) refl);
  }
    where
      by :
          (w : World)
          → (Complete access) w
          → (o : Option Job) → get (backup_job_name w.inst) w.jobs ≡ o
          → let out = elim o as (λ o. Result Error CtrlResult × World) [
            | none ↦ create_backup_job credentials w
            | some job ↦ by_backup_job (is_job_finished job.conditions) w
          ] in
            Post (λ a. Gone) Never out.0 out.1
      by w h none e = absurd (not_missing w e h.1)
      by w h (some job) e = rw (finished_of w e h.1) (complete_job-Gone.at w h.0.0.0)

  -- Steps 3 and 4, where the instance has stopped.
  delete_in_time-Settled : (w : World) → (Settled access) w → delete_in_time w ≡ back_up w
  unfolding delete_in_time stop_and_back_up get_sts list_pods on_found on_option attempt gets pure
      raise request answer ◌>>=◌
  delete_in_time-Settled w h = ground (arith, h)

  delete_in_time-Ahead : Makes (Settled access) delete_in_time Ahead
  unfolding Makes
  delete_in_time-Ahead = record {
    at = λ w h. rw (delete_in_time-Settled w h) (back_up-Ahead.at w h.0);
  }

  delete_in_time-Gone : Makes (Complete access) delete_in_time Gone
  unfolding Makes
  delete_in_time-Gone = record {
    at = λ w h. rw (delete_in_time-Settled w h.0) (back_up-Gone.at w h);
  }

  unfoldable pub Stopping : World → Type 0
  Stopping w = Gone w ⊎ (Down access) w

  Down-Stopping : (w : World) → (Down access) w → Stopping w
  unfolding Stopping
  Down-Stopping w h = inr h

  Ahead-Stopping : (w : World) → Ahead w → Stopping w
  unfolding Stopping Ahead
  Ahead-Stopping w (inl gone) = inl gone
  Ahead-Stopping w (inr started) = inr started.0

  scale-Down : Makes (IsServed access) (scale 0 >>= λ u. pure (after 5)) (Down access)
  unfolding Makes Never scale update request answer pure ◌>>=◌
  scale-Down = record { at = λ w h. ground (arith, h) }

  list_pods-Down : Makes (Down access) list_pods (Down access)
  unfolding Makes Never list_pods gets request answer ◌>>=◌
  list_pods-Down = record { at = λ w h. ground (arith, h) }

  back_up-Stopping : Makes (Down access) back_up Stopping
  back_up-Stopping = Makes-weaken _ (λ w h. h) Ahead-Stopping back_up-Ahead

  count-Stopping :
      Makes
        (Down access)
        (list_pods >>= λ pods. if ltb 0 pods then pure (after 5) else back_up)
        Stopping
  unfolding Makes
  count-Stopping =
      Triple-bind (λ pods. (Down access)) _ _ list_pods-Down
        λ pods.
          Triple-if (ltb 0 pods) _ _ (λ e. Triple-pure (after 5) Down-Stopping)
            (λ e. back_up-Stopping)

  stop_and_back_up-Stopping :
      (sts : StatefulSet)
      → Makes (λ w. (IsServed access) w × (w.sts ≡ some sts)) (stop_and_back_up sts) Stopping
  unfolding Makes stop_and_back_up
  stop_and_back_up-Stopping sts =
      Triple-if (is_scaled_up sts.replicas) _ _
        (λ up. Makes-weaken _ (λ w h. h.0) Down-Stopping scale-Down)
        (λ down. Makes-weaken _ (λ w h. (h.0, IsDown-of w down h.1)) (λ w h. h) count-Stopping)

  delete_in_time_served :
      (w : World)
      → (IsServed access) w
      → delete_in_time w ≡ (elim w.sts as (λ o. Result Error CtrlResult × World) [
        | none ↦ back_up w
        | some sts ↦ stop_and_back_up sts w
      ])
  unfolding delete_in_time get_sts on_found on_option attempt gets pure raise request answer ◌>>=◌
  delete_in_time_served w h = ground (arith, h)

  delete_in_time-Stopping : Makes (IsServed access) delete_in_time Stopping
  unfolding Makes
  delete_in_time-Stopping = record {
    at = λ w h. rw (delete_in_time_served w h) (by w h w.sts refl);
  }
    where
      by :
          (w : World)
          → (IsServed access) w
          → (o : Option StatefulSet) → w.sts ≡ o
          → let out = elim o as (λ o. Result Error CtrlResult × World) [
            | none ↦ back_up w
            | some sts ↦ stop_and_back_up sts w
          ] in
            Post (λ a. Stopping) Never out.0 out.1
      by w h none e = back_up-Stopping.at w (h, IsDown-of_none w e)
      by w h (some sts) e = (stop_and_back_up-Stopping sts).at w (h, e)

  -- Step 1 and the timeout come first.
  Makes-reconcile :
      {P Q : World → Type 0}
      → ((w : World) → P w → (IsServed access) w)
      → ((w : World) → Gone w → Q w)
      → Makes P begin_backup P
      → Makes P delete_in_time Q
      → Makes P reconcile_delete_with_backup Q
  unfolding Makes reconcile_delete_with_backup delete_with_backup
  Makes-reconcile {P} p q begins deletes =
      Triple-gets (λ w. w.inst) _
        λ inst.
          Triple-if (is_backup_skipped inst) _ _
            (λ e. Makes-weaken _ (λ w h. p w h.0) q (Makes-let_go access))
            λ e.
              Triple-if (is_persistence_enabled inst) _ _
                (λ e.
                  Triple-bind (λ u. P) _ _ (Makes-weaken _ (λ w h. h.0) (λ w h. h) begins)
                    λ u.
                      Triple-gets (λ w. w) _
                        λ a.
                          Triple-if (is_timed_out a) _ _
                            (λ e. Makes-weaken _ (λ w h. p w h.0) q (Makes-time_out access))
                            (λ e. Makes-weaken _ (λ w h. h.0) (λ w h. h) deletes))
                (λ e. Makes-weaken _ (λ w h. p w h.0) q (Makes-let_go access))

  -- One reconcile from each stage on.
  pub reconcile-Stopping : Makes (IsServed access) reconcile_delete_with_backup Stopping
  unfolding Stopping
  reconcile-Stopping =
      Makes-reconcile (λ w h. h) (λ w h. inl h) (begin_backup-IsServed access)
        delete_in_time-Stopping

  pub reconcile-Ahead : Makes (Settled access) reconcile_delete_with_backup Ahead
  reconcile-Ahead =
      Makes-reconcile (λ w h. h.0.0) Gone-Ahead (begin_backup-Settled access) delete_in_time-Ahead

  pub reconcile-Gone : Makes (Complete access) reconcile_delete_with_backup Gone
  reconcile-Gone =
      Makes-reconcile (λ w h. h.0.0.0) (λ w h. h) (begin_backup-Complete access) delete_in_time-Gone
