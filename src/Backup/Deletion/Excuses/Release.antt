-- ===== src/Backup/Deletion/Excuses/Release.antt =====
-- When `reconcileDeleteWithBackup` of internal/controller/backup.go lets an instance go.
use openclaw_operator.Prelude.{
  ℕ, ◌≡◌, refl, ◌⊎◌, inl, inr, true, false, none, some, arith, Result, ok, err, ltb, if◌then◌else◌,
  ap, ◌∙◌, sym,
}
use openclaw_operator.GoMap.{get}
use openclaw_operator.AutoUpdate.{
  World, Instance, StatefulSet, Job, Error, not_found, backup_skipped,
}
use openclaw_operator.AutoUpdate.Api.{
  ◌>>=◌, pure, attempt, get_job, on_found, store_status, emit, after,
}
use openclaw_operator.AutoUpdate.Api.Triples.{
  Triple, Ends, Post, Triple-bind, Triple-attempt, Triple-if, Triple-gets, Triple-weaken,
  Triple-get_sts, Triple-get_job, Triple-list_pods, Triple-result, Triple-found, Triple-pure,
  Triple-modify_status, Triple-update_status,
}
use openclaw_operator.AutoUpdate.Intervals.{intervals_bounded}
use openclaw_operator.AutoUpdate.S3.{S3Credentials, is_job_finished, reconcile_s3_mirror_secret}
use openclaw_operator.AutoUpdate.Backup.{is_scaled_up}
use openclaw_operator.AutoUpdate.Rollback.{is_persistence_enabled}
use openclaw_operator.AutoUpdate.S3.Reads.{
  Triple-reconcile_s3_mirror_secret, Triple-get_s3_credentials,
}
use openclaw_operator.Backup.Deletion.{
  backup_job_name, is_backup_skipped, is_timed_out, begin_backup, time_out, delete_in_time,
  delete_with_backup, reconcile_delete_with_backup, back_up, stop_and_back_up, without_credentials,
  run_deletion_job, by_backup_job, create_backup_job, let_go, backup_begun,
}
use openclaw_operator.Backup.Deletion.Excuses.{
  IsStopped, IsExcused, no_pods, Near, Final, Ends-excused, Ends-kept, Same-create_backup_job,
  Same-scale_down, Same-pure, Same-retry, IsStopped-of_none, IsStopped-of, Ends-by_backup_job,
  there_of,
}

module _ (w₀ : World) where
  Ends-existing_job :
      (creds : S3Credentials)
      → IsStopped w₀
      → (inst : Instance)
      → Ends
          (λ w. (Near w₀) w × (w.inst ≡ inst))
          (attempt (get_job (backup_job_name inst)) >>= λ existing.
            on_found existing
              (create_backup_job creds)
              (λ job. by_backup_job (is_job_finished job.conditions)))
          (Final w₀)
  Ends-existing_job creds stopped inst =
      let there : Job → World → Type 0 =
        λ job w. ((Near w₀) w × (w.inst ≡ inst)) × (get (backup_job_name inst) w.jobs ≡ some job) in
      let missing : Error → World → Type 0 = λ e w.
        ((Near w₀) w × (w.inst ≡ inst))
        × (e ≡ not_found → get (backup_job_name inst) w.jobs ≡ none) in
      Triple-bind (Post there missing) _ _
        (Triple-attempt there _ (Triple-get_job (λ w l h. h) (backup_job_name inst)))
        λ r.
          Triple-found there missing r _ _ (λ e w h. inl h.0.0.1)
            ((Ends-kept w₀) _ (λ w h. h.0.0) ((Same-create_backup_job w₀) creds))
            λ job. record {
              at = λ w h.
                  ((Ends-by_backup_job w₀) job stopped
                      ((there_of w₀) w inst job h.0.0 h.0.1 h.1)).at
                    w h.0.0;
            }

  Ends-run_deletion_job :
      (creds : S3Credentials) → IsStopped w₀ → Ends (Near w₀) (run_deletion_job creds) (Final w₀)
  unfolding run_deletion_job
  Ends-run_deletion_job creds stopped =
      Triple-bind (λ u. (Near w₀)) (reconcile_s3_mirror_secret creds) _
        (Triple-weaken _ (λ w h. h) (λ a w h. h) (λ e w h. inl h.1)
          (Triple-reconcile_s3_mirror_secret (λ w l h. h) creds))
        λ u. Triple-gets (λ w. w.inst) _ (Ends-existing_job creds stopped)

  Ends-without_credentials :
      (e : Error)
      → IsStopped w₀
      → Ends
          (λ w. (Near w₀) w × (e ≡ not_found → w.secret ≡ none))
          (without_credentials e)
          (Final w₀)
  unfolding without_credentials
  Ends-without_credentials not_found stopped = record {
    at = λ w h.
        (Ends-excused w₀ {P = (Near w₀)} (emit backup_skipped >>= λ u. let_go)
            (inr (inr (inr (inl (stopped, sym h.0.5 ∙ h.1 refl)))))).at
          w h.0;
  }
  Ends-without_credentials e stopped = (Ends-kept w₀) _ (λ w h. h.0) (Same-retry w₀)

  Ends-back_up : IsStopped w₀ → Ends (Near w₀) back_up (Final w₀)
  unfolding back_up
  Ends-back_up stopped =
      Triple-bind
        (Post (λ creds. (Near w₀)) (λ e w. (Near w₀) w × (e ≡ not_found → w.secret ≡ none))) _ _
        (Triple-attempt _ _ (Triple-get_s3_credentials (λ w l h. h)))
        λ r.
          Triple-result _ _ r _ _ (λ e. Ends-without_credentials e stopped)
            (λ creds. Ends-run_deletion_job creds stopped)

  Ends-pods :
      (sts : StatefulSet) (n : ℕ)
      → w₀.sts ≡ some sts
      → is_scaled_up sts.replicas ≡ false
      → Ends
          (λ w. (Near w₀) w × (w.pods ≡ n))
          (if ltb 0 n then pure (after 5) else back_up)
          (Final w₀)
  Ends-pods sts n e down =
      Triple-if _ _ _ (λ p. (Ends-kept w₀) _ (λ w h. h.0) ((Same-pure w₀) (after 5)))
        λ p. record {
          at = λ w h.
              (Ends-back_up ((IsStopped-of w₀) e down (sym h.0.3 ∙ h.1 ∙ no_pods n p))).at w h.0;
        }

  Ends-stop_and_back_up :
      (sts : StatefulSet) → w₀.sts ≡ some sts → Ends (Near w₀) (stop_and_back_up sts) (Final w₀)
  unfolding stop_and_back_up
  Ends-stop_and_back_up sts e =
      Triple-if _ _ _ (λ up. (Ends-kept w₀) _ (λ w h. h) (Same-scale_down w₀))
        λ down.
          Triple-bind (λ n w. (Near w₀) w × (w.pods ≡ n)) _ _
            (Triple-weaken _ (λ w h. h) (λ a w h. h) (λ e w h. inl h.1)
              (Triple-list_pods (λ w l h. h)))
            (λ n. Ends-pods sts n e down)

  Ends-delete_in_time : Ends (Near w₀) delete_in_time (Final w₀)
  unfolding delete_in_time
  Ends-delete_in_time =
      let there : StatefulSet → World → Type 0 = λ s w. (Near w₀) w × (w.sts ≡ some s) in
      let missing : Error → World → Type 0 = λ e w. (Near w₀) w × (e ≡ not_found → w.sts ≡ none) in
      Triple-bind (Post there missing) _ _ (Triple-attempt there _ (Triple-get_sts (λ w l h. h)))
        λ r.
          Triple-found there missing r _ _ (λ e w h. inl h.0.1)
            record {
              at = λ w h. (Ends-back_up ((IsStopped-of_none w₀) (sym h.0.2 ∙ h.1 refl))).at w h.0;
            }
            λ s. record { at = λ w h. (Ends-stop_and_back_up s (sym h.0.2 ∙ h.1)).at w h.0 }

  -- Behind step 1: the time at which the backup began is that of the status, or now.
  abbrev Begun : World → Type 0
  Begun w =
      (Near w₀) w
      × ((w.inst.backing_up_since ≡ w₀.inst.backing_up_since)
          ⊎ (w.inst.backing_up_since ≡ some w₀.now))

  Triple-begin_backup :
      w₀.stored.spec ≡ w₀.inst.spec
      → Triple (λ w. w ≡ w₀) begin_backup (λ u. Begun) (λ e. (Final w₀))
  unfolding begin_backup store_status
  Triple-begin_backup s =
      Triple-gets (λ w. w) _
        λ a.
          Triple-if _ _ _ (λ p. Triple-pure tt (λ w h. ground (arith, s, h)))
            λ p.
              Triple-bind (λ u. Begun) _ _
                (Triple-modify_status (backup_begun a.now) (λ w h. ground (arith, s, h)))
                λ u.
                  Triple-weaken _ (λ w h. h) (λ u w h. h) (λ e w h. inl h.0.1)
                    (Triple-update_status {P = Begun} (λ w l h. h) (λ w h. ground (arith, h)))

  timed_out_before : (w : World) → Begun w → is_timed_out w ≡ true → is_timed_out w₀ ≡ true
  unfolding is_timed_out
  timed_out_before w h t =
      let b = intervals_bounded w₀.inst.backup_timeout in ground (arith, h, t, b)

  Ends-in_time :
      (a : World)
      → Ends
          (λ w. Begun w × (w ≡ a))
          (if is_timed_out a then time_out else delete_in_time)
          (Final w₀)
  Ends-in_time a =
      Triple-if _ _ _
        (λ t. record {
          at = λ w h.
              (Ends-excused w₀ {P = (Near w₀)} time_out
                  (inr (inr (inl (timed_out_before w h.0 (rw h.1 t)))))).at
                w h.0.0;
        })
        (λ t. record { at = λ w h. Ends-delete_in_time.at w h.0.0 })

  Ends-delete_with_backup :
      w₀.stored.spec ≡ w₀.inst.spec → Ends (λ w. w ≡ w₀) delete_with_backup (Final w₀)
  unfolding delete_with_backup
  Ends-delete_with_backup s =
      Triple-bind (λ u. Begun) _ _ (Triple-begin_backup s)
        (λ u. Triple-gets (λ w. w) _ Ends-in_time)

  Ends-reconcile :
      w₀.stored.spec ≡ w₀.inst.spec → Ends (λ w. w ≡ w₀) reconcile_delete_with_backup (Final w₀)
  unfolding reconcile_delete_with_backup
  Ends-reconcile s =
      Triple-gets (λ w. w.inst) _
        λ inst. record { at = λ w h. (by inst (sym h.1 ∙ ap (λ (w : World). w.inst) h.0)).at w h.0 }
    where
      by :
          (inst : Instance)
          → inst ≡ w₀.inst
          → Ends
              (λ w. w ≡ w₀)
              (if is_backup_skipped inst
                then let_go
                else if is_persistence_enabled inst
                then delete_with_backup
                else let_go)
              (Final w₀)
      by inst e =
          Triple-if _ _ _ (λ p. (Ends-excused w₀) _ (inl (rw (← e) p)))
            λ p.
              Triple-if _ _ _ (λ q. Ends-delete_with_backup s)
                (λ q. (Ends-excused w₀) _ (inr (inl (rw (← e) q))))

either_way :
    (w₀ : World) {A : Type 0} (r : Result Error A) (w : World)
    → Post (λ a. Final w₀) (λ e. Final w₀) r w
    → Final w₀ w
either_way w₀ (ok a) w h = h
either_way w₀ (err e) w h = h

-- Where the controller reads the current object, a reconcile of the deletion leaves the finalizers
-- and all else of the stored object but its status as they are, or has a reason to let the
-- instance go: the annotation that skips the backup, no persistence, a timeout that has elapsed;
-- or no StatefulSet or one that is scaled down without a pod left, and then either no credentials
-- or a backup Job that has completed. This is so whatever the server answers, errors included.
pub reconcile_delete_with_backup-IsExcused :
    (w : World)
    → w.stored.spec ≡ w.inst.spec
    → ((reconcile_delete_with_backup w).1.stored.spec ≡ w.inst.spec) ⊎ IsExcused w
reconcile_delete_with_backup-IsExcused w s =
    either_way w (reconcile_delete_with_backup w).0 (reconcile_delete_with_backup w).1
      ((Ends-reconcile w s).at w refl)
