-- ===== src/Backup/Restore/Recorded.antt =====
-- What is there when `reconcileRestore` of internal/controller/restore.go is done.
use openclaw_operator.Prelude.{
  ℕ, ◌≡◌, ◌≢◌, refl, Bool, true, false, none, some, Option, arith, ok, err, Result, eq_iff, ◌∙◌,
  sym, ap,
}
use openclaw_operator.GoMap.{get}
use openclaw_operator.AutoUpdate.{
  World, Instance, Spec, provisioning, Job, JobConditionType, job_complete, job_failed, Error,
  not_found, CtrlResult, restore_credentials_failed, already_exists, restore_started,
  restore_complete, restore_failed,
}
use openclaw_operator.AutoUpdate.Api.{
  Action, ◌>>=◌, ◌>>◌, attempt, gets, request, modify_status, emit, get_job, update_status,
  store_status, after, no_requeue, on_found, on_created,
}
use openclaw_operator.AutoUpdate.Api.Triples.{
  Triple, Post, Triple-bind, Triple-attempt, Triple-if, Triple-gets, Triple-weaken, Triple-found,
  Triple-result, Triple-pure, Triple-modify_status, Triple-emit, Triple-update_status,
  Triple-get_job, IsStable, Triple-request, Triple-update, Triple-raise,
}
use openclaw_operator.AutoUpdate.S3.{S3Credentials, reconcile_s3_mirror_secret, is_job_finished}
use openclaw_operator.AutoUpdate.Backup.{Progress, waiting}
use openclaw_operator.Backup.Restore.{
  restore_job_name, enter_restoring, create_restore_job, restore_failed_status, restored,
  clear_restore_from, finish_restore, by_restore_job, run_restore_of, restore, reconcile_restore,
  is_restoring, entered, job_named,
}
use openclaw_operator.AutoUpdate.S3.Reads.{
  Triple-reconcile_s3_mirror_secret, Triple-get_s3_credentials,
}
use openclaw_operator.Backup.Restore.Outcomes.{IsRestoreComplete, IsRecorded}

not_true : ◌≡◌ {A = Bool} false true → ⊥
not_true p = ground (arith, p)

name_of :
    (w₀ w : World) (inst : Instance)
    → w.inst.spec ≡ w₀.inst.spec
    → w.inst ≡ inst
    → restore_job_name inst ≡ restore_job_name w₀.inst
unfolding restore_job_name
name_of w₀ w inst h e = ground (arith, h, e)

done_flag :
    (p : Progress) (c : CtrlResult)
    → ◌≡◌ {A = Result Error Progress} (ok p) (ok (c, true))
    → p.1 ≡ true
done_flag p c e = ground (arith, e)

not_ok : {x : Error} {p : Progress} → ◌≡◌ {A = Result Error Progress} (err x) (ok p) → ⊥
not_ok e = ground (arith, e)

module _ (w₀ : World) where
  abbrev Near : World → Type 0
  Near w = (w.inst.spec ≡ w₀.inst.spec) × (w.stored.spec ≡ w₀.inst.spec) × (w.jobs ≡ w₀.jobs)

  -- A step that is done has restored.
  abbrev Done : Progress → World → Type 0
  Done p w = p.1 ≡ true → IsRestoreComplete w₀ × IsRecorded w₀.inst.restore_from w

  abbrev AnyError : Error → World → Type 0
  AnyError e w = Unit {0}

  waits : {P : World → Type 0} (n : ℕ) → Triple P (waiting n) Done AnyError
  waits n = Triple-pure (after n, false) (λ w h e. absurd (not_true e))

  any_request : {P : World → Type 0} → IsStable P → Triple P request (λ u. P) AnyError
  any_request stable =
      Triple-weaken request (λ w h. h) (λ u w h. h) (λ e w h. tt) (Triple-request stable)

  any_status :
      {P R : World → Type 0}
      → IsStable P
      → ((w : World) → P w → R (store_status w))
      → Triple P update_status (λ u. R) AnyError
  any_status stable k =
      Triple-weaken update_status (λ w h. h) (λ u w h. h) (λ e w h. tt)
        (Triple-update_status stable k)

  path_of : (w : World) → Near w → w.inst.restore_from ≡ w₀.inst.restore_from
  path_of w h = ap (λ (s : Spec). s.restore_from) h.0

  any : {A : Type 0} {P : World → Type 0} (m : Action A) → Triple P m (λ a w. Unit {0}) AnyError
  any {A} m = record { at = λ w h. by (m w).0 (m w).1 }
    where
      by : (r : Result Error A) (w : World) → Post (λ a w. Unit {0}) AnyError r w
      by (ok a) w = tt
      by (err e) w = tt

  created :
      (r : Result Error (Unit {0}))
      → Triple
          (λ w. Unit {0})
          (on_created r (waiting 10) (do emit restore_started; waiting 10))
          Done
          AnyError
  unfolding on_created
  created (ok u) = Triple-bind (λ u w. Unit {0}) _ _ (any (emit restore_started)) (λ u. waits 10)
  created (err already_exists) = waits 10
  created (err e) = Triple-raise e (λ w h. tt)

  enters : Triple Near enter_restoring (λ u. Near) AnyError
  unfolding enter_restoring store_status
  enters =
      Triple-gets (λ w. w.inst.phase) _
        λ phase.
          Triple-if (is_restoring phase) _ _ (λ e. Triple-pure tt (λ w h. h.0))
            λ e.
              Triple-bind (λ u. Near) _ _ (Triple-modify_status entered (λ w h. h.0))
                λ u. any_status {P = Near} (λ w l h. h) (λ w h. (h.1, h.1, h.2))

  -- What the object is once the status is taken.
  abbrev Noted : World → Type 0
  Noted w = (w.stored.restored_from ≡ w₀.inst.restore_from) × (w.stored.phase ≡ provisioning)

  clears : Triple Noted clear_restore_from (λ u. IsRecorded w₀.inst.restore_from) AnyError
  unfolding clear_restore_from
  clears =
      Triple-bind (λ u. Noted) _ _ (Triple-update _ (λ w h. h))
        λ u.
          Triple-bind (λ u. Noted) request _ (any_request (λ w l h. h))
            λ u. Triple-update _ (λ w h. (h.0, refl, h.1))

  -- What the object in memory is before the status is sent.
  abbrev Notes : World → Type 0
  Notes w = (w.inst.restored_from ≡ w₀.inst.restore_from) × (w.inst.phase ≡ provisioning)

  finishes : IsRestoreComplete w₀ → Triple Near finish_restore Done AnyError
  unfolding finish_restore store_status
  finishes c =
      Triple-bind (λ u. Near) (emit restore_complete) _ (Triple-emit _ (λ w h. h))
        λ u.
          Triple-gets (λ w. w.inst.restore_from) _
            λ path.
              Triple-bind (λ u. Notes) _ _
                (Triple-modify_status (restored path) (λ w h. (sym h.1 ∙ path_of w h.0, refl)))
                λ u.
                  Triple-bind (λ u. Noted) _ _ (any_status {P = Notes} (λ w l h. h) (λ w h. h))
                    λ u.
                      Triple-bind (λ u. IsRecorded w₀.inst.restore_from) _ _ clears
                        λ u. Triple-pure (no_requeue, true) (λ w h e. (c, h))

  by_job :
      (o : Option JobConditionType)
      → (o ≡ some job_complete → IsRestoreComplete w₀)
      → Triple Near (by_restore_job o) Done AnyError
  unfolding by_restore_job store_status
  by_job none c = waits 10
  by_job (some job_failed) c =
      Triple-bind (λ u. Near) (emit restore_failed) _ (Triple-emit _ (λ w h. h))
        λ u.
          Triple-bind (λ u. Near) _ _ (Triple-modify_status restore_failed_status (λ w h. h))
            λ u.
              Triple-bind (λ u. Near) _ _
                (any_status {P = Near} (λ w l h. h) (λ w h. (h.1, h.1, h.2))) λ u. waits 30
  by_job (some job_complete) c = finishes (c refl)

  creates : (creds : S3Credentials) → Triple Near (create_restore_job creds) Done AnyError
  unfolding create_restore_job
  creates creds =
      Triple-gets (λ w. w.inst) _
        λ inst.
          Triple-bind (λ u. AnyError not_found) _ _
            (any (modify_status (job_named (restore_job_name inst))))
            λ u.
              Triple-bind (λ u. AnyError not_found) _ _ (any update_status)
                λ u. Triple-bind (λ r. AnyError not_found) _ _ (any _) λ r. created r

  complete_of :
      (w : World) (inst : Instance) (job : Job)
      → Near w
      → w.inst ≡ inst
      → get (restore_job_name inst) w.jobs ≡ some job
      → is_job_finished job.conditions ≡ some job_complete
      → IsRestoreComplete w₀
  complete_of w inst job h e g c =
      let there : get (restore_job_name w₀.inst) w₀.jobs ≡ some job =
        rw (← name_of w₀ w inst h.0 e) (rw (← h.2) g) in
      ground (arith, there, c)

  looks :
      (creds : S3Credentials) (inst : Instance)
      → Triple
          (λ w. Near w × (w.inst ≡ inst))
          (attempt (get_job (restore_job_name inst)) >>= λ existing.
            on_found existing
              (create_restore_job creds)
              (λ job. by_restore_job (is_job_finished job.conditions)))
          Done
          AnyError
  looks creds inst =
      let there : Job → World → Type 0 =
        λ job w. (Near w × (w.inst ≡ inst)) × (get (restore_job_name inst) w.jobs ≡ some job) in
      let missing : Error → World → Type 0 = λ e w.
        (Near w × (w.inst ≡ inst)) × (e ≡ not_found → get (restore_job_name inst) w.jobs ≡ none) in
      Triple-bind (Post there missing) _ _
        (Triple-attempt there _ (Triple-get_job (λ w l h. h) (restore_job_name inst)))
        λ r.
          Triple-found there missing r _ _ (λ e w h. tt)
            (Triple-weaken _ (λ w h. h.0.0) (λ a w h. h) (λ e w h. h) (creates creds))
            λ job. record {
              at = λ w h.
                  (by_job (is_job_finished job.conditions)
                      (complete_of w inst job h.0.0 h.0.1 h.1)).at
                    w h.0.0;
            }

  runs : (creds : S3Credentials) → Triple Near (run_restore_of creds) Done AnyError
  unfolding run_restore_of
  runs creds =
      Triple-bind (λ u. Near) (reconcile_s3_mirror_secret creds) _
        (Triple-weaken _ (λ w h. h) (λ a w h. h) (λ e w h. tt)
          (Triple-reconcile_s3_mirror_secret (λ w l h. h) creds))
        λ u. Triple-gets (λ w. w.inst) _ (looks creds)

  gives_up :
      (e : Error) → Triple Near (emit restore_credentials_failed >>= λ u. waiting 30) Done AnyError
  gives_up e = Triple-bind (λ u. Near) _ _ (Triple-emit _ (λ w h. h)) (λ u. waits 30)

  restores : Triple Near restore Done AnyError
  unfolding restore
  restores =
      Triple-bind (λ u. Near) _ _ enters
        λ u.
          Triple-bind (Post (λ creds. Near) (λ e w. Near w × (e ≡ not_found → w.secret ≡ none))) _ _
            (Triple-attempt _ _ (Triple-get_s3_credentials (λ w l h. h)))
            λ r.
              Triple-result _ _ r _ _
                (λ e. Triple-weaken _ (λ w h. h.0) (λ a w h. h) (λ e w h. h) (gives_up e)) runs

done_of :
    (w₀ : World) (r : Result Error Progress) (w : World) (c : CtrlResult)
    → Post (Done w₀) (AnyError w₀) r w
    → r ≡ ok (c, true)
    → IsRestoreComplete w₀ × IsRecorded w₀.inst.restore_from w
done_of w₀ (ok p) w c h e = h (done_flag p c e)
done_of w₀ (err x) w c h e = absurd (not_ok e)

requested :
    (w : World)
    → w.inst.restore_from ≢ ""
    → w.inst.restored_from ≡ ""
    → reconcile_restore w ≡ restore w
unfolding reconcile_restore gets ◌>>=◌
requested w asked open_yet =
    ground (arith, asked, open_yet, eq_iff w.inst.restore_from "", eq_iff w.inst.restored_from "")

-- A restore that is asked for and has not been made is done only where the restore Job has
-- completed, and then the stored object has the path as its `restoredFrom`, no `restoreFrom` and
-- the phase Provisioning. The controller reads the current object, and the server may refuse any
-- request.
pub reconcile_restore-IsRecorded :
    (w : World) (c : CtrlResult)
    → w.stored.spec ≡ w.inst.spec
    → w.inst.restore_from ≢ ""
    → w.inst.restored_from ≡ ""
    → (reconcile_restore w).0 ≡ ok (c, true)
    → IsRestoreComplete w × IsRecorded w.inst.restore_from (reconcile_restore w).1
reconcile_restore-IsRecorded w c s asked open_yet p =
    let q = requested w asked open_yet in
    let r = ap (λ (o : Result Error Progress × World). o.0) (sym q) ∙ p in
    rw q (done_of w (restore w).0 (restore w).1 c ((restores w).at w (refl, s, refl)) r)
