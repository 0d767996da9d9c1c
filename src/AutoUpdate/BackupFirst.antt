-- ===== src/AutoUpdate/BackupFirst.antt =====
-- What `drivePreUpdateBackup` of internal/controller/autoupdate.go waits for.
use openclaw_operator.Prelude.{
  ℕ, String, ◌≡◌, refl, Bool, true, false, none, some, arith, Result, ok, err, ltb, subst, ◌∙◌, sym,
  if◌then◌else◌,
}
use openclaw_operator.GoMap.{GoMap, get}
use openclaw_operator.AutoUpdate.{
  World, StatefulSet, Job, job_complete, CtrlResult, Error, not_found,
}
use openclaw_operator.AutoUpdate.Api.{
  ◌>>=◌, ◌>>◌, gets, pure, raise, update, request, answer, attempt, on_found, on_created, on_option,
  on_result, get_job, create_job, get_sts, scale, list_pods, emit,
}
use openclaw_operator.AutoUpdate.Api.Returns.{>>=-ok}
use openclaw_operator.AutoUpdate.S3.{
  S3Credentials, is_job_finished, get_s3_credentials, reconcile_s3_mirror_secret,
}
use openclaw_operator.AutoUpdate.Backup.{
  pre_update_backup_job_name, quiesce, start_job, by_outcome, run_backup_job, run_backup,
  drive_pre_update_backup, is_scaled_up, waiting, done,
}

abbrev IsComplete : String → GoMap Job → Type 0
IsComplete name jobs = elim (get name jobs) [
  | none ↦ ⊥
  | some job ↦ is_job_finished job.conditions ≡ some job_complete
]

-- The backup Job is there and has completed.
abbrev pub IsBackedUp : World → Type 0
IsBackedUp w = IsComplete (pre_update_backup_job_name w.inst) w.jobs

-- There is no StatefulSet; or it is scaled down, no pod is left, and the backup has completed.
abbrev pub IsSafeToUpdate : World → Type 0
IsSafeToUpdate w = elim w.sts [
  | none ↦ Unit
  | some sts ↦ (is_scaled_up sts.replicas ≡ false) × (w.pods ≡ 0) × IsBackedUp w
]

IsBackedUp-run_backup_job :
    (creds : S3Credentials) (w : World) (r : CtrlResult)
    → (run_backup_job creds w).0 ≡ ok (r, true)
    → IsBackedUp w
unfolding run_backup_job start_job by_outcome on_found on_created on_option get_job create_job
    attempt emit gets pure raise update request answer ◌>>=◌
IsBackedUp-run_backup_job creds w r p = ground (arith, p)

-- What is around the operator is the same.
abbrev IsSame : World → World → Type 0
IsSame w w' = (w'.inst ≡ w.inst) × (w'.sts ≡ w.sts) × (w'.pods ≡ w.pods) × (w'.jobs ≡ w.jobs)

IsSame-get_s3_credentials : (w : World) → IsSame w (get_s3_credentials w).1
unfolding get_s3_credentials on_option on_result gets pure raise request answer ◌>>=◌
IsSame-get_s3_credentials w = ground arith

IsSame-reconcile_s3_mirror_secret :
    (creds : S3Credentials) (w : World) → IsSame w (reconcile_s3_mirror_secret creds w).1
unfolding reconcile_s3_mirror_secret pure request answer ◌>>=◌
IsSame-reconcile_s3_mirror_secret creds w = ground arith

IsBackedUp-of_IsSame : (w w' : World) → IsSame w w' → IsBackedUp w' → IsBackedUp w
IsBackedUp-of_IsSame w w' (i, s, q, j) h =
    subst (λ jobs. IsComplete (pre_update_backup_job_name w.inst) jobs) j
      (subst (λ inst. IsComplete (pre_update_backup_job_name inst) w'.jobs) i h)

IsBackedUp-run_backup :
    (w : World) (r : CtrlResult) → (run_backup w).0 ≡ ok (r, true) → IsBackedUp w
unfolding run_backup
IsBackedUp-run_backup w r p =
    let (creds, q, p') = >>=-ok get_s3_credentials _ w (r, true) p in
    let w' = (get_s3_credentials w).1 in
    let (u, q', p'') = >>=-ok (reconcile_s3_mirror_secret creds) _ w' (r, true) p' in
    let w'' = (reconcile_s3_mirror_secret creds w').1 in
    IsBackedUp-of_IsSame w w' (IsSame-get_s3_credentials w) (
      IsBackedUp-of_IsSame w' w'' (IsSame-reconcile_s3_mirror_secret creds w')
        (IsBackedUp-run_backup_job creds w'' r p''))

IsSame-list_pods : (w : World) → IsSame w (list_pods w).1
unfolding list_pods gets request answer ◌>>=◌
IsSame-list_pods w = ground arith

list_pods-ok : (w : World) (n : ℕ) → (list_pods w).0 ≡ ok n → w.pods ≡ n
unfolding list_pods gets request answer ◌>>=◌
list_pods-ok w n p = ground (arith, p)

-- Behind the look at the pods.
IsBackedUp-pods :
    (w : World) (n : ℕ) (r : CtrlResult)
    → ((if ltb 0 n then waiting 5 else run_backup) w).0 ≡ ok (r, true)
    → (n ≡ 0) × IsBackedUp w
unfolding pure
IsBackedUp-pods w n r p = ground (arith, p, IsBackedUp-run_backup w r)

IsReady : StatefulSet → World → Type 0
IsReady sts w = (is_scaled_up sts.replicas ≡ false) × (w.pods ≡ 0) × IsBackedUp w

IsReady-count :
    (w : World) (r : CtrlResult)
    → ((list_pods >>= λ pods. if ltb 0 pods then waiting 5 else run_backup) w).0 ≡ ok (r, true)
    → (w.pods ≡ 0) × IsBackedUp w
IsReady-count w r p =
    let (n, q, p') = >>=-ok list_pods _ w (r, true) p in
    let (none_left, backed_up) = IsBackedUp-pods (list_pods w).1 n r p' in
    (
      list_pods-ok w n q ∙ none_left,
      IsBackedUp-of_IsSame w (list_pods w).1 (IsSame-list_pods w) backed_up,
    )

not_done : (w : World) (r : CtrlResult) → (waiting 5 w).0 ≡ ok (r, true) → ⊥
unfolding pure
not_done w r p = ground (arith, p)

IsReady-branch :
    (up : Bool) (w : World) (r : CtrlResult)
    → ((if up
          then (do scale 0; waiting 5)
          else (do pods ← list_pods; if ltb 0 pods then waiting 5 else run_backup))
        w).0
      ≡ ok (r, true)
    → (up ≡ false) × (w.pods ≡ 0) × IsBackedUp w
IsReady-branch true w r p =
    let (u, q, p') = >>=-ok (scale 0) _ w (r, true) p in absurd (not_done (scale 0 w).1 r p')
IsReady-branch false w r p =
    let (none_left, backed_up) = IsReady-count w r p in (refl, none_left, backed_up)

IsReady-quiesce :
    (w : World) (sts : StatefulSet) (r : CtrlResult)
    → (quiesce run_backup sts w).0 ≡ ok (r, true)
    → IsReady sts w
unfolding IsReady quiesce
IsReady-quiesce w sts r p = IsReady-branch (is_scaled_up sts.replicas) w r p

IsSame-get_sts : (w : World) → IsSame w (get_sts w).1
unfolding get_sts on_option gets pure raise request answer ◌>>=◌
IsSame-get_sts w = ground arith

-- What the answer to the request for the StatefulSet says.
abbrev Tells : Result Error StatefulSet → World → Type 0
Tells (ok sts) w = w.sts ≡ some sts
Tells (err not_found) w = w.sts ≡ none
Tells (err e) w = Unit

get_sts-Tells : (w : World) → Tells (get_sts w).0 w
unfolding get_sts on_option gets pure raise request answer ◌>>=◌
get_sts-Tells w = ground arith

IsSafeToUpdate-found :
    (found : Result Error StatefulSet) (w w' : World) (r : CtrlResult)
    → Tells found w
    → IsSame w w'
    → (on_found found done (quiesce run_backup) w').0 ≡ ok (r, true)
    → IsSafeToUpdate w
unfolding on_found raise IsReady
IsSafeToUpdate-found (err not_found) w w' r t same p = ground (arith, t)
IsSafeToUpdate-found (err e) w w' r t same p = ground (arith, p)
IsSafeToUpdate-found (ok sts) w w' r t same p =
    let (down, none_left, backed_up) = IsReady-quiesce w' sts r p in
    let backup = IsBackedUp-of_IsSame w w' same backed_up in
    let gone = sym same.2 ∙ none_left in ground (arith, t, down, gone, backup)

-- The backup step is done only where it is safe to update: there is no StatefulSet, or it is
-- scaled down, no pod is left, and the backup Job has completed. That is so too where there is no
-- credentials Secret.
pub drive_pre_update_backup-IsSafeToUpdate :
    (w : World) (r : CtrlResult) → (drive_pre_update_backup w).0 ≡ ok (r, true) → IsSafeToUpdate w
unfolding drive_pre_update_backup attempt ◌>>=◌
drive_pre_update_backup-IsSafeToUpdate w r p =
    IsSafeToUpdate-found (get_sts w).0 w (get_sts w).1 r (get_sts-Tells w) (IsSame-get_sts w) p
