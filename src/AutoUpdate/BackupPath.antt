-- ===== src/AutoUpdate/BackupPath.antt =====
-- `lastPreUpdateBackupPath` of internal/controller/autoupdate.go, on the Job that
-- `drivePreUpdateBackup` makes.
use openclaw_operator.Prelude.{
  ◌≤◌, String, ◌≡◌, ◌≢◌, refl, sym, ◌∙◌, subst, true, Option, none, some, List, [], ◌∷◌, concat,
  append, len, len-append_lem, len_pos, arith, eq_iff, Result, ok, err,
}
use openclaw_operator.GoMap.{GoMap, get}
use openclaw_operator.AutoUpdate.{World, Instance, Job, JobCondition, Error, not_found}
use openclaw_operator.AutoUpdate.Api.{
  ◌>>=◌, gets, pure, raise, request, answer, attempt, on_result, on_option, get_job,
}
use openclaw_operator.AutoUpdate.Api.Returns.{>>=-ok}
use openclaw_operator.AutoUpdate.S3.{
  S3Credentials, get_s3_credentials, read_credentials, require, value_or_empty, build_rclone_job,
  rclone_args,
}
use openclaw_operator.AutoUpdate.Backup.{
  pre_update_backup_job_name, strip_prefix, path_from, last_pre_update_backup_path,
}

-- The credentials have a bucket.
require-not_empty : (key : String) (m : GoMap String) (v : String) → require key m ≡ ok v → v ≢ ""
require-not_empty key m v p = ground (arith, p, eq_iff (value_or_empty key m) "")

read_credentials-bucket :
    (m : GoMap String) (creds : S3Credentials) → read_credentials m ≡ ok creds → creds.bucket ≢ ""
unfolding read_credentials
read_credentials-bucket m creds p = ground (arith, p, require-not_empty "S3_BUCKET" m creds.bucket)

read-bucket :
    (m : GoMap String) (r : Result Error S3Credentials) (w : World) (creds : S3Credentials)
    → read_credentials m ≡ r
    → (on_result r raise pure w).0 ≡ ok creds
    → creds.bucket ≢ ""
unfolding on_result raise pure
read-bucket m r w creds q p = ground (arith, p, q, read_credentials-bucket m creds)

secret-bucket :
    (secret : Option (GoMap String)) (w : World) (creds : S3Credentials)
    → (on_option secret (raise not_found) (λ m. on_result (read_credentials m) raise pure) w).0
      ≡ ok creds
    → creds.bucket ≢ ""
unfolding on_option raise
secret-bucket none w creds p = ground (arith, p)
secret-bucket (some m) w creds p = read-bucket m (read_credentials m) w creds refl p

get_s3_credentials-bucket :
    (w : World) (creds : S3Credentials) → (get_s3_credentials w).0 ≡ ok creds → creds.bucket ≢ ""
unfolding get_s3_credentials
get_s3_credentials-bucket w creds p =
    let (u, q, p') = >>=-ok request _ w creds p in
    let (secret, q', p'') = >>=-ok (gets (λ w. w.secret)) _ (request w).1 creds p' in
    secret-bucket secret _ creds p''

-- The argument that is read is "/data/", which is no longer than the prefix.
prefix_covers :
    (bucket : String) → bucket ≢ "" → len "/data/" ≤ len (concat (":s3:" ∷ bucket ∷ "/" ∷ []))
prefix_covers bucket p =
    let q = len-append_lem ":s3:" (append bucket "/") in
    let r = len-append_lem bucket "/" in let l = len_pos bucket p in omega (arith, q, r, l)

strip_prefix-data :
    (found : Result Error S3Credentials) (w : World)
    → ((creds : S3Credentials) → found ≡ ok creds → creds.bucket ≢ "")
    → (strip_prefix found "/data/" (pure "") w).0 ≡ ok ""
unfolding strip_prefix pure
strip_prefix-data (err e) w p = refl
strip_prefix-data (ok creds) w p =
    let q = prefix_covers creds.bucket (p creds refl) in ground (arith, q)

path_from-backup :
    (job_name path : String) (labels : GoMap String) (inst : Instance) (creds : S3Credentials)
    (w : World)
    → (path_from (build_rclone_job job_name inst path labels creds true).containers w).0 ≡ ok ""
unfolding path_from build_rclone_job rclone_args on_option attempt ◌>>=◌
path_from-backup job_name path labels inst creds w =
    strip_prefix-data (get_s3_credentials w).0 (get_s3_credentials w).1
      (get_s3_credentials-bucket w)

get_job-ok :
    (name : String) (w : World) (job : Job)
    → (get_job name w).0 ≡ ok job
    → get name w.jobs ≡ some job
unfolding get_job on_option gets pure raise request answer ◌>>=◌
get_job-ok name w job p = ground (arith, p)

-- What the Job that was found gives.
path_of-found :
    (found : Result Error Job) (w : World)
    → ((job : Job) → found ≡ ok job → (w : World) → (path_from job.containers w).0 ≡ ok "")
    → (on_result found (λ e. pure "") (λ job. path_from job.containers) w).0 ≡ ok ""
unfolding on_result pure
path_of-found (ok job) w h = h job refl w
path_of-found (err e) w h = refl

some-eq : {A : Type 0} {a b : A} → some a ≡ some b → a ≡ b
some-eq p = cc

-- The path of the backup is never found: where the Job that the operator made for the backup is
-- there, with any conditions, `lastPreUpdateBackupPath` gives the empty text, whatever the
-- credentials and whatever the server answers.
pub last_pre_update_backup_path-IsLost :
    (w : World) (path : String) (labels : GoMap String) (inst : Instance) (creds : S3Credentials)
    (conditions : List JobCondition)
    → let name = pre_update_backup_job_name w.inst in
      get name w.jobs
        ≡ some
            (record (build_rclone_job name inst path labels creds true) { conditions = conditions })
      → (last_pre_update_backup_path w).0 ≡ ok ""
unfolding last_pre_update_backup_path gets attempt ◌>>=◌
last_pre_update_backup_path-IsLost w path labels inst creds conditions there =
    let name = pre_update_backup_job_name w.inst in
    path_of-found (get_job name w).0 (get_job name w).1 (λ job found w'.
      let same = some-eq (sym there ∙ get_job-ok name w job found) in
      subst (λ j. (path_from j.containers w').0 ≡ ok "") same
        (path_from-backup name path labels inst creds w'))
