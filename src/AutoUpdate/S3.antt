-- ===== src/AutoUpdate/S3.antt =====
-- The credentials and the Jobs of internal/controller/s3.go.
pub mod Reads
use openclaw_operator.Prelude.{
  String, Bool, not, ◌&&◌, ◌||◌, Option, none, some, List, [], ◌∷◌, ◌++◌, concat, len, slice, ◌==◌,
  if◌then◌else◌, Result, ok, err,
}
use openclaw_operator.GoMap.{GoMap, get}
use openclaw_operator.AutoUpdate.{
  Instance, Job, JobCondition, JobConditionType, JobEnv, plain, secret_key, Error, missing_key,
  half_credentials, not_found,
}
use openclaw_operator.AutoUpdate.Api.{
  Action, ◌>>=◌, ◌>>◌, pure, raise, gets, request, on_option, on_result,
}
use text.Mathlib.Text.{starts_with}

pub record S3Credentials : Type 0 where
  pub bucket : String
  pub key_id : String
  pub app_key : String
  pub endpoint : String
  pub region : String
  pub provider : String
  pub env_auth : Bool

-- `string(secret.Data[key])`: the zero value where the key is missing.
abbrev pub value_or_empty : String → GoMap String → String
value_or_empty key m = elim (get key m) [ none ↦ "" | some v ↦ v ]

-- The closure `get`.
abbrev pub require : String → GoMap String → Result Error String
require key m = let v = value_or_empty key m in if v == "" then err (missing_key key) else ok v

-- The part of `getS3Credentials` behind the request.
unfoldable pub read_credentials : GoMap String → Result Error S3Credentials
read_credentials m = elim (require "S3_BUCKET" m) [
  | err e ↦ err e
  | ok bucket ↦ elim (require "S3_ENDPOINT" m) [
    | err e ↦ err e
    | ok endpoint ↦
        let key_id = value_or_empty "S3_ACCESS_KEY_ID" m in
        let app_key = value_or_empty "S3_SECRET_ACCESS_KEY" m in
        let provider = value_or_empty "S3_PROVIDER" m in
        if (key_id == "" && not (app_key == "")) || (not (key_id == "") && app_key == "")
        then err half_credentials
        else ok (record {
          bucket = bucket;
          key_id = key_id;
          app_key = app_key;
          endpoint = endpoint;
          region = value_or_empty "S3_REGION" m;
          provider = if provider == "" then "Other" else provider;
          env_auth = key_id == "" && app_key == "";
        })
  ]
]

unfoldable pub get_s3_credentials : Action S3Credentials
get_s3_credentials = do
  request
  secret ← gets (λ w. w.secret)
  on_option secret (raise not_found) (λ m. on_result (read_credentials m) raise pure)

unfoldable pub mirror_secret_name : Instance → String
mirror_secret_name inst = concat (inst.name ∷ "-s3-credentials" ∷ [])

-- The mirror Secret is not part of the state: what counts here is that writing it may fail.
unfoldable pub reconcile_s3_mirror_secret : S3Credentials → Action (Unit {0})
reconcile_s3_mirror_secret creds = if creds.env_auth then pure tt else (do request; request)

-- `getTenantID`
unfoldable pub get_tenant_id : Instance → String
get_tenant_id inst =
    let from_namespace =
      if starts_with inst.namespace "oc-tenant-"
      then slice inst.namespace (len "oc-tenant-") (len inst.namespace)
      else inst.namespace in
    elim inst.tenant_label [
      | none ↦ from_namespace
      | some tenant ↦ if tenant == "" then from_namespace else tenant
    ]

-- `backupLabels`
unfoldable pub backup_labels : Instance → String → GoMap String
backup_labels inst job_type =
    ("app.kubernetes.io/managed-by", "openclaw-operator")
    ∷ ("openclaw.rocks/tenant", get_tenant_id inst)
    ∷ ("openclaw.rocks/instance", inst.name)
    ∷ ("openclaw.rocks/job-type", job_type)
    ∷ []

-- `pvcNameForInstance`
unfoldable pub pvc_name_for_instance : Instance → String
pvc_name_for_instance inst =
    if inst.existing_claim == "" then concat (inst.name ∷ "-data" ∷ []) else inst.existing_claim

-- `isJobFinished`: the type of the first condition that is true.
unfoldable pub is_job_finished : List JobCondition → Option JobConditionType
is_job_finished [] = none
is_job_finished (c ∷ cs) = if c.is_true then some c.type else is_job_finished cs

-- The arguments of rclone.
unfoldable pub rclone_args : S3Credentials → String → Bool → List String
rclone_args creds remote_path is_backup =
    let remote = concat (":s3:" ∷ creds.bucket ∷ "/" ∷ remote_path ∷ []) in
    let provider = concat ("--s3-provider=" ∷ creds.provider ∷ []) in
    let auth_args : List String =
      if creds.env_auth
      then "--s3-env-auth=true" ∷ []
      else "--s3-access-key-id=$(S3_ACCESS_KEY_ID)"
        ∷ "--s3-secret-access-key=$(S3_SECRET_ACCESS_KEY)" ∷ [] in
    let region_args : List String =
      if creds.region == "" then [] else "--s3-region=$(S3_REGION)" ∷ [] in
    (if is_backup
      then "sync" ∷ "/data/" ∷ remote ∷ provider ∷ "--s3-endpoint=$(S3_ENDPOINT)" ∷ []
      else "sync" ∷ remote ∷ "/data/" ∷ provider ∷ "--s3-endpoint=$(S3_ENDPOINT)" ∷ [])
    ++ (auth_args ++ ("--skip-links" ∷ "--transfers=8" ∷ "--checkers=16" ∷ "-v" ∷ region_args))

-- The environment of rclone.
unfoldable pub rclone_env : S3Credentials → String → List JobEnv
rclone_env creds secret_name =
    let keys : List JobEnv =
      if creds.env_auth
      then []
      else secret_key "S3_ACCESS_KEY_ID" secret_name "S3_ACCESS_KEY_ID"
        ∷ secret_key "S3_SECRET_ACCESS_KEY" secret_name "S3_SECRET_ACCESS_KEY"
        ∷ [] in
    let region : List JobEnv =
      if creds.region == "" then [] else plain "S3_REGION" creds.region ∷ [] in
    plain "S3_ENDPOINT" creds.endpoint ∷ (keys ++ region)

-- `buildRcloneJob`, for the Job `job_name` of an instance. The image, the user ids and the mount
-- of the claim at /data are constants of the source, and are left out.
unfoldable pub build_rclone_job :
    String → Instance → String → GoMap String → S3Credentials → Bool → Job
build_rclone_job job_name inst remote_path labels creds is_backup = record {
  name = job_name;
  namespace = inst.namespace;
  labels = labels;
  ttl_seconds_after_finished = 86_400;
  backoff_limit = 3;
  service_account_name = inst.service_account_name;
  node_selector = inst.node_selector;
  tolerations = inst.tolerations;
  claim_name = pvc_name_for_instance inst;
  containers =
      record {
        name = "rclone";
        args = rclone_args creds remote_path is_backup;
        env = rclone_env creds (mirror_secret_name inst);
      }
      ∷ [];
  conditions = [];
}
