-- ===== src/AutoUpdate.antt =====
-- The state of the auto-update machine of internal/controller/autoupdate.go: the object that the
-- controller has in memory, what the API server stores, and the cluster around them.
pub mod Intervals
pub mod Api
pub mod S3
pub mod Backup
pub mod Rollback
pub mod Drive
pub mod Check
pub mod Objects
pub mod RollbackCount
pub mod Breaker
pub mod ReconcileBound
pub mod Start
pub mod StartVersion
pub mod TagOrigin
pub mod TagMachine
pub mod Retry
pub mod BackupPath
pub mod TagAfterBackup
pub mod BackupFirst
pub mod Guards
pub mod Outcomes
use openclaw_operator.Prelude.{ℕ, String, Bool, Option, List}
use openclaw_operator.GoMap.{GoMap}

-- `UpdatePhase`
pub data UpdatePhase : Type 0 where
  idle backing_up applying_update health_check rolling_back : UpdatePhase

-- `Status.Phase`
pub data Phase : Type 0 where
  pending provisioning running degraded failed terminating phase_backing_up : Phase
  restoring updating suspended unset : Phase

-- `AutoUpdateStatus`; a time is in nanoseconds.
pub record AutoUpdateStatus : Type 0 where
  pub last_check_time : Option ℕ
  pub latest_version : String
  pub current_version : String
  pub pending_version : String
  pub update_phase : UpdatePhase
  pub last_update_time : Option ℕ
  pub last_update_error : String
  pub previous_version : String
  pub pre_update_backup_path : String
  pub failed_version : String
  pub rollback_count : ℕ  -- int32

-- A condition of a type that is known from where it stands; its message is left out.
pub record Condition : Type 0 where
  pub is_true : Bool
  pub reason : String

-- The status. Of its conditions these are those of type `AutoUpdateAvailable`, given by its
-- message, `BackupComplete`, `RestoreComplete` and `ScheduledBackupReady`.
pub record Status : Type 0 where
  pub auto_update : AutoUpdateStatus
  pub open auto_update use *
  pub phase : Phase
  pub available : Option String
  pub backing_up_since : Option ℕ
  pub last_backup_path : String
  pub last_backup_time : Option ℕ
  pub backup_job_name : String
  pub backup_condition : Option Condition
  pub restored_from : String
  pub restore_job_name : String
  pub restore_condition : Option Condition
  pub backup_cron_job : String
  pub scheduled_condition : Option Condition

-- The fields of the spec and the metadata that the machines read; they write `image_tag`,
-- `restore_from` and `finalizers` only.
-- `image_repository` is what `resources.GetImageRepository` gives.
pub record Spec : Type 0 where
  pub name : String
  pub namespace : String
  pub tenant_label : Option String
  pub image_repository : String
  pub image_tag : String
  pub image_digest : String
  pub enabled : Option Bool
  pub check_interval : String
  pub backup_before_update : Option Bool
  pub rollback_on_failure : Option Bool
  pub health_check_timeout : String
  pub persistence_enabled : Option Bool
  pub existing_claim : String
  pub node_selector : GoMap String
  pub tolerations : List String
  pub service_account_name : String
  pub annotations : GoMap String
  pub finalizers : List String
  pub uid : String
  pub orphan : Option Bool
  pub backup_timeout : String
  pub restore_from : String
  pub schedule : String
  pub history_limit : Option ℕ
  pub failed_history_limit : Option ℕ
  pub retention_days : Option ℕ

pub record Instance : Type 0 where
  pub spec : Spec
  pub open spec use *
  pub status : Status
  pub open status use *

pub record StatefulSet : Type 0 where
  pub replicas : Option ℕ
  pub ready_replicas : ℕ
  pub updated_replicas : ℕ

-- The conditions of a Job that `isJobFinished` looks for.
pub data JobConditionType : Type 0 where
  job_complete job_failed : JobConditionType

pub record JobCondition : Type 0 where
  pub type : JobConditionType
  pub is_true : Bool

-- An environment variable of a container: plain, or a key of a Secret.
pub data JobEnv : Type 0 where
  plain : String → String → JobEnv
  secret_key : String → String → String → JobEnv

pub record Container : Type 0 where
  pub name : String
  pub args : List String
  pub env : List JobEnv

pub record Job : Type 0 where
  pub name : String
  pub namespace : String
  pub labels : GoMap String
  pub ttl_seconds_after_finished : ℕ
  pub backoff_limit : ℕ
  pub service_account_name : String
  pub node_selector : GoMap String
  pub tolerations : List String
  pub claim_name : String
  pub containers : List Container
  pub conditions : List JobCondition

-- The periodic backup: what its Jobs run, and on which schedule. The rest of the object is constant.
pub record CronJob : Type 0 where
  pub name : String
  pub namespace : String
  pub labels : GoMap String
  pub schedule : String
  pub successful_jobs_history_limit : ℕ
  pub failed_jobs_history_limit : ℕ
  pub service_account_name : String
  pub node_selector : GoMap String
  pub tolerations : List String
  pub claim_name : String
  pub command : String
  pub env : List JobEnv

-- The reasons of the events that the machines emit.
pub data Event : Type 0 where
  backup_timed_out backup_skipped backup_credentials_failed backup_job_failed : Event
  restore_credentials_failed : Event
  resolve_failed tag_resolved check_failed available_event backup_started backup_complete : Event
  applied confirmed health_check_failed rolled_back paused aborted restore_started : Event
  restore_complete restore_failed : Event

-- How the API server answers a request.
pub data Answer : Type 0 where
  accepted already_exists_answer : Answer
  rejected : String → Answer

-- The whole state. `answers` are the answers to the requests to come, and a request behind them
-- is accepted; `owners` are the uids of the owner references of the claim `PVCName`, where that claim is there;
-- `secret` is the credentials Secret in the operator's namespace. `registry` is what
-- `VersionResolver.LatestSemver` gives, none being its error, and is none for a nil resolver.
pub record World : Type 0 where
  pub inst : Instance
  pub stored : Instance
  pub sts : Option StatefulSet
  pub pods : ℕ
  pub jobs : GoMap Job
  pub owners : Option (List String)
  pub cron_job : Option CronJob
  pub secret : Option (GoMap String)
  pub events : List Event
  pub answers : List Answer
  pub registry : Option (Option String)
  pub now : ℕ
  pub timestamp : String

-- `ctrl.Result`; the delay is in seconds.
pub record CtrlResult : Type 0 where
  pub requeue : Bool
  pub requeue_after : ℕ

-- The errors; an error of the server has its text.
pub data Error : Type 0 where
  not_found already_exists half_credentials : Error
  api_failed missing_key : String → Error
  backup_failed restore_job_failed : String → Error
