-- ===== src/SelfConfig.antt =====
-- The types of api/v1alpha1/openclawselfconfig_types.go, and those parts of an instance's spec
-- that a self-config request can change.
pub mod Actions
pub mod Skills
pub mod EnvVars
pub mod Files
pub mod DeepMerge
pub mod ConfigPatch
pub mod Apply
pub mod Removal
pub mod Reconcile
pub mod ManagedFields
use openclaw_operator.Prelude.{String, Bool, Option, List, ◌∷◌, []}
use openclaw_operator.GoMap.{GoMap}
use openclaw_operator.Json.{Raw}

pub data SelfConfigAction : Type 0 where
  skills config workspace_files env_vars : SelfConfigAction

pub record SelfConfigEnvVar : Type 0 where
  pub name : String
  pub value : String

pub record OpenClawSelfConfigSpec : Type 0 where
  pub instance_ref : String
  pub add_skills : List String
  pub remove_skills : List String
  pub config_patch : Option Raw
  pub add_workspace_files : GoMap String
  pub remove_workspace_files : List String
  pub add_env_vars : List SelfConfigEnvVar
  pub remove_env_vars : List String

-- corev1.EnvVar; the source of a value that is not plain stands for itself by its text.
pub record EnvVar : Type 0 where
  pub name : String
  pub value : String
  pub value_from : Option String

-- The errors of the functions that build an apply configuration.
pub data ApplyError : Type 0 where
  protected_env_modified protected_env_removed protected_config_key : String → ApplyError
  invalid_config_patch unreadable_config : ApplyError

-- The fields of an `OpenClawInstanceSpec` that a request reads and an apply configuration sets.
-- `workspace` is the map `initialFiles` of a workspace that is set.
pub record InstanceSpec : Type 0 where
  pub skills : List String
  pub config_raw : Option Raw
  pub workspace : Option (GoMap String)
  pub env : List EnvVar
  pub self_configure_enabled : Bool
  pub allowed_actions : List SelfConfigAction

-- The partial spec of an apply configuration.
pub record ApplySpec : Type 0 where
  pub skills : List String
  pub config_raw : Option Raw
  pub workspace : Option (GoMap String)
  pub env : List EnvVar
