-- ===== src/Workspace.antt =====
-- The files of an instance's workspaces: internal/resources/validation.go, workspace_files.go and
-- workspace_configmap.go, with the types of api/v1alpha1/openclawinstance_types.go.
pub mod Paths
pub mod Keys
pub mod ConfigMap
pub mod Policies
pub mod Admission
use openclaw_operator.Prelude.{String, Bool, Option, List}
use openclaw_operator.GoMap.{GoMap}

-- `WorkspaceFileUpdatePolicy`; `unset` is the empty text.
pub data UpdatePolicy : Type 0 where
  unset create_only replace : UpdatePolicy

pub record ManagedFile : Type 0 where
  pub path : String
  pub update_policy : UpdatePolicy

pub record AdditionalWorkspace : Type 0 where
  pub name : String
  pub config_map_ref : Option String  -- by its name
  pub initial_directories : List String
  pub skills : List String
  pub initial_files : GoMap String
  pub file_update_policy : Option UpdatePolicy
  pub managed_files : List ManagedFile

pub record WorkspaceSpec : Type 0 where
  pub config_map_ref : Option String
  pub initial_directories : List String
  pub initial_files : GoMap String
  pub additional_workspaces : List AdditionalWorkspace
  pub bootstrap_enabled : Option Bool
  pub file_update_policy : UpdatePolicy
  pub managed_files : List ManagedFile
