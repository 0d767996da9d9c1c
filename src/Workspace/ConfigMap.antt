-- ===== src/Workspace/ConfigMap.antt =====
-- `BuildWorkspaceConfigMap` of internal/resources/workspace_configmap.go, by the data of the
-- ConfigMap.
pub mod Priority
pub mod Additional
pub mod Defaults
use openclaw_operator.Prelude.{
  String, Bool, true, false, Option, none, some, List, [], ◌∷◌, loop, if◌then◌else◌,
}
use openclaw_operator.GoMap.{GoMap, get, set}
use openclaw_operator.Workspace.{AdditionalWorkspace, WorkspaceSpec}
use openclaw_operator.Workspace.Keys.{skill_pack_cm_key, additional_workspace_cm_key}

-- `ResolvedSkillPacks`; of a nested value, a pointer, only the files are there.
pub record ResolvedSkillPacks : Type 0 where
  pub files : GoMap String
  pub workspaces : GoMap (Option (GoMap String))

-- What the ConfigMap depends on in an instance.
pub record Instance : Type 0 where
  pub workspace : Option WorkspaceSpec
  pub self_configure_enabled : Bool

-- `WorkspacePacks`, by the files of the packs.
unfoldable pub workspace_packs : Option ResolvedSkillPacks → String → Option (GoMap String)
workspace_packs none name = none
workspace_packs (some packs) name = elim (get name packs.workspaces) [ none ↦ none | some p ↦ p ]

-- `bootstrapEnabled`
unfoldable pub bootstrap_enabled : Instance → Bool
bootstrap_enabled inst = elim inst.workspace [
  | none ↦ true
  | some ws ↦ elim ws.bootstrap_enabled [ none ↦ true | some b ↦ b ]
]

-- One round of `for k, v := range m { files[key(k)] = v }`.
abbrev pub set_as : (String → String) → GoMap String → String × String → GoMap String
set_as key files (k, v) = set (key k) v files

abbrev pub put_all : (String → String) → Option (GoMap String) → GoMap String → GoMap String
put_all key none files = files
put_all key (some m) files = loop (set_as key) files m

abbrev pub set_if : Bool → String → String → GoMap String → GoMap String
set_if b k v files = if b then set k v files else files

abbrev pub as_it_is : String → String
as_it_is k = k

-- The texts of the operator's own files: ENVIRONMENT.md, BOOTSTRAP.md, SELFCONFIG.md and
-- selfconfig.sh.
pub record Contents : Type 0 where
  pub environment : String
  pub bootstrap : String
  pub self_config : String
  pub helper : String

abbrev pub initial_files_of : Option WorkspaceSpec → Option (GoMap String)
initial_files_of none = none
initial_files_of (some ws) = some ws.initial_files

abbrev pub additional_of : Option WorkspaceSpec → List AdditionalWorkspace
additional_of none = []
additional_of (some ws) = ws.additional_workspaces

abbrev pub files_of_packs : Option ResolvedSkillPacks → Option (GoMap String)
files_of_packs none = none
files_of_packs (some packs) = some packs.files

module _ (own : Contents) where
  -- The files of the default workspace.
  unfoldable pub default_files : Instance → GoMap String → Option ResolvedSkillPacks → GoMap String
  default_files inst external packs =
      let seeded =
        put_all skill_pack_cm_key (initial_files_of inst.workspace)
          (put_all as_it_is (some external) (put_all as_it_is (files_of_packs packs) [])) in
      set_if inst.self_configure_enabled "selfconfig.sh" own.helper (
        set_if inst.self_configure_enabled "SELFCONFIG.md" own.self_config (
          set_if (bootstrap_enabled inst) "BOOTSTRAP.md" own.bootstrap
            (set "ENVIRONMENT.md" own.environment seeded)))

  -- One round of the loop over the additional workspaces.
  unfoldable pub add_workspace :
      GoMap (GoMap String)
      → Option ResolvedSkillPacks
      → GoMap String
      → AdditionalWorkspace
      → GoMap String
  add_workspace external packs files ws =
      let key = additional_workspace_cm_key ws.name in
      set (key "ENVIRONMENT.md") own.environment (
        put_all (λ k. key (skill_pack_cm_key k)) (some ws.initial_files)
          (put_all key (get ws.name external) (put_all key (workspace_packs packs ws.name) files)))

  -- `BuildWorkspaceConfigMap`
  unfoldable pub build_workspace_config_map :
      Instance → GoMap String → GoMap (GoMap String) → Option ResolvedSkillPacks → GoMap String
  build_workspace_config_map inst external additional_external packs =
      loop (add_workspace additional_external packs) (default_files inst external packs)
        (additional_of inst.workspace)
