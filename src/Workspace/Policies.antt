-- ===== src/Workspace/Policies.antt =====
-- The update policies of workspace files and what the status reports of them:
-- internal/resources/workspace_files.go.
pub mod Replaced
pub mod Reported
use openclaw_operator.Prelude.{
  String, Bool, true, false, ◌||◌, Option, none, some, List, [], ◌∷◌, ◌++◌, ◌==◌, if◌then◌else◌,
}
use openclaw_operator.GoMap.{GoMap, get}
use openclaw_operator.Workspace.{
  UpdatePolicy, unset, create_only, replace, ManagedFile, AdditionalWorkspace, WorkspaceSpec,
}
use openclaw_operator.Workspace.ConfigMap.{put_all, as_it_is}
use Prim.Native.String.{compare}
use text.Mathlib.Text.{is_lt}

-- `policy == WorkspaceFileUpdatePolicyReplace`
abbrev pub is_replace : UpdatePolicy → Bool
is_replace replace = true
is_replace policy = false

-- `defaultedPolicy`
abbrev pub defaulted_policy : UpdatePolicy → UpdatePolicy
defaulted_policy replace = replace
defaulted_policy policy = create_only

-- A path that is listed without a policy is replaced.
abbrev pub listed_policy : UpdatePolicy → UpdatePolicy
listed_policy unset = replace
listed_policy policy = policy

-- `managedFilePolicy`
unfoldable pub managed_file_policy : List ManagedFile → String → Option UpdatePolicy
managed_file_policy [] path = none
managed_file_policy (file ∷ files) path =
    if file.path == path
    then some (listed_policy file.update_policy)
    else managed_file_policy files path

-- `WorkspaceFilePolicy`
unfoldable pub workspace_file_policy : Option WorkspaceSpec → String → UpdatePolicy
workspace_file_policy none path = create_only
workspace_file_policy (some ws) path = elim (managed_file_policy ws.managed_files path) [
  | some policy ↦ policy
  | none ↦ defaulted_policy ws.file_update_policy
]

-- The default of an additional workspace, which it inherits where it sets none.
unfoldable pub inherited_policy : Option WorkspaceSpec → Option UpdatePolicy → UpdatePolicy
inherited_policy ws (some policy) = defaulted_policy policy
inherited_policy (some ws) none = defaulted_policy ws.file_update_policy
inherited_policy none none = create_only

-- `AdditionalWorkspaceFilePolicy`
unfoldable pub additional_workspace_file_policy :
    Option WorkspaceSpec → Option AdditionalWorkspace → String → UpdatePolicy
additional_workspace_file_policy ws none path = create_only
additional_workspace_file_policy ws (some aw) path =
    elim (managed_file_policy aw.managed_files path) [
      | some policy ↦ policy
      | none ↦ inherited_policy ws aw.file_update_policy
    ]

-- `p, _ := managedFilePolicy(...); p == WorkspaceFileUpdatePolicyReplace`
abbrev pub is_replaced : Option UpdatePolicy → Bool
is_replaced none = false
is_replaced (some policy) = is_replace policy

-- The loop over the managed files, each looked up by its path.
unfoldable pub has_replaced : List ManagedFile → List ManagedFile → Bool
has_replaced all [] = false
has_replaced all (file ∷ files) =
    is_replaced (managed_file_policy all file.path) || has_replaced all files

unfoldable pub sets_replace : Option UpdatePolicy → Bool
sets_replace none = false
sets_replace (some policy) = is_replace (defaulted_policy policy)

unfoldable pub some_replaced : List AdditionalWorkspace → Bool
some_replaced [] = false
some_replaced (aw ∷ l) =
    sets_replace aw.file_update_policy
    || has_replaced aw.managed_files aw.managed_files
    || some_replaced l

-- `WorkspaceHasReplaceFiles`
unfoldable pub workspace_has_replace_files : Option WorkspaceSpec → Bool
workspace_has_replace_files none = false
workspace_has_replace_files (some ws) =
    is_replace (defaulted_policy ws.file_update_policy)
    || has_replaced ws.managed_files ws.managed_files
    || some_replaced ws.additional_workspaces

-- `defaultWorkspaceSources` and `additionalWorkspaceSources`, by the inline files.
unfoldable pub sources_of : GoMap String → GoMap String → GoMap String
sources_of initial external = put_all as_it_is (some initial) (put_all as_it_is (some external) [])

abbrev pub before : String → String → Bool
before s t = is_lt (compare s t)

unfoldable pub insert : String → List String → List String
insert s [] = s ∷ []
insert s (t ∷ l) = let rest = insert s l in if before s t then s ∷ t ∷ l else t ∷ rest

-- `sortedKeys`
unfoldable pub sorted_keys : GoMap String → List String
sorted_keys [] = []
sorted_keys ((k, v) ∷ m) = insert k (sorted_keys m)

unfoldable pub insert_workspace :
    AdditionalWorkspace → List AdditionalWorkspace → List AdditionalWorkspace
insert_workspace ws [] = ws ∷ []
insert_workspace ws (other ∷ l) =
    let rest = insert_workspace ws l in
    if before ws.name other.name then ws ∷ other ∷ l else other ∷ rest

-- `sort.Slice(addl, ...)`, for workspaces with distinct names.
unfoldable pub sort_workspaces : List AdditionalWorkspace → List AdditionalWorkspace
sort_workspaces [] = []
sort_workspaces (ws ∷ l) = insert_workspace ws (sort_workspaces l)

-- `ManagedWorkspaceFileStatus`
pub record ManagedFileStatus : Type 0 where
  pub workspace : String
  pub path : String
  pub update_policy : UpdatePolicy
  pub source_hash : String

abbrev pub content_of : Option String → String
content_of none = ""
content_of (some content) = content

-- A map that is missing is empty.
abbrev pub or_empty : Option (GoMap String) → GoMap String
or_empty none = []
or_empty (some m) = m

-- `hash` is the SHA-256 of a text in hexadecimal, as `SourceContentHash` writes it.
module _ (hash : String → String) where
  -- The files with a source that are replaced.
  unfoldable pub with_source :
      String → (String → UpdatePolicy) → GoMap String → List String → List ManagedFileStatus
  with_source workspace policy sources [] = []
  with_source workspace policy sources (path ∷ paths) =
      let rest = with_source workspace policy sources paths in
      if is_replace (policy path)
      then (record {
        workspace = workspace;
        path = path;
        update_policy = policy path;
        source_hash = hash (content_of (get path sources));
      })
        ∷ rest
      else rest

  -- The managed files without a source.
  unfoldable pub without_source :
      String → (String → UpdatePolicy) → GoMap String → List ManagedFile → List ManagedFileStatus
  without_source workspace policy sources [] = []
  without_source workspace policy sources (file ∷ files) =
      let rest = without_source workspace policy sources files in
      elim (get file.path sources) [
        | some content ↦ rest
        | none ↦
            (record {
              workspace = workspace;
              path = file.path;
              update_policy = policy file.path;
              source_hash = "";
            })
            ∷ rest
      ]

  unfoldable pub statuses_of :
      String → (String → UpdatePolicy) → GoMap String → List ManagedFile → List ManagedFileStatus
  statuses_of workspace policy sources managed =
      with_source workspace policy sources (sorted_keys sources)
      ++ without_source workspace policy sources managed

  -- The loop over the additional workspaces.
  unfoldable pub additional_statuses :
      WorkspaceSpec → GoMap (GoMap String) → List AdditionalWorkspace → List ManagedFileStatus
  additional_statuses ws external [] = []
  additional_statuses ws external (aw ∷ l) =
      let files = or_empty (get aw.name external) in
      statuses_of aw.name (additional_workspace_file_policy (some ws) (some aw))
        (sources_of aw.initial_files files) aw.managed_files
      ++ additional_statuses ws external l

  -- `ManagedWorkspaceFileStatuses`
  unfoldable pub managed_workspace_file_statuses :
      Option WorkspaceSpec → GoMap String → GoMap (GoMap String) → List ManagedFileStatus
  managed_workspace_file_statuses none external additional_external = []
  managed_workspace_file_statuses (some ws) external additional_external =
      statuses_of "" (workspace_file_policy (some ws)) (sources_of ws.initial_files external)
        ws.managed_files
      ++ additional_statuses ws additional_external (sort_workspaces ws.additional_workspaces)
