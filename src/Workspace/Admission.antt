-- ===== src/Workspace/Admission.antt =====
-- The checks of workspaces in internal/webhook/openclawinstance_webhook.go: `validateWorkspaceSpec`,
-- `validateManagedFiles` and `validateSkillName`.
pub mod Admitted
pub mod Sources
use Prim.Native.String.{[], ◌∷◌}
use Prim.Native.Char.{Char, code}
use openclaw_operator.Prelude.{
  ℕ, String, Bool, true, false, ◌&&◌, ◌||◌, Option, none, some, List, contains, ltb, leb, eqb, len,
  ◌==◌, if◌then◌else◌,
}
use openclaw_operator.GoMap.{GoMap, or_else}
use openclaw_operator.GoStrings.{trim_prefix}
use openclaw_operator.Workspace.{ManagedFile, AdditionalWorkspace, WorkspaceSpec}
use openclaw_operator.Workspace.Paths.{
  PathError, validate_workspace_file_path, validate_workspace_directory,
  validate_managed_workspace_path,
}
use openclaw_operator.Workspace.Keys.{is_workspace_name}
use text.Mathlib.Text.{starts_with}

-- Why a skill is refused.
pub data SkillError : Type 0 where
  empty_skill skill_too_long empty_npm empty_pack invalid_character : SkillError

-- Why a workspace is refused.
pub data WorkspaceError : Type 0 where
  empty_config_map_ref empty_name bad_name duplicate_name duplicate_managed duplicate_skill :
      WorkspaceError
  bad_file bad_directory bad_managed : PathError → WorkspaceError
  bad_skill : SkillError → WorkspaceError

-- The characters of a skill's name.
abbrev pub is_skill_char : Char → Bool
is_skill_char c =
    (leb 97 (code c) && leb (code c) 122)
    || (leb 65 (code c) && leb (code c) 90)
    || (leb 48 (code c) && leb (code c) 57)
    || eqb (code c) 45
    || eqb (code c) 95
    || eqb (code c) 47
    || eqb (code c) 46
    || eqb (code c) 64

-- The loop over the characters.
unfoldable pub check_chars : String → Option SkillError
check_chars [] = none
check_chars (c ∷ s) =
    let rest = check_chars s in if is_skill_char c then rest else some invalid_character

-- Behind a prefix something must follow.
unfoldable pub check_behind : SkillError → String → Option SkillError
check_behind e rest = if rest == "" then some e else check_chars rest

-- `validateSkillName`
unfoldable pub validate_skill_name : String → Option SkillError
validate_skill_name name =
    if name == ""
    then some empty_skill
    else if ltb 128 (len name)
    then some skill_too_long
    else if starts_with name "npm:"
    then check_behind empty_npm (trim_prefix name "npm:")
    else if starts_with name "pack:"
    then check_behind empty_pack (trim_prefix name "pack:")
    else check_chars name

abbrev pub wrap : {E : Type 0} → (E → WorkspaceError) → Option E → Option WorkspaceError
wrap f none = none
wrap f (some e) = some (f e)

-- `or_else` goes on to the next check where one gives no error.
unfoldable pub check_ref : Option String → Option WorkspaceError
check_ref none = none
check_ref (some name) = if name == "" then some empty_config_map_ref else none

unfoldable pub check_files : GoMap String → Option WorkspaceError
check_files List.[] = none
check_files (List.◌∷◌ (name, content) m) =
    or_else (wrap bad_file (validate_workspace_file_path name)) (check_files m)

unfoldable pub check_directories : List String → Option WorkspaceError
check_directories List.[] = none
check_directories (List.◌∷◌ dir dirs) =
    or_else (wrap bad_directory (validate_workspace_directory dir)) (check_directories dirs)

-- `validateManagedFiles`, with the paths that were seen.
unfoldable pub validate_managed_files : List String → List ManagedFile → Option WorkspaceError
validate_managed_files seen List.[] = none
validate_managed_files seen (List.◌∷◌ file files) =
    or_else (wrap bad_managed (validate_managed_workspace_path file.path)) (
      if contains seen file.path
      then some duplicate_managed
      else validate_managed_files (List.◌∷◌ file.path seen) files)

unfoldable pub check_skills : List String → List String → Option WorkspaceError
check_skills seen List.[] = none
check_skills seen (List.◌∷◌ skill skills) = or_else (wrap bad_skill (validate_skill_name skill)) (
    if contains seen skill then some duplicate_skill else check_skills (List.◌∷◌ skill seen) skills)

-- What is checked of an additional workspace behind its name.
unfoldable pub check_workspace : AdditionalWorkspace → Option WorkspaceError
check_workspace aw = or_else (check_ref aw.config_map_ref) (
    or_else (check_files aw.initial_files) (
      or_else (check_directories aw.initial_directories) (
        or_else (check_skills List.[] aw.skills)
          (validate_managed_files List.[] aw.managed_files))))

-- The loop over the additional workspaces, with the names that were seen.
unfoldable pub check_workspaces : List String → List AdditionalWorkspace → Option WorkspaceError
check_workspaces seen List.[] = none
check_workspaces seen (List.◌∷◌ aw l) =
    if aw.name == ""
    then some empty_name
    else if is_workspace_name aw.name
    then (if contains seen aw.name
        then some duplicate_name
        else or_else (check_workspace aw) (check_workspaces (List.◌∷◌ aw.name seen) l))
    else some bad_name

-- `validateWorkspaceSpec`
unfoldable pub validate_workspace_spec : WorkspaceSpec → Option WorkspaceError
validate_workspace_spec ws = or_else (check_ref ws.config_map_ref) (
    or_else (check_files ws.initial_files) (
      or_else (check_directories ws.initial_directories) (
        or_else (validate_managed_files List.[] ws.managed_files)
          (check_workspaces List.[] ws.additional_workspaces))))
