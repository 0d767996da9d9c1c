-- ===== src/Workspace/Paths.antt =====
-- The checks of names and paths of internal/resources/validation.go, and
-- `ValidateManagedWorkspacePath` of internal/resources/workspace_files.go.
pub mod Accepted
pub mod Cleaned
use openclaw_operator.Prelude.{
  String, Bool, true, false, ◌||◌, Option, none, some, List, [], ◌∷◌, ltb, len, ◌==◌, if◌then◌else◌,
}
use openclaw_operator.GoStrings.{split, has_text, ends_with, clean}
use text.Mathlib.Text.{starts_with}

-- Why a name or a path is refused.
pub data PathError : Type 0 where
  empty too_long has_slash has_backslash has_dots hidden reserved absolute trailing_slash
        empty_segment traverses :
      PathError

-- `ValidateWorkspaceFilename`; `none` is the error nil.
unfoldable pub validate_workspace_filename : String → Option PathError
validate_workspace_filename name =
    if name == ""
    then some empty
    else if ltb 253 (len name)
    then some too_long
    else if has_text name "/"
    then some has_slash
    else if has_text name "\\"
    then some has_backslash
    else if has_text name ".."
    then some has_dots
    else if starts_with name "."
    then some hidden
    else if name == "openclaw.json"
    then some reserved
    else none

-- The loop over the segments of a path.
unfoldable pub check_segments : List String → Option PathError
check_segments [] = none
check_segments (seg ∷ segs) =
    if seg == ""
    then some empty_segment
    else if has_text seg ".."
    then some has_dots
    else if starts_with seg "."
    then some hidden
    else check_segments segs

-- `ValidateWorkspaceFilePath`
unfoldable pub validate_workspace_file_path : String → Option PathError
validate_workspace_file_path path =
    if path == ""
    then some empty
    else if ltb 253 (len path)
    then some too_long
    else if has_text path "\\"
    then some has_backslash
    else if starts_with path "/"
    then some absolute
    else if ends_with path "/"
    then some trailing_slash
    else if path == "openclaw.json"
    then some reserved
    else check_segments (split 47 path)

-- `ValidateWorkspaceDirectory`
unfoldable pub validate_workspace_directory : String → Option PathError
validate_workspace_directory dir =
    if dir == ""
    then some empty
    else if ltb 253 (len dir)
    then some too_long
    else if has_text dir "\\"
    then some has_backslash
    else if has_text dir ".."
    then some has_dots
    else if starts_with dir "/"
    then some absolute
    else none

-- `ValidateManagedWorkspacePath`
unfoldable pub validate_managed_workspace_path : String → Option PathError
validate_managed_workspace_path path =
    let cleaned = clean path in
    if path == ""
    then some empty
    else if starts_with path "/"
    then some absolute
    else if cleaned == ".." || starts_with cleaned "../"
    then some traverses
    else none
