-- ===== src/Workspace/Keys.antt =====
-- The keys of the workspace ConfigMap and the names of marker files: `SkillPackCMKey` of
-- internal/resources/skillpacks.go, the keys of internal/resources/workspace_configmap.go,
-- `managedMarkerPath` of internal/resources/workspace_files.go, and the pattern of workspace names in
-- internal/webhook/openclawinstance_webhook.go.
pub mod RoundTrip
pub mod Markers
use Prim.Native.String.{[], ◌∷◌}
use Prim.Native.Char.{Char, code}
use openclaw_operator.Prelude.{
  String, Bool, true, false, ◌&&◌, ◌||◌, Option, none, some, List, leb, eqb, len, slice, append,
  concat, ◌==◌, if◌then◌else◌,
}
use openclaw_operator.GoStrings.{replace_all, cut_dashes}
use text.Mathlib.Text.{starts_with}

-- `[a-z0-9]`
abbrev pub is_word_char : Char → Bool
is_word_char c = (leb 97 (code c) && leb (code c) 122) || (leb 48 (code c) && leb (code c) 57)

-- The rest of a name, behind a character of a word or not.
unfoldable pub is_words : Bool → String → Bool
is_words inside [] = inside
is_words inside (c ∷ s) =
    let word = is_words true s in
    let rest = is_words false s in
    if is_word_char c then word else eqb (code c) 45 && inside && rest

-- `workspaceNameRegex`
abbrev pub is_workspace_name : String → Bool
is_workspace_name name = is_words false name

-- `SkillPackCMKey`
abbrev pub skill_pack_cm_key : String → String
skill_pack_cm_key path = replace_all path 47 "--"

abbrev pub additional_workspace_key_sep : String
additional_workspace_key_sep = "--ws--"

-- `AdditionalWorkspaceCMKey`
unfoldable pub additional_workspace_cm_key : String → String → String
additional_workspace_cm_key name filename =
    append additional_workspace_key_sep (append name (append "--" filename))

-- `ParseAdditionalWorkspaceCMKey`
unfoldable pub parse_additional_workspace_cm_key : String → Option (String × String)
parse_additional_workspace_cm_key key =
    if starts_with key additional_workspace_key_sep
    then cut_dashes (slice key 6 (len key))
    else none

-- `managedMarkerDir`
abbrev pub managed_marker_dir : String
managed_marker_dir = "/data/.workspace-managed"

-- `managedMarkerPath`
unfoldable pub managed_marker_path : String → String → String
managed_marker_path workspace path =
    let key = skill_pack_cm_key path in
    append managed_marker_dir (
      append "/"
        (if workspace == "" then key else append "ws-" (append workspace (append "--" key))))
