-- ===== src/Tests/Workspace.antt =====
-- The theorems on workspace files at concrete files.
use openclaw_operator.Prelude.{
  String, ◌≡◌, ◌↔◌, refl, true, ◌||◌, ◌&&◌, none, some, [], ◌∷◌, All, append, ◌==◌, contains,
}
use openclaw_operator.GoMap.{get, or_else}
use openclaw_operator.GoStrings.{clean, split, ends_with, replace_all, clean_onto, join_slash}
use openclaw_operator.Workspace.{create_only, replace, AdditionalWorkspace, WorkspaceSpec}
use openclaw_operator.Workspace.Paths.{
  validate_workspace_file_path, validate_managed_workspace_path, check_segments,
  validate_workspace_directory,
}
use openclaw_operator.Workspace.Paths.Accepted.{IsFilePath, validate_workspace_file_path_iff}
use openclaw_operator.Workspace.Paths.Cleaned.{clean-validate_workspace_file_path}
use openclaw_operator.Workspace.Keys.{
  is_words, skill_pack_cm_key, additional_workspace_cm_key, parse_additional_workspace_cm_key,
  managed_marker_path,
}
use openclaw_operator.Workspace.Keys.RoundTrip.{parse_additional_workspace_cm_key-of_key}
use openclaw_operator.Workspace.Keys.Markers.{managed_marker_path-IsShared}
use openclaw_operator.Workspace.ConfigMap.{
  Instance, Contents, bootstrap_enabled, build_workspace_config_map,
}
use openclaw_operator.Workspace.ConfigMap.Priority.{default_source}
use openclaw_operator.Workspace.ConfigMap.Defaults.{get-build_workspace_config_map}
use openclaw_operator.Workspace.ConfigMap.Additional.{additional_source}
use openclaw_operator.Workspace.Policies.{
  workspace_file_policy, additional_workspace_file_policy, workspace_has_replace_files, sources_of,
  managed_workspace_file_statuses,
}
use openclaw_operator.Workspace.Policies.Replaced.{workspace_has_replace_files-covers}
use openclaw_operator.Workspace.Policies.Reported.{
  reports, should_report, should_report_in, reports-managed_workspace_file_statuses,
}
use openclaw_operator.Workspace.Admission.{
  check_chars, check_behind, validate_skill_name, check_ref, check_files, check_directories,
  validate_managed_files, check_skills, check_workspace, check_workspaces, validate_workspace_spec,
}
use openclaw_operator.Workspace.Admission.Admitted.{
  AreNew, HasGoodFiles, IsAdmitted, validate_workspace_spec-IsAdmitted,
}
use openclaw_operator.Workspace.Admission.Sources.{validate_workspace_spec-sources}

validate_workspace_file_path_iff_example :
    (validate_workspace_file_path "agents/AGENT.md" ≡ none) ↔ IsFilePath "agents/AGENT.md"
validate_workspace_file_path_iff_example = validate_workspace_file_path_iff "agents/AGENT.md"

clean-validate_workspace_file_path_example :
    (clean "agents/AGENT.md" ≡ "agents/AGENT.md")
    × (validate_managed_workspace_path "agents/AGENT.md" ≡ none)
unfolding validate_workspace_file_path check_segments split ends_with
clean-validate_workspace_file_path_example =
    clean-validate_workspace_file_path "agents/AGENT.md" refl

parse_additional_workspace_cm_key-of_key_example :
    parse_additional_workspace_cm_key (additional_workspace_cm_key "team-one" "a--b.md")
    ≡ some ("team-one", "a--b.md")
unfolding is_words
parse_additional_workspace_cm_key-of_key_example =
    parse_additional_workspace_cm_key-of_key "team-one" "a--b.md" refl

managed_marker_path-IsShared_example :
    (managed_marker_path "" "a/b" ≡ managed_marker_path "" (skill_pack_cm_key "a/b"))
    × (managed_marker_path "one" "a/b"
        ≡ managed_marker_path "" (append "ws-" (append "one" (append "--" "a/b"))))
unfolding is_words
managed_marker_path-IsShared_example = managed_marker_path-IsShared "" "one" "a/b" refl

abbrev own : Contents
own = record { environment = "env"; bootstrap = "boot"; self_config = "self"; helper = "help" }

-- One additional workspace, with a file that it inherits the policy Replace for.
abbrev second : AdditionalWorkspace
second = record {
  name = "one";
  config_map_ref = none;
  initial_directories = [];
  skills = "npm:left-pad" ∷ [];
  initial_files = ("a/b", "x") ∷ [];
  file_update_policy = none;
  managed_files = [];
}

abbrev spec : WorkspaceSpec
spec = record {
  config_map_ref = none;
  initial_directories = "docs" ∷ [];
  initial_files = ("a/b", "nested") ∷ ("a--b", "flat") ∷ [];
  additional_workspaces = second ∷ [];
  bootstrap_enabled = none;
  file_update_policy = replace;
  managed_files = (record { path = "a--b"; update_policy = create_only }) ∷ [];
}

abbrev inst : Instance
inst = record { workspace = some spec; self_configure_enabled = true }

-- Of two inline files with one key the later is kept.
shared_key : get "a--b" (build_workspace_config_map own inst [] [] none) ≡ some "flat"
unfolding bootstrap_enabled replace_all
shared_key = get-build_workspace_config_map own inst [] [] none "a--b" refl

get-build_workspace_config_map_example :
    get "a--b" (build_workspace_config_map own inst [] [] none)
    ≡ default_source own inst [] none "a--b"
get-build_workspace_config_map_example =
    get-build_workspace_config_map own inst [] [] none "a--b" refl

workspace_has_replace_files-covers_example :
    ((path : String)
      → workspace_file_policy (some spec) path ≡ replace
      → workspace_has_replace_files (some spec) ≡ true)
    × All
        (λ aw.
          (path : String)
          → additional_workspace_file_policy (some spec) (some aw) path ≡ replace
          → workspace_has_replace_files (some spec) ≡ true)
        (second ∷ [])
workspace_has_replace_files-covers_example = workspace_has_replace_files-covers spec

abbrev hash : String → String
hash s = append "sha of " s

reports-managed_workspace_file_statuses_example :
    reports "" "a--b" (managed_workspace_file_statuses hash (some spec) [] []) ≡ (
      ("" == ""
        && should_report
            (workspace_file_policy (some spec))
            (sources_of spec.initial_files [])
            spec.managed_files
            "a--b")
      || should_report_in spec [] (second ∷ []) "" "a--b")
reports-managed_workspace_file_statuses_example =
    reports-managed_workspace_file_statuses hash spec [] [] "" "a--b"

validate_workspace_spec-IsAdmitted_example :
    HasGoodFiles spec.initial_files spec.managed_files
    × All IsAdmitted (second ∷ [])
    × AreNew [] ("one" ∷ [])
unfolding validate_workspace_spec check_ref check_files check_directories validate_managed_files
    check_skills check_workspace check_workspaces validate_skill_name check_behind check_chars
    validate_workspace_directory validate_workspace_file_path validate_managed_workspace_path
    check_segments split ends_with is_words clean clean_onto join_slash contains
validate_workspace_spec-IsAdmitted_example = validate_workspace_spec-IsAdmitted spec refl

validate_workspace_spec-sources_example :
    All
      (λ aw.
        get
          (additional_workspace_cm_key aw.name "a--b")
          (build_workspace_config_map own inst [] [] none)
        ≡ or_else
            (additional_source own [] none aw "a--b")
            (default_source own inst [] none (additional_workspace_cm_key aw.name "a--b")))
      (second ∷ [])
unfolding validate_workspace_spec check_ref check_files check_directories validate_managed_files
    check_skills check_workspace check_workspaces validate_skill_name check_behind check_chars
    validate_workspace_directory validate_workspace_file_path validate_managed_workspace_path
    check_segments split ends_with is_words clean clean_onto join_slash contains
validate_workspace_spec-sources_example =
    validate_workspace_spec-sources own [] [] none spec true "a--b" refl
