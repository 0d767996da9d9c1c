-- ===== src/Tests/SelfConfig.antt =====
-- The theorems on requests for self-configuration at concrete requests.
use openclaw_operator.Prelude.{String, ◌≡◌, refl, true, none, some, List, [], ◌∷◌, contains}
use openclaw_operator.GoMap.{GoMap, get, set}
use openclaw_operator.SelfConfig.{skills, OpenClawSelfConfigSpec, EnvVar, InstanceSpec, ApplySpec}
use openclaw_operator.SelfConfig.Actions.{determine_actions}
use openclaw_operator.SelfConfig.Skills.{build_skills_apply, keep_skill, add_skill}
use openclaw_operator.SelfConfig.Files.{build_workspace_files_apply}
use openclaw_operator.SelfConfig.EnvVars.{
  plain, is_protected, check_adds, check_removes, add_by_name, keep_env, add_env, merge_env,
  build_env_apply,
}
use openclaw_operator.SelfConfig.EnvVars.Laws.{entries, entries-build_env_apply}
use openclaw_operator.SelfConfig.EnvVars.Twice.{first_value, last_value, merge_env_twice}
use openclaw_operator.SelfConfig.Apply.{
  Implements, apply_action, build_apply_spec, build_apply_spec-Implements,
}

abbrev request : OpenClawSelfConfigSpec
request = record {
  instance_ref = "demo";
  add_skills = "git" ∷ "web" ∷ [];
  remove_skills = "old" ∷ [];
  config_patch = none;
  add_workspace_files = ("NOTES.md", "hello") ∷ [];
  remove_workspace_files = "TODO.md" ∷ [];
  add_env_vars = record { name = "LEVEL"; value = "debug" } ∷ [];
  remove_env_vars = "OLD" ∷ [];
}

abbrev current_skills : List String
current_skills = "old" ∷ "git" ∷ []

abbrev files : GoMap String
files = ("TODO.md", "x") ∷ ("A.md", "y") ∷ []

abbrev current_env : List EnvVar
current_env = plain "PATH" "/bin" ∷ plain "LEVEL" "info" ∷ []

abbrev merged_env : List EnvVar
merged_env = plain "PATH" "/bin" ∷ plain "LEVEL" "debug" ∷ []

entries-build_env_apply_example : entries "PATH" merged_env ≡ entries "PATH" current_env
unfolding build_env_apply check_adds check_removes is_protected merge_env add_by_name keep_env
    add_env contains get set
entries-build_env_apply_example =
    entries-build_env_apply "PATH" current_env request merged_env refl refl

-- A request that names a variable twice.
abbrev twice : OpenClawSelfConfigSpec
twice = record request {
  add_env_vars =
      record { name = "LEVEL"; value = "a" } ∷ record { name = "LEVEL"; value = "b" } ∷ [];
}

abbrev other_env : List EnvVar
other_env = plain "PATH" "/bin" ∷ []

merge_env_twice_example :
    let once = merge_env other_env twice in
    (entries "LEVEL" once ≡ plain "LEVEL" "a" ∷ [])
    × (entries "LEVEL" (merge_env once twice) ≡ plain "LEVEL" "b" ∷ [])
unfolding contains first_value last_value entries
merge_env_twice_example = merge_env_twice "LEVEL" "a" "b" other_env twice refl refl refl refl

abbrev inst : InstanceSpec
inst = record {
  skills = current_skills;
  config_raw = none;
  workspace = none;
  env = current_env;
  self_configure_enabled = true;
  allowed_actions = skills ∷ [];
}

abbrev built : ApplySpec
built = record {
  skills = "git" ∷ "web" ∷ [];
  config_raw = none;
  workspace = some (("NOTES.md", "hello") ∷ []);
  env = merged_env;
}

build_apply_spec-Implements_example : Implements inst request built
unfolding build_apply_spec determine_actions apply_action build_skills_apply keep_skill add_skill
    build_workspace_files_apply build_env_apply check_adds check_removes is_protected merge_env
    add_by_name keep_env add_env contains get set
build_apply_spec-Implements_example = build_apply_spec-Implements inst request built refl
