-- ===== src/SelfConfig/Apply.antt =====
-- `buildApplySpec` of internal/controller/selfconfig_apply.go.
use openclaw_operator.Prelude.{
  String, ◌≡◌, Option, none, some, List, [], ◌∷◌, arith, if◌then◌else◌, Result, ok, ◌>>=◌,
}
use openclaw_operator.GoMap.{GoMap}
use openclaw_operator.Json.{Raw}
use openclaw_operator.SelfConfig.{
  SelfConfigAction, skills, config, workspace_files, env_vars, OpenClawSelfConfigSpec, InstanceSpec,
  ApplySpec, ApplyError,
}
use openclaw_operator.SelfConfig.Actions.{determine_actions, asks}
use openclaw_operator.SelfConfig.Skills.{build_skills_apply}
use openclaw_operator.SelfConfig.EnvVars.{build_env_apply}
use openclaw_operator.SelfConfig.Files.{build_workspace_files_apply}
use openclaw_operator.SelfConfig.ConfigPatch.{build_config_apply}

abbrev pub empty_spec : ApplySpec
empty_spec = record { skills = []; config_raw = none; workspace = none; env = [] }

-- `currentFiles`: nil where the instance has no workspace.
abbrev pub current_files : Option (GoMap String) → GoMap String
current_files none = []
current_files (some files) = files

-- A nil result leaves `spec.Config.Raw` as it is.
abbrev pub or_kept : Option Raw → Option Raw → Option Raw
or_kept none old = old
or_kept (some raw) old = some raw

-- One round of the loop over the actions: a case of the `switch`.
unfoldable pub apply_action :
    InstanceSpec
    → OpenClawSelfConfigSpec
    → ApplySpec
    → SelfConfigAction
    → Result ApplyError ApplySpec
apply_action inst sc spec skills = ok (record spec { skills = build_skills_apply inst.skills sc })
apply_action inst sc spec config = do
  raw ← build_config_apply inst.config_raw sc
  ok (record spec { config_raw = or_kept raw spec.config_raw })
apply_action inst sc spec workspace_files = ok (record spec {
  workspace = some (build_workspace_files_apply (current_files inst.workspace) sc);
})
apply_action inst sc spec env_vars = do
  env ← build_env_apply inst.env sc
  ok (record spec { env = env })

apply_actions :
    InstanceSpec
    → OpenClawSelfConfigSpec
    → ApplySpec
    → List SelfConfigAction
    → Result ApplyError ApplySpec
apply_actions inst sc spec [] = ok spec
apply_actions inst sc spec (a ∷ actions) =
    apply_action inst sc spec a >>= λ next. apply_actions inst sc next actions

unfoldable pub build_apply_spec :
    InstanceSpec → OpenClawSelfConfigSpec → List SelfConfigAction → Result ApplyError ApplySpec
unfolding apply_actions
build_apply_spec inst sc actions = apply_actions inst sc empty_spec actions

-- What the apply configuration of a request is, field by field.
pub record Implements (inst : InstanceSpec) (sc : OpenClawSelfConfigSpec) (spec : ApplySpec)
    : Type 0 where
  pub skills_built :
      spec.skills ≡ (if asks sc skills then build_skills_apply inst.skills sc else [])
  pub config_built :
      (if asks sc config then build_config_apply inst.config_raw sc else ok none)
      ≡ ok spec.config_raw
  pub workspace_built : spec.workspace ≡ (
      if asks sc workspace_files
      then some (build_workspace_files_apply (current_files inst.workspace) sc)
      else none)
  pub env_built : (if asks sc env_vars then build_env_apply inst.env sc else ok []) ≡ ok spec.env

-- Where the apply configuration of the determined actions is built, each of its fields is what the
-- function of that action builds, and a field whose action is not asked for is left empty.
pub build_apply_spec-Implements :
    (inst : InstanceSpec) (sc : OpenClawSelfConfigSpec) (spec : ApplySpec)
    → build_apply_spec inst sc (determine_actions sc) ≡ ok spec
    → Implements inst sc spec
unfolding build_apply_spec determine_actions apply_action
build_apply_spec-Implements inst sc spec h = ground arith
