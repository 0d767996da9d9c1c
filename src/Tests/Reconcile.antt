-- ===== src/Tests/Reconcile.antt =====
-- The theorems on the reconciler of self-config requests at concrete requests.
use openclaw_operator.Prelude.{
  String, ◌≡◌, refl, ◌⊎◌, true, false, Option, some, none, List, [], ◌∷◌, ◌++◌, concat,
}
use openclaw_operator.GoMap.{GoMap}
use openclaw_operator.Json.{obj, end, field, doc, get, unmarshal_object}
use openclaw_operator.SelfConfig.{skills, OpenClawSelfConfigSpec, ApplySpec}
use openclaw_operator.SelfConfig.Removal.{is_owned}
use openclaw_operator.SelfConfig.ManagedFields.{
  ManagedFieldsEntry, apply, find_self_config_fields, navigate_fields, decode_fields, as_object,
  extract_owned_skills,
}
use openclaw_operator.SelfConfig.ManagedFields.Owned.{is_owned-of_IsQuoted}
use openclaw_operator.SelfConfig.Reconcile.{
  World, Target, OpenClawSelfConfig, SelfConfigPhase, pending, applied, reconcile, is_terminal,
}
use openclaw_operator.SelfConfig.Reconcile.Verdict.{verdict, phase_of, reconcile-verdict}
use openclaw_operator.SelfConfig.Reconcile.Permitted.{IsExpired}
use openclaw_operator.SelfConfig.Reconcile.Permitted.Done.{
  reconcile-IsPermitted, reconcile-IsSettled,
}

abbrev quote : String → String
quote s = concat ("\"" ∷ s ∷ "\"" ∷ [])

abbrev parse : String → Option (GoMap String)
parse s = none

-- A request for one more skill.
abbrev wish : OpenClawSelfConfigSpec
wish = record {
  instance_ref = "demo";
  add_skills = "weather" ∷ [];
  remove_skills = [];
  config_patch = none;
  add_workspace_files = [];
  remove_workspace_files = [];
  add_env_vars = [];
  remove_env_vars = [];
}

abbrev in_phase : SelfConfigPhase → OpenClawSelfConfig
in_phase phase = record {
  spec = wish;
  status = record { phase = phase; warnings = []; completion_time = some 0 };
  owned = false;
}

abbrev target : Target
target = record {
  spec = record {
    skills = [];
    config_raw = none;
    workspace = none;
    env = [];
    self_configure_enabled = true;
    allowed_actions = skills ∷ [];
  };
  managed_fields = [];
}

abbrev world : OpenClawSelfConfig → World
world sc = record {
  sc = sc;
  stored = some sc;
  target = some target;
  patches = [];
  events = [];
  answers = [];
  now = 60;
}

reconcile-verdict_example :
    (phase_of (reconcile quote parse (world (in_phase pending))).1.stored
      ≡ (verdict (some target) wish).0)
    × ((reconcile quote parse (world (in_phase pending))).1.patches
        ≡ [] ++ (verdict (some target) wish).1)
reconcile-verdict_example =
    reconcile-verdict quote parse (world (in_phase pending)) (in_phase pending) refl refl refl

reconcile-IsPermitted_example :
    let w' = (reconcile quote parse (world (in_phase pending))).1 in
    (w'.patches ≡ [])
    ⊎ ((spec : ApplySpec) × (w'.patches ≡ [] ++ spec ∷ [])
        × (verdict (some target) wish ≡ (applied, spec ∷ []))
        × (is_terminal pending ≡ false))
reconcile-IsPermitted_example =
    reconcile-IsPermitted quote parse (world (in_phase pending)) (in_phase pending) refl

reconcile-IsSettled_example :
    let w' = (reconcile quote parse (world (in_phase applied))).1 in
    (w'.stored ≡ some (in_phase applied)) ⊎ ((w'.stored ≡ none) × IsExpired (some 0) 60)
reconcile-IsSettled_example =
    reconcile-IsSettled quote parse (world (in_phase applied)) (in_phase applied) refl refl

-- The fields of the self-config manager, with the skill "weather".
abbrev entries : List ManagedFieldsEntry
entries =
    record {
      manager = "openclaw-selfconfig";
      operation = apply;
      fields_v1 = some (
          doc (
            obj (
              field "f:spec"
                (obj (field "f:skills" (obj (field "v:\"weather\"" (obj end) end)) end)) end)));
    }
    ∷ []

is_owned-of_IsQuoted_example : is_owned (extract_owned_skills entries) "weather" ≡ false
unfolding find_self_config_fields decode_fields unmarshal_object navigate_fields as_object get
is_owned-of_IsQuoted_example = is_owned-of_IsQuoted entries "weather" (refl, tt) refl
