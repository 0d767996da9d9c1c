-- ===== src/Tests/ConfigPatch.antt =====
-- The theorems on patches of the configuration at concrete documents.
use openclaw_operator.Prelude.{◌≡◌, refl, some, [], ◌∷◌, contains, ok}
use openclaw_operator.Json.{doc, Fields, obj, end, field, str, get, set, at, unmarshal_object}
use openclaw_operator.SelfConfig.{OpenClawSelfConfigSpec}
use openclaw_operator.SelfConfig.DeepMerge.{merge_value, deep_merge}
use openclaw_operator.SelfConfig.DeepMerge.Paths.{at-merge_value}
use openclaw_operator.SelfConfig.ConfigPatch.{
  check_keys, decode_base, patch_config, build_config_apply, at_raw, at_config,
  build_config_apply_protected,
}

-- {"gateway":{"port":"1"},"log":{"level":"info"}}
abbrev base : Fields
base =
    field "gateway" (obj (field "port" (str "1") end))
      (field "log" (obj (field "level" (str "info") end)) end)

-- {"log":{"level":"debug"}}
abbrev patch : Fields
patch = field "log" (obj (field "level" (str "debug") end)) end

abbrev result : Fields
result =
    field "gateway" (obj (field "port" (str "1") end))
      (field "log" (obj (field "level" (str "debug") end)) end)

abbrev request : OpenClawSelfConfigSpec
request = record {
  instance_ref = "demo";
  add_skills = [];
  remove_skills = [];
  config_patch = some (doc (obj patch));
  add_workspace_files = [];
  remove_workspace_files = [];
  add_env_vars = [];
  remove_env_vars = [];
}

accepted : build_config_apply (some (doc (obj base))) request ≡ ok (some (doc (obj result)))
unfolding build_config_apply patch_config check_keys decode_base unmarshal_object deep_merge
    contains get set
accepted = refl

build_config_apply_protected_example :
    at_raw ("gateway" ∷ "port" ∷ []) (doc (obj result))
    ≡ at_config ("gateway" ∷ "port" ∷ []) (some (doc (obj base)))
unfolding contains
build_config_apply_protected_example =
    build_config_apply_protected "gateway" ("port" ∷ []) (some (doc (obj base))) request
      (doc (obj result)) accepted refl

at-merge_value_example :
    at ("log" ∷ "level" ∷ []) (merge_value (some (obj base)) (obj patch)) ≡ some (str "debug")
unfolding at get
at-merge_value_example =
    at-merge_value ("log" ∷ "level" ∷ []) (some (obj base)) (obj patch) (str "debug")
      (refl, (refl, tt, tt), tt) refl tt
