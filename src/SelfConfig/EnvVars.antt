-- ===== src/SelfConfig/EnvVars.antt =====
-- `buildEnvApply` of internal/controller/selfconfig_apply.go.
pub mod Laws
pub mod Adds
pub mod Twice
use openclaw_operator.Prelude.{
  String, Bool, true, false, not, Option, none, some, List, [], ◌∷◌, ◌++◌, if◌then◌else◌, loop,
  contains, Result, ok, err, ◌>>=◌, ◌>>◌,
}
use openclaw_operator.GoMap.{GoMap, get, set}
use openclaw_operator.SelfConfig.{
  OpenClawSelfConfigSpec, SelfConfigEnvVar, EnvVar, ApplyError, protected_env_modified,
  protected_env_removed,
}

-- `protectedEnvVars`
abbrev pub protected_env_vars : List String
protected_env_vars =
    "HOME" ∷ "OPENCLAW_DISABLE_BONJOUR" ∷ "OPENCLAW_GATEWAY_TOKEN" ∷ "OPENCLAW_INSTANCE_NAME"
    ∷ "OPENCLAW_NAMESPACE" ∷ "PATH" ∷ "CHROMIUM_URL" ∷ "OLLAMA_HOST" ∷ "TS_AUTHKEY" ∷ "TS_HOSTNAME"
    ∷ "TS_SOCKET" ∷ "NODE_EXTRA_CA_CERTS" ∷ "NPM_CONFIG_CACHE" ∷ "NPM_CONFIG_IGNORE_SCRIPTS" ∷ []

unfoldable pub is_protected : String → Bool
is_protected name = contains protected_env_vars name

-- The loop that refuses additions.
unfoldable pub check_adds : List SelfConfigEnvVar → Result ApplyError (Unit {0})
check_adds [] = ok tt
check_adds (ev ∷ evs) =
    if is_protected ev.name then err (protected_env_modified ev.name) else check_adds evs

-- The loop that refuses removals.
unfoldable pub check_removes : List String → Result ApplyError (Unit {0})
check_removes [] = ok tt
check_removes (name ∷ names) =
    if is_protected name then err (protected_env_removed name) else check_removes names

-- The map `addByName`: of two additions with one name the later is kept.
unfoldable pub add_by_name : List SelfConfigEnvVar → GoMap String
add_by_name evs = loop (λ m (ev : SelfConfigEnvVar). set ev.name ev.value m) [] evs

pub record Env : Type 0 where
  pub seen : List String
  pub result : List EnvVar

abbrev pub append_env : Env → EnvVar → Env
append_env m ev = record { seen = ev.name ∷ m.seen; result = m.result ++ ev ∷ [] }

abbrev pub plain : String → String → EnvVar
plain name value = record { name = name; value = value; value_from = none }

-- One round of the loop over `current`.
unfoldable pub keep_env : List String → GoMap String → Env → EnvVar → Env
keep_env remove_set adds m ev = if contains remove_set ev.name then m else elim (get ev.name adds) [
  | some val ↦ append_env m (plain ev.name val)
  | none ↦ append_env m ev
]

-- One round of the loop over `sc.Spec.AddEnvVars`.
unfoldable pub add_env : Env → SelfConfigEnvVar → Env
add_env m ev = if not (contains m.seen ev.name) then append_env m (plain ev.name ev.value) else m

-- The two loops.
unfoldable pub merge_env : List EnvVar → OpenClawSelfConfigSpec → List EnvVar
merge_env current sc =
    let kept =
      loop (keep_env sc.remove_env_vars (add_by_name sc.add_env_vars))
        (record { seen = []; result = [] }) current in
    (loop add_env kept sc.add_env_vars).result

unfoldable pub build_env_apply :
    List EnvVar → OpenClawSelfConfigSpec → Result ApplyError (List EnvVar)
build_env_apply current sc = do
  check_adds sc.add_env_vars
  check_removes sc.remove_env_vars
  ok (merge_env current sc)
