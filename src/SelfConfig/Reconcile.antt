-- ===== src/SelfConfig/Reconcile.antt =====
-- `Reconcile` and `setTerminalStatus` of internal/controller/openclawselfconfig_controller.go.
pub mod Verdict
pub mod Permitted
use openclaw_operator.Prelude.{
  ℕ, ◌-◌, ◌*◌, String, Bool, true, false, Option, none, some, List, [], ◌∷◌, ◌++◌, concat, leb,
  ◌==◌, if◌then◌else◌, is_empty, Result, ok, err,
}
use openclaw_operator.GoMap.{GoMap}
use openclaw_operator.Duration.{hour}
use openclaw_operator.SelfConfig.{
  SelfConfigAction, OpenClawSelfConfigSpec, InstanceSpec, ApplySpec, ApplyError,
}
use openclaw_operator.SelfConfig.Actions.{determine_actions, check_allowed_actions}
use openclaw_operator.SelfConfig.Apply.{build_apply_spec}
use openclaw_operator.SelfConfig.Removal.{check_removal_ownership}
use openclaw_operator.SelfConfig.ManagedFields.{
  ManagedFieldsEntry, extract_owned_skills, extract_owned_env_vars, extract_owned_workspace_files,
  find_skill_field_manager, find_env_var_field_manager, find_workspace_file_field_manager,
}

-- `SelfConfigPhase`
pub data SelfConfigPhase : Type 0 where
  unset pending applied failed denied : SelfConfigPhase

-- `OpenClawSelfConfigStatus`; the message is left out, but for the warnings in it.
pub record SelfConfigStatus : Type 0 where
  pub phase : SelfConfigPhase
  pub warnings : List String
  pub completion_time : Option ℕ

pub record OpenClawSelfConfig : Type 0 where
  pub spec : OpenClawSelfConfigSpec
  pub status : SelfConfigStatus
  pub owned : Bool  -- by an owner reference to the instance

-- The instance that a request refers to.
pub record Target : Type 0 where
  pub spec : InstanceSpec
  pub managed_fields : List ManagedFieldsEntry

-- How the API server answers a request: refusals are conflicts, failures of the network and others.
pub data Answer : Type 0 where
  accepted refused : Answer

pub data SelfConfigEvent : Type 0 where
  self_config_denied self_config_skipped_removal self_config_applied applied_event : SelfConfigEvent

-- The request that the controller has in memory and the one that the server stores, the instance,
-- the specs that the server has applied, and the answers to the requests to come, behind which the
-- server accepts.
pub record World : Type 0 where
  pub sc : OpenClawSelfConfig
  pub stored : Option OpenClawSelfConfig
  pub target : Option Target
  pub patches : List ApplySpec
  pub events : List SelfConfigEvent
  pub answers : List Answer
  pub now : ℕ

pub data Error : Type 0 where
  not_found api_failed : Error

-- `ctrl.Result`: the delay, in nanoseconds.
pub record CtrlResult : Type 0 where
  pub requeue_after : ℕ

abbrev pub Action : Type 0 → Type 0
Action A = World → Result Error A × World

infixl 5 ◌>>=◌ ◌>>◌
unfoldable pub ◌>>=◌ : {A B : Type 0} → Action A → (A → Action B) → Action B
◌>>=◌ m f w = let (r, w') = m w in elim r [ ok a ↦ f a w' | err e ↦ (err e, w') ]

abbrev pub ◌>>◌ : {A B : Type 0} → Action A → Action B → Action B
m >> k = m >>= λ _. k

unfoldable pub pure : {A : Type 0} → A → Action A
pure a w = (ok a, w)

unfoldable pub raise : {A : Type 0} → Error → Action A
raise e w = (err e, w)

unfoldable pub attempt : {A : Type 0} → Action A → Action (Result Error A)
attempt m w = let (r, w') = m w in (ok r, w')

unfoldable pub gets : {A : Type 0} → (World → A) → Action A
gets f w = (ok (f w), w)

unfoldable pub update : (World → World) → Action (Unit {0})
update f w = (ok tt, f w)

unfoldable pub emit : SelfConfigEvent → Action (Unit {0})
emit e w = (ok tt, record w { events = w.events ++ e ∷ [] })

unfoldable pub answer : List Answer → World → Result Error (Unit {0}) × World
answer [] w = (ok tt, w)
answer (accepted ∷ rest) w = (ok tt, record w { answers = rest })
answer (refused ∷ rest) w = (err api_failed, record w { answers = rest })

-- One request, with the server's answer.
unfoldable pub request : Action (Unit {0})
unfolding answer
request w = answer w.answers w

-- An object that is read, or is missing.
unfoldable pub present : {A : Type 0} → Option A → Action A
present none = raise not_found
present (some a) = pure a

-- `SelfConfigTTL`
abbrev pub self_config_ttl : ℕ
self_config_ttl = hour

-- `r.Status().Update` of a request that is still there.
unfoldable pub store_status : World → World
store_status w = elim w.stored [
  | none ↦ w
  | some old ↦
      let next = record old { status = w.sc.status } in record w { stored = some next; sc = next }
]

unfoldable pub set_terminal_status : SelfConfigPhase → List String → Action CtrlResult
unfolding store_status
set_terminal_status phase warnings = do
  update (λ w. record w {
    sc = record w.sc {
      status = record { phase = phase; warnings = warnings; completion_time = some w.now };
    };
  })
  request
  update store_status
  pure (record { requeue_after = self_config_ttl })

-- `r.Delete`, of which a missing object is no error.
unfoldable pub delete_request : Action CtrlResult
delete_request = do
  request
  update (λ w. record w { stored = none })
  pure (record { requeue_after = 0 })

-- A request in a terminal phase, by its completion time.
unfoldable pub clean_up : Option ℕ → Action CtrlResult
clean_up none = pure (record { requeue_after = 0 })
clean_up (some completed) = do
  now ← gets (λ w. w.now)
  if leb self_config_ttl (now - completed)
      then delete_request
      else pure (record { requeue_after = self_config_ttl - (now - completed) })

abbrev pub is_terminal : SelfConfigPhase → Bool
is_terminal applied = true
is_terminal failed = true
is_terminal denied = true
is_terminal phase = false

-- `SetOwnerReference` and `r.Update` of the request, whose error is logged only.
unfoldable pub set_owner : Action (Unit {0})
set_owner = do
  update (λ w. record w { sc = record w.sc { owned = true } })
  request
  update (λ w. record w {
    stored = elim w.stored [ none ↦ none | some old ↦ some (record old { owned = true }) ];
    sc = elim w.stored [ none ↦ w.sc | some old ↦ record old { owned = true } ];
  })

-- The warnings on the removals of one kind.
unfoldable pub warn_each :
    (String → String)
    → String
    → Option (List String)
    → (String → String)
    → List String
    → List String
warn_each quote kind owned find_manager [] = []
warn_each quote kind owned find_manager (name ∷ names) =
    let msg = check_removal_ownership quote name kind owned find_manager in
    let rest = warn_each quote kind owned find_manager names in
    if msg == "" then rest else msg ∷ rest

-- `quote` is what `%q` prints, and `parse` what `json.Unmarshal` reads of a text into a map of texts.
module _ (quote : String → String) (parse : String → Option (GoMap String)) where
  unfoldable pub warnings_of : List ManagedFieldsEntry → OpenClawSelfConfigSpec → List String
  warnings_of entries sc =
      warn_each quote "skill" (extract_owned_skills entries) (find_skill_field_manager entries)
        sc.remove_skills
      ++ (warn_each quote "env var" (extract_owned_env_vars parse entries)
            (find_env_var_field_manager entries) sc.remove_env_vars
          ++ warn_each quote "workspace file" (extract_owned_workspace_files entries)
              (find_workspace_file_field_manager entries) sc.remove_workspace_files)

  -- One event for each warning.
  unfoldable pub emit_each : List String → Action (Unit {0})
  emit_each [] = pure tt
  emit_each (msg ∷ msgs) = do emit self_config_skipped_removal; emit_each msgs

  -- Behind the apply spec: the warnings, the patch, the owner, and the status.
  unfoldable pub apply_spec_to : Target → ApplySpec → Action CtrlResult
  apply_spec_to target spec = do
    sc ← gets (λ w. w.sc.spec)
    let warnings = warnings_of target.managed_fields sc
    emit_each warnings
    patched ← attempt (do request; update (λ w. record w { patches = w.patches ++ spec ∷ [] }))
    elim patched [
      | err e ↦ set_terminal_status failed []
      | ok u ↦ (do
        attempt set_owner
        emit applied_event
        emit self_config_applied
        set_terminal_status applied warnings)
    ]

  unfoldable pub build_and_apply : Target → List SelfConfigAction → Action CtrlResult
  build_and_apply target actions = do
    sc ← gets (λ w. w.sc.spec)
    elim (build_apply_spec target.spec sc actions) [
      | err e ↦ set_terminal_status failed []
      | ok spec ↦ apply_spec_to target spec
    ]

  unfoldable pub check_actions : Target → List SelfConfigAction → Action CtrlResult
  check_actions target actions =
      if is_empty actions
      then set_terminal_status failed []
      else if is_empty (check_allowed_actions actions target.spec.allowed_actions)
      then build_and_apply target actions
      else (do emit self_config_denied; set_terminal_status denied [])

  unfoldable pub with_target : Target → Action CtrlResult
  with_target target = do
    sc ← gets (λ w. w.sc.spec)
    if target.spec.self_configure_enabled
        then check_actions target (determine_actions sc)
        else set_terminal_status denied []

  unfoldable pub process : Action CtrlResult
  process = do
    request
    target ← gets (λ w. w.target)
    elim target [ none ↦ set_terminal_status failed [] | some t ↦ with_target t ]

  unfoldable pub with_request : OpenClawSelfConfig → Action CtrlResult
  with_request sc = do
    update (λ w. record w { sc = sc })
    if is_terminal sc.status.phase then clean_up sc.status.completion_time else process

  unfoldable pub reconcile : Action CtrlResult
  reconcile = do
    request
    stored ← gets (λ w. w.stored)
    elim stored [ none ↦ pure (record { requeue_after = 0 }) | some sc ↦ with_request sc ]
