-- ===== src/AutoUpdate/Check.antt =====
-- `reconcileAutoUpdate`, `resolveInitialTag` and the guards of internal/controller/autoupdate.go.
use openclaw_operator.Prelude.{
  ℕ, ◌+◌, String, Bool, true, false, not, ◌||◌, Option, none, some, [], ◌∷◌, concat, leb, ◌==◌,
  if◌then◌else◌,
}
use openclaw_operator.Semver.{Semver}
use openclaw_operator.AutoUpdate.{
  World, Instance, Status, idle, resolve_failed, tag_resolved, check_failed, available_event,
  CtrlResult,
}
use openclaw_operator.AutoUpdate.Api.{
  Action, ◌>>=◌, ◌>>◌, pure, gets, modify_status, emit, update_status, patch_tag, no_requeue,
  requeue_now, on_option,
}
use openclaw_operator.AutoUpdate.Intervals.{parse_check_interval}
use openclaw_operator.AutoUpdate.Rollback.{max_rollback_count}
use openclaw_operator.AutoUpdate.Drive.{drive_update_state_machine}

abbrev off_by_default : Option Bool → Bool
off_by_default none = false
off_by_default (some b) = b

unfoldable pub is_auto_update_enabled : Instance → Bool
is_auto_update_enabled inst =
    if not (off_by_default inst.enabled)
    then false
    else if not (inst.image_digest == "")
    then false
    else true

unfoldable pub should_check_for_update : Instance → ℕ → Bool
should_check_for_update inst now = elim inst.last_check_time [
  | none ↦ true
  | some t ↦ leb (t + parse_check_interval inst.check_interval) now
]

abbrev pub set_check : ℕ → Status → Status
set_check t s = record s { auto_update = record s.auto_update { last_check_time = some t } }

abbrev pub set_latest : String → Status → Status
set_latest v s = record s { auto_update = record s.auto_update { latest_version = v } }

abbrev pub set_current : String → Status → Status
set_current v s = record s { auto_update = record s.auto_update { current_version = v } }

abbrev pub clear_available : Status → Status
clear_available s = record s { available = none }

abbrev pub set_failed : String → Status → Status
set_failed v s = record s { auto_update = record s.auto_update { failed_version = v } }

abbrev pub start : String → String → Status → Status
start version current s = record s {
  auto_update = record s.auto_update {
    pending_version = version;
    update_phase = idle;
    last_update_error = "";
  };
  available =
      some (concat ("Version " ∷ version ∷ " is available (current: " ∷ current ∷ ")" ∷ []));
}

unfoldable pub start_update : String → String → Action CtrlResult
start_update version current = do
  emit available_event
  modify_status (start version current)
  pure requeue_now

-- The tag is empty or "latest": it becomes the version that the registry gives.
unfoldable pub resolve_latest : String → Action CtrlResult
resolve_latest version = do
  patch_tag version
  modify_status (set_current version)
  emit tag_resolved
  pure requeue_now

module _ (semver : Semver) where
  open semver use {Version, parse, greater}

  -- The failed version, or "" where the latest version is newer than it.
  unfoldable pub remaining_failure : Version → String → String
  remaining_failure latest failed =
      if failed == ""
      then failed
      else elim (parse failed) [ none ↦ failed | some f ↦ if greater latest f then "" else failed ]

  -- What is done about a latest version, given the current tag and both as versions.
  unfoldable pub offer_update : String → String → Version → Version → Action CtrlResult
  offer_update version current latest_ver current_ver = do
    modify_status (set_current current)
    if not (greater latest_ver current_ver)
        then (do modify_status clear_available; pure no_requeue)
        else (do
          modify_status (λ s. set_failed (remaining_failure latest_ver s.failed_version) s)
          failed ← gets (λ w. w.inst.failed_version)
          if failed == version then pure no_requeue else start_update version current)

  unfoldable pub compare_versions : String → String → Action CtrlResult
  compare_versions version current = on_option (parse current) (pure no_requeue) (λ current_ver.
      on_option (parse version) (pure no_requeue)
        (λ latest_ver. offer_update version current latest_ver current_ver))

  -- Behind the guards: the answer of the registry.
  unfoldable pub check_version : Option String → Action CtrlResult
  check_version none = do
    emit check_failed
    now ← gets (λ w. w.now)
    modify_status (set_check now)
    pure no_requeue
  check_version (some version) = do
    now ← gets (λ w. w.now)
    modify_status (λ s. set_latest version (set_check now s))
    tag ← gets (λ w. w.inst.image_tag)
    if tag == "" || tag == "latest" then resolve_latest version else compare_versions version tag

  -- What a reconcile does, given the state that it reads.
  unfoldable pub choose_step : World → Action CtrlResult
  choose_step w =
      if not (w.inst.pending_version == "")
      then drive_update_state_machine
      else if not (is_auto_update_enabled w.inst)
      then pure no_requeue
      else on_option w.registry (pure no_requeue) (λ latest.
        if leb max_rollback_count w.inst.rollback_count
        then pure no_requeue
        else if not (should_check_for_update w.inst w.now)
        then pure no_requeue
        else check_version latest)

  unfoldable pub reconcile_auto_update : Action CtrlResult
  reconcile_auto_update = do w ← gets (λ w. w); choose_step w

-- `resolveInitialTag`: true where the tag was resolved.
unfoldable pub resolve_initial_tag : Action Bool
resolve_initial_tag = do
  w ← gets (λ w. w)
  if not (is_auto_update_enabled w.inst)
      then pure false
      else if not (w.inst.image_tag == "latest")
      then pure false
      else on_option w.registry (pure false) (λ latest.
        on_option latest (do emit resolve_failed; pure false)
          (λ version. do
            patch_tag version
            modify_status (set_current version)
            update_status
            emit tag_resolved
            pure true))
