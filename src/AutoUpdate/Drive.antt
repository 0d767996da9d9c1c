-- ===== src/AutoUpdate/Drive.antt =====
-- `driveUpdateStateMachine` and `driveHealthCheck` of internal/controller/autoupdate.go.
use openclaw_operator.Prelude.{
  ℕ, ◌+◌, String, Bool, true, false, not, ◌&&◌, Option, none, some, [], ◌∷◌, concat, ltb,
  if◌then◌else◌, Result,
}
use openclaw_operator.AutoUpdate.{
  Instance, Status, UpdatePhase, idle, backing_up, applying_update, health_check, rolling_back,
  Phase, running, provisioning, updating, applied, confirmed, health_check_failed, CtrlResult,
  Error, not_found, already_exists, half_credentials, api_failed, missing_key, backup_failed,
  restore_job_failed,
}
use openclaw_operator.AutoUpdate.Api.{
  Action, ◌>>=◌, ◌>>◌, pure, attempt, gets, modify_status, emit, get_sts, update_status, patch_tag,
  requeue_now, after, on_result, on_found,
}
use openclaw_operator.AutoUpdate.Intervals.{parse_health_check_timeout}
use openclaw_operator.AutoUpdate.Backup.{
  Progress, drive_pre_update_backup, last_pre_update_backup_path, scale_up, abort_update,
}
use openclaw_operator.AutoUpdate.Rollback.{is_persistence_enabled, drive_rollback}

-- The text of an error, without the words that wrap it on its way.
abbrev pub error_text : Error → String
error_text not_found = "not found"
error_text already_exists = "already exists"
error_text half_credentials = "S3 credentials secret must set both keys or omit both"
error_text (api_failed text) = text
error_text (missing_key key) = concat ("S3 credentials secret missing key " ∷ key ∷ [])
error_text (backup_failed job) = concat ("pre-update backup job " ∷ job ∷ " failed" ∷ [])
error_text (restore_job_failed job) = concat ("rollback restore job " ∷ job ∷ " failed" ∷ [])

-- A flag that is on unless it is set to false.
abbrev pub on_by_default : Option Bool → Bool
on_by_default none = true
on_by_default (some b) = b

-- `needsBackup && resources.IsPersistenceEnabled(instance)`
unfoldable pub takes_backup : Instance → Bool
unfolding is_persistence_enabled
takes_backup inst = on_by_default inst.backup_before_update && is_persistence_enabled inst

abbrev pub is_updating : Phase → Bool
is_updating updating = true
is_updating _ = false

-- The assignments that confirm an update to a version.
abbrev pub confirm : String → Phase → Status → Status
confirm version phase s = record s {
  auto_update = record s.auto_update {
    current_version = version;
    pending_version = "";
    update_phase = idle;
    last_update_error = "";
    previous_version = "";
    pre_update_backup_path = "";
    rollback_count = 0;
  };
  phase = phase;
  available = none;
}

abbrev pub set_update_phase : UpdatePhase → Status → Status
set_update_phase p s = record s { auto_update = record s.auto_update { update_phase = p } }

abbrev pub set_last_update_time : ℕ → Status → Status
set_last_update_time t s = record s {
  auto_update = record s.auto_update { last_update_time = some t };
}

abbrev pub set_phase : Phase → Status → Status
set_phase p s = record s { phase = p }

abbrev pub set_backup_path : String → Status → Status
set_backup_path path s = record s {
  auto_update = record s.auto_update { pre_update_backup_path = path };
}

-- Step 5 where rollback is enabled: the health check begins.
unfoldable pub enter_health_check : Action CtrlResult
enter_health_check = do
  now ← gets (λ w. w.now)
  modify_status
      (λ s. set_phase provisioning (set_last_update_time now (set_update_phase health_check s)))
  update_status
  emit applied
  pure (after 10)

-- Step 5 where it is not: the update is confirmed at once.
unfoldable pub confirm_at_once : String → Action CtrlResult
confirm_at_once pending = do
  now ← gets (λ w. w.now)
  modify_status (λ s. set_last_update_time now (confirm pending provisioning s))
  update_status
  emit applied
  pure requeue_now

unfoldable pub finish_update : String → Action CtrlResult
finish_update pending = do
  inst ← gets (λ w. w.inst)
  if on_by_default inst.rollback_on_failure then enter_health_check else confirm_at_once pending

-- Step 4b: a StatefulSet that was scaled down for the backup is scaled up again.
unfoldable pub scale_back_up : String → Action CtrlResult
scale_back_up pending = do
  found ← attempt get_sts
  on_result found (λ e. finish_update pending)
      (λ sts. do
        scaled ← attempt (scale_up sts)
        on_result scaled
            (λ e.
              abort_update (concat ("failed to scale StatefulSet back up: " ∷ error_text e ∷ [])))
            (λ u. finish_update pending))

abbrev pub record_previous : String → Status → Status
record_previous tag s = record s {
  auto_update = record s.auto_update { previous_version = tag; update_phase = applying_update };
}

-- Steps 3 to 5.
unfoldable pub apply_update : String → Action CtrlResult
apply_update pending = do
  inst ← gets (λ w. w.inst)
  modify_status (record_previous inst.image_tag)
  update_status
  patched ← attempt (patch_tag pending)
  on_result patched (λ e. abort_update (concat ("failed to patch image tag: " ∷ error_text e ∷ [])))
      (λ u. do
        after_patch ← gets (λ w. w.inst)
        if on_by_default inst.backup_before_update && is_persistence_enabled after_patch
            then scale_back_up pending
            else finish_update pending)

-- Step 2, given the outcome of the backup: one that is not done yet is waited for.
unfoldable pub after_backup : String → Result Error Progress → Action CtrlResult
after_backup pending backed_up =
    on_result backed_up (λ e. abort_update (concat ("backup failed: " ∷ error_text e ∷ [])))
      (λ (p : Progress).
        if p.1
        then (do
          path ← last_pre_update_backup_path
          modify_status (set_backup_path path)
          apply_update pending)
        else (do modify_status (set_update_phase backing_up); update_status; pure p.0))

unfoldable pub backup_then_apply : String → Action CtrlResult
backup_then_apply pending = do
  backed_up ← attempt drive_pre_update_backup
  after_backup pending backed_up

-- `case "", updatePhaseBackingUp` of step 2.
abbrev pub before_backup : UpdatePhase → Bool
before_backup idle = true
before_backup backing_up = true
before_backup _ = false

-- Steps 1 to 5.
unfoldable pub drive_steps : String → Action CtrlResult
drive_steps pending = do
  inst ← gets (λ w. w.inst)
  if not (is_updating inst.phase)
      then (do modify_status (set_phase updating); update_status; pure requeue_now)
      else if takes_backup inst && before_backup inst.update_phase
      then backup_then_apply pending
      else apply_update pending

unfoldable pub confirm_health : Action CtrlResult
confirm_health = do
  pending ← gets (λ w. w.inst.pending_version)
  modify_status (confirm pending running)
  update_status
  emit confirmed
  pure requeue_now

unfoldable pub begin_rollback : Action CtrlResult
begin_rollback = do
  modify_status (λ s. set_phase updating (set_update_phase rolling_back s))
  update_status
  emit health_check_failed
  pure requeue_now

-- `LastUpdateTime` is set to now where it is nil.
abbrev pub time_or_now : Option ℕ → ℕ → ℕ
time_or_now none now = now
time_or_now (some t) now = t

unfoldable pub check_timeout : Action CtrlResult
check_timeout = do
  w ← gets (λ w. w)
  let timeout = parse_health_check_timeout w.inst.health_check_timeout
  let started = time_or_now w.inst.last_update_time w.now
  modify_status (set_last_update_time started)
  if ltb w.now (started + timeout) then pure (after 10) else begin_rollback

unfoldable pub drive_health_check : Action CtrlResult
drive_health_check = do
  found ← attempt get_sts
  on_found found (pure (after 10)) (λ sts.
      if ltb 0 sts.ready_replicas && ltb 0 sts.updated_replicas
      then confirm_health
      else check_timeout)

abbrev pub dispatch : UpdatePhase → String → Action CtrlResult
dispatch health_check pending = drive_health_check
dispatch rolling_back pending = drive_rollback
dispatch _ pending = drive_steps pending

unfoldable pub drive_update_state_machine : Action CtrlResult
drive_update_state_machine = do
  inst ← gets (λ w. w.inst)
  dispatch inst.update_phase inst.pending_version
