-- ===== src/AutoUpdate/RollbackCount.antt =====
-- The circuit breaker: how far the count of consecutive rollbacks goes.
use openclaw_operator.Prelude.{◌≤◌, ◌<◌, String, ◌≢◌, refl, arith}
use openclaw_operator.AutoUpdate.{
  Instance, Status, UpdatePhase, idle, backing_up, applying_update, health_check, rolling_back,
}
use openclaw_operator.AutoUpdate.Api.{gets, modify_status, update_status, patch_tag}
use openclaw_operator.AutoUpdate.Api.Leads.{
  Leads, Keeps, Leads-bind, Leads-of, Leads-result, Leads-if, Leads-then, Leads-modify_status,
}
use openclaw_operator.AutoUpdate.Api.Keeps.{
  keeps_rules, Keeps-bind, Keeps-pure, Keeps-gets, Keeps-emit, Keeps-attempt, Keeps-modify_status,
  Keeps-update_status, Keeps-patch_tag,
}
use openclaw_operator.AutoUpdate.Objects.{
  Keeps-drive_pre_update_backup, Keeps-drive_rollback_restore, Keeps-last_pre_update_backup_path,
  Keeps-scale_up,
}
use openclaw_operator.AutoUpdate.Backup.{abort_update}
use openclaw_operator.AutoUpdate.Rollback.{
  drive_rollback, revert_tag, restore_then_revert, roll_back, max_rollback_count,
}
use openclaw_operator.AutoUpdate.Drive.{
  enter_health_check, confirm_at_once, finish_update, scale_back_up, apply_update, after_backup,
  backup_then_apply, drive_steps, confirm_health, begin_rollback, check_timeout, drive_health_check,
  dispatch, drive_update_state_machine,
}

-- Both objects are below the threshold.
abbrev pub Below : Instance → Instance → Type 0
Below i s = (i.rollback_count < max_rollback_count) × (s.rollback_count < max_rollback_count)

-- What holds of the object in memory and of the stored one: no count passes the threshold, an
-- update in flight is below it, and where the object in memory is below it so is the stored one.
pub record IsBounded (i s : Instance) : Type 0 where
  pub memory : i.rollback_count ≤ max_rollback_count
  pub storage : s.rollback_count ≤ max_rollback_count
  pub memory_in_flight : i.pending_version ≢ "" → i.rollback_count < max_rollback_count
  pub storage_in_flight : s.pending_version ≢ "" → s.rollback_count < max_rollback_count
  pub follows : i.rollback_count < max_rollback_count → s.rollback_count < max_rollback_count

pub Below-IsBounded : (i s : Instance) → Below i s → IsBounded i s
Below-IsBounded i s h = record {
  memory = omega arith;
  storage = omega arith;
  memory_in_flight = λ p. h.0;
  storage_in_flight = λ p. h.1;
  follows = λ p. h.1;
}

pub Below-modify_status :
    (f : Status → Status)
    → ((s : Status)
        → s.rollback_count < max_rollback_count
        → (f s).rollback_count < max_rollback_count)
    → Keeps Below (modify_status f)
Below-modify_status f k = Keeps-modify_status f (λ i s h. (k i.status h.0, h.1))

pub Below-update_status : Keeps Below update_status
Below-update_status = Keeps-update_status (λ i s h. (h.0, h.0))

pub Below-patch_tag : (v : String) → Keeps Below (patch_tag v)
Below-patch_tag v = Keeps-patch_tag v (λ i s h. h) (λ i s h. (h.1, h.1))

zero_below : 0 < max_rollback_count
zero_below = omega arith

pub ruleset below_rules = (keeps_rules, Below-modify_status, Below-update_status, Below-patch_tag)

Below-abort_update : (reason : String) → Keeps Below (abort_update reason)
unfolding abort_update
Below-abort_update reason = search (below_rules, Keeps-scale_up) depth 12

Below-enter_health_check : Keeps Below enter_health_check
unfolding enter_health_check
Below-enter_health_check = search below_rules depth 12

Below-confirm_at_once : (pending : String) → Keeps Below (confirm_at_once pending)
unfolding confirm_at_once
Below-confirm_at_once pending = search (below_rules, zero_below) depth 12

Below-finish_update : (pending : String) → Keeps Below (finish_update pending)
unfolding finish_update
Below-finish_update pending =
    search (below_rules, Below-enter_health_check, Below-confirm_at_once) depth 12

Below-scale_back_up : (pending : String) → Keeps Below (scale_back_up pending)
unfolding scale_back_up
Below-scale_back_up pending =
    search (below_rules, Keeps-scale_up, Below-finish_update, Below-abort_update) depth 12

Below-apply_update : (pending : String) → Keeps Below (apply_update pending)
unfolding apply_update
Below-apply_update pending =
    search (below_rules, Below-scale_back_up, Below-finish_update, Below-abort_update) depth 14

Below-backup_then_apply : (pending : String) → Keeps Below (backup_then_apply pending)
unfolding backup_then_apply after_backup
Below-backup_then_apply pending =
    search
      (
        below_rules, Keeps-drive_pre_update_backup, Keeps-last_pre_update_backup_path,
        Below-apply_update, Below-abort_update,
      )
      depth 14

Below-drive_steps : (pending : String) → Keeps Below (drive_steps pending)
unfolding drive_steps
Below-drive_steps pending =
    search (below_rules, Below-backup_then_apply, Below-apply_update) depth 14

Below-confirm_health : Keeps Below confirm_health
unfolding confirm_health
Below-confirm_health = search (below_rules, zero_below) depth 12

Below-begin_rollback : Keeps Below begin_rollback
unfolding begin_rollback
Below-begin_rollback = search below_rules depth 12

Below-check_timeout : Keeps Below check_timeout
unfolding check_timeout
Below-check_timeout = search (below_rules, Below-begin_rollback) depth 12

Below-drive_health_check : Keeps Below drive_health_check
unfolding drive_health_check
Below-drive_health_check = search (below_rules, Below-confirm_health, Below-check_timeout) depth 12

-- After the tag is back, the count goes up by one, and the update is no longer in flight.
IsBounded-roll_back :
    (previous : String) (i s : Instance)
    → Below i s
    → IsBounded (record i { status = roll_back previous i.status }) s
IsBounded-roll_back previous i s h = record {
  memory = omega arith;
  storage = omega arith;
  memory_in_flight = λ p. absurd (p refl);
  storage_in_flight = λ p. h.1;
  follows = λ p. h.1;
}

pub IsBounded-update_status : Keeps IsBounded update_status
IsBounded-update_status = Keeps-update_status (λ i s h. record {
  memory = h.memory;
  storage = h.memory;
  memory_in_flight = h.memory_in_flight;
  storage_in_flight = h.memory_in_flight;
  follows = λ p. p;
})

IsBounded-revert_tag : (previous : String) → Leads Below IsBounded (revert_tag previous)
unfolding revert_tag
IsBounded-revert_tag previous =
    Leads-bind (patch_tag previous) _ Below-IsBounded (Below-patch_tag previous) λ u.
      Leads-then (modify_status (roll_back previous)) _
        (Leads-modify_status (roll_back previous) (IsBounded-roll_back previous))
        λ u. search (keeps_rules, IsBounded-update_status) depth 12

IsBounded-restore_then_revert :
    (previous backup_path : String)
    → Leads Below IsBounded (restore_then_revert previous backup_path)
unfolding restore_then_revert
IsBounded-restore_then_revert previous backup_path =
    search
      (
        Leads-bind, Leads-result, Leads-if, keeps_rules, Below-IsBounded, Leads-of,
        Keeps-drive_rollback_restore, IsBounded-revert_tag,
      )
      depth 12

IsBounded-drive_rollback : Leads Below IsBounded drive_rollback
unfolding drive_rollback
IsBounded-drive_rollback =
    search
      (
        Leads-bind, Leads-if, Keeps-gets, Below-IsBounded, Leads-of, Below-abort_update,
        IsBounded-restore_then_revert, IsBounded-revert_tag,
      )
      depth 12

IsBounded-dispatch :
    (phase : UpdatePhase) (pending : String) → Leads Below IsBounded (dispatch phase pending)
IsBounded-dispatch health_check pending = Leads-of _ Below-IsBounded Below-drive_health_check
IsBounded-dispatch rolling_back pending = IsBounded-drive_rollback
IsBounded-dispatch idle pending = Leads-of _ Below-IsBounded (Below-drive_steps pending)
IsBounded-dispatch backing_up pending = Leads-of _ Below-IsBounded (Below-drive_steps pending)
IsBounded-dispatch applying_update pending = Leads-of _ Below-IsBounded (Below-drive_steps pending)

pub IsBounded-drive_update_state_machine : Leads Below IsBounded drive_update_state_machine
unfolding drive_update_state_machine
IsBounded-drive_update_state_machine =
    Leads-bind (gets (λ w. w.inst)) _ Below-IsBounded (Keeps-gets (λ w. w.inst))
      (λ i. IsBounded-dispatch i.update_phase i.pending_version)
