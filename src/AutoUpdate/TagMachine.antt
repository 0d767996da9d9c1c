-- ===== src/AutoUpdate/TagMachine.antt =====
-- The machine of internal/controller/autoupdate.go deploys only the versions that its object names.
use openclaw_operator.Prelude.{String, Result}
use openclaw_operator.AutoUpdate.{
  Instance, Status, UpdatePhase, idle, backing_up, applying_update, health_check, rolling_back,
  Error,
}
use openclaw_operator.AutoUpdate.Api.{modify_status, update_status, patch_tag, tagged}
use openclaw_operator.AutoUpdate.Api.Leads.{Keeps, Leads-gets}
use openclaw_operator.AutoUpdate.Api.Keeps.{
  keeps_rules, Keeps-modify_status, Keeps-update_status, Keeps-patch_tag, Keeps-pure,
}
use openclaw_operator.AutoUpdate.Objects.{
  Keeps-drive_pre_update_backup, Keeps-drive_rollback_restore, Keeps-last_pre_update_backup_path,
  Keeps-scale_up,
}
use openclaw_operator.AutoUpdate.Backup.{Progress, abort_update}
use openclaw_operator.AutoUpdate.Rollback.{drive_rollback, revert_tag, restore_then_revert}
use openclaw_operator.AutoUpdate.Drive.{
  enter_health_check, confirm_at_once, finish_update, scale_back_up, apply_update, after_backup,
  backup_then_apply, drive_steps, confirm_health, begin_rollback, check_timeout, drive_health_check,
  dispatch, drive_update_state_machine,
}

module _ (S : String → Type 0) where
  -- The versions that an object names as a tag, or may come to deploy.
  pub record IsFrom (i : Instance) : Type 0 where
    pub tag : S i.image_tag
    pub pending : S i.pending_version
    pub previous : S i.previous_version

  abbrev pub AreFrom : Instance → Instance → Type 0
  AreFrom i s = IsFrom i × IsFrom s

  pub From-modify_status :
      (f : Status → Status)
      → ((s : Status) → S s.pending_version → S (f s).pending_version)
      → ((s : Status) → S s.previous_version → S (f s).previous_version)
      → Keeps AreFrom (modify_status f)
  From-modify_status f k l = Keeps-modify_status f (λ i s h. (
    record { tag = h.0.tag; pending = k i.status h.0.pending; previous = l i.status h.0.previous },
    h.1,
  ))

  pub From-update_status : Keeps AreFrom update_status
  From-update_status = Keeps-update_status (λ i s h.
      let new : IsFrom (record s { status = i.status }) = record {
        tag = h.1.tag;
        pending = h.0.pending;
        previous = h.0.previous;
      } in
      (new, new))

  pub From-patch_tag : (v : String) → S v → Keeps AreFrom (patch_tag v)
  From-patch_tag v k =
      Keeps-patch_tag v
        (λ i s h. (record { tag = k; pending = h.0.pending; previous = h.0.previous }, h.1))
        (λ i s h.
          let new : IsFrom (tagged v s) = record {
            tag = k;
            pending = h.1.pending;
            previous = h.1.previous;
          } in
          (new, new))

  pub ruleset from_rules = (keeps_rules, From-modify_status, From-update_status, From-patch_tag)

module _ (S : String → Type 0) (empty : S "") where
  From-abort_update : (reason : String) → Keeps (AreFrom S) (abort_update reason)
  unfolding abort_update
  From-abort_update reason = search (from_rules, empty, Keeps-scale_up) depth 14

  From-enter_health_check : Keeps (AreFrom S) enter_health_check
  unfolding enter_health_check
  From-enter_health_check = search from_rules depth 14

  From-confirm_at_once : (p : String) → Keeps (AreFrom S) (confirm_at_once p)
  unfolding confirm_at_once
  From-confirm_at_once p = search (from_rules, empty) depth 14

  From-finish_update : (p : String) → Keeps (AreFrom S) (finish_update p)
  unfolding finish_update
  From-finish_update p = search (from_rules, From-enter_health_check, From-confirm_at_once) depth 14

  From-scale_back_up : (p : String) → Keeps (AreFrom S) (scale_back_up p)
  unfolding scale_back_up
  From-scale_back_up p =
      search (from_rules, Keeps-scale_up, From-finish_update, From-abort_update) depth 14

  From-apply_update : (p : String) → S p → Keeps (AreFrom S) (apply_update p)
  unfolding apply_update
  From-apply_update p from =
      Leads-gets (λ w. w.inst) _
        (λ w h.
          let tag = h.0.tag in
          search (from_rules, from, tag, From-scale_back_up, From-finish_update, From-abort_update)
            depth 14)

  From-after_backup :
      (p : String) (r : Result Error Progress) → S p → Keeps (AreFrom S) (after_backup p r)
  unfolding after_backup
  From-after_backup p r from =
      search
        (from_rules, from, Keeps-last_pre_update_backup_path, From-apply_update, From-abort_update)
        depth 14

  From-backup_then_apply : (p : String) → S p → Keeps (AreFrom S) (backup_then_apply p)
  unfolding backup_then_apply
  From-backup_then_apply p from =
      search (from_rules, from, Keeps-drive_pre_update_backup, From-after_backup) depth 14

  From-drive_steps : (p : String) → S p → Keeps (AreFrom S) (drive_steps p)
  unfolding drive_steps
  From-drive_steps p from =
      search (from_rules, from, From-backup_then_apply, From-apply_update) depth 14

  From-confirm_health : Keeps (AreFrom S) confirm_health
  unfolding confirm_health
  From-confirm_health = search (from_rules, empty) depth 14

  From-begin_rollback : Keeps (AreFrom S) begin_rollback
  unfolding begin_rollback
  From-begin_rollback = search from_rules depth 14

  From-check_timeout : Keeps (AreFrom S) check_timeout
  unfolding check_timeout
  From-check_timeout = search (from_rules, From-begin_rollback) depth 14

  From-drive_health_check : Keeps (AreFrom S) drive_health_check
  unfolding drive_health_check
  From-drive_health_check = search (from_rules, From-confirm_health, From-check_timeout) depth 14

  From-revert_tag : (v : String) → S v → Keeps (AreFrom S) (revert_tag v)
  unfolding revert_tag
  From-revert_tag v from = search (from_rules, from, empty) depth 14

  From-restore_then_revert :
      (v path : String) → S v → Keeps (AreFrom S) (restore_then_revert v path)
  unfolding restore_then_revert
  From-restore_then_revert v path from =
      search (from_rules, from, Keeps-drive_rollback_restore, From-revert_tag) depth 14

  From-drive_rollback : Keeps (AreFrom S) drive_rollback
  unfolding drive_rollback
  From-drive_rollback =
      Leads-gets (λ w. w.inst) _
        (λ w h.
          let previous = h.0.previous in
          search
            (from_rules, previous, From-restore_then_revert, From-revert_tag, From-abort_update)
            depth 14)

  From-dispatch : (u : UpdatePhase) (p : String) → S p → Keeps (AreFrom S) (dispatch u p)
  From-dispatch health_check p from = From-drive_health_check
  From-dispatch rolling_back p from = From-drive_rollback
  From-dispatch idle p from = From-drive_steps p from
  From-dispatch backing_up p from = From-drive_steps p from
  From-dispatch applying_update p from = From-drive_steps p from

  pub From-drive_update_state_machine : Keeps (AreFrom S) drive_update_state_machine
  unfolding drive_update_state_machine
  From-drive_update_state_machine =
      Leads-gets (λ w. w.inst) _ (λ w h. From-dispatch w.inst.update_phase _ h.0.pending)
