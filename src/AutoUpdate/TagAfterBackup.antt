-- ===== src/AutoUpdate/TagAfterBackup.antt =====
-- The tag is changed only behind the backup, in `driveUpdateStateMachine` of
-- internal/controller/autoupdate.go.
use openclaw_operator.Prelude.{String, ◌≡◌, ◌≢◌, refl, true, false, arith, Result, ok, err}
use openclaw_operator.AutoUpdate.{World, Instance, Status, CtrlResult, Error, updating, backing_up}
use openclaw_operator.AutoUpdate.Api.{
  ◌>>=◌, ◌>>◌, gets, pure, attempt, on_result, modify_status, update_status, requeue_now,
}
use openclaw_operator.AutoUpdate.Api.Leads.{Keeps}
use openclaw_operator.AutoUpdate.Api.Keeps.{keeps_rules, Keeps-modify_status, Keeps-update_status}
use openclaw_operator.AutoUpdate.Objects.{Keeps-drive_pre_update_backup, Keeps-scale_up}
use openclaw_operator.AutoUpdate.Backup.{Progress, abort_update, drive_pre_update_backup}
use openclaw_operator.AutoUpdate.BackupFirst.{
  IsSafeToUpdate, drive_pre_update_backup-IsSafeToUpdate,
}
use openclaw_operator.AutoUpdate.Drive.{
  takes_backup, before_backup, set_update_phase, set_phase, after_backup, backup_then_apply,
  drive_steps,
}

-- The stored tag.
abbrev HasTag : String → Instance → Instance → Type 0
HasTag tag i s = s.image_tag ≡ tag

module _ {tag : String} where
  HasTag-modify_status : (f : Status → Status) → Keeps (HasTag tag) (modify_status f)
  HasTag-modify_status f = Keeps-modify_status f (λ i s h. h)

  HasTag-update_status : Keeps (HasTag tag) update_status
  HasTag-update_status = Keeps-update_status (λ i s h. h)

  HasTag-abort_update : (reason : String) → Keeps (HasTag tag) (abort_update reason)
  unfolding abort_update
  HasTag-abort_update reason =
      search (keeps_rules, HasTag-modify_status, HasTag-update_status, Keeps-scale_up) depth 12

  HasTag-wait :
      (p : Progress)
      → Keeps (HasTag tag) (do modify_status (set_update_phase backing_up); update_status; pure p.0)
  HasTag-wait p = search (keeps_rules, HasTag-modify_status, HasTag-update_status) depth 12

HasTag-begin :
    {tag : String}
    → Keeps (HasTag tag) (do modify_status (set_phase updating); update_status; pure requeue_now)
HasTag-begin = search (keeps_rules, HasTag-modify_status, HasTag-update_status) depth 12

-- What follows the backup step, whose outcome is `r`.
IsSafeToUpdate-outcome :
    (pending : String) (w w' : World) (r : Result Error Progress)
    → ((c : CtrlResult) → r ≡ ok (c, true) → IsSafeToUpdate w)
    → w'.stored.image_tag ≡ w.stored.image_tag
    → (after_backup pending r w').1.stored.image_tag ≢ w.stored.image_tag
    → IsSafeToUpdate w
unfolding after_backup on_result
IsSafeToUpdate-outcome pending w w' (ok (c, true)) safe same changed = safe c refl
IsSafeToUpdate-outcome pending w w' (ok (c, false)) safe same changed =
    absurd (changed ((HasTag-wait (c, false)).at w' same))
IsSafeToUpdate-outcome pending w w' (err e) safe same changed =
    absurd (changed ((HasTag-abort_update _).at w' same))

IsSafeToUpdate-backup_then_apply :
    (pending : String) (w : World)
    → (backup_then_apply pending w).1.stored.image_tag ≢ w.stored.image_tag
    → IsSafeToUpdate w
unfolding backup_then_apply attempt ◌>>=◌
IsSafeToUpdate-backup_then_apply pending w =
    IsSafeToUpdate-outcome pending w (drive_pre_update_backup w).1 (drive_pre_update_backup w).0
      (drive_pre_update_backup-IsSafeToUpdate w)
      ((Keeps-drive_pre_update_backup {P = HasTag w.stored.image_tag}).at w refl)

-- In an update that takes a backup and has not begun to apply, the stored tag changes only where it
-- is safe to update: there is no StatefulSet, or it is scaled down with no pod left and the backup
-- Job has completed. That is so too where there is no credentials Secret.
pub drive_steps-IsSafeToUpdate :
    (w : World)
    → takes_backup w.inst ≡ true
    → before_backup w.inst.update_phase ≡ true
    → (drive_steps w.inst.pending_version w).1.stored.image_tag ≢ w.stored.image_tag
    → IsSafeToUpdate w
unfolding drive_steps gets ◌>>=◌
drive_steps-IsSafeToUpdate w takes before changed = ground (
  arith,
  takes,
  before,
  changed,
  IsSafeToUpdate-backup_then_apply w.inst.pending_version w,
  (HasTag-begin {tag = w.stored.image_tag}).at w refl,
)
