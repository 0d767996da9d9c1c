-- ===== src/AutoUpdate/Outcomes.antt =====
-- How an update of internal/controller/autoupdate.go ends, where the server accepts each request.
use openclaw_operator.Prelude.{
  ◌+◌, ◌≡◌, ◌≢◌, true, false, not, some, [], arith, ◌==◌, eq_iff, ok, ◌&&◌, ◌≤◌, ◌<◌, ltb,
}
use openclaw_operator.AutoUpdate.{
  World, Instance, StatefulSet, idle, health_check, rolling_back, updating, provisioning, running,
}
use openclaw_operator.AutoUpdate.Api.{
  ◌>>=◌, gets, pure, update, request, answer, store_status, update_status, modify_status, patch_tag,
  store_tag, emit, attempt, on_result, on_found, on_option, get_sts, after,
}
use openclaw_operator.AutoUpdate.Intervals.{parse_health_check_timeout}
use openclaw_operator.AutoUpdate.Drive.{
  takes_backup, on_by_default, enter_health_check, finish_update, apply_update, drive_steps,
  time_or_now, confirm_health, begin_rollback, check_timeout, drive_health_check,
}
use openclaw_operator.AutoUpdate.Rollback.{is_persistence_enabled, revert_tag, drive_rollback}

-- The stored object is the one in memory, and each request is accepted.
abbrev pub calm : World → World
calm w = record w { stored = w.inst; answers = [] }

-- What is stored after a rollback of what was stored before.
abbrev pub IsRolledBack : Instance → Instance → Type 0
IsRolledBack before i =
    (i.image_tag ≡ before.previous_version)
    × (i.current_version ≡ before.previous_version)
    × (i.failed_version ≡ before.pending_version)
    × (i.pending_version ≡ "")
    × (i.update_phase ≡ idle)
    × (i.rollback_count ≡ before.rollback_count + 1)

IsRolledBack-revert_tag :
    (w : World) → IsRolledBack w.inst (revert_tag w.inst.previous_version (calm w)).1.stored
unfolding revert_tag patch_tag update_status modify_status emit gets pure update request answer
    store_status store_tag ◌>>=◌
IsRolledBack-revert_tag w = ground arith

-- With a previous version and no backup to restore, and each request accepted, the rollback
-- stores the previous version as the tag, remembers the version that failed, counts one rollback
-- more and ends the update.
pub drive_rollback-IsRolledBack :
    (w : World)
    → w.inst.previous_version ≢ ""
    → (not (w.inst.pre_update_backup_path == "") && is_persistence_enabled w.inst) ≡ false
    → IsRolledBack w.inst (drive_rollback (calm w)).1.stored
unfolding drive_rollback ◌>>=◌ gets
drive_rollback-IsRolledBack w previous no_backup =
    ground (arith, eq_iff w.inst.previous_version "", IsRolledBack-revert_tag w)

-- What is stored once the new tag is deployed and its health check begins.
abbrev pub IsDeployed : World → Instance → Type 0
IsDeployed w i =
    (i.image_tag ≡ w.inst.pending_version)
    × (i.previous_version ≡ w.inst.image_tag)
    × (i.pending_version ≡ w.inst.pending_version)
    × (i.update_phase ≡ health_check)
    × (i.phase ≡ provisioning)
    × (i.last_update_time ≡ some w.now)
    × (i.rollback_count ≡ w.inst.rollback_count)

-- Without a backup to take and with rollback on failure, an update under way deploys the pending
-- version as the tag, remembers the tag before as the previous version, and begins its health check.
pub drive_steps-IsDeployed :
    (w : World)
    → w.inst.phase ≡ updating
    → takes_backup w.inst ≡ false
    → on_by_default w.inst.rollback_on_failure ≡ true
    → IsDeployed w (drive_steps w.inst.pending_version (calm w)).1.stored
unfolding is_persistence_enabled drive_steps apply_update finish_update enter_health_check
    takes_backup on_result attempt patch_tag update_status modify_status emit gets pure update
    request answer store_status store_tag ◌>>=◌
drive_steps-IsDeployed w phase no_backup rollback = ground (arith, phase, no_backup, rollback)

-- What is stored once an update is confirmed.
abbrev pub IsConfirmed : World → Instance → Type 0
IsConfirmed w i =
    (i.current_version ≡ w.inst.pending_version)
    × (i.image_tag ≡ w.inst.image_tag)
    × (i.pending_version ≡ "")
    × (i.previous_version ≡ "")
    × (i.update_phase ≡ idle)
    × (i.phase ≡ running)
    × (i.rollback_count ≡ 0)

-- Where the StatefulSet has ready and updated replicas, the health check confirms the update,
-- with the count of rollbacks back at 0.
pub drive_health_check-IsConfirmed :
    (w : World) (sts : StatefulSet)
    → w.sts ≡ some sts
    → 0 < sts.ready_replicas
    → 0 < sts.updated_replicas
    → IsConfirmed w (drive_health_check (calm w)).1.stored
unfolding drive_health_check confirm_health on_found on_option get_sts attempt update_status
    modify_status emit gets pure update request answer store_status ◌>>=◌
drive_health_check-IsConfirmed w sts there ready updated = ground (arith, there, ready, updated)

-- Where the replicas are not ready, the health check waits for 10 seconds and stores nothing until
-- the timeout is over, and then it begins the rollback with the version still pending.
pub drive_health_check-of_timeout :
    (w : World) (sts : StatefulSet)
    → w.sts ≡ some sts
    → (ltb 0 sts.ready_replicas && ltb 0 sts.updated_replicas) ≡ false
    → let deadline =
        time_or_now w.inst.last_update_time w.now
        + parse_health_check_timeout w.inst.health_check_timeout in
      let out = drive_health_check (calm w) in
      (w.now < deadline → (out.0 ≡ ok (after 10)) × (out.1.stored ≡ w.inst))
      × (deadline ≤ w.now
          → (out.1.stored.update_phase ≡ rolling_back)
            × (out.1.stored.pending_version ≡ w.inst.pending_version)
            × (out.1.stored.previous_version ≡ w.inst.previous_version))
unfolding drive_health_check check_timeout begin_rollback on_found on_option get_sts attempt
    update_status modify_status emit gets pure update request answer store_status ◌>>=◌
drive_health_check-of_timeout w sts there unready = ground (arith, there, unready)
