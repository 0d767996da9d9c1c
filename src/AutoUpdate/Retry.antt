-- ===== src/AutoUpdate/Retry.antt =====
-- An update of internal/controller/autoupdate.go whose last status update the server refuses, and
-- the reconcile that follows.
use openclaw_operator.Prelude.{String, ◌≡◌, ◌∙◌, true, false, [], ◌∷◌, arith}
use openclaw_operator.AutoUpdate.{World, accepted, rejected, updating, health_check}
use openclaw_operator.AutoUpdate.Api.{
  ◌>>=◌, gets, pure, update, request, answer, store_status, update_status, modify_status, patch_tag,
  store_tag, emit, attempt, on_result,
}
use openclaw_operator.AutoUpdate.Rollback.{is_persistence_enabled}
use openclaw_operator.AutoUpdate.Drive.{
  takes_backup, on_by_default, enter_health_check, finish_update, apply_update, drive_steps,
}
use openclaw_operator.AutoUpdate.Outcomes.{calm, drive_steps-IsDeployed}

-- The server takes the first status and the tag, and refuses the status after.
abbrev pub refusing : String → World → World
refusing text w = record w { stored = w.inst; answers = accepted ∷ accepted ∷ rejected text ∷ [] }

-- The next reconcile begins with the stored object.
abbrev pub reloaded : World → World
reloaded w = record w { inst = w.stored }

-- What the operator finds after the refusal.
abbrev pub half_way : String → World → World
half_way text w = reloaded (drive_steps w.inst.pending_version (refusing text w)).1

module _ (text : String) (w : World) (phase : w.inst.phase ≡ updating)
    (no_backup : takes_backup w.inst ≡ false)
    (rollback : on_by_default w.inst.rollback_on_failure ≡ true) where
  half_way-inst :
      ((half_way text w).inst.image_tag ≡ w.inst.pending_version)
      × ((half_way text w).inst.pending_version ≡ w.inst.pending_version)
      × ((half_way text w).inst.phase ≡ updating)
      × (takes_backup (half_way text w).inst ≡ false)
      × (on_by_default (half_way text w).inst.rollback_on_failure ≡ true)
  unfolding is_persistence_enabled drive_steps apply_update finish_update enter_health_check
      takes_backup on_result attempt patch_tag update_status modify_status emit gets pure update
      request answer store_status store_tag ◌>>=◌
  half_way-inst = ground (arith, phase, no_backup, rollback)

  -- Without a backup to take and with rollback on failure, where the server takes the status and
  -- the tag and refuses the status that begins the health check, the next reconcile, which the
  -- server accepts, begins the health check with the pending version itself as the previous one.
  pub drive_steps-retried :
      let again = (drive_steps (half_way text w).inst.pending_version (calm (half_way text w))).1 in
      (again.stored.previous_version ≡ w.inst.pending_version)
      × (again.stored.image_tag ≡ w.inst.pending_version)
      × (again.stored.update_phase ≡ health_check)
  drive_steps-retried =
      let (tag, pending, under_way, backup, on) = half_way-inst in
      let deployed = drive_steps-IsDeployed (half_way text w) under_way backup on in
      (deployed.1 ∙ tag, deployed.0 ∙ pending, deployed.3)
