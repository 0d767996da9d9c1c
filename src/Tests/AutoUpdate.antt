-- ===== src/Tests/AutoUpdate.antt =====
-- The theorems on the auto-update machine at concrete worlds.
use openclaw_operator.Prelude.{◌<◌, ◌≤◌, ◌≡◌, refl, [], ◌∷◌, some, arith, ok, ◌+◌}
use openclaw_operator.AutoUpdate.{World, idle, health_check, rolling_back, running, updating}
use openclaw_operator.AutoUpdate.Api.{after}
use openclaw_operator.AutoUpdate.Breaker.{Steps, stay, next, reload, reconcile, Steps-IsBounded}
use openclaw_operator.AutoUpdate.RollbackCount.{IsBounded}
use openclaw_operator.AutoUpdate.Rollback.{is_persistence_enabled, drive_rollback}
use openclaw_operator.AutoUpdate.Drive.{takes_backup, drive_steps, drive_health_check}
use openclaw_operator.AutoUpdate.Intervals.{parse_health_check_timeout}
use openclaw_operator.AutoUpdate.Outcomes.{
  calm, IsRolledBack, IsDeployed, drive_rollback-IsRolledBack, drive_steps-IsDeployed,
  drive_health_check-of_timeout,
}
use openclaw_operator.AutoUpdate.Guards.{retag_all, reconcile_auto_update-IsPaused}
use openclaw_operator.AutoUpdate.Check.{reconcile_auto_update}
use openclaw_operator.AutoUpdate.Retry.{drive_steps-retried, half_way}
use openclaw_operator.Tests.Fixtures.{
  numbered, quiet, instance_of, in_flight, scaled, world_of, v1_not_empty,
}

-- A rollback under way, after two others.
abbrev rolling : World
rolling =
    world_of (instance_of "v2" (record (in_flight rolling_back) { rollback_count = 2 }) updating)

rolling-IsBounded : IsBounded rolling.inst rolling.stored
rolling-IsBounded = record {
  memory = omega arith;
  storage = omega arith;
  memory_in_flight = λ p. omega arith;
  storage_in_flight = λ p. omega arith;
  follows = λ p. omega arith;
}

abbrev after_reconcile : World
after_reconcile = (reconcile_auto_update numbered rolling).1

abbrev two_steps : Steps numbered rolling (record after_reconcile { inst = after_reconcile.stored })
two_steps = next (next stay reconcile) reload

Steps-IsBounded_example : IsBounded after_reconcile.stored after_reconcile.stored
Steps-IsBounded_example = Steps-IsBounded two_steps rolling-IsBounded

drive_rollback-IsRolledBack_example :
    IsRolledBack rolling.inst (drive_rollback (calm rolling)).1.stored
unfolding is_persistence_enabled
drive_rollback-IsRolledBack_example = drive_rollback-IsRolledBack rolling v1_not_empty refl

-- An update that is about to apply "v2".
abbrev applying : World
applying = world_of (instance_of "v1" (in_flight idle) updating)

drive_steps-IsDeployed_example : IsDeployed applying (drive_steps "v2" (calm applying)).1.stored
unfolding takes_backup
drive_steps-IsDeployed_example = drive_steps-IsDeployed applying refl refl refl

drive_steps-retried_example :
    let again =
      (drive_steps
        (half_way "conflict" applying).inst.pending_version
        (calm (half_way "conflict" applying))).1 in
    (again.stored.previous_version ≡ "v2")
    × (again.stored.image_tag ≡ "v2")
    × (again.stored.update_phase ≡ health_check)
unfolding takes_backup
drive_steps-retried_example = drive_steps-retried "conflict" applying refl refl refl

-- The health check of "v2".
abbrev checking : World
checking = world_of (instance_of "v2" (in_flight health_check) updating)

abbrev unready : World
unready = record checking { sts = some (scaled 0) }

drive_health_check-of_timeout_example :
    let deadline = 0 + parse_health_check_timeout "10m" in
    let out = drive_health_check (calm unready) in
    (0 < deadline → (out.0 ≡ ok (after 10)) × (out.1.stored ≡ unready.inst))
    × (deadline ≤ 0
        → (out.1.stored.update_phase ≡ rolling_back)
          × (out.1.stored.pending_version ≡ "v2")
          × (out.1.stored.previous_version ≡ "v1"))
drive_health_check-of_timeout_example = drive_health_check-of_timeout unready (scaled 0) refl refl

-- Nothing in flight, and the breaker open.
abbrev paused_world : World
paused_world = world_of (instance_of "v1" (record quiet { rollback_count = 3 }) running)

reconcile_auto_update-IsPaused_example :
    let w' = retag_all numbered paused_world (("v2", 60) ∷ ("v3", 90) ∷ []) in
    (w'.stored.status ≡ paused_world.stored.status) × (w'.answers ≡ []) × (w'.events ≡ [])
reconcile_auto_update-IsPaused_example =
    reconcile_auto_update-IsPaused numbered paused_world (("v2", 60) ∷ ("v3", 90) ∷ [])
      (refl, omega arith)
