-- ===== src/AutoUpdate/Start.antt =====
-- When `reconcileAutoUpdate` of internal/controller/autoupdate.go starts an update.
use openclaw_operator.Prelude.{
  ◌<◌, String, ◌≡◌, ◌≢◌, refl, sym, subst, ◌∙◌, Bool, true, false, not, Option, none, some, arith,
  leb, ◌==◌, ◌||◌, eq_iff, if◌then◌else◌,
}
use openclaw_operator.Semver.{Semver}
use openclaw_operator.AutoUpdate.{World}
use openclaw_operator.AutoUpdate.Api.{◌>>=◌, gets, pure, no_requeue, on_option, modify_status, emit}
use openclaw_operator.AutoUpdate.Rollback.{max_rollback_count}
use openclaw_operator.AutoUpdate.Drive.{drive_update_state_machine}
use openclaw_operator.AutoUpdate.Check.{
  is_auto_update_enabled, should_check_for_update, resolve_latest, compare_versions, check_version,
  choose_step, reconcile_auto_update, set_latest, set_check,
}
use openclaw_operator.AutoUpdate.StartVersion.{
  IsNewer, resolve_latest-pending, compare_versions-pending,
}

module _ (semver : Semver) where
  open semver use {Version, parse, greater}

  -- What holds where an update to `v` starts.
  abbrev pub IsStart : World → String → Type 0
  IsStart w v =
      (is_auto_update_enabled w.inst ≡ true)
      × (w.inst.rollback_count < max_rollback_count)
      × (should_check_for_update w.inst w.now ≡ true)
      × (w.registry ≡ some (some v))
      × IsNewer semver v w.inst.image_tag
      × (w.inst.failed_version ≢ v)

  -- What a look at the registry's version leaves pending.
  abbrev IsOffered : String → World → String → Type 0
  IsOffered v w p =
      p ≢ "" → (p ≡ v) × IsNewer semver v w.inst.image_tag × (w.inst.failed_version ≢ v)

  resolve_or_compare :
      (b : Bool) (v : String) (w : World)
      → w.inst.pending_version ≡ ""
      → w.stored.pending_version ≡ ""
      → IsOffered v w
          ((if b then resolve_latest v else compare_versions semver v w.inst.image_tag)
            w).1.inst.pending_version
  resolve_or_compare true v w idle stored started =
      absurd (started (resolve_latest-pending semver v w idle stored))
  resolve_or_compare false v w idle stored started =
      compare_versions-pending semver v w.inst.image_tag w idle started

  check_version-pending :
      (v : String) (w : World)
      → w.inst.pending_version ≡ ""
      → w.stored.pending_version ≡ ""
      → IsOffered v w (check_version semver (some v) w).1.inst.pending_version
  unfolding check_version modify_status emit gets pure ◌>>=◌
  check_version-pending v w idle stored =
      let tag = w.inst.image_tag in
      resolve_or_compare (tag == "" || tag == "latest") v
        (record w {
          inst = record w.inst { status = set_latest v (set_check w.now w.inst.status) };
        })
        idle stored

  check_failed-pending :
      (w : World) → (check_version semver none w).1.inst.pending_version ≡ w.inst.pending_version
  unfolding check_version modify_status emit gets pure ◌>>=◌
  check_failed-pending w = refl

  -- The world and the object in memory before, and what the steps that follow leave pending.
  abbrev IdleIn : World → Type 0
  IdleIn w = (w.inst.pending_version ≡ "") × (w.stored.pending_version ≡ "")

  due-pending :
      (paused due : Bool) (latest : Option String) (w : World)
      → leb max_rollback_count w.inst.rollback_count ≡ paused
      → should_check_for_update w.inst w.now ≡ due
      → IdleIn w
      → w.registry ≡ some latest
      → is_auto_update_enabled w.inst ≡ true
      → let p =
          ((if paused
              then pure no_requeue
              else if not due
              then pure no_requeue
              else check_version semver latest)
            w).1.inst.pending_version in
        p ≢ "" → IsStart w p
  unfolding pure
  due-pending true due latest w k d idle r on started = absurd (started idle.0)
  due-pending false false latest w k d idle r on started = absurd (started idle.0)
  due-pending false true none w k d idle r on started =
      absurd (started (check_failed-pending w ∙ idle.0))
  due-pending false true (some v) w k d idle r on started =
      let (same, newer, untried) = check_version-pending v w idle.0 idle.1 started in
      subst (IsStart w) (sym same) (on, ground (arith, k), d, r, newer, untried)

  look-pending :
      (r : Option (Option String)) (w : World)
      → w.registry ≡ r
      → IdleIn w
      → is_auto_update_enabled w.inst ≡ true
      → let p =
          (on_option r
            (pure no_requeue)
            (λ latest.
              if leb max_rollback_count w.inst.rollback_count
              then pure no_requeue
              else if not (should_check_for_update w.inst w.now)
              then pure no_requeue
              else check_version semver latest)
            w).1.inst.pending_version in
        p ≢ "" → IsStart w p
  unfolding on_option pure
  look-pending none w r idle on started = absurd (started idle.0)
  look-pending (some latest) w r idle on started =
      due-pending (leb max_rollback_count w.inst.rollback_count)
        (should_check_for_update w.inst w.now) latest w refl refl idle r on started

  step-pending :
      (in_flight off : Bool) (w : World)
      → not (w.inst.pending_version == "") ≡ in_flight
      → not (is_auto_update_enabled w.inst) ≡ off
      → IdleIn w
      → let p =
          ((if in_flight
              then drive_update_state_machine
              else if off
              then pure no_requeue
              else on_option w.registry (pure no_requeue) (λ latest.
                if leb max_rollback_count w.inst.rollback_count
                then pure no_requeue
                else if not (should_check_for_update w.inst w.now)
                then pure no_requeue
                else check_version semver latest))
            w).1.inst.pending_version in
        p ≢ "" → IsStart w p
  unfolding pure
  step-pending true off w f e idle started =
      ground (arith, f, idle, eq_iff w.inst.pending_version "")
  step-pending false true w f e idle started = absurd (started idle.0)
  step-pending false false w f e idle started =
      look-pending w.registry w refl idle (ground (arith, e)) started

  -- With no update in flight in either object, a version that a reconcile leaves pending is the one
  -- that the registry gave: auto-update is on, the count of rollbacks is below the threshold, the
  -- check was due, the version is newer than the tag, and it is not the one that failed.
  pub reconcile_auto_update-IsStart :
      (w : World)
      → w.inst.pending_version ≡ ""
      → w.stored.pending_version ≡ ""
      → let p = (reconcile_auto_update semver w).1.inst.pending_version in p ≢ "" → IsStart w p
  unfolding reconcile_auto_update choose_step gets ◌>>=◌
  reconcile_auto_update-IsStart w idle stored started =
      step-pending (not (w.inst.pending_version == "")) (not (is_auto_update_enabled w.inst)) w refl
        refl (idle, stored) started
