-- ===== src/AutoUpdate/Guards.antt =====
-- What opens the circuit breaker of `reconcileAutoUpdate` in internal/controller/autoupdate.go again,
-- and what does not.
use openclaw_operator.Prelude.{
  ℕ, String, ◌≤◌, ◌≡◌, refl, sym, ap, subst, List, [], ◌∷◌, arith, eq_iff, ok, loop,
}
use openclaw_operator.Semver.{Semver}
use openclaw_operator.AutoUpdate.{World, Instance}
use openclaw_operator.AutoUpdate.Api.{◌>>=◌, gets, pure, no_requeue, on_option}
use openclaw_operator.AutoUpdate.Rollback.{max_rollback_count}
use openclaw_operator.AutoUpdate.Check.{choose_step, reconcile_auto_update}

-- No update is in flight, and the count of rollbacks is at the threshold.
abbrev pub IsPaused : Instance → Type 0
IsPaused i = (i.pending_version ≡ "") × (max_rollback_count ≤ i.rollback_count)

-- The user sets `spec.image.tag`, some time passes, and the operator reads the object.
abbrev pub retagged : String × ℕ → World → World
retagged (tag, now) w =
    let next = record w.stored { spec = record w.stored.spec { image_tag = tag } } in
    record w { inst = next; stored = next; now = now }

-- A reconcile behind each such change.
abbrev pub retag_all : Semver → World → List (String × ℕ) → World
retag_all semver w changes =
    loop (λ w change. (reconcile_auto_update semver (retagged change w)).1) w changes

paused_lem :
    (semver : Semver) (w : World)
    → IsPaused w.inst
    → reconcile_auto_update semver w ≡ (ok no_requeue, w)
unfolding reconcile_auto_update choose_step ◌>>=◌ gets pure on_option
paused_lem semver w paused = ground (arith, paused, eq_iff w.inst.pending_version "")

-- Where no update is in flight and the count of rollbacks is at the threshold, the pause has no end
-- that the user could bring about by the tag: whatever tags are set, and whatever time passes before
-- the reconcile behind each, the stored status stays as it is, the count of rollbacks with it, and
-- the server is asked nothing.
pub reconcile_auto_update-IsPaused :
    (semver : Semver) (w : World) (changes : List (String × ℕ))
    → IsPaused w.stored
    → let w' = retag_all semver w changes in
      (w'.stored.status ≡ w.stored.status) × (w'.answers ≡ w.answers) × (w'.events ≡ w.events)
reconcile_auto_update-IsPaused semver w [] paused = (refl, refl, refl)
reconcile_auto_update-IsPaused semver w ((tag, now) ∷ changes) paused =
    let same = ap (λ p. p.1) (paused_lem semver (retagged (tag, now) w) paused) in
    subst
      (λ (v : World).
        let w' = retag_all semver v changes in
        (w'.stored.status ≡ w.stored.status) × (w'.answers ≡ w.answers) × (w'.events ≡ w.events))
      (sym same) (reconcile_auto_update-IsPaused semver (retagged (tag, now) w) changes paused)
