-- ===== src/AutoUpdate/ReconcileBound.antt =====
-- One reconcile of internal/controller/autoupdate.go keeps the count of rollbacks within its bound.
use openclaw_operator.Prelude.{
  ℕ, ◌<◌, String, ◌≡◌, ◌≢◌, true, false, not, Option, none, some, arith, leb, ◌==◌, eq_iff,
}
use openclaw_operator.Semver.{Semver}
use openclaw_operator.AutoUpdate.{World, Instance}
use openclaw_operator.AutoUpdate.Api.{◌>>=◌, pure, gets, no_requeue}
use openclaw_operator.AutoUpdate.Api.Leads.{
  Leads, Keeps, Leads-from, Leads-of, Leads-if, Leads-option,
}
use openclaw_operator.AutoUpdate.Api.Keeps.{Keeps-pure}
use openclaw_operator.AutoUpdate.Rollback.{max_rollback_count}
use openclaw_operator.AutoUpdate.Drive.{drive_update_state_machine}
use openclaw_operator.AutoUpdate.Check.{
  start_update, resolve_latest, offer_update, compare_versions, check_version, choose_step,
  reconcile_auto_update,
}
use openclaw_operator.AutoUpdate.RollbackCount.{
  Below, IsBounded, Below-IsBounded, below_rules, IsBounded-drive_update_state_machine,
}

Below-start_update : (version current : String) → Keeps Below (start_update version current)
unfolding start_update
Below-start_update version current = search below_rules depth 12

Below-resolve_latest : (version : String) → Keeps Below (resolve_latest version)
unfolding resolve_latest
Below-resolve_latest version = search below_rules depth 12

is_in_flight : (v : String) → not (v == "") ≡ true → v ≢ ""
is_in_flight v p = ground (arith, eq_iff v "")

is_below : (n : ℕ) → leb max_rollback_count n ≡ false → n < max_rollback_count
is_below n p = ground arith

module _ (semver : Semver) where
  open semver use {Version, parse, greater}

  Below-offer_update :
      (version current : String) (latest_ver current_ver : Version)
      → Keeps Below (offer_update semver version current latest_ver current_ver)
  unfolding offer_update
  Below-offer_update version current latest_ver current_ver =
      search (below_rules, Below-start_update) depth 14

  Below-compare_versions :
      (version current : String) → Keeps Below (compare_versions semver version current)
  unfolding compare_versions
  Below-compare_versions version current = search (below_rules, Below-offer_update) depth 12

  Below-check_version : (latest : Option String) → Keeps Below (check_version semver latest)
  unfolding check_version
  Below-check_version none = search below_rules depth 12
  Below-check_version (some version) =
      search (below_rules, Below-compare_versions, Below-resolve_latest) depth 14

  -- What is known of the objects while a world that was read says how to go on.
  Known : World → Instance → Instance → Type 0
  Known w i s =
      IsBounded i s
      × (w.inst.pending_version ≢ "" → Below i s)
      × (w.inst.rollback_count < max_rollback_count → Below i s)

  known : (w : World) → IsBounded w.inst w.stored → Known w w.inst w.stored
  unfolding Known
  known w h =
      (h, λ p. (h.memory_in_flight p, h.follows (h.memory_in_flight p)), λ p. (p, h.follows p))

  IsBounded-skip : (w : World) → Leads (Known w) IsBounded (pure no_requeue)
  unfolding Known
  IsBounded-skip w = Leads-from _ (λ i s h. h.0) (Keeps-pure _)

  Known-Below :
      (w : World)
      → w.inst.rollback_count < max_rollback_count
      → (i s : Instance) → Known w i s
      → Below i s
  unfolding Known
  Known-Below w p i s h = h.2 p

  Known-in_flight :
      (w : World) → w.inst.pending_version ≢ "" → (i s : Instance) → Known w i s → Below i s
  unfolding Known
  Known-in_flight w p i s h = h.1 p

  IsBounded-in_flight :
      (w : World)
      → not (w.inst.pending_version == "") ≡ true
      → Leads (Known w) IsBounded drive_update_state_machine
  IsBounded-in_flight w p =
      Leads-from _ (Known-in_flight w (is_in_flight _ p)) IsBounded-drive_update_state_machine

  IsBounded-check :
      (w : World) (latest : Option String)
      → leb max_rollback_count w.inst.rollback_count ≡ false
      → Leads (Known w) IsBounded (check_version semver latest)
  IsBounded-check w latest p =
      Leads-from _ (Known-Below w (is_below _ p))
        (Leads-of _ Below-IsBounded (Below-check_version latest))

  IsBounded-choose_step : (w : World) → Leads (Known w) IsBounded (choose_step semver w)
  unfolding choose_step
  IsBounded-choose_step w =
      search (Leads-if, Leads-option, IsBounded-skip, IsBounded-in_flight, IsBounded-check) depth 12

  pub IsBounded-reconcile_auto_update : Keeps IsBounded (reconcile_auto_update semver)
  unfolding reconcile_auto_update ◌>>=◌ gets
  IsBounded-reconcile_auto_update = record {
    at = λ w h. (IsBounded-choose_step w).at w (known w h);
  }
