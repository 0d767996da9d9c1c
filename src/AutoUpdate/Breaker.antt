-- ===== src/AutoUpdate/Breaker.antt =====
-- The circuit breaker over any sequence of reconciles, faults and changes of the cluster.
use openclaw_operator.Prelude.{ℕ, ◌≤◌, ◌<◌, String, ◌≡◌, ◌≢◌, refl, Option, List, subst, sym}
use openclaw_operator.GoMap.{GoMap}
use openclaw_operator.Semver.{Semver}
use openclaw_operator.AutoUpdate.{World, Instance, Spec, StatefulSet, Job, Answer, Phase}
use openclaw_operator.AutoUpdate.Api.{modify_status, update_status, patch_tag, tagged}
use openclaw_operator.AutoUpdate.Api.Leads.{Keeps}
use openclaw_operator.AutoUpdate.Api.Keeps.{keeps_rules, Keeps-modify_status, Keeps-patch_tag}
use openclaw_operator.AutoUpdate.Rollback.{max_rollback_count}
use openclaw_operator.AutoUpdate.Drive.{set_phase}
use openclaw_operator.AutoUpdate.Check.{set_current, reconcile_auto_update, resolve_initial_tag}
use openclaw_operator.AutoUpdate.RollbackCount.{IsBounded, IsBounded-update_status}
use openclaw_operator.AutoUpdate.ReconcileBound.{IsBounded-reconcile_auto_update}

-- One step of the system. The operator restarts its reconcile from what the server stores, runs
-- the auto-update reconcile or the resolution of the first tag, sets the phase, and stores the
-- status, whatever the server answers; around it the user edits the spec, and the StatefulSet, the
-- pods, the Jobs, the Secret, the registry and the clock change.
pub data Step (semver : Semver) : World → World → Type 0 where
  reload : {w : World} → Step semver w (record w { inst = w.stored })
  reconcile : {w : World} → Step semver w (reconcile_auto_update semver w).1
  resolve : {w : World} → Step semver w (resolve_initial_tag w).1
  phase : {w : World} (p : Phase) → Step semver w (modify_status (set_phase p) w).1
  store : {w : World} → Step semver w (update_status w).1
  edit :
      {w : World} (spec : Spec)
      → Step semver w (record w { stored = record w.stored { spec = spec } })
  turn :
      {w : World} (sts : Option StatefulSet) (pods : ℕ) (jobs : GoMap Job)
      (secret : Option (GoMap String)) (answers : List Answer) (registry : Option (Option String))
      (now : ℕ) (timestamp : String)
      → Step semver w (record w {
        sts = sts;
        pods = pods;
        jobs = jobs;
        secret = secret;
        answers = answers;
        registry = registry;
        now = now;
        timestamp = timestamp;
      })

-- Any number of steps.
pub data Steps (semver : Semver) : World → World → Type 0 where
  stay : {w : World} → Steps semver w w
  next : {u v w : World} → Steps semver u v → Step semver v w → Steps semver u w

IsBounded-set_phase : (p : Phase) → Keeps IsBounded (modify_status (set_phase p))
IsBounded-set_phase p = Keeps-modify_status (set_phase p) (λ i s h. record {
  memory = h.memory;
  storage = h.storage;
  memory_in_flight = h.memory_in_flight;
  storage_in_flight = h.storage_in_flight;
  follows = h.follows;
})

IsBounded-set_current : (v : String) → Keeps IsBounded (modify_status (set_current v))
IsBounded-set_current v = Keeps-modify_status (set_current v) (λ i s h. record {
  memory = h.memory;
  storage = h.storage;
  memory_in_flight = h.memory_in_flight;
  storage_in_flight = h.storage_in_flight;
  follows = h.follows;
})

IsBounded-of_stored : (i s : Instance) → IsBounded i s → IsBounded s s
IsBounded-of_stored i s h = record {
  memory = h.storage;
  storage = h.storage;
  memory_in_flight = h.storage_in_flight;
  storage_in_flight = h.storage_in_flight;
  follows = λ p. p;
}

IsBounded-retag :
    (i s i' s' : Instance)
    → i'.status ≡ i.status
    → s'.status ≡ s.status
    → IsBounded i s
    → IsBounded i' s'
IsBounded-retag i s i' s' p q h = record {
  memory = subst (λ t. t.rollback_count ≤ max_rollback_count) (sym p) h.memory;
  storage = subst (λ t. t.rollback_count ≤ max_rollback_count) (sym q) h.storage;
  memory_in_flight =
      subst (λ t. t.pending_version ≢ "" → t.rollback_count < max_rollback_count) (sym p)
        h.memory_in_flight;
  storage_in_flight =
      subst (λ t. t.pending_version ≢ "" → t.rollback_count < max_rollback_count) (sym q)
        h.storage_in_flight;
  follows =
      subst (λ t. t.rollback_count < max_rollback_count → s'.rollback_count < max_rollback_count)
        (sym p)
        (subst (λ t. i.rollback_count < max_rollback_count → t.rollback_count < max_rollback_count)
          (sym q) h.follows);
}

IsBounded-patch_tag : (v : String) → Keeps IsBounded (patch_tag v)
IsBounded-patch_tag v =
    Keeps-patch_tag v (λ i s h. IsBounded-retag i s (tagged v i) s refl refl h)
      (λ i s h. IsBounded-retag s s (tagged v s) (tagged v s) refl refl (IsBounded-of_stored i s h))

IsBounded-resolve_initial_tag : Keeps IsBounded resolve_initial_tag
unfolding resolve_initial_tag
IsBounded-resolve_initial_tag =
    search (keeps_rules, IsBounded-patch_tag, IsBounded-set_current, IsBounded-update_status) depth
      14

IsBounded-Step :
    {semver : Semver} {u v : World}
    → Step semver u v
    → IsBounded u.inst u.stored
    → IsBounded v.inst v.stored
IsBounded-Step (reload {w}) h = IsBounded-of_stored w.inst w.stored h
IsBounded-Step {semver} (reconcile {w}) h = (IsBounded-reconcile_auto_update semver).at w h
IsBounded-Step (resolve {w}) h = IsBounded-resolve_initial_tag.at w h
IsBounded-Step (phase {w} p) h = (IsBounded-set_phase p).at w h
IsBounded-Step (store {w}) h = IsBounded-update_status.at w h
IsBounded-Step (edit {w} spec) h =
    IsBounded-retag w.inst w.stored w.inst (record w.stored { spec = spec }) refl refl h
IsBounded-Step (turn {w} sts pods jobs secret answers registry now timestamp) h = h

-- From objects within the bound, however the operator, the user and the cluster go on, the
-- counts of rollbacks stay within 3, and an update is in flight only where the count is below 3.
pub Steps-IsBounded :
    {semver : Semver} {u v : World}
    → Steps semver u v
    → IsBounded u.inst u.stored
    → IsBounded v.inst v.stored
Steps-IsBounded stay h = h
Steps-IsBounded (next steps step) h = IsBounded-Step step (Steps-IsBounded steps h)
