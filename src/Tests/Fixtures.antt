-- ===== src/Tests/Fixtures.antt =====
-- An instance and its cluster, and versions, for the tests of the auto-update machine.
use openclaw_operator.Prelude.{
  ℕ, String, ◌≡◌, ◌≢◌, true, false, Option, none, some, [], ◌∷◌, arith, ltb, ◌==◌, eq_iff,
  if◌then◌else◌,
}
use openclaw_operator.Semver.{Semver}
use openclaw_operator.AutoUpdate.{
  World, Instance, Spec, AutoUpdateStatus, UpdatePhase, idle, Phase, StatefulSet,
}

abbrev pub parse_version : String → Option ℕ
parse_version s = if s == "v1" then some 1 else if s == "v2" then some 2 else none

pub numbered_irrefl : (v : ℕ) → ltb v v ≡ false
numbered_irrefl v = ground arith

pub numbered_trans : (u v w : ℕ) → ltb v u ≡ true → ltb w v ≡ true → ltb w u ≡ true
numbered_trans u v w p q = ground (arith, p, q)

-- Two versions, "v1" and "v2".
abbrev pub numbered : Semver
numbered = record {
  Version = ℕ;
  parse = parse_version;
  is_prerelease = λ v. false;
  greater = λ a b. ltb b a;
  greater_irrefl = numbered_irrefl;
  greater_trans = numbered_trans;
}

abbrev pub spec : String → Spec
spec tag = record {
  name = "demo";
  namespace = "oc-tenant-a";
  tenant_label = none;
  image_repository = "ghcr.io/openclaw/openclaw";
  image_tag = tag;
  image_digest = "";
  enabled = some true;
  check_interval = "24h";
  backup_before_update = some false;
  rollback_on_failure = some true;
  health_check_timeout = "10m";
  persistence_enabled = some true;
  existing_claim = "";
  node_selector = [];
  tolerations = [];
  service_account_name = "";
  annotations = [];
  finalizers = "openclaw.rocks/finalizer" ∷ [];
  uid = "1";
  orphan = none;
  backup_timeout = "";
  restore_from = "";
  schedule = "";
  history_limit = none;
  failed_history_limit = none;
  retention_days = none;
}

abbrev pub quiet : AutoUpdateStatus
quiet = record {
  last_check_time = none;
  latest_version = "";
  current_version = "";
  pending_version = "";
  update_phase = idle;
  last_update_time = none;
  last_update_error = "";
  previous_version = "";
  pre_update_backup_path = "";
  failed_version = "";
  rollback_count = 0;
}

abbrev pub instance_of : String → AutoUpdateStatus → Phase → Instance
instance_of tag auto_update phase = record {
  spec = spec tag;
  status = record {
    auto_update = auto_update;
    phase = phase;
    available = none;
    backing_up_since = none;
    last_backup_path = "";
    last_backup_time = none;
    backup_job_name = "";
    backup_condition = none;
    restored_from = "";
    restore_job_name = "";
    restore_condition = none;
    backup_cron_job = "";
    scheduled_condition = none;
  };
}

-- "v2" pending, from "v1" on, in a phase.
abbrev pub in_flight : UpdatePhase → AutoUpdateStatus
in_flight phase = record quiet {
  pending_version = "v2";
  update_phase = phase;
  previous_version = "v1";
}

abbrev pub scaled : ℕ → StatefulSet
scaled n = record { replicas = some n; ready_replicas = n; updated_replicas = n }

abbrev pub world_of : Instance → World
world_of inst = record {
  inst = inst;
  stored = inst;
  sts = some (scaled 1);
  pods = 1;
  jobs = [];
  owners = some ("1" ∷ []);
  cron_job = none;
  secret = none;
  events = [];
  answers = [];
  registry = some (some "v2");
  now = 0;
  timestamp = "20260101T000000Z";
}

pub v1_not_empty : ◌≢◌ {A = String} "v1" ""
v1_not_empty p = ground (arith, (eq_iff "v1" "").1 p)

pub v2_not_empty : ◌≢◌ {A = String} "v2" ""
v2_not_empty p = ground (arith, (eq_iff "v2" "").1 p)

pub v2_not_v1 : ◌≢◌ {A = String} "v2" "v1"
v2_not_v1 p = ground (arith, (eq_iff "v2" "v1").1 p)
