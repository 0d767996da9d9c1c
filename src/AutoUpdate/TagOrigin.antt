-- ===== src/AutoUpdate/TagOrigin.antt =====
-- Where the tags of internal/controller/autoupdate.go come from.
use openclaw_operator.Prelude.{String, Option, none, some}
use openclaw_operator.Semver.{Semver}
use openclaw_operator.AutoUpdate.{World, CtrlResult}
use openclaw_operator.AutoUpdate.Api.{Action, ◌>>=◌, gets, pure, no_requeue, on_option}
use openclaw_operator.AutoUpdate.Api.Leads.{Keeps, Leads-if}
use openclaw_operator.AutoUpdate.Api.Keeps.{Keeps-pure}
use openclaw_operator.AutoUpdate.Check.{
  start_update, resolve_latest, offer_update, compare_versions, check_version, choose_step,
  reconcile_auto_update,
}
use openclaw_operator.AutoUpdate.TagMachine.{AreFrom, from_rules, From-drive_update_state_machine}

-- What the registry gives is among the versions.
abbrev pub IsOfferedFrom : (String → Type 0) → Option (Option String) → Type 0
IsOfferedFrom S (some (some v)) = S v
IsOfferedFrom S _ = Unit

module _ (S : String → Type 0) (empty : S "") (semver : Semver) where
  open semver use {Version, parse, greater}

  From-start_update : (v current : String) → S v → Keeps (AreFrom S) (start_update v current)
  unfolding start_update
  From-start_update v current from = search (from_rules, from) depth 14

  From-resolve_latest : (v : String) → S v → Keeps (AreFrom S) (resolve_latest v)
  unfolding resolve_latest
  From-resolve_latest v from = search (from_rules, from) depth 14

  From-offer_update :
      (v current : String) (latest_ver current_ver : Version)
      → S v
      → Keeps (AreFrom S) (offer_update semver v current latest_ver current_ver)
  unfolding offer_update
  From-offer_update v current latest_ver current_ver from =
      search (from_rules, from, From-start_update) depth 14

  From-compare_versions :
      (v current : String) → S v → Keeps (AreFrom S) (compare_versions semver v current)
  unfolding compare_versions
  From-compare_versions v current from = search (from_rules, from, From-offer_update) depth 14

  From-check_version :
      (latest : Option String)
      → IsOfferedFrom S (some latest)
      → Keeps (AreFrom S) (check_version semver latest)
  unfolding check_version
  From-check_version none from = search from_rules depth 14
  From-check_version (some v) from =
      search (from_rules, from, From-compare_versions, From-resolve_latest) depth 14

  From-registry :
      (r : Option (Option String)) (k : Option String → Action CtrlResult)
      → IsOfferedFrom S r
      → ((l : Option String) → IsOfferedFrom S (some l) → Keeps (AreFrom S) (k l))
      → Keeps (AreFrom S) (on_option r (pure no_requeue) k)
  unfolding on_option
  From-registry none k from next = Keeps-pure no_requeue
  From-registry (some l) k from next = next l from

  From-choose_step :
      (w : World) → IsOfferedFrom S w.registry → Keeps (AreFrom S) (choose_step semver w)
  unfolding choose_step
  From-choose_step w from =
      search
        (
          Leads-if,
          Keeps-pure,
          From-registry,
          from,
          From-check_version,
          From-drive_update_state_machine S empty,
        )
        depth 14

  -- The operator deploys no version of its own. For any set of versions that has the empty text,
  -- what the registry answers, and the tags, the pending versions and the previous versions of the
  -- object in memory and of the stored one, the set still has those of both objects after a
  -- reconcile, whatever the server answers.
  pub reconcile_auto_update-AreFrom :
      (w : World)
      → IsOfferedFrom S w.registry
      → AreFrom S w.inst w.stored
      → let w' = (reconcile_auto_update semver w).1 in AreFrom S w'.inst w'.stored
  unfolding reconcile_auto_update ◌>>=◌ gets
  reconcile_auto_update-AreFrom w from h = (From-choose_step w from).at w h
