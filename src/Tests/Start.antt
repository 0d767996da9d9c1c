-- ===== src/Tests/Start.antt =====
-- The theorems on where tags come from, at concrete worlds.
use openclaw_operator.Prelude.{String, ◌≡◌, ◌⊎◌, inl, inr, refl}
use openclaw_operator.AutoUpdate.{World, running}
use openclaw_operator.AutoUpdate.Api.{◌>>=◌, gets, pure, modify_status, emit, on_option}
use openclaw_operator.AutoUpdate.Check.{
  is_auto_update_enabled, should_check_for_update, start_update, remaining_failure, offer_update,
  compare_versions, check_version, choose_step, reconcile_auto_update,
}
use openclaw_operator.AutoUpdate.Start.{IsStart, reconcile_auto_update-IsStart}
use openclaw_operator.AutoUpdate.TagMachine.{IsFrom, AreFrom}
use openclaw_operator.AutoUpdate.TagOrigin.{reconcile_auto_update-AreFrom}
use openclaw_operator.Tests.Fixtures.{numbered, quiet, instance_of, world_of, v2_not_empty}

-- Nothing in flight, at "v1", where the registry gives "v2".
abbrev at_v1 : World
at_v1 = world_of (instance_of "v1" quiet running)

reconcile_auto_update-IsStart_example : IsStart numbered at_v1 "v2"
unfolding reconcile_auto_update choose_step check_version compare_versions offer_update start_update
    remaining_failure should_check_for_update is_auto_update_enabled modify_status emit gets pure
    on_option ◌>>=◌
reconcile_auto_update-IsStart_example =
    reconcile_auto_update-IsStart numbered at_v1 refl refl v2_not_empty

-- "v1", "v2" and no version.
abbrev Known : String → Type 0
Known v = (v ≡ "") ⊎ (v ≡ "v1") ⊎ (v ≡ "v2")

at_v1-IsFrom : IsFrom Known at_v1.inst
at_v1-IsFrom = record { tag = inr (inl refl); pending = inl refl; previous = inl refl }

reconcile_auto_update-AreFrom_example :
    let w = (reconcile_auto_update numbered at_v1).1 in AreFrom Known w.inst w.stored
reconcile_auto_update-AreFrom_example =
    reconcile_auto_update-AreFrom Known (inl refl) numbered at_v1 (inr (inr refl))
      (at_v1-IsFrom, at_v1-IsFrom)
