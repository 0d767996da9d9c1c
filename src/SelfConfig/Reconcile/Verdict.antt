-- ===== src/SelfConfig/Reconcile/Verdict.antt =====
-- What a self-config request comes to, in `Reconcile` of
-- internal/controller/openclawselfconfig_controller.go.
use openclaw_operator.Prelude.{
  String, ◌≡◌, refl, false, Option, none, some, List, [], ◌∷◌, ◌++◌, if◌then◌else◌, is_empty,
  Result, ok, err, arith, append-nil, sym, ◌∙◌,
}
use openclaw_operator.GoMap.{GoMap}
use openclaw_operator.SelfConfig.{SelfConfigAction, OpenClawSelfConfigSpec, ApplySpec, ApplyError}
use openclaw_operator.SelfConfig.Actions.{determine_actions, check_allowed_actions}
use openclaw_operator.SelfConfig.Apply.{build_apply_spec}
use openclaw_operator.SelfConfig.Reconcile.{
  World, Target, OpenClawSelfConfig, SelfConfigPhase, applied, failed, denied, unset, Error,
  CtrlResult, ◌>>=◌, pure, attempt, gets, update, emit, answer, request, store_status,
  set_terminal_status, is_terminal, set_owner, warnings_of, emit_each, apply_spec_to,
  build_and_apply, check_actions, with_target, process, with_request, reconcile, self_config_denied,
  self_config_skipped_removal,
}

-- The phase that a request gets, and the spec that is applied for it.
abbrev pub Verdict : Type 0
Verdict = SelfConfigPhase × List ApplySpec

abbrev pub built : Result ApplyError ApplySpec → Verdict
built (err e) = (failed, [])
built (ok spec) = (applied, spec ∷ [])

abbrev pub judge : List SelfConfigAction → Target → OpenClawSelfConfigSpec → Verdict
judge actions target sc =
    if is_empty actions
    then (failed, [])
    else if is_empty (check_allowed_actions actions target.spec.allowed_actions)
    then built (build_apply_spec target.spec sc actions)
    else (denied, [])

-- A request is applied where its instance is there and lets itself be configured, it asks for
-- something, all that it asks for is allowed, and the apply configuration can be built. It is denied
-- where the instance does not allow it, and has failed otherwise.
abbrev pub verdict : Option Target → OpenClawSelfConfigSpec → Verdict
verdict none sc = (failed, [])
verdict (some target) sc =
    if target.spec.self_configure_enabled
    then judge (determine_actions sc) target sc
    else (denied, [])

abbrev pub phase_of : Option OpenClawSelfConfig → SelfConfigPhase
phase_of none = unset
phase_of (some sc) = sc.status.phase

-- The state of the world that counts here.
abbrev Outcome : World → World → Verdict → Type 0
Outcome w w' v = (phase_of w'.stored ≡ v.0) × (w'.patches ≡ w.patches ++ v.1)

set_terminal_status_lem :
    (phase : SelfConfigPhase) (warnings : List String) (w : World) (sc : OpenClawSelfConfig)
    → w.answers ≡ []
    → w.stored ≡ some sc
    → (phase_of (set_terminal_status phase warnings w).1.stored ≡ phase)
      × ((set_terminal_status phase warnings w).1.patches ≡ w.patches)
unfolding set_terminal_status store_status pure update request answer ◌>>=◌
set_terminal_status_lem phase warnings w sc a s = ground (arith, a, s)

patches-set_terminal_status :
    (phase : SelfConfigPhase) (warnings : List String) (w : World)
    → (set_terminal_status phase warnings w).1.patches ≡ w.patches
unfolding set_terminal_status store_status pure update request answer ◌>>=◌
patches-set_terminal_status phase warnings w = ground arith

module _ (quote : String → String) (parse : String → Option (GoMap String)) where
  emit_each_lem :
      (msgs : List String) (w : World)
      → let out = emit_each quote parse msgs w in
        (out.0 ≡ ok tt)
        × (out.1.answers ≡ w.answers)
        × (out.1.stored ≡ w.stored)
        × (out.1.patches ≡ w.patches)
        × (out.1.sc ≡ w.sc)
  unfolding emit_each emit pure ◌>>=◌
  emit_each_lem [] w = (refl, refl, refl, refl, refl)
  emit_each_lem (msg ∷ msgs) w =
      emit_each_lem msgs (record w { events = w.events ++ self_config_skipped_removal ∷ [] })

  -- The controller holds the stored request, and the server accepts every request.
  abbrev IsServed : World → OpenClawSelfConfig → Type 0
  IsServed w sc = (w.answers ≡ []) × (w.stored ≡ some sc) × (w.sc ≡ sc)

  apply_spec_to_lem :
      (target : Target) (spec : ApplySpec) (w : World) (sc : OpenClawSelfConfig)
      → IsServed w sc
      → Outcome w (apply_spec_to quote parse target spec w).1 (applied, spec ∷ [])
  unfolding apply_spec_to set_owner set_terminal_status store_status emit attempt gets pure update
      request answer ◌>>=◌
  apply_spec_to_lem target spec w sc h =
      let msgs = warnings_of quote parse target.managed_fields w.sc.spec in
      ground (arith, h, emit_each_lem msgs w)

  stopped :
      (phase : SelfConfigPhase) (w : World) (sc : OpenClawSelfConfig)
      → IsServed w sc
      → Outcome w (set_terminal_status phase [] w).1 (phase, [])
  stopped phase w sc h =
      let e = set_terminal_status_lem phase [] w sc h.0 h.1 in
      (e.0, e.1 ∙ sym (append-nil w.patches))

  build_and_apply_lem :
      (target : Target) (actions : List SelfConfigAction) (w : World) (sc : OpenClawSelfConfig)
      → IsServed w sc
      → Outcome w
          (build_and_apply quote parse target actions w).1
          (built (build_apply_spec target.spec w.sc.spec actions))
  unfolding build_and_apply gets ◌>>=◌
  build_and_apply_lem target actions w sc h = by (build_apply_spec target.spec w.sc.spec actions)
    where
      by :
          (r : Result ApplyError ApplySpec)
          → Outcome w
              ((elim r as (λ r. World → Result Error CtrlResult × World) [
                | err e ↦ set_terminal_status failed []
                | ok spec ↦ apply_spec_to quote parse target spec
              ])
                w).1
              (built r)
      by (err e) = stopped failed w sc h
      by (ok spec) = apply_spec_to_lem target spec w sc h

  check_actions_lem :
      (target : Target) (actions : List SelfConfigAction) (w : World) (sc : OpenClawSelfConfig)
      → IsServed w sc
      → Outcome w (check_actions quote parse target actions w).1 (judge actions target w.sc.spec)
  unfolding check_actions emit ◌>>=◌
  check_actions_lem target actions w sc h =
      let events = w.events ++ self_config_denied ∷ [] in
      ground (
        arith,
        build_and_apply_lem target actions w sc h,
        stopped failed w sc h,
        stopped denied (record w { events = events }) sc h,
      )

  with_target_lem :
      (target : Target) (w : World) (sc : OpenClawSelfConfig)
      → IsServed w sc
      → Outcome w (with_target quote parse target w).1 (verdict (some target) w.sc.spec)
  unfolding with_target gets ◌>>=◌
  with_target_lem target w sc h =
      ground (
        arith,
        check_actions_lem target (determine_actions w.sc.spec) w sc h,
        stopped denied w sc h,
      )

  process_lem :
      (w : World) (sc : OpenClawSelfConfig)
      → IsServed w sc
      → Outcome w (process quote parse w).1 (verdict w.target w.sc.spec)
  unfolding process gets request answer ◌>>=◌
  process_lem w sc h = by w.target refl
    where
      by :
          (o : Option Target)
          → w.target ≡ o
          → Outcome w (process quote parse w).1 (verdict w.target w.sc.spec)
      by none e = ground (arith, h, e, stopped failed w sc h)
      by (some target) e = ground (arith, h, e, with_target_lem target w sc h)

  open_lem :
      (w : World) (sc : OpenClawSelfConfig)
      → w.answers ≡ []
      → w.stored ≡ some sc
      → is_terminal sc.status.phase ≡ false
      → (reconcile quote parse w) ≡ process quote parse (record w { sc = sc })
  unfolding reconcile with_request gets update request answer ◌>>=◌
  open_lem w sc a s t = ground (arith, a, s, t)

-- Where the server accepts every request, a reconcile of a request that is not in a terminal phase
-- gives it the phase of its verdict, and applies the built spec, once, exactly where that is Applied.
pub reconcile-verdict :
    (quote : String → String) (parse : String → Option (GoMap String)) (w : World)
    (sc : OpenClawSelfConfig)
    → w.answers ≡ []
    → w.stored ≡ some sc
    → is_terminal sc.status.phase ≡ false
    → (phase_of (reconcile quote parse w).1.stored ≡ (verdict w.target sc.spec).0)
      × ((reconcile quote parse w).1.patches ≡ w.patches ++ (verdict w.target sc.spec).1)
reconcile-verdict quote parse w sc a s t =
    rw (open_lem quote parse w sc a s t)
      (process_lem quote parse (record w { sc = sc }) sc (a, s, refl))
