-- ===== src/SelfConfig/Reconcile/Permitted.antt =====
-- What `Reconcile` of internal/controller/openclawselfconfig_controller.go applies, and what it does
-- with a request that is done, whatever the server answers.
pub mod Done
use openclaw_operator.Prelude.{
  ℕ, ◌-◌, ◌≤◌, String, ◌≡◌, refl, ◌⊎◌, inl, inr, Bool, true, false, Option, none, some, List, [],
  ◌∷◌, ◌++◌, leb, ◌==◌, if◌then◌else◌, is_empty, Result, ok, err, arith, append-nil, append_assoc,
  Bool-cases, sym, ap, ◌∙◌, subst,
}
use openclaw_operator.GoMap.{GoMap}
use openclaw_operator.SelfConfig.{
  SelfConfigAction, OpenClawSelfConfigSpec, InstanceSpec, ApplySpec, ApplyError,
}
use openclaw_operator.SelfConfig.Actions.{determine_actions, check_allowed_actions}
use openclaw_operator.SelfConfig.Apply.{build_apply_spec}
use openclaw_operator.SelfConfig.Reconcile.{
  World, Target, OpenClawSelfConfig, SelfConfigPhase, applied, failed, denied, unset, pending,
  Answer, accepted, refused, Error, not_found, api_failed, CtrlResult, ◌>>=◌, ◌>>◌, pure, raise,
  attempt, gets, update, emit, answer, request, self_config_ttl, store_status, set_terminal_status,
  delete_request, clean_up, is_terminal, set_owner, warnings_of, emit_each, apply_spec_to,
  build_and_apply, check_actions, with_target, process, with_request, reconcile, self_config_denied,
  self_config_applied, applied_event, self_config_skipped_removal,
}
use openclaw_operator.SelfConfig.Reconcile.Verdict.{Verdict, verdict, built, judge}

-- A step applies nothing, or what the verdict on the request says.
abbrev Applies : World → World → List ApplySpec → Type 0
Applies w w' specs = (w'.patches ≡ w.patches) ⊎ (w'.patches ≡ w.patches ++ specs)

-- What a step applies, by a verdict.
abbrev pub Permits : Verdict → World → World → Type 0
Permits v w w' =
    (w'.patches ≡ w.patches)
    ⊎ ((spec : ApplySpec) × (w'.patches ≡ w.patches ++ spec ∷ []) × (v ≡ (applied, spec ∷ [])))

kept_terminal :
    (phase : SelfConfigPhase) (warnings : List String) (w : World)
    → (set_terminal_status phase warnings w).1.patches ≡ w.patches
unfolding set_terminal_status store_status pure update request answer ◌>>=◌
kept_terminal phase warnings w = ground arith

kept_owner : (w : World) → (set_owner w).1.patches ≡ w.patches
unfolding set_owner update request answer ◌>>=◌
kept_owner w = ground arith

pub true_not_false : ◌≡◌ {A = Bool} true false → ⊥
true_not_false e = ground (arith, e)

-- The time to live of a completed request is over.
abbrev pub IsExpired : Option ℕ → ℕ → Type 0
IsExpired none now = ⊥
IsExpired (some completed) now = self_config_ttl ≤ now - completed

-- A request in a terminal phase is left as it is, or deleted behind its time to live.
abbrev pub IsSettled : OpenClawSelfConfig → World → World → Type 0
IsSettled sc w w' =
    (w'.patches ≡ w.patches)
    × ((w'.stored ≡ some sc) ⊎ ((w'.stored ≡ none) × IsExpired sc.status.completion_time w.now))

module _ (quote : String → String) (parse : String → Option (GoMap String)) where
  emit_each_ok :
      (msgs : List String) (w : World)
      → let out = emit_each quote parse msgs w in (out.0 ≡ ok tt) × (out.1.patches ≡ w.patches)
  unfolding emit_each emit pure ◌>>=◌
  emit_each_ok [] w = (refl, refl)
  emit_each_ok (msg ∷ msgs) w =
      emit_each_ok msgs (record w { events = w.events ++ self_config_skipped_removal ∷ [] })

  apply_spec_to-Applies :
      (target : Target) (spec : ApplySpec) (w : World)
      → Applies w (apply_spec_to quote parse target spec w).1 (spec ∷ [])
  unfolding apply_spec_to set_owner set_terminal_status store_status emit attempt gets pure update
      request answer ◌>>=◌
  apply_spec_to-Applies target spec w =
      let msgs = warnings_of quote parse target.managed_fields w.sc.spec in
      ground (arith, emit_each_ok msgs w)

  Permits-of :
      (w w' : World) (spec : ApplySpec)
      → Applies w w' (spec ∷ [])
      → Permits (applied, spec ∷ []) w w'
  Permits-of w w' spec (inl kept) = inl kept
  Permits-of w w' spec (inr grown) = inr (spec, grown, refl)

  build_and_apply-Permits :
      (target : Target) (actions : List SelfConfigAction) (w : World)
      → Permits
          (built (build_apply_spec target.spec w.sc.spec actions))
          w
          (build_and_apply quote parse target actions w).1
  unfolding build_and_apply gets ◌>>=◌
  build_and_apply-Permits target actions w = by (build_apply_spec target.spec w.sc.spec actions)
    where
      by :
          (r : Result ApplyError ApplySpec)
          → Permits
              (built r)
              w
              ((elim r as (λ r. World → Result Error CtrlResult × World) [
                | err e ↦ set_terminal_status failed []
                | ok spec ↦ apply_spec_to quote parse target spec
              ])
                w).1
      by (err e) = inl (kept_terminal failed [] w)
      by (ok spec) =
          Permits-of w (apply_spec_to quote parse target spec w).1 spec
            (apply_spec_to-Applies target spec w)

  denial :
      (w : World)
      → ((emit self_config_denied >>= λ u. set_terminal_status denied []) w).1.patches ≡ w.patches
  unfolding emit ◌>>=◌
  denial w = kept_terminal denied [] _

  check_actions-Permits :
      (target : Target) (actions : List SelfConfigAction) (w : World)
      → Permits (judge actions target w.sc.spec) w (check_actions quote parse target actions w).1
  unfolding check_actions
  check_actions-Permits target actions w =
      by (is_empty actions) (is_empty (check_allowed_actions actions target.spec.allowed_actions))
    where
      by :
          (b c : Bool)
          → Permits
              (if b
                then (failed, [])
                else if c
                then built (build_apply_spec target.spec w.sc.spec actions)
                else (denied, []))
              w
              ((if b
                  then set_terminal_status failed []
                  else if c
                  then build_and_apply quote parse target actions
                  else (do emit self_config_denied; set_terminal_status denied []))
                w).1
      by true c = inl (kept_terminal failed [] w)
      by false true = build_and_apply-Permits target actions w
      by false false = inl (denial w)

  with_target-Permits :
      (target : Target) (w : World)
      → Permits (verdict (some target) w.sc.spec) w (with_target quote parse target w).1
  unfolding with_target gets ◌>>=◌
  with_target-Permits target w = by target.spec.self_configure_enabled
    where
      by :
          (b : Bool)
          → Permits
              (if b then judge (determine_actions w.sc.spec) target w.sc.spec else (denied, []))
              w
              ((if b
                  then check_actions quote parse target (determine_actions w.sc.spec)
                  else set_terminal_status denied [])
                w).1
      by true = check_actions-Permits target (determine_actions w.sc.spec) w
      by false = inl (kept_terminal denied [] w)

  processed :
      (o : Option Target) (w : World)
      → Permits
          (verdict o w.sc.spec)
          w
          ((elim o as (λ o. World → Result Error CtrlResult × World) [
            | none ↦ set_terminal_status failed []
            | some t ↦ with_target quote parse t
          ])
            w).1
  processed none w = inl (kept_terminal failed [] w)
  processed (some t) w = with_target-Permits t w

  pub process-Permits :
      (w : World) → Permits (verdict w.target w.sc.spec) w (process quote parse w).1
  unfolding process request answer gets ◌>>=◌
  process-Permits w = by w.answers
    where
      by :
          (l : List Answer)
          → Permits
              (verdict w.target w.sc.spec)
              w
              (let (r, w') = answer l w in
                elim r as (λ r. Result Error CtrlResult × World) [
                  | ok u ↦
                      (elim w'.target as (λ o. World → Result Error CtrlResult × World) [
                        | none ↦ set_terminal_status failed []
                        | some t ↦ with_target quote parse t
                      ])
                        w'
                  | err e ↦ (err e, w')
                ]).1
      by [] = processed w.target w
      by (accepted ∷ l) = processed w.target (record w { answers = l })
      by (refused ∷ l) = inl refl
