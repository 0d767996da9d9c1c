-- ===== src/SelfConfig/Reconcile/Permitted/Done.antt =====
-- What a reconcile of a self-config request applies, and what it does with one that is done, by the
-- phase of the request.
use openclaw_operator.Prelude.{
  String, ◌≡◌, refl, ◌⊎◌, inl, inr, Bool, true, false, Option, none, some, List, [], ◌∷◌, ◌++◌,
  if◌then◌else◌, Result, ok, err, arith, sym, subst,
}
use openclaw_operator.GoMap.{GoMap}
use openclaw_operator.SelfConfig.{ApplySpec}
use openclaw_operator.SelfConfig.Reconcile.{
  World, OpenClawSelfConfig, applied, Answer, accepted, refused, Error, CtrlResult, ◌>>=◌, pure,
  gets, update, answer, request, delete_request, clean_up, is_terminal, process, with_request,
  reconcile,
}
use openclaw_operator.SelfConfig.Reconcile.Verdict.{verdict}
use openclaw_operator.SelfConfig.Reconcile.Permitted.{
  Permits, true_not_false, IsExpired, IsSettled, process-Permits,
}

module _ (quote : String → String) (parse : String → Option (GoMap String)) where
  clean_up-IsSettled :
      (sc : OpenClawSelfConfig) (w : World)
      → w.stored ≡ some sc
      → IsSettled sc w (clean_up sc.status.completion_time w).1
  unfolding clean_up delete_request gets pure update request answer ◌>>=◌
  clean_up-IsSettled sc w s = ground (arith, s)

  -- By the phase of the request that is read.
  IsDone : OpenClawSelfConfig → World → World → Type 0
  IsDone sc w w' =
      (is_terminal sc.status.phase ≡ true → IsSettled sc w w')
      × (is_terminal sc.status.phase ≡ false → Permits (verdict w.target sc.spec) w w')

  with_request-IsDone :
      (sc : OpenClawSelfConfig) (w : World)
      → w.stored ≡ some sc
      → IsDone sc w (with_request quote parse sc w).1
  unfolding IsDone with_request update ◌>>=◌
  with_request-IsDone sc w s = by (is_terminal sc.status.phase)
    where
      by :
          (b : Bool)
          → (b ≡ true
              → IsSettled sc w
                  ((if b then clean_up sc.status.completion_time else process quote parse)
                    (record w { sc = sc })).1)
            × (b ≡ false
                → Permits
                    (verdict w.target sc.spec)
                    w
                    ((if b then clean_up sc.status.completion_time else process quote parse)
                      (record w { sc = sc })).1)
      by true =
          (λ e. clean_up-IsSettled sc (record w { sc = sc }) s, λ e. absurd (true_not_false e))
      by false = (
        λ e. absurd (true_not_false (sym e)),
        λ e. (process-Permits quote parse) (record w { sc = sc }),
      )

  reconcile-IsDone :
      (sc : OpenClawSelfConfig) (w : World)
      → w.stored ≡ some sc
      → IsDone sc w (reconcile quote parse w).1
  unfolding IsDone reconcile request answer gets ◌>>=◌
  reconcile-IsDone sc w s = by w.answers
    where
      found :
          (w' : World)
          → w'.stored ≡ some sc
          → IsDone sc w'
              ((elim w'.stored as (λ o. World → Result Error CtrlResult × World) [
                | none ↦ pure (record { requeue_after = 0 })
                | some r ↦ with_request quote parse r
              ])
                w').1
      found w' e =
          subst
            (λ (o : Option OpenClawSelfConfig).
              IsDone sc w'
                ((elim o as (λ o. World → Result Error CtrlResult × World) [
                  | none ↦ pure (record { requeue_after = 0 })
                  | some r ↦ with_request quote parse r
                ])
                  w').1)
            (sym e) (with_request-IsDone sc w' e)

      by :
          (l : List Answer)
          → IsDone sc w
              (let (r, w') = answer l w in
                elim r as (λ r. Result Error CtrlResult × World) [
                  | ok u ↦
                      (elim w'.stored as (λ o. World → Result Error CtrlResult × World) [
                        | none ↦ pure (record { requeue_after = 0 })
                        | some r ↦ with_request quote parse r
                      ])
                        w'
                  | err e ↦ (err e, w')
                ]).1
      by [] = found w s
      by (accepted ∷ l) = found (record w { answers = l }) s
      by (refused ∷ l) = (λ e. (refl, inl s), λ e. inl refl)

-- Whatever the server answers, a reconcile of a stored request applies nothing, or it applies the
-- spec that the request's verdict says, once: and then the request is in no terminal phase, so that
-- one that was denied, has failed or was applied is never applied.
pub reconcile-IsPermitted :
    (quote : String → String) (parse : String → Option (GoMap String)) (w : World)
    (sc : OpenClawSelfConfig)
    → w.stored ≡ some sc
    → let w' = (reconcile quote parse w).1 in
      (w'.patches ≡ w.patches)
      ⊎ ((spec : ApplySpec) × (w'.patches ≡ w.patches ++ spec ∷ [])
          × (verdict w.target sc.spec ≡ (applied, spec ∷ []))
          × (is_terminal sc.status.phase ≡ false))
unfolding IsDone
reconcile-IsPermitted quote parse w sc s = decide (is_terminal sc.status.phase) refl
  where
    grown :
        is_terminal sc.status.phase ≡ false
        → Permits (verdict w.target sc.spec) w (reconcile quote parse w).1
        → ((reconcile quote parse w).1.patches ≡ w.patches)
          ⊎ ((spec : ApplySpec) × ((reconcile quote parse w).1.patches ≡ w.patches ++ spec ∷ [])
              × (verdict w.target sc.spec ≡ (applied, spec ∷ []))
              × (is_terminal sc.status.phase ≡ false))
    grown t (inl kept) = inl kept
    grown t (inr (spec, p, v)) = inr (spec, p, v, t)

    decide :
        (b : Bool)
        → is_terminal sc.status.phase ≡ b
        → ((reconcile quote parse w).1.patches ≡ w.patches)
          ⊎ ((spec : ApplySpec) × ((reconcile quote parse w).1.patches ≡ w.patches ++ spec ∷ [])
              × (verdict w.target sc.spec ≡ (applied, spec ∷ []))
              × (is_terminal sc.status.phase ≡ false))
    decide true t = inl ((reconcile-IsDone quote parse sc w s).0 t).0
    decide false t = grown t ((reconcile-IsDone quote parse sc w s).1 t)

-- Whatever the server answers, a request in a terminal phase keeps its phase and its status: a
-- reconcile leaves the stored request as it is, or deletes it, and that only where the time to live
-- of one hour is over since its completion.
pub reconcile-IsSettled :
    (quote : String → String) (parse : String → Option (GoMap String)) (w : World)
    (sc : OpenClawSelfConfig)
    → w.stored ≡ some sc
    → is_terminal sc.status.phase ≡ true
    → let w' = (reconcile quote parse w).1 in
      (w'.stored ≡ some sc) ⊎ ((w'.stored ≡ none) × IsExpired sc.status.completion_time w.now)
unfolding IsDone
reconcile-IsSettled quote parse w sc s t = ((reconcile-IsDone quote parse sc w s).0 t).1
