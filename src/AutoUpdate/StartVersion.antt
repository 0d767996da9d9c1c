-- ===== src/AutoUpdate/StartVersion.antt =====
-- The versions that `reconcileAutoUpdate` of internal/controller/autoupdate.go compares.
use openclaw_operator.Prelude.{
  String, ◌≡◌, ◌≢◌, refl, ap, ◌∙◌, true, Option, none, some, arith, eq_iff,
}
use openclaw_operator.Semver.{Semver}
use openclaw_operator.AutoUpdate.{World}
use openclaw_operator.AutoUpdate.Api.{
  ◌>>=◌, gets, pure, no_requeue, on_option, modify_status, emit, patch_tag, update, request, answer,
  store_tag,
}
use openclaw_operator.AutoUpdate.Check.{
  start_update, resolve_latest, remaining_failure, offer_update, compare_versions,
}

module _ (semver : Semver) where
  open semver use {Version, parse, greater}

  abbrev pub AreNewer : Option Version → Option Version → Type 0
  AreNewer (some l) (some c) = greater l c ≡ true
  AreNewer _ _ = ⊥

  -- Both are versions, and the first is the greater.
  abbrev pub IsNewer : String → String → Type 0
  IsNewer v tag = AreNewer (parse v) (parse tag)

  offer_update-pending :
      (v current : String) (latest_ver current_ver : Version) (w : World)
      → w.inst.pending_version ≡ ""
      → let p = (offer_update semver v current latest_ver current_ver w).1.inst.pending_version in
        p ≢ ""
        → (p ≡ v)
          × (greater latest_ver current_ver ≡ true)
          × (remaining_failure semver latest_ver w.inst.failed_version ≢ v)
  unfolding offer_update start_update modify_status emit gets pure ◌>>=◌
  offer_update-pending v current latest_ver current_ver w idle started =
      ground
        (arith, idle, started, eq_iff (remaining_failure semver latest_ver w.inst.failed_version) v)

  pub resolve_latest-pending :
      (v : String) (w : World)
      → w.inst.pending_version ≡ ""
      → w.stored.pending_version ≡ ""
      → (resolve_latest v w).1.inst.pending_version ≡ ""
  unfolding resolve_latest patch_tag store_tag update request answer modify_status emit gets pure
      ◌>>=◌
  resolve_latest-pending v w p q = ground (arith, p, q)

  -- A version that failed stays remembered while it is the latest.
  remaining_failure_self :
      (v : String) (l : Version) → parse v ≡ some l → remaining_failure semver l v ≡ v
  unfolding remaining_failure
  remaining_failure_self v l p = ground (arith, p, semver.greater_irrefl l)

  offer_update-untried :
      (v current : String) (l c : Version) (w : World)
      → parse v ≡ some l
      → w.inst.pending_version ≡ ""
      → let p = (offer_update semver v current l c w).1.inst.pending_version in
        p ≢ "" → (p ≡ v) × (greater l c ≡ true) × (w.inst.failed_version ≢ v)
  offer_update-untried v current l c w parsed idle started =
      let (same, newer, untried) = offer_update-pending v current l c w idle started in
      (
        same,
        newer,
        λ q. untried (ap (remaining_failure semver l) q ∙ remaining_failure_self v l parsed),
      )

  compare-cases :
      (v current : String) (c l : Option Version) (w : World)
      → parse v ≡ l
      → w.inst.pending_version ≡ ""
      → let p =
          (on_option c
            (pure no_requeue)
            (λ c. on_option l (pure no_requeue) (λ l. offer_update semver v current l c))
            w).1.inst.pending_version in
        p ≢ "" → (p ≡ v) × AreNewer l c × (w.inst.failed_version ≢ v)
  unfolding on_option pure
  compare-cases v current none l w parsed idle started = absurd (started idle)
  compare-cases v current (some c) none w parsed idle started = absurd (started idle)
  compare-cases v current (some c) (some l) w parsed idle started =
      offer_update-untried v current l c w parsed idle started

  pub compare_versions-pending :
      (v current : String) (w : World)
      → w.inst.pending_version ≡ ""
      → let p = (compare_versions semver v current w).1.inst.pending_version in
        p ≢ "" → (p ≡ v) × IsNewer v current × (w.inst.failed_version ≢ v)
  unfolding compare_versions
  compare_versions-pending v current w idle started =
      compare-cases v current (parse current) (parse v) w refl idle started
