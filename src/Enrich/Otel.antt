-- ===== src/Enrich/Otel.antt =====
-- What `enrichConfigWithOTelMetrics` of internal/resources/configmap.go leaves to the user.
use openclaw_operator.Prelude.{
  String, ◌≡◌, ◌≢◌, refl, ap, ◌∙◌, true, false, Option, none, some, arith, ◌==◌, eq_iff, subst,
  Option-cases, inl, inr, if◌then◌else◌,
}
use openclaw_operator.GoMap.{or_else}
use openclaw_operator.Json.{Json, Fields, str, bool, obj, get, set, doc, object_or_empty}
use openclaw_operator.Json.Laws.{get-set}
use openclaw_operator.Enrich.{
  enrich, enrich_otel_metrics, otel_step, otel_fields, otel_of, object_at, set_default,
}

-- `diagnostics.otel`, and a key of it.
abbrev pub otel_json : Fields → Option Json
otel_json m = get "otel" (object_at "diagnostics" m)

abbrev default_endpoint : Json
default_endpoint = str "http://localhost:4318"

-- The keys of the block with the operator's values where the user has none.
abbrev pub IsFilled : Fields → Fields → Type 0
IsFilled old new =
    (get "endpoint" new ≡ or_else (get "endpoint" old) (some (str "http://localhost:4318")))
    × (get "metrics" new ≡ or_else (get "metrics" old) (some (bool true)))
    × (get "enabled" new ≡ or_else (get "enabled" old) (some (bool true)))
    × ((k : String) → k ≢ "endpoint" → k ≢ "metrics" → k ≢ "enabled" → get k new ≡ get k old)

get-set_default :
    (k j : String) (v : Json) (m : Fields)
    → get j (set_default k v m) ≡ (if k == j then or_else (get j m) (some v) else get j m)
get-set_default k j v m = ground (arith, get-set k j v m, eq_iff k j)

abbrev filled : Fields → Fields
filled m =
    set_default "endpoint" (str "http://localhost:4318") (set_default "metrics" (bool true) m)

get-filled :
    (j : String) (m : Fields)
    → get j (filled m) ≡ (
        if "endpoint" == j
        then or_else (get j m) (some default_endpoint)
        else if "metrics" == j
        then or_else (get j m) (some (bool true))
        else get j m)
get-filled j m = ground (
  arith,
  get-set_default "endpoint" j default_endpoint (set_default "metrics" (bool true) m),
  get-set_default "metrics" j (bool true) m,
  eq_iff "endpoint" j,
  eq_iff "metrics" j,
  (eq_iff "endpoint" "metrics").1,
)

metrics_not_enabled : ◌≢◌ {A = String} "metrics" "enabled"
metrics_not_enabled p = ground (arith, (eq_iff "metrics" "enabled").1 p)

endpoint_not_enabled : ◌≢◌ {A = String} "endpoint" "enabled"
endpoint_not_enabled p = ground (arith, (eq_iff "endpoint" "enabled").1 p)

-- The block with `enabled` as it should be, filled in.
IsFilled-filled :
    (old base : Fields)
    → get "enabled" base ≡ or_else (get "enabled" old) (some (bool true))
    → ((k : String) → k ≢ "enabled" → get k base ≡ get k old)
    → IsFilled old (filled base)
IsFilled-filled old base enabled others = (
  get-filled "endpoint" base
      ∙ ap (λ o. or_else o (some default_endpoint)) (others "endpoint" endpoint_not_enabled),
  get-filled "metrics" base
      ∙ ap (λ o. or_else o (some (bool true))) (others "metrics" metrics_not_enabled),
  get-filled "enabled" base ∙ enabled,
  λ k p q r.
      ground (arith, get-filled k base, eq_iff "endpoint" k, eq_iff "metrics" k, p, q, others k r),
)

IsFilled-enabled :
    (old : Fields)
    → get "enabled" old ≡ none
    → IsFilled old (filled (set "enabled" (bool true) old))
IsFilled-enabled old missing =
    IsFilled-filled old (set "enabled" (bool true) old)
      (ground (arith, get-set "enabled" "enabled" (bool true) old, missing))
      (λ k p. ground (arith, get-set "enabled" k (bool true) old, eq_iff "enabled" k, p))

IsFilled-kept : (old : Fields) (v : Json) → get "enabled" old ≡ some v → IsFilled old (filled old)
IsFilled-kept old v there = IsFilled-filled old old (ground (arith, there)) (λ k p. refl)

some-eq : {a b : Fields} → some a ≡ some b → a ≡ b
some-eq p = cc

IsFilled-by :
    (old new : Fields) (o : Option Json)
    → get "enabled" old ≡ o
    → ◌≡◌ {A = Option Fields}
        (elim o [
          | none ↦ some (filled (set "enabled" (bool true) old))
          | some (bool false) ↦ none
          | some v ↦ some (filled old)
        ])
        (some new)
    → IsFilled old new
IsFilled-by old new none e h = subst (IsFilled old) (some-eq h) (IsFilled-enabled old e)
IsFilled-by old new (some (bool false)) e h = ground (arith, h)
IsFilled-by old new (some v) e h = subst (IsFilled old) (some-eq h) (IsFilled-kept old v e)

IsFilled-otel_fields : (old new : Fields) → otel_fields old ≡ some new → IsFilled old new
unfolding otel_fields
IsFilled-otel_fields old new h = IsFilled-by old new (get "enabled" old) refl h

otel_fields-none :
    (old : Fields)
    → (get "enabled" old ≡ some (bool false) → otel_fields old ≡ none)
      × (otel_fields old ≡ none → get "enabled" old ≡ some (bool false))
unfolding otel_fields
otel_fields-none old = ground arith

abbrev with_otel : Fields → Fields → Fields
with_otel new m = set "diagnostics" (obj (set "otel" (obj new) (object_at "diagnostics" m))) m

otel_json-with_otel : (new m : Fields) → otel_json (with_otel new m) ≡ some (obj new)
unfolding object_or_empty
otel_json-with_otel new m =
    let diag = object_at "diagnostics" m in
    ground (
      arith,
      get-set "diagnostics" "diagnostics" (obj (set "otel" (obj new) diag)) m,
      get-set "otel" "otel" (obj new) diag,
    )

-- Where `diagnostics.otel` is an object or missing, a user who sets `enabled` to false keeps the
-- document as it is. Otherwise the block has the endpoint, `metrics` and `enabled` that the user sets,
-- the operator's values where the user sets none, and every other key as it was.
pub enrich_otel_metrics-keeps :
    (m m' old : Fields)
    → otel_of (otel_json m) ≡ some old
    → enrich_otel_metrics (doc (obj m)) ≡ some (doc (obj m'))
    → (get "enabled" old ≡ some (bool false) → m' ≡ m)
      × (get "enabled" old ≢ some (bool false)
          → (new : Fields) × (otel_json m' ≡ some (obj new)) × IsFilled old new)
unfolding enrich_otel_metrics enrich otel_step
enrich_otel_metrics-keeps m m' old block h = elim (Option-cases (otel_fields old)) [
  | inl stays ↦
      (λ p. ground (arith, h, block, stays), λ p. absurd (p ((otel_fields-none old).1 stays)))
  | inr (new, fields) ↦ (
    λ p. ground (arith, fields, (otel_fields-none old).0 p),
    λ p.
        let same : with_otel new m ≡ m' = ground (arith, h, block, fields) in
        (
          new,
          subst (λ x. otel_json x ≡ some (obj new)) same (otel_json-with_otel new m),
          IsFilled-otel_fields old new fields,
        ),
  )
]
