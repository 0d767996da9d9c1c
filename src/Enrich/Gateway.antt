-- ===== src/Enrich/Gateway.antt =====
-- What the enrichments of `gateway` leave to the user, in internal/resources/configmap.go.
use openclaw_operator.Prelude.{
  String, ◌≡◌, ◌≢◌, refl, true, false, Option, none, some, arith, ◌==◌, eq_iff, eq_refl, not, ◌||◌,
  Option-cases, inl, inr, subst, if◌then◌else◌,
}
use openclaw_operator.GoMap.{or_else}
use openclaw_operator.Json.{Json, Fields, str, obj, get, set, doc, object_or_empty}
use openclaw_operator.Json.Laws.{get-set}
use openclaw_operator.Enrich.{
  enrich, gateway_default, enrich_gateway_mode, auth_step, enrich_gateway_auth, object_at, text_at,
  set_default,
}

-- What the enriched document has at a key, under a key of its gateway, and under a key of that.
abbrev pub at_key : String → Fields → Option Json
at_key k m = get k m

abbrev pub at_gateway : String → Fields → Option Json
at_gateway k m = get k (object_at "gateway" m)

abbrev pub at_auth : String → Fields → Option Json
at_auth k m = get k (object_at "auth" (object_at "gateway" m))

-- What a gateway key with a default leaves: the default where the user sets none, and every other key
-- of the document and of its gateway as it is.
abbrev KeepsGateway : String → Json → Fields → Fields → Type 0
KeepsGateway key v m m' =
    (at_gateway key m' ≡ or_else (at_gateway key m) (some v))
    × ((k : String) → k ≢ key → at_gateway k m' ≡ at_gateway k m)
    × ((k : String) → k ≢ "gateway" → get k m' ≡ get k m)

KeepsGateway-set :
    (key : String) (v : Json) (m : Fields)
    → at_gateway key m ≡ none
    → KeepsGateway key v m (set "gateway" (obj (set key v (object_at "gateway" m))) m)
unfolding object_or_empty
KeepsGateway-set key v m missing =
    let gw = object_at "gateway" m in
    let same = get-set "gateway" "gateway" (obj (set key v gw)) m in
    (
      ground (arith, same, eq_refl "gateway", get-set key key v gw, eq_refl key, missing),
      λ k p. ground (arith, same, eq_refl "gateway", get-set key k v gw, eq_iff key k, p),
      λ k p. ground (arith, get-set "gateway" k (obj (set key v gw)) m, eq_iff "gateway" k, p),
    )

KeepsGateway-same :
    (key : String) (v w : Json) (m : Fields) → at_gateway key m ≡ some w → KeepsGateway key v m m
KeepsGateway-same key v w m there = (ground (arith, there), λ k p. refl, λ k p. refl)

-- The mode of the gateway is "local" where the user sets none, and every other key of the document and
-- of its gateway stays as it is.
pub enrich_gateway_mode-keeps :
    (m m' : Fields)
    → enrich_gateway_mode (doc (obj m)) ≡ some (doc (obj m'))
    → (at_gateway "mode" m' ≡ or_else (at_gateway "mode" m) (some (str "local")))
      × ((k : String) → k ≢ "mode" → at_gateway k m' ≡ at_gateway k m)
      × ((k : String) → k ≢ "gateway" → get k m' ≡ get k m)
unfolding enrich_gateway_mode enrich gateway_default
enrich_gateway_mode-keeps m m' h = elim (Option-cases (at_gateway "mode" m)) [
  | inl missing ↦
      let same : set "gateway" (obj (set "mode" (str "local") (object_at "gateway" m))) m ≡ m' =
        ground (arith, h, missing) in
      subst (KeepsGateway "mode" (str "local") m) same
        (KeepsGateway-set "mode" (str "local") m missing)
  | inr (w, there) ↦
      let same : m ≡ m' = ground (arith, h, there) in
      subst (KeepsGateway "mode" (str "local") m) same
        (KeepsGateway-same "mode" (str "local") w m there)
]

get-set_default :
    (k j : String) (v : Json) (m : Fields)
    → get j (set_default k v m) ≡ (if k == j then or_else (get j m) (some v) else get j m)
get-set_default k j v m = ground (arith, get-set k j v m, eq_iff k j)

-- What the operator's token leaves in a document in which it is set.
abbrev pub IsTokenSet : String → Fields → Fields → Type 0
IsTokenSet token m m' =
    (at_auth "token" m' ≡ some (str token))
    × (at_auth "mode" m' ≡ or_else (at_auth "mode" m) (some (str "token")))
    × ((k : String) → k ≢ "token" → k ≢ "mode" → at_auth k m' ≡ at_auth k m)
    × ((k : String) → k ≢ "auth" → at_gateway k m' ≡ at_gateway k m)
    × ((k : String) → k ≢ "gateway" → get k m' ≡ get k m)

abbrev with_token : String → Fields → Fields
with_token token m =
    let gw = object_at "gateway" m in
    set "gateway"
      (obj (
        set "auth"
          (obj (set "token" (str token) (set_default "mode" (str "token") (object_at "auth" gw))))
          gw))
      m

IsTokenSet-with_token : (token : String) (m : Fields) → IsTokenSet token m (with_token token m)
unfolding object_or_empty
IsTokenSet-with_token token m =
    let gw = object_at "gateway" m in
    let auth = object_at "auth" gw in
    let moded = set_default "mode" (str "token") auth in
    let new = set "token" (str token) moded in
    let outer = get-set "gateway" "gateway" (obj (set "auth" (obj new) gw)) m in
    let inner = get-set "auth" "auth" (obj new) gw in
    (
      ground (arith, outer, inner, get-set "token" "token" (str token) moded),
      ground (
        arith,
        outer,
        inner,
        get-set "token" "mode" (str token) moded,
        get-set_default "mode" "mode" (str "token") auth,
      ),
      λ k p q. ground (
        arith,
        outer,
        inner,
        get-set "token" k (str token) moded,
        p,
        q,
        get-set_default "mode" k (str "token") auth,
        eq_iff "token" k,
        eq_iff "mode" k,
      ),
      λ k p. ground (arith, outer, get-set "auth" k (obj new) gw, eq_iff "auth" k, p),
      λ k p.
          ground
            (arith, get-set "gateway" k (obj (set "auth" (obj new) gw)) m, eq_iff "gateway" k, p),
    )

-- Where the user has set a token or the mode trusted-proxy, the document stays as it is. Otherwise
-- the token is set, the mode is "token" where the user sets none, and every other key of `auth`, of
-- the gateway and of the document stays as it is.
pub enrich_gateway_auth-keeps :
    (token : String) (m m' : Fields)
    → enrich_gateway_auth token (doc (obj m)) ≡ some (doc (obj m'))
    → let auth = object_at "auth" (object_at "gateway" m) in
      let by_user = not (text_at "token" auth == "") || text_at "mode" auth == "trusted-proxy" in
      (by_user ≡ true → m' ≡ m) × (by_user ≡ false → IsTokenSet token m m')
unfolding enrich_gateway_auth enrich auth_step
enrich_gateway_auth-keeps token m m' h = (
  λ p. ground (arith, h, p),
  λ p.
      let same : with_token token m ≡ m' = ground (arith, h, p) in
      subst (IsTokenSet token m) same (IsTokenSet-with_token token m),
)
