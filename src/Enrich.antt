-- ===== src/Enrich.antt =====
-- The enrichment of the configuration in internal/resources/configmap.go.
pub mod Gateway
pub mod Otel
pub mod Proxies
use openclaw_operator.Prelude.{
  ℕ, String, Bool, true, false, not, ◌&&◌, ◌||◌, Option, none, some, List, [], ◌∷◌, ◌==◌,
  if◌then◌else◌,
}
use openclaw_operator.Json.{
  Json, Items, Fields, Raw, null, bool, num, str, arr, obj, nil, cons, end, field, get, set,
  object_or_empty, empty, malformed, doc,
}

-- The map that a document decodes into: an error, a nil map (the document `null`), or an object.
pub data Decoded : Type 0 where
  no_object nil_map : Decoded
  object : Fields → Decoded

abbrev pub decode : Raw → Decoded
decode (doc (obj m)) = object m
decode (doc null) = nil_map
decode _ = no_object

-- What a change, none where there is nothing to do, makes of a document. Where the map is nil,
-- writing a key panics: that is none.
abbrev pub write : Raw → Decoded → Option Fields → Option Raw
write raw no_object changed = some raw
write raw d none = some raw
write raw nil_map (some m) = none
write raw (object _) (some m) = some (doc (obj m))

abbrev pub fields_of : Decoded → Fields
fields_of (object m) = m
fields_of _ = end

unfoldable pub enrich : (Fields → Option Fields) → Raw → Option Raw
enrich step raw = let d = decode raw in write raw d (step (fields_of d))

abbrev pub has : String → Fields → Bool
has k m = elim (get k m) [ none ↦ false | some v ↦ true ]

-- `if _, ok := m[k]; !ok { m[k] = v }`
abbrev pub set_default : String → Json → Fields → Fields
set_default k v m = if has k m then m else set k v m

-- The object at a key, made empty where there is none.
abbrev pub object_at : String → Fields → Fields
object_at k m = object_or_empty (get k m)

-- A key of `gateway` that the user may have set.
unfoldable pub gateway_default : String → Json → Fields → Option Fields
gateway_default k v config =
    let gw = object_at "gateway" config in
    if has k gw then none else some (set "gateway" (obj (set k v gw)) config)

-- `enrichConfigWithGatewayMode`
unfoldable pub enrich_gateway_mode : Raw → Option Raw
enrich_gateway_mode raw = enrich (gateway_default "mode" (str "local")) raw

-- `enrichConfigWithGatewayBind`; `proxied` is what `IsGatewayProxyEnabled` gives.
unfoldable pub enrich_gateway_bind : Bool → Raw → Option Raw
enrich_gateway_bind proxied raw =
    enrich (gateway_default "bind" (str (if proxied then "loopback" else "0.0.0.0"))) raw

-- The text at a key, or "" where there is no text.
abbrev pub text_at : String → Fields → String
text_at k m = elim (get k m) [ some (str s) ↦ s | _ ↦ "" ]

unfoldable pub auth_step : String → Fields → Option Fields
auth_step token config =
    let gw = object_at "gateway" config in
    let auth = object_at "auth" gw in
    if not (text_at "token" auth == "")
    then none
    else if text_at "mode" auth == "trusted-proxy"
    then none
    else some (
        set "gateway"
          (obj
            (set "auth" (obj (set "token" (str token) (set_default "mode" (str "token") auth))) gw))
          config)

-- `enrichConfigWithGatewayAuth`
unfoldable pub enrich_gateway_auth : String → Raw → Option Raw
enrich_gateway_auth token raw = enrich (auth_step token) raw

-- The fields of `diagnostics.otel`, none where the user has opted out.
unfoldable pub otel_fields : Fields → Option Fields
otel_fields otel =
    let rest = λ (m : Fields).
      set_default "endpoint" (str "http://localhost:4318") (set_default "metrics" (bool true) m) in
    elim (get "enabled" otel) [
      | none ↦ some (rest (set "enabled" (bool true) otel))
      | some (bool false) ↦ none
      | some v ↦ some (rest otel)
    ]

-- `diag["otel"]`: none where it is there and no object.
abbrev pub otel_of : Option Json → Option Fields
otel_of none = some end
otel_of (some (obj m)) = some m
otel_of (some v) = none

unfoldable pub otel_step : Fields → Option Fields
otel_step config =
    let diag = object_at "diagnostics" config in
    elim (otel_of (get "otel" diag)) [
      | none ↦ none
      | some otel ↦ elim (otel_fields otel) [
        | none ↦ none
        | some fields ↦ some (set "diagnostics" (obj (set "otel" (obj fields) diag)) config)
      ]
    ]

-- `enrichConfigWithOTelMetrics`
unfoldable pub enrich_otel_metrics : Raw → Option Raw
enrich_otel_metrics raw = enrich otel_step raw

abbrev is_text : String → Json → Bool
is_text s (str t) = t == s
is_text s _ = false

unfoldable pub has_item : String → Items → Bool
has_item s nil = false
has_item s (cons v l) = is_text s v || has_item s l

unfoldable pub append_item : Items → Json → Items
append_item nil w = cons w nil
append_item (cons v l) w = cons v (append_item l w)

abbrev pub items_of : Option Json → Items
items_of (some (arr l)) = l
items_of _ = nil

unfoldable pub proxies_step : Fields → Option Fields
proxies_step config =
    let gw = object_at "gateway" config in
    let proxies = items_of (get "trustedProxies" gw) in
    if has_item "127.0.0.0/8" proxies
    then none
    else some (
        set "gateway"
          (obj (set "trustedProxies" (arr (append_item proxies (str "127.0.0.0/8"))) gw)) config)

-- `enrichConfigWithTrustedProxies`
unfoldable pub enrich_trusted_proxies : Raw → Option Raw
enrich_trusted_proxies raw = enrich proxies_step raw

-- The loop over the entries of the skill packs.
unfoldable pub add_entries : Fields → Fields → Fields
add_entries entries end = entries
add_entries entries (field name v more) = add_entries (set_default name v entries) more

unfoldable pub skill_packs_step : Fields → Fields → Option Fields
skill_packs_step packs config =
    let skills = object_at "skills" config in
    let entries = add_entries (object_at "entries" skills) packs in
    some (set "skills" (obj (set "entries" (obj entries) skills)) config)

-- `enrichConfigWithSkillPacks`
unfoldable pub enrich_skill_packs : Fields → Raw → Option Raw
enrich_skill_packs packs raw = enrich (skill_packs_step packs) raw

-- One round of the loop over the profiles of the browser.
unfoldable pub set_profile : String → Fields → Fields
set_profile name profiles =
    let profile = object_at name profiles in
    let pointed =
      if has "cdpUrl" profile
      then profile
      else if has "cdpPort" profile
      then profile
      else set "cdpUrl" (str "${OPENCLAW_CHROMIUM_CDP}") profile in
    set name (obj pointed) profiles

unfoldable pub browser_step : Fields → Option Fields
browser_step config =
    let browser =
      set_default "attachOnly" (bool true)
        (set_default "defaultProfile" (str "default") (object_at "browser" config)) in
    let profiles = set_profile "chrome" (set_profile "default" (object_at "profiles" browser)) in
    some (set "browser" (obj (set "profiles" (obj profiles) browser)) config)

-- `enrichConfigWithBrowser`
unfoldable pub enrich_browser : Raw → Option Raw
enrich_browser raw = enrich browser_step raw
