-- ===== src/Tests/Enrich.antt =====
-- The theorems on the enrichment at concrete documents.
use openclaw_operator.Prelude.{◌≡◌, refl, true, false, not, ◌||◌, none, some, ◌==◌}
use openclaw_operator.Json.{
  Fields, null, bool, str, arr, obj, nil, cons, end, field, get, set, object_or_empty, doc,
}
use openclaw_operator.Enrich.{
  enrich, gateway_default, enrich_gateway_mode, auth_step, enrich_gateway_auth, browser_step,
  set_profile, enrich_browser, object_at, text_at,
}
use openclaw_operator.Enrich.Gateway.{enrich_gateway_auth-keeps, IsTokenSet}

-- The document `null` decodes into a nil map, and writing its gateway panics.
enrich_gateway_mode_null : enrich_gateway_mode (doc null) ≡ none
unfolding enrich_gateway_mode enrich gateway_default object_or_empty get
enrich_gateway_mode_null = refl

-- {"gateway":{"bind":"lan"}}
abbrev base : Fields
base = field "gateway" (obj (field "bind" (str "lan") end)) end

abbrev moded : Fields
moded = field "gateway" (obj (field "bind" (str "lan") (field "mode" (str "local") end))) end

abbrev with_auth : Fields
with_auth =
    field "gateway"
      (obj (
        field "bind" (str "lan")
          (field "auth" (obj (field "mode" (str "token") (field "token" (str "t") end))) end)))
      end

enrich_gateway_auth-keeps_example :
    let auth = object_at "auth" (object_at "gateway" base) in
    let by_user = not (text_at "token" auth == "") || text_at "mode" auth == "trusted-proxy" in
    (by_user ≡ true → with_auth ≡ base) × (by_user ≡ false → IsTokenSet "t" base with_auth)
unfolding enrich_gateway_auth enrich auth_step object_or_empty get set
enrich_gateway_auth-keeps_example = enrich_gateway_auth-keeps "t" base with_auth refl

-- {"diagnostics":{"otel":{"metrics":false}}}
abbrev partial_block : Fields
partial_block = field "metrics" (bool false) end

abbrev diagnosed : Fields
diagnosed = field "diagnostics" (obj (field "otel" (obj partial_block) end)) end

abbrev enriched : Fields
enriched =
    field "diagnostics"
      (obj (
        field "otel"
          (obj (
            field "metrics" (bool false)
              (field "enabled" (bool true) (field "endpoint" (str "http://localhost:4318") end))))
          end))
      end

abbrev trusting : Fields
trusting =
    field "gateway"
      (obj (
        field "bind" (str "lan") (field "trustedProxies" (arr (cons (str "127.0.0.0/8") nil)) end)))
      end

-- Both profiles of the browser point at the sidecar.
enrich_browser_empty :
    enrich_browser (doc (obj end))
    ≡ some (
        doc (
          obj (
            field "browser"
              (obj (
                field "defaultProfile" (str "default") (
                  field "attachOnly" (bool true) (
                    field "profiles"
                      (obj (
                        field "default"
                          (obj (field "cdpUrl" (str "${OPENCLAW_CHROMIUM_CDP}") end))
                          (field "chrome"
                            (obj (field "cdpUrl" (str "${OPENCLAW_CHROMIUM_CDP}") end))
                            end)))
                      end))))
              end)))
unfolding enrich_browser enrich browser_step set_profile object_or_empty get set
enrich_browser_empty = refl
