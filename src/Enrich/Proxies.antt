-- ===== src/Enrich/Proxies.antt =====
-- What `enrichConfigWithTrustedProxies` of internal/resources/configmap.go keeps.
use openclaw_operator.Prelude.{
  String, ◌≡◌, true, ◌||◌, some, arith, ◌==◌, subst, Bool-cases, inl, inr,
}
use openclaw_operator.Json.{Items, Fields, str, arr, obj, nil, cons, get, set, doc, object_or_empty}
use openclaw_operator.Json.Laws.{get-set}
use openclaw_operator.Enrich.{
  enrich, enrich_trusted_proxies, proxies_step, items_of, has_item, append_item, object_at,
}

has_item-append_item :
    (s t : String) (l : Items) → has_item s (append_item l (str t)) ≡ (has_item s l || t == s)
unfolding has_item append_item
has_item-append_item s t nil = ground arith
has_item-append_item s t (cons v l) = ground (arith, has_item-append_item s t l)

-- The trusted proxies of a document.
abbrev pub proxies : Fields → Items
proxies m = items_of (get "trustedProxies" (object_at "gateway" m))

-- The loopback range is trusted, and so is all that was trusted before.
abbrev AreTrusted : Fields → Fields → Type 0
AreTrusted m m' =
    (has_item "127.0.0.0/8" (proxies m') ≡ true)
    × ((s : String) → has_item s (proxies m) ≡ true → has_item s (proxies m') ≡ true)

abbrev with_loopback : Fields → Fields
with_loopback m =
    set "gateway"
      (obj (
        set "trustedProxies" (arr (append_item (proxies m) (str "127.0.0.0/8")))
          (object_at "gateway" m)))
      m

proxies-with_loopback :
    (m : Fields) → proxies (with_loopback m) ≡ append_item (proxies m) (str "127.0.0.0/8")
unfolding object_or_empty
proxies-with_loopback m =
    let gw = object_at "gateway" m in
    let l = arr (append_item (proxies m) (str "127.0.0.0/8")) in
    ground (
      arith,
      get-set "gateway" "gateway" (obj (set "trustedProxies" l gw)) m,
      get-set "trustedProxies" "trustedProxies" l gw,
    )

AreTrusted-with_loopback : (m : Fields) → AreTrusted m (with_loopback m)
AreTrusted-with_loopback m = (
  ground (
    arith,
    proxies-with_loopback m,
    has_item-append_item "127.0.0.0/8" "127.0.0.0/8" (proxies m),
  ),
  λ s h.
      ground (arith, proxies-with_loopback m, has_item-append_item s "127.0.0.0/8" (proxies m), h),
)

-- Afterwards the loopback range is among the trusted proxies, and so are all texts that the user
-- lists.
pub enrich_trusted_proxies-keeps :
    (m m' : Fields)
    → enrich_trusted_proxies (doc (obj m)) ≡ some (doc (obj m'))
    → (has_item "127.0.0.0/8" (proxies m') ≡ true)
      × ((s : String) → has_item s (proxies m) ≡ true → has_item s (proxies m') ≡ true)
unfolding enrich_trusted_proxies enrich proxies_step
enrich_trusted_proxies-keeps m m' h = elim (Bool-cases (has_item "127.0.0.0/8" (proxies m))) [
  | inl there ↦
      let same : m ≡ m' = ground (arith, h, there) in subst (AreTrusted m) same (there, λ s p. p)
  | inr missing ↦
      let same : with_loopback m ≡ m' = ground (arith, h, missing) in
      subst (AreTrusted m) same (AreTrusted-with_loopback m)
]
