-- ===== src/Registry/Cache.antt =====
-- The cache of internal/registry/resolver.go.
use openclaw_operator.Prelude.{
  ℕ, ◌+◌, ◌<◌, ◌≤◌, String, ◌≡◌, ◌≢◌, refl, sym, subst, none, some, Result, err, List, arith,
  eq_iff, eq_refl, ok,
}
use openclaw_operator.GoMap
use openclaw_operator.GoMap.{GoMap}
use openclaw_operator.Registry.{Client, CacheEntry, Error}
use openclaw_operator.Registry.Resolver.{fetch_tags, get_tags}

remembered :
    (client : Client) (ttl now : ℕ) (repository : String) (cache : GoMap CacheEntry)
    (tags : List String)
    → GoMap.get repository cache ≡ none
    → fetch_tags client repository ≡ ok tags
    → (get_tags client ttl now repository cache).1
      ≡ GoMap.set repository (record { tags = tags; fetched_at = now }) cache
unfolding get_tags
remembered client ttl now repository cache tags missing fetched = ground (arith, missing, fetched)

-- An entry whose time to live is over is not looked at.
refetched :
    (client : Client) (ttl now : ℕ) (repository : String) (cache : GoMap CacheEntry)
    (entry : CacheEntry)
    → GoMap.get repository cache ≡ some entry
    → entry.fetched_at + ttl ≤ now
    → (get_tags client ttl now repository cache).0 ≡ fetch_tags client repository
unfolding get_tags
refetched client ttl now repository cache entry there over = by (fetch_tags client repository) refl
  where
    by :
        (r : Result Error (List String))
        → fetch_tags client repository ≡ r
        → (get_tags client ttl now repository cache).0 ≡ fetch_tags client repository
    by (ok tags) e = ground (arith, there, over, e)
    by (err x) e = ground (arith, there, over, e)

-- Where the cache has no entry of a repository and its tags are fetched, they are given again from the
-- cache while the time to live is not over, whatever the registry would answer then; once it is over,
-- they are fetched again; and the entries of other repositories stay as they are.
pub get_tags-cached :
    (client later : Client) (ttl now now' expired : ℕ) (repository : String)
    (cache : GoMap CacheEntry) (tags : List String)
    → GoMap.get repository cache ≡ none
    → fetch_tags client repository ≡ ok tags
    → now' < now + ttl
    → now + ttl ≤ expired
    → let cache' = (get_tags client ttl now repository cache).1 in
      (get_tags later ttl now' repository cache' ≡ (ok tags, cache'))
      × ((get_tags later ttl expired repository cache').0 ≡ fetch_tags later repository)
      × ((other : String) → other ≢ repository → GoMap.get other cache' ≡ GoMap.get other cache)
unfolding get_tags
get_tags-cached client later ttl now now' expired repository cache tags missing fetched fresh over =
    let entry : CacheEntry = record { tags = tags; fetched_at = now } in
    (
      ground (
        arith,
        missing,
        fetched,
        fresh,
        GoMap.get-set repository repository entry cache,
        eq_refl repository,
      ),
      subst
          (λ (m : GoMap CacheEntry).
            (get_tags later ttl expired repository m).0 ≡ fetch_tags later repository)
          (sym (remembered client ttl now repository cache tags missing fetched))
          (refetched later ttl expired repository (GoMap.set repository entry cache) entry
            (ground (arith, GoMap.get-set repository repository entry cache, eq_refl repository))
            over),
      λ other p. ground (
        arith,
        missing,
        fetched,
        p,
        GoMap.get-set repository other entry cache,
        eq_iff repository other,
      ),
    )
