-- ===== src/Tests/Registry.antt =====
-- The theorems on the resolver at a concrete registry, and runs of its parsers.
use openclaw_operator.Prelude.{
  ℕ, String, ◌≡◌, ◌≢◌, refl, Bool, true, none, some, List, [], ◌∷◌, append, arith, ◌==◌,
  if◌then◌else◌, ok,
}
use openclaw_operator.GoMap
use openclaw_operator.Registry.{Response, Client, CacheEntry}
use openclaw_operator.GoStrings.{split, trim_left, trim_right, cut}
use openclaw_operator.Registry.Resolver.{
  parse_auth_challenge, link_path, next_of_parts, parse_next_link, fetch_page, fetch_pages,
  get_tags, candidate, better, latest_semver, fetch_tags, parse_repository, get_token,
}
use openclaw_operator.Registry.Latest.{IsLatest, latest_semver-IsLatest}
use openclaw_operator.Registry.Cache.{get_tags-cached}
use openclaw_operator.Tests.Fixtures.{numbered}

abbrev any_version : ℕ → Bool
any_version v = true

latest_semver-IsLatest_example : IsLatest numbered any_version ("v1" ∷ "edge" ∷ "v2" ∷ []) "v2"
unfolding latest_semver better candidate
latest_semver-IsLatest_example =
    latest_semver-IsLatest numbered any_version ("v1" ∷ "edge" ∷ "v2" ∷ []) "v2" refl

parse_auth_challenge_bearer :
    parse_auth_challenge "Bearer realm=\"https://ghcr.io/token\",service=\"ghcr.io\""
    ≡ ("https://ghcr.io/token", "ghcr.io")
unfolding parse_auth_challenge split trim_left trim_right
parse_auth_challenge_bearer = refl

link_path_next :
    link_path "</v2/a/tags/list?last=x&n=2>; rel=\"next\"" ≡ some "/v2/a/tags/list?last=x&n=2"
unfolding link_path
link_path_next = refl

-- A registry without authentication, of two pages.
abbrev page : List String → String → Response
page tags link = record {
  status_code = 200;
  tags = some tags;
  token = none;
  link = link;
  www_authenticate = "";
}

abbrev first_url : String
first_url = "https://ghcr.io/v2/a/b/tags/list?n=10000"

abbrev client : Client
client = record {
  get = λ url token.
      if url == "https://ghcr.io/v2/"
      then some (page [] "")
      else if url == first_url
      then some (page ("v1" ∷ []) "</next>; rel=\"next\"")
      else if url == "https://ghcr.io/next"
      then some (page ("v2" ∷ []) "")
      else none;
  resolve_reference = λ base path. some (append "https://ghcr.io" path);
}

abbrev base : String
base = "https://ghcr.io/v2/a/b/tags/list"

-- A registry that does not answer any more.
abbrev silent : Client
silent = record { get = λ url token. none; resolve_reference = λ base path. none }

get_tags-cached_example :
    let cache = (get_tags client 10 5 "ghcr.io/a/b" []).1 in
    (get_tags silent 10 14 "ghcr.io/a/b" cache ≡ (ok ("v1" ∷ "v2" ∷ []), cache))
    × ((get_tags silent 10 15 "ghcr.io/a/b" cache).0 ≡ fetch_tags silent "ghcr.io/a/b")
    × ((other : String)
        → other ≢ "ghcr.io/a/b"
        → GoMap.get other cache ≡ GoMap.get {V = CacheEntry} other [])
unfolding GoMap.get fetch_tags parse_repository cut get_token fetch_pages fetch_page parse_next_link
    next_of_parts link_path split trim_left trim_right
get_tags-cached_example =
    get_tags-cached client silent 10 5 14 15 "ghcr.io/a/b" [] ("v1" ∷ "v2" ∷ []) refl refl
      (omega arith) (omega arith)
