-- ===== src/Registry/Resolver.antt =====
-- The functions of internal/registry/resolver.go.
use openclaw_operator.Prelude.{
  ℕ, zero, suc, ◌+◌, String, Bool, not, Option, none, some, List, [], ◌∷◌, ◌++◌, concat, leb, ltb,
  eqb, ◌==◌, if◌then◌else◌, Result, ok, err, slice, loop,
}
use text.Mathlib.Text.{starts_with, find?}
use openclaw_operator.GoMap
use openclaw_operator.GoMap.{GoMap}
use openclaw_operator.Semver.{Semver}
use openclaw_operator.Registry.{
  Client, CacheEntry, Error, invalid_repository, invalid_link, request_failed, not_decoded,
  no_realm, no_stable_tags, unexpected_status,
}
use openclaw_operator.GoStrings.{split, cut, trim_space, trim_quotes, has_text, trim_prefix}

abbrev pub max_pages : ℕ
max_pages = 100

-- `parseRepository`
unfoldable pub parse_repository : String → Result Error (String × String)
parse_repository repository = elim (cut 47 repository) [
  | none ↦ err invalid_repository
  | some p ↦ if has_text p.0 "." then ok p else err invalid_repository
]

-- One part of the challenge.
abbrev challenge_part : String × String → String → String × String
challenge_part (realm, service) part =
    let trimmed = trim_space part in
    if starts_with trimmed "realm="
    then (trim_quotes (trim_prefix trimmed "realm="), service)
    else if starts_with trimmed "service="
    then (realm, trim_quotes (trim_prefix trimmed "service="))
    else (realm, service)

-- `parseAuthChallenge`
unfoldable pub parse_auth_challenge : String → String × String
parse_auth_challenge header = loop challenge_part ("", "") (split 44 (trim_prefix header "Bearer "))

-- The path between "<" and ">" of a part with `rel="next"`.
unfoldable pub link_path : String → Option String
link_path part = if not (has_text part "rel=\"next\"") then none else elim (find? part "<") [
  | none ↦ none
  | some start ↦ elim (find? part ">") [
    | none ↦ none
    | some end ↦ if leb end start then none else some (slice part (start + 1) end)
  ]
]

module _ (client : Client) where
  open client use {resolve_reference}

  -- The loop over the parts: the first part with a path is the link.
  unfoldable pub next_of_parts : String → List String → Result Error String
  next_of_parts base [] = ok ""
  next_of_parts base (part ∷ parts) =
      let rest = next_of_parts base parts in
      elim (link_path (trim_space part)) [
        | none ↦ rest
        | some path ↦ elim (resolve_reference base path) [
          | none ↦ err invalid_link
          | some url ↦ ok url
        ]
      ]

  -- `parseNextLink`
  unfoldable pub parse_next_link : String → String → Result Error String
  parse_next_link header base = if header == "" then ok "" else next_of_parts base (split 44 header)

  -- The request for the token, after the challenge.
  unfoldable pub exchange_token : String → String → String → Result Error String
  exchange_token realm service name =
      if realm == ""
      then err no_realm
      else elim (client.get
          (concat (realm ∷ "?scope=repository:" ∷ name ∷ ":pull&service=" ∷ service ∷ [])) "") [
            | none ↦ err request_failed
            | some r ↦
                if not (eqb r.status_code 200)
                then err (unexpected_status r.status_code)
                else elim r.token [ none ↦ err not_decoded | some token ↦ ok token ]
          ]

  -- `getToken`
  unfoldable pub get_token : String → String → Result Error String
  get_token host name = elim (client.get (concat ("https://" ∷ host ∷ "/v2/" ∷ [])) "") [
    | none ↦ err request_failed
    | some r ↦
        if eqb r.status_code 200
        then ok ""
        else if not (eqb r.status_code 401)
        then err (unexpected_status r.status_code)
        else let challenge = parse_auth_challenge r.www_authenticate in
          exchange_token challenge.0 challenge.1 name
  ]

  -- One page: its tags and the URL of the next one.
  unfoldable pub fetch_page : String → String → String → Result Error (List String × String)
  fetch_page token base url = elim (client.get url token) [
    | none ↦ err request_failed
    | some r ↦
        if not (eqb r.status_code 200) then err (unexpected_status r.status_code) else elim r.tags [
          | none ↦ err not_decoded
          | some tags ↦ elim (parse_next_link r.link base) [
            | err e ↦ err e
            | ok next ↦ ok (tags, next)
          ]
        ]
  ]

  -- The loop over the pages.
  unfoldable pub fetch_pages :
      ℕ → String → String → String → List String → Result Error (List String)
  fetch_pages zero token base url all = ok all
  fetch_pages (suc n) token base url all = elim (fetch_page token base url) [
    | err e ↦ err e
    | ok p ↦ if p.1 == "" then ok (all ++ p.0) else fetch_pages n token base p.1 (all ++ p.0)
  ]

  -- `fetchTags`
  unfoldable pub fetch_tags : String → Result Error (List String)
  fetch_tags repository = elim (parse_repository repository) [
    | err e ↦ err e
    | ok p ↦ elim (get_token p.0 p.1) [
      | err e ↦ err e
      | ok token ↦
          let base = concat ("https://" ∷ p.0 ∷ "/v2/" ∷ p.1 ∷ "/tags/list" ∷ []) in
          fetch_pages max_pages token base (concat (base ∷ "?n=10000" ∷ [])) []
    ]
  ]

  -- `getTags`, with the cache, at a time and with the time that an entry lasts.
  unfoldable pub get_tags :
      ℕ → ℕ → String → GoMap CacheEntry → Result Error (List String) × GoMap CacheEntry
  get_tags ttl now repository cache =
      let fetched : Result Error (List String) × GoMap CacheEntry = elim (fetch_tags repository) [
        | err e ↦ (err e, cache)
        | ok tags ↦ (ok tags, GoMap.set repository (record { tags = tags; fetched_at = now }) cache)
      ] in
      elim (GoMap.get repository cache) [
        | none ↦ fetched
        | some entry ↦ if ltb now (entry.fetched_at + ttl) then (ok entry.tags, cache) else fetched
      ]

-- `LatestSemver`, behind the tags; `check` is the constraint, and is true where that is nil.
module _ (semver : Semver) (check : semver.Version → Bool) where
  open semver use {Version, parse, is_prerelease, greater}

  -- The version of a tag that is looked at.
  unfoldable pub candidate : String → Option Version
  candidate tag = elim (parse tag) [
    | none ↦ none
    | some v ↦ if is_prerelease v then none else if not (check v) then none else some v
  ]

  -- One round: the best version so far, with its tag.
  unfoldable pub better : Option (Version × String) → String → Option (Version × String)
  better best tag = elim (candidate tag) [
    | none ↦ best
    | some v ↦ elim best [
      | none ↦ some (v, tag)
      | some b ↦ if greater v b.0 then some (v, tag) else some b
    ]
  ]

  unfoldable pub latest_semver : List String → Result Error String
  latest_semver tags = elim (loop better none tags) [ none ↦ err no_stable_tags | some b ↦ ok b.1 ]
