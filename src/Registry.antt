-- ===== src/Registry.antt =====
-- The resolver of internal/registry/resolver.go. The HTTP client and the resolution of a link
-- against a URL are parameters.
pub mod Resolver
pub mod Latest
pub mod Cache
pub mod Repository
use openclaw_operator.Prelude.{ℕ, String, Option, List}

-- What the resolver reads of a response. `tags` and `token` are what decoding the body gives, none
-- where the body is not JSON; a missing header is the empty text.
pub record Response : Type 0 where
  pub status_code : ℕ
  pub tags : Option (List String)
  pub token : Option String
  pub link : String
  pub www_authenticate : String

-- The client: the response to a GET of a URL with a bearer token, where "" is none; and
-- `base.ResolveReference(ref).String()`, where none is an error of `url.Parse`.
pub record Client : Type 0 where
  pub get : String → String → Option Response
  pub resolve_reference : String → String → Option String

pub record CacheEntry : Type 0 where
  pub tags : List String
  pub fetched_at : ℕ

pub data Error : Type 0 where
  invalid_repository invalid_link request_failed not_decoded no_realm no_stable_tags : Error
  unexpected_status : ℕ → Error
