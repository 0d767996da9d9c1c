-- ===== src/AutoUpdate/S3/Reads.antt =====
-- What `getS3Credentials` and `reconcileS3MirrorSecret` of internal/controller/s3.go keep and tell.
use openclaw_operator.Prelude.{String, ◌≡◌, ◌≢◌, refl, Option, none, some, arith, Result, ok, err}
use openclaw_operator.GoMap.{GoMap}
use openclaw_operator.AutoUpdate.{World, Error, not_found}
use openclaw_operator.AutoUpdate.Api.{pure, raise, request, on_option, on_result}
use openclaw_operator.AutoUpdate.Api.Triples.{
  Triple, Ends, Triple-bind, Triple-if, Triple-gets, Triple-weaken, Triple-pure, Triple-raise,
  Triple-request, IsStable,
}
use openclaw_operator.AutoUpdate.S3.{
  S3Credentials, read_credentials, get_s3_credentials, reconcile_s3_mirror_secret,
}

credentials_there : (m : GoMap String) (e : Error) → read_credentials m ≡ err e → e ≢ not_found
unfolding read_credentials
credentials_there m e p q = ground (arith, p, q)

module _ {P : World → Type 0} (stable : IsStable P) where
  asked : Ends P request P
  asked = Triple-weaken request (λ w h. h) (λ a w h. h) (λ e w h. h.0) (Triple-request stable)

  pub Triple-reconcile_s3_mirror_secret :
      (creds : S3Credentials) → Ends P (reconcile_s3_mirror_secret creds) P
  unfolding reconcile_s3_mirror_secret
  Triple-reconcile_s3_mirror_secret creds =
      Triple-if _ _ _ (λ p. Triple-pure tt (λ w h. h))
        λ p. Triple-bind (λ a. P) request _ asked (λ u. asked)

  credentials_of :
      (m : GoMap String)
      → Triple P
          (on_result (read_credentials m) raise pure)
          (λ creds. P)
          (λ e w. P w × (e ≡ not_found → w.secret ≡ none))
  unfolding on_result pure raise
  credentials_of m = by (read_credentials m) refl
    where
      by :
          (r : Result Error S3Credentials)
          → read_credentials m ≡ r
          → Triple P
              (on_result r raise pure)
              (λ creds. P)
              (λ e w. P w × (e ≡ not_found → w.secret ≡ none))
      by (ok creds) p = record { at = λ w h. h }
      by (err e) p = record { at = λ w h. (h, λ q. absurd (credentials_there m e p q)) }

  read_secret :
      (o : Option (GoMap String))
      → Triple
          (λ w. P w × (w.secret ≡ o))
          (on_option o (raise not_found) (λ m. on_result (read_credentials m) raise pure))
          (λ creds. P)
          (λ e w. P w × (e ≡ not_found → w.secret ≡ none))
  unfolding on_option
  read_secret none = Triple-raise not_found (λ w h. (h.0, λ q. h.1))
  read_secret (some m) = record { at = λ w h. (credentials_of m).at w h.0 }

  pub Triple-get_s3_credentials :
      Triple P get_s3_credentials (λ creds. P) (λ e w. P w × (e ≡ not_found → w.secret ≡ none))
  unfolding get_s3_credentials
  Triple-get_s3_credentials =
      Triple-bind (λ a. P) request _
        (Triple-weaken request (λ w h. h) (λ a w h. h) (λ e w h. (h.0, λ p. absurd (h.1 p)))
          (Triple-request stable))
        λ u. Triple-gets (λ w. w.secret) _ read_secret
