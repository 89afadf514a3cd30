-- ===== src/Auth/ApiGate.antt =====
-- authenticate_api_request of xcap/authentication/auth.py: who may use the REST interface for a document.
use openxcap.Prelude.{
  ◌≡◌, ap, Bool, true, false, ◌&&◌, Option, none, some, List, ◌++◌, Str, codes, str_eq,
  if◌then◌else◌, Result, ok, err, ◌>>=◌, Dict, arith, Bool-cases, Option-cases, Result-cases, inl,
  inr,
}
use openxcap.Errors.{Fault, http, attribute_error}
use openxcap.Xpath.Tokens.{Scanner}
use openxcap.Uri.{XcapUri, parse_user}
use openxcap.Auth.{Config, parse_api_uri, is_ip_trusted, is_authorized, check_application}
use openxcap.Auth.Gate.{Login, AuthRequest, is_get, is_listed, authenticate_user}
use openxcap.Auth.Gate.Access.{IsOwner, pair_eq}

-- f'/{document.application}/users/{user}/{document.filename}'
unfoldable pub document_resource : Str → Str → Str → Str
document_resource application user filename =
    codes "/" ++ (application ++ (codes "/users/" ++ (user ++ (codes "/" ++ filename))))

module _ (login : Login) (config : Config) (applications public_get : List Str)
    (request : AuthRequest) (fresh application : Str) where
  -- behind the login: an application that is not there has no is_authorized
  admit_api : XcapUri → Str → Result Fault XcapUri
  unfolding check_application str_eq
  admit_api uri user =
      if is_listed application applications
      then (do done ← check_application user uri.user; ok uri)
      else err attribute_error

  -- behind the test of the address
  trusted_or_user :
      XcapUri
      → Str
      → login.nonces.Cache
      → Result Fault Bool
      → Result Fault XcapUri × login.nonces.Cache
  unfolding authenticate_user admit_api
  trusted_or_user uri realm cache (err e) = (err e, cache)
  trusted_or_user uri realm cache (ok true) = (ok uri, cache)
  trusted_or_user uri realm cache (ok false) =
      let (r, c) =
        authenticate_user login config applications public_get request fresh realm cache in
      ((do user ← r; admit_api uri user), c)

  -- from `realm` on
  realm_resource : XcapUri → Str → login.nonces.Cache → Result Fault XcapUri × login.nonces.Cache
  unfolding is_ip_trusted trusted_or_user str_eq
  realm_resource uri realm cache =
      let rest =
        trusted_or_user uri realm cache (is_ip_trusted login.inet_aton config request.client_ip) in
      if is_get request.method && is_listed uri.doc_selector.application_id public_get
      then (ok uri, cache)
      else rest

  -- authenticate_api_request, once the URI is parsed
  unfoldable pub authenticate_api_uri :
      XcapUri → login.nonces.Cache → Result Fault XcapUri × login.nonces.Cache
  unfolding realm_resource str_eq
  authenticate_api_uri uri cache =
      if str_eq uri.doc_selector.context (codes "global")
      then (ok uri, cache)
      else elim uri.user.domain [
        | none ↦ (err (http 404), cache)
        | some realm ↦ realm_resource uri realm cache
      ]

  -- authenticate_api_request, for a document of a user
  unfoldable pub authenticate_api_request :
      Scanner
      → (Str → Str)
      → Dict (Option Str)
      → Str
      → Str
      → login.nonces.Cache
      → Result Fault XcapUri × login.nonces.Cache
  unfolding parse_api_uri authenticate_api_uri document_resource
  authenticate_api_request scan unquote namespaces user filename cache =
      elim (parse_api_uri scan unquote namespaces config
        (document_resource application user filename)) [
          | err e ↦ (err e, cache)
          | ok uri ↦ authenticate_api_uri uri cache
        ]

  admit_api-ok :
      (uri u : XcapUri) (user : Str)
      → admit_api uri user ≡ ok u
      → (u ≡ uri) × (is_authorized (parse_user user none) uri.user ≡ true)
  unfolding admit_api check_application
  admit_api-ok uri u user h = elim (Bool-cases (is_listed application applications)) [
    | inr e ↦ cc (rw (e, admit_api) at h)
    | inl e ↦ elim (Bool-cases (is_authorized (parse_user user none) uri.user)) [
      | inr g ↦ cc (rw (e, g, admit_api) at h)
      | inl g ↦ let q = rw (e, g, admit_api) at h in (ground arith, g)
    ]
  ]

  trusted_or_user-IsOwner :
      (uri u : XcapUri) (realm : Str) (cache after : login.nonces.Cache)
      → uri.user.domain ≡ some realm
      → trusted_or_user uri realm cache (ok false) ≡ (ok u, after)
      → (u ≡ uri) × IsOwner login config applications public_get request fresh uri cache after
  unfolding trusted_or_user
  trusted_or_user-IsOwner uri u realm cache after d h =
      let r = authenticate_user login config applications public_get request fresh realm cache in
      elim (Result-cases r.0) [
        | inl (x, e) ↦ cc (rw e at h)
        | inr (user, e) ↦
            let g = rw e at h in
            let (same, owner) = admit_api-ok uri u user (ap (λ p. p.0) g) in
            (same, (realm, user, d, pair_eq r e (ap (λ p. p.1) h), owner))
      ]

  -- A request of the REST interface that is let in, for a document of a user, by a client that is not
  -- trusted, and that is no GET of an application open to all, has logged in as the owner of the
  -- document, and it is for the URI that was parsed.
  pub authenticate_api_uri-IsOwner :
      (uri u : XcapUri) (cache after : login.nonces.Cache)
      → str_eq uri.doc_selector.context (codes "global") ≡ false
      → (is_get request.method && is_listed uri.doc_selector.application_id public_get) ≡ false
      → is_ip_trusted login.inet_aton config request.client_ip ≡ ok false
      → authenticate_api_uri uri cache ≡ (ok u, after)
      → (u ≡ uri) × IsOwner login config applications public_get request fresh uri cache after
  unfolding authenticate_api_uri realm_resource
  authenticate_api_uri-IsOwner uri u cache after c p t h = elim (Option-cases uri.user.domain) [
    | inl e ↦ cc (rw (c, e) at h)
    | inr (realm, e) ↦
        trusted_or_user-IsOwner uri u realm cache after e (rw (c, e, realm_resource, p, t) at h)
  ]
