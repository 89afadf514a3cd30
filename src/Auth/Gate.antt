-- ===== src/Auth/Gate.antt =====
-- authenticate_xcap_request of xcap/authentication/auth.py: what is open to all, and what needs a
-- login.
pub mod Access
use openxcap.Prelude.{
  ℕ, Bool, true, false, ◌&&◌, Option, none, some, List, [], ◌∷◌, any, Str, codes, str_eq,
  if◌then◌else◌, Result, ok, err, ◌>>=◌, Dict,
}
use openxcap.Errors.{Fault, http, value_error}
use openxcap.Xpath.Tokens.{Scanner}
use openxcap.Uri.{XcapUser, XcapUri}
use openxcap.Preconditions.{Method, http_get}
use openxcap.Auth.{
  AuthType, digest, basic, other_type, Config, Subscriber, NonceCache, parse_node_uri,
  is_ip_trusted, check_application,
}
use openxcap.Auth.Login.{Users, digest_auth, basic_auth}

-- what the library calls of a login give
pub record Login : Type 1 where
  pub md5 : Str → Str
  pub b64decode : Str → Option Str
  pub inet_aton : Str → Option ℕ
  pub query_user : Users
  pub nonces : NonceCache

-- `in` a dict of applications, by its keys
abbrev pub is_listed : Str → List Str → Bool
is_listed id ids = any (λ x. str_eq x id) ids

-- the request as far as it is read: its method, URL, client and Authorization header, which is the
-- empty text where it is missing
pub record AuthRequest : Type 0 where
  pub method : Method
  pub url : Str
  pub client_ip : Option Str
  pub authorization : Str

abbrev pub is_get : Method → Bool
is_get http_get = true
is_get _ = false

-- getApplication
unfoldable pub get_application : List Str → XcapUri → Result Fault XcapUri
unfolding str_eq
get_application applications uri =
    if is_listed uri.doc_selector.application_id applications then ok uri else err (http 404)

module _ (login : Login) (config : Config) (applications public_get : List Str)
    (request : AuthRequest) (fresh : Str) where
  -- the user, by the type of authentication that is configured
  unfoldable pub authenticate_user :
      Str → login.nonces.Cache → Result Fault Str × login.nonces.Cache
  unfolding digest_auth basic_auth
  authenticate_user realm cache = elim config.auth_type [
    | digest ↦
        digest_auth login.md5 login.query_user config login.nonces request.method
          request.authorization realm fresh cache
    | basic ↦ (
      basic_auth login.md5 login.query_user config login.b64decode request.authorization realm,
      cache,
    )
    | other_type ↦ (err value_error, cache)
  ]

  -- behind the authentication
  admit : XcapUri → Str → Result Fault XcapUri
  unfolding get_application check_application
  admit uri user = do
    a ← get_application applications uri
    done ← check_application user uri.user
    ok uri

  log_in : XcapUri → Str → login.nonces.Cache → Result Fault XcapUri × login.nonces.Cache
  unfolding authenticate_user admit
  log_in uri realm cache =
      let (r, c) = authenticate_user realm cache in ((do user ← r; admit uri user), c)

  private_resource : XcapUri → Str → login.nonces.Cache → Result Fault XcapUri × login.nonces.Cache
  unfolding is_ip_trusted log_in get_application
  private_resource uri realm cache = elim (is_ip_trusted login.inet_aton config request.client_ip) [
    | err e ↦ (err e, cache)
    | ok trusted ↦
        if trusted then (get_application applications uri, cache) else log_in uri realm cache
  ]

  -- from `realm` on
  user_resource : XcapUri → Str → login.nonces.Cache → Result Fault XcapUri × login.nonces.Cache
  unfolding private_resource str_eq get_application
  user_resource uri realm cache =
      if is_get request.method && is_listed uri.doc_selector.application_id public_get
      then (get_application applications uri, cache)
      else private_resource uri realm cache

  -- authenticate_xcap_request, once the URL is parsed
  unfoldable pub authenticate_uri :
      XcapUri → login.nonces.Cache → Result Fault XcapUri × login.nonces.Cache
  unfolding user_resource str_eq get_application
  authenticate_uri uri cache =
      if str_eq uri.doc_selector.context (codes "global")
      then (get_application applications uri, cache)
      else elim uri.user.domain [
        | none ↦ (err (http 404), cache)
        | some realm ↦ user_resource uri realm cache
      ]

  -- authenticate_xcap_request
  unfoldable pub authenticate_xcap_request :
      Scanner
      → (Str → Str)
      → Dict (Option Str)
      → login.nonces.Cache
      → Result Fault XcapUri × login.nonces.Cache
  unfolding parse_node_uri authenticate_uri
  authenticate_xcap_request scan unquote namespaces cache =
      elim (parse_node_uri scan unquote namespaces config request.url) [
        | err e ↦ (err e, cache)
        | ok uri ↦ authenticate_uri uri cache
      ]
