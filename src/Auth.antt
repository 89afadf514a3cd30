-- ===== src/Auth.antt =====
-- xcap/authentication/auth.py: from the URL of a request to its URI, who may see it, and the fields
-- of a digest. inet_aton is a parameter; the child `Login` has the authentication of users.
pub mod Realm
pub mod Login
pub mod Gate
pub mod ApiGate
pub mod Safety
use openxcap.Prelude.{
  ℕ, zero, suc, length, Bool, true, false, not, ◌&&◌, ◌||◌, Option, none, some, List, [], ◌∷◌, ◌++◌,
  any, Str, codes, str_eq, is_empty, strip_prefix, split_first, split_on, strip, strip_left,
  starts_with, if◌then◌else◌, ◌==◌, Result, ok, err, ◌>>=◌, handled, of_option, Dict, lookup,
  insert, has_key, all,
}
use Prim.Native.Nat.{bit_and}
use openxcap.Xpath.{XpathError, node_parsing_error, document_selector_error}
use openxcap.Xpath.Tokens.{Scanner}
use openxcap.Errors.{Fault, http, selector, value_error}
use openxcap.Uri.{XcapUser, XcapUri, xcap_uri, parse_user, same_user, is_known}
use openxcap.Preconditions.{Method, http_get}

-- AuthenticationConfig, and the roots of ServerConfig
pub data AuthType : Type 0 where
  digest basic other_type : AuthType

pub record Config : Type 0 where
  pub roots : List Str
  pub auth_type : AuthType
  pub cleartext_passwords : Bool
  pub default_realm : Option Str
  pub trusted_peers : List (ℕ × ℕ)

-- the root of an URI, and what is behind it
unfoldable pub find_root : List Str → Str → Option (Str × Str)
unfolding strip_prefix
find_root [] node_uri = none
find_root (root ∷ roots) node_uri = elim (strip_prefix root node_uri) [
  | none ↦ find_root roots node_uri
  | some rest ↦ some (root, rest)
]

-- the exceptions of XCAPUri, of which two become responses
abbrev pub uri_fault : XpathError → Fault
uri_fault node_parsing_error = http 400
uri_fault document_selector_error = http 404
uri_fault e = selector e

-- `if r.user.domain is None: r.user.domain = default_realm`
abbrev pub with_realm : Option Str → XcapUser → XcapUser
with_realm realm u = elim u.domain [ none ↦ record u { domain = realm } | some d ↦ u ]

abbrev pub is_root_only : Str → Bool
is_root_only s = is_empty s || str_eq s (codes "/")

module _ (scan : Scanner) (unquote : Str → Str) (namespaces : Dict (Option Str)) where
  unfoldable pub build_uri : Option Str → Str → Str → Result Fault XcapUri
  unfolding xcap_uri
  build_uri realm root resource = do
    r ← handled uri_fault (xcap_uri scan unquote root resource namespaces)
    ok (record r { user = with_realm realm r.user })

  -- parseNodeURI
  unfoldable pub parse_node_uri : Config → Str → Result Fault XcapUri
  unfolding find_root str_eq build_uri
  parse_node_uri config node_uri = elim (find_root config.roots node_uri) [
    | none ↦ err (http 404)
    | some (root, resource) ↦
        if is_root_only resource
        then err (http 404)
        else build_uri config.default_realm root resource
  ]

  -- parseApiURI
  unfoldable pub parse_api_uri : Config → Str → Result Fault XcapUri
  unfolding build_uri
  parse_api_uri config resource = elim config.roots [
    | [] ↦ err (http 404)
    | root ∷ roots ↦ build_uri config.default_realm root resource
  ]

-- ApplicationUsage.is_authorized
unfoldable pub is_authorized : XcapUser → XcapUser → Bool
unfolding same_user is_known
is_authorized user owner = is_known user && same_user user owner

-- checkApplication
unfoldable pub check_application : Str → XcapUser → Result Fault (Unit {0})
unfolding is_authorized parse_user
check_application user owner =
    if is_authorized (parse_user user none) owner then ok tt else err (http 401)

abbrev matches_range : ℕ → ℕ × ℕ → Bool
matches_range ip (base, mask) = bit_and ip mask == base

-- AuthenticationManager.is_ip_trusted: an address that inet_aton refuses is an OSError
unfoldable pub is_ip_trusted : (Str → Option ℕ) → Config → Option Str → Result Fault Bool
is_ip_trusted inet_aton config none = ok false
is_ip_trusted inet_aton config (some ip) =
    if is_empty config.trusted_peers then ok false else elim (inet_aton ip) [
      | none ↦ err value_error
      | some n ↦ ok (any (matches_range n) config.trusted_peers)
    ]

-- Subscriber of xcap/db/models/auth_db.py
pub record Subscriber : Type 0 where
  pub username : Str
  pub domain : Str
  pub password : Str
  pub ha1 : Str

-- the cache of nonces
pub record NonceCache : Type 1 where
  pub Cache : Type 0
  pub has : Str → Cache → Bool
  pub add : Str → Cache → Cache
  pub drop : Str → Cache → Cache

-- a field of the header, `k="v"`
read_field : Str → Option (Str × Str)
unfolding split_first strip
read_field field = elim (split_first (codes "=") field) [
  | none ↦ none
  | some (k, v) ↦ some (k, strip (λ c. c == b'"') v)
]

-- field.split(", ")
unfoldable pub split_fields : ℕ → Str → List Str
unfolding split_first
split_fields zero s = s ∷ []
split_fields (suc fuel) s = elim (split_first (codes ", ") s) [
  | none ↦ s ∷ []
  | some (a, b) ↦ a ∷ split_fields fuel b
]

read_fields : List Str → Dict Str → Option (Dict Str)
unfolding read_field insert
read_fields [] d = some d
read_fields (f ∷ fields) d = elim (read_field f) [
  | none ↦ none
  | some (k, v) ↦ read_fields fields (insert k v d)
]

-- auth_fields
unfoldable pub auth_fields : Str → Option (Dict Str)
unfolding split_fields read_fields
auth_fields text = read_fields (split_fields (length text) text) []

-- the fields that are required
pub record DigestFields : Type 0 where
  pub username : Str
  pub nonce : Str
  pub response : Str
  pub uri : Str
  pub qop : Str
  pub cnonce : Str
  pub nc : Str

-- auth_fields[name], once the loop over the required names has found it
field : Str → Dict Str → Result Fault Str
unfolding lookup
field name d = of_option (http 401) (lookup name d)

unfoldable pub required_fields : Dict Str → Result Fault DigestFields
unfolding field
required_fields d = do
  username ← field (codes "username") d
  nonce ← field (codes "nonce") d
  response ← field (codes "response") d
  uri ← field (codes "uri") d
  qop ← field (codes "qop") d
  cnonce ← field (codes "cnonce") d
  nc ← field (codes "nc") d
  ok (record {
    username = username;
    nonce = nonce;
    response = response;
    uri = uri;
    qop = qop;
    cnonce = cnonce;
    nc = nc;
  })

-- the fields of a header behind 'Digest '
unfoldable pub digest_fields : Str → Result Fault DigestFields
unfolding auth_fields required_fields
digest_fields text = do d ← of_option (http 401) (auth_fields text); required_fields d
