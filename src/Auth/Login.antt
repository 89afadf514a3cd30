-- ===== src/Auth/Login.antt =====
-- AuthenticationManager of xcap/authentication/auth.py. MD5, base64, the subscribers of the database,
-- the cache of nonces (cachetools) and a new nonce are parameters.
use openxcap.Prelude.{
  Bool, Option, none, some, List, [], ◌∷◌, ◌++◌, Str, codes, str_eq, strip_prefix, split_first,
  split_on, if◌then◌else◌, Result, ok, err, ◌>>=◌, of_option,
}
use openxcap.Errors.{Fault, http, value_error}
use openxcap.Preconditions.{Method}
use openxcap.Auth.{Config, Subscriber, NonceCache, DigestFields, digest_fields}

-- str of a method, as Starlette has it
abbrev pub method_text : Method → Str
method_text Method.http_get = codes "GET"
method_text Method.http_head = codes "HEAD"
method_text Method.http_put = codes "PUT"
method_text Method.http_delete = codes "DELETE"
method_text Method.http_post = codes "POST"

-- parts with ':' between them
abbrev pub colons : List Str → Str
colons [] = []
colons (s ∷ []) = s
colons (s ∷ t ∷ rest) = s ++ b':' ∷ colons (t ∷ rest)

-- username.split('@', 1)[0]
unfoldable pub name_part : Str → Str
unfolding split_first
name_part s = elim (split_first (codes "@") s) [ none ↦ s | some (a, b) ↦ a ]

-- what a library call gives, or raises
abbrev pub Users : Type 0
Users = Str → Str → Option Subscriber

module _ (md5 : Str → Str) (query_user : Users) (config : Config) where
  -- Credentials.hash
  abbrev pub credentials_hash : Str → Str → Str → Str
  credentials_hash username realm password = md5 (colons (username ∷ realm ∷ password ∷ []))

  -- the secret of a subscriber
  abbrev pub ha1_of : Str → Str → Subscriber → Str
  ha1_of username realm s =
      if config.cleartext_passwords then credentials_hash username realm s.password else s.ha1

  -- the response that the secret of a subscriber makes
  unfoldable pub digest_of : Method → Str → DigestFields → Str → Str
  digest_of method ha1 f realm = md5 (
      colons (
        ha1
        ∷ f.nonce
        ∷ f.nc
        ∷ f.cnonce
        ∷ f.qop
        ∷ md5 (colons (method_text method ∷ f.uri ∷ []))
        ∷ []))

  -- create_digest_response
  unfoldable pub create_digest_response : Method → DigestFields → Str → Result Fault Str
  unfolding name_part digest_of
  create_digest_response method f realm = elim (query_user (name_part f.username) realm) [
    | none ↦ err (http 401)
    | some s ↦ ok (digest_of method (ha1_of (name_part f.username) realm s) f realm)
  ]

  -- Credentials.is_valid
  unfoldable pub is_valid : Str → Str → Str → Subscriber → Bool
  unfolding str_eq
  is_valid username password realm s =
      if config.cleartext_passwords
      then str_eq password s.password
      else str_eq (credentials_hash username realm password) s.ha1

  -- decoded_value.split(":") into two
  abbrev two_parts : List Str → Result Fault (Str × Str)
  two_parts (a ∷ b ∷ []) = ok (a, b)
  two_parts _ = err value_error

  check_credentials : Str → Str → Str → Option Subscriber → Result Fault Str
  unfolding is_valid
  check_credentials username password realm none = err (http 401)
  check_credentials username password realm (some s) =
      if is_valid username password realm s
      then ok (s.username ++ b'@' ∷ s.domain)
      else err (http 401)

  basic_value : (Str → Option Str) → Str → Str → Result Fault Str
  unfolding split_on check_credentials
  basic_value b64decode realm value = do
    decoded ← of_option value_error (b64decode value)
    (username, password) ← two_parts (split_on b':' decoded)
    check_credentials username password realm (query_user username realm)

  -- basic_auth; `value` is what b64decode gets, which ignores the white space that strip() takes off
  unfoldable pub basic_auth : (Str → Option Str) → Str → Str → Result Fault Str
  unfolding strip_prefix basic_value
  basic_auth b64decode header realm = elim (strip_prefix (codes "Basic ") header) [
    | none ↦ err (http 401)
    | some value ↦ basic_value b64decode realm value
  ]

  module _ (nonces : NonceCache) where
    -- digest_auth behind the parsing of its fields
    unfoldable pub check_digest :
        Method → Str → DigestFields → nonces.Cache → Result Fault Str × nonces.Cache
    unfolding create_digest_response str_eq
    check_digest method realm f cache =
        if nonces.has f.nonce cache
        then (elim (create_digest_response method f realm) [
          | err e ↦ (err e, cache)
          | ok expected ↦
              if str_eq f.response expected
              then (ok (f.username ++ b'@' ∷ realm), nonces.drop f.nonce cache)
              else (err (http 401), cache)
        ])
        else (err (http 401), cache)

    unfoldable pub digest_value :
        Method → Str → Str → nonces.Cache → Result Fault Str × nonces.Cache
    unfolding check_digest digest_fields
    digest_value method realm text cache = elim (digest_fields text) [
      | err e ↦ (err e, cache)
      | ok f ↦ check_digest method realm f cache
    ]

    -- digest_auth: without a digest, the client is given the new nonce
    unfoldable pub digest_auth :
        Method → Str → Str → Str → nonces.Cache → Result Fault Str × nonces.Cache
    unfolding strip_prefix digest_value
    digest_auth method header realm fresh cache = elim (strip_prefix (codes "Digest ") header) [
      | none ↦ (err (http 401), nonces.add fresh cache)
      | some text ↦ digest_value method realm text cache
    ]
