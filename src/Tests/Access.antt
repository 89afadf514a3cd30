-- ===== src/Tests/Access.antt =====
-- Runs of the authentication of requests, and the theorems at them. The digest is the text that would
-- be hashed.
use openxcap.Prelude.{
  ◌≡◌, refl, Bool, true, false, none, some, List, [], ◌∷◌, ◌++◌, any, Str, codes, ok, err, str_eq,
  split_first, strip_prefix, lookup, insert, if◌then◌else◌,
}
use openxcap.Errors.{http}
use openxcap.Xpath.Tokens.{Scanner}
use openxcap.Xpath.Document.{document_selector}
use openxcap.Uri.{XcapUri, xcap_uri, parse_user, same_user}
use openxcap.Preconditions.{http_put}
use openxcap.Auth.{
  digest, Config, Subscriber, NonceCache, DigestFields, digest_fields, parse_node_uri,
  is_ip_trusted, is_authorized, check_application,
}
use openxcap.Auth.Login.{Users, digest_auth, digest_of, name_part}
use openxcap.Auth.Gate.{Login, AuthRequest, authenticate_uri, authenticate_user}
use openxcap.Auth.Gate.Access.{IsOwner, authenticate_uri-IsOwner}
use openxcap.Auth.ApiGate.{authenticate_api_uri, authenticate_api_uri-IsOwner}
use openxcap.Auth.Safety.{IsProven, digest_auth-IsProven, digest_auth-once}
use openxcap.Auth.Realm.{parse_node_uri-realm}

access_code : Unit {0}
unfolding digest_auth digest_of digest_fields parse_node_uri is_ip_trusted authenticate_uri
    authenticate_user is_authorized check_application str_eq parse_user same_user name_part
    document_selector authenticate_api_uri strip_prefix split_first lookup insert xcap_uri
access_code = tt

abbrev pub config : Config
config = record {
  roots = codes "http://h/x" ∷ [];
  auth_type = digest;
  cleartext_passwords = false;
  default_realm = some (codes "d");
  trusted_peers = [];
}

abbrev alice : Subscriber
alice = record { username = codes "alice"; domain = codes "d"; password = []; ha1 = codes "h" }

abbrev subscribers : Users
subscribers name realm =
    if str_eq name (codes "alice")
    then (if str_eq realm (codes "d") then some alice else none)
    else none

abbrev drop_from : Str → List Str → List Str
drop_from n [] = []
drop_from n (m ∷ ms) = let rest = drop_from n ms in if str_eq m n then rest else m ∷ rest

-- the cache as the list of the nonces in it
abbrev listed_nonces : NonceCache
listed_nonces = record {
  Cache = List Str;
  has = λ n c. any (λ m. str_eq m n) c;
  add = λ n c. n ∷ c;
  drop = drop_from;
}

dropped : (n : Str) (c : List Str) → any (λ m. str_eq m n) (drop_from n c) ≡ false
dropped n [] = refl
dropped n (m ∷ c) = dropped_one n m c (dropped n c) (str_eq m n) refl
  where
    dropped_one :
        (n m : Str) (c : List Str)
        → any (λ x. str_eq x n) (drop_from n c) ≡ false
        → (b : Bool) → str_eq m n ≡ b
        → any (λ x. str_eq x n) (if str_eq m n then drop_from n c else m ∷ drop_from n c) ≡ false
    dropped_one n m c ih true e = rw e ih
    dropped_one n m c ih false e = rw e (rw e ih)

abbrev hash : Str → Str
hash s = s

abbrev header : Str
header =
    codes
      "Digest username=\"alice\", nonce=\"n\", response=\"h:n:1:c:auth:PUT:/u\", uri=\"/u\", qop=auth, cnonce=\"c\", nc=1"

login_run :
    digest_auth hash subscribers config listed_nonces http_put header
      (codes "d")
      (codes "m")
      (codes "n" ∷ [])
    ≡ (ok (codes "alice@d"), [])
unfolding access_code
login_run = refl

digest_auth-IsProven_example :
    (f : DigestFields) × (text : Str) × (header ≡ codes "Digest " ++ text)
    × (digest_fields text ≡ ok f)
    × (codes "alice@d" ≡ f.username ++ b'@' ∷ codes "d")
    × ([] ≡ listed_nonces.drop f.nonce (codes "n" ∷ []))
    × IsProven hash subscribers config listed_nonces http_put (codes "d") f (codes "n" ∷ [])
digest_auth-IsProven_example =
    digest_auth-IsProven hash subscribers config listed_nonces http_put (codes "d") header
      (codes "m") (codes "alice@d") (codes "n" ∷ []) [] login_run

digest_auth-once_example :
    digest_auth hash subscribers config listed_nonces http_put header (codes "d") (codes "k") []
    ≡ (err (http 401), [])
digest_auth-once_example =
    digest_auth-once hash subscribers config listed_nonces http_put (codes "d") header (codes "m")
      (codes "k") (codes "alice@d") (codes "n" ∷ []) [] dropped login_run

abbrev owned : XcapUri
owned = record {
  xcap_root = codes "http://h/x";
  resource_selector = codes "/app/users/alice@d/i";
  doc_selector = record {
    application_id = codes "app";
    context = codes "users";
    user_id = some (codes "alice@d");
    document_path = codes "i";
  };
  node_selector = none;
  user = record { username = some (codes "alice"); domain = some (codes "d") };
}

abbrev scan : Scanner
scan s n = none

abbrev plain : Str → Str
plain s = s

parse_run : parse_node_uri scan plain [] config (codes "http://h/x/app/users/alice@d/i") ≡ ok owned
unfolding access_code
parse_run = refl

parse_node_uri-realm_example :
    parse_node_uri scan plain []
      (record config { default_realm = none })
      (codes "http://h/x/app/users/alice@d/i")
    ≡ ok owned
parse_node_uri-realm_example =
    parse_node_uri-realm scan plain [] config (codes "http://h/x/app/users/alice@d/i") owned b'a'
      (codes "lice@d") none refl parse_run

-- a user without a domain, where the configuration has a default realm
realm_test :
    parse_node_uri scan plain [] config (codes "http://h/x/app/users/alice/i")
    ≡ ok (record owned {
      resource_selector = codes "/app/users/alice/i";
      doc_selector = record {
        application_id = codes "app";
        context = codes "users";
        user_id = some (codes "alice");
        document_path = codes "i";
      };
      user = record { username = some (codes "alice"); domain = some [] };
    })
unfolding access_code
realm_test = refl

abbrev login : Login
login = record {
  md5 = hash;
  b64decode = λ s. none;
  inet_aton = λ s. none;
  query_user = subscribers;
  nonces = listed_nonces;
}

abbrev request : AuthRequest
request = record {
  method = http_put;
  url = codes "http://h/x/app/users/alice@d/i";
  client_ip = none;
  authorization = header;
}

access_run :
    (str_eq owned.doc_selector.context (codes "global") ≡ false)
    × (is_ip_trusted login.inet_aton config request.client_ip ≡ ok false)
    × (authenticate_uri login config
          (codes "app" ∷ [])
          []
          request
          (codes "m")
          owned
          (codes "n" ∷ [])
        ≡ (ok owned, []))
unfolding access_code
access_run = (refl, refl, refl)

authenticate_uri-IsOwner_example :
    (owned ≡ owned)
    × IsOwner login config (codes "app" ∷ []) [] request (codes "m") owned (codes "n" ∷ []) []
authenticate_uri-IsOwner_example =
    authenticate_uri-IsOwner login config (codes "app" ∷ []) [] request (codes "m") owned owned
      (codes "n" ∷ []) [] access_run.0 refl access_run.1 access_run.2

api_run :
    authenticate_api_uri login config
      (codes "app" ∷ [])
      []
      request
      (codes "m")
      (codes "app")
      owned
      (codes "n" ∷ [])
    ≡ (ok owned, [])
unfolding access_code
api_run = refl

authenticate_api_uri-IsOwner_example :
    (owned ≡ owned)
    × IsOwner login config (codes "app" ∷ []) [] request (codes "m") owned (codes "n" ∷ []) []
authenticate_api_uri-IsOwner_example =
    authenticate_api_uri-IsOwner login config (codes "app" ∷ []) [] request (codes "m")
      (codes "app") owned owned (codes "n" ∷ []) [] access_run.0 refl access_run.1 api_run
