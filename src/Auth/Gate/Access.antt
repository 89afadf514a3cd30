-- ===== src/Auth/Gate/Access.antt =====
-- What a request that is let in has shown.
use openxcap.Prelude.{
  ◌≡◌, ap, true, false, ◌&&◌, none, some, List, Str, codes, str_eq, ok, arith, Bool-cases,
  Option-cases, Result-cases, inl, inr,
}
use openxcap.Uri.{XcapUri, parse_user}
use openxcap.Auth.{Config, is_ip_trusted, is_authorized, check_application}
use openxcap.Auth.Gate.{
  Login, AuthRequest, is_get, is_listed, get_application, authenticate_user, admit, log_in,
  private_resource, user_resource, authenticate_uri,
}

pub pair_eq : {A B : Type 0} {a : A} {b : B} (p : A × B) → p.0 ≡ a → p.1 ≡ b → p ≡ (a, b)
pair_eq p h g = ground arith

module _ (login : Login) (config : Config) (applications public_get : List Str)
    (request : AuthRequest) (fresh : Str) where
  -- a login of the owner of an URI
  abbrev pub IsOwner : XcapUri → login.nonces.Cache → login.nonces.Cache → Type 0
  IsOwner uri cache after =
      (realm user : Str) × (uri.user.domain ≡ some realm)
      × (authenticate_user login config applications public_get request fresh realm cache
          ≡ (ok user, after))
      × (is_authorized (parse_user user none) uri.user ≡ true)

  admit-ok :
      (uri u : XcapUri) (user : Str)
      → admit login config applications public_get request fresh uri user ≡ ok u
      → (u ≡ uri)
        × ((is_listed uri.doc_selector.application_id applications ≡ true)
            × (is_authorized (parse_user user none) uri.user ≡ true))
  unfolding admit get_application check_application
  admit-ok uri u user h =
      elim (Bool-cases (is_listed uri.doc_selector.application_id applications)) [
        | inr e ↦ cc (rw e at h)
        | inl e ↦ elim (Bool-cases (is_authorized (parse_user user none) uri.user)) [
          | inr g ↦ cc (rw (e, g) at h)
          | inl g ↦ let q = rw (e, g) at h in (ground arith, (e, g))
        ]
      ]

  log_in-IsOwner :
      (uri u : XcapUri) (realm : Str) (cache after : login.nonces.Cache)
      → uri.user.domain ≡ some realm
      → log_in login config applications public_get request fresh uri realm cache ≡ (ok u, after)
      → (u ≡ uri) × IsOwner uri cache after
  unfolding log_in
  log_in-IsOwner uri u realm cache after d h =
      let r = authenticate_user login config applications public_get request fresh realm cache in
      elim (Result-cases r.0) [
        | inl (x, e) ↦ cc (rw e at h)
        | inr (user, e) ↦
            let g = rw e at h in
            let (same, (listed, owner)) = admit-ok uri u user (ap (λ p. p.0) g) in
            (same, (realm, user, d, pair_eq r e (ap (λ p. p.1) h), owner))
      ]

  private_resource-IsOwner :
      (uri u : XcapUri) (realm : Str) (cache after : login.nonces.Cache)
      → uri.user.domain ≡ some realm
      → is_ip_trusted login.inet_aton config request.client_ip ≡ ok false
      → private_resource login config applications public_get request fresh uri realm cache
        ≡ (ok u, after)
      → (u ≡ uri) × IsOwner uri cache after
  unfolding private_resource
  private_resource-IsOwner uri u realm cache after d t h =
      log_in-IsOwner uri u realm cache after d (rw (t, private_resource) at h)

  -- A request that is let in, for a document of a user, by a client that is not trusted, and that is no
  -- GET of an application open to all, has logged in, and as the owner of the document.
  pub authenticate_uri-IsOwner :
      (uri u : XcapUri) (cache after : login.nonces.Cache)
      → str_eq uri.doc_selector.context (codes "global") ≡ false
      → (is_get request.method && is_listed uri.doc_selector.application_id public_get) ≡ false
      → is_ip_trusted login.inet_aton config request.client_ip ≡ ok false
      → authenticate_uri login config applications public_get request fresh uri cache
        ≡ (ok u, after)
      → (u ≡ uri) × IsOwner uri cache after
  unfolding authenticate_uri user_resource
  authenticate_uri-IsOwner uri u cache after c p t h = elim (Option-cases uri.user.domain) [
    | inl e ↦ cc (rw (c, e) at h)
    | inr (realm, e) ↦
        private_resource-IsOwner uri u realm cache after e t (rw (c, e, user_resource, p) at h)
  ]
