-- ===== src/Auth/Realm.antt =====
-- The default realm never reaches the documents of users.
use openxcap.Prelude.{
  ℕ, ◌≡◌, refl, ap, ◌∙◌, sym, Option, some, ◌∷◌, Str, ok, Dict, arith, Bool-cases, Option-cases,
  Result-cases, inl, inr,
}
use openxcap.Xpath.Tokens.{Scanner}
use openxcap.Xpath.Document.{document_selector}
use openxcap.Uri.{XcapUri, split_realm, selectors, default_namespace, node_of, user_of, xcap_uri}
use openxcap.Uri.Users.{parse_user-HasName}
use openxcap.Auth.{Config, find_root, with_realm, build_uri, parse_node_uri, is_root_only}

module _ (scan : Scanner) (unquote : Str → Str) (namespaces : Dict (Option Str)) where
  -- The user of an URI comes from its document selector, with the realm in front of the selector.
  xcap_uri-user :
      (root resource : Str) (u : XcapUri)
      → xcap_uri scan unquote root resource namespaces ≡ ok u
      → u.user ≡ user_of u.doc_selector.user_id (split_realm (unquote resource)).0
  unfolding xcap_uri
  xcap_uri-user root resource u h =
      let s = selectors (split_realm (unquote resource)).1 in
      elim (Result-cases (document_selector s.0)) [
        | inl (x, e) ↦ cc (rw e at h)
        | inr (d, e) ↦
            elim (Result-cases
              (node_of scan unquote s.1 (default_namespace d.application_id namespaces))) [
                | inl (x, g) ↦ cc (rw (e, g) at h)
                | inr (n, g) ↦ let q = rw (e, g) at h in ground arith
              ]
      ]

with_realm-parsed :
    (c : ℕ) (id : Str) (own realm : Option Str)
    → with_realm realm (user_of (some (c ∷ id)) own) ≡ user_of (some (c ∷ id)) own
unfolding user_of
with_realm-parsed c id own realm =
    let (name, domain, h, e) = parse_user-HasName (c ∷ id) own in rw e refl

module _ (scan : Scanner) (unquote : Str → Str) (namespaces : Dict (Option Str)) where
  with_realm-user :
      (root resource : Str) (r : XcapUri) (c : ℕ) (id : Str) (realm : Option Str)
      → xcap_uri scan unquote root resource namespaces ≡ ok r
      → r.doc_selector.user_id ≡ some (c ∷ id)
      → with_realm realm r.user ≡ r.user
  with_realm-user root resource r c id realm e d =
      let q =
        xcap_uri-user scan unquote namespaces root resource r e
        ∙ ap (λ o. user_of o (split_realm (unquote resource)).0) d in
      ap (with_realm realm) q
      ∙ (with_realm-parsed c id (split_realm (unquote resource)).0 realm ∙ sym q)

  build_uri-realm :
      (root resource : Str) (u : XcapUri) (c : ℕ) (id : Str) (one other : Option Str)
      → u.doc_selector.user_id ≡ some (c ∷ id)
      → build_uri scan unquote namespaces one root resource ≡ ok u
      → build_uri scan unquote namespaces other root resource ≡ ok u
  unfolding build_uri
  build_uri-realm root resource u c id one other d h =
      elim (Result-cases (xcap_uri scan unquote root resource namespaces)) [
        | inl (x, e) ↦ cc (rw e at h)
        | inr (r, e) ↦
            let q = rw e at h in
            let same : r.doc_selector.user_id ≡ some (c ∷ id) = ground arith in
            let a = with_realm-user root resource r c id one e same in
            let b = with_realm-user root resource r c id other e same in rw e (ground arith)
      ]

  -- A node URI of a document of a user is parsed alike whatever the default realm is: a user without
  -- a domain gets the empty one, and not the default.
  pub parse_node_uri-realm :
      (config : Config) (url : Str) (u : XcapUri) (c : ℕ) (id : Str) (other : Option Str)
      → u.doc_selector.user_id ≡ some (c ∷ id)
      → parse_node_uri scan unquote namespaces config url ≡ ok u
      → parse_node_uri scan unquote namespaces (record config { default_realm = other }) url ≡ ok u
  unfolding parse_node_uri
  parse_node_uri-realm config url u c id other d h =
      elim (Option-cases (find_root config.roots url)) [
        | inl e ↦ cc (rw (e, parse_node_uri) at h)
        | inr ((root, resource), e) ↦ elim (Bool-cases (is_root_only resource)) [
          | inl g ↦ cc (rw (e, parse_node_uri, g) at h)
          | inr g ↦
              rw (e, parse_node_uri, g)
                (build_uri-realm root resource u c id config.default_realm other d
                  (rw (e, parse_node_uri, g) at h))
        ]
      ]
