-- ===== src/Uri.antt =====
-- xcap/uri.py: XCAPUser and XCAPUri. `unquote` of urllib is a parameter.
pub mod Users
use openxcap.Prelude.{
  ℕ, Bool, true, false, ◌&&◌, not, Option, none, some, List, [], ◌∷◌, ◌++◌, Str, codes, str_eq,
  is_empty, strip_prefix, split_first, if◌then◌else◌, ◌==◌, Result, ok, err, ◌>>=◌, Dict, lookup,
}
use openxcap.Xpath.{XpathError}
use openxcap.Xpath.Tokens.{Scanner}
use openxcap.Xpath.Document.{DocumentSelector, document_selector}
use openxcap.Xpath.Node.{NodeSelector, node_selector}

pub record XcapUser : Type 0 where
  pub username : Option Str
  pub domain : Option Str

-- '%s' % s, where s may be None
abbrev pub shown : Option Str → Str
shown none = codes "None"
shown (some s) = s

-- XCAPUser.__str__
unfoldable pub user_text : XcapUser → Str
user_text u = shown u.username ++ b'@' ∷ shown u.domain

-- XCAPUser.uri
unfoldable pub user_uri : XcapUser → Str
unfolding user_text
user_uri u = codes "sip:" ++ user_text u

-- XCAPUser.__eq__
unfoldable pub same_user : XcapUser → XcapUser → Bool
unfolding str_eq user_uri
same_user a b = str_eq (user_uri a) (user_uri b)

abbrev truthy : Option Str → Bool
truthy none = false
truthy (some s) = not (is_empty s)

-- XCAPUser.__bool__
unfoldable pub is_known : XcapUser → Bool
is_known u = truthy u.username && truthy u.domain

-- default_domain if default_domain else ''
abbrev or_empty : Option Str → Str
or_empty none = []
or_empty (some d) = d

abbrev without_scheme : Str → Str
unfolding strip_prefix
without_scheme user_id = elim (strip_prefix (codes "sip:") user_id) [
  | none ↦ user_id
  | some rest ↦ rest
]

-- XCAPUser.parse
unfoldable pub parse_user : Str → Option Str → XcapUser
unfolding strip_prefix split_first
parse_user user_id default_domain =
    let u = without_scheme user_id in
    elim (split_first (codes "@") u) [
      | none ↦ record { username = some u; domain = some (or_empty default_domain) }
      | some (name, domain) ↦ record { username = some name; domain = some domain }
    ]

pub record XcapUri : Type 0 where
  pub xcap_root : Str
  pub resource_selector : Str
  pub doc_selector : DocumentSelector
  pub node_selector : Option NodeSelector
  pub user : XcapUser

-- s[:-1] and s[-1:]
cut_last : Str → Str × Str
cut_last [] = ([], [])
cut_last (c ∷ []) = ([], c ∷ [])
cut_last (c ∷ d ∷ s) = let (front, last) = cut_last (d ∷ s) in (c ∷ front, last)

-- behind an '@': the realm, and the selector from the first slash on; where `find` returns -1, the
-- realm lacks the last character, and that is the selector
realm_behind : Str → Str × Str
unfolding split_first cut_last
realm_behind s = elim (split_first (codes "/") s) [
  | none ↦ cut_last s
  | some (realm, rest) ↦ (realm, b'/' ∷ rest)
]

-- the realm by convention, and the selector behind it
unfoldable pub split_realm : Str → Option Str × Str
unfolding realm_behind
split_realm [] = (none, [])
split_realm (c ∷ s) =
    if c == b'@' then (let (realm, rest) = realm_behind s in (some realm, rest)) else (none, c ∷ s)

-- resource_selector.split('~~', 1)
abbrev pub selectors : Str → Str × Option Str
unfolding split_first
selectors s = elim (split_first (codes "~~") s) [ none ↦ (s, none) | some (a, b) ↦ (a, some b) ]

-- self.user
unfoldable pub user_of : Option Str → Option Str → XcapUser
unfolding parse_user
user_of (some (c ∷ user_id)) realm = parse_user (c ∷ user_id) realm
user_of _ realm = record { username = none; domain = realm }

abbrev pub default_namespace : Str → Dict (Option Str) → Option Str
unfolding lookup
default_namespace application_id namespaces = elim (lookup application_id namespaces) [
  | none ↦ none
  | some ns ↦ ns
]

module _ (scan : Scanner) (unquote : Str → Str) where
  unfoldable pub node_of : Option Str → Option Str → Result XpathError (Option NodeSelector)
  unfolding node_selector
  node_of none namespace = ok none
  node_of (some s) namespace = do n ← node_selector scan s namespace; ok (some n)

  -- XCAPUri(xcap_root, resource_selector, namespaces)
  unfoldable pub xcap_uri : Str → Str → Dict (Option Str) → Result XpathError XcapUri
  unfolding split_realm split_first document_selector node_of user_of lookup
  xcap_uri root selector namespaces =
      let (realm, resource) = split_realm (unquote selector) in
      let (document, node) = selectors resource in
      do
        d ← document_selector document
        n ← node_of node (default_namespace d.application_id namespaces)
        ok (record {
          xcap_root = root;
          resource_selector = resource;
          doc_selector = d;
          node_selector = n;
          user = user_of d.user_id realm;
        })

-- XCAPUri.__str__
abbrev pub uri_text : XcapUri → Str
uri_text u = u.xcap_root ++ u.resource_selector
