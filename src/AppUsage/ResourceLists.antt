-- ===== src/AppUsage/ResourceLists.antt =====
-- xcap/appusage/resourcelists.py: the constraints on resource lists; and rlsservices.py, which calls
-- them. urllib and the words of exceptions are parameters.
pub mod Unique
pub mod Anchors
use openxcap.Prelude.{
  ℕ, zero, suc, ◌+◌, Bool, true, false, not, ◌&&◌, ◌||◌, Option, none, some, List, [], ◌∷◌, ◌++◌,
  any, Str, codes, str_eq, if◌then◌else◌, Result, ok, err, ◌>>=◌, Dict, decimal, handled, of_option,
}
use openxcap.Errors.{
  value_error, Fault, xcap, selector, type_error, attribute_error, xml_syntax_error, xcap_error,
  constraint_failure, uniqueness_failure,
}
use openxcap.Xpath.{
  XpathError, node_parsing_error, document_selector_error, Step, star, qname, token_is,
}
use openxcap.Xpath
use openxcap.Xpath.Tokens.{Scanner}
use openxcap.Xpath.Node.{NodeSelector}
use openxcap.Uri.{XcapUri, XcapUser, xcap_uri, same_user}
use openxcap.Auth.{Config, find_root, with_realm, is_root_only, parse_node_uri}
use openxcap.Backend.{StatusResponse, Table, Check}
use openxcap.Backend
use openxcap.AppUsage.{Application, Place, validate_document}
use openxcap.AppUsage.Markup.{Node, Nodes, node, nil, cons, has_tag, get, children_of, clark}

abbrev pub default_ns : Str
default_ns = codes "urn:ietf:params:xml:ns:resource-lists"

-- get_xpath: from an element up to the root, with the position of each in its parent, its own first
unfoldable pub get_xpath : List ℕ → Str → Str
unfolding decimal
get_xpath [] res = codes "/*" ++ res
get_xpath (i ∷ above) res = get_xpath above (codes "/*[" ++ (decimal i ++ (codes "]" ++ res)))

-- attribute_not_unique
unfoldable pub attribute_not_unique : List ℕ → Str → Fault
unfolding get_xpath
attribute_not_unique at attr =
    xcap (xcap_error (uniqueness_failure (get_xpath at [] ++ (codes "/@" ++ attr))) [] [])

abbrev pub constraint : Str → Fault
constraint phrase = xcap (xcap_error constraint_failure phrase [])

-- values of an attribute that have been seen; None is one of them
abbrev pub same_value : Option Str → Option Str → Bool
same_value none none = true
same_value (some a) (some b) = str_eq a b
same_value _ _ = false

unfoldable pub is_seen : Option Str → List (Option Str) → Bool
is_seen v [] = false
is_seen v (w ∷ seen) = same_value v w || is_seen v seen

-- the four sets of a list
pub record Seen : Type 0 where
  pub names : List (Option Str)
  pub uris : List (Option Str)
  pub refs : List (Option Str)
  pub anchors : List (Option Str)

abbrev pub none_seen : Seen
none_seen = record { names = []; uris = []; refs = []; anchors = [] }

-- name[1] of the last step is "entry"; a name '*' has no name[1]
unfoldable pub ends_in_entry : List Step → Bool
unfolding token_is
ends_in_entry [] = false
ends_in_entry (s ∷ []) = elim s.name [ star ↦ false | qname ns t ↦ token_is t (codes "entry") ]
ends_in_entry (s ∷ t ∷ steps) = ends_in_entry (t ∷ steps)

-- except ValueError
abbrev ref_fault : Fault → Fault
ref_fault (selector Xpath.value_error) = constraint []
ref_fault f = f

-- the owner and the root of the document; `none` where the caller has passed a text
abbrev pub Owner : Type 0
Owner = Option XcapUri

abbrev pub owner_of : Owner → Result Fault XcapUri
owner_of none = err attribute_error
owner_of (some uri) = ok uri

-- ref_uri.node_selector.element_selector
checked_ref : Option NodeSelector → Result Fault (Unit {0})
unfolding ends_in_entry
checked_ref none = err attribute_error
checked_ref (some n) = if ends_in_entry n.element_selector.steps then ok tt else err (constraint [])

-- what the checks call: lxml's scanner, unquote and urlparse(...).scheme of urllib, with none for the
-- ValueError of urlparse, and str() of an exception of a selector
pub record Calls : Type 0 where
  pub scan : Scanner
  pub unquote : Str → Str
  pub scheme : Str → Option Str
  pub words : XpathError → Str
  pub namespaces : Dict (Option Str)
  pub config : Config
  pub allow_external_references : Bool

abbrev pub is_list : Node → Bool
is_list child = has_tag (clark default_ns (codes "list")) child

-- the name of a list
unfoldable pub see_list : List ℕ → Node → Seen → Result Fault Seen
see_list at child seen =
    if is_seen (get (codes "name") child) seen.names
    then err (attribute_not_unique at (codes "name"))
    else ok (record seen { names = get (codes "name") child ∷ seen.names })

module _ (calls : Calls) where
  -- the exceptions of XCAPUri that become constraint failures
  abbrev external_fault : XpathError → Fault
  external_fault node_parsing_error = constraint (calls.words node_parsing_error)
  external_fault document_selector_error = constraint (calls.words document_selector_error)
  external_fault e = selector e

  -- parseExternalListURI
  unfoldable pub parse_external_list_uri : Str → Result Fault XcapUri
  unfolding find_root str_eq xcap_uri
  parse_external_list_uri node_uri = elim (find_root calls.config.roots node_uri) [
    | none ↦ err (constraint (codes "XCAP root not found for URI: " ++ node_uri))
    | some (root, resource) ↦
        if is_root_only resource then err (constraint (codes "Resource selector missing")) else do
          uri ←
              handled external_fault
                (xcap_uri calls.scan calls.unquote root resource calls.namespaces)
          ok (record uri { user = with_realm calls.config.default_realm uri.user })
  ]

  -- an URI in the same root and of the same user
  unfoldable pub check_owner : Str → XcapUri → XcapUri → Result Fault (Unit {0})
  unfolding same_user str_eq
  check_owner phrase owner uri =
      if not (str_eq uri.xcap_root owner.xcap_root)
      then err (constraint (codes "XCAP root in the external list doesn't match PUT requests'"))
      else if not (same_user uri.user owner.user)
      then err (constraint phrase)
      else ok tt

  -- `"%s/%s" % (node_uri.xcap_root, ref)` and what follows in the `try`
  unfoldable pub check_ref : Owner → Str → Result Fault (Unit {0})
  unfolding parse_node_uri same_user checked_ref
  check_ref owner ref = do
    o ← owner_of owner
    uri ← handled ref_fault (
        parse_node_uri calls.scan calls.unquote calls.namespaces calls.config
          (o.xcap_root ++ (codes "/" ++ ref)))
    if not calls.allow_external_references && not (same_user uri.user o.user)
        then err (constraint (codes "Cannot link to another users' list"))
        else checked_ref uri.node_selector

  -- entry-ref: what is remembered is the reference without its escapes
  unfoldable pub see_ref : Owner → List ℕ → Option Str → Seen → Result Fault Seen
  see_ref owner at ref seen =
      if is_seen ref seen.refs then err (attribute_not_unique at (codes "ref")) else elim ref [
        | none ↦ err type_error
        | some r ↦ do
          done ← check_ref owner (calls.unquote r)
          ok (record seen { refs = some (calls.unquote r) ∷ seen.refs })
      ]

  -- the anchor of an external list, without its escapes
  unfoldable pub check_anchor : Owner → Str → Seen → Result Fault Seen
  unfolding str_eq
  check_anchor owner anchor seen =
      if not calls.allow_external_references
      then (do
        uri ← parse_external_list_uri anchor
        o ← owner_of owner
        done ← check_owner (codes "Cannot link to another users' list") o uri
        ok seen)
      else elim (calls.scheme anchor) [
        | none ↦ err value_error
        | some scheme ↦
            if str_eq scheme (codes "http") || str_eq scheme (codes "https")
            then ok (record seen { anchors = some anchor ∷ seen.anchors })
            else err (constraint (codes "Specified anchor is not a valid URL"))
      ]

  -- external
  unfoldable pub see_anchor : Owner → List ℕ → Option Str → Seen → Result Fault Seen
  see_anchor owner at anchor seen =
      if is_seen anchor seen.anchors
      then err (attribute_not_unique at (codes "anchor"))
      else elim anchor [
        | none ↦ err type_error
        | some a ↦ check_anchor owner (calls.unquote a) seen
      ]

  -- one child that is no list
  unfoldable pub see_child : Owner → List ℕ → Node → Seen → Result Fault Seen
  unfolding str_eq
  see_child owner at child seen =
      if has_tag (clark default_ns (codes "entry")) child
      then (if is_seen (get (codes "uri") child) seen.uris
          then err (attribute_not_unique at (codes "uri"))
          else ok (record seen { uris = get (codes "uri") child ∷ seen.uris }))
      else if has_tag (clark default_ns (codes "entry-ref")) child
      then see_ref owner at (get (codes "ref") child) seen
      else if has_tag (clark default_ns (codes "external")) child
      then see_anchor owner at (get (codes "anchor") child) seen
      else ok seen

  -- check_list, with the place of the element; and its loop, with the position of the next child
  unfoldable mutual
    pub check_list : Owner → List ℕ → Node → Result Fault (Unit {0})
    check_list owner at (node t attrs text children) = check_children owner at 0 children none_seen

    pub check_children : Owner → List ℕ → ℕ → Nodes → Seen → Result Fault (Unit {0})
    check_children owner at i nil seen = ok tt
    check_children owner at i (cons child children) seen =
        let nested = check_list owner (i ∷ at) child in
        let rest = λ (s : Seen). check_children owner at (i + 1) children s in
        if is_list child
        then (do s ← see_list (i ∷ at) child seen; done ← nested; rest s)
        else (do s ← see_child owner (i ∷ at) child seen; rest s)

  -- ResourceListsApplication.put_document: `root` is the root of the tree that lxml parses
  unfoldable pub put_document :
      (Str → Option Node)
      → Application
      → Check
      → Place
      → XcapUri
      → Str
      → Str
      → Table
      → Result Fault (StatusResponse × Table)
  put_document root app check place uri doc fresh rows = do
    done ← validate_document app doc
    tree ← of_option xml_syntax_error (root doc)
    done ← check_list (some uri) [] tree
    Backend.put_document check place.target doc fresh rows

  -- RLSServicesApplication, whose check of the constraints passes a text as the URI
  unfoldable pub put_services :
      (Str → Option Node)
      → Application
      → Check
      → Place
      → Str
      → Str
      → Table
      → Result Fault (StatusResponse × Table)
  put_services root app check place doc fresh rows = do
    done ← validate_document app doc
    tree ← of_option xml_syntax_error (root doc)
    done ← check_list none [] tree
    Backend.put_document check place.target doc fresh rows
