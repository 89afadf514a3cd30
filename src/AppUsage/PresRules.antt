-- ===== src/AppUsage/PresRules.antt =====
-- xcap/appusage/presrules.py: the constraints on presence rules.
pub mod Links
use openxcap.Prelude.{
  ℕ, Bool, true, false, not, ◌&&◌, ◌||◌, Option, none, some, List, [], ◌∷◌, ◌++◌, any, Str, codes,
  str_eq, length, ltb, if◌then◌else◌, Result, ok, err, ◌>>=◌,
}
use openxcap.Errors.{Fault, constraint_failure, not_well_formed}
use openxcap.Uri.{XcapUri}
use openxcap.Backend.{StatusResponse, Table, Check}
use openxcap.Backend
use openxcap.AppUsage.{Application, Place, raise, validate_document}
use openxcap.AppUsage.Markup.{
  Node, Nodes, has_tag, get, text_of, children_of, is_childless, find, find_all, iter, clark,
}
use openxcap.AppUsage.ResourceLists.{Calls, constraint, parse_external_list_uri, check_owner}

abbrev common_policy : Str
common_policy = codes "urn:ietf:params:xml:ns:common-policy"

abbrev pub oma : Str
oma = codes "urn:oma:xml:xdm:common-policy"

abbrev default_ns : Str
default_ns = codes "urn:ietf:params:xml:ns:pres-rules"

-- a parsed document: the namespaces in scope at its root, and the root
pub record Tree : Type 0 where
  pub namespaces : List Str
  pub root : Node

abbrev limited_tags : List Str
limited_tags =
    clark common_policy (codes "identity")
    ∷ clark oma (codes "external-list")
    ∷ clark oma (codes "other-identity")
    ∷ clark oma (codes "anonymous-request")
    ∷ []

-- a conditions element has one child of each of these tags at most
unfoldable pub is_complex : Node → Bool
unfolding find_all
is_complex c = any (λ t. ltb 1 (length (find_all t (children_of c)))) limited_tags

unfoldable pub check_conditions : List Node → Result Fault (Unit {0})
unfolding is_complex
check_conditions [] = ok tt
check_conditions (c ∷ cs) =
    let rest = check_conditions cs in
    if is_complex c
    then raise constraint_failure (codes "Complex rules are not allowed") []
    else rest

abbrev is_allow : Option Str → Bool
is_allow none = false
is_allow (some t) = str_eq t (codes "allow")

-- sub_handling is not None and sub_handling.text != 'allow'
abbrev denies : Option Node → Bool
denies none = false
denies (some s) = not (is_allow (text_of s))

abbrev has_children : Option Node → Bool
has_children none = false
has_children (some t) = not (is_childless t)

-- a rule that transforms what it does not allow
unfoldable pub transforms_denied : Node → Bool
unfolding find str_eq
transforms_denied rule = elim (find (clark common_policy (codes "actions")) (children_of rule)) [
  | none ↦ false
  | some actions ↦
      denies (find (clark default_ns (codes "sub-handling")) (children_of actions))
      && has_children (find (clark common_policy (codes "transformations")) (children_of rule))
]

unfoldable pub check_rules : List Node → Result Fault (Unit {0})
unfolding transforms_denied
check_rules [] = ok tt
check_rules (rule ∷ rules) =
    let rest = check_rules rules in
    if transforms_denied rule
    then raise constraint_failure (codes "transformations element not allowed") []
    else rest

module _ (calls : Calls) (owner : XcapUri) where
  -- _check_external_list
  unfoldable pub check_external_list : Option Str → Result Fault (Unit {0})
  check_external_list none = ok tt
  check_external_list (some []) = ok tt
  check_external_list (some (c ∷ s)) = do
    uri ← parse_external_list_uri calls (calls.unquote (c ∷ s))
    check_owner calls (codes "Cannot link to another user's list") owner uri

  unfoldable pub check_entries : List Node → Result Fault (Unit {0})
  check_entries [] = ok tt
  check_entries (e ∷ es) = do done ← check_external_list (get (codes "anc") e); check_entries es

  unfoldable pub check_external_lists : List Node → Result Fault (Unit {0})
  check_external_lists [] = ok tt
  check_external_lists (l ∷ ls) = do
    done ← check_entries (iter (clark oma (codes "entry")) l)
    check_external_lists ls

  -- the constraints on a document with the namespace of OMA
  unfoldable pub check_tree : Node → Result Fault (Unit {0})
  check_tree root = do
    done ← check_conditions (iter (clark common_policy (codes "conditions")) root)
    done ← check_rules (iter (clark common_policy (codes "rule")) root)
    if calls.allow_external_references
        then ok tt
        else check_external_lists (iter (clark oma (codes "external-list")) root)

  -- _validate_rules; the parser of lxml gives `none` for a ParseError
  unfoldable pub validate_rules : (Str → Option Tree) → Str → Result Fault (Unit {0})
  unfolding str_eq
  validate_rules parse doc = elim (parse doc) [
    | none ↦ raise not_well_formed [] []
    | some tree ↦ if any (λ n. str_eq n oma) tree.namespaces then check_tree tree.root else ok tt
  ]

  -- PresenceRulesApplication.put_document
  unfoldable pub put_document :
      (Str → Option Tree)
      → Application
      → Check
      → Place
      → Str
      → Str
      → Table
      → Result Fault (StatusResponse × Table)
  put_document parse app check place doc fresh rows = do
    done ← validate_document app doc
    done ← validate_rules parse doc
    Backend.put_document check place.target doc fresh rows
