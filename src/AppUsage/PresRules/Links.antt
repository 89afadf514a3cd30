-- ===== src/AppUsage/PresRules/Links.antt =====
-- The rules that are stored.
use openxcap.Prelude.{
  ◌≡◌, Bool, true, false, Option, none, some, List, [], ◌∷◌, any, Str, codes, str_eq, str_eq_iff,
  All, if◌then◌else◌, Result, ok, >>=-Passed, Bool-cases, inl, inr,
}
use openxcap.Errors.{Fault}
use openxcap.Uri.{XcapUri, same_user}
use openxcap.Backend.{StatusResponse, Table, Check, Key, query_of}
use openxcap.Backend.Rows.{view, IsUnique}
use openxcap.Backend.Stored.{IsStored, put_document-IsStored}
use openxcap.AppUsage.{Application, Place, validate_document}
use openxcap.AppUsage.Markup.{Node, get, iter, clark}
use openxcap.AppUsage.ResourceLists.{Calls, parse_external_list_uri, check_owner}
use openxcap.AppUsage.PresRules.{
  Tree, common_policy, oma, is_complex, check_conditions, transforms_denied, check_rules,
  check_external_list, check_entries, check_external_lists, check_tree, validate_rules,
  put_document,
}

check_conditions-All :
    (cs : List Node) → check_conditions cs ≡ ok tt → All (λ c. is_complex c ≡ false) cs
unfolding check_conditions
check_conditions-All [] h = tt
check_conditions-All (c ∷ cs) h = elim (Bool-cases (is_complex c)) [
  | inl e ↦ cc (rw e at h)
  | inr e ↦ (e, check_conditions-All cs (rw e at h))
]

check_rules-All :
    (rs : List Node) → check_rules rs ≡ ok tt → All (λ r. transforms_denied r ≡ false) rs
unfolding check_rules
check_rules-All [] h = tt
check_rules-All (r ∷ rs) h = elim (Bool-cases (transforms_denied r)) [
  | inl e ↦ cc (rw e at h)
  | inr e ↦ (e, check_rules-All rs (rw e at h))
]

else_of :
    (b : Bool) (r : Result Fault (Unit {0}))
    → (if b then ok tt else r) ≡ ok tt
    → b ≡ false
    → r ≡ ok tt
else_of true r h e = cc
else_of false r h e = h

module _ (calls : Calls) (owner : XcapUri) where
  -- no link, or a link to a list of the owner, in the same root
  abbrev pub IsOwn : Option Str → Type 0
  IsOwn none = Unit
  IsOwn (some []) = Unit
  IsOwn (some (c ∷ s)) =
      (uri : XcapUri) × (parse_external_list_uri calls (calls.unquote (c ∷ s)) ≡ ok uri)
      × (uri.xcap_root ≡ owner.xcap_root)
      × (same_user uri.user owner.user ≡ true)

  check_owner-own :
      (phrase : Str) (uri : XcapUri)
      → check_owner calls phrase owner uri ≡ ok tt
      → (uri.xcap_root ≡ owner.xcap_root) × (same_user uri.user owner.user ≡ true)
  unfolding check_owner
  check_owner-own phrase uri h = elim (Bool-cases (str_eq uri.xcap_root owner.xcap_root)) [
    | inr e ↦ cc (rw (e, check_owner) at h)
    | inl e ↦ elim (Bool-cases (same_user uri.user owner.user)) [
      | inr g ↦ cc (rw (e, g, check_owner) at h)
      | inl g ↦ ((str_eq_iff uri.xcap_root owner.xcap_root).0 e, g)
    ]
  ]

  check_external_list-IsOwn : (o : Option Str) → check_external_list calls owner o ≡ ok tt → IsOwn o
  unfolding check_external_list
  check_external_list-IsOwn none h = tt
  check_external_list-IsOwn (some []) h = tt
  check_external_list-IsOwn (some (c ∷ s)) h =
      let (uri, p, h1) = >>=-Passed (parse_external_list_uri calls (calls.unquote (c ∷ s))) _ h in
      let (root, user) = check_owner-own _ uri h1 in (uri, p, root, user)

  check_entries-All :
      (es : List Node)
      → check_entries calls owner es ≡ ok tt
      → All (λ e. IsOwn (get (codes "anc") e)) es
  unfolding check_entries
  check_entries-All [] h = tt
  check_entries-All (e ∷ es) h =
      let (done, p, q) = >>=-Passed (check_external_list calls owner (get (codes "anc") e)) _ h in
      (check_external_list-IsOwn (get (codes "anc") e) p, check_entries-All es q)

  abbrev pub HasOwnEntries : Node → Type 0
  HasOwnEntries l = All (λ e. IsOwn (get (codes "anc") e)) (iter (clark oma (codes "entry")) l)

  check_external_lists-All :
      (ls : List Node) → check_external_lists calls owner ls ≡ ok tt → All HasOwnEntries ls
  unfolding check_external_lists
  check_external_lists-All [] h = tt
  check_external_lists-All (l ∷ ls) h =
      let (done, p, q) =
        >>=-Passed (check_entries calls owner (iter (clark oma (codes "entry")) l)) _ h in
      (check_entries-All (iter (clark oma (codes "entry")) l) p, check_external_lists-All ls q)

  -- a tree that keeps the constraints
  abbrev pub HasAllowedRules : Node → Type 0
  HasAllowedRules root =
      All (λ c. is_complex c ≡ false) (iter (clark common_policy (codes "conditions")) root)
      × All (λ r. transforms_denied r ≡ false) (iter (clark common_policy (codes "rule")) root)
      × (calls.allow_external_references ≡ false
          → All HasOwnEntries (iter (clark oma (codes "external-list")) root))

  check_tree-HasAllowedRules :
      (root : Node) → check_tree calls owner root ≡ ok tt → HasAllowedRules root
  unfolding check_tree
  check_tree-HasAllowedRules root h =
      let (done, p, h1) =
        >>=-Passed (check_conditions (iter (clark common_policy (codes "conditions")) root)) _ h in
      let (done', q, h2) =
        >>=-Passed (check_rules (iter (clark common_policy (codes "rule")) root)) _ h1 in
      (
        check_conditions-All (iter (clark common_policy (codes "conditions")) root) p,
        check_rules-All (iter (clark common_policy (codes "rule")) root) q,
        (λ local.
            check_external_lists-All (iter (clark oma (codes "external-list")) root)
              (else_of calls.allow_external_references _ h2 local)),
      )

  validate_rules-tree :
      (parse : Str → Option Tree) (doc : Str) (tree : Tree)
      → parse doc ≡ some tree
      → any (λ n. str_eq n oma) tree.namespaces ≡ true
      → validate_rules calls owner parse doc ≡ ok tt
      → HasAllowedRules tree.root
  unfolding validate_rules
  validate_rules-tree parse doc tree e n h =
      check_tree-HasAllowedRules tree.root (rw (e, n, validate_rules) at h)

  -- Where a PUT of presence rules with the namespace of OMA in scope succeeds, the storage has the
  -- document, no conditions in it are complex, no rule in it transforms what it does not allow, and,
  -- if external references are not allowed, each entry of its external lists has no link, or one to a
  -- list of the owner of the document in the root of the request.
  pub put_document-HasAllowedRules :
      (parse : Str → Option Tree) (app : Application) (check : Check) (place : Place) (k : Key)
      (doc fresh : Str) (rows after : Table) (r : StatusResponse) (tree : Tree)
      → query_of place.target ≡ ok (some k)
      → IsUnique rows
      → parse doc ≡ some tree
      → any (λ n. str_eq n oma) tree.namespaces ≡ true
      → put_document calls owner parse app check place doc fresh rows ≡ ok (r, after)
      → IsStored doc (view after k) × HasAllowedRules tree.root
  unfolding put_document
  put_document-HasAllowedRules parse app check place k doc fresh rows after r tree q u e n h =
      let (done, p, h1) = >>=-Passed (validate_document app doc) _ h in
      let (done', p', h2) = >>=-Passed (validate_rules calls owner parse doc) _ h1 in
      (
        put_document-IsStored check place.target k doc fresh rows after r q u h2,
        validate_rules-tree parse doc tree e n p',
      )
