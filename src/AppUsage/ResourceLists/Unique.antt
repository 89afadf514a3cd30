-- ===== src/AppUsage/ResourceLists/Unique.antt =====
-- The names and URIs in a resource list that has passed the checks.
use openxcap.Prelude.{
  ℕ, ◌+◌, ◌≡◌, Bool, true, false, Option, none, some, List, [], ◌∷◌, Str, codes, ok, >>=-Passed,
  of_option, of_option-eq-ok, arith, Bool-cases, Option-cases, inl, inr, if◌then◌else◌, subst,
}
use openxcap.Errors.{xml_syntax_error}
use openxcap.Uri.{XcapUri}
use openxcap.Backend.{StatusResponse, Table, Check, Key, query_of}
use openxcap.Backend.Rows.{view, IsUnique}
use openxcap.Backend.Stored.{IsStored, put_document-IsStored}
use openxcap.AppUsage.{Application, Place, validate_document}
use openxcap.AppUsage.Markup.{Node, Nodes, node, nil, cons, has_tag, get, clark}
use openxcap.AppUsage.ResourceLists.{
  Calls, Owner, Seen, none_seen, default_ns, is_seen, see_ref, see_anchor, check_ref, check_anchor,
  check_owner, owner_of, parse_external_list_uri, see_child, see_list, is_list, check_list,
  check_children, put_document,
}

-- no value is one of those before it, `seen` included
abbrev pub AreNew : List (Option Str) → List (Option Str) → Type 0
AreNew [] seen = Unit
AreNew (v ∷ l) seen = (is_seen v seen ≡ false) × AreNew l (v ∷ seen)

abbrev pub is_entry : Node → Bool
is_entry c = has_tag (clark default_ns (codes "entry")) c

-- the names of the lists among the children, and the URIs of the entries
unfoldable pub names_of : Nodes → List (Option Str)
unfolding get
names_of nil = []
names_of (cons c cs) =
    let rest = names_of cs in
    if has_tag (clark default_ns (codes "list")) c then get (codes "name") c ∷ rest else rest

unfoldable pub uris_of : Nodes → List (Option Str)
unfolding get
uris_of nil = []
uris_of (cons c cs) =
    let rest = uris_of cs in
    if has_tag (clark default_ns (codes "list")) c
    then rest
    else if is_entry c
    then get (codes "uri") c ∷ rest
    else rest

-- a list in which, and in each list below which, no two lists have one name and no two entries one URI
unfoldable mutual
  pub HasUnique : Node → Type 0
  HasUnique (node t attrs text children) =
      AreNew (names_of children) [] × AreNew (uris_of children) [] × HaveUnique children

  pub HaveUnique : Nodes → Type 0
  HaveUnique nil = Unit
  HaveUnique (cons c cs) =
      (has_tag (clark default_ns (codes "list")) c ≡ true → HasUnique c) × HaveUnique cs

module _ (calls : Calls) where
  see_list-new :
      (at : List ℕ) (c : Node) (seen s : Seen)
      → see_list at c seen ≡ ok s
      → (is_seen (get (codes "name") c) seen.names ≡ false)
        × (s.names ≡ get (codes "name") c ∷ seen.names)
        × (s.uris ≡ seen.uris)
  unfolding see_list
  see_list-new at c seen s h = elim (Bool-cases (is_seen (get (codes "name") c) seen.names)) [
    | inl e ↦ cc (rw e at h)
    | inr e ↦ let q = rw e at h in (e, ground arith, ground arith)
  ]

  check_anchor-keeps :
      (owner : Owner) (anchor : Str) (seen s : Seen)
      → check_anchor calls owner anchor seen ≡ ok s
      → (s.names ≡ seen.names) × (s.uris ≡ seen.uris)
  unfolding check_anchor parse_external_list_uri check_owner
  check_anchor-keeps owner anchor seen s h = elim (Bool-cases calls.allow_external_references) [
    | inl e ↦ elim (Option-cases (calls.scheme anchor)) [
      | inl n ↦ cc (rw (e, check_anchor, n) at h)
      | inr (scheme, n) ↦ let q = rw (e, check_anchor, n) at h in ground arith
    ]
    | inr e ↦
        let (uri, p, h1) =
          >>=-Passed (parse_external_list_uri calls anchor) _ (rw (e, check_anchor) at h) in
        let (o, p', h2) = >>=-Passed (owner_of owner) _ h1 in
        let (d, p'', h3) = >>=-Passed (check_owner calls _ o uri) _ h2 in
        (ground arith, ground arith)
  ]

  see_ref-keeps :
      (owner : Owner) (at : List ℕ) (ref : Option Str) (seen s : Seen)
      → see_ref calls owner at ref seen ≡ ok s
      → (s.names ≡ seen.names) × (s.uris ≡ seen.uris)
  unfolding see_ref
  see_ref-keeps owner at none seen s h = ground arith
  see_ref-keeps owner at (some r) seen s h = elim (Bool-cases (is_seen (some r) seen.refs)) [
    | inl e ↦ cc (rw e at h)
    | inr e ↦
        let (d, p, q) = >>=-Passed (check_ref calls owner (calls.unquote r)) _ (rw e at h) in
        (ground arith, ground arith)
  ]

  see_anchor-keeps :
      (owner : Owner) (at : List ℕ) (anchor : Option Str) (seen s : Seen)
      → see_anchor calls owner at anchor seen ≡ ok s
      → (s.names ≡ seen.names) × (s.uris ≡ seen.uris)
  unfolding see_anchor
  see_anchor-keeps owner at none seen s h = ground arith
  see_anchor-keeps owner at (some a) seen s h = elim (Bool-cases (is_seen (some a) seen.anchors)) [
    | inl e ↦ cc (rw e at h)
    | inr e ↦ check_anchor-keeps owner (calls.unquote a) seen s (rw e at h)
  ]

  other_child-keeps :
      (owner : Owner) (at : List ℕ) (c : Node) (seen s : Seen)
      → (if has_tag (clark default_ns (codes "entry-ref")) c
          then see_ref calls owner at (get (codes "ref") c) seen
          else if has_tag (clark default_ns (codes "external")) c
          then see_anchor calls owner at (get (codes "anchor") c) seen
          else ok seen)
        ≡ ok s
      → (s.names ≡ seen.names) × (s.uris ≡ seen.uris)
  other_child-keeps owner at c seen s h =
      elim (Bool-cases (has_tag (clark default_ns (codes "entry-ref")) c)) [
        | inl e ↦ see_ref-keeps owner at (get (codes "ref") c) seen s (rw e at h)
        | inr e ↦ elim (Bool-cases (has_tag (clark default_ns (codes "external")) c)) [
          | inl g ↦ see_anchor-keeps owner at (get (codes "anchor") c) seen s (rw (e, g) at h)
          | inr g ↦ let q = rw (e, g) at h in (ground arith, ground arith)
        ]
      ]

  see_child-new :
      (owner : Owner) (at : List ℕ) (c : Node) (seen s : Seen)
      → see_child calls owner at c seen ≡ ok s
      → (s.names ≡ seen.names)
        × (is_entry c ≡ true
            → (is_seen (get (codes "uri") c) seen.uris ≡ false)
              × (s.uris ≡ get (codes "uri") c ∷ seen.uris))
        × (is_entry c ≡ false → s.uris ≡ seen.uris)
  unfolding see_child
  see_child-new owner at c seen s h = elim (Bool-cases (is_entry c)) [
    | inl e ↦ elim (Bool-cases (is_seen (get (codes "uri") c) seen.uris)) [
      | inl g ↦ cc (rw (e, g) at h)
      | inr g ↦
          let q = rw (e, g) at h in
          (ground arith, (λ x. (g, ground arith)), (λ x. absurd (ground arith)))
    ]
    | inr e ↦
        let q = rw e at h in
        let keeps = other_child-keeps owner at c seen s q in
        (keeps.0, (λ x. absurd (ground arith)), (λ x. keeps.1))
  ]

  -- Where check_list lets a list through, no two lists in it have one name and no two entries in it
  -- have one URI, and so in each list below it.
  mutual
    unfolding check_list HasUnique names_of uris_of

    check_list-HasUnique :
        (owner : Owner) (at : List ℕ) (c : Node) → check_list calls owner at c ≡ ok tt → HasUnique c
    check_list-HasUnique owner at (node t attrs text children) h =
        check_children-HaveUnique owner at 0 children none_seen h

    check_children-HaveUnique :
        (owner : Owner) (at : List ℕ) (i : ℕ) (children : Nodes) (seen : Seen)
        → check_children calls owner at i children seen ≡ ok tt
        → AreNew (names_of children) seen.names
          × AreNew (uris_of children) seen.uris
          × HaveUnique children
    check_children-HaveUnique owner at i nil seen h = (tt, tt, tt)
    check_children-HaveUnique owner at i (cons c cs) seen h = elim (Bool-cases (is_list c)) [
      | inl e ↦
          let (s, p, h1) = >>=-Passed (see_list (i ∷ at) c seen) _ (rw e at h) in
          let (done, q, h2) = >>=-Passed (check_list calls owner (i ∷ at) c) _ h1 in
          let (new, names, uris) = see_list-new (i ∷ at) c seen s p in
          let (a, b, d) = check_children-HaveUnique owner at (i + 1) cs s h2 in
          rw e (
            (new, subst (AreNew (names_of cs)) names a),
            subst (AreNew (uris_of cs)) uris b,
            ((λ x. check_list-HasUnique owner (i ∷ at) c q), d),
          )
      | inr e ↦
          let (s, p, h1) = >>=-Passed (see_child calls owner (i ∷ at) c seen) _ (rw e at h) in
          let (names, is, isnt) = see_child-new owner (i ∷ at) c seen s p in
          let (a, b, d) = check_children-HaveUnique owner at (i + 1) cs s h1 in
          let a' = subst (AreNew (names_of cs)) names a in
          elim (Bool-cases (is_entry c)) [
            | inl g ↦
                let (new, uris) = is g in
                rw (e, g) (a', (new, subst (AreNew (uris_of cs)) uris b), ((λ x. cc), d))
            | inr g ↦ rw (e, g) (a', subst (AreNew (uris_of cs)) (isnt g) b, ((λ x. cc), d))
          ]
    ]

  -- Where a PUT of resource lists succeeds, the storage has the document, and its root has unique
  -- names and URIs.
  pub put_document-HasUnique :
      (root : Str → Option Node) (app : Application) (check : Check) (place : Place) (uri : XcapUri)
      (k : Key) (doc fresh : Str) (rows after : Table) (r : StatusResponse)
      → query_of place.target ≡ ok (some k)
      → IsUnique rows
      → put_document calls root app check place uri doc fresh rows ≡ ok (r, after)
      → IsStored doc (view after k) × (tree : Node) × (root doc ≡ some tree) × HasUnique tree
  unfolding put_document
  put_document-HasUnique root app check place uri k doc fresh rows after r q u h =
      let (done, p, h1) = >>=-Passed (validate_document app doc) _ h in
      let (tree, e, h2) = >>=-Passed (of_option xml_syntax_error (root doc)) _ h1 in
      let (done', c, h3) = >>=-Passed (check_list calls (some uri) [] tree) _ h2 in
      (
        put_document-IsStored check place.target k doc fresh rows after r q u h3,
        tree,
        of_option-eq-ok xml_syntax_error (root doc) e,
        check_list-HasUnique (some uri) [] tree c,
      )
