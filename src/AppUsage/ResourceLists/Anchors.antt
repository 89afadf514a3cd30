-- ===== src/AppUsage/ResourceLists/Anchors.antt =====
-- What the checks of resource lists do not find.
use openxcap.Prelude.{
  ℕ, zero, suc, ◌+◌, ◌≡◌, refl, false, none, some, List, [], ◌∷◌, Str, str_eq, codes, ok,
  >>=-Passed, arith,
}
use openxcap.AppUsage.Markup.{Node, Nodes, node, nil, cons, get, clark}
use openxcap.AppUsage.ResourceLists.{
  Calls, Owner, Seen, none_seen, default_ns, is_seen, see_anchor, check_anchor, check_owner,
  owner_of, parse_external_list_uri, see_child, check_children,
}

-- the same child, over and over
unfoldable pub repeated : ℕ → Node → Nodes
repeated zero c = nil
repeated (suc n) c = cons c (repeated n c)

-- an external list with an anchor
abbrev pub external : Str → Node
external anchor =
    node (some (clark default_ns (codes "external"))) ((codes "anchor", anchor) ∷ []) none nil

module _ (calls : Calls) (local : calls.allow_external_references ≡ false) (owner : Owner) where
  check_anchor-same :
      (anchor : Str) (seen s : Seen) → check_anchor calls owner anchor seen ≡ ok s → s ≡ seen
  unfolding check_anchor parse_external_list_uri check_owner
  check_anchor-same anchor seen s h =
      let (uri, p, h1) =
        >>=-Passed (parse_external_list_uri calls anchor) _ (rw (local, check_anchor) at h) in
      let (o, p', h2) = >>=-Passed (owner_of owner) _ h1 in
      let (d, p'', h3) = >>=-Passed (check_owner calls _ o uri) _ h2 in ground arith

  see_child-external :
      (at : List ℕ) (anchor : Str)
      → see_child calls owner at (external anchor) none_seen
        ≡ check_anchor calls owner (calls.unquote anchor) none_seen
  unfolding see_child see_anchor is_seen get str_eq
  see_child-external at anchor = refl

  -- Where external references are not allowed, an anchor that a list may have once, it may have any
  -- number of times.
  pub check_children-repeated :
      (at : List ℕ) (i n : ℕ) (anchor : Str) (s : Seen)
      → check_anchor calls owner (calls.unquote anchor) none_seen ≡ ok s
      → check_children calls owner at i (repeated n (external anchor)) none_seen ≡ ok tt
  unfolding check_children repeated str_eq
  check_children-repeated at i zero anchor s h = refl
  check_children-repeated at i (suc n) anchor s h =
      let same = check_anchor-same (calls.unquote anchor) none_seen s h in
      rw (see_child-external (i ∷ at) anchor, h, same)
        (check_children-repeated at (i + 1) n anchor s h)
