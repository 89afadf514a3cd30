-- ===== src/Element/Splice/Updates.antt =====
-- get, put and delete at the only element that a selector denotes, and where it denotes none.
use openxcap.Prelude.{
  ℕ, ◌≤◌, ◌≡◌, refl, false, none, some, List, [], ◌∷◌, ◌++◌, arith, Str, ok, take, drop, slice,
  subst, ap,
}
use openxcap.Xpath.{Step}
use openxcap.Element.Tree.{Tree, Match, selected}
use openxcap.Element.Tree.Placed.{IsPlaced, selected-EndsBehind}
use openxcap.Element.Splice.{Parser, find, get, put, delete}
use openxcap.Element.Splice.Laws.{FindsAll, IsParsed, find-selected, take-slice-drop}

module _ (parser : Parser) (document text : Str) (t : Tree) (selector : List Step)
    (p : IsParsed parser document text t) where
  -- the place of the only element
  found_place :
      (m : Match)
      → IsPlaced t
      → selected selector t ≡ m ∷ []
      → (e : ℕ) × (find parser document selector ≡ ok (some (m.start, e))) × (m.start ≤ e)
  found_place m placed only =
      let (e, r, b) =
        subst (λ ms. FindsAll ms (find parser document selector)) only
          (find-selected parser document text t selector p) in
      let behind = rw only at (selected-EndsBehind selector t placed) in
      (e, r, omega (arith, behind.0))

  -- Where a selector denotes one element, GET returns a part of the document; putting that text
  -- back changes nothing, and creates nothing; and DELETE takes exactly that part out.
  pub put-get :
      (m : Match)
      → IsPlaced t
      → selected selector t ≡ m ∷ []
      → (before old after : Str) × (document ≡ before ++ (old ++ after))
        × (get parser document selector ≡ ok (some old))
        × (put parser document selector old ≡ ok (some (document, false)))
        × (delete parser document selector ≡ ok (some (before ++ after)))
  unfolding get put delete
  put-get m placed only =
      let (e, r, b) = found_place m placed only in
      let whole = take-slice-drop m.start e document b in
      (
        take m.start document,
        slice m.start e document,
        drop e document,
        ground arith,
        rw r refl,
        rw r (ap (λ d. ok (some (d, false))) whole),
        rw r refl,
      )

  -- Where it denotes none, GET and DELETE find nothing and say so.
  pub not_found :
      selected selector t ≡ []
      → (get parser document selector ≡ ok none) × (delete parser document selector ≡ ok none)
  unfolding get delete
  not_found h =
      let r =
        subst (λ ms. FindsAll ms (find parser document selector)) h
          (find-selected parser document text t selector p) in
      (rw r refl, rw r refl)
