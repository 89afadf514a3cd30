-- ===== src/Element/Insert/Root.antt =====
-- What InsertPointLocator does where a selector fails at the root: it reads fields of a parent that
-- the root does not have.
use openxcap.Prelude.{◌≡◌, refl, true, some, List, [], ◌∷◌, arith, Str, err, subst}
use openxcap.Xpath.{ℤ, Step}
use openxcap.Element.{attribute_error, name_matches, start_document}
use openxcap.Element.Insert
use openxcap.Element.Insert.{start_element_ns, handle}
use openxcap.Element.Tree.{Tree, tree_name, element, events, selected}
use openxcap.Element.Splice.{Parser, find, put}
use openxcap.Element.Splice.Laws.{FindsAll, IsParsed, find-selected}

-- A position on the first of several steps is compared with the position of no parent.
run_positioned :
    (step next : Step) (steps : List Step) (t : Tree) (position : ℤ)
    → step.position ≡ some position
    → name_matches step.name (tree_name t) ≡ true
    → Insert.run (step ∷ next ∷ steps) (events t) start_document ≡ err attribute_error
unfolding Insert.run events
run_positioned step next steps (element n attrs s e f) position h m = ground arith

-- A PUT whose selector has a position on its first step and more steps behind it raises
-- AttributeError for every document that it does not select an element of, if the name of the
-- document's root passes the first step: no element can be created under such a selector.
pub put-positioned_root :
    (parser : Parser) (document text element_str : Str) (t : Tree) (step next : Step)
    (steps : List Step) (position : ℤ)
    → IsParsed parser document text t
    → selected (step ∷ next ∷ steps) t ≡ []
    → step.position ≡ some position
    → name_matches step.name (tree_name t) ≡ true
    → put parser document (step ∷ next ∷ steps) element_str ≡ err attribute_error
unfolding put
put-positioned_root parser document text element_str t step next steps position p none_selected h
      m =
    let selector = step ∷ next ∷ steps in
    let r =
      subst (λ ms. FindsAll ms (find parser document selector)) none_selected
        (find-selected parser document text t selector p) in
    rw (r, p.decoded, p.calls, run_positioned step next steps t position h m) refl
