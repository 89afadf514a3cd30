-- ===== src/Element/Find/Located.antt =====
-- The result of a whole run of ElementLocator over the events of a document.
use openxcap.Prelude.{
  ◌≡◌, refl, ap, ◌∙◌, some, List, [], ◌∷◌, arith, Result, ok, err, append-nil, Bool-cases, inl, inr,
}
use openxcap.Xpath.{Step}
use openxcap.Element.{done, many, name_matches, Locator, ElementError, start_document}
use openxcap.Element.Find.{closing_tag, run}
use openxcap.Element.Find.Core.{core, core_result, run_core, core-run}
use openxcap.Element.Find.Steps.{note, noted, beyond, after_tree, here_of, counted, IsBetween}
use openxcap.Element.Find.Refinement.{run-tree}
use openxcap.Element.Tree.{Tree, Match, tree_name, cons, nil, events, matches_in, selected}

-- what the locator has to report of the elements that a selector denotes
unfoldable pub verdict : List Match → Locator
verdict [] = start_document
verdict (m ∷ []) = record start_document {
  state = done;
  start_pos = some m.start;
  end_pos = some m.end;
  end_tag = some (closing_tag m.name);
}
verdict (m ∷ _ ∷ _) = record start_document {
  state = many;
  start_pos = some m.start;
  end_pos = some m.end;
  end_tag = some (closing_tag m.name);
}

noted-many : (ms : List Match) (l : Locator) → l.state ≡ many → noted ms l ≡ l
unfolding noted note
noted-many [] l h = refl
noted-many (m ∷ ms) l h = ground (arith, noted-many ms (note m l) (ground arith))

noted-start : (ms : List Match) → noted ms start_document ≡ verdict ms
unfolding noted note verdict
noted-start [] = refl
noted-start (m ∷ []) = refl
noted-start (m ∷ m' ∷ ms) = noted-many ms (verdict (m ∷ m' ∷ [])) refl

at_root : (step : Step) (steps : List Step) → IsBetween (step ∷ steps) step steps 0 start_document
at_root step steps = ground arith

counted_root : (step : Step) (t : Tree) → counted step (tree_name t) start_document ≡ start_document
counted_root step t = elim (Bool-cases (name_matches step.name (tree_name t))) [
  | inl h ↦ rw h
  | inr h ↦ rw h
]

after_root :
    (step : Step) (steps : List Step) (t : Tree)
    → after_tree t step steps 0 start_document ≡ verdict (selected (step ∷ steps) t)
unfolding after_tree selected matches_in
after_root step steps t =
    rw (counted_root step t, append-nil) (noted-start (here_of t step steps 0))

run_core-selected :
    (selector : List Step) (t : Tree)
    → run_core selector (events t) start_document ≡ ok (verdict (selected selector t))
unfolding selected verdict run_core events
run_core-selected [] t =
    simp append-nil at (beyond (cons t nil) [] [] start_document refl refl refl)
run_core-selected (step ∷ steps) t =
    simp append-nil at
      (run-tree t (step ∷ steps) step steps 0 [] start_document (at_root step steps))
    ∙ ap ok (after_root step steps t)

result_of_core :
    (r : Result ElementError Locator) (v : Locator)
    → core_result r ≡ ok v
    → (l : Locator) × (r ≡ ok l) × (core l ≡ v)
result_of_core (ok l) v h = (l, refl, ground arith)
result_of_core (err e) v h = cc

-- Over the events of any document, the locator raises nothing, and ends with what the selector
-- denotes there: LOOKING for no element, DONE with the place of the only one, MANY for more.
pub run-selected :
    (selector : List Step) (t : Tree)
    → (l : Locator) × (run selector (events t) start_document ≡ ok l)
      × (core l ≡ verdict (selected selector t))
run-selected selector t =
    result_of_core (run selector (events t) start_document) (verdict (selected selector t))
      (core-run selector (events t) start_document ∙ run_core-selected selector t)
