-- ===== src/Element/Tests.antt =====
-- Runs on one small document, and the theorems at it.
use openxcap.Prelude.{
  ℕ, ◌≡◌, refl, true, false, none, some, List, [], ◌∷◌, ◌++◌, Str, codes, str_eq, split_first, ok,
  err, arith,
}
use openxcap.Xpath.{token_is, pos, tag, Step, qname, star}
use openxcap.Element.{
  Name, Locator, attribute_error, start_document, name_matches, position_passes, att_test_passes,
}
use openxcap.Element.Utf8.{utf8_decode}
use openxcap.Element.Find
use openxcap.Element.Find.Core.{core}
use openxcap.Element.Find.Located.{verdict, run-selected}
use openxcap.Element.Insert
use openxcap.Element.Insert.Root.{put-positioned_root}
use openxcap.Element.Tree.{Tree, element, nil, cons, events, selected}
use openxcap.Element.Tree.Placed.{IsPlaced}
use openxcap.Element.Splice.{Parser, find, get, put, delete}
use openxcap.Element.Splice.Laws.{FindsAll, IsParsed, find-selected}
use openxcap.Element.Splice.Updates.{put-get}

-- what a run computes with
element_code : Unit {0}
unfolding get put delete find Find.run Insert.run utf8_decode events selected name_matches token_is
    str_eq position_passes att_test_passes split_first IsPlaced
element_code = tt

abbrev nm : Str → Name
nm s = record { namespace = none; local = s }

-- <a><b/><c>t</c></a>
abbrev document : Str
document = codes "<a><b/><c>t</c></a>"

abbrev tree : Tree
tree =
    element (nm (codes "a")) [] 0 15
      (cons (element (nm (codes "b")) [] 3 7 nil) (cons (element (nm (codes "c")) [] 7 11 nil) nil))

abbrev parser : Parser
parser text = record { calls = events tree; fails = false }

abbrev named : Str → Step
named s = record { name = qname none (tag s); position = none; att_test = none }

abbrev at_position : ℕ → Step → Step
at_position n step = record step { position = some (pos n) }

abbrev path : Str → List Step
path s = named (codes "a") ∷ named s ∷ []

parsed : IsParsed parser document document tree
unfolding element_code
parsed = record { decoded = refl; calls = refl; complete = refl }

get_tests :
    (get parser document (path (codes "c")) ≡ ok (some (codes "<c>t</c>")))
    × (get parser document (path (codes "b")) ≡ ok (some (codes "<b/>")))
    × (get parser document (named (codes "a") ∷ record (named (codes "b")) { name = star } ∷ [])
        ≡ err attribute_error)
    × (get parser document
          (named (codes "a") ∷ at_position 2 (record (named (codes "b")) { name = star }) ∷ [])
        ≡ ok (some (codes "<c>t</c>")))
    × (get parser document (path (codes "d")) ≡ ok none)
unfolding element_code
get_tests = (refl, refl, refl, refl, refl)

put_tests :
    (put parser document (path (codes "d")) (codes "<d/>")
      ≡ ok (some (codes "<a><b/><c>t</c><d/></a>", true)))
    × (put parser document (path (codes "b")) (codes "<b>1</b>")
        ≡ ok (some (codes "<a><b>1</b><c>t</c></a>", false)))
    × (delete parser document (path (codes "b")) ≡ ok (some (codes "<a><c>t</c></a>")))
unfolding element_code
put_tests = (refl, refl, refl)

c_match :
    selected (path (codes "c")) tree ≡ record { start = 7; end = 11; name = nm (codes "c") } ∷ []
unfolding element_code
c_match = refl

d_unmatched : selected (path (codes "d")) tree ≡ []
unfolding element_code
d_unmatched = refl

tree-IsPlaced : IsPlaced tree
unfolding element_code
tree-IsPlaced = omega arith

run-selected_example :
    (l : Locator) × (Find.run (path (codes "c")) (events tree) start_document ≡ ok l)
    × (core l ≡ verdict (selected (path (codes "c")) tree))
run-selected_example = run-selected (path (codes "c")) tree

find-selected_example :
    FindsAll (selected (path (codes "c")) tree) (find parser document (path (codes "c")))
find-selected_example = find-selected parser document document tree (path (codes "c")) parsed

put-get_example :
    (before old after : Str) × (document ≡ before ++ (old ++ after))
    × (get parser document (path (codes "c")) ≡ ok (some old))
    × (put parser document (path (codes "c")) old ≡ ok (some (document, false)))
    × (delete parser document (path (codes "c")) ≡ ok (some (before ++ after)))
put-get_example =
    put-get parser document document tree (path (codes "c")) parsed
      (record { start = 7; end = 11; name = nm (codes "c") }) tree-IsPlaced c_match

abbrev positioned : List Step
positioned = at_position 1 (named (codes "a")) ∷ named (codes "d") ∷ []

positioned_unmatched : selected positioned tree ≡ []
unfolding element_code
positioned_unmatched = refl

root_passes : name_matches (named (codes "a")).name (nm (codes "a")) ≡ true
unfolding element_code
root_passes = refl

put-positioned_root_example : put parser document positioned (codes "<d/>") ≡ err attribute_error
put-positioned_root_example =
    put-positioned_root parser document document (codes "<d/>") tree
      (at_position 1 (named (codes "a"))) (named (codes "d")) [] (pos 1) parsed positioned_unmatched
      refl root_passes
