-- ===== src/Element/Tree.antt =====
-- The element tree of a document, with the positions that the parser reports, and the elements that
-- a selector denotes in it: the specification of the locators. Not translated from the code.
-- pub mod Skip
pub mod Placed
use openxcap.Prelude.{
  ℕ, suc, Bool, true, false, ◌&&◌, Option, none, some, List, [], ◌∷◌, ◌++◌, if◌then◌else◌,
}
use openxcap.Xpath.{Step}
use openxcap.Element.{
  Name, Attribute, Event, start_element, end_element, name_matches, att_test_passes,
  position_passes,
}

mutual
  pub data Tree : Type 0 where
    element : Name → List Attribute → (start end : ℕ) → Forest → Tree

  pub data Forest : Type 0 where
    nil : Forest
    cons : Tree → Forest → Forest

unfoldable mutual
  pub events : Tree → List Event
  events (element n attrs s e f) = start_element n attrs s ∷ (events_of f ++ end_element n e ∷ [])

  pub events_of : Forest → List Event
  events_of nil = []
  events_of (cons t f) = events t ++ events_of f

-- a match: where the element starts, where its end is reported, and its name
pub record Match : Type 0 where
  pub start : ℕ
  pub end : ℕ
  pub name : Name

abbrev pub tree_name : Tree → Name
tree_name (element n attrs s e f) = n

abbrev pub tree_attributes : Tree → List Attribute
tree_attributes (element n attrs s e f) = attrs

-- `t` passes the tests of a step as the (k + 1)-th child that its name test admits
abbrev pub passes : Step → ℕ → Tree → Bool
passes step k t =
    name_matches step.name (tree_name t)
    && (position_passes step.position (suc k) && att_test_passes step.att_test (tree_attributes t))

-- how many children have passed the name test, `t` included
abbrev pub count_of : Step → Tree → ℕ → ℕ
count_of step t k = if name_matches step.name (tree_name t) then suc k else k

unfoldable mutual
  -- what the rest of a selector denotes below an element that its first steps have reached
  pub matches_below : Tree → List Step → List Match
  matches_below (element n attrs s e f) [] = record { start = s; end = e; name = n } ∷ []
  matches_below (element n attrs s e f) (step ∷ steps) = matches_in f step steps 0

  -- the same among siblings, `k` of whose elder ones have passed the name test of `step`
  pub matches_in : Forest → Step → List Step → ℕ → List Match
  matches_in nil step steps k = []
  matches_in (cons t f) step steps k =
      let below = matches_below t steps in
      (if passes step k t then below else []) ++ matches_in f step steps (count_of step t k)

-- the elements that a selector denotes in a document
unfoldable pub selected : List Step → Tree → List Match
unfolding matches_in
selected [] t = []
selected (step ∷ steps) t = matches_in (cons t nil) step steps 0
