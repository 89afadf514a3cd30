-- ===== src/Element/Find/Between.antt =====
-- Where the machine of `Core` stands between elements, and how it enters and leaves one.
use openxcap.Prelude.{
  ℕ, suc, ◌-◌, ◌≡◌, refl, sym, ap, ◌∙◌, true, none, List, [], ◌∷◌, ◌++◌, arith, ok, length,
  get_elem?, Bool-cases, inl, inr,
}
use openxcap.Xpath.{Step}
use openxcap.Element.{Name, end_element, Locator, PathStep, count_child, name_matches}
use openxcap.Element.Find.{enter, on_match, push, end_marked}
use openxcap.Element.Find.Core.{core, handle_core}
use openxcap.Element.Find.Steps.{
  note, noted, noted-SamePlace, counted, here_of, after_tree, after_forest, IsBetween,
  get_elem?-drop, get_elem?-drop_nil,
}
use openxcap.Element.Tree.{Tree, Forest, nil, cons, Match, tree_name, count_of, matches_in}

module _ (selector : List Step) (step : Step) (k : ℕ) (l : Locator) (nm : Name) (s e : ℕ) where
  -- the start and the end of an element that the last step denotes
  pub enter_last :
      IsBetween selector step [] k l
      → name_matches step.name nm ≡ true
      → core (enter selector nm s (record l { path = count_child l.path }))
        ≡ on_match s l.state (push nm (record l { path = count_child l.path }))
  unfolding enter
  enter_last b h = let (x, y, z) = get_elem?-drop l.curstep selector b.onward in ground arith

  pub leave_last :
      IsBetween selector step [] k l
      → name_matches step.name nm ≡ true
      → handle_core selector
          (end_element nm e)
          (on_match s l.state (push nm (record l { path = count_child l.path })))
        ≡ ok (note (record { start = s; end = e; name = nm }) (counted step nm l))
  unfolding handle_core end_marked note
  leave_last b h = let (x, y, z) = get_elem?-drop l.curstep selector b.onward in ground arith

module _ (selector : List Step) (step next : Step) (steps : List Step) (k : ℕ) (l : Locator)
    (b : IsBetween selector step (next ∷ steps) k l) (nm : Name) where
  -- inside an element that an inner step admits
  abbrev pub inside : Locator
  inside = push nm (record l { path = count_child l.path })

  pub enter_inner :
      (s : ℕ) → core (enter selector nm s (record l { path = count_child l.path })) ≡ inside
  unfolding enter
  enter_inner s = let (x, y, z) = get_elem?-drop l.curstep selector b.onward in ground arith

  pub inside-IsBetween : IsBetween selector next steps 0 inside
  inside-IsBetween =
      let (x, y, z) = get_elem?-drop l.curstep selector b.onward in
      record {
        not_skipping = b.not_skipping;
        depth = ground arith;
        resting = b.resting;
        no_mark = b.no_mark;
        onward = y;
        position = refl;
      }

-- what an element leaves behind it, at the next sibling
module _ (selector : List Step) (step : Step) (steps : List Step) (k : ℕ) where
  pub counted-IsBetween :
      (l : Locator) (t : Tree)
      → (p : PathStep) (path : List PathStep) → l.path ≡ p ∷ path
      → IsBetween selector step steps k l
      → IsBetween selector step steps (count_of step t k) (counted step (tree_name t) l)
  counted-IsBetween l t p path e b = ground arith

  pub noted-IsBetween :
      (ms : List Match) (l : Locator)
      → IsBetween selector step steps k l
      → IsBetween selector step steps k (noted ms l)
  noted-IsBetween ms l b = let same = noted-SamePlace ms l in ground arith

-- the machine moved to another place, with the result so far
abbrev pub moved : List PathStep → ℕ → Locator → Locator
moved path c l = record l { path = path; curstep = c }

pub moved-note :
    (path : List PathStep) (c : ℕ) (m : Match) (l : Locator)
    → moved path c (note m l) ≡ note m (moved path c l)
unfolding note
moved-note path c m l = ground arith

pub moved-noted :
    (path : List PathStep) (c : ℕ) (ms : List Match) (l : Locator)
    → moved path c (noted ms l) ≡ noted ms (moved path c l)
unfolding noted
moved-noted path c [] l = refl
moved-noted path c (m ∷ ms) l =
    moved-noted path c ms (note m l) ∙ ap (noted ms) (moved-note path c m l)

pub noted-append :
    (ms ms' : List Match) (l : Locator) → noted (ms ++ ms') l ≡ noted ms' (noted ms l)
unfolding noted
noted-append [] ms' l = refl
noted-append (m ∷ ms) ms' l = noted-append ms ms' (note m l)

-- Behind siblings the result so far is that of their matches.
pub moved-after_forest :
    (f : Forest) (step : Step) (steps : List Step) (k : ℕ) (path : List PathStep) (c : ℕ)
    (l : Locator)
    → moved path c (after_forest f step steps k l)
      ≡ noted (matches_in f step steps k) (moved path c l)
unfolding after_forest after_tree matches_in noted
moved-after_forest nil step steps k path c l = refl
moved-after_forest (cons t f) step steps k path c l =
    moved-after_forest f step steps (count_of step t k) path c (after_tree t step steps k l)
    ∙ ap (noted (matches_in f step steps (count_of step t k)))
        (moved-noted path c (here_of t step steps k) (counted step (tree_name t) l))
    ∙ sym (
        noted-append (here_of t step steps k) (matches_in f step steps (count_of step t k))
          (moved path c l))

-- what the path is behind siblings
pub record IsInside (p0 : List PathStep) (l : Locator) : Type 0 where
  pub top : PathStep
  pub path : l.path ≡ top ∷ p0

pub after_tree-IsInside :
    (t : Tree) (step : Step) (steps : List Step) (k : ℕ) (l : Locator) (p0 : List PathStep)
    → IsInside p0 l
    → IsInside p0 (after_tree t step steps k l)
unfolding after_tree
after_tree-IsInside t step steps k l p0 i =
    let same = noted-SamePlace (here_of t step steps k) (counted step (tree_name t) l) in
    elim (Bool-cases (name_matches step.name (tree_name t))) [
      | inl h ↦ record { top = record i.top { position = suc i.top.position }; path = ground arith }
      | inr h ↦ record { top = i.top; path = ground arith }
    ]

module _ (step : Step) (steps : List Step) (p0 : List PathStep) where
  pub after_forest-IsInside :
      (f : Forest) (k : ℕ) (l : Locator)
      → IsInside p0 l
      → IsInside p0 (after_forest f step steps k l)
  unfolding after_forest
  after_forest-IsInside nil k l i = i
  after_forest-IsInside (cons t f) k l i =
      after_forest-IsInside f (count_of step t k) (after_tree t step steps k l)
        (after_tree-IsInside t step steps k l p0 i)

module _ (selector : List Step) (step : Step) (steps : List Step) where
  pub after_tree-IsBetween :
      (t : Tree) (k : ℕ) (l : Locator) (p0 : List PathStep)
      → IsInside p0 l
      → IsBetween selector step steps k l
      → IsBetween selector step steps (count_of step t k) (after_tree t step steps k l)
  unfolding after_tree
  after_tree-IsBetween t k l p0 i b =
      noted-IsBetween selector step steps (count_of step t k) (here_of t step steps k)
        (counted step (tree_name t) l)
        (counted-IsBetween selector step steps k l t i.top p0 i.path b)

  pub total : Forest → ℕ → ℕ
  total nil k = k
  total (cons t f) k = total f (count_of step t k)

  pub after_forest-IsBetween :
      (f : Forest) (k : ℕ) (l : Locator) (p0 : List PathStep)
      → IsInside p0 l
      → IsBetween selector step steps k l
      → IsBetween selector step steps (total f k) (after_forest f step steps k l)
  unfolding after_forest total
  after_forest-IsBetween nil k l p0 i b = b
  after_forest-IsBetween (cons t f) k l p0 i b =
      after_forest-IsBetween f (count_of step t k) (after_tree t step steps k l) p0
        (after_tree-IsInside t step steps k l p0 i) (after_tree-IsBetween t k l p0 i b)

-- the end of an element that an inner step admits
pub leave_from :
    (selector : List Step) (next : Step) (steps : List Step) (k : ℕ) (l : Locator) (nm : Name)
    (e : ℕ) (p0 : List PathStep)
    → IsInside p0 l
    → IsBetween selector next steps k l
    → handle_core selector (end_element nm e) l ≡ ok (moved p0 (l.curstep - 1) l)
unfolding handle_core end_marked
leave_from selector next steps k l nm e p0 i b =
    let q = i.path in let (x, y, z) = get_elem?-drop l.curstep selector b.onward in ground arith

-- inside an element that the last step admits
pub below_last :
    (selector : List Step) (step : Step) (k : ℕ) (l : Locator) (nm : Name) (s : ℕ) (l1 : Locator)
    → l1 ≡ on_match s l.state (push nm (record l { path = count_child l.path }))
    → IsBetween selector step [] k l
    → (l1.skiplevel ≡ 0) × (l1.end_pos_2 ≡ none) × (get_elem? selector l1.curstep ≡ none)
below_last selector step k l nm s l1 e b =
    let (x, y, z) = get_elem?-drop l.curstep selector b.onward in
    let w = get_elem?-drop_nil (suc l.curstep) selector y in
    (ground arith, ground arith, ground arith)

length-count_child : (path : List PathStep) → length (count_child path) ≡ length path
length-count_child [] = refl
length-count_child (p ∷ path) = refl

-- the end of an element takes back the step that its start made
pub curstep_back :
    (selector : List Step) (step next : Step) (steps steps' : List Step) (k k' : ℕ) (l l' : Locator)
    → IsBetween selector step steps k l
    → IsBetween selector next steps' k' l'
    → IsInside (count_child l.path) l'
    → l'.curstep - 1 ≡ l.curstep
curstep_back selector step next steps steps' k k' l l' b b' i =
    let q = ap (λ (p : List PathStep). length p) i.path in
    omega (arith, b.depth, b'.depth, q, length-count_child l.path)
