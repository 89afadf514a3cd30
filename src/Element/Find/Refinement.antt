-- ===== src/Element/Find/Refinement.antt =====
-- The locator finds what the selector denotes.
use openxcap.Prelude.{
  ℕ, suc, ◌-◌, ◌≡◌, refl, ap, ◌∙◌, true, false, ◌&&◌, List, [], ◌∷◌, ◌++◌, arith, ok, Bool-cases,
  inl, inr, append_assoc,
}
use openxcap.Xpath.{Step}
use openxcap.Element.{
  Name, Attribute, Event, end_element, Locator, PathStep, count_child, name_matches,
  position_passes, att_test_passes,
}
use openxcap.Element.Find.{on_match, push, start_marked}
use openxcap.Element.Find.Core.{core, handle_core, run_core}
use openxcap.Element.Find.Steps.{
  note, noted, counted, after_tree, after_forest, IsBetween, start_other_name, start_failing,
  start_passing, skipped, beyond,
}
use openxcap.Element.Find.Between.{
  below_last, curstep_back, enter_last, leave_last, inside, enter_inner, inside-IsBetween, moved,
  moved-after_forest, IsInside, after_tree-IsInside, after_tree-IsBetween, after_forest-IsInside,
  after_forest-IsBetween, leave_from,
}
use openxcap.Element.Tree.{
  Tree, element, Forest, nil, cons, events, events_of, passes, count_of, matches_below,
}

-- an element, from what its start, its content and its end do
bracket :
    (selector : List Step) (nm : Name) (attrs : List Attribute) (s e : ℕ) (g : Forest)
    (es : List Event) (l l1 l2 l3 : Locator)
    → core (start_marked selector nm attrs s l) ≡ l1
    → ((fs : List Event) → run_core selector (events_of g ++ fs) l1 ≡ run_core selector fs l2)
    → handle_core selector (end_element nm e) l2 ≡ ok l3
    → run_core selector (events (element nm attrs s e g) ++ es) l ≡ run_core selector es l3
unfolding events run_core handle_core
bracket selector nm attrs s e g es l l1 l2 l3 h1 h2 h3 =
    rw (append_assoc, h1) (h2 (end_element nm e ∷ es) ∙ rw h3)

module _ (selector : List Step) (step : Step) (k : ℕ) (l : Locator) (nm : Name)
    (attrs : List Attribute) (s e : ℕ) (g : Forest) (es : List Event) where
  -- an element that the step does not admit
  at_refused :
      (steps : List Step)
      → IsBetween selector step steps k l
      → passes step k (element nm attrs s e g) ≡ false
      → run_core selector (events (element nm attrs s e g) ++ es) l
        ≡ run_core selector es (after_tree (element nm attrs s e g) step steps k l)
  unfolding after_tree noted
  at_refused steps b h = elim (Bool-cases (name_matches step.name nm)) [
    | inl n ↦
        rw (n, rw n at h)
          (skipped selector nm attrs s e g es l (record l { path = count_child l.path })
            (start_failing selector step steps k l b nm attrs s n (rw n at h)) b.not_skipping
            b.no_mark)
    | inr n ↦ rw n (
        skipped selector nm attrs s e g es l l
          (start_other_name selector step steps k l b nm attrs s n ∙ refl) b.not_skipping b.no_mark)
  ]

  -- an element that the last step admits
  at_last :
      IsBetween selector step [] k l
      → name_matches step.name nm ≡ true
      → (position_passes step.position (suc k) && att_test_passes step.att_test attrs) ≡ true
      → run_core selector (events (element nm attrs s e g) ++ es) l
        ≡ run_core selector es (after_tree (element nm attrs s e g) step [] k l)
  unfolding after_tree noted matches_below
  at_last b n h =
      let l1 = on_match s l.state (push nm (record l { path = count_child l.path })) in
      bracket selector nm attrs s e g es l l1 l1
        (note (record { start = s; end = e; name = nm }) (counted step nm l))
        (start_passing selector step [] k l b nm attrs s n h
          ∙ enter_last selector step k l nm s e b n)
        (λ fs.
          let (z, q, w) = below_last selector step k l nm s l1 refl b in
          beyond g selector fs l1 z q w)
        (leave_last selector step k l nm s e b n)
      ∙ rw (n, h)

  at_inner :
      (next : Step) (steps : List Step)
      → IsBetween selector step (next ∷ steps) k l
      → name_matches step.name nm ≡ true
      → (position_passes step.position (suc k) && att_test_passes step.att_test attrs) ≡ true
      → ((es : List Event) (l : Locator) (p0 : List PathStep)
          → IsInside p0 l
          → IsBetween selector next steps 0 l
          → run_core selector (events_of g ++ es) l
            ≡ run_core selector es (after_forest g next steps 0 l))
      → run_core selector (events (element nm attrs s e g) ++ es) l
        ≡ run_core selector es (after_tree (element nm attrs s e g) step (next ∷ steps) k l)
  unfolding after_tree matches_below
  at_inner next steps b n h ih =
      let l1 = inside selector step next steps k l b nm in
      let b1 = inside-IsBetween selector step next steps k l b nm in
      let i1 : IsInside (count_child l.path) l1 = record {
        top = record { name = nm; position = 0 };
        path = refl;
      } in
      let l2 = after_forest g next steps 0 l1 in
      let i2 = after_forest-IsInside next steps (count_child l.path) g 0 l1 i1 in
      let b2 = after_forest-IsBetween selector next steps g 0 l1 (count_child l.path) i1 b1 in
      bracket selector nm attrs s e g es l l1 l2 (moved (count_child l.path) (l2.curstep - 1) l2)
        (start_passing selector step (next ∷ steps) k l b nm attrs s n h
          ∙ enter_inner selector step next steps k l b nm s)
        (λ fs. ih fs l1 (count_child l.path) i1 b1)
        (leave_from selector next steps _ l2 nm e (count_child l.path) i2 b2)
      ∙ rw (n, h)
          (ap (run_core selector es) (
            rw (curstep_back selector step next (next ∷ steps) steps k _ l l2 b b2 i2)
              (moved-after_forest g next steps 0 (count_child l.path) l.curstep l1)))

mutual
  unfolding events_of after_forest

  -- an element, and siblings, at any place of the walk
  pub run-tree :
      (t : Tree) (selector : List Step) (step : Step) (steps : List Step) (k : ℕ) (es : List Event)
      (l : Locator)
      → IsBetween selector step steps k l
      → run_core selector (events t ++ es) l ≡ run_core selector es (after_tree t step steps k l)
  run-tree (element nm attrs s e g) selector step [] k es l b =
      elim (Bool-cases (passes step k (element nm attrs s e g))) [
        | inl h ↦ at_last selector step k l nm attrs s e g es b (ground arith) (ground arith)
        | inr h ↦ at_refused selector step k l nm attrs s e g es [] b h
      ]
  run-tree (element nm attrs s e g) selector step (next ∷ steps) k es l b =
      let inner = λ (fs : List Event) (l' : Locator) (p0 : List PathStep).
        run-forest g selector next steps 0 fs l' p0 in
      elim (Bool-cases (passes step k (element nm attrs s e g))) [
        | inl h ↦
            at_inner selector step k l nm attrs s e g es next steps b (ground arith) (ground arith)
              inner
        | inr h ↦ at_refused selector step k l nm attrs s e g es (next ∷ steps) b h
      ]

  pub run-forest :
      (f : Forest) (selector : List Step) (step : Step) (steps : List Step) (k : ℕ)
      (es : List Event) (l : Locator) (p0 : List PathStep)
      → IsInside p0 l
      → IsBetween selector step steps k l
      → run_core selector (events_of f ++ es) l
        ≡ run_core selector es (after_forest f step steps k l)
  run-forest nil selector step steps k es l p0 i b = refl
  run-forest (cons t f) selector step steps k es l p0 i b = rw append_assoc (
      run-tree t selector step steps k (events_of f ++ es) l b
      ∙ run-forest f selector step steps (count_of step t k) es (after_tree t step steps k l) p0
          (after_tree-IsInside t step steps k l p0 i)
          (after_tree-IsBetween selector step steps t k l p0 i b))
