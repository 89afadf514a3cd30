-- ===== src/Element/Find/Steps.antt =====
-- The machine of `Core` at one event: what is skipped, and how a step of the selector is entered.
use openxcap.Prelude.{
  ℕ, zero, suc, ◌+◌, ◌≡◌, ◌≢◌, refl, ap, ◌∙◌, true, false, ◌&&◌, none, some, List, [], ◌∷◌, ◌++◌,
  arith, ok, length, get_elem?, drop, if◌then◌else◌, append_assoc,
}
use openxcap.Xpath.{Step}
use openxcap.Element.{
  Name, Attribute, Event, end_element, LocatorState, looking, found, done, many, Locator,
  count_child, name_matches, position_passes, att_test_passes,
}
use openxcap.Element.Find.{enter, closing_tag, child_position, start_marked, end_marked}
use openxcap.Element.Find.Core.{core, handle_core, run_core}
use openxcap.Element.Tree.{
  Tree, element, Forest, nil, cons, events, events_of, Match, tree_name, passes, count_of,
  matches_below,
}

-- what one more match does to the result so far
note_state : LocatorState → Match → Locator → Locator
note_state looking m l = record l {
  state = done;
  start_pos = some m.start;
  end_pos = some m.end;
  end_tag = some (closing_tag m.name);
}
note_state done m l = record l { state = many }
note_state _ m l = l

unfoldable pub note : Match → Locator → Locator
unfolding note_state
note m l = note_state l.state m l

unfoldable pub noted : List Match → Locator → Locator
unfolding note
noted [] l = l
noted (m ∷ ms) l = noted ms (note m l)

-- one level deeper in what is skipped
abbrev pub deeper : Locator → Locator
deeper l = record l { skiplevel = suc l.skiplevel }

pub start_skipping :
    (selector : List Step) (nm : Name) (attrs : List Attribute) (s : ℕ) (l : Locator) (n : ℕ)
    → l.skiplevel ≡ suc n
    → l.end_pos_2 ≡ none
    → core (start_marked selector nm attrs s l) ≡ deeper l
unfolding start_marked
start_skipping selector nm attrs s l n h q = ground arith

pub end_skipping :
    (selector : List Step) (nm : Name) (p : ℕ) (l : Locator)
    → l.end_pos_2 ≡ none
    → handle_core selector (end_element nm p) (deeper l) ≡ ok l
unfolding handle_core end_marked
end_skipping selector nm p l q = ground arith

-- inside a skipped element the machine counts, and comes back
mutual
  unfolding events run_core

  pub skip_tree :
      (t : Tree) (selector : List Step) (es : List Event) (l : Locator) (n : ℕ)
      → l.skiplevel ≡ suc n
      → l.end_pos_2 ≡ none
      → run_core selector (events t ++ es) l ≡ run_core selector es l
  skip_tree (element nm attrs s e f) selector es l n h q =
      rw (append_assoc, start_skipping selector nm attrs s l n h q)
        (skip_forest f selector (end_element nm e ∷ es) (deeper l) (suc n) (ap suc h) q
          ∙ rw (end_skipping selector nm e l q))

  pub skip_forest :
      (f : Forest) (selector : List Step) (es : List Event) (l : Locator) (n : ℕ)
      → l.skiplevel ≡ suc n
      → l.end_pos_2 ≡ none
      → run_core selector (events_of f ++ es) l ≡ run_core selector es l
  skip_forest nil selector es l n h q = refl
  skip_forest (cons t f) selector es l n h q =
      rw append_assoc
        (skip_tree t selector (events_of f ++ es) l n h q ∙ skip_forest f selector es l n h q)

-- An element whose start puts the machine one level down, from any state `l`, leaves `l` as it was.
pub skipped :
    (selector : List Step) (nm : Name) (attrs : List Attribute) (s e : ℕ) (f : Forest)
    (es : List Event) (l l' : Locator)
    → core (start_marked selector nm attrs s l) ≡ deeper l'
    → l'.skiplevel ≡ 0
    → l'.end_pos_2 ≡ none
    → run_core selector (events (element nm attrs s e f) ++ es) l ≡ run_core selector es l'
unfolding events run_core handle_core
skipped selector nm attrs s e f es l l' h z q =
    rw (append_assoc, h)
      (skip_forest f selector (end_element nm e ∷ es) (deeper l') 0 (ap suc z) q
        ∙ rw (end_skipping selector nm e l' q))

pub get_elem?-drop {ℓ} :
    {A : Type ℓ} (n : ℕ) (xs : List A) {x : A} {ys : List A}
    → drop n xs ≡ x ∷ ys
    → (get_elem? xs n ≡ some x) × (drop (suc n) xs ≡ ys) × (length xs ≡ suc n + length ys)
get_elem?-drop zero [] h = cc
get_elem?-drop zero (x ∷ xs) h = (ground arith, ground arith, ground arith)
get_elem?-drop (suc n) [] h = cc
get_elem?-drop (suc n) (x ∷ xs) h =
    let (a, b, c) = get_elem?-drop n xs h in (a, b, omega (arith, c))

pub get_elem?-drop_nil {ℓ} :
    {A : Type ℓ} (n : ℕ) (xs : List A) → drop n xs ≡ [] → get_elem? xs n ≡ none
get_elem?-drop_nil zero [] h = refl
get_elem?-drop_nil zero (x ∷ xs) h = cc
get_elem?-drop_nil (suc n) [] h = refl
get_elem?-drop_nil (suc n) (x ∷ xs) h = get_elem?-drop_nil n xs h

-- below the last step everything is skipped
pub beyond :
    (f : Forest) (selector : List Step) (es : List Event) (l : Locator)
    → l.skiplevel ≡ 0
    → l.end_pos_2 ≡ none
    → get_elem? selector l.curstep ≡ none
    → run_core selector (events_of f ++ es) l ≡ run_core selector es l
unfolding events_of start_marked
beyond nil selector es l z q h = refl
beyond (cons (element nm attrs s e g) f) selector es l z q h = rw append_assoc (
    skipped selector nm attrs s e g (events_of f ++ es) l l (ground arith) z q
    ∙ beyond f selector es l z q h)

-- the fields that a match leaves alone
pub record SamePlace (l l' : Locator) : Type 0 where
  pub path : l'.path ≡ l.path
  pub curstep : l'.curstep ≡ l.curstep
  pub skiplevel : l'.skiplevel ≡ l.skiplevel
  pub no_mark : l.end_pos_2 ≡ none → l'.end_pos_2 ≡ none
  pub resting : l.state ≢ found → l'.state ≢ found

pub note-SamePlace : (m : Match) (l : Locator) → SamePlace l (note m l)
unfolding note
note-SamePlace m l = ground arith

pub noted-SamePlace : (ms : List Match) (l : Locator) → SamePlace l (noted ms l)
unfolding noted
noted-SamePlace [] l = ground arith
noted-SamePlace (m ∷ ms) l = ground (arith, note-SamePlace m l, noted-SamePlace ms (note m l))

-- the parent counts a child that the name test admits
abbrev pub counted : Step → Name → Locator → Locator
counted step nm l = record l {
  path = if name_matches step.name nm then count_child l.path else l.path;
}

abbrev pub here_of : Tree → Step → List Step → ℕ → List Match
here_of t step steps k = if passes step k t then matches_below t steps else []

-- the machine behind an element, and behind siblings
unfoldable pub after_tree : Tree → Step → List Step → ℕ → Locator → Locator
after_tree t step steps k l = noted (here_of t step steps k) (counted step (tree_name t) l)

unfoldable pub after_forest : Forest → Step → List Step → ℕ → Locator → Locator
after_forest nil step steps k l = l
after_forest (cons t f) step steps k l =
    after_forest f step steps (count_of step t k) (after_tree t step steps k l)

-- between two elements, where `selector` goes on with `step` and `steps`, and `k` elder siblings
-- have passed the name test
pub record IsBetween (selector : List Step) (step : Step) (steps : List Step) (k : ℕ) (l : Locator)
    : Type 0 where
  pub not_skipping : l.skiplevel ≡ 0
  pub depth : l.curstep ≡ length l.path
  pub resting : l.state ≢ found
  pub no_mark : l.end_pos_2 ≡ none
  pub onward : drop l.curstep selector ≡ step ∷ steps
  pub position : child_position (count_child l.path) ≡ suc k

module _ (selector : List Step) (step : Step) (steps : List Step) (k : ℕ) (l : Locator)
    (b : IsBetween selector step steps k l) (nm : Name) (attrs : List Attribute) (s : ℕ) where
  pub start_other_name :
      name_matches step.name nm ≡ false → core (start_marked selector nm attrs s l) ≡ deeper l
  unfolding start_marked
  start_other_name h = ground (arith, get_elem?-drop l.curstep selector b.onward)

  pub start_failing :
      name_matches step.name nm ≡ true
      → (position_passes step.position (suc k) && att_test_passes step.att_test attrs) ≡ false
      → core (start_marked selector nm attrs s l) ≡ deeper (record l { path = count_child l.path })
  unfolding start_marked
  start_failing h g = ground (arith, get_elem?-drop l.curstep selector b.onward)

  pub start_passing :
      name_matches step.name nm ≡ true
      → (position_passes step.position (suc k) && att_test_passes step.att_test attrs) ≡ true
      → core (start_marked selector nm attrs s l)
        ≡ core (enter selector nm s (record l { path = count_child l.path }))
  unfolding start_marked
  start_passing h g = ground (arith, get_elem?-drop l.curstep selector b.onward)
