-- ===== src/Element/Find/Core.antt =====
-- `end_pos_2` is written by the locator and never read by it: the other fields follow a machine
-- without it.
use openxcap.Prelude.{
  ℕ, ◌≡◌, refl, ap, ◌∙◌, none, List, [], ◌∷◌, ◌++◌, arith, Result, ok, err, ◌>>=◌,
}
use openxcap.Xpath.{Step}
use openxcap.Element.{Event, start_element, end_element, Locator, ElementError, mark_next}
use openxcap.Element.Find.{start_marked, end_marked, handle, run}

-- a locator without `end_pos_2`
abbrev pub core : Locator → Locator
core l = record l { end_pos_2 = none }

abbrev pub core_result : Result ElementError Locator → Result ElementError Locator
core_result (ok l) = ok (core l)
core_result (err e) = err e

unfoldable pub handle_core : List Step → Event → Locator → Result ElementError Locator
handle_core selector (start_element name attrs p) l =
    ok (core (start_marked selector name attrs p l))
handle_core selector (end_element name p) l = core_result (end_marked selector p l)

unfoldable pub run_core : List Step → List Event → Locator → Result ElementError Locator
unfolding handle_core
run_core selector [] l = ok l
run_core selector (e ∷ es) l = do l' ← handle_core selector e l; run_core selector es l'

core-mark_next : (p : ℕ) (l : Locator) → core (mark_next p l) ≡ core l
unfolding mark_next
core-mark_next p l = ground arith

core-start :
    (selector : List Step) (e : Event) (l : Locator)
    → core_result (handle selector e l) ≡ handle_core selector e (core l)
unfolding handle handle_core mark_next start_marked end_marked
core-start selector (start_element name attrs p) l = ground arith
core-start selector (end_element name p) l = ground arith

run-core_step :
    (selector : List Step) (es : List Event) (r : Result ElementError Locator)
    → ((l : Locator) → core_result (run selector es l) ≡ run_core selector es (core l))
    → core_result (r >>= λ l. run selector es l) ≡ (core_result r >>= λ l. run_core selector es l)
run-core_step selector es (ok l) ih = ih l
run-core_step selector es (err e) ih = refl

-- A run of the locator, seen without `end_pos_2`, is the run of that machine.
pub core-run :
    (selector : List Step) (es : List Event) (l : Locator)
    → core_result (run selector es l) ≡ run_core selector es (core l)
unfolding run run_core
core-run selector [] l = refl
core-run selector (e ∷ es) l =
    run-core_step selector es (handle selector e l) (core-run selector es)
    ∙ ap (λ (r : Result ElementError Locator). r >>= λ l'. run_core selector es l')
        (core-start selector e l)

append_step :
    (selector : List Step) (es fs : List Event) (r : Result ElementError Locator)
    → ((l : Locator)
        → run_core selector (es ++ fs) l
          ≡ (run_core selector es l >>= λ l'. run_core selector fs l'))
    → (r >>= λ l. run_core selector (es ++ fs) l)
      ≡ ((r >>= λ l. run_core selector es l) >>= λ l'. run_core selector fs l')
append_step selector es fs (ok l) ih = ih l
append_step selector es fs (err e) ih = refl

pub run_core-append :
    (selector : List Step) (es fs : List Event) (l : Locator)
    → run_core selector (es ++ fs) l ≡ (run_core selector es l >>= λ l'. run_core selector fs l')
unfolding run_core
run_core-append selector [] fs l = refl
run_core-append selector (e ∷ es) fs l =
    append_step selector es fs (handle_core selector e l) (run_core-append selector es fs)
