-- ===== src/Element/Insert.antt =====
-- InsertPointLocator of xcap/element.py. Its handlers read fields of `parent`, `self.path[-1]`,
-- `self.path[-2]` and `self.selector[-1]`, and raise where these are not there.
pub mod Root
use openxcap.Prelude.{
  ℕ, zero, suc, ◌+◌, ◌-◌, Bool, true, false, ◌&&◌, Option, none, some, List, [], ◌∷◌, if◌then◌else◌,
  ◌==◌, ltb, Result, ok, err, ◌>>=◌, length, get_elem?,
}
use openxcap.Xpath.{ℤ, pos, StepName, star, qname, Step}
use openxcap.Element.{
  Name, Attribute, Event, start_element, end_element, LocatorState, looking, found, done, many,
  closed, PathStep, Locator, ElementError, attribute_error, index_error, name_matches,
  att_test_passes, position_is, count_child, mark_next,
}
use openxcap.Element.Find.{closing_tag, skip, push}

-- self.set_end_pos(p, end_pos_2=p)
abbrev here : ℕ → Locator → Locator
here p l = record l { end_pos = some p; end_tag = none; end_pos_2 = some p }

-- self.set_end_pos(p, '</' + qname + '>')
abbrev behind_tag : ℕ → PathStep → Locator → Locator
behind_tag p last l = record l {
  end_pos = some p;
  end_tag = some (closing_tag last.name);
  end_pos_2 = none;
}

-- curstep.position != parent.position
position_fails : Option ℤ → List PathStep → Result ElementError Bool
unfolding position_is
position_fails none path = ok false
position_fails (some p) [] = err attribute_error
position_fails (some p) (parent ∷ _) = ok (if position_is p parent.position then false else true)

-- the tests of a step that is not the last
enter_step : Step → Name → List Attribute → Locator → Bool → Locator
enter_step step name attrs l true = skip l
enter_step step name attrs l false =
    if att_test_passes step.att_test attrs then push name l else skip l

-- the insertion in front of the first child, for the position 1
enter_last_step : Step → Name → ℕ → Locator → Option ℤ → List PathStep → Result ElementError Locator
unfolding position_is
enter_last_step step name p l none path = ok (push name l)
enter_last_step step name p l (some q) path =
    if position_is q 1
    then (elim path [
      | [] ↦ err attribute_error
      | parent ∷ _ ↦
          ok (push name (if parent.position == 1 then here p (record l { state = done }) else l))
    ])
    else ok (push name l)

try_step : List Step → Step → Name → List Attribute → ℕ → Locator → Result ElementError Locator
unfolding position_fails enter_step enter_last_step
try_step selector step name attrs p l =
    if suc (length l.path) == length selector
    then enter_last_step step name p l step.position l.path
    else do failing ← position_fails step.position l.path; ok (enter_step step name attrs l failing)

at_step :
    List Step → Option Step → Name → List Attribute → ℕ → Locator → Result ElementError Locator
unfolding try_step
at_step selector none name attrs p l = ok (skip l)
at_step selector (some step) name attrs p l =
    if name_matches step.name name
    then try_step selector step name attrs p (record l { path = count_child l.path })
    else ok (skip l)

unfoldable pub start_element_ns :
    List Step → Name → List Attribute → ℕ → Locator → Result ElementError Locator
unfolding at_step mark_next
start_element_ns selector name attrs p l =
    let m = mark_next p l in
    if ltb 0 m.skiplevel
    then ok (record m { skiplevel = suc m.skiplevel })
    else at_step selector (get_elem? selector m.curstep) name attrs p m

-- self.selector[-1]
unfoldable pub last_step : List Step → Result ElementError Step
last_step [] = err index_error
last_step (step ∷ []) = ok step
last_step (step ∷ next ∷ steps) = last_step (next ∷ steps)

-- MANY after DONE, or else the given state
abbrev or_many : LocatorState → LocatorState → LocatorState
or_many done s = many
or_many _ s = s

-- the end of a child that passed the name test of the last step
close_child : Option ℤ → PathStep → List PathStep → ℕ → Locator → Result ElementError Locator
unfolding position_is
close_child position last [] p l = err index_error
close_child none last (parent ∷ _) p l =
    ok (behind_tag p last (record l { state = or_many l.state closed }))
close_child (some q) last (parent ∷ _) p l = ok (
    if position_is q (suc parent.position)
    then behind_tag p last (record l { state = or_many l.state done })
    else l)

-- curstep.name == '*' and curstep.position is None
abbrev is_open_star : StepName → Option ℤ → Bool
is_open_star star none = true
is_open_star _ _ = false

-- the end of the parent, with no child that decides the place
close_parent : Bool → LocatorState → ℕ → Locator → Locator
close_parent true closed p l = here p (record l { state = done })
close_parent false closed p l = record l { state = done }
close_parent open_star looking p l = here p (record l { state = done })
close_parent open_star _ p l = l

leave : List Step → ℕ → List PathStep → Locator → Result ElementError Locator
unfolding last_step close_child close_parent
leave selector p [] l = err index_error
leave selector p (last ∷ path) l = do
  curstep ← last_step selector
  closing ←
      (if suc (length path) == length selector
        then close_child curstep.position last path p l
        else ok (
            if suc (suc (length path)) == length selector
            then close_parent (is_open_star curstep.name curstep.position) l.state p l
            else l))
  ok (record closing { path = path; curstep = l.curstep - 1 })

unfoldable pub end_element_ns : List Step → ℕ → Locator → Result ElementError Locator
unfolding leave mark_next
end_element_ns selector p l =
    let m = mark_next p l in
    if ltb 0 m.skiplevel
    then ok (record m { skiplevel = m.skiplevel - 1 })
    else leave selector p m.path m

unfoldable pub handle : List Step → Event → Locator → Result ElementError Locator
unfolding start_element_ns end_element_ns
handle selector (start_element name attrs p) l = start_element_ns selector name attrs p l
handle selector (end_element name p) l = end_element_ns selector p l

unfoldable pub run : List Step → List Event → Locator → Result ElementError Locator
unfolding handle
run selector [] l = ok l
run selector (e ∷ es) l = do l' ← handle selector e l; run selector es l'
