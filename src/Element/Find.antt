-- ===== src/Element/Find.antt =====
-- ElementLocator of xcap/element.py, as a fold over the events.
pub mod Core
pub mod Steps
pub mod Between
pub mod Refinement
pub mod Located
use openxcap.Prelude.{
  ℕ, zero, suc, ◌-◌, Bool, true, false, Option, none, some, List, [], ◌∷◌, ◌++◌, Str, codes,
  if◌then◌else◌, ◌==◌, ltb, Result, ok, err, ◌>>=◌, length, get_elem?,
}
use openxcap.Xpath.{Step}
use openxcap.Element.{
  Name, Attribute, Event, start_element, end_element, LocatorState, looking, found, done, many,
  PathStep, Locator, ElementError, index_error, start_document, name_matches, att_test_passes,
  position_passes, count_child, mark_next,
}

-- '</' + qname + '>'
abbrev pub closing_tag : Name → Str
closing_tag n = codes "</" ++ (n.local ++ codes ">")

-- self.skiplevel = 1
abbrev pub skip : Locator → Locator
skip l = record l { skiplevel = 1 }

-- the position that `curstep.position` is compared with: a root counts as the first
abbrev pub child_position : List PathStep → ℕ
child_position [] = 1
child_position (p ∷ _) = p.position

-- self.curstep += 1; self.path.append(Step(qname))
abbrev pub push : Name → Locator → Locator
push name l = record l {
  path = record { name = name; position = 0 } ∷ l.path;
  curstep = suc l.curstep;
}

-- a full match: FOUND for the first, MANY for one after the first has ended
abbrev pub on_match : ℕ → LocatorState → Locator → Locator
on_match p looking l = record l { state = found; start_pos = some p }
on_match p done l = record l { state = many }
on_match p _ l = l

pub enter : List Step → Name → ℕ → Locator → Locator
enter selector name p l =
    let l' = push name l in if length l'.path == length selector then on_match p l'.state l' else l'

-- the tests on the current step, behind the count of the child
try_step : List Step → Step → Name → List Attribute → ℕ → Locator → Locator
unfolding enter
try_step selector step name attrs p l =
    if position_passes step.position (child_position l.path)
    then (if att_test_passes step.att_test attrs then enter selector name p l else skip l)
    else skip l

at_step : List Step → Option Step → Name → List Attribute → ℕ → Locator → Locator
unfolding try_step
at_step selector none name attrs p l = skip l
at_step selector (some step) name attrs p l =
    if name_matches step.name name
    then try_step selector step name attrs p (record l { path = count_child l.path })
    else skip l

-- startElementNS behind its first statement
unfoldable pub start_marked : List Step → Name → List Attribute → ℕ → Locator → Locator
unfolding at_step
start_marked selector name attrs p l =
    if ltb 0 l.skiplevel
    then record l { skiplevel = suc l.skiplevel }
    else at_step selector (get_elem? selector l.curstep) name attrs p l

unfoldable pub start_element_ns : List Step → Name → List Attribute → ℕ → Locator → Locator
unfolding start_marked mark_next
start_element_ns selector name attrs p l = start_marked selector name attrs p (mark_next p l)

-- the end of the located element
abbrev close_found : LocatorState → PathStep → ℕ → Locator → Locator
close_found found last p l = record l {
  state = done;
  end_pos = some p;
  end_tag = some (closing_tag last.name);
  end_pos_2 = none;
}
close_found _ last p l = l

-- `self.path[-1]` and `self.path.pop()` raise on an empty list
leave : List Step → ℕ → List PathStep → Locator → Result ElementError Locator
leave selector p [] l = err index_error
leave selector p (last ∷ path) l =
    let closing =
      if length (last ∷ path) == length selector then close_found l.state last p l else l in
    ok (record closing { path = path; curstep = l.curstep - 1 })

-- endElementNS behind its first statement
unfoldable pub end_marked : List Step → ℕ → Locator → Result ElementError Locator
unfolding leave
end_marked selector p l =
    if ltb 0 l.skiplevel
    then ok (record l { skiplevel = l.skiplevel - 1 })
    else leave selector p l.path l

unfoldable pub end_element_ns : List Step → ℕ → Locator → Result ElementError Locator
unfolding end_marked mark_next
end_element_ns selector p l = end_marked selector p (mark_next p l)

unfoldable pub handle : List Step → Event → Locator → Result ElementError Locator
unfolding start_element_ns end_element_ns
handle selector (start_element name attrs p) l = ok (start_element_ns selector name attrs p l)
handle selector (end_element name p) l = end_element_ns selector p l

unfoldable pub run : List Step → List Event → Locator → Result ElementError Locator
unfolding handle
run selector [] l = ok l
run selector (e ∷ es) l = do l' ← handle selector e l; run selector es l'
