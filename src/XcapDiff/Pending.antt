-- ===== src/XcapDiff/Pending.antt =====
-- What is published of several changes of one document.
use openxcap.Prelude.{
  ◌≡◌, refl, Option, none, some, List, [], ◌∷◌, Str, str_eq, str_eq_refl, if◌then◌else◌, Dict,
  lookup, lookup-insert, Option-cases, inl, inr, ◌∙◌,
}
use openxcap.XcapDiff.{Change, note_change}

-- the first of two tags: the one that is noted already, if there is one
abbrev pub first_tag : Option Change → Option Str → Option Str
first_tag none old = old
first_tag (some (first, last)) old = first

-- A change of a document is noted with the oldest tag that is known and the newest; the other
-- documents keep theirs.
pub lookup-note_change :
    (uri other : Str) (old new : Option Str) (changes : Dict Change)
    → lookup other (note_change uri old new changes) ≡ (
        if str_eq uri other
        then some (first_tag (lookup uri changes) old, new)
        else lookup other changes)
unfolding note_change
lookup-note_change uri other old new changes = elim (Option-cases (lookup uri changes)) [
  | inl e ↦ rw (e, note_change) (lookup-insert uri other (old, new) changes)
  | inr ((first, last), e) ↦ rw (e, note_change) (lookup-insert uri other (first, new) changes)
]

abbrev pub note_all : Str → List Change → Dict Change → Dict Change
note_all uri [] changes = changes
note_all uri ((old, new) ∷ cs) changes = note_all uri cs (note_change uri old new changes)

-- the newest tag
abbrev pub last_tag : Option Str → List Change → Option Str
last_tag new [] = new
last_tag new ((old, newer) ∷ cs) = last_tag newer cs

noted :
    (uri : Str) (first new : Option Str) (cs : List Change) (changes : Dict Change)
    → lookup uri changes ≡ some (first, new)
    → lookup uri (note_all uri cs changes) ≡ some (first, last_tag new cs)
noted uri first new [] changes h = h
noted uri first new ((old, newer) ∷ cs) changes h =
    noted uri first newer cs (note_change uri old newer changes)
      (lookup-note_change uri uri old newer changes ∙ rw (str_eq_refl uri, h) refl)

-- However often a document changes before a publication, it is published as one change, from the tag
-- before the first to the tag after the last.
pub lookup-note_all :
    (uri : Str) (old new : Option Str) (cs : List Change) (changes : Dict Change)
    → lookup uri changes ≡ none
    → lookup uri (note_all uri ((old, new) ∷ cs) changes) ≡ some (old, last_tag new cs)
lookup-note_all uri old new cs changes h =
    noted uri old new cs (note_change uri old new changes)
      (lookup-note_change uri uri old new changes ∙ rw (str_eq_refl uri, h) refl)
