-- ===== src/Element/Splice.antt =====
-- find, get, delete and put of xcap/element.py. A document is its bytes; the positions of the
-- parser are byte positions, while `fix_end_pos` searches the decoded text.
pub mod Laws
pub mod Updates
use openxcap.Prelude.{
  ℕ, zero, suc, ◌+◌, Bool, true, false, Option, none, some, List, [], ◌∷◌, ◌++◌, Str, if◌then◌else◌,
  ◌==◌, Result, ok, err, ◌>>=◌, of_option, take, drop, slice, strip_prefix,
}
use openxcap.Xpath.{Step}
use openxcap.Xpath.Tokens.{contains}
use openxcap.Element.{
  Event, LocatorState, looking, done, many, Locator, ElementError, sax_parse_error, decode_error,
  attribute_error, value_error, locator_error, start_document,
}
use openxcap.Element.Utf8.{utf8_decode}
use openxcap.Element.Find
use openxcap.Element.Insert

-- The SAX parser: the calls that it makes for a text, and whether it then raises
-- SAXParseException.
pub record Parsed : Type 0 where
  pub calls : List Event
  pub fails : Bool

abbrev pub Parser : Type 0
Parser = Str → Parsed

-- text[a:b], and text[a:] for no `b`
unfoldable pub slice_to : Str → ℕ → Option ℕ → Str
slice_to text a none = drop a text
slice_to text a (some b) = slice a b text

-- text.index(c) for one character, behind `i` others
unfoldable pub index_from : ℕ → ℕ → Str → Result ElementError ℕ
index_from c i [] = err value_error
index_from c i (x ∷ s) = if x == c then ok i else index_from c (suc i) s

-- `a` for None in a slice is 0
abbrev or_zero : Option ℕ → ℕ
or_zero none = 0
or_zero (some n) = n

fix_with : Str → Option Str → Locator → Result ElementError Locator
unfolding slice_to index_from contains
fix_with text none l = ok l
fix_with text (some tag) l =
    if contains tag (slice_to text (or_zero l.end_pos) l.end_pos_2)
    then (do
      i ← index_from b'>' (or_zero l.end_pos) (slice_to text (or_zero l.end_pos) l.end_pos_2)
      ok (record l { end_pos = some (suc i) }))
    else ok l

-- self.fix_end_pos(document)
unfoldable pub fix_end_pos : Str → Locator → Result ElementError Locator
unfolding fix_with
fix_end_pos document l = do
  text ← of_option decode_error (utf8_decode document)
  fix_with text l.end_tag l

-- LocatorError.generate_error: `_original_string`, which it reads to report MANY, is no attribute
-- of an element selector
unfoldable pub generate_error : {A : Type 0} → LocatorState → Result ElementError (Option A)
generate_error looking = ok none
generate_error many = err attribute_error
generate_error _ = err locator_error

-- parser.parse(StringIO(document.decode())): the handler's run, unless an exception stops it
abbrev parse_with :
    {A : Type 0} → (List Event → Result ElementError A) → Parser → Str → Result ElementError A
parse_with run parser document = do
  text ← of_option decode_error (utf8_decode document)
  handler ← run (parser text).calls
  if (parser text).fails then err sax_parse_error else ok handler

-- el.start_pos, el.end_pos: reading `start_pos` before it is set raises AttributeError, and `end_pos`
-- is set wherever the state is DONE
abbrev span : Locator → Result ElementError (Option (ℕ × ℕ))
span l = elim l.start_pos [
  | none ↦ err attribute_error
  | some s ↦ (elim l.end_pos [ none ↦ err attribute_error | some e ↦ ok (some (s, e)) ])
]

found_at : Str → LocatorState → Locator → Result ElementError (Option (ℕ × ℕ))
unfolding fix_end_pos generate_error
found_at document done l = do l' ← fix_end_pos document l; span l'
found_at document state l = generate_error state

unfoldable pub find : Parser → Str → List Step → Result ElementError (Option (ℕ × ℕ))
unfolding found_at
find parser document selector = do
  el ← parse_with (λ es. Find.run selector es start_document) parser document
  found_at document el.state el

-- document[start:end] of the location, if there is one
abbrev text_at : Str → Option (ℕ × ℕ) → Option Str
text_at document none = none
text_at document (some (s, e)) = some (slice s e document)

unfoldable pub get : Parser → Str → List Step → Result ElementError (Option Str)
get parser document selector = do
  location ← find parser document selector
  ok (text_at document location)

-- document[:start] + document[end:]
abbrev text_around : Str → Option (ℕ × ℕ) → Option Str
text_around document none = none
text_around document (some (s, e)) = some (take s document ++ drop e document)

unfoldable pub delete : Parser → Str → List Step → Result ElementError (Option Str)
delete parser document selector = do
  location ← find parser document selector
  ok (text_around document location)

-- document[:start] + element_str + document[end:]
abbrev pub splice : Str → ℕ → ℕ → Str → Str
splice document s e element_str = take s document ++ (element_str ++ drop e document)

insert_at : Str → Str → LocatorState → Locator → Result ElementError (Option (Str × Bool))
unfolding fix_end_pos generate_error
insert_at document element_str done l = do
  l' ← fix_end_pos document l
  elim l'.end_pos [
    | none ↦ ok (some (document ++ (element_str ++ document), true))
    | some e ↦ ok (some (splice document e e element_str, true))
  ]
insert_at document element_str state l = generate_error state

put_at : Parser → Str → List Step → Str → Option (ℕ × ℕ) → Result ElementError (Option (Str × Bool))
unfolding insert_at
put_at parser document selector element_str none = do
  ipl ← parse_with (λ es. Insert.run selector es start_document) parser document
  insert_at document element_str ipl.state ipl
put_at parser document selector element_str (some (s, e)) =
    ok (some (splice document s e element_str, false))

unfoldable pub put : Parser → Str → List Step → Str → Result ElementError (Option (Str × Bool))
unfolding put_at
put parser document selector element_str = do
  location ← find parser document selector
  put_at parser document selector element_str location
