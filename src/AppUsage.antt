-- ===== src/AppUsage.antt =====
-- ApplicationUsage of xcap/appusage/__init__.py: documents and elements, over the storage of
-- openxcap.Backend. lxml and the SAX parsers are parameters.
pub mod Elements
pub mod Attributes
pub mod Markup
pub mod ResourceLists
pub mod PresContent
pub mod PresRules
pub mod Readers
use openxcap.Prelude.{
  ℕ, Bool, true, false, not, ◌&&◌, ◌||◌, Option, none, some, List, [], ◌∷◌, ◌++◌, Str, codes,
  str_eq, is_empty, strip, strip_left, if◌then◌else◌, ◌==◌, leb, Result, ok, err, ◌>>=◌, handled,
}
use openxcap.Errors.{
  Fault, http, xcap, selector, document, attribute_error, decode_error, xcap_error, ErrorKind,
  not_well_formed, not_utf_8, schema_validation_error, no_parent, cannot_insert, cannot_delete,
  not_xml_frag,
}
use openxcap.HttpUtils.{lower}
use openxcap.Xpath.{ElementSelector}
use openxcap.Xpath.Node.{fix_star}
use openxcap.Element.Utf8.{utf8_decode}
use openxcap.Element.Splice.{Parser, find, get, put, delete}
use openxcap.Backend.{StatusResponse, Target, Table, Check}
use openxcap.Backend

-- what etree.parse does with a document: XMLSyntaxError with its text, another exception, or a tree
-- with an encoding
pub data ParseOutcome : Type 0 where
  syntax_error : Str → ParseOutcome
  other_error : ParseOutcome
  parsed : Option Str → ParseOutcome

-- an application, and the libraries that it calls: etree.parse; the schema with the log of its
-- errors; the parser of element.py; and check_xml_fragment, where `some` is the text of an exception
pub record Application : Type 0 where
  pub etree_parse : Str → ParseOutcome
  pub schema_errors : Str → Option Str
  pub document_validation : Bool
  pub parser : Parser
  pub fragment_error : Str → Option Str

abbrev pub raise : {A : Type 0} → ErrorKind → Str → Str → Result Fault A
raise kind phrase comment = err (xcap (xcap_error kind phrase comment))

-- _check_UTF8_encoding
check_encoding : Option Str → Result Fault (Unit {0})
unfolding lower str_eq
check_encoding none = err attribute_error
check_encoding (some encoding) =
    if str_eq (lower encoding) (codes "utf-8")
    then ok tt
    else raise not_utf_8 [] (codes "document encoding is " ++ encoding)

-- _check_schema_validation
check_schema : Option Str → Result Fault (Unit {0})
check_schema none = ok tt
check_schema (some log) = raise schema_validation_error [] log

-- validate_document; the additional constraints of the base class are none
unfoldable pub validate_document : Application → Str → Result Fault (Unit {0})
unfolding check_encoding check_schema
validate_document app doc = elim (app.etree_parse doc) [
  | syntax_error message ↦ raise not_well_formed [] message
  | other_error ↦ raise not_well_formed [] []
  | parsed encoding ↦ do
    done ← check_encoding encoding
    if app.document_validation then check_schema (app.schema_errors doc) else ok tt
]

-- a document by its context
pub record Place : Type 0 where
  pub context : Str
  pub target : Target

-- get_document, whose global documents only a subclass has
unfoldable pub get_document : Check → Place → Table → Result Fault StatusResponse
unfolding Backend.get_document str_eq
get_document check place rows =
    if str_eq place.context (codes "users")
    then Backend.get_document check place.target rows
    else err (http 404)

-- put_document
unfoldable pub put_document :
    Application → Check → Place → Str → Str → Table → Result Fault (StatusResponse × Table)
unfolding validate_document Backend.put_document
put_document app check place doc fresh rows = do
  done ← validate_document app doc
  Backend.put_document check place.target doc fresh rows

-- delete_document
unfoldable pub delete_document : Check → Place → Table → Result Fault (StatusResponse × Table)
unfolding Backend.delete_document
delete_document check place rows = Backend.delete_document check place.target rows

-- the white space of bytes.strip()
abbrev pub is_space_byte : ℕ → Bool
is_space_byte c = (leb 9 c && leb c 13) || c == 32

abbrev pub data_of : StatusResponse → Str
data_of r = elim r.body [ none ↦ [] | some d ↦ d ]

-- set_201_code, if `created`
abbrev pub with_code : Bool → StatusResponse → StatusResponse
with_code created r = if created && r.code == 200 then record r { code = 201 } else r

-- get_result != element_body.strip()
unfoldable pub is_result : Option Str → Str → Bool
unfolding strip str_eq
is_result none body = false
is_result (some text) body = str_eq text (strip is_space_byte body)

-- what element.put did: nothing, or a new document
checked_document :
    Application → ElementSelector → Str → Option (Str × Bool) → Result Fault (Str × Bool)
unfolding get is_result
checked_document app fixed body none = raise (no_parent []) [] []
checked_document app fixed body (some (new, created)) = do
  text ← handled document (get app.parser new fixed.steps)
  if is_result text body
      then ok (new, created)
      else raise cannot_insert (codes "PUT request failed GET(PUT(x))==x invariant") []

-- the new document of _cb_put_element. `fix_star` has changed the selector of the URI as well, so
-- that GET is checked with the same steps.
unfoldable pub new_document : Application → ElementSelector → Str → Str → Result Fault (Str × Bool)
unfolding fix_star put checked_document utf8_decode
new_document app elements body old = do
  text ← (elim (utf8_decode body) [ none ↦ err decode_error | some t ↦ ok t ])
  fixed ← handled selector (fix_star text elements)
  result ← handled document (put app.parser old fixed.steps body)
  checked_document app fixed body result

-- _cb_put_element
cb_put_element :
    Application
    → Check
    → Place
    → ElementSelector
    → Str
    → Str
    → Table
    → StatusResponse
    → Result Fault (StatusResponse × Table)
unfolding new_document put_document
cb_put_element app check place elements body fresh rows response =
    if response.code == 404 then raise (no_parent []) [] [] else do
      (new, created) ← new_document app elements body (data_of response)
      (r, after) ← put_document app check place new fresh rows
      ok (with_code created r, after)

-- put_element
unfoldable pub put_element :
    Application
    → Check
    → Place
    → ElementSelector
    → Str
    → Str
    → Table
    → Result Fault (StatusResponse × Table)
unfolding cb_put_element get_document
put_element app check place elements body fresh rows = elim (app.fragment_error body) [
  | some message ↦ raise not_xml_frag [] message
  | none ↦ do
    response ← get_document check place rows
    cb_put_element app check place elements body fresh rows response
]

-- what element.get found, as a response; an empty text counts as nothing
found_element : StatusResponse → Option Str → Result Fault StatusResponse
found_element response none = err (http 404)
found_element response (some []) = err (http 404)
found_element response (some (c ∷ text)) =
    ok (record { code = 200; etag = response.etag; body = some (c ∷ text); old_etag = none })

-- _cb_get_element
cb_get_element : Application → ElementSelector → StatusResponse → Result Fault StatusResponse
unfolding get found_element
cb_get_element app elements response = if response.code == 404 then err (http 404) else do
  text ← handled document (get app.parser (data_of response) elements.steps)
  found_element response text

-- get_element
unfoldable pub get_element :
    Application → Check → Place → ElementSelector → Table → Result Fault StatusResponse
unfolding cb_get_element get_document
get_element app check place elements rows = do
  response ← get_document check place rows
  cb_get_element app elements response

-- behind element.delete
rest_of_document : Application → ElementSelector → Option Str → Result Fault Str
unfolding find
rest_of_document app elements none = err (http 404)
rest_of_document app elements (some []) = err (http 404)
rest_of_document app elements (some (c ∷ new)) = do
  location ← handled document (find app.parser (c ∷ new) elements.steps)
  elim location [
    | none ↦ ok (c ∷ new)
    | some _ ↦ raise cannot_delete (codes "DELETE request failed GET(DELETE(x))==404 invariant") []
  ]

-- _cb_delete_element
cb_delete_element :
    Application
    → Check
    → Place
    → ElementSelector
    → Str
    → Table
    → StatusResponse
    → Result Fault (StatusResponse × Table)
unfolding delete rest_of_document put_document
cb_delete_element app check place elements fresh rows response =
    if response.code == 404 then err (http 404) else do
      result ← handled document (delete app.parser (data_of response) elements.steps)
      new ← rest_of_document app elements result
      put_document app check place new fresh rows

-- delete_element
unfoldable pub delete_element :
    Application
    → Check
    → Place
    → ElementSelector
    → Str
    → Table
    → Result Fault (StatusResponse × Table)
unfolding cb_delete_element get_document
delete_element app check place elements fresh rows = do
  response ← get_document check place rows
  cb_delete_element app check place elements fresh rows response
