-- ===== src/AppUsage/Attributes.antt =====
-- Attributes and namespace bindings in ApplicationUsage of xcap/appusage/__init__.py. The trees of
-- lxml and its XPath are parameters.
pub mod Changed
use openxcap.Prelude.{
  ℕ, Bool, true, false, not, ◌&&◌, ◌||◌, Option, none, some, List, [], ◌∷◌, ◌++◌, Str, codes,
  is_empty, if◌then◌else◌, ◌==◌, Result, ok, err, ◌>>=◌, handled, Dict, of_option,
}
use openxcap.Errors.{
  Fault, http, xcap, selector, attribute_error, value_error, xml_syntax_error, xcap_error,
  no_parent,
}
use openxcap.Xpath.{TerminalSelector, attribute_selector}
use openxcap.Xpath.Selector.{text_of}
use openxcap.Xpath.Node.{NodeSelector, replace_default_prefix, get_ns_bindings}
use openxcap.Backend.{StatusResponse, Table, Check}
use openxcap.AppUsage.{Application, Place, raise, data_of, get_document, put_document}

-- etree.parse, where `none` is an XMLSyntaxError; the values and the elements that an XPath expression
-- selects, where `none` is an exception; and what the code does with an element of a tree. A value
-- that is no XML text, or a name that is none, makes `set` raise ValueError.
pub record Lxml : Type 1 where
  pub Doc : Type 0
  pub Elem : Type 0
  pub parse : Str → Option Doc
  pub select_values : Doc → Str → Dict (Option Str) → Option (List Str)
  pub select_elements : Doc → Str → Dict (Option Str) → Option (List Elem)
  pub attribute : Doc → Elem → Str → Option Str
  pub set_attribute : Doc → Elem → Str → Str → Option Doc
  pub remove_attribute : Doc → Elem → Str → Doc
  pub tag : Doc → Elem → Str
  pub nsmap : Doc → Elem → List (Option Str × Str)
  pub tostring : Doc → Str

-- what a selection of exactly one takes: the fault where nothing is found, an exception included, and
-- the fault where more than one is
unfoldable pub only : {A : Type 0} → Fault → Fault → Option (List A) → Result Fault A
only missing ambiguous none = err missing
only missing ambiguous (some []) = err missing
only missing ambiguous (some (x ∷ [])) = ok x
only missing ambiguous (some (x ∷ y ∷ l)) = err ambiguous

-- NoParentError with a phrase
abbrev pub parent_fault : Str → Fault
parent_fault phrase = xcap (xcap_error (no_parent []) phrase [])

-- terminal_selector.attribute
unfoldable pub attribute_of : NodeSelector → Result Fault Str
attribute_of n = elim n.terminal_selector [
  | some (attribute_selector t) ↦ handled selector (text_of t)
  | _ ↦ err attribute_error
]

-- '' or ':prefix': a prefix that is None or empty is no prefix
abbrev colon_prefix : Option Str → Str
colon_prefix none = []
colon_prefix (some []) = []
colon_prefix (some (c ∷ prefix)) = b':' ∷ c ∷ prefix

binding_texts : List (Option Str × Str) → Str
binding_texts [] = []
binding_texts ((prefix, ns) ∷ bindings) =
    codes " xmlns"
    ++ (colon_prefix prefix ++ (codes "=\"" ++ (ns ++ (codes "\"" ++ binding_texts bindings))))

-- the element that shows the bindings
unfoldable pub bindings_text : Str → List (Option Str × Str) → Str
unfolding binding_texts
bindings_text tag bindings =
    codes "<" ++ (tag ++ (codes " " ++ (binding_texts bindings ++ codes "/>")))

module _ (lxml : Lxml) (default_ns : Option Str) where
  -- etree.parse(BytesIO(response.data))
  abbrev pub tree_of : StatusResponse → Result Fault lxml.Doc
  tree_of response = of_option xml_syntax_error (lxml.parse (data_of response))

  -- the attributes that the selector finds; an exception in its text counts as one of the search
  unfoldable pub selected_values : lxml.Doc → NodeSelector → Option (List Str)
  unfolding replace_default_prefix get_ns_bindings
  selected_values d n = elim (replace_default_prefix true n) [
    | err _ ↦ none
    | ok path ↦ lxml.select_values d path (get_ns_bindings default_ns n)
  ]

  -- the elements that the selector finds without its terminal
  unfoldable pub selected_elements : lxml.Doc → NodeSelector → Option (List lxml.Elem)
  unfolding replace_default_prefix get_ns_bindings
  selected_elements d n = elim (replace_default_prefix false n) [
    | err _ ↦ none
    | ok path ↦ lxml.select_elements d path (get_ns_bindings default_ns n)
  ]

  -- _cb_get_attribute
  unfoldable pub cb_get_attribute : NodeSelector → StatusResponse → Result Fault StatusResponse
  unfolding only selected_values
  cb_get_attribute n response = if response.code == 404 then err (http 404) else do
    d ← tree_of response
    value ← only (http 404) (http 404) (selected_values d n)
    ok (record { code = 200; etag = response.etag; body = some value; old_etag = none })

  -- get_attribute
  unfoldable pub get_attribute : Check → Place → NodeSelector → Table → Result Fault StatusResponse
  unfolding cb_get_attribute get_document
  get_attribute check place n rows = do
    response ← get_document check place rows
    cb_get_attribute n response

  -- `if elem.get(attribute): del elem.attrib[attribute]`, where an empty value counts as none
  without_attribute : lxml.Doc → lxml.Elem → Str → Option Str → Result Fault lxml.Doc
  without_attribute d e name (some (c ∷ value)) = ok (lxml.remove_attribute d e name)
  without_attribute d e name _ = err (http 404)

  -- the new document of _cb_delete_attribute
  unfoldable pub attribute_deleted : NodeSelector → StatusResponse → Result Fault Str
  unfolding only selected_elements attribute_of without_attribute
  attribute_deleted n response = if response.code == 404 then err (http 404) else do
    d ← tree_of response
    e ← only (http 404) (http 404) (selected_elements d n)
    name ← attribute_of n
    new ← without_attribute d e name (lxml.attribute d e name)
    ok (lxml.tostring new)

  -- the new document of _cb_put_attribute
  unfoldable pub attribute_put : NodeSelector → Str → StatusResponse → Result Fault Str
  unfolding only selected_elements attribute_of
  attribute_put n value response = if response.code == 404 then err (parent_fault []) else do
    d ← tree_of response
    e ←
        only (parent_fault []) (parent_fault (codes "XPATH expression is ambiguous"))
          (selected_elements d n)
    name ← attribute_of n
    new ← of_option value_error (lxml.set_attribute d e name value)
    ok (lxml.tostring new)

  -- delete_attribute, _cb_delete_attribute
  unfoldable pub delete_attribute :
      Application
      → Check
      → Place
      → NodeSelector
      → Str
      → Table
      → Result Fault (StatusResponse × Table)
  unfolding attribute_deleted get_document put_document
  delete_attribute app check place n fresh rows = do
    response ← get_document check place rows
    new ← attribute_deleted n response
    put_document app check place new fresh rows

  -- put_attribute, _cb_put_attribute
  unfoldable pub put_attribute :
      Application
      → Check
      → Place
      → NodeSelector
      → Str
      → Str
      → Table
      → Result Fault (StatusResponse × Table)
  unfolding attribute_put get_document put_document
  put_attribute app check place n value fresh rows = do
    response ← get_document check place rows
    new ← attribute_put n value response
    put_document app check place new fresh rows

  -- _cb_get_ns_bindings
  unfoldable pub cb_get_ns_bindings : NodeSelector → StatusResponse → Result Fault StatusResponse
  unfolding only selected_elements bindings_text
  cb_get_ns_bindings n response = if response.code == 404 then err (http 404) else do
    d ← tree_of response
    e ← only (http 404) (http 404) (selected_elements d n)
    ok (record {
      code = 200;
      etag = response.etag;
      body = some (bindings_text (lxml.tag d e) (lxml.nsmap d e));
      old_etag = none;
    })

  -- get_ns_bindings of the application
  unfoldable pub get_bindings : Check → Place → NodeSelector → Table → Result Fault StatusResponse
  unfolding cb_get_ns_bindings get_document
  get_bindings check place n rows = do
    response ← get_document check place rows
    cb_get_ns_bindings n response
