-- ===== src/Service.antt =====
-- The resources of xcap/services/xcap_service.py: which one a URI names, and what GET, PUT and DELETE
-- of each answer. The conditions are in openxcap.Preconditions, the applications in openxcap.AppUsage.
pub mod Cycle
pub mod Guarded
pub mod Unmodified
use openxcap.Prelude.{
  ℕ, Bool, true, false, not, Option, none, some, List, [], ◌∷◌, ◌++◌, Str, codes, str_eq, is_empty,
  if◌then◌else◌, ◌==◌, Result, ok, err, ◌>>=◌,
}
use openxcap.Errors.{Fault, http, type_error, attribute_error, not_implemented}
use openxcap.Xpath.{TerminalSelector, attribute_selector, namespace_selector}
use openxcap.Xpath.Node.{NodeSelector}
use openxcap.Preconditions.{check_etag}
use openxcap.Preconditions
use openxcap.Backend.{StatusResponse, Table, Check}
use openxcap.AppUsage.{
  Application, Place, get_document, put_document, delete_document, get_element, put_element,
  delete_element,
}
use openxcap.AppUsage.Attributes.{
  Lxml, get_attribute, put_attribute, delete_attribute, get_bindings,
}

-- the subclasses of XCAPResource, with what they read of the URI beside the document
pub data Resource : Type 0 where
  document : Resource
  element attribute namespace_binding : NodeSelector → Resource

-- get_xcap_resource
unfoldable pub get_xcap_resource : Option NodeSelector → Resource
get_xcap_resource none = document
get_xcap_resource (some n) = elim n.terminal_selector [
  | none ↦ element n
  | some (attribute_selector t) ↦ attribute n
  | some namespace_selector ↦ namespace_binding n
]

-- content_type of a resource; that of a document is the MIME type of its application
unfoldable pub content_type_of : Option Str → Resource → Str
content_type_of none document = codes "application/xml"
content_type_of (some []) document = codes "application/xml"
content_type_of (some (c ∷ mime)) document = c ∷ mime
content_type_of mime (element n) = codes "application/xcap-el+xml"
content_type_of mime (attribute n) = codes "application/xcap-att+xml"
content_type_of mime (namespace_binding n) = codes "application/xcap-ns+xml"

-- a request: its conditions, its Content-Type, empty where there is none, and its body
pub record HttpRequest : Type 0 where
  pub conditions : Preconditions.Request
  pub content_type : Str
  pub body : Str

pub record Response : Type 0 where
  pub status : ℕ
  pub etag : Option Str
  pub content_type : Str
  pub content : Option Str

-- `if etag: headers["ETag"] = f'"{etag}"'`
unfoldable pub etag_header : Option Str → Option Str
etag_header none = none
etag_header (some []) = none
etag_header (some (c ∷ etag)) = some (b'"' ∷ ((c ∷ etag) ++ codes "\""))

-- set_headers
unfoldable pub set_headers : Option Str → Resource → StatusResponse → Response
unfolding content_type_of etag_header
set_headers mime resource r = record {
  status = r.code;
  etag = etag_header r.etag;
  content_type = content_type_of mime resource;
  content = r.body;
}

-- `lambda e: self.check_etag(request, e)`, which takes no second argument
abbrev pub one_argument : Check → Check
one_argument check etag true = check etag true
one_argument check etag false = err type_error

-- the Content-Type that a PUT of an element or an attribute must have
unfoldable pub check_content_type : Str → Str → Result Fault (Unit {0})
unfolding str_eq
check_content_type expected given = if str_eq given expected then ok tt else err (http 415)

module _ (parse_datetime : Str → Option ℕ) (now : ℕ) where
  -- self.check_etag(request, e, exists)
  abbrev pub check_of : HttpRequest → Check
  check_of request etag exists = check_etag parse_datetime now request.conditions etag exists

  abbrev checked : HttpRequest → Check
  checked request = one_argument (check_of request)

module _ (parse_datetime : Str → Option ℕ) (now : ℕ) (lxml : Lxml) (app : Application)
    (mime default_ns : Option Str) (place : Place) where
  -- get_data
  unfoldable pub get_data : Resource → HttpRequest → Table → Result Fault StatusResponse
  unfolding get_document get_element get_attribute get_bindings check_etag
  get_data document request rows = get_document (checked parse_datetime now request) place rows
  get_data (element n) request rows =
      get_element app (checked parse_datetime now request) place n.element_selector rows
  get_data (attribute n) request rows =
      get_attribute lxml default_ns (checked parse_datetime now request) place n rows
  get_data (namespace_binding n) request rows =
      get_bindings lxml default_ns (checked parse_datetime now request) place n rows

  -- update_data; `fresh` is the tag of a new document
  unfoldable pub update_data :
      Resource → HttpRequest → Str → Table → Result Fault (StatusResponse × Table)
  unfolding put_document put_element put_attribute check_content_type content_type_of check_etag
  update_data document request fresh rows =
      put_document app (check_of parse_datetime now request) place request.body fresh rows
  update_data (element n) request fresh rows = do
    done ← check_content_type (content_type_of mime (element n)) request.content_type
    put_element app (checked parse_datetime now request) place n.element_selector request.body fresh
        rows
  update_data (attribute n) request fresh rows = do
    done ← check_content_type (content_type_of mime (attribute n)) request.content_type
    put_attribute lxml default_ns app (checked parse_datetime now request) place n request.body
        fresh rows
  update_data (namespace_binding n) request fresh rows = err not_implemented

  -- delete_data
  unfoldable pub delete_data :
      Resource → HttpRequest → Str → Table → Result Fault (StatusResponse × Table)
  unfolding delete_document delete_element delete_attribute check_etag
  delete_data document request fresh rows =
      delete_document (checked parse_datetime now request) place rows
  delete_data (element n) request fresh rows =
      delete_element app (checked parse_datetime now request) place n.element_selector fresh rows
  delete_data (attribute n) request fresh rows =
      delete_attribute lxml default_ns app (checked parse_datetime now request) place n fresh rows
  delete_data (namespace_binding n) request fresh rows = err not_implemented

  -- handle_get
  unfoldable pub handle_get : Resource → HttpRequest → Table → Result Fault Response
  unfolding get_data set_headers
  handle_get resource request rows = do
    r ← get_data resource request rows
    ok (set_headers mime resource r)

  -- handle_update
  unfoldable pub handle_update :
      Resource → HttpRequest → Str → Table → Result Fault (Response × Table)
  unfolding update_data set_headers
  handle_update resource request fresh rows = do
    (r, after) ← update_data resource request fresh rows
    ok (set_headers mime resource r, after)

  -- handle_delete
  unfoldable pub handle_delete :
      Resource → HttpRequest → Str → Table → Result Fault (Response × Table)
  unfolding delete_data set_headers
  handle_delete resource request fresh rows = do
    (r, after) ← delete_data resource request fresh rows
    ok (set_headers mime resource r, after)
