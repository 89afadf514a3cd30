-- ===== src/Tests/Services.antt =====
-- Runs of the resources of a request and of attributes, and the theorems at them. A document of the
-- model of lxml here is one element with one attribute.
use openxcap.Prelude.{
  ℕ, ◌≡◌, refl, Option, none, some, [], ◌∷◌, ◌++◌, Str, codes, str_eq, ok, err, strip_prefix,
  split_first, split_on, strip, insert, lookup, decimal,
}
use openxcap.Errors.{http, not_implemented}
use openxcap.Xpath.{tag, attribute_selector}
use openxcap.Xpath.Node.{NodeSelector, replace_default_prefix}
use openxcap.HttpUtils.Tags.{IsPlainTag}
use openxcap.Preconditions.{http_get, http_put, check_etag}
use openxcap.Backend.{StatusResponse, Table, query_of}
use openxcap.Backend
use openxcap.Backend.Rows.{view}
use openxcap.Backend.Stored.{IsStored}
use openxcap.AppUsage.{validate_document}
use openxcap.AppUsage
use openxcap.AppUsage.Attributes.{
  Lxml, selected_elements, put_attribute, delete_attribute, get_bindings, cb_get_attribute,
  bindings_text,
}
use openxcap.AppUsage.Attributes.Changed.{
  HasValue, IsWithout, put_attribute-HasValue, delete_attribute-IsWithout,
}
use openxcap.Service.{
  document, namespace_binding, HttpRequest, Response, etag_header, content_type_of, handle_get,
  handle_update, handle_delete,
}
use openxcap.Service.Cycle.{unconditional, handle_get-update}
use openxcap.Service.Guarded.{wants, handle_update-stale}
use openxcap.Tests.Storage.{key, place, rows-IsUnique, query, app, check, named}

service_code : Unit {0}
unfolding query_of Backend.put_document Backend.get_document Backend.delete_document
    Backend.fetch_document str_eq view strip_prefix split_first split_on handle_get handle_update
    handle_delete check_etag validate_document AppUsage.put_document AppUsage.get_document
    put_attribute delete_attribute get_bindings cb_get_attribute selected_elements
    replace_default_prefix strip insert lookup decimal content_type_of etag_header bindings_text
service_code = tt

abbrev front : Str
front = codes "<a x=\""

abbrev value_read : Str → Option Str
value_read s = elim (strip_prefix front s) [
  | none ↦ none
  | some rest ↦ elim (split_first (codes "\"") rest) [
    | none ↦ none
    | some (value, end) ↦ some value
  ]
]

-- the document is the value of its attribute; a value with an angle bracket is refused
abbrev pub lxml : Lxml
lxml = record {
  Doc = Str;
  Elem = Unit {0};
  parse = value_read;
  select_values = λ d path ns. some (d ∷ []);
  select_elements = λ d path ns. some (tt ∷ []);
  attribute = λ d e name. some d;
  set_attribute =
      λ d e name value. elim (split_first (codes "<") value) [ none ↦ some value | some p ↦ none ];
  remove_attribute = λ d e name. [];
  tag = λ d e. codes "a";
  nsmap = λ d e. [];
  tostring = λ d. front ++ (d ++ codes "\"/>");
}

abbrev selected : NodeSelector
selected = record {
  original_selector = codes "a/@x";
  ns_bindings = [];
  element_selector = record { steps = named (codes "a") ∷ []; namespace = none; namespaces = [] };
  terminal_selector = some (attribute_selector (tag (codes "x")));
}

abbrev one : Str
one = codes "<a x=\"1\"/>"

abbrev two : Str
two = codes "<a x=\"2\"/>"

abbrev stored : Str → Str → Table
stored doc etag = record { key = key; doc = doc; etag = etag } ∷ []

stored-query : query_of place.target ≡ ok (some key)
stored-query = query

abbrev response : StatusResponse
response = record {
  code = 200;
  etag = some (codes "e2");
  body = none;
  old_etag = some (codes "e1");
}

attribute_put_run :
    put_attribute lxml none app check place selected
      (codes "2")
      (codes "e2")
      (stored one (codes "e1"))
    ≡ ok (response, stored two (codes "e2"))
unfolding service_code
attribute_put_run = refl

abbrev empty : Str
empty = codes "<a x=\"\"/>"

attribute_delete_run :
    delete_attribute lxml none app check place selected (codes "e2") (stored one (codes "e1"))
    ≡ ok (response, stored empty (codes "e2"))
unfolding service_code
attribute_delete_run = refl

-- an empty value is not deleted
empty_delete_run :
    delete_attribute lxml none app check place selected (codes "e2") (stored empty (codes "e1"))
    ≡ err (http 404)
unfolding service_code
empty_delete_run = refl

put_attribute-HasValue_example :
    (old etag new : Str) × (view (stored one (codes "e1")) key ≡ some (old, etag))
    × HasValue lxml none selected (codes "2") old new
    × IsStored new (view (stored two (codes "e2")) key)
put_attribute-HasValue_example =
    put_attribute-HasValue lxml none selected app check place key (codes "2") (codes "e2")
      (stored one (codes "e1")) (stored two (codes "e2")) response stored-query rows-IsUnique
      attribute_put_run

delete_attribute-IsWithout_example :
    (old etag new : Str) × (view (stored one (codes "e1")) key ≡ some (old, etag))
    × IsWithout lxml none selected old new
    × IsStored new (view (stored empty (codes "e2")) key)
delete_attribute-IsWithout_example =
    delete_attribute-IsWithout lxml none selected app check place key (codes "e2")
      (stored one (codes "e1")) (stored empty (codes "e2")) response stored-query rows-IsUnique
      attribute_delete_run

abbrev no_date : Str → Option ℕ
no_date s = none

abbrev put_of : Str → HttpRequest
put_of body = record { conditions = unconditional http_put; content_type = []; body = body }

abbrev answered : Response
answered = record {
  status = 200;
  etag = some (codes "\"e2\"");
  content_type = codes "application/xml";
  content = none;
}

put_run :
    handle_update no_date 0 lxml app none none place document
      (put_of two)
      (codes "e2")
      (stored one (codes "e1"))
    ≡ ok (answered, stored two (codes "e2"))
unfolding service_code
put_run = refl

-- a PUT of namespace bindings
bindings_run :
    handle_update no_date 0 lxml app none none place
      (namespace_binding selected)
      (put_of two)
      (codes "e2")
      (stored one (codes "e1"))
    ≡ err not_implemented
unfolding service_code
bindings_run = refl

handle_get-update_example :
    handle_get no_date 0 lxml app none none place document
      (record (put_of two) { conditions = unconditional http_get })
      (stored two (codes "e2"))
    ≡ ok (record answered { status = 200; content = some two })
unfolding str_eq
handle_get-update_example =
    handle_get-update no_date 0 lxml app none none place key http_get (put_of two) (put_of two)
      (codes "e2") (stored one (codes "e1")) (stored two (codes "e2")) answered refl stored-query
      rows-IsUnique put_run

e1-IsPlain : IsPlainTag (codes "e1")
e1-IsPlain = (((refl, (refl, refl)), ((refl, (refl, refl)), tt)), (cc, cc))

valid : validate_document app (codes "<a x=\"3\"/>") ≡ ok tt
unfolding service_code
valid = refl

there : view (stored one (codes "e1")) key ≡ some (one, codes "e1")
unfolding service_code
there = refl

abbrev three : HttpRequest
three = put_of (codes "<a x=\"3\"/>")

handle_update-stale_example :
    (handle_update no_date 0 lxml app none none place document
        (wants (codes "e1") three)
        (codes "e3")
        (stored two (codes "e2"))
      ≡ err (http 412))
    × (done : Table) × (handle_update no_date 0 lxml app none none place document
          (wants (codes "e1") three)
          (codes "e3")
          (stored one (codes "e1"))
        ≡ ok (
          record {
            status = 200;
            etag = etag_header (some (codes "e3"));
            content_type = content_type_of none document;
            content = none;
          },
          done,
        ))
unfolding str_eq
handle_update-stale_example =
    handle_update-stale no_date 0 lxml app none none place key (codes "e1") one three (put_of two)
      (codes "e2") (codes "e3") (stored one (codes "e1")) (stored two (codes "e2")) answered
      stored-query rows-IsUnique e1-IsPlain there valid refl refl refl refl put_run

-- a PUT with If-Unmodified-Since, which is also taken for a GET and a DELETE
abbrev dated : HttpRequest
dated = record three {
  conditions = record (unconditional http_put) {
    if_unmodified_since = codes "Wed, 01 Jan 2025 00:00:00 GMT";
    range = codes "bytes=0-9";
  };
}
