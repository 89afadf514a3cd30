-- ===== src/Tests/Storage.antt =====
-- Runs of the storage and of the operations on elements, and the theorems at them.
use openxcap.Prelude.{
  ◌≡◌, refl, true, false, none, some, [], ◌∷◌, Str, codes, ok, str_eq, split_first, strip,
}
use openxcap.Xpath.{Step, ElementSelector, qname, tag, token_is}
use openxcap.Xpath.Node.{fix_star}
use openxcap.Element.{Name, name_matches, position_passes, att_test_passes}
use openxcap.Element.Find
use openxcap.Element.Insert
use openxcap.Element.Utf8.{utf8_decode}
use openxcap.Element.Tree.{Tree, element, nil, cons, events}
use openxcap.Element.Splice
use openxcap.Element.Splice.{Parser}
use openxcap.Backend.{
  StatusResponse, Target, Key, Table, Check, query_of, fetch_document, get_document, put_document,
  delete_document,
}
use openxcap.Backend.Rows.{view, IsUnique}
use openxcap.Backend.Refinement.{write, erase, seen, put_document-write, delete_document-erase}
use openxcap.Backend.Stored.{IsStored}
use openxcap.AppUsage
use openxcap.AppUsage.{Application, parsed, Place, put_element, get_element, delete_element}
use openxcap.AppUsage.Elements.{IsInserted, put_element-IsStored}

storage_code : Unit {0}
unfolding query_of fetch_document get_document put_document delete_document str_eq view put_element
    get_element delete_element AppUsage.new_document AppUsage.is_result fix_star Splice.find
    Splice.get Splice.put Find.run Insert.run utf8_decode events name_matches token_is
    position_passes att_test_passes split_first AppUsage.validate_document strip
storage_code = tt

abbrev pub target : Target
target = record {
  username = some (codes "alice");
  domain = some (codes "d");
  application_id = codes "test-app";
  document_path = codes "index";
}

abbrev pub key : Key
key = record { username = codes "alice"; domain = codes "d"; doc_type = 0; doc_uri = codes "index" }

abbrev pub text : Str
text = codes "<a><b/><c>t</c></a>"

abbrev pub rows : Table
rows = record { key = key; doc = text; etag = codes "e1" } ∷ []

abbrev pub check : Check
check etag exists = ok tt

pub query : query_of target ≡ ok (some key)
unfolding storage_code
query = refl

pub rows-IsUnique : IsUnique rows
unfolding storage_code
rows-IsUnique = (refl, tt)

put_document-write_example :
    seen (put_document check target (codes "<x/>") (codes "e2") rows)
    ≡ write check key (codes "<x/>") (codes "e2") (view rows) (view rows key)
put_document-write_example =
    put_document-write check target key query rows rows-IsUnique (codes "<x/>") (codes "e2")

delete_document-erase_example :
    seen (delete_document check target rows) ≡ erase check key (view rows) (view rows key)
delete_document-erase_example = delete_document-erase check target key query rows rows-IsUnique

abbrev answer : StatusResponse
answer = record { code = 201; etag = some (codes "e1"); body = none; old_etag = none }

abbrev nm : Str → Name
nm s = record { namespace = none; local = s }

abbrev tree : Tree
tree =
    element (nm (codes "a")) [] 0 15
      (cons (element (nm (codes "b")) [] 3 7 nil) (cons (element (nm (codes "c")) [] 7 11 nil) nil))

abbrev parser : Parser
parser s = record { calls = events tree; fails = false }

abbrev pub app : Application
app = record {
  etree_parse = λ s. parsed (some (codes "UTF-8"));
  schema_errors = λ s. none;
  document_validation = true;
  parser = parser;
  fragment_error = λ s. none;
}

abbrev pub place : Place
place = record { context = codes "users"; target = target }

abbrev pub named : Str → Step
named s = record { name = qname none (tag s); position = none; att_test = none }

abbrev pub elements : ElementSelector
elements = record {
  steps = named (codes "a") ∷ named (codes "c") ∷ [];
  namespace = none;
  namespaces = [];
}

abbrev new_rows : Table
new_rows = record { key = key; doc = codes "<a><b/><c>u</c></a>"; etag = codes "e2" } ∷ []

abbrev updated : StatusResponse
updated = record { code = 200; etag = some (codes "e2"); body = none; old_etag = some (codes "e1") }

-- a PUT of an element that is there
element_put :
    put_element app check place elements (codes "<c>u</c>") (codes "e2") rows
    ≡ ok (updated, new_rows)
unfolding storage_code
element_put = refl

element_get :
    get_element app check place elements new_rows
    ≡ ok (record {
      code = 200;
      etag = some (codes "e2");
      body = some (codes "<c>u</c>");
      old_etag = none;
    })
unfolding storage_code
element_get = refl

put_element-IsStored_example :
    (new : Str) × IsStored new (view new_rows key) × IsInserted app elements (codes "<c>u</c>") new
put_element-IsStored_example =
    put_element-IsStored app check place elements key (codes "<c>u</c>") (codes "e2") rows new_rows
      updated query rows-IsUnique element_put
