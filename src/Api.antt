-- ===== src/Api.antt =====
-- The REST interface of xcap/routes/api_routes.py: an address book and an icon, kept in XCAP
-- documents. The payloads of sipsimple are parameters; models of answers stand for their payloads.
pub mod Contacts
pub mod Policies
pub mod Groups
pub mod Icons
pub mod Members
pub mod Deleted
pub mod Stored
use openxcap.Prelude.{
  ℕ, Bool, true, false, not, Option, none, some, List, [], ◌∷◌, ◌++◌, any, Str, codes, str_eq,
  if◌then◌else◌, ◌==◌, Result, ok, err, ◌>>=◌, of_option, Dict, insert,
}
use openxcap.Errors.{Fault, http, key_error, value_error}
use openxcap.Backend.{Table}
use openxcap.AppUsage.{Application, Place}
use openxcap.AppUsage.Attributes.{Lxml}
use openxcap.Service.{Resource, HttpRequest, Response, handle_get, handle_update, handle_delete}

-- presence and dialog: the policy, and whether to subscribe
abbrev pub Handling : Type 0
Handling = Str × Bool

-- a URI of a contact as the payload has it
pub record ContactUri : Type 0 where
  pub id : Str
  pub uri : Str
  pub type : Option Str
  pub attributes : Dict Str

-- sipsimple: documents of resource lists, and the address book in one of them. `store_contact` and
-- its like are `add`, and what the code changes in an item that it has looked up.
pub record Payload : Type 1 where
  pub Content : Type 0
  pub Contact : Type 0
  pub Group : Type 0
  pub Policy : Type 0
  pub parse : Str → Option Content
  pub toxml : Content → Str
  pub no_lists : Content
  pub has_list : Str → Content → Bool
  pub add_list : Str → Content → Content
  pub contact : Str → Content → Option Contact
  pub contacts : Content → List Contact
  pub store_contact : Contact → Content → Content
  pub delete_contact : Str → Content → Content
  pub new_contact : Str → Str → Handling → Handling → Contact
  pub set_fields : Str → Handling → Handling → Contact → Contact
  pub uris : Contact → List ContactUri
  pub add_uri : ContactUri → Contact → Contact
  pub remove_uri : ContactUri → Contact → Contact
  pub set_default : Str → Contact → Contact
  pub set_attributes : Dict Str → Contact → Contact
  pub update_attributes : Dict Str → Contact → Contact
  pub group : Str → Content → Option Group
  pub groups : Content → List Group
  pub group_ids : Content → List Str
  pub store_group : Group → Content → Content
  pub delete_group : Str → Content → Content
  pub new_group : Str → Str → List Str → Dict Str → Group
  pub group_id : Group → Str
  pub rename : Str → Group → Group
  pub members : Group → List Str
  pub has_member : Str → Group → Bool
  pub add_member : Str → Group → Group
  pub remove_member : Str → Group → Option Group
  pub update_group_attributes : Dict Str → Group → Group
  pub policy : Str → Content → Option Policy
  pub policies : Content → List Policy
  pub store_policy : Policy → Content → Content
  pub delete_policy : Str → Content → Content
  pub new_policy : Str → Str → Str → Handling → Handling → Dict Str → Policy
  pub set_policy : Str → Str → Handling → Handling → Dict Str → Policy → Policy

abbrev pub addressbook_name : Str
addressbook_name = codes "sipsimple_addressbook"

-- the lists of a document, in the order in which `normalize` makes them
abbrev pub list_names : List Str
list_names =
    codes "oma_buddylist"
    ∷ codes "oma_grantedcontacts"
    ∷ codes "oma_blockedcontacts"
    ∷ codes "dialog_grantedcontacts"
    ∷ codes "dialog_blockedcontacts"
    ∷ codes "sipsimple_presence_rls"
    ∷ codes "sipsimple_dialog_rls"
    ∷ addressbook_name
    ∷ []

-- what a route reads and writes: handle_get, handle_update and handle_delete of the document's XCAP
-- resource, with the text that is read, and with the status of the answer
pub record Store : Type 0 where
  pub read : Table → Result Fault Str
  pub write : Str → Str → Table → Result Fault (ℕ × Table)
  pub erase : Str → Table → Result Fault (ℕ × Table)

abbrev content_of : Response → Str
content_of r = elim r.content [ none ↦ [] | some s ↦ s ]

-- the store of a request for the resource of a document
unfoldable pub store_of :
    (Str → Option ℕ)
    → ℕ
    → Lxml
    → Application
    → Option Str
    → Option Str
    → Place
    → Resource
    → HttpRequest
    → Store
store_of parse_datetime now lxml app mime default_ns place resource request = record {
  read = λ rows. (do
    r ← handle_get parse_datetime now lxml app mime default_ns place resource request rows
    ok (content_of r));
  write = λ body fresh rows. (do
    (r, after) ←
        handle_update parse_datetime now lxml app mime default_ns place resource
          (record request { body = body }) fresh rows
    ok (r.status, after));
  erase = λ fresh rows. (do
    (r, after) ←
        handle_delete parse_datetime now lxml app mime default_ns place resource request fresh rows
    ok (r.status, after));
}

-- `if response.status_code == 200: response.status_code = 204`
abbrev pub no_content : ℕ → ℕ
no_content status = if status == 200 then 204 else status

module _ (payload : Payload) where
  open payload use {Content, parse, toxml, no_lists, has_list, add_list}

  unfoldable pub add_lists : List Str → Content → Content
  add_lists [] c = c
  add_lists (n ∷ names) c = add_lists names (if has_list n c then c else add_list n c)

  -- normalize
  unfoldable pub normalize : Option Content → Content
  unfolding add_lists
  normalize none = add_lists list_names no_lists
  normalize (some c) = add_lists list_names c

  -- document.content['sipsimple_addressbook']
  unfoldable pub addressbook_in : Content → Result Fault Content
  addressbook_in c = if has_list addressbook_name c then ok c else err key_error

  module _ (store : Store) where
    -- load_data, and the address book
    unfoldable pub load_book : Table → Result Fault Content
    load_book rows = do
      text ← store.read rows
      c ← of_option value_error (parse text)
      addressbook_in c

    -- the content of load_data where no exception of handle_get is passed on
    content_read : Result Fault Str → Result Fault (Option Content)
    content_read (err e) = ok none
    content_read (ok text) = do c ← of_option value_error (parse text); ok (some c)

    -- `if document.content is None: normalize(document)`
    abbrev or_normalized : Option Content → Content
    or_normalized none = normalize none
    or_normalized (some c) = c

    -- load_data(..., False), and the address book of what there is or is made
    unfoldable pub load_or_make : Table → Result Fault Content
    unfolding content_read
    load_or_make rows = do o ← content_read (store.read rows); addressbook_in (or_normalized o)

    -- request.state.body = document.content.toxml(); handle_update
    unfoldable pub save : Content → Str → Table → Result Fault (ℕ × Table)
    save c fresh rows = store.write (toxml c) fresh rows

-- a value of JSON that is an attribute: what is no text, truth value or null is given as its str()
pub data Scalar : Type 0 where
  boolean : Bool → Scalar
  null : Scalar
  text other : Str → Scalar

-- coerce_attribute_values
unfoldable pub coerce_from : List (Str × Scalar) → Dict Str → Dict Str
unfolding insert
coerce_from [] result = result
coerce_from ((k, boolean true) ∷ attributes) result =
    coerce_from attributes (insert k (codes "true") result)
coerce_from ((k, boolean false) ∷ attributes) result =
    coerce_from attributes (insert k (codes "false") result)
coerce_from ((k, null) ∷ attributes) result = coerce_from attributes result
coerce_from ((k, text s) ∷ attributes) result = coerce_from attributes (insert k s result)
coerce_from ((k, other s) ∷ attributes) result = coerce_from attributes (insert k s result)

abbrev pub coerce_attribute_values : List (Str × Scalar) → Dict Str
coerce_attribute_values attributes = coerce_from attributes []

-- ContactURIModel
pub record UriModel : Type 0 where
  pub id : Str
  pub uri : Str
  pub type : Option Str
  pub attributes : List (Str × Scalar)
  pub default : Bool

-- ContactModel, without the id
pub record ContactModel : Type 0 where
  pub name : Str
  pub uris : List UriModel
  pub presence : Handling
  pub dialog : Handling
  pub attributes : List (Str × Scalar)

-- `x in seen`
abbrev pub is_in : Str → List Str → Bool
is_in x seen = any (λ s. str_eq s x) seen
