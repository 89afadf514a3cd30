-- ===== src/Backend.antt =====
-- xcap/backend/__init__.py and xcap/backend/database.py: the table of documents, and the operations
-- on it. The database is the list of its rows; a new tag is an argument of the operation that makes
-- it.
pub mod Rows
pub mod Contents
pub mod Refinement
pub mod Reached
pub mod Stored
pub mod Transactions
use openxcap.Prelude.{
  ℕ, zero, suc, ◌≡◌, Bool, true, false, ◌&&◌, ◌||◌, not, Option, none, some, List, [], ◌∷◌, ◌++◌,
  any, Str, codes, str_eq, if◌then◌else◌, ◌==◌, ltb, leb, Result, ok, err, ◌>>=◌,
}
use openxcap.Errors.{Fault, key_error, integrity_error, multiple_results}

-- StatusResponse
pub record StatusResponse : Type 0 where
  pub code : ℕ
  pub etag : Option Str
  pub body : Option Str
  pub old_etag : Option Str

-- StatusResponse.succeed
abbrev pub succeed : StatusResponse → Bool
succeed r = leb 200 r.code && leb r.code 299

-- what the storage reads of an XCAPUri
pub record Target : Type 0 where
  pub username : Option Str
  pub domain : Option Str
  pub application_id : Str
  pub document_path : Str

-- BackendInterface._normalize_document_path
unfoldable pub normalized : Target → Target
unfolding str_eq
normalized t =
    if str_eq t.application_id (codes "pres-rules")
      || str_eq t.application_id (codes "org.openmobilealliance.pres-rules")
    then record t { document_path = codes "index.xml" }
    else t

-- DatabaseStorage.app_mapping
unfoldable pub doc_type_of : Str → Option ℕ
unfolding str_eq
doc_type_of id =
    if str_eq id (codes "pres-rules")
    then some 2
    else if str_eq id (codes "resource-lists")
    then some 4
    else if str_eq id (codes "rls-services")
    then some 8
    else if str_eq id (codes "pidf-manipulation")
    then some 16
    else if str_eq id (codes "org.openmobilealliance.pres-rules")
    then some 32
    else if str_eq id (codes "org.openmobilealliance.pres-content")
    then some 64
    else if str_eq id (codes "org.openxcap.dialog-rules")
    then some 128
    else if str_eq id (codes "test-app")
    then some 0
    else none

-- the columns of the unique constraint
pub record Key : Type 0 where
  pub username : Str
  pub domain : Str
  pub doc_type : ℕ
  pub doc_uri : Str

-- XCAP of xcap/db/models/storage_db.py
pub record Row : Type 0 where
  pub key : Key
  pub doc : Str
  pub etag : Str

abbrev pub Table : Type 0
Table = List Row

unfoldable pub same_key : Key → Key → Bool
unfolding str_eq
same_key a b =
    str_eq a.username b.username
    && (str_eq a.domain b.domain && (a.doc_type == b.doc_type && str_eq a.doc_uri b.doc_uri))

-- the rows with a key
unfoldable pub select_rows : Key → Table → List Row
unfolding same_key
select_rows k [] = []
select_rows k (r ∷ rows) =
    let rest = select_rows k rows in if same_key k r.key then r ∷ rest else rest

-- the key of a query: a column that is compared with None is in no row, since none of them may be
-- NULL
abbrev pub key_of : Option Str → Option Str → ℕ → Str → Option Key
key_of (some u) (some d) t p = some (record { username = u; domain = d; doc_type = t; doc_uri = p })
key_of _ _ t p = none

-- what `fetch_document` asks for
unfoldable pub query_of : Target → Result Fault (Option Key)
unfolding normalized doc_type_of
query_of target =
    let t = normalized target in
    elim (doc_type_of t.application_id) [
      | none ↦ err key_error
      | some n ↦ ok (key_of t.username t.domain n t.document_path)
    ]

unfoldable pub rows_of : Option Key → Table → List Row
unfolding select_rows
rows_of none rows = []
rows_of (some k) rows = select_rows k rows

-- `if results and len(results) > 1: raise`
at_most_one : List Row → Result Fault (Option Row)
at_most_one [] = ok none
at_most_one (r ∷ []) = ok (some r)
at_most_one (r ∷ s ∷ rows) = err multiple_results

-- fetch_document
unfoldable pub fetch_document : Target → Table → Result Fault (Option Row)
unfolding query_of rows_of at_most_one
fetch_document target rows = do k ← query_of target; at_most_one (rows_of k rows)

-- the rows with new contents in those with a key
unfoldable pub update_rows : Key → Str → Str → Table → Table
unfolding same_key
update_rows k doc etag [] = []
update_rows k doc etag (r ∷ rows) =
    let rest = update_rows k doc etag rows in
    (if same_key k r.key then record r { doc = doc; etag = etag } else r) ∷ rest

unfoldable pub delete_rows : Key → Table → Table
unfolding same_key
delete_rows k [] = []
delete_rows k (r ∷ rows) =
    let rest = delete_rows k rows in if same_key k r.key then rest else r ∷ rest

abbrev is_some {ℓ} : {A : Type ℓ} → List A → Bool
is_some [] = false
is_some (_ ∷ _) = true

-- the insertion of a row, under the constraints of the table
unfoldable pub insert_row : Option Key → Str → Str → Table → Result Fault Table
unfolding select_rows
insert_row none doc etag rows = err integrity_error
insert_row (some k) doc etag rows =
    if is_some (select_rows k rows)
    then err integrity_error
    else ok (rows ++ record { key = k; doc = doc; etag = etag } ∷ [])

abbrev pub missing : StatusResponse
missing = record { code = 404; etag = none; body = none; old_etag = none }

-- check_etag, a parameter of each operation: the tag, and whether there is a document
abbrev pub Check : Type 0
Check = Option Str → Bool → Result Fault (Unit {0})

read_row : Check → Option Row → Result Fault StatusResponse
read_row check none = ok missing
read_row check (some r) = do
  done ← check (some r.etag) true
  ok (record { code = 200; etag = some r.etag; body = some r.doc; old_etag = none })

-- get_document
unfoldable pub get_document : Check → Target → Table → Result Fault StatusResponse
unfolding fetch_document read_row
get_document check target rows = do row ← fetch_document target rows; read_row check row

-- put_document where there is a row
replace_row : Check → Str → Str → Table → Row → Result Fault (StatusResponse × Table)
unfolding str_eq update_rows
replace_row check doc fresh rows r =
    if str_eq r.doc doc
    then ok (record { code = 200; etag = some r.etag; body = some r.doc; old_etag = none }, rows)
    else do
      done ← check (some r.etag) true
      ok (
        record { code = 200; etag = some fresh; body = none; old_etag = some r.etag },
        update_rows r.key doc fresh rows,
      )

-- put_document where there is none
create_row : Check → Option Key → Str → Str → Table → Result Fault (StatusResponse × Table)
unfolding insert_row
create_row check k doc fresh rows = do
  done ← check none false
  new ← insert_row k doc fresh rows
  ok (record { code = 201; etag = some fresh; body = none; old_etag = none }, new)

-- put_document
unfoldable pub put_document :
    Check → Target → Str → Str → Table → Result Fault (StatusResponse × Table)
unfolding fetch_document query_of replace_row create_row
put_document check target doc fresh rows = do
  row ← fetch_document target rows
  elim row [
    | some r ↦ replace_row check doc fresh rows r
    | none ↦ do k ← query_of target; create_row check k doc fresh rows
  ]

drop_row : Check → Table → Option Row → Result Fault (StatusResponse × Table)
unfolding delete_rows
drop_row check rows none = ok (missing, rows)
drop_row check rows (some r) = do
  done ← check (some r.etag) true
  ok (
    record { code = 200; etag = none; body = none; old_etag = some r.etag },
    delete_rows r.key rows,
  )

-- delete_document
unfoldable pub delete_document : Check → Target → Table → Result Fault (StatusResponse × Table)
unfolding fetch_document drop_row
delete_document check target rows = do row ← fetch_document target rows; drop_row check rows row

-- what the notifier of xcap/backend/opensips.py is called with: the old and the new tag
abbrev pub Change : Type 0
Change = Option Str × Option Str

-- NotifyingStorage.put_document: the task that a result carries
unfoldable pub put_change : StatusResponse → Option Change
put_change r = if succeed r then some (r.old_etag, r.etag) else none

-- NotifyingStorage.delete_document
unfoldable pub delete_change : StatusResponse → Option Change
delete_change r = if succeed r then some (r.old_etag, none) else none
