-- ===== src/Backend/Transactions.antt =====
-- put_document and delete_document of xcap/backend/database.py in the two transactions that they are: a
-- query, and the commit of what follows from it. Requests that are served at one time take turns
-- between them. A row has its primary key here.
pub mod Alone
pub mod Lost
pub mod Runs
pub mod Serial
pub mod Sound
pub mod Owned
pub mod Fits
pub mod Made
pub mod Isolated
use openxcap.Prelude.{
  ℕ, Bool, true, false, ◌||◌, Option, none, some, List, [], ◌∷◌, ◌++◌, map, Str, str_eq,
  if◌then◌else◌, ◌==◌, Result, ok, err, ◌>>=◌,
}
use openxcap.Errors.{Fault, integrity_error, multiple_results, stale_data}
use openxcap.Backend.{StatusResponse, Target, Key, Row, Table, Check, missing, same_key, query_of}

-- XCAP with its id
pub record NumberedRow : Type 0 where
  pub id : ℕ
  pub row : Row

abbrev pub Numbered : Type 0
Numbered = List NumberedRow

-- the table without the ids
abbrev pub plain : Numbered → Table
plain rows = map (λ (s : NumberedRow). s.row) rows

abbrev pub has_id : ℕ → Numbered → Bool
has_id id [] = false
has_id id (s ∷ rows) = s.id == id || has_id id rows

-- the rows with a key
unfoldable pub select_numbered : Key → Numbered → List NumberedRow
unfolding same_key
select_numbered k [] = []
select_numbered k (s ∷ rows) =
    let rest = select_numbered k rows in if same_key k s.row.key then s ∷ rest else rest

one_numbered : List NumberedRow → Result Fault (Option NumberedRow)
one_numbered [] = ok none
one_numbered (s ∷ []) = ok (some s)
one_numbered (s ∷ t ∷ rows) = err multiple_results

-- fetch_document
unfoldable pub fetch_numbered : Target → Numbered → Result Fault (Option NumberedRow)
unfolding query_of select_numbered one_numbered
fetch_numbered target rows = do
  k ← query_of target
  elim k [ none ↦ ok none | some k ↦ one_numbered (select_numbered k rows) ]

-- what a request has still to commit, with the answer that it gives then: an UPDATE of the row with an
-- id, an INSERT, or a DELETE of the row with an id
pub data Commit : Type 0 where
  nothing : StatusResponse → Commit
  update : ℕ → Str → Str → StatusResponse → Commit
  insert_new : Option Key → Str → Str → StatusResponse → Commit
  remove_id : ℕ → StatusResponse → Commit

-- put_document where there is a row
put_over_row : Check → Str → Str → NumberedRow → Result Fault Commit
unfolding str_eq
put_over_row check doc fresh s =
    if str_eq s.row.doc doc
    then ok (
        nothing
          (record { code = 200; etag = some s.row.etag; body = some s.row.doc; old_etag = none }))
    else do
      done ← check (some s.row.etag) true
      ok (
          update s.id doc fresh
            (record { code = 200; etag = some fresh; body = none; old_etag = some s.row.etag }))

-- put_document up to its second transaction
unfoldable pub begin_put : Check → Target → Str → Str → Numbered → Result Fault Commit
unfolding fetch_numbered put_over_row query_of
begin_put check target doc fresh rows = do
  o ← fetch_numbered target rows
  elim o [
    | some s ↦ put_over_row check doc fresh s
    | none ↦ do
      k ← query_of target
      done ← check none false
      ok (
          insert_new k doc fresh
            (record { code = 201; etag = some fresh; body = none; old_etag = none }))
  ]

-- delete_document up to its second transaction
unfoldable pub begin_delete : Check → Target → Numbered → Result Fault Commit
unfolding fetch_numbered
begin_delete check target rows = do
  o ← fetch_numbered target rows
  elim o [
    | none ↦ ok (nothing missing)
    | some s ↦ do
      done ← check (some s.row.etag) true
      ok (
          remove_id s.id
            (record { code = 200; etag = none; body = none; old_etag = some s.row.etag }))
  ]

unfoldable pub update_id : ℕ → Str → Str → Numbered → Numbered
update_id id doc etag [] = []
update_id id doc etag (s ∷ rows) =
    (if s.id == id then record s { row = record s.row { doc = doc; etag = etag } } else s)
    ∷ update_id id doc etag rows

unfoldable pub delete_id : ℕ → Numbered → Numbered
delete_id id [] = []
delete_id id (s ∷ rows) = let rest = delete_id id rows in if s.id == id then rest else s ∷ rest

-- an INSERT, under the constraints of the table
insert_numbered : ℕ → Option Key → Str → Str → Numbered → Result Fault Numbered
unfolding select_numbered
insert_numbered new none doc etag rows = err integrity_error
insert_numbered new (some k) doc etag rows = elim (select_numbered k rows) [
  | [] ↦ ok (rows ++ record { id = new; row = record { key = k; doc = doc; etag = etag } } ∷ [])
  | s ∷ l ↦ err integrity_error
]

-- The second transaction; `new` is the id of a new row. An UPDATE that finds no row raises
-- StaleDataError, a DELETE that finds none does not.
unfoldable pub commit : ℕ → Commit → Numbered → Result Fault (StatusResponse × Numbered)
unfolding update_id delete_id insert_numbered
commit new (nothing r) rows = ok (r, rows)
commit new (update id doc etag r) rows =
    if has_id id rows then ok (r, update_id id doc etag rows) else err stale_data
commit new (insert_new k doc etag r) rows = do
  after ← insert_numbered new k doc etag rows
  ok (r, after)
commit new (remove_id id r) rows = ok (r, delete_id id rows)
