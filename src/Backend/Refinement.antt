-- ===== src/Backend/Refinement.antt =====
-- The storage as a map from keys to documents with tags, which the operations on the table implement.
use openxcap.Prelude.{
  ◌≡◌, refl, ap, fun_ext, true, false, Option, none, some, [], ◌∷◌, ◌++◌, Str, str_eq,
  if◌then◌else◌, Bool-cases, Option-cases, inl, inr, Result, ok, err, ◌>>=◌,
}
use openxcap.Errors.{Fault}
use openxcap.Backend.{
  StatusResponse, Target, Key, Row, Table, Check, missing, same_key, update_rows, delete_rows,
  query_of, rows_of, at_most_one, fetch_document, insert_row, read_row, get_document, replace_row,
  create_row, put_document, drop_row, delete_document,
}
use openxcap.Backend.Rows.{view, IsUnique, rows_for, select_rows-view}
use openxcap.Backend.Contents.{view-update_rows, view-delete_rows, view-append}

abbrev pub Contents : Type 0
Contents = Key → Option (Str × Str)

abbrev pub set : Key → Option (Str × Str) → Contents → Contents
set k v m j = if same_key k j then v else m j

-- GET: 404, or the document with its tag once the conditions on the tag hold
abbrev pub read : Check → Option (Str × Str) → Result Fault StatusResponse
read check none = ok missing
read check (some (doc, etag)) = do
  done ← check (some etag) true
  ok (record { code = 200; etag = some etag; body = some doc; old_etag = none })

-- PUT at `k`: 201 with a new tag; or 200 with the old one, for the document that is there; or 200
-- with a new one
abbrev pub write :
    Check
    → Key
    → Str
    → Str
    → Contents
    → Option (Str × Str)
    → Result Fault (StatusResponse × Contents)
write check k doc fresh m none = do
  done ← check none false
  ok (
    record { code = 201; etag = some fresh; body = none; old_etag = none },
    set k (some (doc, fresh)) m,
  )
write check k doc fresh m (some (old, etag)) =
    if str_eq old doc
    then ok (record { code = 200; etag = some etag; body = some old; old_etag = none }, m)
    else do
      done ← check (some etag) true
      ok (
        record { code = 200; etag = some fresh; body = none; old_etag = some etag },
        set k (some (doc, fresh)) m,
      )

-- DELETE at `k`: 404, or 200 with the tag that was
abbrev pub erase :
    Check → Key → Contents → Option (Str × Str) → Result Fault (StatusResponse × Contents)
erase check k m none = ok (missing, m)
erase check k m (some (doc, etag)) = do
  done ← check (some etag) true
  ok (record { code = 200; etag = none; body = none; old_etag = some etag }, set k none m)

-- a result with the contents of its table
abbrev pub seen : Result Fault (StatusResponse × Table) → Result Fault (StatusResponse × Contents)
seen r = do (response, rows) ← r; ok (response, view rows)

abbrev pub row_for : Key → Option (Str × Str) → Option Row
row_for k none = none
row_for k (some (doc, etag)) = some (record { key = k; doc = doc; etag = etag })

at_most_one-rows_for :
    (k : Key) (v : Option (Str × Str)) → at_most_one (rows_for k v) ≡ ok (row_for k v)
unfolding at_most_one
at_most_one-rows_for k none = refl
at_most_one-rows_for k (some (doc, etag)) = refl

read_row-row_for :
    (check : Check) (k : Key) (v : Option (Str × Str)) → read_row check (row_for k v) ≡ read check v
unfolding read_row
read_row-row_for check k none = refl
read_row-row_for check k (some (doc, etag)) = refl

-- two ways of one result, whose tables have the same contents
seen-after :
    (r : Result Fault (Unit {0})) (a : StatusResponse) (t : Table) (m : Contents)
    → view t ≡ m
    → seen (r >>= λ done. ok (a, t)) ≡ (r >>= λ done. ok (a, m))
seen-after (err e) a t m h = refl
seen-after (ok u) a t m h = ap (λ c. ok (a, c)) h

module _ (check : Check) (k : Key) (rows : Table) (unique : IsUnique rows) where
  drop_row-row_for :
      (v : Option (Str × Str))
      → seen (drop_row check rows (row_for k v)) ≡ erase check k (view rows) v
  unfolding drop_row
  drop_row-row_for none = refl
  drop_row-row_for (some (doc, etag)) =
      seen-after (check (some etag) true) _ (delete_rows k rows) (set k none (view rows))
        (fun_ext (λ j. view-delete_rows k j rows))

  create_row-view :
      (doc fresh : Str)
      → view rows k ≡ none
      → seen (create_row check (some k) doc fresh rows) ≡ write check k doc fresh (view rows) none
  unfolding create_row insert_row
  create_row-view doc fresh e =
      rw (select_rows-view k rows unique, e)
        (seen-after (check none false) _ (rows ++ record { key = k; doc = doc; etag = fresh } ∷ [])
          (set k (some (doc, fresh)) (view rows))
          (fun_ext (λ j. view-append rows (record { key = k; doc = doc; etag = fresh }) j e)))

  replace_row-view :
      (doc fresh old etag : Str)
      → view rows k ≡ some (old, etag)
      → seen (replace_row check doc fresh rows (record { key = k; doc = old; etag = etag }))
        ≡ write check k doc fresh (view rows) (some (old, etag))
  unfolding replace_row
  replace_row-view doc fresh old etag e = elim (Bool-cases (str_eq old doc)) [
    | inl g ↦ rw g refl
    | inr g ↦ rw g (
        seen-after (check (some etag) true) _ (update_rows k doc fresh rows)
          (set k (some (doc, fresh)) (view rows))
          (fun_ext (λ j. view-update_rows k j doc fresh rows (old, etag) e)))
  ]

module _ (check : Check) (target : Target) (k : Key) (q : query_of target ≡ ok (some k))
    (rows : Table) (unique : IsUnique rows) where
  pub fetch_document-view : fetch_document target rows ≡ ok (row_for k (view rows k))
  unfolding fetch_document rows_of
  fetch_document-view =
      rw (q, select_rows-view k rows unique) (at_most_one-rows_for k (view rows k))

  -- get_document answers as the map does.
  pub get_document-read : get_document check target rows ≡ read check (view rows k)
  unfolding get_document
  get_document-read = rw fetch_document-view (read_row-row_for check k (view rows k))

  -- delete_document answers as the map does, and what it leaves is what the map leaves.
  pub delete_document-erase :
      seen (delete_document check target rows) ≡ erase check k (view rows) (view rows k)
  unfolding delete_document
  delete_document-erase =
      rw fetch_document-view (drop_row-row_for check k rows unique (view rows k))

  -- put_document answers as the map does, and what it leaves is what the map leaves.
  pub put_document-write :
      (doc fresh : Str)
      → seen (put_document check target doc fresh rows)
        ≡ write check k doc fresh (view rows) (view rows k)
  unfolding put_document
  put_document-write doc fresh = elim (Option-cases (view rows k)) [
    | inl e ↦ rw (fetch_document-view, e, q) (create_row-view check k rows unique doc fresh e)
    | inr ((old, etag), e) ↦
        rw (fetch_document-view, e) (replace_row-view check k rows unique doc fresh old etag e)
  ]

  -- The document that is there is not written again, and no condition is tested.
  pub put_document-unchanged :
      (doc fresh stored etag : Str)
      → view rows k ≡ some (stored, etag)
      → str_eq stored doc ≡ true
      → put_document check target doc fresh rows
        ≡ ok (record { code = 200; etag = some etag; body = some stored; old_etag = none }, rows)
  unfolding put_document replace_row
  put_document-unchanged doc fresh stored etag e g = rw (fetch_document-view, e, g) refl
