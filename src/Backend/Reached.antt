-- ===== src/Backend/Reached.antt =====
-- The tables that requests can make.
use openxcap.Prelude.{
  ◌≡◌, ◌≢◌, ap, ◌∙◌, subst, true, false, Option, none, some, [], Str, str_eq, arith, Bool-cases,
  Option-cases, Result-cases, inl, inr, Result, ok, err, ◌>>=◌,
}
use openxcap.Errors.{Fault, multiple_results}
use openxcap.Backend.{
  StatusResponse, Target, Key, Row, Table, Check, missing, doc_type_of, normalized, query_of,
  rows_of, at_most_one, fetch_document, insert_row, replace_row, create_row, put_document, drop_row,
  delete_document,
}
use openxcap.Backend.Rows.{view, IsUnique, rows_for, select_rows-view}
use openxcap.Backend.Contents.{update_rows-IsUnique, delete_rows-IsUnique, append-IsUnique}
use openxcap.Backend.Refinement.{fetch_document-view}

-- one request that changes the table
pub data Step : Table → Table → Type 0 where
  put :
      (check : Check) (target : Target) (doc fresh : Str) (response : StatusResponse)
      (rows after : Table)
      → put_document check target doc fresh rows ≡ ok (response, after)
      → Step rows after
  delete :
      (check : Check) (target : Target) (response : StatusResponse) (rows after : Table)
      → delete_document check target rows ≡ ok (response, after)
      → Step rows after

-- from the empty table
pub data Reached : Table → Type 0 where
  created : Reached []
  changed : (rows after : Table) → Reached rows → Step rows after → Reached after

abbrev answered : StatusResponse × Table → Result Fault (StatusResponse × Table)
answered p = ok p

module _ (rows after : Table) (response : StatusResponse) (unique : IsUnique rows) where
  same_table : (r : StatusResponse) → answered (r, rows) ≡ ok (response, after) → IsUnique after
  same_table r h = subst IsUnique (ground arith) unique

  -- what a check lets through
  let_through :
      (c : Result Fault (Unit {0})) (r : StatusResponse) (t : Table)
      → IsUnique t
      → (c >>= λ done. answered (r, t)) ≡ ok (response, after)
      → IsUnique after
  let_through (err e) r t u h = cc
  let_through (ok done) r t u h = subst IsUnique (ground arith) u

  create_row-IsUnique :
      (check : Check) (k : Key) (doc fresh : Str)
      → view rows k ≡ none
      → create_row check (some k) doc fresh rows ≡ ok (response, after)
      → IsUnique after
  unfolding create_row insert_row
  create_row-IsUnique check k doc fresh e h =
      let_through (check none false) _ _
        (append-IsUnique rows (record { key = k; doc = doc; etag = fresh }) unique e)
        (rw (select_rows-view k rows unique, e) at h)

  replace_row-IsUnique :
      (check : Check) (doc fresh : Str) (r : Row)
      → replace_row check doc fresh rows r ≡ ok (response, after)
      → IsUnique after
  unfolding replace_row
  replace_row-IsUnique check doc fresh r h = elim (Bool-cases (str_eq r.doc doc)) [
    | inl e ↦ same_table _ (rw e at h)
    | inr e ↦
        let_through (check (some r.etag) true) _ _
          (update_rows-IsUnique r.key doc fresh rows unique) (rw e at h)
  ]

  create_without_key :
      (check : Check) (doc fresh : Str)
      → create_row check none doc fresh rows ≢ ok (response, after)
  unfolding create_row insert_row
  create_without_key check doc fresh h = elim (Result-cases (check none false)) [
    | inl (x, e) ↦ cc (rw e at h)
    | inr (u, e) ↦ cc (rw e at h)
  ]

  put_at_key :
      (check : Check) (target : Target) (k : Key) (doc fresh : Str)
      → query_of target ≡ ok (some k)
      → put_document check target doc fresh rows ≡ ok (response, after)
      → IsUnique after
  unfolding put_document
  put_at_key check target k doc fresh q h = elim (Option-cases (view rows k)) [
    | inl e ↦
        create_row-IsUnique check k doc fresh e
          (rw (fetch_document-view check target k q rows unique, e, q) at h)
    | inr ((old, etag), e) ↦
        replace_row-IsUnique check doc fresh (record { key = k; doc = old; etag = etag })
          (rw (fetch_document-view check target k q rows unique, e) at h)
  ]

  -- No two rows of a table have one key after put_document, if none had before.
  pub put_document-IsUnique :
      (check : Check) (target : Target) (doc fresh : Str)
      → put_document check target doc fresh rows ≡ ok (response, after)
      → IsUnique after
  unfolding put_document fetch_document rows_of at_most_one
  put_document-IsUnique check target doc fresh h = elim (Result-cases (query_of target)) [
    | inl (x, e) ↦ cc (rw e at h)
    | inr (o, e) ↦ elim (Option-cases o) [
      | inl n ↦ absurd (create_without_key check doc fresh (rw (e, n) at (rw (e, n) at h)))
      | inr (k, s) ↦ put_at_key check target k doc fresh (e ∙ ap ok s) h
    ]
  ]

  drop_row-IsUnique :
      (check : Check) (row : Option Row)
      → drop_row check rows row ≡ ok (response, after)
      → IsUnique after
  unfolding drop_row
  drop_row-IsUnique check none h = same_table missing h
  drop_row-IsUnique check (some r) h =
      let_through (check (some r.etag) true) _ _ (delete_rows-IsUnique r.key rows unique) h

  pub delete_document-IsUnique :
      (check : Check) (target : Target)
      → delete_document check target rows ≡ ok (response, after)
      → IsUnique after
  unfolding delete_document
  delete_document-IsUnique check target h = elim (Result-cases (fetch_document target rows)) [
    | inl (x, e) ↦ cc (rw e at h)
    | inr (row, e) ↦ drop_row-IsUnique check row (rw e at h)
  ]

step-IsUnique : (rows after : Table) → Step rows after → IsUnique rows → IsUnique after
step-IsUnique rows after (put check target doc fresh response _ _ h) u =
    put_document-IsUnique rows after response u check target doc fresh h
step-IsUnique rows after (delete check target response _ _ h) u =
    delete_document-IsUnique rows after response u check target h

-- Whatever requests have done to the table, one after another from the empty one, no two of its rows
-- have one key.
pub Reached-IsUnique : (rows : Table) → Reached rows → IsUnique rows
Reached-IsUnique rows created = tt
Reached-IsUnique rows (changed before after r s) =
    step-IsUnique before after s (Reached-IsUnique before r)

not_multiple :
    (k : Key) (v : Option (Str × Str)) → at_most_one (rows_for k v) ≢ err multiple_results
unfolding at_most_one
not_multiple k none = cc
not_multiple k (some (doc, etag)) = cc

multiple_at :
    (target : Target) (rows : Table) (o : Option Key)
    → IsUnique rows
    → at_most_one (rows_of o rows) ≢ err multiple_results
unfolding rows_of at_most_one
multiple_at target rows none u = cc
multiple_at target rows (some k) u = rw (select_rows-view k rows u) (not_multiple k (view rows k))

query_fault : (target : Target) → query_of target ≢ err multiple_results
unfolding query_of
query_fault target h = elim (Option-cases (doc_type_of (normalized target).application_id)) [
  | inl e ↦ cc (rw (e, query_of) at h)
  | inr (n, e) ↦ cc (rw (e, query_of) at h)
]

-- fetch_document never finds more than one row.
pub Reached-fetch_document :
    (target : Target) (rows : Table)
    → Reached rows
    → fetch_document target rows ≢ err multiple_results
unfolding fetch_document
Reached-fetch_document target rows r h = elim (Result-cases (query_of target)) [
  | inl (x, e) ↦ query_fault target (let g = rw e at h in ground arith)
  | inr (o, e) ↦ multiple_at target rows o (Reached-IsUnique rows r) (rw e at h)
]
