-- ===== src/Backend/Transactions/Lost.antt =====
-- Two PUTs of one document that overlap.
use openxcap.Prelude.{
  ℕ, ◌≡◌, refl, ap, ◌∙◌, sym, true, false, none, some, [], ◌∷◌, Str, str_eq, ◌==◌, arith,
  Bool-cases, inl, inr, ok,
}
use openxcap.Backend.{
  StatusResponse, Target, Key, Row, Table, Check, same_key, select_rows, query_of,
}
use openxcap.Backend.Rows.{view, same_key_refl}
use openxcap.Backend.Contents.{view-update_rows}
use openxcap.Backend.Transactions.{
  NumberedRow, Numbered, plain, select_numbered, one_numbered, fetch_numbered, Commit, update,
  put_over_row, begin_put, update_id, commit,
}
use openxcap.Backend.Transactions.Alone.{
  HasIds, AreOne-selected, plain-select, plain-update_id, has_id-update_id,
}

-- the second of two updates of a row is all that is left
update_id-twice :
    (id : ℕ) (doc etag doc' etag' : Str) (rows : Numbered)
    → update_id id doc' etag' (update_id id doc etag rows) ≡ update_id id doc' etag' rows
unfolding update_id
update_id-twice id doc etag doc' etag' [] = refl
update_id-twice id doc etag doc' etag' (s ∷ rows) =
    let ih = update_id-twice id doc etag doc' etag' rows in
    elim (Bool-cases (s.id == id)) [
      | inl e ↦ rw (e, ih) (rw e refl)
      | inr e ↦ rw (e, ih) (rw e refl)
    ]

selected-view :
    (k : Key) (r : Row) (l rows : Table)
    → select_rows k rows ≡ r ∷ l
    → view rows k ≡ some (r.doc, r.etag)
unfolding select_rows view
selected-view k r l [] h = cc
selected-view k r l (t ∷ rows) h = elim (Bool-cases (same_key k t.key)) [
  | inl e ↦ let q = rw e at h in rw e (ground arith)
  | inr e ↦ rw e (selected-view k r l rows (rw e at h))
]

abbrev pub changed : NumberedRow → Str → StatusResponse
changed s fresh = record { code = 200; etag = some fresh; body = none; old_etag = some s.row.etag }

begin_put-update :
    (check : Check) (target : Target) (k : Key) (doc fresh : Str) (rows : Numbered)
    (s : NumberedRow)
    → query_of target ≡ ok (some k)
    → select_numbered k rows ≡ s ∷ []
    → check (some s.row.etag) true ≡ ok tt
    → str_eq s.row.doc doc ≡ false
    → begin_put check target doc fresh rows ≡ ok (update s.id doc fresh (changed s fresh))
unfolding begin_put fetch_numbered one_numbered put_over_row
begin_put-update check target k doc fresh rows s q e c d = rw (q, e) (rw (d, c) refl)

-- Two clients PUT other documents over the one that is there, and the conditions of both hold for its
-- tag. Where the queries of both come before their commits, both are answered by 200, with the one tag
-- as the old tag, and the storage has the document of the one that commits last: what the other has
-- PUT is lost, If-Match or not.
pub begin_put-lost :
    (new new' : ℕ) (check check' : Check) (target : Target) (k : Key) (doc doc' fresh fresh' : Str)
    (rows : Numbered) (s : NumberedRow)
    → HasIds rows
    → query_of target ≡ ok (some k)
    → select_numbered k rows ≡ s ∷ []
    → check (some s.row.etag) true ≡ ok tt
    → check' (some s.row.etag) true ≡ ok tt
    → str_eq s.row.doc doc ≡ false
    → str_eq s.row.doc doc' ≡ false
    → (c c' : Commit) × (between after : Numbered) × (begin_put check target doc fresh rows ≡ ok c)
      × (begin_put check' target doc' fresh' rows ≡ ok c')
      × (commit new c rows ≡ ok (changed s fresh, between))
      × (commit new' c' between ≡ ok (changed s fresh', after))
      × (view (plain after) k ≡ some (doc', fresh'))
unfolding commit
begin_put-lost new new' check check' target k doc doc' fresh fresh' rows s ids q e c c' d d' =
    let (one, there, key) = AreOne-selected k s rows ids e in
    let between = update_id s.id doc fresh rows in
    let after = update_id s.id doc' fresh' between in
    let last = plain-update_id s.id k doc' fresh' rows one in
    (
      update s.id doc fresh (changed s fresh),
      update s.id doc' fresh' (changed s fresh'),
      between,
      after,
      begin_put-update check target k doc fresh rows s q e c d,
      begin_put-update check' target k doc' fresh' rows s q e c' d',
      rw there refl,
      rw (has_id-update_id s.id s.id doc fresh rows ∙ there) refl,
      ap (λ l. view (plain l) k) (update_id-twice s.id doc fresh doc' fresh' rows)
          ∙ (ap (λ l. view l k) last
              ∙ (view-update_rows k k doc' fresh' (plain rows) (s.row.doc, s.row.etag)
                    (selected-view k s.row [] (plain rows) (sym (plain-select k rows) ∙ ap plain e))
                  ∙ rw (same_key_refl k) refl)),
    )
