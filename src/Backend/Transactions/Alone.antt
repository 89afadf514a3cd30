-- ===== src/Backend/Transactions/Alone.antt =====
-- Requests that do not overlap: their two transactions are the operations of openxcap.Backend.
use openxcap.Prelude.{
  ℕ, ◌≡◌, refl, ap, ◌∙◌, sym, true, false, none, some, List, [], ◌∷◌, ◌++◌, Str, str_eq, ◌==◌,
  ==_iff, All, arith, Bool-cases, Option-cases, Result-cases, inl, inr, Result, ok, ◌>>=◌,
}
use openxcap.Errors.{Fault}
use openxcap.Backend.{
  StatusResponse, Target, Key, Table, Check, same_key, select_rows, query_of, rows_of, at_most_one,
  fetch_document, update_rows, delete_rows, insert_row, replace_row, create_row, put_document,
  drop_row, delete_document,
}
use openxcap.Backend.Rows.{same_key_iff}
use openxcap.Backend.Transactions.{
  NumberedRow, Numbered, plain, has_id, select_numbered, one_numbered, fetch_numbered, put_over_row,
  begin_put, begin_delete, update_id, delete_id, insert_numbered, commit,
}

-- no two rows have one id
abbrev pub HasIds : Numbered → Type 0
HasIds [] = Unit
HasIds (s ∷ rows) = (has_id s.id rows ≡ false) × HasIds rows

-- a result without the ids of its table
abbrev pub forget : Result Fault (StatusResponse × Numbered) → Result Fault (StatusResponse × Table)
forget r = do (response, rows) ← r; ok (response, plain rows)

pub plain-select :
    (k : Key) (rows : Numbered) → plain (select_numbered k rows) ≡ select_rows k (plain rows)
unfolding select_numbered select_rows
plain-select k [] = refl
plain-select k (s ∷ rows) = elim (Bool-cases (same_key k s.row.key)) [
  | inl e ↦ rw e (ap (λ (l : Table). s.row ∷ l) (plain-select k rows))
  | inr e ↦ rw e (plain-select k rows)
]

pub plain-append :
    (rows : Numbered) (s : NumberedRow) → plain (rows ++ s ∷ []) ≡ plain rows ++ s.row ∷ []
plain-append [] s = refl
plain-append (t ∷ rows) s = ap (λ (l : Table). t.row ∷ l) (plain-append rows s)

-- the rows with an id are those with a key
abbrev pub AreOne : ℕ → Key → Numbered → Type 0
AreOne id k rows = All (λ (s : NumberedRow). (s.id == id) ≡ same_key k s.row.key) rows

AreOne-none :
    (id : ℕ) (k : Key) (rows : Numbered)
    → select_numbered k rows ≡ []
    → has_id id rows ≡ false
    → AreOne id k rows
unfolding select_numbered
AreOne-none id k [] e n = tt
AreOne-none id k (s ∷ rows) e n = elim (Bool-cases (same_key k s.row.key)) [
  | inl g ↦ cc (rw g at e)
  | inr g ↦ (ground (arith, g), AreOne-none id k rows (rw g at e) (ground arith))
]

other_id :
    (t s : NumberedRow) (rows : Numbered)
    → has_id t.id rows ≡ false
    → has_id s.id rows ≡ true
    → (t.id == s.id) ≡ false
other_id t s rows n there = elim (Bool-cases (t.id == s.id)) [
  | inl e ↦ cc (ap (λ i. has_id i rows) ((==_iff t.id s.id).0 e))
  | inr e ↦ e
]

-- the only row with a key is there, and has the key
pub AreOne-selected :
    (k : Key) (s : NumberedRow) (rows : Numbered)
    → HasIds rows
    → select_numbered k rows ≡ s ∷ []
    → AreOne s.id k rows × (has_id s.id rows ≡ true) × (s.row.key ≡ k)
unfolding select_numbered
AreOne-selected k s [] u e = cc
AreOne-selected k s (t ∷ rows) u e = elim (Bool-cases (same_key k t.row.key)) [
  | inl g ↦
      let q = rw g at e in
      let same : t ≡ s = ground arith in
      let rest : select_numbered k rows ≡ [] = ground arith in
      let ids = ap (λ (x : NumberedRow). x.id) same in
      let is = (==_iff t.id s.id).1 ids in
      (
        (is ∙ sym g, AreOne-none s.id k rows rest (ap (λ i. has_id i rows) (sym ids) ∙ u.0)),
        rw is refl,
        ap (λ (x : NumberedRow). x.row.key) (sym same) ∙ sym ((same_key_iff k t.row.key).0 g),
      )
  | inr g ↦
      let (one, there, key) = AreOne-selected k s rows u.1 (rw g at e) in
      ((other_id t s rows u.0 there ∙ sym g, one), ground (arith, there), key)
]

pub plain-update_id :
    (id : ℕ) (k : Key) (doc etag : Str) (rows : Numbered)
    → AreOne id k rows
    → plain (update_id id doc etag rows) ≡ update_rows k doc etag (plain rows)
unfolding update_id update_rows
plain-update_id id k doc etag [] h = refl
plain-update_id id k doc etag (s ∷ rows) h =
    let ih = plain-update_id id k doc etag rows h.1 in
    elim (Bool-cases (same_key k s.row.key)) [
      | inl e ↦ rw (h.0, e, ih) refl
      | inr e ↦ rw (h.0, e, ih) refl
    ]

pub plain-delete_id :
    (id : ℕ) (k : Key) (rows : Numbered)
    → AreOne id k rows
    → plain (delete_id id rows) ≡ delete_rows k (plain rows)
unfolding delete_id delete_rows
plain-delete_id id k [] h = refl
plain-delete_id id k (s ∷ rows) h =
    let ih = plain-delete_id id k rows h.1 in
    elim (Bool-cases (same_key k s.row.key)) [
      | inl e ↦ rw (h.0, e) ih
      | inr e ↦ rw (h.0, e) (ap (λ (l : Table). s.row ∷ l) ih)
    ]

pub has_id-update_id :
    (i id : ℕ) (doc etag : Str) (rows : Numbered)
    → has_id i (update_id id doc etag rows) ≡ has_id i rows
unfolding update_id
has_id-update_id i id doc etag [] = refl
has_id-update_id i id doc etag (s ∷ rows) =
    let ih = has_id-update_id i id doc etag rows in
    elim (Bool-cases (s.id == id)) [ inl e ↦ rw (e, ih) refl | inr e ↦ rw (e, ih) refl ]

module _ (new : ℕ) (check : Check) (rows : Numbered) (ids : HasIds rows) where
  put_at_key :
      (target : Target) (k : Key) (doc fresh : Str) (l : List NumberedRow)
      → query_of target ≡ ok (some k)
      → select_numbered k rows ≡ l
      → select_rows k (plain rows) ≡ plain l
      → forget (begin_put check target doc fresh rows >>= λ c. commit new c rows)
        ≡ put_document check target doc fresh (plain rows)
  unfolding begin_put fetch_numbered one_numbered put_over_row put_document fetch_document rows_of
      at_most_one replace_row create_row insert_row commit insert_numbered
  put_at_key target k doc fresh [] q e f =
      rw (q, e, f)
        (elim (Result-cases (check none false)) [
          | inl (x, c) ↦ rw (q, c) refl
          | inr (done, c) ↦
              let created : StatusResponse = record {
                code = 201;
                etag = some fresh;
                body = none;
                old_etag = none;
              } in
              rw (q, c, insert_numbered, e, f)
                (ap (λ (t : Table). ok (created, t))
                  (plain-append rows
                    (record { id = new; row = record { key = k; doc = doc; etag = fresh } })))
        ])
  put_at_key target k doc fresh (s ∷ []) q e f =
      let (one, there, key) = AreOne-selected k s rows ids e in
      rw (q, e, f)
        (elim (Bool-cases (str_eq s.row.doc doc)) [
          | inl g ↦ rw g refl
          | inr g ↦ elim (Result-cases (check (some s.row.etag) true)) [
            | inl (x, c) ↦ rw (g, c) refl
            | inr (done, c) ↦
                let changed : StatusResponse = record {
                  code = 200;
                  etag = some fresh;
                  body = none;
                  old_etag = some s.row.etag;
                } in
                rw (g, c, there)
                  (ap (λ (t : Table). ok (changed, t))
                    (plain-update_id s.id k doc fresh rows one
                      ∙ ap (λ j. update_rows j doc fresh (plain rows)) (sym key)))
          ]
        ])
  put_at_key target k doc fresh (s ∷ t ∷ l) q e f = rw (q, e, f) refl

  -- A PUT whose two transactions come one after the other, on rows with an id each, answers and leaves
  -- what put_document does.
  pub begin_put-commit :
      (target : Target) (doc fresh : Str)
      → forget (begin_put check target doc fresh rows >>= λ c. commit new c rows)
        ≡ put_document check target doc fresh (plain rows)
  unfolding begin_put fetch_numbered put_document fetch_document rows_of at_most_one create_row
      insert_row commit insert_numbered
  begin_put-commit target doc fresh = elim (Result-cases (query_of target)) [
    | inl (x, q) ↦ rw q refl
    | inr (o, q) ↦ elim (Option-cases o) [
      | inl n ↦
          rw (q, n)
            (elim (Result-cases (check none false)) [
              | inl (x, c) ↦ rw (q, n, c) refl
              | inr (done, c) ↦ rw (q, n, c) refl
            ])
      | inr (k, n) ↦
          put_at_key target k doc fresh (select_numbered k rows) (q ∙ ap ok n) refl
            (sym (plain-select k rows))
    ]
  ]

  delete_at_key :
      (target : Target) (k : Key) (l : List NumberedRow)
      → query_of target ≡ ok (some k)
      → select_numbered k rows ≡ l
      → select_rows k (plain rows) ≡ plain l
      → forget (begin_delete check target rows >>= λ c. commit new c rows)
        ≡ delete_document check target (plain rows)
  unfolding begin_delete fetch_numbered one_numbered delete_document fetch_document rows_of
      at_most_one drop_row commit
  delete_at_key target k [] q e f = rw (q, e, f) refl
  delete_at_key target k (s ∷ []) q e f =
      let (one, there, key) = AreOne-selected k s rows ids e in
      let deleted : StatusResponse = record {
        code = 200;
        etag = none;
        body = none;
        old_etag = some s.row.etag;
      } in
      rw (q, e, f)
        (elim (Result-cases (check (some s.row.etag) true)) [
          | inl (x, c) ↦ rw c refl
          | inr (done, c) ↦ rw c (
              ap (λ (t : Table). ok (deleted, t))
                (plain-delete_id s.id k rows one ∙ ap (λ j. delete_rows j (plain rows)) (sym key)))
        ])
  delete_at_key target k (s ∷ t ∷ l) q e f = rw (q, e, f) refl

  -- A DELETE alike.
  pub begin_delete-commit :
      (target : Target)
      → forget (begin_delete check target rows >>= λ c. commit new c rows)
        ≡ delete_document check target (plain rows)
  unfolding begin_delete fetch_numbered delete_document fetch_document rows_of at_most_one drop_row
      commit
  begin_delete-commit target = elim (Result-cases (query_of target)) [
    | inl (x, q) ↦ rw q refl
    | inr (o, q) ↦ elim (Option-cases o) [
      | inl n ↦ rw (q, n) refl
      | inr (k, n) ↦
          delete_at_key target k (select_numbered k rows) (q ∙ ap ok n) refl
            (sym (plain-select k rows))
    ]
  ]
