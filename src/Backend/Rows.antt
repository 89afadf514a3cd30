-- ===== src/Backend/Rows.antt =====
-- The rows of a table, found by their keys.
use openxcap.Prelude.{
  ◌≡◌, ◌↔◌, refl, ap, ◌∙◌, true, false, Option, none, some, List, [], ◌∷◌, Str, str_eq_iff,
  if◌then◌else◌, ==_iff, arith, Bool-cases, inl, inr,
}
use openxcap.Backend.{Key, Row, Table, same_key, select_rows}

pub same_key_iff : (a b : Key) → (same_key a b ≡ true) ↔ (a ≡ b)
unfolding same_key
same_key_iff a b =
    let u = str_eq_iff a.username b.username in
    let d = str_eq_iff a.domain b.domain in
    let t = ==_iff a.doc_type b.doc_type in let p = str_eq_iff a.doc_uri b.doc_uri in ground arith

pub same_key_refl : (k : Key) → same_key k k ≡ true
same_key_refl k = (same_key_iff k k).1 refl

pub same_key_sym : (a b : Key) → same_key a b ≡ same_key b a
same_key_sym a b = ground (arith, same_key_iff a b, same_key_iff b a)

-- A key that is not `k` is not a key that is.
pub same_key-apart :
    (k j r : Key) → same_key k r ≡ true → same_key k j ≡ false → same_key j r ≡ false
same_key-apart k j r h g = ground (arith, same_key_iff k r, same_key_sym k j)

pub same_key-joined :
    (k j r : Key) → same_key k r ≡ true → same_key k j ≡ true → same_key j r ≡ true
same_key-joined k j r h g = ground (arith, same_key_iff k r, same_key_iff k j, same_key_refl r)

-- The contents of a table: the document of a key and its tag.
unfoldable pub view : Table → Key → Option (Str × Str)
view [] k = none
view (r ∷ rows) k =
    let rest = view rows k in if same_key k r.key then some (r.doc, r.etag) else rest

-- No two rows have one key.
abbrev pub IsUnique : Table → Type 0
IsUnique [] = Unit
IsUnique (r ∷ rows) = (view rows r.key ≡ none) × IsUnique rows

abbrev pub rows_for : Key → Option (Str × Str) → List Row
rows_for k none = []
rows_for k (some (doc, etag)) = record { key = k; doc = doc; etag = etag } ∷ []

select_rows-none : (k : Key) (rows : Table) → view rows k ≡ none → select_rows k rows ≡ []
unfolding view select_rows
select_rows-none k [] h = refl
select_rows-none k (r ∷ rows) h = elim (Bool-cases (same_key k r.key)) [
  | inl e ↦ cc (rw e at h)
  | inr e ↦ rw e (select_rows-none k rows (rw e at h))
]

row_at : (k : Key) (r : Row) → k ≡ r.key → r ≡ record { key = k; doc = r.doc; etag = r.etag }
row_at k r h = rw h refl

-- In a table without two rows of one key, a query gives the row of that key, if there is one.
pub select_rows-view :
    (k : Key) (rows : Table) → IsUnique rows → select_rows k rows ≡ rows_for k (view rows k)
unfolding view select_rows
select_rows-view k [] h = refl
select_rows-view k (r ∷ rows) h = elim (Bool-cases (same_key k r.key)) [
  | inl e ↦
      let q = (same_key_iff k r.key).0 e in
      let others = select_rows-none k rows (ap (view rows) q ∙ h.0) in
      rw (e, others) (ap (λ x. x ∷ []) (row_at k r q))
  | inr e ↦ rw e (select_rows-view k rows h.1)
]
