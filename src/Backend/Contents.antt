-- ===== src/Backend/Contents.antt =====
-- The contents of a table after an operation, and its uniqueness.
use openxcap.Prelude.{
  ◌≡◌, refl, ap, ◌∙◌, sym, true, false, Option, none, some, [], ◌∷◌, ◌++◌, Str, if◌then◌else◌,
  arith, Bool-cases, inl, inr,
}
use openxcap.Backend.{Key, Row, Table, same_key, update_rows, delete_rows}
use openxcap.Backend.Rows.{
  same_key_iff, same_key_sym, same_key-apart, same_key-joined, view, IsUnique,
}

view-update_other :
    (k j : Key) (doc etag : Str) (rows : Table)
    → same_key k j ≡ false
    → view (update_rows k doc etag rows) j ≡ view rows j
unfolding view update_rows
view-update_other k j doc etag [] h = refl
view-update_other k j doc etag (r ∷ rows) h =
    let ih = view-update_other k j doc etag rows h in
    elim (Bool-cases (same_key k r.key)) [
      | inl e ↦ rw e (rw (same_key-apart k j r.key e h) ih)
      | inr e ↦ elim (Bool-cases (same_key j r.key)) [
        | inl g ↦ rw e (rw g refl)
        | inr g ↦ rw e (rw g ih)
      ]
    ]

view-update_found :
    (k : Key) (doc etag : Str) (rows : Table) (old : Str × Str)
    → view rows k ≡ some old
    → view (update_rows k doc etag rows) k ≡ some (doc, etag)
unfolding view update_rows
view-update_found k doc etag [] old h = cc
view-update_found k doc etag (r ∷ rows) old h = elim (Bool-cases (same_key k r.key)) [
  | inl e ↦ rw e (rw e refl)
  | inr e ↦ rw e (rw e (view-update_found k doc etag rows old (rw e at h)))
]

-- An update changes what its key has, and nothing else.
pub view-update_rows :
    (k j : Key) (doc etag : Str) (rows : Table) (old : Str × Str)
    → view rows k ≡ some old
    → view (update_rows k doc etag rows) j
      ≡ (if same_key k j then some (doc, etag) else view rows j)
view-update_rows k j doc etag rows old h = elim (Bool-cases (same_key k j)) [
  | inl e ↦ rw e (
      ap (view (update_rows k doc etag rows)) (sym ((same_key_iff k j).0 e))
      ∙ view-update_found k doc etag rows old h)
  | inr e ↦ rw e (view-update_other k j doc etag rows e)
]

pub view-delete_rows :
    (k j : Key) (rows : Table)
    → view (delete_rows k rows) j ≡ (if same_key k j then none else view rows j)
unfolding view delete_rows
view-delete_rows k j [] = ground arith
view-delete_rows k j (r ∷ rows) =
    let ih = view-delete_rows k j rows in
    ground (arith, same_key-apart k j r.key, same_key-joined k j r.key, same_key_iff k j)

same_key-other : (k j r : Key) → same_key k j ≡ true → same_key k r ≡ false → same_key j r ≡ false
same_key-other k j r h g = rw (sym ((same_key_iff k j).0 h)) g

pub view-append :
    (rows : Table) (r : Row) (j : Key)
    → view rows r.key ≡ none
    → view (rows ++ r ∷ []) j ≡ (if same_key r.key j then some (r.doc, r.etag) else view rows j)
unfolding view
view-append [] r j h = rw (same_key_sym r.key j) refl
view-append (s ∷ rows) r j h = elim (Bool-cases (same_key r.key s.key)) [
  | inl e ↦ cc (rw e at h)
  | inr e ↦
      let ih = view-append rows r j (rw e at h) in
      elim (Bool-cases (same_key r.key j)) [
        | inl g ↦ rw (same_key-other r.key j s.key g e, g) (rw g at ih)
        | inr g ↦ rw g (
            ap {B = Option (Str × Str)} (λ v. if same_key j s.key then some (s.doc, s.etag) else v)
              (rw g at ih))
      ]
]

view-update_none :
    (k j : Key) (doc etag : Str) (rows : Table)
    → view rows j ≡ none
    → view (update_rows k doc etag rows) j ≡ none
unfolding view update_rows
view-update_none k j doc etag [] h = refl
view-update_none k j doc etag (r ∷ rows) h = elim (Bool-cases (same_key j r.key)) [
  | inl e ↦ cc (rw e at h)
  | inr e ↦
      let ih = view-update_none k j doc etag rows (rw e at h) in
      elim (Bool-cases (same_key k r.key)) [ inl g ↦ rw g (rw e ih) | inr g ↦ rw g (rw e ih) ]
]

-- The updates keep the keys, so that no two rows have one key after them.
pub update_rows-IsUnique :
    (k : Key) (doc etag : Str) (rows : Table)
    → IsUnique rows
    → IsUnique (update_rows k doc etag rows)
unfolding update_rows
update_rows-IsUnique k doc etag [] h = tt
update_rows-IsUnique k doc etag (r ∷ rows) h =
    let others = view-update_none k r.key doc etag rows h.0 in
    let rest = update_rows-IsUnique k doc etag rows h.1 in
    elim (Bool-cases (same_key k r.key)) [
      | inl e ↦ rw e (others, rest)
      | inr e ↦ rw e (others, rest)
    ]

pub delete_rows-IsUnique : (k : Key) (rows : Table) → IsUnique rows → IsUnique (delete_rows k rows)
unfolding delete_rows
delete_rows-IsUnique k [] h = tt
delete_rows-IsUnique k (r ∷ rows) h = elim (Bool-cases (same_key k r.key)) [
  | inl e ↦ rw e (delete_rows-IsUnique k rows h.1)
  | inr e ↦ rw e (view-delete_rows k r.key rows ∙ rw e h.0, delete_rows-IsUnique k rows h.1)
]

pub append-IsUnique :
    (rows : Table) (r : Row) → IsUnique rows → view rows r.key ≡ none → IsUnique (rows ++ r ∷ [])
unfolding view
append-IsUnique [] r h n = (n, tt)
append-IsUnique (s ∷ rows) r h n = elim (Bool-cases (same_key r.key s.key)) [
  | inl e ↦ cc (rw e at n)
  | inr e ↦
      let here = rw e at n in
      (view-append rows r s.key here ∙ rw e h.0, append-IsUnique rows r h.1 here)
]
