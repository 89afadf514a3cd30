-- ===== src/Backend/Transactions/Sound.antt =====
-- The commits keep the keys and the ids of the rows apart.
use openxcap.Prelude.{
  ℕ, ◌≡◌, refl, ◌∙◌, sym, subst, false, Option, none, some, [], ◌∷◌, ◌++◌, Str, ◌==◌, arith,
  Bool-cases, inl, inr, ok, >>=-Passed,
}
use openxcap.Backend.{StatusResponse, Key, Row, same_key}
use openxcap.Backend.Rows.{view, IsUnique}
use openxcap.Backend.Contents.{append-IsUnique}
use openxcap.Backend.Transactions.{
  NumberedRow, Numbered, plain, has_id, select_numbered, Commit, nothing, update, insert_new,
  remove_id, update_id, delete_id, insert_numbered, commit,
}
use openxcap.Backend.Transactions.Alone.{HasIds, plain-append, has_id-update_id}

-- no two rows have one key, and none have one id
abbrev pub IsSound : Numbered → Type 0
IsSound rows = IsUnique (plain rows) × HasIds rows

view-update_id :
    (j : Key) (id : ℕ) (doc etag : Str) (rows : Numbered)
    → view (plain rows) j ≡ none
    → view (plain (update_id id doc etag rows)) j ≡ none
unfolding view update_id
view-update_id j id doc etag [] h = refl
view-update_id j id doc etag (s ∷ rows) h = elim (Bool-cases (same_key j s.row.key)) [
  | inl e ↦ cc (rw e at h)
  | inr e ↦
      let ih = view-update_id j id doc etag rows (rw e at h) in
      elim (Bool-cases (s.id == id)) [ inl g ↦ rw (g, e) ih | inr g ↦ rw (g, e) ih ]
]

update_id-IsSound :
    (id : ℕ) (doc etag : Str) (rows : Numbered)
    → IsSound rows
    → IsSound (update_id id doc etag rows)
unfolding update_id
update_id-IsSound id doc etag [] h = h
update_id-IsSound id doc etag (s ∷ rows) ((u, us), (i, is)) =
    let (us', is') = update_id-IsSound id doc etag rows (us, is) in
    let u' = view-update_id s.row.key id doc etag rows u in
    let i' = has_id-update_id s.id id doc etag rows ∙ i in
    elim (Bool-cases (s.id == id)) [
      | inl e ↦ rw e ((u', us'), (i', is'))
      | inr e ↦ rw e ((u', us'), (i', is'))
    ]

view-delete_id :
    (j : Key) (id : ℕ) (rows : Numbered)
    → view (plain rows) j ≡ none
    → view (plain (delete_id id rows)) j ≡ none
unfolding view delete_id
view-delete_id j id [] h = refl
view-delete_id j id (s ∷ rows) h = elim (Bool-cases (same_key j s.row.key)) [
  | inl e ↦ cc (rw e at h)
  | inr e ↦
      let ih = view-delete_id j id rows (rw e at h) in
      elim (Bool-cases (s.id == id)) [ inl g ↦ rw g ih | inr g ↦ rw (g, e) ih ]
]

has_id-delete_id :
    (i id : ℕ) (rows : Numbered) → has_id i rows ≡ false → has_id i (delete_id id rows) ≡ false
unfolding delete_id
has_id-delete_id i id [] h = refl
has_id-delete_id i id (s ∷ rows) h =
    let ih = has_id-delete_id i id rows (ground arith) in
    elim (Bool-cases (s.id == id)) [ inl e ↦ rw e ih | inr e ↦ rw e (ground arith) ]

delete_id-IsSound : (id : ℕ) (rows : Numbered) → IsSound rows → IsSound (delete_id id rows)
unfolding delete_id
delete_id-IsSound id [] h = h
delete_id-IsSound id (s ∷ rows) ((u, us), (i, is)) =
    let (us', is') = delete_id-IsSound id rows (us, is) in
    elim (Bool-cases (s.id == id)) [
      | inl e ↦ rw e (us', is')
      | inr e ↦
          rw e ((view-delete_id s.row.key id rows u, us'), (has_id-delete_id s.id id rows i, is'))
    ]

pub has_id-append :
    (i : ℕ) (rows : Numbered) (s : NumberedRow)
    → has_id i rows ≡ false
    → (s.id == i) ≡ false
    → has_id i (rows ++ s ∷ []) ≡ false
has_id-append i [] s h n = ground (arith, n)
has_id-append i (t ∷ rows) s h n =
    let ih = has_id-append i rows s (ground arith) n in ground (arith, ih)

HasIds-append :
    (rows : Numbered) (s : NumberedRow)
    → has_id s.id rows ≡ false
    → HasIds rows
    → HasIds (rows ++ s ∷ [])
HasIds-append [] s n h = (refl, tt)
HasIds-append (t ∷ rows) s n h =
    (has_id-append t.id rows s h.0 (ground arith), HasIds-append rows s (ground arith) h.1)

pub select-view :
    (k : Key) (rows : Numbered) → select_numbered k rows ≡ [] → view (plain rows) k ≡ none
unfolding select_numbered view
select-view k [] h = refl
select-view k (s ∷ rows) h = elim (Bool-cases (same_key k s.row.key)) [
  | inl e ↦ cc (rw e at h)
  | inr e ↦ rw e (select-view k rows (rw e at h))
]

insert_numbered-IsSound :
    (new : ℕ) (k : Option Key) (doc etag : Str) (rows after : Numbered)
    → has_id new rows ≡ false
    → IsSound rows
    → insert_numbered new k doc etag rows ≡ ok after
    → IsSound after
unfolding insert_numbered
insert_numbered-IsSound new none doc etag rows after n h e = cc
insert_numbered-IsSound new (some k) doc etag rows after n h e =
    by_selection (select_numbered k rows) refl
  where
    by_selection : (l : Numbered) → select_numbered k rows ≡ l → IsSound after
    by_selection [] s =
        let row : Row = record { key = k; doc = doc; etag = etag } in
        let added : NumberedRow = record { id = new; row = row } in
        let q = rw (s, insert_numbered) at e in
        let same : rows ++ added ∷ [] ≡ after = ground arith in
        let unique : IsUnique (plain rows ++ row ∷ []) =
          append-IsUnique (plain rows) row h.0 (select-view k rows s) in
        subst IsSound same
          (subst IsUnique (sym (plain-append rows added)) unique, HasIds-append rows added n h.1)
    by_selection (t ∷ l) s = cc (rw (s, insert_numbered) at e)

pub commit-IsSound :
    (new : ℕ) (c : Commit) (rows after : Numbered) (r : StatusResponse)
    → has_id new rows ≡ false
    → IsSound rows
    → commit new c rows ≡ ok (r, after)
    → IsSound after
unfolding commit
commit-IsSound new (nothing r') rows after r n h e = subst IsSound (ground arith) h
commit-IsSound new (update id doc etag r') rows after r n h e = elim (Bool-cases (has_id id rows)) [
  | inl g ↦
      let q = rw g at e in
      let same : update_id id doc etag rows ≡ after = ground arith in
      subst IsSound same (update_id-IsSound id doc etag rows h)
  | inr g ↦ cc (rw g at e)
]
commit-IsSound new (insert_new k doc etag r') rows after r n h e =
    let (t, i, q) = >>=-Passed (insert_numbered new k doc etag rows) _ e in
    let same : t ≡ after = ground arith in
    subst IsSound same (insert_numbered-IsSound new k doc etag rows t n h i)
commit-IsSound new (remove_id id r') rows after r n h e =
    let same : delete_id id rows ≡ after = ground arith in
    subst IsSound same (delete_id-IsSound id rows h)
