-- ===== src/Backend/Transactions/Owned.antt =====
-- The rows with the id that a request has found are those of its key, until it commits.
use openxcap.Prelude.{
  ℕ, suc, ◌≡◌, ◌<◌, refl, ap, ◌∙◌, sym, true, false, none, some, [], ◌∷◌, ◌++◌, Str, ◌==◌, ==_iff,
  All, arith, Bool-cases, Option-cases, inl, inr, fun_ext,
}
use openxcap.Backend.{Key, same_key}
use openxcap.Backend.Rows.{view, IsUnique, same_key_iff}
use openxcap.Backend.Transactions.{NumberedRow, Numbered, plain, has_id, update_id, delete_id}
use openxcap.Backend.Contents.{view-update_rows, view-delete_rows}
use openxcap.Backend.Refinement.{set}
use openxcap.Backend.Transactions.Alone.{HasIds, AreOne, plain-update_id, plain-delete_id}

-- every row with the id has the key
abbrev pub Owned : ℕ → Key → Numbered → Type 0
Owned id k rows = All (λ (s : NumberedRow). (s.id == id) ≡ true → s.row.key ≡ k) rows

-- the ids that are in use
abbrev pub Below : ℕ → Numbered → Type 0
Below next rows = All (λ (s : NumberedRow). s.id < next) rows

pub AreOne-Owned : (id : ℕ) (k : Key) (rows : Numbered) → AreOne id k rows → Owned id k rows
AreOne-Owned id k [] h = tt
AreOne-Owned id k (s ∷ rows) h =
    (λ e. sym ((same_key_iff k s.row.key).0 (sym h.0 ∙ e)), AreOne-Owned id k rows h.1)

pub Below-has_id : (next : ℕ) (rows : Numbered) → Below next rows → has_id next rows ≡ false
Below-has_id next [] h = refl
Below-has_id next (s ∷ rows) h = ground (arith, h.0, Below-has_id next rows h.1)

pub has_id-Below :
    (id next : ℕ) (rows : Numbered) → Below next rows → has_id id rows ≡ true → id < next
has_id-Below id next [] h e = cc
has_id-Below id next (s ∷ rows) h e = elim (Bool-cases (s.id == id)) [
  | inl g ↦ omega (arith, h.0, (==_iff s.id id).0 g)
  | inr g ↦ has_id-Below id next rows h.1 (rw g at e)
]

pub Below-suc : (next : ℕ) (rows : Numbered) → Below next rows → Below (suc next) rows
Below-suc next [] h = tt
Below-suc next (s ∷ rows) h = (omega (arith, h.0), Below-suc next rows h.1)

-- A new row is in the way of no id that is in use.
pub Owned-append :
    (id : ℕ) (k : Key) (rows : Numbered) (s : NumberedRow)
    → id < s.id
    → Owned id k rows
    → Owned id k (rows ++ s ∷ [])
Owned-append id k [] s h o = (λ e. absurd (omega (arith, h, (==_iff s.id id).0 e)), tt)
Owned-append id k (t ∷ rows) s h o = (o.0, Owned-append id k rows s h o.1)

pub Below-append :
    (next : ℕ) (rows : Numbered) (s : NumberedRow)
    → s.id < next
    → Below next rows
    → Below next (rows ++ s ∷ [])
Below-append next [] s h b = (h, tt)
Below-append next (t ∷ rows) s h b = (b.0, Below-append next rows s h b.1)

-- what holds of the ids and keys of all rows holds of them after an update
module _ (P : ℕ → Key → Type 0) where
  abbrev pub Holds : Numbered → Type 0
  Holds rows = All (λ (s : NumberedRow). P s.id s.row.key) rows

  pub update_id-Holds :
      (id : ℕ) (doc etag : Str) (rows : Numbered) → Holds rows → Holds (update_id id doc etag rows)
  unfolding update_id
  update_id-Holds id doc etag [] h = tt
  update_id-Holds id doc etag (s ∷ rows) h =
      let rest = update_id-Holds id doc etag rows h.1 in
      elim (Bool-cases (s.id == id)) [ inl e ↦ rw e (h.0, rest) | inr e ↦ rw e (h.0, rest) ]

  pub delete_id-Holds : (id : ℕ) (rows : Numbered) → Holds rows → Holds (delete_id id rows)
  unfolding delete_id
  delete_id-Holds id [] h = tt
  delete_id-Holds id (s ∷ rows) h =
      let rest = delete_id-Holds id rows h.1 in
      elim (Bool-cases (s.id == id)) [ inl e ↦ rw e rest | inr e ↦ rw e (h.0, rest) ]

Owned-view :
    (id : ℕ) (k : Key) (rows : Numbered)
    → Owned id k rows
    → view (plain rows) k ≡ none
    → has_id id rows ≡ false
unfolding view
Owned-view id k [] o e = refl
Owned-view id k (s ∷ rows) o e = elim (Bool-cases (same_key k s.row.key)) [
  | inl g ↦ cc (rw g at e)
  | inr g ↦ elim (Bool-cases (s.id == id)) [
    | inl f ↦ cc ((same_key_iff k s.row.key).1 (sym (o.0 f)))
    | inr f ↦ rw f (Owned-view id k rows o.1 (rw g at e))
  ]
]

AreOne-apart :
    (id : ℕ) (k : Key) (rows : Numbered)
    → view (plain rows) k ≡ none
    → has_id id rows ≡ false
    → AreOne id k rows
unfolding view
AreOne-apart id k [] e n = tt
AreOne-apart id k (s ∷ rows) e n = elim (Bool-cases (same_key k s.row.key)) [
  | inl g ↦ cc (rw g at e)
  | inr g ↦ (ground (arith, g), AreOne-apart id k rows (rw g at e) (ground arith))
]

-- The row with the id is, if it is there, the only one with the key.
Owned-AreOne :
    (id : ℕ) (k : Key) (rows : Numbered)
    → IsUnique (plain rows)
    → HasIds rows
    → Owned id k rows
    → has_id id rows ≡ true
    → AreOne id k rows
Owned-AreOne id k [] u i o h = cc
Owned-AreOne id k (s ∷ rows) u i o h = elim (Bool-cases (s.id == id)) [
  | inl e ↦
      let key = o.0 e in
      (
        e ∙ sym ((same_key_iff k s.row.key).1 (sym key)),
        AreOne-apart id k rows (ap (view (plain rows)) (sym key) ∙ u.0)
            (ap (λ j. has_id j rows) (sym ((==_iff s.id id).0 e)) ∙ i.0),
      )
  | inr e ↦
      let there = rw e at h in
      let rest = Owned-AreOne id k rows u.1 i.1 o.1 there in
      elim (Bool-cases (same_key k s.row.key)) [
        | inl g ↦
            let gone =
              Owned-view id k rows o.1
                (ap (view (plain rows)) ((same_key_iff k s.row.key).0 g) ∙ u.0) in
            cc
        | inr g ↦ (e ∙ sym g, rest)
      ]
]

module _ (id : ℕ) (k : Key) (rows : Numbered) (u : IsUnique (plain rows)) (i : HasIds rows)
    (o : Owned id k rows) (there : has_id id rows ≡ true) where
  -- An UPDATE of that row is one of the map at the key, and so is a DELETE.
  pub view-update_id :
      (doc etag : Str)
      → view (plain (update_id id doc etag rows)) ≡ set k (some (doc, etag)) (view (plain rows))
  view-update_id doc etag = elim (Option-cases (view (plain rows) k)) [
    | inl e ↦ let gone = Owned-view id k rows o e in cc
    | inr (old, e) ↦
        ap view (plain-update_id id k doc etag rows (Owned-AreOne id k rows u i o there))
        ∙ fun_ext (λ j. view-update_rows k j doc etag (plain rows) old e)
  ]

  pub view-delete_id : view (plain (delete_id id rows)) ≡ set k none (view (plain rows))
  view-delete_id =
      ap view (plain-delete_id id k rows (Owned-AreOne id k rows u i o there))
      ∙ fun_ext (λ j. view-delete_rows k j (plain rows))

pub delete_id-gone : (id : ℕ) (rows : Numbered) → has_id id rows ≡ false → delete_id id rows ≡ rows
unfolding delete_id
delete_id-gone id [] h = refl
delete_id-gone id (s ∷ rows) h =
    let apart : (s.id == id) ≡ false = ground arith in
    rw apart (ap (λ l. s ∷ l) (delete_id-gone id rows (ground arith)))
