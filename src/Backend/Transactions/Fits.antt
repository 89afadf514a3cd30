-- ===== src/Backend/Transactions/Fits.antt =====
-- What a request that has begun has still to commit.
use openxcap.Prelude.{
  ℕ, ◌≡◌, ◌<◌, refl, ap, subst, Bool, true, false, Option, none, some, List, [], ◌∷◌, Str, str_eq,
  str_eq_iff, arith, Bool-cases, Result-cases, inl, inr, Result, ok,
}
use openxcap.Errors.{Fault}
use openxcap.Backend.{missing, StatusResponse, Target, Key, Check, query_of}
use openxcap.Backend.Transactions.{
  NumberedRow, Numbered, select_numbered, one_numbered, fetch_numbered, Commit, nothing, update,
  insert_new, remove_id, put_over_row, begin_put, begin_delete,
}
use openxcap.Backend.Transactions.Alone.{AreOne-selected}
use openxcap.Backend.Transactions.Owned.{Owned, Below, AreOne-Owned, has_id-Below}
use openxcap.Backend.Transactions.Runs.{Pending}
use openxcap.Backend.Transactions.Sound.{IsSound}

abbrev found : Commit → Result Fault Commit
found c = ok c

ok_eq : (a b : Commit) → found a ≡ found b → a ≡ b
ok_eq a b h = ground arith

abbrev pub is_there : Option Str → Bool
is_there none = false
is_there (some tag) = true

abbrev pub new_tag : Option (Str × Str) → Option Str
new_tag none = none
new_tag (some (doc, tag)) = some tag

-- An answer has the tag of what the request is to store, and its conditions held for the old tag that
-- the answer reports.
abbrev pub IsAnswered : Pending → StatusResponse → Type 0
IsAnswered p r = (p.check r.old_etag (is_there r.old_etag) ≡ ok tt) × (r.etag ≡ new_tag p.change)

-- the answer where nothing is to be committed: the document of a PUT that is there already, or 404
abbrev pub IsSettled : Option (Str × Str) → StatusResponse → Type 0
IsSettled none r = r ≡ missing
IsSettled (some (doc, tag)) r = r.body ≡ some doc

-- what is still to commit is what the request asked for: a row with an id that is in use has its key
abbrev pub Fits : ℕ → Numbered → Pending → Commit → Type 0
Fits next rows p (nothing r) = IsSettled p.change r
Fits next rows p (update id doc etag r) =
    (id < next) × Owned id p.key rows × (p.change ≡ some (doc, etag)) × IsAnswered p r
Fits next rows p (insert_new k doc etag r) =
    (k ≡ some p.key) × (p.change ≡ some (doc, etag)) × IsAnswered p r
Fits next rows p (remove_id id r) =
    (id < next) × Owned id p.key rows × (p.change ≡ none) × IsAnswered p r

module _ (next : ℕ) (rows : Numbered) (sound : IsSound rows) (below : Below next rows)
    (check : Check) (target : Target) (k : Key) (q : query_of target ≡ ok (some k)) where
  found-Owned :
      (s : NumberedRow) → select_numbered k rows ≡ s ∷ [] → (s.id < next) × Owned s.id k rows
  found-Owned s e =
      let (one, there, key) = AreOne-selected k s rows sound.1 e in
      (has_id-Below s.id next rows below there, AreOne-Owned s.id k rows one)

  module _ (doc fresh : Str) (c : Commit) where
    abbrev putting : Pending
    putting = record { key = k; check = check; change = some (doc, fresh); rest = c }

    put_over_row-Fits :
        (s : NumberedRow)
        → select_numbered k rows ≡ s ∷ []
        → put_over_row check doc fresh s ≡ ok c
        → Fits next rows putting c
    unfolding put_over_row
    put_over_row-Fits s e h = elim (Bool-cases (str_eq s.row.doc doc)) [
      | inl g ↦
          subst (Fits next rows putting) (ok_eq _ c (rw g at h))
            (ap some ((str_eq_iff s.row.doc doc).0 g))
      | inr g ↦ elim (Result-cases (check (some s.row.etag) true)) [
        | inl (x, f) ↦ cc (rw (g, f) at h)
        | inr (done, f) ↦
            let (i, o) = found-Owned s e in
            subst (Fits next rows putting) (ok_eq _ c (rw (g, f) at h)) (i, o, refl, (f, refl))
      ]
    ]

    pub put_selected-Fits :
        (l : List NumberedRow)
        → select_numbered k rows ≡ l
        → begin_put check target doc fresh rows ≡ ok c
        → Fits next rows putting c
    unfolding begin_put fetch_numbered one_numbered
    put_selected-Fits [] e h = elim (Result-cases (check none false)) [
      | inl (x, f) ↦ cc (rw (q, e, f) at h)
      | inr (done, f) ↦
          subst (Fits next rows putting) (ok_eq _ c (rw (q, e, q, f) at h)) (refl, refl, (f, refl))
    ]
    put_selected-Fits (s ∷ []) e h = put_over_row-Fits s e (rw (q, e) at h)
    put_selected-Fits (s ∷ t ∷ l) e h = cc (rw (q, e) at h)

  module _ (c : Commit) where
    abbrev deleting : Pending
    deleting = record { key = k; check = check; change = none; rest = c }

    pub delete_selected-Fits :
        (l : List NumberedRow)
        → select_numbered k rows ≡ l
        → begin_delete check target rows ≡ ok c
        → Fits next rows deleting c
    unfolding begin_delete fetch_numbered one_numbered
    delete_selected-Fits [] e h = subst (Fits next rows deleting) (ok_eq _ c (rw (q, e) at h)) refl
    delete_selected-Fits (s ∷ []) e h = elim (Result-cases (check (some s.row.etag) true)) [
      | inl (x, f) ↦ cc (rw (q, e, f) at h)
      | inr (done, f) ↦
          let (i, o) = found-Owned s e in
          subst (Fits next rows deleting) (ok_eq _ c (rw (q, e, f) at h)) (i, o, refl, (f, refl))
    ]
    delete_selected-Fits (s ∷ t ∷ l) e h = cc (rw (q, e) at h)
