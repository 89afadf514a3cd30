-- ===== src/Backend/Transactions/Made.antt =====
-- What one commit does to the documents, and what it leaves for the requests that are still to commit.
use openxcap.Prelude.{
  ℕ, suc, ◌≡◌, ◌<◌, ◌==◌, refl, ap, ◌∙◌, sym, subst, fun_ext, true, false, Option, none, some, [],
  ◌∷◌, ◌++◌, Str, arith, Bool-cases, inl, inr, ◌⊎◌, ok, >>=-Passed,
}
use openxcap.Backend.{missing, StatusResponse, Key, Row}
use openxcap.Backend.Rows.{view}
use openxcap.Backend.Contents.{view-append}
use openxcap.Backend.Refinement.{set}
use openxcap.Backend.Transactions.{
  NumberedRow, Numbered, plain, has_id, select_numbered, Commit, nothing, update, insert_new,
  remove_id, update_id, delete_id, insert_numbered, commit,
}
use openxcap.Backend.Transactions.Alone.{plain-append}
use openxcap.Backend.Transactions.Owned.{
  Owned, Below, Below-suc, Owned-append, Below-append, update_id-Holds, delete_id-Holds,
  view-update_id, view-delete_id, delete_id-gone,
}
use openxcap.Backend.Transactions.Fits.{IsAnswered, IsSettled, Fits}
use openxcap.Backend.Transactions.Runs.{Pending}
use openxcap.Backend.Transactions.Sound.{IsSound, select-view}

-- a commit that changes nothing: of a PUT whose document was there, or of a DELETE that found no
-- document, or whose row is gone
abbrev pub IsIdle : Numbered → Commit → Option (Str × Str) → StatusResponse → Type 0
IsIdle rows c none r = (r ≡ missing) ⊎ ((id : ℕ) × (c ≡ remove_id id r) × (has_id id rows ≡ false))
IsIdle rows c (some (doc, tag)) r = r.body ≡ some doc

-- the documents after a commit: those before it, or the request's at its key
abbrev pub IsMade : Numbered → Pending → Commit → StatusResponse → Numbered → Type 0
IsMade rows p c r after =
    ((after ≡ rows) × IsIdle rows c p.change r)
    ⊎ ((view (plain after) ≡ set p.key p.change (view (plain rows))) × IsAnswered p r)

settled-IsIdle :
    (rows : Numbered) (c : Commit) (change : Option (Str × Str)) (r : StatusResponse)
    → IsSettled change r
    → IsIdle rows c change r
settled-IsIdle rows c none r h = inl h
settled-IsIdle rows c (some (doc, tag)) r h = h

gone-IsIdle :
    (rows : Numbered) (id : ℕ) (change : Option (Str × Str)) (r : StatusResponse)
    → change ≡ none
    → has_id id rows ≡ false
    → IsIdle rows (remove_id id r) change r
gone-IsIdle rows id none r e h = inr (id, refl, h)
gone-IsIdle rows id (some (doc, tag)) r e h = cc

module _ (next : ℕ) (rows : Numbered) where
  -- rows that were apart from all that is new
  abbrev pub IsKept : Numbered → Type 0
  IsKept after =
      Below (suc next) after × ((id : ℕ) (k : Key) → id < next → Owned id k rows → Owned id k after)

  pub Fits-kept :
      (after : Numbered) (p : Pending) (c : Commit)
      → IsKept after
      → Fits next rows p c
      → Fits (suc next) after p c
  Fits-kept after p (nothing r) h f = f
  Fits-kept after p (update id doc etag r) h (i, o, c, f) = (omega arith, h.1 id p.key i o, c, f)
  Fits-kept after p (insert_new k doc etag r) h f = f
  Fits-kept after p (remove_id id r) h (i, o, c, f) = (omega arith, h.1 id p.key i o, c, f)

  module _ (sound : IsSound rows) (below : Below next rows) where
    pub same-IsKept : IsKept rows
    same-IsKept = (Below-suc next rows below, λ id k i o. o)

    update_id-IsKept : (id : ℕ) (doc etag : Str) → IsKept (update_id id doc etag rows)
    update_id-IsKept id doc etag = (
      update_id-Holds (λ i k. i < suc next) id doc etag rows (Below-suc next rows below),
      λ j k i o. update_id-Holds (λ i' k'. (i' == j) ≡ true → k' ≡ k) id doc etag rows o,
    )

    delete_id-IsKept : (id : ℕ) → IsKept (delete_id id rows)
    delete_id-IsKept id = (
      delete_id-Holds (λ i k. i < suc next) id rows (Below-suc next rows below),
      λ j k i o. delete_id-Holds (λ i' k'. (i' == j) ≡ true → k' ≡ k) id rows o,
    )

    append-IsKept : (s : NumberedRow) → s.id ≡ next → IsKept (rows ++ s ∷ [])
    append-IsKept s e = (
      Below-append (suc next) rows s (omega (arith, e)) (Below-suc next rows below),
      λ j k i o. Owned-append j k rows s (omega (arith, e, i)) o,
    )

    insert-IsMade :
        (p : Pending) (doc etag : Str) (r : StatusResponse) (after : Numbered)
        → p.change ≡ some (doc, etag)
        → IsAnswered p r
        → insert_numbered next (some p.key) doc etag rows ≡ ok after
        → IsKept after × IsMade rows p (insert_new (some p.key) doc etag r) r after
    unfolding insert_numbered
    insert-IsMade p doc etag r after c a h = by_selection (select_numbered p.key rows) refl
      where
        by_selection :
            (l : Numbered)
            → select_numbered p.key rows ≡ l
            → IsKept after × IsMade rows p (insert_new (some p.key) doc etag r) r after
        by_selection [] e =
            let row : Row = record { key = p.key; doc = doc; etag = etag } in
            let added : NumberedRow = record { id = next; row = row } in
            let q = rw (e, insert_numbered) at h in
            let same : rows ++ added ∷ [] ≡ after = ground arith in
            let there : view (plain (rows ++ added ∷ [])) ≡ set p.key p.change (view (plain rows)) =
              ap view (plain-append rows added)
              ∙ fun_ext (λ j. view-append (plain rows) row j (select-view p.key rows e))
              ∙ ap (λ v. set p.key v (view (plain rows))) (sym c) in
            (
              subst IsKept same (append-IsKept added refl),
              subst (IsMade rows p (insert_new (some p.key) doc etag r) r) same (inr (there, a)),
            )
        by_selection (t ∷ l) e = cc (rw (e, insert_numbered) at h)

    pub commit-IsMade :
        (p : Pending) (c : Commit) (r : StatusResponse) (after : Numbered)
        → Fits next rows p c
        → commit next c rows ≡ ok (r, after)
        → IsKept after × IsMade rows p c r after
    unfolding commit
    commit-IsMade p (nothing r') r after f h =
        let same : rows ≡ after = ground arith in
        let answer : r' ≡ r = ground arith in
        (
          subst IsKept same same-IsKept,
          inl (
            sym same,
            settled-IsIdle rows (nothing r') p.change r (subst (IsSettled p.change) answer f),
          ),
        )
    commit-IsMade p (update id doc etag r') r after (i, o, c, a) h =
        elim (Bool-cases (has_id id rows)) [
          | inl e ↦
              let q = rw e at h in
              let same : update_id id doc etag rows ≡ after = ground arith in
              let answer : r' ≡ r = ground arith in
              let there =
                view-update_id id p.key rows sound.0 sound.1 o e doc etag
                ∙ ap (λ v. set p.key v (view (plain rows))) (sym c) in
              (
                subst IsKept same (update_id-IsKept id doc etag),
                subst (IsMade rows p (update id doc etag r') r) same
                    (inr (there, subst (IsAnswered p) answer a)),
              )
          | inr e ↦ cc (rw e at h)
        ]
    commit-IsMade p (insert_new k doc etag r') r after (key, c, a) h =
        let (t, i, q) = >>=-Passed (insert_numbered next k doc etag rows) _ h in
        let same : t ≡ after = ground arith in
        let answer : r' ≡ r = ground arith in
        subst (λ x. IsKept after × IsMade rows p x r after)
          (ap (λ x. insert_new x doc etag r) (sym key)
            ∙ ap (λ x. insert_new k doc etag x) (sym answer))
          (insert-IsMade p doc etag r after c (subst (IsAnswered p) answer a)
            (ap (λ x. insert_numbered next x doc etag rows) (sym key) ∙ i ∙ ap ok same))
    commit-IsMade p (remove_id id r') r after (i, o, c, a) h =
        let same : delete_id id rows ≡ after = ground arith in
        let answer : r' ≡ r = ground arith in
        (
          subst IsKept same (delete_id-IsKept id),
          subst (IsMade rows p (remove_id id r') r) same (elim (Bool-cases (has_id id rows)) [
            | inl e ↦ inr (
              view-delete_id id p.key rows sound.0 sound.1 o e
                  ∙ ap (λ v. set p.key v (view (plain rows))) (sym c),
              subst (IsAnswered p) answer a,
            )
            | inr e ↦ inl (
              delete_id-gone id rows e,
              subst (IsIdle rows (remove_id id r') p.change) answer
                  (gone-IsIdle rows id p.change r' c e),
            )
          ]),
        )
