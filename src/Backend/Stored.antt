-- ===== src/Backend/Stored.antt =====
-- What a PUT stores is there afterwards.
use openxcap.Prelude.{
  ◌≡◌, refl, ap, ◌∙◌, sym, true, false, Option, none, some, Str, str_eq, str_eq_iff, Result, ok,
  err, ◌>>=◌, arith, Bool-cases, inl, inr,
}
use openxcap.Errors.{Fault}
use openxcap.Backend.{StatusResponse, Target, Key, Table, Check, query_of, put_document}
use openxcap.Backend.Rows.{view, IsUnique, same_key_refl}
use openxcap.Backend.Refinement.{Contents, set, write, seen, put_document-write}

-- the document of a key, with some tag
abbrev pub IsStored : Str → Option (Str × Str) → Type 0
IsStored doc v = (etag : Str) × (v ≡ some (doc, etag))

abbrev answered : StatusResponse × Contents → Result Fault (StatusResponse × Contents)
answered p = ok p

answer_eq :
    (c : Result Fault (Unit {0})) (a r : StatusResponse) (m after : Contents)
    → (c >>= λ done. answered (a, m)) ≡ ok (r, after)
    → (a ≡ r) × (m ≡ after)
answer_eq (err e) a r m after h = cc
answer_eq (ok u) a r m after h = (ground arith, ground arith)

-- a document is stored with the tag of an answer
abbrev pub HasTag : Str → StatusResponse → Option (Str × Str) → Type 0
HasTag doc r v = (etag : Str) × (v ≡ some (doc, etag)) × (r.etag ≡ some etag)

set-HasTag :
    (c : Result Fault (Unit {0})) (k : Key) (doc fresh : Str) (a r : StatusResponse)
    (m after : Contents)
    → a.etag ≡ some fresh
    → (c >>= λ done. answered (a, set k (some (doc, fresh)) m)) ≡ ok (r, after)
    → (after k ≡ some (doc, fresh)) × (r.etag ≡ some fresh)
set-HasTag c k doc fresh a r m after t h =
    let (p, q) = answer_eq c a r (set k (some (doc, fresh)) m) after h in
    (
      ap (λ d. d k) (sym q) ∙ rw (same_key_refl k) refl,
      ap (λ (x : StatusResponse). x.etag) (sym p) ∙ t,
    )

module _ (check : Check) (k : Key) (doc fresh : Str) (m after : Contents) (r : StatusResponse) where
  -- another document than the one that is there gets the new tag
  write-fresh :
      (v : Option (Str × Str))
      → ((old etag : Str) → v ≡ some (old, etag) → str_eq old doc ≡ false)
      → write check k doc fresh m v ≡ ok (r, after)
      → (after k ≡ some (doc, fresh)) × (r.etag ≡ some fresh)
  write-fresh none g h = set-HasTag (check none false) k doc fresh _ r m after refl h
  write-fresh (some (old, etag)) g h =
      set-HasTag (check (some etag) true) k doc fresh _ r m after refl (rw (g old etag refl) at h)

  write-HasTag :
      (v : Option (Str × Str))
      → m k ≡ v
      → write check k doc fresh m v ≡ ok (r, after)
      → HasTag doc r (after k)
  write-HasTag none e h = let (s, t) = write-fresh none (λ old etag x. cc) h in (fresh, s, t)
  write-HasTag (some (old, etag)) e h = elim (Bool-cases (str_eq old doc)) [
    | inl g ↦
        let (p, q) = answer_eq (ok tt) _ r m after (rw g at h) in
        (
          etag,
          ap (λ c. c k) (sym q) ∙ (e ∙ ap (λ d. some (d, etag)) ((str_eq_iff old doc).0 g)),
          ap (λ (x : StatusResponse). x.etag) (sym p),
        )
    | inr g ↦
        let (s, t) = write-fresh (some (old, etag)) (λ o t' x. ground arith) h in (fresh, s, t)
  ]

module _ (check : Check) (target : Target) (k : Key) (doc fresh : Str) (rows after : Table)
    (r : StatusResponse) (q : query_of target ≡ ok (some k)) (u : IsUnique rows)
    (h : put_document check target doc fresh rows ≡ ok (r, after)) where
  as_write : write check k doc fresh (view rows) (view rows k) ≡ ok (r, view after)
  as_write = sym (put_document-write check target k q rows u doc fresh) ∙ ap seen h

  -- After a PUT that succeeds, the key has the document, with the tag of the answer.
  pub put_document-HasTag : HasTag doc r (view after k)
  put_document-HasTag =
      write-HasTag check k doc fresh (view rows) (view after) r (view rows k) refl as_write

  pub put_document-IsStored : IsStored doc (view after k)
  put_document-IsStored = let (etag, e, t) = put_document-HasTag in (etag, e)

  -- Another document than the one that is there is stored with the new tag.
  pub put_document-fresh :
      ((old etag : Str) → view rows k ≡ some (old, etag) → str_eq old doc ≡ false)
      → (view after k ≡ some (doc, fresh)) × (r.etag ≡ some fresh)
  put_document-fresh g =
      write-fresh check k doc fresh (view rows) (view after) r (view rows k) g as_write
