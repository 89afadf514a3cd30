-- ===== src/Backend/Transactions/Serial.antt =====
-- A PUT or DELETE that commits on a table that others have changed since its query, but not at its
-- key.
use openxcap.Prelude.{◌≡◌, refl, ap, ◌∙◌, ℕ, some, Str, ok, ◌>>=◌}
use openxcap.Backend.{Target, Key, Check, query_of}
use openxcap.Backend.Rows.{view, IsUnique}
use openxcap.Backend.Refinement.{write, erase, seen, put_document-write, delete_document-erase}
use openxcap.Backend.Transactions.{
  Numbered, plain, select_numbered, fetch_numbered, begin_put, begin_delete, commit,
}
use openxcap.Backend.Transactions.Alone.{HasIds, forget, begin_put-commit, begin_delete-commit}

module _ (check : Check) (target : Target) (k : Key) (q : query_of target ≡ ok (some k))
    (rows later : Numbered) (same : select_numbered k rows ≡ select_numbered k later) where
  begin_put-later :
      (doc fresh : Str)
      → begin_put check target doc fresh rows ≡ begin_put check target doc fresh later
  unfolding begin_put fetch_numbered
  begin_put-later doc fresh = rw (q, same) refl

  begin_delete-later : begin_delete check target rows ≡ begin_delete check target later
  unfolding begin_delete fetch_numbered
  begin_delete-later = rw (q, same) refl

  module _ (new : ℕ) (ids : HasIds later) (unique : IsUnique (plain later)) where
    -- A PUT whose commit finds at its key the rows that its query has found, whatever has been
    -- changed at other keys in between, answers as the map of documents does, its conditions
    -- included, and leaves what the map leaves.
    pub begin_put-write :
        (doc fresh : Str)
        → seen (forget (begin_put check target doc fresh rows >>= λ c. commit new c later))
          ≡ write check k doc fresh (view (plain later)) (view (plain later) k)
    begin_put-write doc fresh =
        ap (λ b. seen (forget (b >>= λ c. commit new c later))) (begin_put-later doc fresh)
        ∙ ap seen (begin_put-commit new check later ids target doc fresh)
        ∙ put_document-write check target k q (plain later) unique doc fresh

    -- A DELETE whose commit finds at its key the rows that its query has found, whatever has been
    -- changed at other keys in between, answers as the map of documents does, its conditions
    -- included, and leaves what the map leaves.
    pub begin_delete-erase :
        seen (forget (begin_delete check target rows >>= λ c. commit new c later))
        ≡ erase check k (view (plain later)) (view (plain later) k)
    begin_delete-erase =
        ap (λ b. seen (forget (b >>= λ c. commit new c later))) begin_delete-later
        ∙ ap seen (begin_delete-commit new check later ids target)
        ∙ delete_document-erase check target k q (plain later) unique
