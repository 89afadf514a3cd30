-- ===== src/Backend/Transactions/Runs.antt =====
-- Requests that overlap in any way, and the tables that they make.
use openxcap.Prelude.{ℕ, zero, suc, ◌≡◌, Option, none, some, List, [], ◌∷◌, ◌++◌, Str, ok, err}
use openxcap.Errors.{Fault}
use openxcap.Backend.{StatusResponse, Target, Key, Check, query_of}
use openxcap.Backend.Transactions.{Numbered, Commit, begin_put, begin_delete, commit}

-- a request that has begun: the key of its target, its conditions, the document and the tag that a
-- PUT is to store, none for a DELETE, and what is still to commit
pub record Pending : Type 0 where
  pub key : Key
  pub check : Check
  pub change : Option (Str × Str)
  pub rest : Commit

-- the first transaction of a request
pub data Begins : Numbered → Pending → Type 0 where
  by_put :
      (check : Check) (target : Target) (k : Key) (doc fresh : Str) (rows : Numbered) (c : Commit)
      → query_of target ≡ ok (some k)
      → begin_put check target doc fresh rows ≡ ok c
      → Begins rows (record { key = k; check = check; change = some (doc, fresh); rest = c })
  by_delete :
      (check : Check) (target : Target) (k : Key) (rows : Numbered) (c : Commit)
      → query_of target ≡ ok (some k)
      → begin_delete check target rows ≡ ok c
      → Begins rows (record { key = k; check = check; change = none; rest = c })

-- the next id, the table, and what requests have still to commit, in any order; no id is used again
pub data Reached : ℕ → Numbered → List Pending → Type 0 where
  created : Reached zero [] []
  begun :
      (next : ℕ) (rows : Numbered) (pending : List Pending) (p : Pending)
      → Reached next rows pending
      → Begins rows p
      → Reached next rows (p ∷ pending)
  committed :
      (next : ℕ) (rows after : Numbered) (before behind : List Pending) (p : Pending)
      (r : StatusResponse)
      → Reached next rows (before ++ p ∷ behind)
      → commit next p.rest rows ≡ ok (r, after)
      → Reached (suc next) after (before ++ behind)
  failed :
      (next : ℕ) (rows : Numbered) (before behind : List Pending) (p : Pending) (e : Fault)
      → Reached next rows (before ++ p ∷ behind)
      → commit next p.rest rows ≡ err e
      → Reached (suc next) rows (before ++ behind)
