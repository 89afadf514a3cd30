-- ===== src/Backend/Transactions/Isolated.antt =====
-- What the commits of requests do to the documents, however the requests overlap.
use openxcap.Prelude.{ℕ, List, All}
use openxcap.Backend.Transactions.{Numbered}
use openxcap.Backend.Transactions.Owned.{Below}
use openxcap.Backend.Transactions.Fits.{Fits}
use openxcap.Backend.Transactions.Runs.{Pending}
use openxcap.Backend.Transactions.Sound.{IsSound}

-- the table is sound, no id from `next` on is in use, and all requests have to commit what they asked
-- for
abbrev pub IsRun : ℕ → Numbered → List Pending → Type 0
IsRun next rows pending =
    IsSound rows × Below next rows × All (λ (p : Pending). Fits next rows p p.rest) pending
