-- ===== src/Tests/Overlaps.antt =====
-- Runs of requests that overlap, and the theorems at them.
use openxcap.Prelude.{◌≡◌, refl, true, none, some, [], ◌∷◌, Str, codes, ok, err, str_eq, ◌>>=◌}
use openxcap.Errors.{integrity_error}
use openxcap.HttpUtils.{quote_string}
use openxcap.Preconditions.{Method, check_etag}
use openxcap.Preconditions.Outcome.{tag_request}
use openxcap.Backend.{StatusResponse, Check, query_of}
use openxcap.Backend.Rows.{view}
use openxcap.Backend.Transactions.{
  NumberedRow, Numbered, plain, select_numbered, Commit, update, insert_new, begin_put,
  begin_delete, commit,
}
use openxcap.Backend.Transactions.Alone.{forget}
use openxcap.Backend.Transactions.Serial.{begin_put-write, begin_delete-erase}
use openxcap.Backend.Refinement.{seen, write, erase}
use openxcap.Backend.Transactions.Lost.{changed, begin_put-lost}
use openxcap.Backend.Transactions.Runs.{Pending}
use openxcap.Tests.Storage.{target, key, query, check}

overlap_code : Unit {0}
unfolding query_of begin_put begin_delete commit select_numbered str_eq check_etag view quote_string
overlap_code = tt

abbrev first : NumberedRow
first = record { id = 0; row = record { key = key; doc = codes "<a/>"; etag = codes "e1" } }

abbrev rows : Numbered
rows = first ∷ []

-- the table, when another document has been put since
abbrev later : Numbered
later =
    first
    ∷ record {
      id = 1;
      row = record { key = record key { doc_uri = codes "other" }; doc = codes "<o/>"; etag = [] };
    }
    ∷ []

begin_put-write_example :
    seen
      (forget (begin_put check target (codes "<b/>") (codes "e2") rows >>= λ c. commit 2 c later))
    ≡ write check key (codes "<b/>") (codes "e2") (view (plain later)) (view (plain later) key)
unfolding overlap_code
begin_put-write_example =
    begin_put-write check target key query rows later refl 2 (refl, (refl, tt)) (refl, (refl, tt))
      (codes "<b/>") (codes "e2")

begin_delete-erase_example :
    seen (forget (begin_delete check target rows >>= λ c. commit 2 c later))
    ≡ erase check key (view (plain later)) (view (plain later) key)
unfolding overlap_code
begin_delete-erase_example =
    begin_delete-erase check target key query rows later refl 2 (refl, (refl, tt))
      (refl, (refl, tt))

selected : select_numbered key rows ≡ first ∷ []
unfolding overlap_code
selected = refl

-- If-Match: "e1"
abbrev guarded : Check
guarded etag exists =
    check_etag (λ s. none) 0 (tag_request Method.http_put (some (codes "e1", [])) none []) etag
      exists

passes : guarded (some (codes "e1")) true ≡ ok tt
unfolding overlap_code
passes = refl

begin_put-lost_example :
    (c c' : Commit) × (between after : Numbered) × (begin_put guarded target
        (codes "<b/>")
        (codes "e2")
        rows
      ≡ ok c)
    × (begin_put guarded target (codes "<c/>") (codes "e3") rows ≡ ok c')
    × (commit 8 c rows ≡ ok (changed first (codes "e2"), between))
    × (commit 8 c' between ≡ ok (changed first (codes "e3"), after))
    × (view (plain after) key ≡ some (codes "<c/>", codes "e3"))
unfolding str_eq
begin_put-lost_example =
    begin_put-lost 8 8 guarded guarded target key (codes "<b/>") (codes "<c/>") (codes "e2")
      (codes "e3") rows first (refl, tt) query selected passes passes refl refl

abbrev answer : Str → StatusResponse
answer tag = record { code = 201; etag = some tag; body = none; old_etag = none }

abbrev insertion : Str → Str → Commit
insertion doc tag = insert_new (some key) doc tag (answer tag)

-- the other of two first PUTs of a document violates the constraint
refused_run : commit 1 (insertion (codes "<b/>") (codes "e2")) rows ≡ err integrity_error
unfolding overlap_code
refused_run = refl

abbrev putting : Str → Str → Pending
putting doc tag = record {
  key = key;
  check = check;
  change = some (doc, tag);
  rest = insertion doc tag;
}

-- a PUT over the first one, with If-Match and its tag
abbrev replacing : Pending
replacing = record {
  key = key;
  check = guarded;
  change = some (codes "<c/>", codes "e3");
  rest = update 0 (codes "<c/>") (codes "e3") (changed first (codes "e3"));
}

abbrev replaced : Numbered
replaced = record { id = 0; row = record { key = key; doc = codes "<c/>"; etag = codes "e3" } } ∷ []
