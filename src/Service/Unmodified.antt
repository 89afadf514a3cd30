-- ===== src/Service/Unmodified.antt =====
-- Requests for a document with If-Unmodified-Since.
use openxcap.Prelude.{ℕ, ◌≡◌, true, false, Option, some, Str, is_empty, ok}
use openxcap.Preconditions
use openxcap.Backend.{StatusResponse, Table, Check, Key, query_of}
use openxcap.Backend
use openxcap.Backend.Rows.{view, IsUnique}
use openxcap.AppUsage.{Place}
use openxcap.Service.{
  document, HttpRequest, Response, one_argument, etag_header, content_type_of, check_of,
}

-- If-Unmodified-Since is there, and If-Match is not
abbrev pub IsDated : Preconditions.Request → Type 0
IsDated c = (is_empty c.if_match ≡ true) × (is_empty c.if_unmodified_since ≡ false)

module _ (parse_datetime : Str → Option ℕ) (now : ℕ) (request : HttpRequest)
    (dated : IsDated request.conditions) where
  module _ (place : Place) (k : Key) (q : query_of place.target ≡ ok (some k)) (rows : Table)
      (unique : IsUnique rows) (stored etag : Str) (there : view rows k ≡ some (stored, etag)) where
    abbrev checked : Check
    checked = one_argument (check_of parse_datetime now request)

-- the answer to a PUT of the document that is there
abbrev pub kept : Option Str → Str → Str → Response
kept mime stored etag = record {
  status = 200;
  etag = etag_header (some etag);
  content_type = content_type_of mime document;
  content = some stored;
}
