-- ===== src/Service/Cycle.antt =====
-- A GET of a document after a PUT of it.
use openxcap.Prelude.{
  ℕ, ◌≡◌, refl, ap, ◌∙◌, true, Bool, Option, none, some, [], Str, codes, str_eq, ok, arith,
  Result-cases, inl, inr,
}
use openxcap.Preconditions.{
  Method, check_etag, check_preconditions, check_conditions, check_if_match, check_unmodified,
  check_none_match, not_modified,
}
use openxcap.Preconditions
use openxcap.Backend.{StatusResponse, Table, Check, Key, query_of}
use openxcap.Backend
use openxcap.Backend.Rows.{view, IsUnique}
use openxcap.Backend.Refinement.{read, get_document-read}
use openxcap.Backend.Reached.{put_document-IsUnique}
use openxcap.Backend.Stored.{put_document-HasTag}
use openxcap.AppUsage.{Application, Place, validate_document, get_document, put_document}
use openxcap.AppUsage.Attributes.{Lxml}
use openxcap.Service.{
  document, HttpRequest, Response, one_argument, set_headers, check_of, get_data, update_data,
  handle_get, handle_update,
}

-- no conditional headers
abbrev pub unconditional : Method → Preconditions.Request
unconditional method = record {
  method = method;
  if_match = [];
  if_unmodified_since = [];
  if_modified_since = [];
  if_none_match = [];
  range = [];
}

pub check_etag-unconditional :
    (parse_datetime : Str → Option ℕ) (now : ℕ) (method : Method) (etag : Option Str)
    (exists : Bool)
    → check_etag parse_datetime now (unconditional method) etag exists ≡ ok tt
unfolding check_etag check_preconditions check_conditions check_if_match check_unmodified
    check_none_match not_modified
check_etag-unconditional parse_datetime now method etag exists = refl

-- a validated PUT is one of the storage
pub validated-put :
    (app : Application) (check : Check) (place : Place) (doc fresh : Str) (rows : Table)
    (r : StatusResponse × Table)
    → put_document app check place doc fresh rows ≡ ok r
    → Backend.put_document check place.target doc fresh rows ≡ ok r
unfolding put_document
validated-put app check place doc fresh rows r h = elim (Result-cases (validate_document app doc)) [
  | inl (x, e) ↦ cc (rw e at h)
  | inr (d, e) ↦ rw e at h
]

module _ (parse_datetime : Str → Option ℕ) (now : ℕ) (lxml : Lxml) (app : Application)
    (mime default_ns : Option Str) (place : Place) where
  -- what a PUT of a document did
  pub handle_update-document :
      (request : HttpRequest) (fresh : Str) (rows after : Table) (response : Response)
      → handle_update parse_datetime now lxml app mime default_ns place document request fresh rows
        ≡ ok (response, after)
      → (r : StatusResponse) × (Backend.put_document
            (check_of parse_datetime now request)
            place.target
            request.body
            fresh
            rows
          ≡ ok (r, after))
        × (response ≡ set_headers mime document r)
  unfolding handle_update update_data
  handle_update-document request fresh rows after response h =
      elim (Result-cases
        (put_document app (check_of parse_datetime now request) place request.body fresh rows)) [
          | inl (x, e) ↦ cc (rw e at h)
          | inr ((r, t), e) ↦
              let q = rw e at h in
              let same : t ≡ after = ground arith in
              (
                r,
                validated-put app (check_of parse_datetime now request) place request.body fresh
                      rows (r, t) e
                    ∙ ap (λ (x : Table). ok (r, x)) same,
                ground arith,
              )
        ]

  get_data-stored :
      (k : Key) (method : Method) (other : HttpRequest) (doc etag : Str) (rows : Table)
      → str_eq place.context (codes "users") ≡ true
      → query_of place.target ≡ ok (some k)
      → IsUnique rows
      → view rows k ≡ some (doc, etag)
      → get_data parse_datetime now lxml app mime default_ns place document
          (record other { conditions = unconditional method })
          rows
        ≡ ok (record { code = 200; etag = some etag; body = some doc; old_etag = none })
  unfolding get_data get_document
  get_data-stored k method other doc etag rows c q u v =
      let check =
        one_argument
          (check_of parse_datetime now (record other { conditions = unconditional method })) in
      rw c (get_document-read check place.target k q rows u ∙ ap (read check) v)

  -- After a PUT of a document that is answered, a GET without conditions is answered by 200, with the
  -- document that was PUT, and with the ETag and the Content-Type of the answer to the PUT.
  pub handle_get-update :
      (k : Key) (method : Method) (request other : HttpRequest) (fresh : Str) (rows after : Table)
      (response : Response)
      → str_eq place.context (codes "users") ≡ true
      → query_of place.target ≡ ok (some k)
      → IsUnique rows
      → handle_update parse_datetime now lxml app mime default_ns place document request fresh rows
        ≡ ok (response, after)
      → handle_get parse_datetime now lxml app mime default_ns place document
          (record other { conditions = unconditional method })
          after
        ≡ ok (record response { status = 200; content = some request.body })
  unfolding handle_get set_headers
  handle_get-update k method request other fresh rows after response c q u h =
      let (r, p, a) = handle_update-document request fresh rows after response h in
      let (etag, v, t) =
        put_document-HasTag (check_of parse_datetime now request) place.target k request.body fresh
          rows after r q u p in
      let unique =
        put_document-IsUnique rows after r u (check_of parse_datetime now request) place.target
          request.body fresh p in
      rw (get_data-stored k method other request.body etag after c q unique v, a, t) refl
