-- ===== src/Service/Guarded.antt =====
-- PUTs of a document with If-Match, when another client has changed the document in between.
use openxcap.Prelude.{
  ℕ, ◌≡◌, refl, ap, ◌∙◌, true, false, Option, none, some, [], Str, str_eq, str_eq_refl,
  if◌then◌else◌, Result, ok, err, arith,
}
use openxcap.Errors.{Fault, http}
use openxcap.HttpUtils.Tags.{IsPlainTag}
use openxcap.Preconditions.{Method}
use openxcap.Preconditions.Outcome.{tag_request, check_etag-tags}
use openxcap.Backend.{StatusResponse, Table, Check, Key, query_of}
use openxcap.Backend
use openxcap.Backend.Rows.{view, IsUnique}
use openxcap.Backend.Refinement.{Contents, set, write, seen, put_document-write}
use openxcap.Backend.Reached.{put_document-IsUnique}
use openxcap.Backend.Stored.{put_document-fresh}
use openxcap.AppUsage.{Application, Place, validate_document, put_document}
use openxcap.AppUsage.Attributes.{Lxml}
use openxcap.Service.{
  document, HttpRequest, Response, set_headers, content_type_of, etag_header, check_of, update_data,
  handle_update,
}
use openxcap.Service.Cycle.{handle_update-document}

pub seen-err : (r : Result Fault (StatusResponse × Table)) (e : Fault) → seen r ≡ err e → r ≡ err e
seen-err (err x) e h = ground arith
seen-err (ok (a, t)) e h = cc

pub seen-ok :
    (r : Result Fault (StatusResponse × Table)) (a : StatusResponse) (m : Contents)
    → seen r ≡ ok (a, m)
    → (t : Table) × (r ≡ ok (a, t))
seen-ok (err x) a m h = cc
seen-ok (ok (b, t)) a m h = (t, ground arith)

-- a PUT that wants one tag
abbrev pub wants : Str → HttpRequest → HttpRequest
wants tag request = record request {
  conditions = tag_request Method.http_put (some (tag, [])) none [];
}

module _ (parse_datetime : Str → Option ℕ) (now : ℕ) (tag : Str) (plain : IsPlainTag tag)
    (request : HttpRequest) where
  -- such a PUT goes through just where its tag is that of the document
  check_of-wants :
      (etag : Str)
      → check_of parse_datetime now (wants tag request) (some etag) true
        ≡ (if str_eq tag etag then ok tt else err (http 412))
  check_of-wants etag =
      check_etag-tags parse_datetime now Method.http_put (some (tag, [])) none [] etag true
        (plain, tt) tt
      ∙ ground arith

  module _ (place : Place) (k : Key) (q : query_of place.target ≡ ok (some k)) (rows : Table)
      (unique : IsUnique rows) (fresh stored etag : Str) (there : view rows k ≡ some (stored, etag))
      (other : str_eq stored request.body ≡ false) where
    abbrev guarded_put : Result Fault (StatusResponse × Table)
    guarded_put =
        Backend.put_document (check_of parse_datetime now (wants tag request)) place.target
          request.body fresh rows

    as_write :
        seen guarded_put
        ≡ write
            (check_of parse_datetime now (wants tag request))
            k
            request.body
            fresh
            (view rows)
            (some (stored, etag))
    as_write =
        put_document-write (check_of parse_datetime now (wants tag request)) place.target k q rows
          unique request.body fresh
        ∙ ap
            (write (check_of parse_datetime now (wants tag request)) k request.body fresh
              (view rows))
            there

    put-refused : str_eq tag etag ≡ false → guarded_put ≡ err (http 412)
    put-refused e =
        seen-err guarded_put (http 412) (as_write ∙ rw (other, check_of-wants etag, e) refl)

    put-accepted :
        str_eq tag etag ≡ true
        → (after : Table) × (guarded_put
            ≡ ok (
              record { code = 200; etag = some fresh; body = none; old_etag = some etag },
              after,
            ))
    put-accepted e =
        seen-ok guarded_put _ (set k (some (request.body, fresh)) (view rows))
          (as_write ∙ rw (other, check_of-wants etag, e) refl)

module _ (parse_datetime : Str → Option ℕ) (now : ℕ) (lxml : Lxml) (app : Application)
    (mime default_ns : Option Str) (place : Place) where
  abbrev update : HttpRequest → Str → Table → Result Fault (Response × Table)
  update request fresh rows =
      handle_update parse_datetime now lxml app mime default_ns place document request fresh rows

  pub handle_update-err :
      (request : HttpRequest) (fresh : Str) (rows : Table) (e : Fault)
      → validate_document app request.body ≡ ok tt
      → Backend.put_document
          (check_of parse_datetime now request)
          place.target
          request.body
          fresh
          rows
        ≡ err e
      → update request fresh rows ≡ err e
  unfolding handle_update update_data put_document
  handle_update-err request fresh rows e v h = rw (v, h) refl

  pub handle_update-ok :
      (request : HttpRequest) (fresh : Str) (rows after : Table) (r : StatusResponse)
      → validate_document app request.body ≡ ok tt
      → Backend.put_document
          (check_of parse_datetime now request)
          place.target
          request.body
          fresh
          rows
        ≡ ok (r, after)
      → update request fresh rows ≡ ok (set_headers mime document r, after)
  unfolding handle_update update_data put_document
  handle_update-ok request fresh rows after r v h = rw (v, h) refl

  -- A client has the tag of a document, and PUTs a valid document, another one than is there, with
  -- If-Match and that tag. Where the document is as it was, the PUT is answered by 200 and the ETag of
  -- a new tag. Where another client's PUT of another document has been answered in between, with a
  -- new tag of its own, it ends in 412, if its document differs from the other client's as well.
  pub handle_update-stale :
      (k : Key) (tag stored : Str) (request between : HttpRequest) (fresh later : Str)
      (rows after : Table) (response : Response)
      → query_of place.target ≡ ok (some k)
      → IsUnique rows
      → IsPlainTag tag
      → view rows k ≡ some (stored, tag)
      → validate_document app request.body ≡ ok tt
      → str_eq stored request.body ≡ false
      → str_eq stored between.body ≡ false
      → str_eq between.body request.body ≡ false
      → str_eq tag fresh ≡ false
      → update between fresh rows ≡ ok (response, after)
      → (update (wants tag request) later after ≡ err (http 412))
        × (done : Table) × (update (wants tag request) later rows
            ≡ ok (
              record {
                status = 200;
                etag = etag_header (some later);
                content_type = content_type_of mime document;
                content = none;
              },
              done,
            ))
  unfolding set_headers
  handle_update-stale k tag stored request between fresh later rows after response q u plain there
        valid apart apart' apart'' new h =
      let (r, p, a) =
        handle_update-document parse_datetime now lxml app mime default_ns place between fresh rows
          after response h in
      let unique =
        put_document-IsUnique rows after r u (check_of parse_datetime now between) place.target
          between.body fresh p in
      let (v, t) =
        put_document-fresh (check_of parse_datetime now between) place.target k between.body fresh
          rows after r q u p (λ old etag e. ground arith) in
      let (done, d) =
        put-accepted parse_datetime now tag plain request place k q rows u later stored tag there
          apart (str_eq_refl tag) in
      (
        handle_update-err (wants tag request) later after (http 412) valid (
            put-refused parse_datetime now tag plain request place k q after unique later
              between.body fresh v apart'' new),
        done,
        handle_update-ok (wants tag request) later rows done _ valid d,
      )
