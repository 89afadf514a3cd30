-- ===== src/Preconditions/Dates.antt =====
-- What '*' and the dates do in a check of tags, which never has a date of its own.
use openxcap.Prelude.{
  ℕ, Bool, true, false, ◌&&◌, ◌≡◌, refl, Option, none, some, List, [], ◌∷◌, Str, codes,
  if◌then◌else◌, ok, err, arith,
}
use openxcap.Errors.{http}
use openxcap.HttpUtils.{any_tag}
use openxcap.HttpUtils.Headers.{parse_list_header-header_of}
use openxcap.Preconditions.{
  Method, is_read, Request, one_etag, match_etag, check_if_match, check_unmodified, not_modified,
  both_dates, refusal, check_none_match, check_conditions, check_preconditions, etag_of, check_etag,
}
use openxcap.Preconditions.Outcome.{header?, ArePlain, filled}

abbrev pub conditions : Method → Str → Str → Str → Str → Request
conditions method wanted unwanted unmodified modified = record {
  method = method;
  if_match = wanted;
  if_unmodified_since = unmodified;
  if_modified_since = modified;
  if_none_match = unwanted;
  range = [];
}

match_etag-star :
    (exists w : Bool) (etag : Option Str)
    → match_etag exists (one_etag (etag_of etag)) (any_tag ∷ []) w ≡ ok exists
unfolding match_etag
match_etag-star true w etag = refl
match_etag-star false true none = refl
match_etag-star false false none = refl
match_etag-star false true (some t) = refl
match_etag-star false false (some t) = refl

no_date : (now : ℕ) (ims : Option ℕ) → both_dates now ims none ≡ false
unfolding both_dates
no_date now none = refl
no_date now (some t) = refl

module _ (parse_datetime : Str → Option ℕ) (now : ℕ) (method : Method) (etag : Option Str) where
  -- If-Match with a star lets a request through just when there is a document, and If-None-Match with
  -- a star just when there is none.
  pub check_etag-star :
      (exists : Bool)
      → (check_etag parse_datetime now (conditions method (codes "*") [] [] []) etag exists
          ≡ (if exists then ok tt else err (http 412)))
        × (check_etag parse_datetime now (conditions method [] (codes "*") [] []) etag exists
            ≡ (if exists then err (refusal (conditions method [] (codes "*") [] [])) else ok tt))
  unfolding check_etag check_preconditions check_conditions check_if_match check_unmodified
      check_none_match not_modified
  check_etag-star exists =
      let a = match_etag-star exists false etag in
      let b = match_etag-star exists (is_read method && true) etag in
      (rw a (ground arith), rw b (ground arith))

  -- If-Modified-Since with any text makes the tags in If-None-Match count for nothing.
  pub check_etag-modified :
      (exists : Bool) (c : ℕ) (modified : Str) (unwanted : Option (Str × List Str))
      → ArePlain unwanted
      → check_etag parse_datetime now
          (conditions method [] (header? unwanted) [] (c ∷ modified))
          etag
          exists
        ≡ ok tt
  unfolding check_etag check_preconditions check_conditions check_if_match check_unmodified
      check_none_match not_modified
  check_etag-modified exists c modified none h =
      rw (no_date now (parse_datetime (c ∷ modified))) refl
  check_etag-modified exists c modified (some (t, ts)) h =
      rw
        (
          filled t ts,
          parse_list_header-header_of t ts h,
          no_date now (parse_datetime (c ∷ modified)),
        )
        refl
