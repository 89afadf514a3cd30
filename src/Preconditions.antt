-- ===== src/Preconditions.antt =====
-- The conditional headers of xcap/services/xcap_service.py: XCAPResource.checkPreconditions and
-- check_etag. `parse_datetime` (strptime) and the clock are parameters, and a date is its timestamp.
pub mod Outcome
pub mod Dates
use openxcap.Prelude.{
  ℕ, Bool, true, false, not, ◌&&◌, ◌||◌, Option, none, some, List, [], ◌∷◌, any, Str, codes,
  is_empty, if◌then◌else◌, ◌==◌, ltb, leb, Result, ok, err, ◌>>=◌, handled,
}
use openxcap.Errors.{Fault, http, value_error, attribute_error, assertion_error}
use openxcap.HttpUtils.{ETag, match, ListedTag, any_tag, one_tag, parse_list_header, HeaderError}

pub data Method : Type 0 where
  http_get http_head http_put http_delete http_post : Method

-- the headers that the conditions are in; one that is missing or empty is the empty text
pub record Request : Type 0 where
  pub method : Method
  pub if_match : Str
  pub if_unmodified_since : Str
  pub if_modified_since : Str
  pub if_none_match : Str
  pub range : Str

-- the response that an output filter would hand over
pub record ResponseHead : Type 0 where
  pub status : ℕ
  pub etag : Str

-- the parameter `etag`, which a response makes a list
pub data EtagArgument : Type 0 where
  no_etag : EtagArgument
  one_etag : ETag → EtagArgument
  listed_etags : List ListedTag → EtagArgument

abbrev pub is_read : Method → Bool
is_read http_get = true
is_read http_head = true
is_read _ = false

abbrev pub is_star : ListedTag → Bool
is_star any_tag = true
is_star (one_tag e) = false

-- etag.match(etagmatch, strongCompare=not allowWeak): '*' is no ETag
abbrev matches_listed : ETag → Bool → ListedTag → Bool
matches_listed e allow_weak any_tag = false
matches_listed e allow_weak (one_tag t) = match e t (not allow_weak)

-- the local function matchETag
unfoldable pub match_etag : Bool → EtagArgument → List ListedTag → Bool → Result Fault Bool
unfolding match
match_etag exists etag tags allow_weak = if exists && any is_star tags then ok true else elim etag [
  | no_etag ↦ ok false
  | one_etag e ↦ ok ((allow_weak || not e.weak) && any (λ t. matches_listed e allow_weak t) tags)
  | listed_etags l ↦
      if allow_weak
      then (if is_empty tags then ok false else err attribute_error)
      else err attribute_error
]

abbrev pub tags_of : Str → Result Fault (List ListedTag)
tags_of value = handled (λ e. value_error) (parse_list_header value)

-- `if not matchETag(...): raise` and `if matchETag(...): raise`
abbrev pub unless : Bool → Fault → Result Fault (Unit {0})
unless true f = ok tt
unless false f = err f

-- if-match
unfoldable pub check_if_match : Request → Bool → EtagArgument → Result Fault (Unit {0})
unfolding match_etag parse_list_header
check_if_match request exists etag = if is_empty request.if_match then ok tt else do
  tags ← tags_of request.if_match
  matched ← match_etag exists etag tags false
  unless matched (http 412)

-- not lastModified or unmod_since and lastModified > unmod_since
abbrev has_changed : Option ℕ → Option ℕ → Bool
has_changed none unmod_since = true
has_changed (some last) none = false
has_changed (some last) (some since) = ltb since last

both_dates : ℕ → Option ℕ → Option ℕ → Bool
both_dates now (some ims) (some last) = ltb ims now && leb last ims
both_dates now _ _ = false

-- the answer to a condition that fails
abbrev pub refusal : Request → Fault
refusal request = if is_read request.method then http 304 else http 412

-- notModified is not False
abbrev pub not_false : Option Bool → Bool
not_false none = true
not_false (some b) = b

abbrev pub is_true : Option Bool → Bool
is_true none = false
is_true (some b) = b

-- a weak tag is good for a read of the whole
abbrev pub can_be_weak : Request → Bool
can_be_weak request = is_read request.method && is_empty request.range

is_checked : ℕ → Bool
is_checked status = (leb 200 status && leb status 299) || status == 412

has_no_etag : EtagArgument → Option ℕ → Bool
has_no_etag no_etag none = true
has_no_etag _ _ = false

-- str(tag): the tag of a document that does not exist is None
abbrev pub etag_of : Option Str → ETag
etag_of none = record { tag = codes "None"; weak = false }
etag_of (some t) = record { tag = t; weak = false }

module _ (parse_datetime : Str → Option ℕ) (now : ℕ) where
  -- if-unmodified-since
  unfoldable pub check_unmodified : Request → Option ℕ → Result Fault (Unit {0})
  check_unmodified request last_modified =
      if is_empty request.if_unmodified_since
      then ok tt
      else unless (not (has_changed last_modified (parse_datetime request.if_unmodified_since)))
          (http 412)

  -- notModified: None, or a truth value
  unfoldable pub not_modified : Request → Option ℕ → Option Bool
  unfolding both_dates
  not_modified request last_modified =
      if is_empty request.if_modified_since
      then none
      else some (both_dates now (parse_datetime request.if_modified_since) last_modified)

  -- if-none-match and if-modified-since
  unfoldable pub check_none_match :
      Request → Bool → EtagArgument → Option ℕ → Result Fault (Unit {0})
  unfolding match_etag parse_list_header not_modified
  check_none_match request exists etag last_modified =
      let unmodified = not_modified request last_modified in
      if is_empty request.if_none_match
      then unless (not (is_true unmodified)) (refusal request)
      else do
        tags ← tags_of request.if_none_match
        if not_false unmodified
            then (do
              matched ← match_etag exists etag tags (can_be_weak request)
              unless (not matched) (refusal request))
            else ok tt

  -- the conditions, in their order
  unfoldable pub check_conditions :
      Request → Bool → EtagArgument → Option ℕ → Result Fault (Unit {0})
  unfolding check_if_match check_unmodified check_none_match
  check_conditions request exists etag last_modified = do
    done ← check_if_match request exists etag
    done ← check_unmodified request last_modified
    check_none_match request exists etag last_modified

  -- checkPreconditions. With a response, `lastModified` stays None: the test in front of its
  -- parsing reads the argument, which the assertion has found to be None.
  unfoldable pub check_preconditions :
      Request → Option ResponseHead → Bool → EtagArgument → Option ℕ → Result Fault (Unit {0})
  unfolding check_conditions is_checked has_no_etag parse_list_header
  check_preconditions request none exists etag last_modified =
      check_conditions request exists etag last_modified
  check_preconditions request (some r) exists etag last_modified =
      if not (has_no_etag etag last_modified)
      then err assertion_error
      else if is_checked r.status
      then (do tags ← tags_of r.etag; check_conditions request exists (listed_etags tags) none)
      else ok tt

  -- check_etag
  unfoldable pub check_etag : Request → Option Str → Bool → Result Fault (Unit {0})
  unfolding check_preconditions
  check_etag request etag exists =
      check_preconditions request none exists (one_etag (etag_of etag)) none
