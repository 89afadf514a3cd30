-- ===== src/Preconditions/Outcome.antt =====
-- What the conditions on entity tags decide.
use openxcap.Prelude.{
  ℕ, Bool, true, false, not, ◌&&◌, ◌≡◌, ◌≢◌, refl, Option, none, some, List, [], ◌∷◌, any, map, All,
  Str, is_empty, str_eq, if◌then◌else◌, ok, err, arith,
}
use openxcap.Errors.{http}
use openxcap.HttpUtils.{match}
use openxcap.HttpUtils.Tags.{IsPlainTag}
use openxcap.HttpUtils.Headers.{header_of, strong, parse_list_header-header_of, header_of-ne-nil}
use openxcap.Preconditions.{
  Method, is_read, is_star, Request, one_etag, match_etag, matches_listed, unless, check_if_match,
  check_unmodified, not_modified, check_none_match, check_conditions, check_preconditions, etag_of,
  check_etag,
}

-- `etag in tags`
abbrev pub is_in : Str → List Str → Bool
is_in etag tags = any (λ t. str_eq t etag) tags

no_star : (ts : List Str) → any is_star (map strong ts) ≡ false
no_star [] = refl
no_star (t ∷ ts) = no_star ts

match-strong :
    (etag t : Str) (weak : Bool)
    → match (record { tag = etag; weak = false }) (record { tag = t; weak = false }) weak
      ≡ str_eq t etag
unfolding match
match-strong etag t weak = ground arith

any-strong :
    (etag : Str) (w : Bool) (ts : List Str)
    → any (λ t. matches_listed (record { tag = etag; weak = false }) w t) (map strong ts)
      ≡ is_in etag ts
any-strong etag w [] = refl
any-strong etag w (t ∷ ts) = rw (match-strong etag t (not w), any-strong etag w ts) refl

match_etag-strong :
    (exists w : Bool) (etag : Str) (ts : List Str)
    → match_etag exists (one_etag (record { tag = etag; weak = false })) (map strong ts) w
      ≡ ok (is_in etag ts)
unfolding match_etag
match_etag-strong exists w etag ts =
    let n = no_star ts in let m = any-strong etag w ts in ground arith

-- a header that is missing, or lists tags
abbrev pub header? : Option (Str × List Str) → Str
header? none = []
header? (some (t, ts)) = header_of (t ∷ ts)

abbrev pub ArePlain : Option (Str × List Str) → Type 0
ArePlain none = Unit
ArePlain (some (t, ts)) = All IsPlainTag (t ∷ ts)

-- a request with conditions on tags only
abbrev pub tag_request : Method → Option (Str × List Str) → Option (Str × List Str) → Str → Request
tag_request method wanted unwanted range = record {
  method = method;
  if_match = header? wanted;
  if_unmodified_since = [];
  if_modified_since = [];
  if_none_match = header? unwanted;
  range = range;
}

-- what the conditions mean
abbrev pub is_wanted : Option (Str × List Str) → Str → Bool
is_wanted none etag = true
is_wanted (some (t, ts)) etag = is_in etag (t ∷ ts)

abbrev pub is_unwanted : Option (Str × List Str) → Str → Bool
is_unwanted none etag = false
is_unwanted (some (t, ts)) etag = is_in etag (t ∷ ts)

filled_of : (s : Str) → s ≢ [] → is_empty s ≡ false
filled_of [] h = absurd (h refl)
filled_of (c ∷ s) h = refl

pub filled : (t : Str) (ts : List Str) → is_empty (header_of (t ∷ ts)) ≡ false
filled t ts = filled_of (header_of (t ∷ ts)) (header_of-ne-nil t ts)

module _ (parse_datetime : Str → Option ℕ) (now : ℕ) where
  if_match-wanted :
      (method : Method) (wanted unwanted : Option (Str × List Str)) (range etag : Str)
      (exists : Bool)
      → ArePlain wanted
      → check_if_match
          (tag_request method wanted unwanted range)
          exists
          (one_etag (etag_of (some etag)))
        ≡ unless (is_wanted wanted etag) (http 412)
  unfolding check_if_match
  if_match-wanted method none unwanted range etag exists h = refl
  if_match-wanted method (some (t, ts)) unwanted range etag exists h =
      rw
        (
          filled t ts,
          parse_list_header-header_of t ts h,
          match_etag-strong exists false etag (t ∷ ts),
        )
        refl

  none_match-unwanted :
      (method : Method) (wanted unwanted : Option (Str × List Str)) (range etag : Str)
      (exists : Bool)
      → ArePlain unwanted
      → check_none_match parse_datetime now
          (tag_request method wanted unwanted range)
          exists
          (one_etag (etag_of (some etag)))
          none
        ≡ unless (not (is_unwanted unwanted etag)) (if is_read method then http 304 else http 412)
  unfolding check_none_match not_modified
  none_match-unwanted method wanted none range etag exists h = refl
  none_match-unwanted method wanted (some (t, ts)) range etag exists h =
      rw
        (
          filled t ts,
          parse_list_header-header_of t ts h,
          match_etag-strong exists (is_read method && is_empty range) etag (t ∷ ts),
        )
        refl

  -- With conditions on tags only, that list strong tags of plain characters, a request goes through
  -- just when the tag of the document is one of those in If-Match, if that is there, and none of
  -- those in If-None-Match. Otherwise it ends in 412, or in 304 where a read meets a tag that it
  -- does not want.
  pub check_etag-tags :
      (method : Method) (wanted unwanted : Option (Str × List Str)) (range etag : Str)
      (exists : Bool)
      → ArePlain wanted
      → ArePlain unwanted
      → check_etag parse_datetime now (tag_request method wanted unwanted range) (some etag) exists
        ≡ (if not (is_wanted wanted etag)
            then err (http 412)
            else if is_unwanted unwanted etag
            then err (if is_read method then http 304 else http 412)
            else ok tt)
  unfolding check_etag check_preconditions check_conditions check_unmodified
  check_etag-tags method wanted unwanted range etag exists hw hu =
      let one = if_match-wanted method wanted unwanted range etag exists hw in
      let two = none_match-unwanted method wanted unwanted range etag exists hu in
      rw (one, two) (ground arith)
