-- ===== src/HttpUtils/Headers.antt =====
-- Headers that list entity tags.
use openxcap.Prelude.{
  ◌≡◌, ◌≢◌, refl, ap, ◌∙◌, false, List, [], ◌∷◌, map, Str, codes, All, Without, ok, split_on,
  split_on-join, join,
}
use openxcap.HttpUtils.{quote_string, ListedTag, one_tag, parse_all, parse_list_header}
use openxcap.HttpUtils.Tags.{IsPlainTag, parse_listed-quoted, no_comma-quoted}

-- the value of a header that lists strong tags
abbrev pub header_of : List Str → Str
header_of ts = join (codes ",") (map quote_string ts)

abbrev pub strong : Str → ListedTag
strong t = one_tag (record { tag = t; weak = false })

parse_all-quoted :
    (ts : List Str) → All IsPlainTag ts → parse_all (map quote_string ts) ≡ ok (map strong ts)
unfolding parse_all
parse_all-quoted [] h = refl
parse_all-quoted (t ∷ ts) h = rw (parse_listed-quoted t h.0, parse_all-quoted ts h.1) refl

All-no_comma : (ts : List Str) → All IsPlainTag ts → All (Without b',') (map quote_string ts)
All-no_comma [] h = tt
All-no_comma (t ∷ ts) h = (no_comma-quoted t h.0, All-no_comma ts h.1)

not_empty : (value : Str) → value ≢ [] → parse_list_header value ≡ parse_all (split_on b',' value)
unfolding parse_list_header
not_empty [] h = absurd (h refl)
not_empty (c ∷ value) h = refl

pub header_of-ne-nil : (t : Str) (ts : List Str) → header_of (t ∷ ts) ≢ []
unfolding join quote_string
header_of-ne-nil t [] = cc
header_of-ne-nil t (u ∷ ts) = cc

-- A header that lists strong tags of plain characters, with commas alone between them, is read as
-- these tags.
pub parse_list_header-header_of :
    (t : Str) (ts : List Str)
    → All IsPlainTag (t ∷ ts)
    → parse_list_header (header_of (t ∷ ts)) ≡ ok (map strong (t ∷ ts))
parse_list_header-header_of t ts h =
    not_empty (header_of (t ∷ ts)) (header_of-ne-nil t ts)
    ∙ (ap parse_all
          (split_on-join b',' (quote_string t) (map quote_string ts) (All-no_comma (t ∷ ts) h))
        ∙ parse_all-quoted (t ∷ ts) h)
