-- ===== src/HttpUtils/Tags.antt =====
-- Entity tags in the headers that list them.
use openxcap.Prelude.{
  ℕ, ◌≡◌, ◌≢◌, refl, ap, ◌∙◌, sym, Bool, true, false, List, [], ◌∷◌, ◌++◌, append_assoc, append-nil,
  arith, Str, codes, All, All-append, strip-end, Without, ◌==◌, ok, err, ◌>>=◌, split_on-Without,
  strip, strip-around, str_eq, str_eq_iff, join,
}
use openxcap.HttpUtils.{
  value_error, Scan, no, Spaces, at_start, scan_from, scan_char, scan_end, in_quotes, at_separator,
  generate, flush, lower, lower_char, is_separator, is_control, tokenize, escape_string,
  quote_string, parse_etag, ListedTag, one_tag, parse_listed, parse_all, parse_list_header,
  space_token,
}

-- a character of a token that is in lower case already
abbrev pub IsPlainChar : ℕ → Type 0
IsPlainChar c = (is_separator c ≡ false) × ((is_control c ≡ false) × (lower_char c ≡ c))

-- such as a digest in hexadecimal
abbrev pub IsPlainTag : Str → Type 0
IsPlainTag t = All IsPlainChar t × ((t ≢ []) × (t ≢ codes "*"))

not_mark :
    (c : ℕ) → is_separator c ≡ false → ((c == b'"') ≡ false) × (((c == b'\\') ≡ false) × (c ≢ b','))
not_mark c h = ground arith

escape_string-plain : (t : Str) → All IsPlainChar t → escape_string t ≡ t
unfolding escape_string
escape_string-plain [] h = refl
escape_string-plain (c ∷ t) h =
    let m = not_mark c h.0.0 in rw (m.0, m.1.0) (ap (λ s. c ∷ s) (escape_string-plain t h.1))

lower-plain : (t : Str) → All IsPlainChar t → lower t ≡ t
unfolding lower
lower-plain [] h = refl
lower-plain (c ∷ t) h = ground (arith, lower-plain t h.1)

abbrev in_word : Spaces → Str → Scan
in_word s w = record { word = w; quoted = false; qpair = false; spaces = s; qstring = [] }

-- One character of a word.
scan_from-char :
    (s : Spaces) (w t : Str) (c : ℕ) (l : List Str)
    → IsPlainChar c
    → space_token s ≡ []
    → scan_from true (in_word no (w ++ c ∷ [])) t ≡ ok l
    → scan_from true (in_word s w) (c ∷ t) ≡ ok l
unfolding scan_from scan_char
scan_from-char s w t c l h e g = rw (h.0, h.1.0) (ground arith)

scan_from-plain :
    (w t : Str) → All IsPlainChar t → scan_from true (in_word no w) t ≡ ok (flush true (w ++ t))
unfolding scan_from scan_end
scan_from-plain w [] h = ap (λ x. ok (flush true x)) (sym (append-nil w))
scan_from-plain w (c ∷ t) h =
    scan_from-char no w t c (flush true (w ++ c ∷ t)) h.0 refl (
      scan_from-plain (w ++ c ∷ []) t h.1 ∙ ap (λ x. ok (flush true x)) (append_assoc w (c ∷ []) t))

tokenize-plain :
    (c : ℕ) (t : Str) → All IsPlainChar (c ∷ t) → tokenize ((c ∷ t) ∷ []) true ≡ ok ((c ∷ t) ∷ [])
unfolding tokenize join flush
tokenize-plain c t h =
    scan_from-char at_start [] t c (flush true (c ∷ t)) h.0 refl (scan_from-plain (c ∷ []) t h.1)
    ∙ ap (λ x. ok (x ∷ [])) (lower-plain (c ∷ t) h)

abbrev is_quote : ℕ → Bool
is_quote c = c == b'"'

not_quotes : (t : Str) → All IsPlainChar t → All (λ c. is_quote c ≡ false) t
not_quotes [] h = tt
not_quotes (c ∷ t) h = ((not_mark c h.0.0).0, not_quotes t h.1)

no_commas : (t : Str) → All IsPlainChar t → Without b',' t
no_commas [] h = tt
no_commas (c ∷ t) h = ((not_mark c h.0.0).1.1, no_commas t h.1)

str_eq-false : (s t : Str) → s ≢ t → str_eq s t ≡ false
str_eq-false s t h = ground (arith, str_eq_iff s t)

parse_listed-stripped :
    (token t : Str) (c : ℕ)
    → strip is_quote token ≡ c ∷ t
    → IsPlainTag (c ∷ t)
    → parse_listed token ≡ ok (one_tag (record { tag = c ∷ t; weak = false }))
unfolding parse_listed parse_etag
parse_listed-stripped token t c e h =
    let star = str_eq-false (c ∷ t) (codes "*") h.1.1 in rw (e, star, tokenize-plain c t h.0) refl

one_element :
    (value : Str) (c : ℕ)
    → Without b',' (c ∷ value)
    → parse_list_header (c ∷ value) ≡ parse_all ((c ∷ value) ∷ [])
unfolding parse_list_header
one_element value c h = ap parse_all (split_on-Without b',' (c ∷ value) h)

parse_all-one : (t : Str) (r : ListedTag) → parse_listed t ≡ ok r → parse_all (t ∷ []) ≡ ok (r ∷ [])
unfolding parse_all
parse_all-one t r h = rw h refl

parse_all-err : (t : Str) → parse_listed t ≡ err value_error → parse_all (t ∷ []) ≡ err value_error
unfolding parse_all
parse_all-err t h = rw h refl

Without-append : (k : ℕ) (a b : Str) → Without k a → Without k b → Without k (a ++ b)
Without-append k a b h g = All-append (λ x. x ≢ k) a b h g

-- A strong tag in a list.
pub parse_listed-quoted :
    (t : Str)
    → IsPlainTag t
    → parse_listed (quote_string t) ≡ ok (one_tag (record { tag = t; weak = false }))
unfolding quote_string
parse_listed-quoted [] h = absurd (h.1.0 refl)
parse_listed-quoted (c ∷ t) h =
    rw (escape_string-plain (c ∷ t) h.0)
      (parse_listed-stripped _ t c (strip-around is_quote b'"' c t refl (not_quotes (c ∷ t) h.0)) h)

pub no_comma-quoted : (t : Str) → IsPlainTag t → Without b',' (quote_string t)
unfolding quote_string
no_comma-quoted t h =
    rw (escape_string-plain t h.0)
      (ground arith, Without-append b',' t (codes "\"") (no_commas t h.0) (ground arith))

abbrev inside : Str → Scan
inside w = record { word = w; quoted = true; qpair = false; spaces = no; qstring = [] }

unclosed : (w t : Str) → All IsPlainChar t → scan_from true (inside w) t ≡ err value_error
unfolding scan_from scan_char in_quotes scan_end
unclosed w [] h = refl
unclosed w (c ∷ t) h =
    let m = not_mark c h.0.0 in
    rw (m.0, m.1.0) (ap (λ r. r >>= λ l. ok l) (unclosed (w ++ c ∷ []) t h.1))

weak_unclosed :
    (t : Str) → All IsPlainChar t → tokenize ((codes "W/\"" ++ t) ∷ []) true ≡ err value_error
unfolding tokenize join scan_from scan_char at_separator flush lower
weak_unclosed t h = rw (unclosed [] t h) refl

parse_listed-weak :
    (t : Str) → IsPlainTag t → parse_listed (codes "W/\"" ++ (t ++ codes "\"")) ≡ err value_error
unfolding parse_listed str_eq
parse_listed-weak t h =
    let cut = strip-end is_quote b'"' b'W' (codes "/\"") t refl refl h.1.0 (not_quotes t h.0) in
    rw cut (rw (weak_unclosed t h.0) refl)

-- A weak tag is refused by the reader of lists, although `generate` writes it and `ETag.parse` takes
-- it: the quote at its end is cut off, and the one in front of its text is not.
pub parse_list_header-weak :
    (t : Str)
    → IsPlainTag t
    → parse_list_header (generate (record { tag = t; weak = true })) ≡ err value_error
unfolding generate quote_string
parse_list_header-weak t h = rw (escape_string-plain t h.0) (
    one_element (codes "/\"" ++ (t ++ codes "\"")) b'W' (
      ground arith,
      (
        ground arith,
        (ground arith, Without-append b',' t (codes "\"") (no_commas t h.0) (ground arith)),
      ),
    )
    ∙ parse_all-err _ (parse_listed-weak t h))
