-- ===== src/HttpUtils.antt =====
-- xcap/http_utils.py: tokens of header values, quoted strings, and entity tags.
pub mod Quoted
pub mod Tags
pub mod Headers
use openxcap.Prelude.{
  ℕ, zero, suc, ◌+◌, Bool, true, false, not, ◌&&◌, ◌||◌, Option, none, some, List, [], ◌∷◌, ◌++◌,
  any, reverse, Str, codes, str_eq, is_empty, split_on, join, strip, strip_left, if◌then◌else◌,
  ◌==◌, ltb, leb, Result, ok, err, ◌>>=◌,
}

-- ValueError, which all the parsers raise
pub data HeaderError : Type 0 where
  value_error : HeaderError

-- tokens: the characters that separate
abbrev pub is_separator : ℕ → Bool
is_separator c = any (λ x. c == x) (codes "()<>@,;:\\\"/[]?={} \t")

-- ctls, and ' ' or a tab
abbrev pub is_control : ℕ → Bool
is_control c = ltb c 32

abbrev pub is_blank : ℕ → Bool
is_blank c = c == b' ' || c == 9

-- str.lower() on the characters of a header value, which are those of latin-1
abbrev pub lower_char : ℕ → ℕ
lower_char c =
    if (leb 65 c && leb c 90) || (leb 192 c && (leb c 222 && not (c == 215))) then c + 32 else c

unfoldable pub lower : Str → Str
lower [] = []
lower (c ∷ s) = lower_char c ∷ lower s

-- inSpaces: -1, False, True
pub data Spaces : Type 0 where
  at_start no yes : Spaces

-- The variables of the loop of `tokenize`. `word` is string[start:cur], without the backslash that
-- has just been read where `qpair` is set; `qstring` counts only where `quoted` is set.
pub record Scan : Type 0 where
  pub word : Str
  pub quoted : Bool
  pub qpair : Bool
  pub spaces : Spaces
  pub qstring : Str

abbrev pub scan_start : Scan
scan_start = record { word = []; quoted = false; qpair = false; spaces = at_start; qstring = [] }

-- the word before a separator or the end, if there is one
unfoldable pub flush : Bool → Str → List Str
unfolding lower
flush fold_case [] = []
flush fold_case (c ∷ w) = (if fold_case then lower (c ∷ w) else c ∷ w) ∷ []

-- `if quoted:`, for one character
in_quotes : Scan → ℕ → List Str × Scan
in_quotes s x =
    if s.qpair
    then ([], record s { qpair = false; qstring = s.qstring ++ (s.word ++ x ∷ []); word = [] })
    else if x == b'\\'
    then ([], record s { qpair = true })
    else if x == b'"'
    then ((s.qstring ++ s.word) ∷ [], record s { quoted = false; qstring = []; word = [] })
    else ([], record s { word = s.word ++ x ∷ [] })

abbrev after_blank : Spaces → Spaces
after_blank no = yes
after_blank at_start = at_start
after_blank yes = yes

-- `elif x in tokens:`
at_separator : Bool → Scan → ℕ → List Str × Scan
unfolding flush
at_separator fold_case s x =
    let out = flush fold_case s.word in
    if x == b'"'
    then (out, record s { word = []; quoted = true; qstring = []; spaces = no })
    else if is_blank x
    then (out, record s { word = []; spaces = after_blank s.spaces })
    else (out ++ (x ∷ []) ∷ [], record s { word = []; spaces = at_start })

abbrev space_token : Spaces → List Str
space_token yes = codes " " ∷ []
space_token at_start = []
space_token no = []

-- one round of the loop
unfoldable pub scan_char : Bool → Scan → ℕ → Result HeaderError (List Str × Scan)
unfolding in_quotes at_separator
scan_char fold_case s x =
    if s.quoted
    then ok (in_quotes s x)
    else if is_separator x
    then ok (at_separator fold_case s x)
    else if is_control x
    then err value_error
    else ok (space_token s.spaces, record s { word = s.word ++ x ∷ []; spaces = no })

-- behind the loop
scan_end : Bool → Scan → Result HeaderError (List Str)
unfolding flush
scan_end fold_case s = if s.qpair || s.quoted then err value_error else ok (flush fold_case s.word)

-- the loop and what is behind it; an exception ends the consumer of the generator too, so the
-- tokens before it are lost
unfoldable pub scan_from : Bool → Scan → Str → Result HeaderError (List Str)
unfolding scan_char scan_end
scan_from fold_case s [] = scan_end fold_case s
scan_from fold_case s (x ∷ text) = do
  (out, s1) ← scan_char fold_case s x
  rest ← scan_from fold_case s1 text
  ok (out ++ rest)

-- tokenize(header, foldCase)
unfoldable pub tokenize : List Str → Bool → Result HeaderError (List Str)
unfolding join scan_from
tokenize header fold_case = scan_from fold_case scan_start (join (codes ",") header)

-- quoteString: both replacements at once, since the first leaves the quotes alone and the second
-- the backslashes
unfoldable pub escape_string : Str → Str
escape_string [] = []
escape_string (c ∷ s) =
    let rest = escape_string s in if c == b'\\' || c == b'"' then b'\\' ∷ c ∷ rest else c ∷ rest

unfoldable pub quote_string : Str → Str
unfolding escape_string
quote_string s = b'"' ∷ (escape_string s ++ codes "\"")

pub record ETag : Type 0 where
  pub tag : Str
  pub weak : Bool

-- ETag.match
unfoldable pub match : ETag → ETag → Bool → Bool
unfolding str_eq
match self other strong_compare =
    if not (str_eq other.tag self.tag)
    then false
    else if strong_compare && (other.weak || self.weak)
    then false
    else true

-- ETag.parse
unfoldable pub parse_etag : List Str → Result HeaderError ETag
unfolding str_eq
parse_etag (t ∷ []) = ok (record { tag = t; weak = false })
parse_etag (w ∷ s ∷ t ∷ []) =
    if str_eq w (codes "w") && str_eq s (codes "/")
    then ok (record { tag = t; weak = true })
    else err value_error
parse_etag _ = err value_error

-- ETag.generate
unfoldable pub generate : ETag → Str
unfolding quote_string
generate e = if e.weak then codes "W/" ++ quote_string e.tag else quote_string e.tag

-- an element of a list of tags: '*', or a tag
pub data ListedTag : Type 0 where
  any_tag : ListedTag
  one_tag : ETag → ListedTag

-- the body of the loop of parse_list_header
unfoldable pub parse_listed : Str → Result HeaderError ListedTag
unfolding strip str_eq tokenize parse_etag
parse_listed token =
    let stripped = strip (λ c. c == b'"') token in
    if str_eq stripped (codes "*")
    then ok any_tag
    else do tokens ← tokenize (stripped ∷ []) true; e ← parse_etag tokens; ok (one_tag e)

unfoldable pub parse_all : List Str → Result HeaderError (List ListedTag)
unfolding parse_listed
parse_all [] = ok []
parse_all (t ∷ tokens) = do e ← parse_listed t; rest ← parse_all tokens; ok (e ∷ rest)

-- parse_list_header; a missing header is like an empty one
unfoldable pub parse_list_header : Str → Result HeaderError (List ListedTag)
unfolding split_on parse_all
parse_list_header [] = ok []
parse_list_header (c ∷ value) = parse_all (split_on b',' (c ∷ value))
