-- ===== src/Configuration.antt =====
-- xcap/configuration/datatypes.py: XCAPRootURI and ResponseCodeList. urlparse of urllib is a parameter.
pub mod Roots
use openxcap.Prelude.{
  ℕ, Bool, true, false, not, ◌&&◌, ◌||◌, Option, none, some, List, [], ◌∷◌, ◌++◌, any, Str, codes,
  str_eq, is_empty, starts_with, split_on, strip, strip_left, reverse, if◌then◌else◌, ◌==◌, leb,
  Result, ok, err, ◌>>=◌,
}
use openxcap.Errors.{Fault, value_error}
use openxcap.HttpUtils.{lower}
use openxcap.Xpath.{ℤ, pos, negsuc}
use openxcap.Xpath.Reader.{int_of}
use openxcap.Xpath.Node.{is_space}

-- scheme and netloc of urlparse, where `none` is a ValueError
abbrev pub Urlparse : Type 0
Urlparse = Str → Option (Str × Str)

abbrev strip_right : Str → Str
unfolding strip_left
strip_right s = reverse (strip_left is_space (reverse s))

-- re.split(r'\s*,\s*', value): the white space around a comma goes with it
split_rest : List Str → List Str
unfolding strip strip_left
split_rest [] = []
split_rest (p ∷ []) = strip_left is_space p ∷ []
split_rest (p ∷ q ∷ ps) = strip is_space p ∷ split_rest (q ∷ ps)

unfoldable pub split_commas : Str → List Str
unfolding split_on split_rest strip_right
split_commas value = elim (split_on b',' value) [
  | [] ↦ []
  | p ∷ [] ↦ p ∷ []
  | p ∷ q ∷ ps ↦ strip_right p ∷ split_rest (q ∷ ps)
]

-- u == uri or uri.startswith(u) or u.startswith(uri)
abbrev pub is_similar : Str → Str → Bool
is_similar u uri = str_eq u uri || (starts_with uri u || starts_with u uri)

abbrev is_http : Str × Str → Bool
is_http (scheme, host) =
    not (is_empty host) && (str_eq scheme (codes "http") || str_eq scheme (codes "https"))

-- the loop over the URIs, with those that are valid so far
unfoldable pub valid_uris : Urlparse → List Str → List Str → Result Fault (List Str)
unfolding str_eq starts_with
valid_uris urlparse valid [] = ok valid
valid_uris urlparse valid (uri ∷ uris) =
    let same = valid_uris urlparse valid uris in
    let more = valid_uris urlparse (valid ++ uri ∷ []) uris in
    elim (urlparse uri) [
      | none ↦ err value_error
      | some parts ↦
          if is_http parts then (if any (λ u. is_similar u uri) valid then same else more) else same
    ]

abbrev none_if_empty : List Str → Option (List Str)
none_if_empty [] = none
none_if_empty (u ∷ us) = some (u ∷ us)

-- XCAPRootURI: its `uris`
unfoldable pub xcap_root_uri : Urlparse → Option Str → Result Fault (Option (List Str))
unfolding valid_uris split_commas strip
xcap_root_uri urlparse none = ok none
xcap_root_uri urlparse (some value) =
    if is_empty (strip is_space value)
    then ok none
    else do uris ← valid_uris urlparse [] (split_commas value); ok (none_if_empty uris)

-- Code
code_of : Str → Result Fault ℕ
unfolding int_of
code_of text = elim (int_of text) [
  | err e ↦ err value_error
  | ok (negsuc n) ↦ err value_error
  | ok (pos n) ↦ if leb 100 n && leb n 999 then ok n else err value_error
]

codes_of : List Str → Result Fault (List ℕ)
unfolding code_of
codes_of [] = ok []
codes_of (c ∷ cs) = do n ← code_of c; ns ← codes_of cs; ok (n ∷ ns)

-- ResponseCodeList: all codes, or some
pub data ResponseCodeList : Type 0 where
  match_any : ResponseCodeList
  some_codes : List ℕ → ResponseCodeList

abbrev is_one_of : Str → List Str → Bool
is_one_of s l = any (λ x. str_eq x s) l

unfoldable pub response_code_list : Str → Result Fault ResponseCodeList
unfolding strip lower str_eq codes_of split_commas
response_code_list value =
    let v = lower (strip is_space value) in
    if is_one_of v (codes "all" ∷ codes "any" ∷ codes "yes" ∷ codes "*" ∷ [])
    then ok match_any
    else if is_one_of v (codes "none" ∷ codes "no" ∷ [])
    then ok (some_codes [])
    else do ns ← codes_of (split_commas v); ok (some_codes ns)

-- item in self._codes
unfoldable pub has_code : ResponseCodeList → ℕ → Bool
has_code match_any item = true
has_code (some_codes ns) item = any (λ n. n == item) ns
