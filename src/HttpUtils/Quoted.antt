-- ===== src/HttpUtils/Quoted.antt =====
-- Quoted strings and entity tags are read back.
use openxcap.Prelude.{
  ℕ, ◌≡◌, refl, ap, ◌∙◌, sym, ◌||◌, join, str_eq, Bool, true, false, List, [], ◌∷◌, ◌++◌,
  append_assoc, append-nil, arith, Str, codes, ◌==◌, Bool-cases, inl, inr, ok, ◌>>=◌,
}
use openxcap.HttpUtils.{
  Scan, no, scan_start, scan_from, scan_char, scan_end, at_separator, flush, lower, in_quotes,
  tokenize, escape_string, quote_string, ETag, parse_etag, generate,
}

abbrev inside : Str → Str → Scan
inside q w = record { word = w; quoted = true; qpair = false; spaces = no; qstring = q }

inside_escaped :
    (f : Bool) (q w t : Str) (c : ℕ) (l : List Str)
    → scan_from f (inside (q ++ (w ++ c ∷ [])) []) t ≡ ok l
    → scan_from f (inside q w) (b'\\' ∷ c ∷ t) ≡ ok l
unfolding scan_from scan_char in_quotes
inside_escaped f q w t c l h = ground arith

inside_plain :
    (f : Bool) (q w t : Str) (c : ℕ) (l : List Str)
    → (c == b'\\') ≡ false
    → (c == b'"') ≡ false
    → scan_from f (inside q (w ++ c ∷ [])) t ≡ ok l
    → scan_from f (inside q w) (c ∷ t) ≡ ok l
unfolding scan_from scan_char in_quotes
inside_plain f q w t c l e g h = rw (e, g) (ground arith)

escape-special :
    (c : ℕ) (s : Str)
    → (c == b'\\') || (c == b'"') ≡ true
    → escape_string (c ∷ s) ≡ b'\\' ∷ c ∷ escape_string s
unfolding escape_string
escape-special c s h = rw h refl

escape-plain :
    (c : ℕ) (s : Str)
    → (c == b'\\') || (c == b'"') ≡ false
    → escape_string (c ∷ s) ≡ c ∷ escape_string s
unfolding escape_string
escape-plain c s h = rw h refl

inside_end : (f : Bool) (q w : Str) → scan_from f (inside q w) (codes "\"") ≡ ok ((q ++ w) ∷ [])
unfolding scan_from scan_char in_quotes scan_end flush
inside_end f q w = refl

-- Inside quotes, an escaped text and the quote behind it give that text.
scan_from-inside :
    (f : Bool) (q w s : Str)
    → scan_from f (inside q w) (escape_string s ++ codes "\"") ≡ ok ((q ++ (w ++ s)) ∷ [])
unfolding escape_string
scan_from-inside f q w [] = inside_end f q w ∙ ap (λ t. ok ((q ++ t) ∷ [])) (sym (append-nil w))
scan_from-inside f q w (c ∷ s) = elim (Bool-cases ((c == b'\\') || (c == b'"'))) [
  | inl e ↦ rw (escape-special c s e) (
      inside_escaped f q w (escape_string s ++ codes "\"") c _ (
        scan_from-inside f (q ++ (w ++ c ∷ [])) [] s
        ∙ ap (λ t. ok (t ∷ []))
            (append_assoc q (w ++ c ∷ []) s ∙ ap (λ t. q ++ t) (append_assoc w (c ∷ []) s))))
  | inr e ↦ rw (escape-plain c s e) (
      inside_plain f q w (escape_string s ++ codes "\"") c _ (ground arith) (ground arith) (
        scan_from-inside f q (w ++ c ∷ []) s
        ∙ ap (λ t. ok ((q ++ t) ∷ [])) (append_assoc w (c ∷ []) s)))
]

open_quote :
    (f : Bool) (t : Str) (l : List Str)
    → scan_from f (inside [] []) t ≡ ok l
    → scan_from f scan_start (b'"' ∷ t) ≡ ok l
unfolding scan_from scan_char at_separator flush
open_quote f t l h = ground arith

-- A quoted string is one token, the text that was quoted, whatever it is.
pub tokenize-quote_string : (f : Bool) (s : Str) → tokenize (quote_string s ∷ []) f ≡ ok (s ∷ [])
unfolding tokenize quote_string join
tokenize-quote_string f s =
    open_quote f (escape_string s ++ codes "\"") _ (scan_from-inside f [] [] s)

weak_prefix :
    (t : Str) (l : List Str)
    → scan_from true scan_start t ≡ ok l
    → scan_from true scan_start (codes "W/" ++ t) ≡ ok (codes "w" ∷ codes "/" ∷ l)
unfolding scan_from scan_char at_separator flush lower
weak_prefix t l h = rw h refl

parse_etag-tag :
    (t : Str) (weak : Bool)
    → (tokenize (generate (record { tag = t; weak = weak }) ∷ []) true >>= parse_etag)
      ≡ ok (record { tag = t; weak = weak })
unfolding generate tokenize parse_etag str_eq join
parse_etag-tag t false = ap (λ r. r >>= parse_etag) (tokenize-quote_string true t)
parse_etag-tag t true =
    ap (λ r. r >>= parse_etag)
      (weak_prefix (quote_string t) (t ∷ []) (tokenize-quote_string true t))

-- A tag that is generated is read back, weak or not, whatever its text is.
pub parse_etag-generate : (e : ETag) → (tokenize (generate e ∷ []) true >>= parse_etag) ≡ ok e
parse_etag-generate e = parse_etag-tag e.tag e.weak
