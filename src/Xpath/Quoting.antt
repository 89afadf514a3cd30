-- ===== src/Xpath/Quoting.antt =====
-- quoteattr of xml.sax.saxutils, as Step.to_string and the error bodies of xcap/errors.py use it.
use openxcap.Prelude.{ℕ, [], ◌∷◌, ◌++◌, Str, codes, if◌then◌else◌, ◌==◌, any}

-- escape() with the entities of quoteattr, for one character
unfoldable pub escape_char : ℕ → Str
escape_char c =
    if c == b'&'
    then codes "&amp;"
    else if c == b'>'
    then codes "&gt;"
    else if c == b'<'
    then codes "&lt;"
    else if c == b'\n'
    then codes "&#10;"
    else if c == 13
    then codes "&#13;"
    else if c == 9
    then codes "&#9;"
    else c ∷ []

unfoldable pub escape : Str → Str
unfolding escape_char
escape [] = []
escape (c ∷ s) = escape_char c ++ escape s

-- s.replace('"', "&quot;")
unfoldable pub hide_quotes : Str → Str
hide_quotes [] = []
hide_quotes (c ∷ s) = (if c == b'"' then codes "&quot;" else c ∷ []) ++ hide_quotes s

abbrev pub quoted_by : ℕ → Str → Str
quoted_by q s = q ∷ (s ++ q ∷ [])

-- the quotes that `text` needs, once it is escaped
unfoldable pub quote : Str → Str
unfolding hide_quotes
quote text =
    if any (λ c. c == b'"') text
    then (if any (λ c. c == b'\'') text
        then quoted_by b'"' (hide_quotes text)
        else quoted_by b'\'' text)
    else quoted_by b'"' text

unfoldable pub quoteattr : Str → Str
unfolding escape quote
quoteattr text = quote (escape text)
