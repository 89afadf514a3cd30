-- ===== src/Xpath/Tokens.antt =====
-- XPathTokenizer.tokens of xcap/xpath.py. The scanner of lxml (`ElementPath.xpath_tokenizer`) is a
-- parameter: it returns the pairs of texts that it yields, or none for a SyntaxError.
use openxcap.Prelude.{
  ℕ, Bool, true, false, ◌&&◌, ◌||◌, Option, none, some, List, [], ◌∷◌, reverse, Str, codes,
  split_first, is_empty, if◌then◌else◌, ◌==◌, Result, ok, err, ◌>>=◌, insert, has_key,
}
use openxcap.Xpath.{
  Token, op, tag, namespace_selector, XpathError, node_parsing_error, token_is, Namespaces,
}

abbrev pub Scanner : Type 0
Scanner = Str → Namespaces → Option (List (Str × Str))

-- `sub in s`
unfoldable pub contains : Str → Str → Bool
contains sub s = elim (split_first sub s) [ none ↦ false | some _ ↦ true ]

abbrev is_quote : ℕ → Bool
is_quote c = c == b'"' || c == b'\''

-- s[1:-1] between two equal quotes; the last character is at the head of the reversed rest
between_quotes : ℕ → Str → Result XpathError Str
between_quotes q [] = err node_parsing_error
between_quotes q (last ∷ middle) =
    if q == last && is_quote q then ok (reverse middle) else err node_parsing_error

unfoldable pub unquote_attr_value : Str → Result XpathError Str
unfolding between_quotes
unquote_attr_value [] = err node_parsing_error
unquote_attr_value (q ∷ s) = between_quotes q (reverse s)

-- one round of the loop: the token for a pair, where `after_equals` says that `prev == '='`
unfoldable pub make_token : Bool → Str × Str → Result XpathError Token
unfolding contains unquote_attr_value
make_token after_equals (o, t) =
    if contains (codes "namespace::") t
    then ok namespace_selector
    else if is_empty o
    then (if after_equals then (do u ← unquote_attr_value t; ok (tag u)) else ok (tag t))
    else (if after_equals then (do u ← unquote_attr_value o; ok (op u)) else ok (op o))

-- `prev` after a token: NamespaceSelector() leaves it as it was
abbrev pub next_after_equals : Bool → Token → Bool
next_after_equals before namespace_selector = before
next_after_equals before t = token_is t (codes "=")

unfoldable pub make_tokens : Bool → List (Str × Str) → Result XpathError (List Token)
unfolding make_token token_is
make_tokens after_equals [] = ok []
make_tokens after_equals (p ∷ ps) = do
  t ← make_token after_equals p
  ts ← make_tokens (next_after_equals after_equals t) ps
  ok (t ∷ ts)

-- the key 'namespace' that a selector with 'namespace::*' adds to the caller's dict
unfoldable pub with_namespace_key : Str → Namespaces → Namespaces
unfolding contains
with_namespace_key selector namespaces =
    if contains (codes "namespace::*") selector
    then (if has_key (codes "namespace") namespaces
        then namespaces
        else insert (codes "namespace") (codes "namespace") namespaces)
    else namespaces

abbrev scanned : Option (List (Str × Str)) → Result XpathError (List Token)
scanned none = err node_parsing_error
scanned (some ps) = make_tokens false ps

unfoldable pub tokens : Scanner → Str → Namespaces → Result XpathError (List Token)
unfolding make_tokens with_namespace_key
tokens scan selector namespaces = scanned (scan selector (with_namespace_key selector namespaces))
