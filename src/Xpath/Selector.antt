-- ===== src/Xpath/Selector.antt =====
-- The texts of steps in xcap/xpath.py: Step.to_string, Step.__repr__, and
-- ElementSelector.replace_default_prefix.
use openxcap.Prelude.{
  ℕ, ◌+◌, Bool, true, false, ◌&&◌, ◌||◌, Option, none, some, List, [], ◌∷◌, ◌++◌, Str, codes,
  str_eq, join, if◌then◌else◌, ◌==◌, Result, ok, err, ◌>>=◌, decimal, any, not,
}
use openxcap.Xpath.{
  ℤ, pos, negsuc, Token, op, tag, namespace_selector, XpathError, key_error, type_error, StepName,
  star, qname, AttTest, Step,
}
use openxcap.Xpath.Quoting.{quoteattr, quoted_by}

-- a mapping from namespaces, None among them, to prefixes: the entry that was set last comes first
abbrev pub Prefixes : Type 0
Prefixes = List (Option Str × Str)

abbrev pub same_namespace : Option Str → Option Str → Bool
same_namespace none none = true
same_namespace (some a) (some b) = str_eq a b
same_namespace _ _ = false

unfoldable pub prefix_for : Option Str → Prefixes → Result XpathError Str
prefix_for ns [] = err key_error
prefix_for ns ((n, p) ∷ prefixes) = if same_namespace ns n then ok p else prefix_for ns prefixes

-- a token in a text: the object in place of 'namespace::*' is no text
abbrev pub text_of : Token → Result XpathError Str
text_of (op s) = ok s
text_of (tag s) = ok s
text_of namespace_selector = err type_error

unfoldable pub int_text : ℤ → Str
unfolding decimal
int_text (pos n) = decimal n
int_text (negsuc n) = b'-' ∷ decimal (n + 1)

abbrev with_prefix : Str → Str → Str
with_prefix [] name = name
with_prefix (c ∷ prefix) name = (c ∷ prefix) ++ b':' ∷ name

name_text : Prefixes → StepName → Result XpathError Str
unfolding prefix_for
name_text prefixes star = ok (codes "*")
name_text prefixes (qname ns t) = do
  prefix ← prefix_for ns prefixes
  name ← text_of t
  ok (with_prefix prefix name)

position_text : Option ℤ → Str
unfolding int_text
position_text none = []
position_text (some p) = b'[' ∷ (int_text p ++ codes "]")

-- the prefix of an attribute; an empty namespace has none
att_prefix : Prefixes → Option Str → Result XpathError Str
unfolding prefix_for
att_prefix prefixes (some (c ∷ ns)) = prefix_for (some (c ∷ ns)) prefixes
att_prefix prefixes _ = ok []

att_test_text : Prefixes → Option AttTest → Result XpathError Str
unfolding att_prefix quoteattr
att_test_text prefixes none = ok []
att_test_text prefixes (some t) = do
  prefix ← att_prefix prefixes t.namespace
  name ← text_of t.name
  value ← text_of t.value
  ok (codes "[@" ++ (with_prefix prefix name ++ b'=' ∷ (quoteattr value ++ codes "]")))

-- Step.to_string
unfoldable pub to_string : Prefixes → Step → Result XpathError Str
unfolding name_text position_text att_test_text
to_string prefixes s = do
  name ← name_text prefixes s.name
  test ← att_test_text prefixes s.att_test
  ok (name ++ (position_text s.position ++ test))

-- repr of a text of printable characters
escape_quote : ℕ → Str → Str
escape_quote q [] = []
escape_quote q (c ∷ s) =
    let rest = escape_quote q s in if c == q || c == b'\\' then b'\\' ∷ c ∷ rest else c ∷ rest

unfoldable pub repr : Str → Str
unfolding escape_quote
repr s =
    if any (λ c. c == b'\'') s && not (any (λ c. c == b'"') s)
    then quoted_by b'"' (escape_quote b'"' s)
    else quoted_by b'\'' (escape_quote b'\'' s)

abbrev repr_token : Token → Str
unfolding repr
repr_token (op s) = repr s
repr_token (tag s) = repr s
repr_token namespace_selector = codes "NamespaceSelector()"

abbrev repr_namespace : Option Str → Str
unfolding repr
repr_namespace none = codes "None"
repr_namespace (some ns) = repr ns

abbrev repr_pair : Option Str → Token → Str
repr_pair ns name =
    codes "(" ++ (repr_namespace ns ++ (codes ", " ++ (repr_token name ++ codes ")")))

repr_name : StepName → Str
unfolding repr
repr_name star = repr (codes "*")
repr_name (qname ns name) = repr_pair ns name

repr_position : Option ℤ → Str
unfolding int_text
repr_position none = codes "None"
repr_position (some p) = int_text p

-- the arguments behind the name, without those at the end that are None
repr_rest : Option ℤ → Option AttTest → Str
unfolding repr_position
repr_rest none none = []
repr_rest (some p) none = codes ", " ++ repr_position (some p)
repr_rest p (some t) =
    codes ", "
    ++ (repr_position p
        ++ (codes ", " ++ (repr_pair t.namespace t.name ++ (codes ", " ++ repr_token t.value))))

-- Step.__repr__
unfoldable pub step_repr : Step → Str
unfolding repr_name repr_rest
step_repr s = codes "Step(" ++ (repr_name s.name ++ (repr_rest s.position s.att_test ++ codes ")"))

-- One step of ElementSelector.replace_default_prefix: a name '*' does not unpack into two values, so
-- such a step is printed by str(), which is its repr().
unfoldable pub step_text : Prefixes → Step → Result XpathError Str
unfolding to_string step_repr
step_text prefixes s = elim s.name [ star ↦ ok (step_repr s) | qname ns n ↦ to_string prefixes s ]

step_texts : Prefixes → List Step → Result XpathError (List Str)
unfolding step_text
step_texts prefixes [] = ok []
step_texts prefixes (s ∷ steps) = do
  t ← step_text prefixes s
  ts ← step_texts prefixes steps
  ok (t ∷ ts)

-- ElementSelector.replace_default_prefix
unfoldable pub steps_text : Prefixes → List Step → Result XpathError Str
unfolding step_texts
steps_text prefixes steps = do ts ← step_texts prefixes steps; ok (b'/' ∷ join (codes "/") ts)
