-- ===== src/Xpath/Reader.antt =====
-- The readers of xcap/xpath.py. `lst` and `index` are one argument, the list of the tokens from
-- `index` on: `lst.get(index + k)` is its k-th element, and `index == len(lst)` its being empty.
pub mod Numbers
pub mod Written
pub mod Steps
pub mod Paths
pub mod Pairs
use openxcap.Prelude.{
  ℕ, zero, suc, ◌+◌, ◌-◌, ◌*◌, Bool, true, false, ◌&&◌, Option, none, some, List, [], ◌∷◌, Str,
  codes, is_empty, if◌then◌else◌, ◌==◌, leb, Result, ok, err, ◌>>=◌, lookup, length,
}
use openxcap.Xpath.{
  ℤ, pos, negsuc, Token, op, tag, namespace_selector, XpathError, node_parsing_error, value_error,
  index_error, key_error, attribute_error, type_error, token_is, Namespaces, StepName, star, qname,
  AttTest, Step, TerminalSelector, attribute_selector, ElementSelector,
}

-- `lst.get(index) == s`
unfoldable pub next_is : Str → List Token → Bool
unfolding token_is
next_is s [] = false
next_is s (t ∷ _) = token_is t s

-- namespaces[token]: NamespaceSelector() is no key
abbrev pub namespace_of : Namespaces → Token → Option Str
namespace_of namespaces (op p) = lookup p namespaces
namespace_of namespaces (tag p) = lookup p namespaces
namespace_of namespaces namespace_selector = none

-- the local name behind ':', which must be a non-empty Tag
read_local_name : Namespaces → Token → List Token → Result XpathError (StepName × List Token)
read_local_name namespaces prefix (tag n ∷ rest) =
    if is_empty n then err node_parsing_error else elim (namespace_of namespaces prefix) [
      | none ↦ err node_parsing_error
      | some ns ↦ ok (qname (some ns) (tag n), rest)
    ]
read_local_name namespaces prefix (namespace_selector ∷ rest) = err attribute_error
read_local_name namespaces prefix _ = err node_parsing_error

read_prefixed : Namespaces → Token → List Token → Result XpathError (StepName × List Token)
unfolding read_local_name
read_prefixed namespaces (op _) rest = err node_parsing_error
read_prefixed namespaces (tag p) rest = read_local_name namespaces (tag p) rest
read_prefixed namespaces namespace_selector rest = err attribute_error

abbrev behind {ℓ} : {A : Type ℓ} → List A → List A
behind [] = []
behind (_ ∷ rest) = rest

unfoldable pub read_element_tag :
    Option Str → Namespaces → List Token → Result XpathError (StepName × List Token)
unfolding next_is read_prefixed token_is
read_element_tag namespace namespaces [] = err node_parsing_error
read_element_tag namespace namespaces (t ∷ rest) =
    if token_is t (codes "*")
    then ok (star, rest)
    else if next_is (codes ":") rest
    then read_prefixed namespaces t (behind rest)
    else ok (qname namespace t, rest)

-- digits of int(): single underscores may stand between them
digits_value : ℕ → Bool → Str → Option ℕ
digits_value n true [] = some n
digits_value n false [] = none
digits_value n after_digit (c ∷ s) =
    let more = digits_value (n * 10 + (c - 48)) true s in
    let skipped = digits_value n false s in
    if leb 48 c && leb c 57 then more else if c == b'_' && after_digit then skipped else none

abbrev negate : ℕ → ℤ
negate zero = pos zero
negate (suc n) = negsuc n

abbrev to_pos : Option ℕ → Result XpathError ℤ
to_pos none = err value_error
to_pos (some n) = ok (pos n)

abbrev to_neg : Option ℕ → Result XpathError ℤ
to_neg none = err value_error
to_neg (some n) = ok (negate n)

-- int(s) for an ASCII text with no white space around it
unfoldable pub int_of : Str → Result XpathError ℤ
unfolding digits_value
int_of [] = err value_error
int_of (c ∷ s) =
    if c == b'-'
    then to_neg (digits_value 0 false s)
    else if c == b'+'
    then to_pos (digits_value 0 false s)
    else to_pos (digits_value 0 false (c ∷ s))

abbrev int_of_token : Token → Result XpathError ℤ
int_of_token (op s) = int_of s
int_of_token (tag s) = int_of s
int_of_token namespace_selector = err type_error

unfoldable pub read_position : List Token → Result XpathError (Option ℤ × List Token)
unfolding token_is int_of
read_position (a ∷ n ∷ b ∷ rest) =
    if token_is a (codes "[") && token_is b (codes "]")
    then (do p ← int_of_token n; ok (some p, rest))
    else ok (none, a ∷ n ∷ b ∷ rest)
read_position rest = ok (none, rest)

read_prefixed_att :
    Namespaces
    → Token
    → Token
    → Token
    → Token
    → Token
    → Token
    → List Token
    → Result XpathError (Option AttTest × List Token)
unfolding token_is
read_prefixed_att namespaces a b p c n e (v ∷ d ∷ rest) =
    if token_is a (codes "[")
      && (token_is b (codes "@")
          && (token_is c (codes ":") && (token_is e (codes "=") && token_is d (codes "]"))))
    then (elim (namespace_of namespaces p) [
      | none ↦ err key_error
      | some ns ↦ ok (some (record { namespace = some ns; name = n; value = v }), rest)
    ])
    else ok (none, a ∷ b ∷ p ∷ c ∷ n ∷ e ∷ v ∷ d ∷ rest)
read_prefixed_att namespaces a b p c n e rest = ok (none, a ∷ b ∷ p ∷ c ∷ n ∷ e ∷ rest)

unfoldable pub read_att_test :
    Namespaces → List Token → Result XpathError (Option AttTest × List Token)
unfolding token_is read_prefixed_att
read_att_test namespaces (a ∷ b ∷ n ∷ e ∷ v ∷ d ∷ rest) =
    if token_is a (codes "[")
      && (token_is b (codes "@") && (token_is e (codes "=") && token_is d (codes "]")))
    then ok (some (record { namespace = none; name = n; value = v }), rest)
    else read_prefixed_att namespaces a b n e v d rest
read_att_test namespaces rest = ok (none, rest)

-- what `read_step` returns: a step, or a terminal selector
pub data Piece : Type 0 where
  step : Step → Piece
  terminal : TerminalSelector → Piece

read_attribute : List Token → Result XpathError (Piece × List Token)
read_attribute (at ∷ n ∷ rest) = ok (terminal (attribute_selector n), rest)
read_attribute _ = err index_error

unfoldable pub read_step :
    Option Str → Namespaces → List Token → Result XpathError (Piece × List Token)
unfolding next_is read_attribute read_element_tag read_position read_att_test
read_step namespace namespaces lst =
    if next_is (codes "@") lst
    then read_attribute lst
    else if next_is (codes "{namespace}:*") lst
    then ok (terminal TerminalSelector.namespace_selector, behind lst)
    else do
      (name, l1) ← read_element_tag namespace namespaces lst
      (position, l2) ← read_position l1
      (att_test, l3) ← read_att_test namespaces l2
      ok (step (record { name = name; position = position; att_test = att_test }), l3)

unfoldable pub read_slash : List Token → Result XpathError (List Token)
unfolding next_is
read_slash lst = if next_is (codes "/") lst then ok (behind lst) else err node_parsing_error

-- one round of `while True` after `read_step`; `more` is the loop from the tokens that it is given
after_step :
    Piece × List Token
    → (List Token → Result XpathError (List Step × Option TerminalSelector))
    → Result XpathError (List Step × Option TerminalSelector)
unfolding read_slash
after_step (terminal t, []) more = ok ([], some t)
after_step (terminal t, _ ∷ _) more = err node_parsing_error
after_step (step s, []) more = ok (s ∷ [], none)
after_step (step s, t ∷ rest) more = do
  l ← read_slash (t ∷ rest)
  (steps, selector) ← more l
  ok (s ∷ steps, selector)

-- the loop; each round takes a token at least, so a fuel above the number of tokens is enough
unfoldable pub read_steps :
    ℕ
    → Option Str
    → Namespaces
    → List Token
    → Result XpathError (List Step × Option TerminalSelector)
unfolding read_step after_step
read_steps zero namespace namespaces lst = err node_parsing_error
read_steps (suc fuel) namespace namespaces lst = do
  piece ← read_step namespace namespaces lst
  after_step piece (λ l. read_steps fuel namespace namespaces l)

unfoldable pub read_node_selector :
    Option Str
    → Namespaces
    → List Token
    → Result XpathError (ElementSelector × Option TerminalSelector)
unfolding next_is read_steps
read_node_selector namespace namespaces lst =
    let l = if next_is (codes "/") lst then behind lst else lst in
    do
      (steps, selector) ← read_steps (suc (length l)) namespace namespaces l
      ok (record { steps = steps; namespace = namespace; namespaces = namespaces }, selector)
