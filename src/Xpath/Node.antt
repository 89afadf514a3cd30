-- ===== src/Xpath/Node.antt =====
-- NodeSelector of xcap/xpath.py, parse_node_selector, and ElementSelector.fix_star.
pub mod Bindings
pub mod Star
pub mod Written
use openxcap.Prelude.{
  ℕ, zero, suc, ◌+◌, Bool, true, false, ◌&&◌, ◌||◌, Option, none, some, List, [], ◌∷◌, ◌++◌, Str,
  codes, str_eq, strip_prefix, strip_left, split_on, split_first, if◌then◌else◌, ◌==◌, leb, Result,
  ok, err, ◌>>=◌, lookup, insert, length, Dict, map,
}
use openxcap.Xpath.{
  ℤ, Token, op, tag, namespace_selector, XpathError, key_error, Namespaces, StepName, star, qname,
  Step, TerminalSelector, attribute_selector, ElementSelector,
}
use openxcap.Xpath.Tokens.{Scanner, tokens, with_namespace_key}
use openxcap.Xpath.Reader.{read_node_selector}
use openxcap.Xpath.Selector.{Prefixes, steps_text, text_of}

-- parse_node_selector: `tokens` has the dict of the caller changed when the readers use it
unfoldable pub parse_node_selector :
    Scanner
    → Str
    → Option Str
    → Namespaces
    → Result XpathError (ElementSelector × Option TerminalSelector)
unfolding tokens with_namespace_key read_node_selector
parse_node_selector scan selector namespace namespaces = do
  lst ← tokens scan selector namespaces
  read_node_selector namespace (with_namespace_key selector namespaces) lst

-- ElementSelector._parse_qname
unfoldable pub parse_qname : Option Str → Namespaces → Str → Result XpathError StepName
unfolding split_on lookup str_eq
parse_qname namespace namespaces name =
    if str_eq name (codes "*") then ok star else elim (split_on b':' name) [
      | prefix ∷ local ∷ [] ↦ elim (lookup prefix namespaces) [
        | none ↦ err key_error
        | some ns ↦ ok (qname (some ns) (tag local))
      ]
      | _ ↦ ok (qname namespace (tag name))
    ]

-- the white space that `\s` matches
abbrev pub is_space : ℕ → Bool
is_space c =
    (leb 9 c && leb c 13)
    || ((leb 28 c && leb c 32)
        || (c == 133
            || (c == 160
                || (c == 5760
                    || ((leb 8192 c && leb c 8202)
                        || (c == 8232
                            || (c == 8233 || (c == 8239 || (c == 8287 || c == 12288)))))))))

abbrev ends_tag : ℕ → Bool
ends_tag c = c == b' ' || (c == b'>' || c == b'/')

-- [^ >/]*
unfoldable pub tag_chars : Str → Str
tag_chars [] = []
tag_chars (c ∷ s) = let rest = tag_chars s in if ends_tag c then [] else c ∷ rest

abbrev nonempty : Str → Option Str
nonempty [] = none
nonempty (c ∷ s) = some (c ∷ s)

behind_bracket : Str → Option Str
unfolding tag_chars
behind_bracket [] = none
behind_bracket (c ∷ s) = if c == b'<' then nonempty (tag_chars s) else none

-- XML_TAG_REGEXP.match(body)
unfoldable pub match_tag : Str → Option Str
unfolding behind_bracket strip_left
match_tag body = behind_bracket (strip_left is_space body)

-- the steps once `_parse_qname(name)` is stored in the last of them
unfoldable pub with_last_name : StepName → List Step → List Step
with_last_name n [] = []
with_last_name n (s ∷ []) = record s { name = n } ∷ []
with_last_name n (s ∷ t ∷ steps) = s ∷ with_last_name n (t ∷ steps)

abbrev is_star : StepName → Option ℤ → Bool
is_star star none = true
is_star star (some p) = false
is_star (qname ns n) p = false

-- self and self[-1].name == '*' and self[-1].position is None
unfoldable pub ends_in_star : List Step → Bool
ends_in_star [] = false
ends_in_star (s ∷ []) = is_star s.name s.position
ends_in_star (s ∷ t ∷ steps) = ends_in_star (t ∷ steps)

-- ElementSelector.fix_star, for a body that is decoded already. The copy that it returns shares its
-- steps with the selector, so the new name is in both of them: the result stands for both.
unfoldable pub fix_star : Str → ElementSelector → Result XpathError ElementSelector
unfolding ends_in_star match_tag parse_qname with_last_name
fix_star body selector =
    if ends_in_star selector.steps
    then (elim (match_tag body) [
      | none ↦ ok selector
      | some name ↦ do
        n ← parse_qname selector.namespace selector.namespaces name
        ok (record selector { steps = with_last_name n selector.steps })
    ])
    else ok selector

-- xmlns\((.*?)\): the text up to the next ')' on this line
unfoldable pub until_paren : Str → Option Str
until_paren [] = none
until_paren (c ∷ s) =
    let rest = until_paren s in
    if c == b')'
    then some []
    else if c == b'\n'
    then none
    else elim rest [ none ↦ none | some m ↦ some (c ∷ m) ]

at_match : Option Str → Option Str
unfolding until_paren
at_match none = none
at_match (some rest) = until_paren rest

-- XMLNS_REGEXP.findall(query); the first argument is how much of the last match is still ahead
unfoldable pub find_ns : ℕ → Str → List Str
unfolding strip_prefix at_match
find_ns k [] = []
find_ns (suc k) (c ∷ s) = find_ns k s
find_ns zero (c ∷ s) = elim (at_match (strip_prefix (codes "xmlns(") (c ∷ s))) [
  | none ↦ find_ns zero s
  | some m ↦ m ∷ find_ns (6 + length m) s
]

-- one round of the loop of NodeSelector._parse_ns_bindings: a match that does not split into two at
-- '=' is left out
unfoldable pub add_binding : Str → Namespaces → Namespaces
unfolding split_on insert
add_binding m bindings = elim (split_on b'=' m) [
  | prefix ∷ ns ∷ [] ↦ insert prefix ns bindings
  | _ ↦ bindings
]

unfoldable pub add_bindings : List Str → Namespaces → Namespaces
unfolding add_binding
add_bindings [] bindings = bindings
add_bindings (m ∷ ms) bindings = add_bindings ms (add_binding m bindings)

-- NodeSelector._parse_ns_bindings
unfoldable pub parse_ns_bindings : Str → Namespaces
unfolding find_ns add_bindings
parse_ns_bindings query = add_bindings (find_ns 0 query) []

pub record NodeSelector : Type 0 where
  pub original_selector : Str
  pub ns_bindings : Namespaces
  pub element_selector : ElementSelector
  pub terminal_selector : Option TerminalSelector

-- selector.split('?', 1)
abbrev pub sections : Str → Str × Option Str
unfolding split_first
sections selector = elim (split_first (codes "?") selector) [
  | none ↦ (selector, none)
  | some (a, query) ↦ (a, some query)
]

abbrev pub bindings_of : Option Str → Namespaces
unfolding parse_ns_bindings
bindings_of none = []
bindings_of (some query) = parse_ns_bindings query

-- NodeSelector(selector, namespace); its dict `ns_bindings` is the one that `tokens` may change
unfoldable pub node_selector : Scanner → Str → Option Str → Result XpathError NodeSelector
unfolding parse_node_selector split_first parse_ns_bindings
node_selector scan selector namespace =
    let (path, query) = sections selector in
    let bindings = bindings_of query in
    do
      (elements, terminal) ← parse_node_selector scan path namespace bindings
      ok (record {
        original_selector = selector;
        ns_bindings = elements.namespaces;
        element_selector = elements;
        terminal_selector = terminal;
      })

-- dict((v, k) for (k, v) in ns_bindings.items()), the last entry first
abbrev pub inverted : Prefixes → Namespaces → Prefixes
inverted found [] = found
inverted found ((prefix, ns) ∷ bindings) = inverted ((some ns, prefix) ∷ found) bindings

-- str() of a terminal selector
abbrev pub terminal_text : TerminalSelector → Result XpathError Str
terminal_text (attribute_selector t) = do name ← text_of t; ok (b'@' ∷ name)
terminal_text TerminalSelector.namespace_selector = ok (codes "namespace::*")

-- '/' + str(self.terminal_selector), if append_terminal and self.terminal_selector
abbrev pub terminal_part : Bool → Option TerminalSelector → Result XpathError Str
terminal_part false t = ok []
terminal_part true none = ok []
terminal_part true (some t) = do text ← terminal_text t; ok (b'/' ∷ text)

-- NodeSelector.replace_default_prefix() with its default prefix
unfoldable pub replace_default_prefix : Bool → NodeSelector → Result XpathError Str
unfolding steps_text
replace_default_prefix append_terminal n = do
  res ←
      steps_text ((n.element_selector.namespace, codes "default") ∷ inverted [] n.ns_bindings)
        n.element_selector.steps
  part ← terminal_part append_terminal n.terminal_selector
  ok (res ++ part)

-- NodeSelector.get_ns_bindings
unfoldable pub get_ns_bindings : Option Str → NodeSelector → Dict (Option Str)
unfolding insert
get_ns_bindings default_ns n =
    insert (codes "default") default_ns (map (λ b. (b.0, some b.1)) n.ns_bindings)
