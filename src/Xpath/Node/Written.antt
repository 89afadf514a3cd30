-- ===== src/Xpath/Node/Written.antt =====
-- Node selectors as they are written in a URI, and what parse_node_selector makes of them.
use openxcap.Prelude.{
  ℕ, ◌≡◌, refl, Option, none, some, List, [], ◌∷◌, ◌++◌, Str, codes, Result, ok, err, lookup, All,
}
use openxcap.Xpath.{Namespaces, XpathError, node_parsing_error, TerminalSelector, ElementSelector}
use openxcap.Xpath.Tokens.{Scanner, tokens, with_namespace_key}
use openxcap.Xpath.Node.{parse_node_selector}
use openxcap.Xpath.Reader.Written.{
  WrittenName, any_name, plain, WrittenTest, no_test, plain_test, WrittenStep, WrittenEnd,
  element_end, attribute_end, namespace_end, path_meaning, IsWritten, IsEnd,
}
use openxcap.Xpath.Reader.Pairs.{path_pairs, make_tokens-path}
use openxcap.Xpath.Reader.Paths.{selected_by, read_node_selector-written}

-- a name, with or without a prefix
pub data Reference : Type 0 where
  unprefixed : Str → Reference
  prefixed : Str → Str → Reference

-- a step; without a name it is '*'
pub record SourceStep : Type 0 where
  pub name : Option Reference
  pub position : Option ℕ
  pub test : Option (Reference × Str)

pub data SourceEnd : Type 0 where
  element_source : SourceEnd
  attribute_source : Reference → SourceEnd
  namespace_source : SourceEnd

-- a path behind the scanner: its first step, the others, and the end
abbrev pub Resolved : Type 0
Resolved = WrittenStep × List WrittenStep × WrittenEnd

-- What lxml's scanner makes of a source, where no namespace is bound to the empty prefix: a prefix
-- and its name become one name, "{namespace}name", and a prefix that is not bound is a SyntaxError,
-- which is `none`.
module _ (namespaces : Namespaces) where
  abbrev pub resolve : Reference → Option Str
  resolve (unprefixed n) = some n
  resolve (prefixed p n) = elim (lookup p namespaces) [
    | none ↦ none
    | some ns ↦ some (codes "{" ++ (ns ++ (codes "}" ++ n)))
  ]

  abbrev pub resolve_name : Option Reference → Option WrittenName
  resolve_name none = some any_name
  resolve_name (some r) = elim (resolve r) [ none ↦ none | some n ↦ some (plain n) ]

  abbrev pub resolve_test : Option (Reference × Str) → Option WrittenTest
  resolve_test none = some no_test
  resolve_test (some (r, v)) = elim (resolve r) [ none ↦ none | some n ↦ some (plain_test n v) ]

  abbrev pub resolve_step : SourceStep → Option WrittenStep
  resolve_step s = elim (resolve_name s.name) [
    | none ↦ none
    | some n ↦ elim (resolve_test s.test) [
      | none ↦ none
      | some t ↦ some (record { name = n; position = s.position; test = t })
    ]
  ]

  abbrev pub resolve_steps : List SourceStep → Option (List WrittenStep)
  resolve_steps [] = some []
  resolve_steps (s ∷ ss) =
      let rest = resolve_steps ss in
      elim (resolve_step s) [
        | none ↦ none
        | some w ↦ elim rest [ none ↦ none | some ws ↦ some (w ∷ ws) ]
      ]

  abbrev pub resolve_end : SourceEnd → Option WrittenEnd
  resolve_end element_source = some element_end
  resolve_end (attribute_source r) = elim (resolve r) [
    | none ↦ none
    | some n ↦ some (attribute_end n)
  ]
  resolve_end namespace_source = some namespace_end

  abbrev pub resolve_path : SourceStep → List SourceStep → SourceEnd → Option Resolved
  resolve_path s ss e = elim (resolve_step s) [
    | none ↦ none
    | some w ↦ elim (resolve_steps ss) [
      | none ↦ none
      | some ws ↦ elim (resolve_end e) [ none ↦ none | some end ↦ some (w, ws, end) ]
    ]
  ]

  -- 'namespace::*' is read with the prefix 'namespace', which has to have its own name for a namespace
  abbrev pub HasKey : SourceEnd → Type 0
  HasKey namespace_source = lookup (codes "namespace") namespaces ≡ some (codes "namespace")
  HasKey _ = Unit

-- the pairs that the scanner yields for it
abbrev pub yielded : Option Resolved → Option (List (Str × Str))
yielded none = none
yielded (some (w, ws, e)) = some (path_pairs (w ∷ ws) e)

-- none of the names is a mark, and no value is '='
abbrev pub IsPlain : Option Resolved → Type 0
IsPlain none = Unit
IsPlain (some (w, ws, e)) = IsWritten w × All IsWritten ws × IsEnd e

-- its steps, with the default namespace for each name, and its terminal selector; a prefix that is not
-- bound is a parsing error
abbrev pub meaning :
    Option Str
    → Namespaces
    → Option Resolved
    → Result XpathError (ElementSelector × Option TerminalSelector)
meaning namespace namespaces none = err node_parsing_error
meaning namespace namespaces (some (w, ws, e)) =
    ok (selected_by namespace namespaces (path_meaning namespace (w ∷ ws) e))

module _ (scan : Scanner) (selector : Str) (namespace : Option Str) (namespaces : Namespaces) where
  resolved-meaning :
      (p : Option Resolved)
      → scan selector (with_namespace_key selector namespaces) ≡ yielded p
      → IsPlain p
      → parse_node_selector scan selector namespace namespaces
        ≡ meaning namespace (with_namespace_key selector namespaces) p
  unfolding parse_node_selector tokens
  resolved-meaning none h p = rw h refl
  resolved-meaning (some (w, ws, e)) h (one, more, end) =
      rw (h, make_tokens-path (w ∷ ws) e (one, more) end)
        (read_node_selector-written namespace (with_namespace_key selector namespaces) w ws e one
          more)

  -- A node selector for whose text lxml yields the pairs of a path is read as what the path means: its
  -- steps with their positions and tests, and its terminal selector. A prefix has been resolved to
  -- "{namespace}name" then, and this name, in a step, is put in the default namespace like one without a prefix.
  -- Where a prefix is not bound, it is a parsing error. No namespace other than its own is bound to
  -- the prefix of 'namespace::*', no name is a mark of the grammar, and no value is '='.
  pub parse_node_selector-written :
      (s : SourceStep) (ss : List SourceStep) (e : SourceEnd)
      → scan selector (with_namespace_key selector namespaces)
        ≡ yielded (resolve_path (with_namespace_key selector namespaces) s ss e)
      → HasKey (with_namespace_key selector namespaces) e
      → IsPlain (resolve_path (with_namespace_key selector namespaces) s ss e)
      → parse_node_selector scan selector namespace namespaces
        ≡ meaning namespace
            (with_namespace_key selector namespaces)
            (resolve_path (with_namespace_key selector namespaces) s ss e)
  parse_node_selector-written s ss e h key good =
      resolved-meaning (resolve_path (with_namespace_key selector namespaces) s ss e) h good
