-- ===== src/Tests/Selectors.antt =====
-- Runs of the selectors of xcap/xpath.py, and the theorems at them.
use openxcap.Prelude.{
  ◌≡◌, refl, true, false, none, some, List, [], ◌∷◌, ◌++◌, Str, codes, ok, err, ◌⊎◌, lookup,
  split_on, insert, decimal, arith, str_eq, split_first, strip_prefix, Option, Result, map,
}
use openxcap.Xpath.{
  tag, op, XpathError, StepName, TerminalSelector, Step, qname, star, node_parsing_error,
  value_error, index_error, ElementSelector, token_is,
}
use openxcap.Xpath.Document.{document_selector, drop_last_slash}
use openxcap.Xpath.Document.Laws.{
  render, HasContext, user_document, global_document, document_selector_sound,
  document_selector-users,
}
use openxcap.Xpath.Tokens.{Scanner, make_tokens, with_namespace_key}
use openxcap.Xpath.Reader.{read_node_selector}
use openxcap.Xpath.Node.Written.{
  unprefixed, prefixed, SourceStep, attribute_source, Resolved, resolve_path, meaning,
  parse_node_selector-written,
}
use openxcap.Xpath.Node.{
  parse_node_selector, parse_ns_bindings, fix_star, with_last_name, ends_in_star,
  replace_default_prefix,
}
use openxcap.Xpath.Node.Bindings.{query_text, bind_all, parse_ns_bindings-query}
use openxcap.Xpath.Quoting.{quoteattr}
use openxcap.Xpath.Selector.{to_string, steps_text, step_repr, step_text}

selector_code : Unit {0}
unfolding document_selector read_node_selector parse_ns_bindings fix_star lookup insert split_on
    decimal replace_default_prefix steps_text to_string step_repr step_text quoteattr str_eq
    token_is with_last_name make_tokens drop_last_slash split_first parse_node_selector
    with_namespace_key strip_prefix
selector_code = tt

-- /resource-lists/users/sip:joe@example.com/index, and with a slash at its end
selector_tests :
    (document_selector (codes "/resource-lists/users/sip:joe@example.com/index/")
      ≡ ok (user_document (codes "resource-lists") (codes "sip:joe@example.com") (codes "index")))
    × (document_selector (codes "/rls-services/global/a/b")
        ≡ ok (global_document (codes "rls-services") (codes "a/b")))
unfolding selector_code
selector_tests = (refl, refl)

-- list[foo] and list/@: exceptions that no handler takes for a bad request
reader_tests :
    (read_node_selector none []
        (tag (codes "list") ∷ op (codes "[") ∷ tag (codes "foo") ∷ op (codes "]") ∷ [])
      ≡ err value_error)
    × (read_node_selector none [] (tag (codes "list") ∷ op (codes "/") ∷ op (codes "@") ∷ [])
        ≡ err index_error)
unfolding selector_code
reader_tests = (refl, refl)

-- list[@name="="]/x : behind the value '=', a name is taken for a value
equals_test :
    make_tokens false ((codes "=", []) ∷ (codes "\"=\"", []) ∷ (codes "]", []) ∷ [])
    ≡ err node_parsing_error
unfolding selector_code
equals_test = refl

abbrev step : Str → Step
step n = record { name = qname none (tag n); position = none; att_test = none }

abbrev star_step : Step
star_step = record { name = star; position = none; att_test = none }

abbrev elements : List Step → ElementSelector
elements steps = record {
  steps = steps;
  namespace = none;
  namespaces = (codes "p", codes "urn:p") ∷ [];
}

-- a step '*' is printed by its repr
repr_test :
    replace_default_prefix false (record {
      original_selector = [];
      ns_bindings = [];
      element_selector = elements (step (codes "a") ∷ star_step ∷ []);
      terminal_selector = none;
    })
    ≡ ok (codes "/default:a/Step('*')")
unfolding selector_code
repr_test = refl

document_selector_sound_example :
    ((codes "/a/users/u/d/" ≡ render (user_document (codes "a") (codes "u") (codes "d")))
      ⊎ (codes "/a/users/u/d/"
          ≡ render (user_document (codes "a") (codes "u") (codes "d")) ++ codes "/"))
    × HasContext (user_document (codes "a") (codes "u") (codes "d"))
unfolding selector_code
document_selector_sound_example =
    document_selector_sound (codes "/a/users/u/d/")
      (user_document (codes "a") (codes "u") (codes "d")) refl

document_selector-users_example :
    document_selector (render (user_document (codes "a") (codes "u") (codes "x/y")))
    ≡ ok (user_document (codes "a") (codes "u") (codes "x/y"))
unfolding selector_code
document_selector-users_example =
    document_selector-users (codes "a") (codes "u") (codes "x/y") (ground arith) (ground arith)
      (cc, refl)

abbrev source : Str
source = codes "/p:list[2]/*[@id=\"7\"]/@name"

abbrev first : SourceStep
first = record { name = some (prefixed (codes "p") (codes "list")); position = some 2; test = none }

abbrev second : SourceStep
second = record { name = none; position = none; test = some (unprefixed (codes "id"), codes "7") }

abbrev bindings : List (Str × Str)
bindings = (codes "p", codes "urn:p") ∷ []

-- what lxml yields for it with these bindings
abbrev scan : Scanner
scan s namespaces = some (
    (codes "/", [])
    ∷ ([], codes "{urn:p}list")
    ∷ (codes "[", [])
    ∷ ([], codes "2")
    ∷ (codes "]", [])
    ∷ (codes "/", [])
    ∷ (codes "*", [])
    ∷ (codes "[", [])
    ∷ (codes "@", [])
    ∷ ([], codes "id")
    ∷ (codes "=", [])
    ∷ (codes "\"7\"", [])
    ∷ (codes "]", [])
    ∷ (codes "/", [])
    ∷ (codes "@", [])
    ∷ ([], codes "name")
    ∷ [])

abbrev resolved : Option Resolved
resolved =
    resolve_path (with_namespace_key source bindings) first (second ∷ [])
      (attribute_source (unprefixed (codes "name")))

parse_node_selector-written_example :
    parse_node_selector scan source (some (codes "urn:d")) bindings
    ≡ meaning (some (codes "urn:d")) (with_namespace_key source bindings) resolved
unfolding selector_code
parse_node_selector-written_example =
    parse_node_selector-written scan source (some (codes "urn:d")) bindings first (second ∷ [])
      (attribute_source (unprefixed (codes "name"))) refl tt
      (
        ((refl, (refl, (refl, (refl, (refl, (refl, tt)))))), tt),
        ((tt, ((refl, (refl, (refl, (refl, (refl, (refl, tt)))))), refl)), tt),
        (refl, (refl, (refl, (refl, (refl, (refl, tt)))))),
      )

abbrev names_of : Result XpathError (ElementSelector × Option TerminalSelector) → List StepName
names_of (err e) = []
names_of (ok (s, t)) = map (λ (x : Step). x.name) s.steps

-- the names of the steps, in the default namespace
names_run :
    names_of (parse_node_selector scan source (some (codes "urn:d")) bindings)
    ≡ qname (some (codes "urn:d")) (tag (codes "{urn:p}list")) ∷ star ∷ []
unfolding selector_code
names_run = refl

parse_ns_bindings-query_example : parse_ns_bindings (query_text bindings) ≡ bind_all bindings []
parse_ns_bindings-query_example = parse_ns_bindings-query bindings (
  ((ground arith, (ground arith, ground arith)), (ground arith, (ground arith, ground arith))),
  tt,
)

ends_in_star_run : ends_in_star (elements (step (codes "a") ∷ star_step ∷ [])).steps ≡ true
unfolding selector_code
ends_in_star_run = refl

prefix_run :
    lookup (codes "p") (elements (step (codes "a") ∷ star_step ∷ [])).namespaces
    ≡ some (codes "urn:p")
unfolding selector_code
prefix_run = refl
