-- ===== src/Xpath/Reader/Paths.antt =====
-- The reader of node selectors on the tokens of the grammar.
use openxcap.Prelude.{
  ℕ, zero, suc, ◌+◌, ◌≤◌, ◌≡◌, refl, Option, List, [], ◌∷◌, ◌++◌, arith, Str, codes, str_eq, ok,
  length, All, length-append,
}
use openxcap.Xpath.{
  Token, op, tag, token_is, Namespaces, Step, TerminalSelector, ElementSelector, attribute_selector,
}
use openxcap.Xpath.Reader.{
  terminal, next_is, read_attribute, read_step, read_slash, after_step, read_steps,
  read_node_selector,
}
use openxcap.Xpath.Reader.Written.{
  WrittenName, any_name, plain, WrittenStep, WrittenEnd, element_end, attribute_end, namespace_end,
  name_tokens, position_tokens, test_tokens, step_tokens, end_tokens, path_tokens, path_meaning,
  IsWritten,
}
use openxcap.Xpath.Reader.Steps.{IsRest, read_step-written}

path_tokens-IsRest : (ws : List WrittenStep) (e : WrittenEnd) → IsRest (path_tokens ws e)
path_tokens-IsRest [] element_end = tt
path_tokens-IsRest [] (attribute_end n) = refl
path_tokens-IsRest [] namespace_end = refl
path_tokens-IsRest (w ∷ ws) e = refl

read_step-attribute :
    (namespace : Option Str) (namespaces : Namespaces) (n : Str)
    → read_step namespace namespaces (op (codes "@") ∷ tag n ∷ [])
      ≡ ok (terminal (attribute_selector (tag n)), [])
unfolding read_step next_is token_is str_eq read_attribute
read_step-attribute namespace namespaces n = refl

read_step-namespace :
    (namespace : Option Str) (namespaces : Namespaces)
    → read_step namespace namespaces (tag (codes "{namespace}:*") ∷ [])
      ≡ ok (terminal TerminalSelector.namespace_selector, [])
unfolding read_step next_is token_is str_eq
read_step-namespace namespace namespaces = refl

-- Steps and an end are read from their tokens, by a fuel of two rounds more than steps behind the
-- first.
read_steps-written :
    (fuel : ℕ) (namespace : Option Str) (namespaces : Namespaces) (w : WrittenStep)
    (ws : List WrittenStep) (e : WrittenEnd)
    → IsWritten w
    → All IsWritten ws
    → length ws + 2 ≤ fuel
    → read_steps fuel namespace namespaces (step_tokens w (path_tokens ws e))
      ≡ ok (path_meaning namespace (w ∷ ws) e)
unfolding read_steps after_step read_slash next_is token_is str_eq
read_steps-written zero namespace namespaces w ws e h hs hf = absurd (omega arith)
read_steps-written (suc zero) namespace namespaces w ws e h hs hf = absurd (omega arith)
read_steps-written (suc (suc fuel)) namespace namespaces w [] element_end h hs hf =
    let one = read_step-written namespace namespaces w [] h tt in ground arith
read_steps-written (suc (suc fuel)) namespace namespaces w [] (attribute_end n) h hs hf =
    let one = read_step-written namespace namespaces w (end_tokens (attribute_end n)) h refl in
    let last = read_step-attribute namespace namespaces n in ground arith
read_steps-written (suc (suc fuel)) namespace namespaces w [] namespace_end h hs hf =
    let one = read_step-written namespace namespaces w (end_tokens namespace_end) h refl in
    let last = read_step-namespace namespace namespaces in ground arith
read_steps-written (suc (suc fuel)) namespace namespaces w (v ∷ ws) e h hs hf =
    let one = read_step-written namespace namespaces w (path_tokens (v ∷ ws) e) h refl in
    let others =
      read_steps-written (suc fuel) namespace namespaces v ws e hs.0 hs.1 (omega arith) in
    ground arith

name_tokens-length : (n : WrittenName) → 1 ≤ length (name_tokens n)
name_tokens-length any_name = omega arith
name_tokens-length (plain n) = omega arith

step_tokens-length :
    (w : WrittenStep) (rest : List Token) → length rest + 1 ≤ length (step_tokens w rest)
step_tokens-length w rest =
    let p = position_tokens w.position in
    let t = test_tokens w.test in
    omega (
      arith,
      name_tokens-length w.name,
      length-append (name_tokens w.name) (p ++ (t ++ rest)),
      length-append p (t ++ rest),
      length-append t rest,
    )

path_tokens-length :
    (ws : List WrittenStep) (e : WrittenEnd) → length ws ≤ length (path_tokens ws e)
path_tokens-length [] e = omega arith
path_tokens-length (w ∷ ws) e =
    omega (arith, path_tokens-length ws e, step_tokens-length w (path_tokens ws e))

abbrev pub selected_by :
    Option Str
    → Namespaces
    → List Step × Option TerminalSelector
    → ElementSelector × Option TerminalSelector
selected_by namespace namespaces (steps, selector) =
    (record { steps = steps; namespace = namespace; namespaces = namespaces }, selector)

-- The tokens of a node selector are read as what it means.
pub read_node_selector-written :
    (namespace : Option Str) (namespaces : Namespaces) (w : WrittenStep) (ws : List WrittenStep)
    (e : WrittenEnd)
    → IsWritten w
    → All IsWritten ws
    → read_node_selector namespace namespaces (path_tokens (w ∷ ws) e)
      ≡ ok (selected_by namespace namespaces (path_meaning namespace (w ∷ ws) e))
unfolding read_node_selector next_is token_is str_eq
read_node_selector-written namespace namespaces w ws e h hs =
    let l = step_tokens w (path_tokens ws e) in
    rw
      (read_steps-written (suc (length l)) namespace namespaces w ws e h hs
        (omega (arith, path_tokens-length ws e, step_tokens-length w (path_tokens ws e))))
      refl
