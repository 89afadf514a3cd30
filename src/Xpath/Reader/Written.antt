-- ===== src/Xpath/Reader/Written.antt =====
-- Node selectors behind the scanner, with each prefix resolved: the tokens, and what they mean.
use openxcap.Prelude.{
  ℕ, false, ◌≡◌, Option, none, some, List, [], ◌∷◌, ◌++◌, Str, codes, str_eq, decimal, All, map,
}
use openxcap.Xpath.Tokens.{contains}
use openxcap.Xpath.{
  ℤ, pos, Token, op, tag, StepName, star, qname, AttTest, Step, TerminalSelector,
  attribute_selector,
}

pub data WrittenName : Type 0 where
  any_name : WrittenName
  plain : Str → WrittenName

pub data WrittenTest : Type 0 where
  no_test : WrittenTest
  plain_test : Str → Str → WrittenTest

pub record WrittenStep : Type 0 where
  pub name : WrittenName
  pub position : Option ℕ
  pub test : WrittenTest

pub data WrittenEnd : Type 0 where
  element_end : WrittenEnd
  attribute_end : Str → WrittenEnd
  namespace_end : WrittenEnd

abbrev pub name_tokens : WrittenName → List Token
name_tokens any_name = op (codes "*") ∷ []
name_tokens (plain n) = tag n ∷ []

abbrev pub position_tokens : Option ℕ → List Token
position_tokens none = []
position_tokens (some k) = op (codes "[") ∷ tag (decimal k) ∷ op (codes "]") ∷ []

abbrev pub test_tokens : WrittenTest → List Token
test_tokens no_test = []
test_tokens (plain_test n v) =
    op (codes "[") ∷ op (codes "@") ∷ tag n ∷ op (codes "=") ∷ op v ∷ op (codes "]") ∷ []

-- the tokens of a step, and then others
abbrev pub step_tokens : WrittenStep → List Token → List Token
step_tokens w rest =
    name_tokens w.name ++ (position_tokens w.position ++ (test_tokens w.test ++ rest))

abbrev pub end_tokens : WrittenEnd → List Token
end_tokens element_end = []
end_tokens (attribute_end n) = op (codes "/") ∷ op (codes "@") ∷ tag n ∷ []
end_tokens namespace_end = op (codes "/") ∷ tag (codes "{namespace}:*") ∷ []

-- steps, each behind a slash, and the end
abbrev pub path_tokens : List WrittenStep → WrittenEnd → List Token
path_tokens [] e = end_tokens e
path_tokens (w ∷ ws) e = op (codes "/") ∷ step_tokens w (path_tokens ws e)

abbrev pub position_meaning : Option ℕ → Option ℤ
position_meaning none = none
position_meaning (some k) = some (pos k)

abbrev pub end_meaning : WrittenEnd → Option TerminalSelector
end_meaning element_end = none
end_meaning (attribute_end n) = some (attribute_selector (tag n))
end_meaning namespace_end = some TerminalSelector.namespace_selector

abbrev pub test_meaning : WrittenTest → Option AttTest
test_meaning no_test = none
test_meaning (plain_test n v) = some (record { namespace = none; name = tag n; value = op v })

-- a name has the default namespace, also one that the scanner has made of a prefix
abbrev pub name_meaning : Option Str → WrittenName → StepName
name_meaning namespace any_name = star
name_meaning namespace (plain n) = qname namespace (tag n)

abbrev pub step_meaning : Option Str → WrittenStep → Step
step_meaning namespace w = record {
  name = name_meaning namespace w.name;
  position = position_meaning w.position;
  att_test = test_meaning w.test;
}

abbrev pub path_meaning :
    Option Str → List WrittenStep → WrittenEnd → List Step × Option TerminalSelector
path_meaning namespace ws e = (map (step_meaning namespace) ws, end_meaning e)

-- a text that is no mark of the grammar, and is not taken for one by the tokenizer
abbrev pub IsName : Str → Type 0
IsName n =
    (contains (codes "namespace::") n ≡ false)
    × All (λ mark. str_eq n mark ≡ false)
        (codes "*" ∷ codes "@" ∷ codes "{namespace}:*" ∷ codes "]" ∷ codes "=" ∷ [])

abbrev pub HasNames : WrittenName → Type 0
HasNames any_name = Unit
HasNames (plain n) = IsName n

-- behind a value that is '=', the tokenizer takes the bracket for another value
abbrev pub HasTestNames : WrittenTest → Type 0
HasTestNames no_test = Unit
HasTestNames (plain_test n v) = IsName n × (str_eq v (codes "=") ≡ false)

abbrev pub IsWritten : WrittenStep → Type 0
IsWritten w = HasNames w.name × HasTestNames w.test

abbrev pub IsEnd : WrittenEnd → Type 0
IsEnd element_end = Unit
IsEnd (attribute_end n) = IsName n
IsEnd namespace_end = Unit
