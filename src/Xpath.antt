-- ===== src/Xpath.antt =====
-- xcap/xpath.py: the tokens and the data of a node selector. The children hold the tokenizer's
-- wrapper, the readers, the document selector, and the operations of selectors.
pub mod Tokens
pub mod Reader
pub mod Document
pub mod Quoting
pub mod Selector
pub mod Node
use openxcap.Prelude.{ℕ, Str, Bool, false, str_eq, Option, none, some, List, Dict}

-- `int` in Python; `negsuc n` is -(n + 1)
pub data ℤ : Type 0 where
  pos : ℕ → ℤ
  negsuc : ℕ → ℤ

-- Op, Tag, and the NamespaceSelector() that `tokens` puts among the texts
pub data Token : Type 0 where
  op tag : Str → Token
  namespace_selector : Token

-- the exceptions that the module raises, or lets through
pub data XpathError : Type 0 where
  node_parsing_error : XpathError
  document_selector_error : XpathError
  value_error index_error key_error attribute_error type_error : XpathError

-- `token == s`
unfoldable pub token_is : Token → Str → Bool
token_is (op t) s = str_eq t s
token_is (tag t) s = str_eq t s
token_is namespace_selector s = false

-- maps prefixes to namespaces
abbrev pub Namespaces : Type 0
Namespaces = Dict Str

-- the name of a step: '*', or a namespace and a local name
pub data StepName : Type 0 where
  star : StepName
  qname : Option Str → Token → StepName

-- Step.att_name and Step.att_value, which are both None or both set
pub record AttTest : Type 0 where
  pub namespace : Option Str
  pub name : Token
  pub value : Token

pub record Step : Type 0 where
  pub name : StepName
  pub position : Option ℤ
  pub att_test : Option AttTest

pub data TerminalSelector : Type 0 where
  attribute_selector : Token → TerminalSelector
  namespace_selector : TerminalSelector

pub record ElementSelector : Type 0 where
  pub steps : List Step
  pub namespace : Option Str
  pub namespaces : Namespaces
