-- ===== src/Element.antt =====
-- xcap/element.py: locating an element, and the place for a new one, in the stream of events of the
-- SAX parser, and splicing the document there.
pub mod Find
pub mod Insert
pub mod Utf8
pub mod Splice
mod Tests
pub mod Tree
use openxcap.Prelude.{
  ℕ, zero, suc, Bool, true, false, ◌&&◌, Option, none, some, List, [], ◌∷◌, Str, str_eq,
  if◌then◌else◌, ◌==◌,
}
use openxcap.Xpath.{ℤ, pos, negsuc, token_is, StepName, star, qname, AttTest, Step}

-- the (namespace, local name) pairs of the namespace-aware parser
pub record Name : Type 0 where
  pub namespace : Option Str
  pub local : Str

pub record Attribute : Type 0 where
  pub name : Name
  pub value : Str

-- the calls of the content handler that the locators implement, with `pos()` at that moment; the
-- parser passes None as `qname`
pub data Event : Type 0 where
  start_element : Name → List Attribute → ℕ → Event
  end_element : Name → ℕ → Event

-- self.state
pub data LocatorState : Type 0 where
  looking found done many closed : LocatorState

-- element.Step: an open element, and how many of its children have matched so far
pub record PathStep : Type 0 where
  pub name : Name
  pub position : ℕ

-- The fields of both locators; `path` has its last element at the head.
pub record Locator : Type 0 where
  pub path : List PathStep
  pub state : LocatorState
  pub curstep : ℕ
  pub skiplevel : ℕ
  pub start_pos : Option ℕ
  pub end_pos : Option ℕ
  pub end_tag : Option Str
  pub end_pos_2 : Option ℕ

pub data ElementError : Type 0 where
  sax_parse_error decode_error : ElementError
  attribute_error index_error value_error : ElementError
  locator_error : ElementError

-- startDocument
abbrev pub start_document : Locator
start_document = record {
  path = [];
  state = looking;
  curstep = 0;
  skiplevel = 0;
  start_pos = none;
  end_pos = none;
  end_tag = none;
  end_pos_2 = none;
}

abbrev pub namespace_eq : Option Str → Option Str → Bool
namespace_eq none none = true
namespace_eq (some a) (some b) = str_eq a b
namespace_eq _ _ = false

-- curstep.name == '*' or curstep.name == name
unfoldable pub name_matches : StepName → Name → Bool
name_matches star n = true
name_matches (qname ns l) n = namespace_eq ns n.namespace && token_is l n.local

-- attrs.get(att_name) == att_value
unfoldable pub attribute_is : AttTest → List Attribute → Bool
attribute_is t [] = false
attribute_is t (a ∷ attrs) =
    if namespace_eq t.namespace a.name.namespace && token_is t.name a.name.local
    then token_is t.value a.value
    else attribute_is t attrs

-- `not (att_name is not None and attrs.get(att_name) != att_value)`
unfoldable pub att_test_passes : Option AttTest → List Attribute → Bool
unfolding attribute_is
att_test_passes none attrs = true
att_test_passes (some t) attrs = attribute_is t attrs

-- position == n
unfoldable pub position_is : ℤ → ℕ → Bool
position_is (pos m) n = m == n
position_is (negsuc m) n = false

-- position is None or position == n
unfoldable pub position_passes : Option ℤ → ℕ → Bool
unfolding position_is
position_passes none n = true
position_passes (some p) n = position_is p n

-- parent.position += 1, if there is a parent
abbrev pub count_child : List PathStep → List PathStep
count_child [] = []
count_child (p ∷ path) = record p { position = suc p.position } ∷ path

-- `if self.state == 'DONE' and self.end_pos_2 is None: self.end_pos_2 = self.pos()`
mark : ℕ → Locator → LocatorState → Option ℕ → Locator
mark p l done none = record l { end_pos_2 = some p }
mark p l _ _ = l

unfoldable pub mark_next : ℕ → Locator → Locator
unfolding mark
mark_next p l = mark p l l.state l.end_pos_2
