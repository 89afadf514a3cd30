-- ===== src/AppUsage/Markup.antt =====
-- The trees of lxml.etree as the applications of xcap/appusage read them.
use openxcap.Prelude.{
  Bool, true, false, Option, none, some, List, [], ◌∷◌, ◌++◌, Str, codes, str_eq, if◌then◌else◌,
  Dict, lookup,
}

-- an element: its tag, which is no text for a comment; its attributes; its text; and its children
mutual
  pub data Node : Type 0 where
    node : Option Str → Dict Str → Option Str → Nodes → Node

  pub data Nodes : Type 0 where
    nil : Nodes
    cons : Node → Nodes → Nodes

-- elem.tag == tag
abbrev pub has_tag : Str → Node → Bool
has_tag t (node none attrs text children) = false
has_tag t (node (some s) attrs text children) = str_eq s t

-- elem.get(name)
unfoldable pub get : Str → Node → Option Str
unfolding lookup
get name (node t attrs text children) = lookup name attrs

abbrev pub text_of : Node → Option Str
text_of (node t attrs text children) = text

abbrev pub children_of : Node → Nodes
children_of (node t attrs text children) = children

abbrev pub is_childless : Node → Bool
is_childless (node t attrs text nil) = true
is_childless (node t attrs text (cons c cs)) = false

-- elem.findall(tag): children
unfoldable pub find_all : Str → Nodes → List Node
find_all t nil = []
find_all t (cons c cs) = let rest = find_all t cs in if has_tag t c then c ∷ rest else rest

-- elem.find(tag)
unfoldable pub find : Str → Nodes → Option Node
find t nil = none
find t (cons c cs) = let rest = find t cs in if has_tag t c then some c else rest

-- elem.iter(tag): the element and all below it, in the order of the document
unfoldable mutual
  pub iter : Str → Node → List Node
  iter t (node s attrs text children) =
      (if has_tag t (node s attrs text children) then node s attrs text children ∷ [] else [])
      ++ iter_all t children

  pub iter_all : Str → Nodes → List Node
  iter_all t nil = []
  iter_all t (cons c cs) = iter t c ++ iter_all t cs

-- '{namespace}name'
abbrev pub clark : Str → Str → Str
clark namespace name = codes "{" ++ (namespace ++ (codes "}" ++ name))
