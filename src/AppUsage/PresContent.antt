-- ===== src/AppUsage/PresContent.antt =====
-- xcap/appusage/prescontent.py: the icons of users.
pub mod Icons
use openxcap.Prelude.{
  ℕ, Bool, true, false, not, Option, none, some, List, [], ◌∷◌, ◌++◌, any, Str, codes, str_eq, join,
  starts_with, length, ltb, if◌then◌else◌, Result, ok, err, ◌>>=◌, of_option, decimal,
}
use openxcap.Errors.{
  Fault, xcap, key_error, attribute_error, xcap_error, constraint_failure, not_well_formed,
}
use openxcap.HttpUtils.{lower}
use openxcap.Backend.{StatusResponse, Table, Check, Target}
use openxcap.Backend
use openxcap.AppUsage.{raise}
use openxcap.AppUsage.Markup.{Node, Nodes, nil, cons, has_tag, text_of, clark}

-- a parsed document: the default namespace of its root, if it has one, and the children of the root
pub record Tree : Type 0 where
  pub default_ns : Option Str
  pub children : Nodes

-- the variables of _validate_icon
pub record Icon : Type 0 where
  pub mime_type : Option Str
  pub encoding : Option Str
  pub text : Option Str

abbrev pub icon_mime_types : List Str
icon_mime_types = codes "image/jpeg" ∷ codes "image/gif" ∷ codes "image/png" ∷ []

abbrev pub icon_max_size : ℕ
icon_max_size = 307200

-- element.text.lower() on Latin-1. A text with other characters is, in lower case, none of the constants
-- that the result is compared with.
lower_text : Node → Result Fault (Option Str)
unfolding lower
lower_text c = elim (text_of c) [ none ↦ err attribute_error | some t ↦ ok (some (lower t)) ]

-- the three tests on one element
read_mime_type : Str → Node → Icon → Result Fault Icon
unfolding lower_text
read_mime_type ns c icon =
    if has_tag (clark ns (codes "mime-type")) c
    then (do t ← lower_text c; ok (record icon { mime_type = t }))
    else ok icon

read_encoding : Str → Node → Icon → Result Fault Icon
unfolding lower_text
read_encoding ns c icon =
    if has_tag (clark ns (codes "encoding")) c
    then (do t ← lower_text c; ok (record icon { encoding = t }))
    else ok icon

read_data : Str → Node → Icon → Icon
read_data ns c icon =
    if has_tag (clark ns (codes "data")) c then record icon { text = text_of c } else icon

-- the loop over the root
unfoldable pub read_icon : Str → Nodes → Icon → Result Fault Icon
unfolding read_mime_type read_encoding read_data
read_icon ns nil icon = ok icon
read_icon ns (cons c cs) icon = do
  a ← read_mime_type ns c icon
  b ← read_encoding ns c a
  read_icon ns cs (read_data ns c b)

abbrev pub is_one_of : Option Str → List Str → Bool
is_one_of none l = false
is_one_of (some s) l = any (λ x. str_eq s x) l

-- the constraints
unfoldable pub check_icon : Icon → Result Fault (Unit {0})
unfolding str_eq decimal
check_icon icon =
    if not (is_one_of icon.mime_type icon_mime_types)
    then raise constraint_failure
        (codes "Unsupported MIME type. Allowed MIME types: " ++ join (codes ",") icon_mime_types) []
    else if not (is_one_of icon.encoding (codes "base64" ∷ []))
    then raise constraint_failure (codes "Unsupported encoding. Allowed enconding: base64") []
    else elim icon.text [
      | none ↦ raise constraint_failure (codes "No icon data was provided") []
      | some t ↦
          if ltb icon_max_size (length t)
          then raise constraint_failure
              (codes "Size limit exceeded, maximum allowed size is "
                ++ (decimal icon_max_size ++ codes " bytes"))
              []
          else ok tt
    ]

abbrev pub no_icon : Icon
no_icon = record { mime_type = none; encoding = none; text = none }

-- _validate_icon; the parser of lxml gives `none` for a ParseError
unfoldable pub validate_icon : (Str → Option Tree) → Str → Result Fault (Unit {0})
unfolding read_icon check_icon
validate_icon parse doc = elim (parse doc) [
  | none ↦ raise not_well_formed [] []
  | some tree ↦ do
    ns ← of_option key_error tree.default_ns
    icon ← read_icon ns tree.children no_icon
    check_icon icon
]

-- PresContentApplication.put_document
unfoldable pub put_document :
    (Str → Option Tree) → Check → Target → Str → Str → Table → Result Fault (StatusResponse × Table)
unfolding validate_icon starts_with
put_document parse check target doc fresh rows = do
  done ←
      (if starts_with target.document_path (codes "oma_status-icon")
        then validate_icon parse doc
        else ok tt)
  Backend.put_document check target doc fresh rows
