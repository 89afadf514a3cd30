-- ===== src/AppUsage/PresContent/Icons.antt =====
-- The icons that are stored.
use openxcap.Prelude.{
  ◌≤◌, ◌≡◌, true, Option, some, [], ◌∷◌, Str, codes, starts_with, length, ltb, ok, >>=-Passed,
  of_option, of_option-eq-ok, arith, Bool-cases, Option-cases, inl, inr,
}
use openxcap.Errors.{key_error}
use openxcap.Backend.{StatusResponse, Table, Check, Target, Key, query_of}
use openxcap.Backend.Rows.{view, IsUnique}
use openxcap.Backend.Stored.{IsStored, put_document-IsStored}
use openxcap.AppUsage.PresContent.{
  Tree, Icon, icon_mime_types, icon_max_size, read_icon, is_one_of, check_icon, no_icon,
  validate_icon, put_document,
}

-- an icon of an allowed type, in base64, of no more than 300 KiB
abbrev pub IsAllowedIcon : Icon → Type 0
IsAllowedIcon icon =
    (text : Str) × (is_one_of icon.mime_type icon_mime_types ≡ true)
    × (is_one_of icon.encoding (codes "base64" ∷ []) ≡ true)
    × (icon.text ≡ some text)
    × (length text ≤ icon_max_size)

check_icon-IsAllowedIcon : (icon : Icon) → check_icon icon ≡ ok tt → IsAllowedIcon icon
unfolding check_icon
check_icon-IsAllowedIcon icon h = elim (Bool-cases (is_one_of icon.mime_type icon_mime_types)) [
  | inr e ↦ cc (rw (e, check_icon) at h)
  | inl e ↦ elim (Bool-cases (is_one_of icon.encoding (codes "base64" ∷ []))) [
    | inr g ↦ cc (rw (e, g, check_icon) at h)
    | inl g ↦ elim (Option-cases icon.text) [
      | inl n ↦ cc (rw (e, g, n, check_icon) at h)
      | inr (t, n) ↦ elim (Bool-cases (ltb icon_max_size (length t))) [
        | inl b ↦ cc (rw (e, g, n, b, check_icon) at h)
        | inr b ↦ (t, e, g, n, ground arith)
      ]
    ]
  ]
]

-- what the parser and the loop make of a document
abbrev pub HasIcon : (Str → Option Tree) → Str → Icon → Type 0
HasIcon parse doc icon =
    (tree : Tree) × (ns : Str) × (parse doc ≡ some tree)
    × (tree.default_ns ≡ some ns)
    × (read_icon ns tree.children no_icon ≡ ok icon)

validate_icon-HasIcon :
    (parse : Str → Option Tree) (doc : Str)
    → validate_icon parse doc ≡ ok tt
    → (icon : Icon) × HasIcon parse doc icon × IsAllowedIcon icon
unfolding validate_icon
validate_icon-HasIcon parse doc h = elim (Option-cases (parse doc)) [
  | inl e ↦ cc (rw (e, validate_icon) at h)
  | inr (tree, e) ↦
      let (ns, p, h1) =
        >>=-Passed (of_option key_error tree.default_ns) _ (rw (e, validate_icon) at h) in
      let (icon, q, h2) = >>=-Passed (read_icon ns tree.children no_icon) _ h1 in
      (
        icon,
        (tree, ns, e, of_option-eq-ok key_error tree.default_ns p, q),
        check_icon-IsAllowedIcon icon h2,
      )
]

-- Where a PUT of a document whose path starts with 'oma_status-icon' succeeds, the storage has the
-- document, and it has an icon of an allowed type, in base64, of 307200 characters at most.
pub put_document-IsAllowedIcon :
    (parse : Str → Option Tree) (check : Check) (target : Target) (k : Key) (doc fresh : Str)
    (rows after : Table) (r : StatusResponse)
    → query_of target ≡ ok (some k)
    → IsUnique rows
    → starts_with target.document_path (codes "oma_status-icon") ≡ true
    → put_document parse check target doc fresh rows ≡ ok (r, after)
    → IsStored doc (view after k) × ((icon : Icon) × HasIcon parse doc icon × IsAllowedIcon icon)
unfolding put_document
put_document-IsAllowedIcon parse check target k doc fresh rows after r q u path h =
    let (done, p, h1) = >>=-Passed (validate_icon parse doc) _ (rw path at h) in
    (
      put_document-IsStored check target k doc fresh rows after r q u h1,
      validate_icon-HasIcon parse doc p,
    )
