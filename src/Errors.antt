-- ===== src/Errors.antt =====
-- xcap/errors.py: the errors of XCAP and the documents that describe them, and how a request can
-- end without a response of its own.
pub mod Comments
use openxcap.Prelude.{
  ℕ, zero, suc, Option, none, some, List, [], ◌∷◌, ◌++◌, Str, codes, is_empty, strip_prefix, Bool,
  true, false, ◌&&◌, if◌then◌else◌,
}
use openxcap.Xpath.{XpathError}
use openxcap.Xpath.Quoting.{quoteattr}
use openxcap.Element.{ElementError}

-- the subclasses of XCAPError, with the fields that two of them add
pub data ErrorKind : Type 0 where
  schema_validation_error not_xml_frag cannot_insert cannot_delete : ErrorKind
  not_xml_att_value not_well_formed constraint_failure not_utf_8 : ErrorKind
  no_parent : Str → ErrorKind
  uniqueness_failure : Str → ErrorKind

pub record XcapError : Type 0 where
  pub kind : ErrorKind
  pub phrase : Str
  pub comment : Str

-- str(comment).replace('-->', '--&gt;'); the first argument is how much of the last match is ahead
unfoldable pub hide_close : ℕ → Str → Str
unfolding strip_prefix
hide_close k [] = []
hide_close (suc k) (c ∷ s) = hide_close k s
hide_close zero (c ∷ s) = elim (strip_prefix (codes "-->") (c ∷ s)) [
  | none ↦ c ∷ hide_close zero s
  | some _ ↦ codes "--&gt;" ++ hide_close 2 s
]

comment_text : Str → Str
unfolding hide_close
comment_text [] = []
comment_text (c ∷ s) = codes "<!--\n" ++ (hide_close 0 (c ∷ s) ++ codes "\n-->")

-- XCAPError.__init__
unfoldable pub xcap_error : ErrorKind → Str → Str → XcapError
unfolding comment_text
xcap_error kind phrase comment = record {
  kind = kind;
  phrase = phrase;
  comment = comment_text comment;
}

unfoldable pub tag_of : ErrorKind → Str
tag_of schema_validation_error = codes "schema-validation-error"
tag_of not_xml_frag = codes "not-xml-frag"
tag_of cannot_insert = codes "cannot-insert"
tag_of cannot_delete = codes "cannot-delete"
tag_of not_xml_att_value = codes "not-xml-att-value"
tag_of not_well_formed = codes "not-well-formed"
tag_of constraint_failure = codes "constraint-failure"
tag_of not_utf_8 = codes "not-utf-8"
tag_of (no_parent ancestor) = codes "no-parent"
tag_of (uniqueness_failure exists) = codes "uniqueness-failure"

-- format_my_body
unfoldable pub body_of : ErrorKind → Str
unfolding quoteattr
body_of (no_parent (c ∷ ancestor)) = codes "<ancestor>" ++ ((c ∷ ancestor) ++ codes "</ancestor>")
body_of (uniqueness_failure exists) = codes "<exists field=" ++ (quoteattr exists ++ codes "/>")
body_of _ = []

-- format_my_phrase
unfoldable pub phrase_of : Str → Str
unfolding quoteattr
phrase_of [] = []
phrase_of (c ∷ phrase) = codes " phrase=" ++ quoteattr (c ∷ phrase)

-- XCAPError.format_my_tag
unfoldable pub format_my_tag : XcapError → Str
unfolding tag_of body_of phrase_of
format_my_tag e =
    let tag = tag_of e.kind in
    let attr = phrase_of e.phrase in
    let body = body_of e.kind in
    if is_empty body && is_empty e.comment
    then codes "<" ++ (tag ++ (attr ++ codes "/>"))
    else codes "<"
      ++ (tag
          ++ (attr ++ (codes ">" ++ (e.comment ++ (body ++ (codes "</" ++ (tag ++ codes ">")))))))

-- XCAPError.build_xml_output
unfoldable pub build_xml_output : XcapError → Str
unfolding format_my_tag
build_xml_output e =
    codes
      "<?xml version=\"1.0\" encoding=\"UTF-8\"?>\n<xcap-error xmlns=\"urn:ietf:params:xml:ns:xcap-error\">"
    ++ (format_my_tag e ++ codes "</xcap-error>")

-- How a request ends where no handler returns a response: with an HTTPException or HTTPError of a
-- status, with an XCAPError, whose status is 409, or with an exception of a library call or of a
-- selector that nothing catches, for which the server answers 500.
pub data Fault : Type 0 where
  http : ℕ → Fault
  xcap : XcapError → Fault
  selector : XpathError → Fault
  document : ElementError → Fault
  value_error key_error type_error attribute_error index_error decode_error assertion_error
        integrity_error :
      Fault
  multiple_results xml_syntax_error not_implemented stale_data : Fault

unfoldable pub status_of : Fault → ℕ
status_of (http n) = n
status_of (xcap e) = 409
status_of _ = 500
