-- ===== src/Tests/Applications.antt =====
-- Runs of the constraints of applications, and the theorems at them.
use openxcap.Prelude.{
  ◌≡◌, refl, true, false, none, some, [], ◌∷◌, Str, codes, ok, err, str_eq, any, strip_prefix,
  split_first, lookup, starts_with, strip, decimal,
}
use openxcap.Xpath.Document.{document_selector}
use openxcap.Xpath.Document.Laws.{user_document}
use openxcap.Uri.{XcapUri, xcap_uri, parse_user, same_user}
use openxcap.Backend.{StatusResponse, Target, Key, Table, query_of}
use openxcap.Backend
use openxcap.Backend.Rows.{view}
use openxcap.Backend.Stored.{IsStored}
use openxcap.HttpUtils.{lower}
use openxcap.AppUsage.{validate_document}
use openxcap.AppUsage.Markup.{Node, node, nil, cons, clark, get, find, find_all, iter}
use openxcap.AppUsage.ResourceLists
use openxcap.AppUsage.ResourceLists.{
  Calls, default_ns, none_seen, attribute_not_unique, check_list, check_children, check_anchor,
  parse_external_list_uri, check_owner,
}
use openxcap.AppUsage.ResourceLists.Unique.{HasUnique, put_document-HasUnique}
use openxcap.AppUsage.ResourceLists.Anchors.{repeated, external, check_children-repeated}
use openxcap.AppUsage.PresContent
use openxcap.AppUsage.PresContent.Icons.{IsAllowedIcon, HasIcon, put_document-IsAllowedIcon}
use openxcap.AppUsage.PresRules
use openxcap.AppUsage.PresRules.Links.{HasAllowedRules, put_document-HasAllowedRules}
use openxcap.Tests.Storage.{target, key, rows, rows-IsUnique, query, app, place, check}
use openxcap.Tests.Access.{config}

application_code : Unit {0}
unfolding check_list check_children check_anchor attribute_not_unique get find find_all iter
    ResourceLists.put_document PresContent.put_document PresContent.validate_icon
    PresContent.read_icon PresContent.check_icon PresRules.put_document PresRules.validate_rules
    PresRules.check_tree parse_external_list_uri check_owner ResourceLists.see_list
    ResourceLists.see_child ResourceLists.get_xpath Backend.put_document Backend.fetch_document
    query_of view str_eq lookup starts_with strip_prefix split_first document_selector xcap_uri
    parse_user same_user validate_document lower strip decimal ResourceLists.is_seen
    PresRules.check_conditions PresRules.check_rules PresRules.check_external_lists
    PresRules.check_entries PresRules.check_external_list
application_code = tt

abbrev calls : Calls
calls = record {
  scan = λ s namespaces. none;
  unquote = λ s. s;
  scheme = λ s. some (codes "http");
  words = λ e. [];
  namespaces = [];
  config = config;
  allow_external_references = false;
}

-- a list or an entry with one attribute
abbrev item : Str → Str → Str → Node
item name attribute value = node (some (clark default_ns name)) ((attribute, value) ∷ []) none nil

abbrev owner : XcapUri
owner = record {
  xcap_root = codes "http://h/x";
  resource_selector = [];
  doc_selector = user_document (codes "resource-lists") (codes "sip:alice@d") (codes "index");
  node_selector = none;
  user = record { username = some (codes "alice"); domain = some (codes "d") };
}

abbrev lists : Node
lists = node (some (clark default_ns (codes "resource-lists"))) [] none (
    cons
      (node (some (clark default_ns (codes "list"))) ((codes "name", codes "friends") ∷ []) none (
        cons (item (codes "entry") (codes "uri") (codes "sip:a"))
          (cons (item (codes "entry") (codes "uri") (codes "sip:b")) nil)))
      (cons (item (codes "list") (codes "name") (codes "family")) nil))

abbrev body : Str
body = codes "<x/>"

abbrev answered : StatusResponse
answered = record {
  code = 200;
  etag = some (codes "e2");
  body = none;
  old_etag = some (codes "e1");
}

abbrev after : Table
after = record { key = key; doc = body; etag = codes "e2" } ∷ []

lists_run :
    ResourceLists.put_document calls (λ s. some lists) app check place owner body (codes "e2") rows
    ≡ ok (answered, after)
unfolding application_code
lists_run = refl

-- two entries with one URI
same_uri_run :
    check_list calls (some owner) [] (
      node (some (clark default_ns (codes "list"))) [] none (
        cons
          (item (codes "entry") (codes "uri") (codes "sip:a"))
          (cons (item (codes "entry") (codes "uri") (codes "sip:a")) nil)))
    ≡ err (attribute_not_unique (1 ∷ []) (codes "uri"))
unfolding application_code
same_uri_run = refl

put_document-HasUnique_example :
    IsStored body (view after key) × (tree : Node) × (some lists ≡ some tree) × HasUnique tree
put_document-HasUnique_example =
    put_document-HasUnique calls (λ s. some lists) app check place owner key body (codes "e2") rows
      after answered query rows-IsUnique lists_run

abbrev friends : Str
friends = codes "http://h/x/resource-lists/users/sip:alice@d/index"

anchor_run : check_anchor calls (some owner) (calls.unquote friends) none_seen ≡ ok none_seen
unfolding application_code
anchor_run = refl

check_children-repeated_example :
    check_children calls (some owner) [] 0 (repeated 3 (external friends)) none_seen ≡ ok tt
check_children-repeated_example =
    check_children-repeated calls refl (some owner) [] 0 3 friends none_seen anchor_run

abbrev icon_key : Key
icon_key = record key { doc_uri = codes "oma_status-icon/index" }

abbrev icon_target : Target
icon_target = record target { document_path = codes "oma_status-icon/index" }

icon_query : query_of icon_target ≡ ok (some icon_key)
unfolding application_code
icon_query = refl

abbrev part : Str → Str → Node
part name text = node (some (clark (codes "ns") name)) [] (some text) nil

abbrev icon_tree : PresContent.Tree
icon_tree = record {
  default_ns = some (codes "ns");
  children = cons (part (codes "mime-type") (codes "image/PNG")) (
      cons (part (codes "encoding") (codes "base64"))
        (cons (part (codes "data") (codes "AAAA")) nil));
}

abbrev icon_rows : Table
icon_rows = record { key = icon_key; doc = body; etag = codes "e1" } ∷ []

icon_run :
    PresContent.put_document (λ s. some icon_tree) check icon_target body (codes "e1") []
    ≡ ok (record { code = 201; etag = some (codes "e1"); body = none; old_etag = none }, icon_rows)
unfolding application_code
icon_run = refl

is_icon_path : starts_with icon_target.document_path (codes "oma_status-icon") ≡ true
unfolding application_code
is_icon_path = refl

put_document-IsAllowedIcon_example :
    IsStored body (view icon_rows icon_key)
    × ((icon : PresContent.Icon) × HasIcon (λ s. some icon_tree) body icon × IsAllowedIcon icon)
put_document-IsAllowedIcon_example =
    put_document-IsAllowedIcon (λ s. some icon_tree) check icon_target icon_key body (codes "e1") []
      icon_rows (record { code = 201; etag = some (codes "e1"); body = none; old_etag = none })
      icon_query tt is_icon_path icon_run

abbrev rules : PresRules.Tree
rules = record {
  namespaces = PresRules.oma ∷ [];
  root = node (some (codes "ruleset")) [] none (
      cons
        (node (some (clark PresRules.oma (codes "external-list"))) [] none (
          cons
            (node (some (clark PresRules.oma (codes "entry"))) ((codes "anc", friends) ∷ []) none
              nil)
            nil))
        nil);
}

rules_run :
    PresRules.put_document calls owner (λ s. some rules) app check place body (codes "e2") rows
    ≡ ok (answered, after)
unfolding application_code
rules_run = refl

has_oma : any (λ n. str_eq n PresRules.oma) rules.namespaces ≡ true
unfolding application_code
has_oma = refl

put_document-HasAllowedRules_example :
    IsStored body (view after key) × HasAllowedRules calls owner rules.root
put_document-HasAllowedRules_example =
    put_document-HasAllowedRules calls owner (λ s. some rules) app check place key body (codes "e2")
      rows after answered rules query rows-IsUnique refl has_oma rules_run
