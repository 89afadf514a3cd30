-- ===== src/Tests/Addressbook.antt =====
-- Runs of the routes of an address book, and the theorems at them. An address book here is the ids of
-- its contacts and the members of its only group; a contact is its URIs.
use openxcap.Prelude.{
  ℕ, zero, suc, ◌≡◌, refl, ap, ◌∙◌, sym, true, false, not, ◌&&◌, Option, none, some, List, [], ◌∷◌,
  ◌++◌, map, Str, codes, str_eq, str_eq_iff, str_eq_refl, length, if◌then◌else◌, ok, err,
  Bool-cases, inl, inr, arith, split_first, lookup, insert, strip,
}
use openxcap.Errors.{http}
use openxcap.Preconditions.{http_get, http_delete, check_etag}
use openxcap.Backend.{Table, query_of}
use openxcap.Backend
use openxcap.Backend.Rows.{view, IsUnique}
use openxcap.AppUsage
use openxcap.AppUsage.{validate_document}
use openxcap.Service.{document, HttpRequest, handle_get, handle_update}
use openxcap.Service.Cycle.{unconditional}
use openxcap.Api.{
  Payload, ContactUri, UriModel, ContactModel, is_in, store_of, load_book, addressbook_in, save,
  text, null,
}
use openxcap.Api.Contacts.{
  deduplicated, contact_uri, updated_contact, get_contact, delete_contact_route, without_contact,
}
use openxcap.Api.Contacts.Uris.{UriLaws, HaveNewTexts, texts_of, uris-updated_contact}
use openxcap.Api.Groups.{GroupModel, is_contact, updated_group}
use openxcap.Api.Members.{MemberLaws, updated_group-members}
use openxcap.Api.Deleted.{BookLaws}
use openxcap.Api.Stored.{TextLaws, get_contact-delete}
use openxcap.Tests.Storage.{key, query, app, place}
use openxcap.Tests.Services.{lxml}

-- a list of texts as one text
abbrev written : List Str → Str
written [] = []
written (s ∷ l) = map suc s ++ zero ∷ written l

push_char : ℕ → List Str → List Str
push_char n [] = (n ∷ []) ∷ []
push_char n (s ∷ l) = (n ∷ s) ∷ l

unfoldable read : Str → List Str
unfolding push_char
read [] = []
read (zero ∷ s) = [] ∷ read s
read (suc n ∷ s) = push_char n (read s)

read-text : (s t : Str) → read (map suc s ++ zero ∷ t) ≡ s ∷ read t
unfolding read push_char
read-text [] t = refl
read-text (c ∷ s) t = ap (push_char c) (read-text s t)

read-written : (l : List Str) → read (written l) ≡ l
unfolding read
read-written [] = refl
read-written (s ∷ l) = read-text s (written l) ∙ ap (λ t. s ∷ t) (read-written l)

abbrev halves : ℕ → List Str → List Str × List Str
halves zero l = ([], l)
halves (suc n) [] = ([], [])
halves (suc n) (s ∷ l) = let (a, b) = halves n l in (s ∷ a, b)

halves-append : (a b : List Str) → halves (length a) (a ++ b) ≡ (a, b)
halves-append [] b = refl
halves-append (s ∷ a) b = ap (λ (p : List Str × List Str). (s ∷ p.0, p.1)) (halves-append a b)

abbrev Book : Type 0
Book = List Str × List Str

abbrev book_text : Book → Str
book_text (a, b) = length a ∷ written (a ++ b)

abbrev parsed_book : Str → Option Book
parsed_book [] = none
parsed_book (n ∷ s) = some (halves n (read s))

abbrev without : Str → List Str → List Str
without i [] = []
without i (j ∷ l) = let rest = without i l in if str_eq j i then rest else j ∷ rest

is_in-without : (i j : Str) (l : List Str) → is_in j (without i l) ≡ (not (str_eq i j) && is_in j l)
is_in-without i j [] = ground arith
is_in-without i j (k ∷ l) =
    let ih = is_in-without i j l in
    elim (Bool-cases (str_eq k i)) [
      | inl e ↦ rw (e, ih, ap (λ x. str_eq x j) ((str_eq_iff k i).0 e)) (ground arith)
      | inr e ↦ elim (Bool-cases (str_eq i j)) [
        | inl g ↦
            let n = ap (λ x. str_eq k x) (sym ((str_eq_iff i j).0 g)) ∙ e in rw (e, ih, g, n) refl
        | inr g ↦ rw (e, ih, g) refl
      ]
    ]

abbrev friends : Str
friends = codes "friends"

abbrev tail : List ContactUri → List ContactUri
tail [] = []
tail (u ∷ us) = us

abbrev payload : Payload
payload = record {
  Content = Book;
  Contact = List ContactUri;
  Group = List Str;
  Policy = Str;
  parse = parsed_book;
  toxml = book_text;
  no_lists = ([], []);
  has_list = λ n c. true;
  add_list = λ n c. c;
  contact = λ i c. if is_in i c.0 then some [] else none;
  contacts = λ c. map (λ (i : Str). []) c.0;
  store_contact = λ x c. c;
  delete_contact = λ i c. (without i c.0, c.1);
  new_contact = λ i n p d. [];
  set_fields = λ n p d x. x;
  uris = λ x. x;
  add_uri = λ u x. x ++ u ∷ [];
  remove_uri = λ u x. tail x;
  set_default = λ i x. x;
  set_attributes = λ a x. x;
  update_attributes = λ a x. x;
  group = λ g c. if str_eq friends g then some c.1 else none;
  groups = λ c. c.1 ∷ [];
  group_ids = λ c. friends ∷ [];
  store_group = λ y c. (c.0, y);
  delete_group = λ g c. c;
  new_group = λ g n m a. m;
  group_id = λ y. friends;
  rename = λ n y. y;
  members = λ y. y;
  has_member = λ i y. is_in i y;
  add_member = λ i y. i ∷ y;
  remove_member = λ i y. if is_in i y then some (without i y) else none;
  update_group_attributes = λ a y. y;
  policy = λ i c. none;
  policies = λ c. [];
  store_policy = λ p c. c;
  delete_policy = λ i c. c;
  new_policy = λ i u n p d a. i;
  set_policy = λ u n p d a x. x;
}

text_laws : TextLaws payload
text_laws = record {
  parse-toxml = λ (c : Book).
      ap (λ l. some (halves (length c.0) l)) (read-written (c.0 ++ c.1))
      ∙ ap some (halves-append c.0 c.1);
  list-store = λ n y c. refl;
  list-delete = λ n i c. refl;
}

uri_laws : UriLaws payload
uri_laws = record {
  uris-add = λ u c n. refl;
  uris-remove = λ u us c e. ap tail e;
  uris-default = λ i c. refl;
  uris-attributes = λ a c. refl;
}

removed :
    (i : Str) (x : List Str)
    → is_in i x ≡ true
    → (h : List Str) × (payload.remove_member i x ≡ some h)
      × ((j : Str) → is_in j h ≡ (not (str_eq i j) && is_in j x))
removed i x e = (without i x, rw e refl, λ j. is_in-without i j x)

member_laws : MemberLaws payload
member_laws = record {
  members-has = λ j g. refl;
  has-add = λ x j g. refl;
  has-remove = removed;
  has-rename = λ n j g. refl;
  has-attributes = λ a j g. refl;
}

gone : (i : Str) (l : List Str) → is_in i (without i l) ≡ false
gone i l = is_in-without i i l ∙ rw (str_eq_refl i) refl

the_group :
    (g : Str) (x : List Str) (c : Book) → payload.group g c ≡ some x → str_eq friends g ≡ true
the_group g x c h = elim (Bool-cases (str_eq friends g)) [ inl e ↦ e | inr e ↦ cc (rw e at h) ]

remove-member :
    (i : Str) (x y : List Str)
    → payload.remove_member i x ≡ some y
    → (friends ≡ friends) × (is_in i y ≡ false)
remove-member i x y h = elim (Bool-cases (is_in i x)) [
  | inl e ↦
      let same : without i x ≡ y = (let q = rw e at h in ground arith) in
      (refl, ap (is_in i) (sym same) ∙ gone i x)
  | inr e ↦ cc (rw e at h)
]

book_laws : BookLaws payload
book_laws = record {
  group_ids-all = λ g x c h. rw (the_group g x c h) refl;
  group_id-group = λ g x c h. (str_eq_iff friends g).0 (the_group g x c h);
  group-store =
      λ g y c. elim (Bool-cases (str_eq friends g)) [ inl e ↦ rw e refl | inr e ↦ rw e refl ];
  remove-member = remove-member;
  contact-delete = λ i (c : Book). rw (gone i c.0) refl;
  group-delete = λ i g c. refl;
}

book_code : Unit {0}
unfolding delete_contact_route store_of load_book str_eq without_contact read handle_get
    handle_update validate_document split_first lookup insert strip check_etag query_of view
    Backend.put_document Backend.get_document Backend.fetch_document AppUsage.put_document
    AppUsage.get_document deduplicated contact_uri updated_contact is_contact addressbook_in save
book_code = tt

abbrev new_uri : Str → Str → UriModel
new_uri id uri = record {
  id = id;
  uri = uri;
  type = none;
  attributes = (codes "k", null) ∷ [];
  default = false;
}

abbrev model : ContactModel
model = record {
  name = codes "Bob";
  uris =
      new_uri (codes "1") (codes "sip:b")
      ∷ new_uri (codes "2") (codes "sip:b")
      ∷ new_uri (codes "3") (codes "sip:c")
      ∷ [];
  presence = (codes "allow", true);
  dialog = (codes "block", false);
  attributes = (codes "k", text (codes "v")) ∷ [];
}

abbrev old_uris : List ContactUri
old_uris = record { id = codes "0"; uri = codes "sip:b"; type = none; attributes = [] } ∷ []

uris-updated_contact_example :
    (payload.uris (updated_contact payload model old_uris)
      ≡ map contact_uri (deduplicated [] model.uris))
    × HaveNewTexts [] (deduplicated [] model.uris)
    × ((x : Str) → is_in x (texts_of (deduplicated [] model.uris)) ≡ is_in x (texts_of model.uris))
unfolding str_eq
uris-updated_contact_example =
    uris-updated_contact payload uri_laws model old_uris (refl, (refl, (refl, tt)))

abbrev group_model : GroupModel
group_model = record {
  name = codes "Friends";
  attributes = [];
  contacts = codes "b" ∷ codes "x" ∷ codes "b" ∷ [];
}

abbrev book : Book
book = (codes "a" ∷ codes "b" ∷ [], codes "a" ∷ [])

updated_group-members_example :
    (h : List Str) × (updated_group payload book group_model (codes "a" ∷ []) ≡ ok h)
    × ((j : Str) → is_in j h ≡ (is_in j group_model.contacts && is_contact payload book j))
updated_group-members_example =
    updated_group-members payload member_laws book group_model (codes "a" ∷ [])

abbrev stored : Book → Str → Table
stored c etag = record { key = key; doc = book_text c; etag = etag } ∷ []

abbrev request : HttpRequest
request = record { conditions = unconditional http_delete; content_type = []; body = [] }

abbrev no_date : Str → Option ℕ
no_date s = none

delete_run :
    delete_contact_route payload
      (store_of no_date 0 lxml app none none place document request)
      (codes "a")
      (codes "e2")
      (stored book (codes "e1"))
    ≡ ok (204, stored (codes "b" ∷ [], []) (codes "e2"))
unfolding book_code
delete_run = refl

unique : IsUnique (stored book (codes "e1"))
unfolding book_code
unique = (refl, tt)

get_contact-delete_example :
    get_contact payload
      (store_of no_date 0 lxml app none none place document
        (record request { conditions = unconditional http_get }))
      (codes "a")
      (stored (codes "b" ∷ [], []) (codes "e2"))
    ≡ err (http 404)
unfolding str_eq
get_contact-delete_example =
    get_contact-delete payload text_laws book_laws no_date 0 lxml app none none place key http_get
      request request (codes "a") (codes "e2") (stored book (codes "e1"))
      (stored (codes "b" ∷ [], []) (codes "e2")) 204 refl query unique delete_run
