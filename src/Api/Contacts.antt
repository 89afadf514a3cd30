-- ===== src/Api/Contacts.antt =====
-- The routes of contacts.
pub mod Uris
use openxcap.Prelude.{
  ℕ, Bool, true, false, not, Option, none, some, List, [], ◌∷◌, ◌++◌, Str, codes, str_eq,
  if◌then◌else◌, ◌==◌, Result, ok, err, ◌>>=◌, of_option,
}
use openxcap.Errors.{Fault, http, key_error}
use openxcap.Backend.{Table}
use openxcap.Api.{
  Payload, Store, ContactUri, UriModel, ContactModel, coerce_attribute_values, coerce_from, is_in,
  load_book, load_or_make, save, no_content,
}

-- the URIs of a model without those that came before
unfoldable pub deduplicated : List Str → List UriModel → List UriModel
deduplicated seen [] = []
deduplicated seen (u ∷ us) =
    let skipped = deduplicated seen us in
    let kept = u ∷ deduplicated (u.uri ∷ seen) us in if is_in u.uri seen then skipped else kept

unfoldable pub contact_uri : UriModel → ContactUri
unfolding coerce_from
contact_uri u = record {
  id = u.id;
  uri = u.uri;
  type = u.type;
  attributes = coerce_attribute_values u.attributes;
}

module _ (payload : Payload) where
  open payload use {
    Content, Contact, contact, contacts, store_contact, delete_contact, new_contact, set_fields,
    uris, add_uri, remove_uri, set_default, set_attributes, update_attributes, group, group_ids,
    store_group, has_member, remove_member,
  }

  -- one URI is added to a contact
  unfoldable pub with_uri : UriModel → Contact → Contact
  unfolding contact_uri
  with_uri u c =
      let added = add_uri (contact_uri u) c in if u.default then set_default u.id added else added

  -- the loop over contact.uris, with the set of those that it has seen
  unfoldable pub add_uris : List Str → List UriModel → Contact → Contact
  unfolding with_uri
  add_uris seen [] c = c
  add_uris seen (u ∷ us) c =
      let skipped = add_uris seen us c in
      let kept = add_uris (u.uri ∷ seen) us (with_uri u c) in
      if is_in u.uri seen then skipped else kept

  -- the loop that empties a contact
  unfoldable pub remove_uris : List ContactUri → Contact → Contact
  remove_uris [] c = c
  remove_uris (u ∷ us) c = remove_uris us (remove_uri u c)

  -- the contact that add_contact makes
  unfoldable pub made_contact : Str → ContactModel → Contact
  unfolding add_uris coerce_from
  made_contact id m =
      set_attributes (coerce_attribute_values m.attributes)
        (add_uris [] m.uris (new_contact id m.name m.presence m.dialog))

  -- what update_contact makes of a contact
  unfoldable pub updated_contact : ContactModel → Contact → Contact
  unfolding add_uris remove_uris coerce_from
  updated_contact m c =
      let fields = set_fields m.name m.presence m.dialog c in
      update_attributes (coerce_attribute_values m.attributes)
        (add_uris [] m.uris (remove_uris (uris fields) fields))

  -- the loop of delete_contact over the groups that have the contact
  unfoldable pub drop_member : Str → List Str → Content → Result Fault Content
  drop_member id [] c = ok c
  drop_member id (g ∷ gs) c = do
    rest ← (elim (group g c) [
      | none ↦ ok c
      | some x ↦
          if has_member id x
          then (do y ← of_option key_error (remove_member id x); ok (store_group y c))
          else ok c
    ])
    drop_member id gs rest

  -- the content that delete_contact leaves
  unfoldable pub without_contact : Str → Content → Result Fault Content
  unfolding drop_member
  without_contact id c = do
    d ← drop_member id (group_ids c) c
    elim (contact id d) [ none ↦ err (http 404) | some x ↦ ok (delete_contact id d) ]

  module _ (store : Store) where
    -- get_contacts
    unfoldable pub get_contacts : Table → Result Fault (List Contact)
    get_contacts rows = do c ← load_book payload store rows; ok (contacts c)

    -- get_contact
    unfoldable pub get_contact : Str → Table → Result Fault Contact
    get_contact id rows = do c ← load_book payload store rows; of_option (http 404) (contact id c)

    -- add_contact
    unfoldable pub add_contact : Str → ContactModel → Str → Table → Result Fault (Contact × Table)
    add_contact id m fresh rows = do
      c ← load_or_make payload store rows
      elim (contact id c) [
        | some x ↦ err (http 409)
        | none ↦ do
          (status, after) ← save payload store (store_contact (made_contact id m) c) fresh rows
          ok (made_contact id m, after)
      ]

    -- update_contact
    unfoldable pub update_contact :
        Str → ContactModel → Str → Table → Result Fault (Contact × Table)
    update_contact id m fresh rows = do
      c ← load_book payload store rows
      x ← of_option (http 404) (contact id c)
      (status, after) ← save payload store (store_contact (updated_contact m x) c) fresh rows
      ok (updated_contact m x, after)

    -- delete_contact
    unfoldable pub delete_contact_route : Str → Str → Table → Result Fault (ℕ × Table)
    delete_contact_route id fresh rows = do
      c ← load_book payload store rows
      d ← without_contact id c
      (status, after) ← save payload store d fresh rows
      ok (no_content status, after)
