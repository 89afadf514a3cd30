-- ===== src/Api/Stored.antt =====
-- What a client reads of an address book after a route that changed it: the route goes through the PUT
-- of the document, and the answer through a GET of it.
use openxcap.Prelude.{
  ℕ, ◌≡◌, refl, ap, ◌∙◌, sym, true, Option, some, List, [], ◌∷◌, Str, codes, str_eq, arith,
  Bool-cases, Option-cases, Result-cases, inl, inr, ok, err,
}
use openxcap.Errors.{http}
use openxcap.Preconditions.{Method}
use openxcap.Backend.{Table, Key, query_of}
use openxcap.Backend.Rows.{IsUnique}
use openxcap.AppUsage.{Application, Place}
use openxcap.AppUsage.Attributes.{Lxml}
use openxcap.Service.{document, HttpRequest, Response, handle_update}
use openxcap.Service.Cycle.{unconditional, handle_get-update}
use openxcap.Api.{Payload, Store, store_of, addressbook_name, addressbook_in, load_book, save}
use openxcap.Api.Contacts.{drop_member, without_contact, get_contact, delete_contact_route}
use openxcap.Api.Deleted.{BookLaws, without_contact-Lacks}

-- a content that is written is read again, and the lists of a document stay through other changes
pub record TextLaws (payload : Payload) : Type 0 where
  pub parse-toxml : (c : payload.Content) → payload.parse (payload.toxml c) ≡ some c
  pub list-store :
      (n : Str) (y : payload.Group) (c : payload.Content)
      → payload.has_list n (payload.store_group y c) ≡ payload.has_list n c
  pub list-delete :
      (n i : Str) (c : payload.Content)
      → payload.has_list n (payload.delete_contact i c) ≡ payload.has_list n c

module _ (payload : Payload) (texts : TextLaws payload) where
  open payload use {
    Content, contact, group, group_ids, store_group, has_member, remove_member, has_list, parse,
    toxml, delete_contact,
  }
  open texts use {parse-toxml, list-store, list-delete}

  has_list-drop_member :
      (n id : Str) (gs : List Str) (c d : Content)
      → drop_member payload id gs c ≡ ok d
      → has_list n d ≡ has_list n c
  unfolding drop_member
  has_list-drop_member n id [] c d h = ap (has_list n) (ground arith)
  has_list-drop_member n id (g ∷ gs) c d h = elim (Option-cases (group g c)) [
    | inl e ↦ has_list-drop_member n id gs c d (rw e at h)
    | inr (x, e) ↦ elim (Bool-cases (has_member id x)) [
      | inl m ↦ elim (Option-cases (remove_member id x)) [
        | inl r ↦ cc (rw (e, m, r) at h)
        | inr (y, r) ↦
            has_list-drop_member n id gs (store_group y c) d (rw (e, m, r) at h) ∙ list-store n y c
      ]
      | inr m ↦ has_list-drop_member n id gs c d (rw (e, m) at h)
    ]
  ]

  has_list-without_contact :
      (n id : Str) (c d : Content)
      → without_contact payload id c ≡ ok d
      → has_list n d ≡ has_list n c
  unfolding without_contact
  has_list-without_contact n id c d h =
      elim (Result-cases (drop_member payload id (group_ids c) c)) [
        | inl (x, e) ↦ cc (rw e at h)
        | inr (b, e) ↦ elim (Option-cases (contact id b)) [
          | inl f ↦ cc (rw (e, f) at h)
          | inr (k, f) ↦
              let same : delete_contact id b ≡ d = (let q = rw (e, f) at h in ground arith) in
              ap (has_list n) (sym same)
              ∙ (list-delete n id b ∙ has_list-drop_member n id (group_ids c) c b e)
        ]
      ]

  load_book-has_list :
      (store : Store) (rows : Table) (c : Content)
      → load_book payload store rows ≡ ok c
      → has_list addressbook_name c ≡ true
  unfolding load_book addressbook_in
  load_book-has_list store rows c h = elim (Result-cases (store.read rows)) [
    | inl (x, e) ↦ cc (rw e at h)
    | inr (text, e) ↦ elim (Option-cases (parse text)) [
      | inl f ↦ cc (rw (e, f) at h)
      | inr (b, f) ↦ elim (Bool-cases (has_list addressbook_name b)) [
        | inl g ↦
            let same : b ≡ c = (let q = rw (e, f, g) at h in ground arith) in
            ap (has_list addressbook_name) (sym same) ∙ g
        | inr g ↦ cc (rw (e, f, g) at h)
      ]
    ]
  ]

  -- a text that is read is the address book again
  load_book-toxml :
      (store : Store) (rows : Table) (c : Content)
      → store.read rows ≡ ok (toxml c)
      → has_list addressbook_name c ≡ true
      → load_book payload store rows ≡ ok c
  unfolding load_book addressbook_in
  load_book-toxml store rows c h l = rw (h, parse-toxml c, l) refl

  -- the steps of a route that deletes
  delete_contact_route-steps :
      (store : Store) (id fresh : Str) (rows after : Table) (status : ℕ)
      → delete_contact_route payload store id fresh rows ≡ ok (status, after)
      → (c : Content) × (d : Content) × (s : ℕ) × (load_book payload store rows ≡ ok c)
        × (without_contact payload id c ≡ ok d)
        × (store.write (toxml d) fresh rows ≡ ok (s, after))
  unfolding delete_contact_route save
  delete_contact_route-steps store id fresh rows after status h =
      elim (Result-cases (load_book payload store rows)) [
        | inl (x, e) ↦ cc (rw e at h)
        | inr (c, e) ↦ elim (Result-cases (without_contact payload id c)) [
          | inl (x, f) ↦ cc (rw (e, f) at h)
          | inr (d, f) ↦ elim (Result-cases (store.write (toxml d) fresh rows)) [
            | inl (x, g) ↦ cc (rw (e, f, g) at h)
            | inr ((s, t), g) ↦
                let q = rw (e, f, g) at h in
                let same : t ≡ after = ground arith in
                (c, d, s, e, f, g ∙ ap (λ (x : Table). ok (s, x)) same)
          ]
        ]
      ]

module _ (payload : Payload) (texts : TextLaws payload) (laws : BookLaws payload)
    (parse_datetime : Str → Option ℕ) (now : ℕ) (lxml : Lxml) (app : Application)
    (mime default_ns : Option Str) (place : Place) where
  abbrev store : HttpRequest → Store
  store request = store_of parse_datetime now lxml app mime default_ns place document request

  -- the response of a PUT that a route goes through
  write-response :
      (request : HttpRequest) (body fresh : Str) (rows after : Table) (s : ℕ)
      → (store request).write body fresh rows ≡ ok (s, after)
      → (r : Response) × (handle_update parse_datetime now lxml app mime default_ns place document
            (record request { body = body })
            fresh
            rows
          ≡ ok (r, after))
  unfolding store_of
  write-response request body fresh rows after s h =
      elim (Result-cases (
        handle_update parse_datetime now lxml app mime default_ns place document
          (record request { body = body }) fresh rows)) [
            | inl (x, e) ↦ cc (rw e at h)
            | inr ((r, t), e) ↦
                let q = rw e at h in
                let same : t ≡ after = ground arith in (r, e ∙ ap (λ (x : Table). ok (r, x)) same)
          ]

  -- A contact that delete_contact is answered to have deleted is not found by a get_contact that
  -- comes next.
  pub get_contact-delete :
      (k : Key) (method : Method) (request other : HttpRequest) (id fresh : Str)
      (rows after : Table) (status : ℕ)
      → str_eq place.context (codes "users") ≡ true
      → query_of place.target ≡ ok (some k)
      → IsUnique rows
      → delete_contact_route payload (store request) id fresh rows ≡ ok (status, after)
      → get_contact payload (store (record other { conditions = unconditional method })) id after
        ≡ err (http 404)
  unfolding get_contact store_of
  get_contact-delete k method request other id fresh rows after status c q u h =
      let (b, d, s, l, w, p) =
        delete_contact_route-steps payload texts (store request) id fresh rows after status h in
      let (r, g) = write-response request (payload.toxml d) fresh rows after s p in
      let read =
        handle_get-update parse_datetime now lxml app mime default_ns place k method
          (record request { body = payload.toxml d }) other fresh rows after r c q u g in
      let there =
        has_list-without_contact payload texts addressbook_name id b d w
        ∙ load_book-has_list payload texts (store request) rows b l in
      let again =
        load_book-toxml payload texts (store (record other { conditions = unconditional method }))
          after d (rw read refl) there in
      rw (again, (without_contact-Lacks payload laws id b d w).0) refl
