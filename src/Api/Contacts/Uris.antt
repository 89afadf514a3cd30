-- ===== src/Api/Contacts/Uris.antt =====
-- The URIs of a contact that update_contact stores.
use openxcap.Prelude.{
  ◌≡◌, refl, ap, ◌∙◌, sym, true, false, not, ◌&&◌, List, [], ◌∷◌, ◌++◌, append-nil, append_assoc,
  map, Str, str_eq, str_eq_iff, arith, Bool-cases, inl, inr,
}
use openxcap.Api.{Payload, ContactUri, UriModel, ContactModel, is_in}
use openxcap.Api.Contacts.{
  deduplicated, contact_uri, with_uri, add_uris, remove_uris, updated_contact,
}

abbrev pub ids_of : List ContactUri → List Str
ids_of us = map (λ (u : ContactUri). u.id) us

-- how the URIs of a payload answer to its operations: a URI whose id is new is added at the end, the
-- first can be removed, and other changes leave them alone
pub record UriLaws (payload : Payload) : Type 0 where
  pub uris-add :
      (u : ContactUri) (c : payload.Contact)
      → is_in u.id (ids_of (payload.uris c)) ≡ false
      → payload.uris (payload.add_uri u c) ≡ payload.uris c ++ u ∷ []
  pub uris-remove :
      (u : ContactUri) (us : List ContactUri) (c : payload.Contact)
      → payload.uris c ≡ u ∷ us
      → payload.uris (payload.remove_uri u c) ≡ us
  pub uris-default :
      (id : Str) (c : payload.Contact) → payload.uris (payload.set_default id c) ≡ payload.uris c
  pub uris-attributes :
      (a : List (Str × Str)) (c : payload.Contact)
      → payload.uris (payload.update_attributes a c) ≡ payload.uris c

-- no id in a model is one of those before it
abbrev pub AreNew : List Str → List UriModel → Type 0
AreNew ids [] = Unit
AreNew ids (u ∷ us) = (is_in u.id ids ≡ false) × AreNew (u.id ∷ ids) us

abbrev pub texts_of : List UriModel → List Str
texts_of us = map (λ (u : UriModel). u.uri) us

-- no text is one of those before it, `seen` included
abbrev pub HaveNewTexts : List Str → List UriModel → Type 0
HaveNewTexts seen [] = Unit
HaveNewTexts seen (u ∷ us) = (is_in u.uri seen ≡ false) × HaveNewTexts (u.uri ∷ seen) us

deduplicated-HaveNewTexts :
    (seen : List Str) (us : List UriModel) → HaveNewTexts seen (deduplicated seen us)
unfolding deduplicated
deduplicated-HaveNewTexts seen [] = tt
deduplicated-HaveNewTexts seen (u ∷ us) = elim (Bool-cases (is_in u.uri seen)) [
  | inl e ↦ rw e (deduplicated-HaveNewTexts seen us)
  | inr e ↦ rw e (e, deduplicated-HaveNewTexts (u.uri ∷ seen) us)
]

is_in-deduplicated :
    (x : Str) (seen : List Str) (us : List UriModel)
    → is_in x (texts_of (deduplicated seen us)) ≡ (not (is_in x seen) && is_in x (texts_of us))
unfolding deduplicated
is_in-deduplicated x seen [] = ground arith
is_in-deduplicated x seen (u ∷ us) = elim (Bool-cases (is_in u.uri seen)) [
  | inl e ↦
      let ih = is_in-deduplicated x seen us in
      rw e (
        ih ∙ elim (Bool-cases (str_eq u.uri x)) [
          | inl g ↦
              let same = (str_eq_iff u.uri x).0 g in
              let there : is_in x seen ≡ true = ap (λ y. is_in y seen) (sym same) ∙ e in
              rw (g, there) refl
          | inr g ↦ rw g refl
        ])
  | inr e ↦
      let ih = is_in-deduplicated x (u.uri ∷ seen) us in
      rw e (elim (Bool-cases (str_eq u.uri x)) [
        | inl g ↦
            let same = (str_eq_iff u.uri x).0 g in
            let there : is_in x seen ≡ false = ap (λ y. is_in y seen) (sym same) ∙ e in
            rw (g, there) refl
        | inr g ↦ rw g (ih ∙ rw g refl)
      ])
]

-- ids that stand for more
abbrev Covers : List Str → List Str → Type 0
Covers ids known = (x : Str) → is_in x ids ≡ false → is_in x known ≡ false

Covers-both : (x : Str) (ids known : List Str) → Covers ids known → Covers (x ∷ ids) (x ∷ known)
Covers-both x ids known h y e = ground (arith, h y)

AreNew-fewer :
    (ids known : List Str) (us : List UriModel) → Covers ids known → AreNew ids us → AreNew known us
AreNew-fewer ids known [] h n = tt
AreNew-fewer ids known (u ∷ us) h n =
    (h u.id n.0, AreNew-fewer (u.id ∷ ids) (u.id ∷ known) us (Covers-both u.id ids known h) n.1)

is_in-append :
    (x : Str) (us : List ContactUri) (u : ContactUri)
    → is_in x (ids_of (us ++ u ∷ [])) ≡ is_in x (u.id ∷ ids_of us)
is_in-append x [] u = refl
is_in-append x (v ∷ us) u = let ih = is_in-append x us u in ground arith

module _ (payload : Payload) (laws : UriLaws payload) where
  open payload use {Contact, uris, add_uri}
  open laws use {uris-add, uris-remove, uris-default, uris-attributes}

  uris-with_uri :
      (u : UriModel) (c : Contact)
      → is_in u.id (ids_of (uris c)) ≡ false
      → uris (with_uri payload u c) ≡ uris c ++ contact_uri u ∷ []
  unfolding with_uri contact_uri
  uris-with_uri u c n = elim (Bool-cases u.default) [
    | inl e ↦ rw e (uris-default u.id _ ∙ uris-add (contact_uri u) c n)
    | inr e ↦ rw e (uris-add (contact_uri u) c n)
  ]

  uris-add_uris :
      (seen : List Str) (us : List UriModel) (c : Contact)
      → AreNew (ids_of (uris c)) us
      → uris (add_uris payload seen us c) ≡ uris c ++ map contact_uri (deduplicated seen us)
  unfolding add_uris deduplicated contact_uri
  uris-add_uris seen [] c n = sym (append-nil (uris c))
  uris-add_uris seen (u ∷ us) c n = elim (Bool-cases (is_in u.uri seen)) [
    | inl e ↦ rw e (
        uris-add_uris seen us c
          (AreNew-fewer (u.id ∷ ids_of (uris c)) (ids_of (uris c)) us (λ x h. ground arith) n.1))
    | inr e ↦
        let added = uris-with_uri u c n.0 in
        rw e (
          uris-add_uris (u.uri ∷ seen) us (with_uri payload u c) (
            AreNew-fewer (u.id ∷ ids_of (uris c)) (ids_of (uris (with_uri payload u c))) us
              (λ x h. rw added (is_in-append x (uris c) (contact_uri u) ∙ h)) n.1)
          ∙ (rw added (
              append_assoc (uris c) (contact_uri u ∷ [])
                (map contact_uri (deduplicated (u.uri ∷ seen) us)))))
  ]

  uris-remove_uris :
      (us : List ContactUri) (c : Contact) → uris c ≡ us → uris (remove_uris payload us c) ≡ []
  unfolding remove_uris
  uris-remove_uris [] c e = e
  uris-remove_uris (u ∷ us) c e =
      uris-remove_uris us (payload.remove_uri u c) (uris-remove u us c e)

  -- A contact that is updated has URIs of the model and none of those that it had: the first one of
  -- each text, in the order of the model. So no two of them have one text, and no text of the model
  -- is missing. No two URIs of the model have one id.
  pub uris-updated_contact :
      (m : ContactModel) (c : Contact)
      → AreNew [] m.uris
      → (uris (updated_contact payload m c) ≡ map contact_uri (deduplicated [] m.uris))
        × HaveNewTexts [] (deduplicated [] m.uris)
        × ((x : Str) → is_in x (texts_of (deduplicated [] m.uris)) ≡ is_in x (texts_of m.uris))
  unfolding updated_contact
  uris-updated_contact m c n =
      let fields = payload.set_fields m.name m.presence m.dialog c in
      let emptied = uris-remove_uris (uris fields) fields refl in
      (
        uris-attributes _ _
            ∙ (uris-add_uris [] m.uris (remove_uris payload (uris fields) fields) (rw emptied n)
                ∙ rw emptied refl),
        deduplicated-HaveNewTexts [] m.uris,
        (λ x. is_in-deduplicated x [] m.uris ∙ ground arith),
      )
