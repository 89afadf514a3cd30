-- ===== src/Api/Deleted.antt =====
-- What delete_contact leaves of a contact: nothing in the address book, and nothing in a group.
use openxcap.Prelude.{
  ◌≡◌, refl, ap, ◌∙◌, sym, true, false, none, some, List, [], ◌∷◌, Str, str_eq, str_eq_iff,
  if◌then◌else◌, arith, Bool-cases, Option-cases, Result-cases, inl, inr, Result, ok, ◌>>=◌,
  of_option,
}
use openxcap.Errors.{Fault, key_error}
use openxcap.Api.{Payload, is_in}
use openxcap.Api.Contacts.{drop_member, without_contact}

-- how the groups and the contacts of an address book answer to its operations: a group is found under
-- its id, storing one changes no other, a member that is removed is gone, and a contact that is
-- deleted is gone and leaves the groups alone
pub record BookLaws (payload : Payload) : Type 0 where
  pub group_ids-all :
      (g : Str) (x : payload.Group) (c : payload.Content)
      → payload.group g c ≡ some x
      → is_in g (payload.group_ids c) ≡ true
  pub group_id-group :
      (g : Str) (x : payload.Group) (c : payload.Content)
      → payload.group g c ≡ some x
      → payload.group_id x ≡ g
  pub group-store :
      (g : Str) (y : payload.Group) (c : payload.Content)
      → payload.group g (payload.store_group y c)
        ≡ (if str_eq (payload.group_id y) g then some y else payload.group g c)
  pub remove-member :
      (i : Str) (x y : payload.Group)
      → payload.remove_member i x ≡ some y
      → (payload.group_id y ≡ payload.group_id x) × (payload.has_member i y ≡ false)
  pub contact-delete :
      (i : Str) (c : payload.Content) → payload.contact i (payload.delete_contact i c) ≡ none
  pub group-delete :
      (i g : Str) (c : payload.Content)
      → payload.group g (payload.delete_contact i c) ≡ payload.group g c

module _ (payload : Payload) (laws : BookLaws payload) where
  open payload use {
    Content, Group, contact, group, group_ids, store_group, has_member, remove_member,
    delete_contact,
  }
  open laws use {
    group_ids-all, group_id-group, group-store, remove-member, contact-delete, group-delete,
  }

  -- a group does not have a member, if it is there at all
  abbrev pub Lacks : Str → Str → Content → Type 0
  Lacks id g c = (x : Group) → group g c ≡ some x → has_member id x ≡ false

  -- what the loop does to one group
  abbrev dropped : Str → Str → Content → Result Fault Content
  dropped id g c = elim (group g c) [
    | none ↦ ok c
    | some x ↦
        if has_member id x
        then (do y ← of_option key_error (remove_member id x); ok (store_group y c))
        else ok c
  ]

  stored-Lacks :
      (id : Str) (y : Group) (c : Content) (j : Str)
      → has_member id y ≡ false
      → (str_eq (payload.group_id y) j ≡ false → Lacks id j c)
      → Lacks id j (store_group y c)
  stored-Lacks id y c j gone l z h = elim (Bool-cases (str_eq (payload.group_id y) j)) [
    | inl f ↦ let same : some y ≡ some z = sym (group-store j y c ∙ rw f refl) ∙ h in ground arith
    | inr f ↦ l f z (sym (group-store j y c ∙ rw f refl) ∙ h)
  ]

  kept-Lacks :
      (id g : Str) (c : Content) (j : Str)
      → Lacks id g c
      → (str_eq g j ≡ false → Lacks id j c)
      → Lacks id j c
  kept-Lacks id g c j k l z t = elim (Bool-cases (str_eq g j)) [
    | inl f ↦ k z (ap (λ i. group i c) ((str_eq_iff g j).0 f) ∙ t)
    | inr f ↦ l f z t
  ]

  -- one group: it lacks the member afterwards, and no other gains it
  dropped-Lacks :
      (id g : Str) (c d : Content)
      → dropped id g c ≡ ok d
      → (j : Str) → (str_eq g j ≡ false → Lacks id j c)
      → Lacks id j d
  dropped-Lacks id g c d h j l z t = elim (Option-cases (group g c)) [
    | inl e ↦
        let same : c ≡ d = (let q = rw (dropped, e) at h in ground arith) in
        kept-Lacks id g c j (λ x s. cc) l z (ap (group j) same ∙ t)
    | inr (x, e) ↦ elim (Bool-cases (has_member id x)) [
      | inl m ↦ elim (Option-cases (remove_member id x)) [
        | inl n ↦ cc (rw (dropped, e, m, n) at h)
        | inr (y, n) ↦
            let (id', gone) = remove-member id x y n in
            let name = id' ∙ group_id-group g x c e in
            let same : store_group y c ≡ d = (let q = rw (dropped, e, m, n) at h in ground arith) in
            stored-Lacks id y c j gone (λ f. l (ap (λ i. str_eq i j) (sym name) ∙ f)) z
              (ap (group j) same ∙ t)
      ]
      | inr m ↦
          let same : c ≡ d = (let q = rw (dropped, e, m) at h in ground arith) in
          kept-Lacks id g c j
            (λ w s. let u : x ≡ w = ground arith in ap (has_member id) (sym u) ∙ m) l z
            (ap (group j) same ∙ t)
    ]
  ]

  drop_member-Lacks :
      (id : Str) (gs : List Str) (c d : Content)
      → drop_member payload id gs c ≡ ok d
      → (j : Str) → (is_in j gs ≡ false → Lacks id j c)
      → Lacks id j d
  unfolding drop_member
  drop_member-Lacks id [] c d h j l =
      let same : c ≡ d = ground arith in λ z t. l refl z (ap (group j) same ∙ t)
  drop_member-Lacks id (g ∷ gs) c d h j l = elim (Result-cases (dropped id g c)) [
    | inl (x, e) ↦ cc (rw e at h)
    | inr (b, e) ↦
        drop_member-Lacks id gs b d (rw e at h) j
          (λ n. dropped-Lacks id g c b e j (λ f. l (ground arith)))
  ]

  -- A contact that is deleted is not in the address book afterwards, and no group has it as a member.
  pub without_contact-Lacks :
      (id : Str) (c d : Content)
      → without_contact payload id c ≡ ok d
      → (contact id d ≡ none) × ((g : Str) → Lacks id g d)
  unfolding without_contact
  without_contact-Lacks id c d h = elim (Result-cases (drop_member payload id (group_ids c) c)) [
    | inl (x, e) ↦ cc (rw e at h)
    | inr (b, e) ↦
        let clean = λ (g : Str).
          drop_member-Lacks id (group_ids c) c b e g (λ n x t. cc (group_ids-all g x c t, n)) in
        elim (Option-cases (contact id b)) [
          | inl f ↦ cc (rw (e, f) at h)
          | inr (k, f) ↦
              let same : delete_contact id b ≡ d = (let q = rw (e, f) at h in ground arith) in
              (
                ap (contact id) (sym same) ∙ contact-delete id b,
                λ g x t. clean g x (sym (group-delete id g b) ∙ (ap (group g) same ∙ t)),
              )
        ]
  ]
