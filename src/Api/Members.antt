-- ===== src/Api/Members.antt =====
-- The members of a group that update_group stores.
use openxcap.Prelude.{
  ◌≡◌, refl, ap, ◌∙◌, sym, Bool, true, false, not, ◌||◌, ◌&&◌, some, List, [], ◌∷◌, Str, str_eq,
  str_eq_iff, arith, Bool-cases, inl, inr, ok,
}
use openxcap.Api.{Payload, is_in}
use openxcap.Api.Groups.{
  GroupModel, is_contact, existing, as_set, difference, add_members, remove_members, with_members,
  updated_group,
}

-- how the members of a group answer to its operations: a member that is added or removed is the only
-- change, a member can be removed, and other changes leave the members alone
pub record MemberLaws (payload : Payload) : Type 0 where
  pub members-has :
      (j : Str) (g : payload.Group) → is_in j (payload.members g) ≡ payload.has_member j g
  pub has-add :
      (x j : Str) (g : payload.Group)
      → payload.has_member j (payload.add_member x g) ≡ (str_eq x j || payload.has_member j g)
  pub has-remove :
      (x : Str) (g : payload.Group)
      → payload.has_member x g ≡ true
      → (h : payload.Group) × (payload.remove_member x g ≡ some h)
        × ((j : Str) → payload.has_member j h ≡ (not (str_eq x j) && payload.has_member j g))
  pub has-rename :
      (n j : Str) (g : payload.Group)
      → payload.has_member j (payload.rename n g) ≡ payload.has_member j g
  pub has-attributes :
      (a : List (Str × Str)) (j : Str) (g : payload.Group)
      → payload.has_member j (payload.update_group_attributes a g) ≡ payload.has_member j g

abbrev HasNoRepeats : List Str → Type 0
HasNoRepeats [] = Unit
HasNoRepeats (x ∷ xs) = (is_in x xs ≡ false) × HasNoRepeats xs

is_in-as_set : (j : Str) (xs : List Str) → is_in j (as_set xs) ≡ is_in j xs
unfolding as_set
is_in-as_set j [] = refl
is_in-as_set j (x ∷ xs) =
    let ih = is_in-as_set j xs in
    elim (Bool-cases (is_in x (as_set xs))) [
      | inl e ↦ rw e (elim (Bool-cases (str_eq x j)) [
        | inl g ↦ rw g (ap (λ y. is_in y (as_set xs)) (sym ((str_eq_iff x j).0 g)) ∙ e)
        | inr g ↦ rw g ih
      ])
      | inr e ↦ rw (e, ih) refl
    ]

as_set-HasNoRepeats : (xs : List Str) → HasNoRepeats (as_set xs)
unfolding as_set
as_set-HasNoRepeats [] = tt
as_set-HasNoRepeats (x ∷ xs) = elim (Bool-cases (is_in x (as_set xs))) [
  | inl e ↦ rw e (as_set-HasNoRepeats xs)
  | inr e ↦ rw e (e, as_set-HasNoRepeats xs)
]

is_in-difference :
    (j : Str) (xs ys : List Str) → is_in j (difference xs ys) ≡ (is_in j xs && not (is_in j ys))
unfolding difference
is_in-difference j [] ys = refl
is_in-difference j (x ∷ xs) ys =
    let ih = is_in-difference j xs ys in
    elim (Bool-cases (str_eq x j)) [
      | inl g ↦
          let same = ap (λ y. is_in y ys) ((str_eq_iff x j).0 g) in
          elim (Bool-cases (is_in x ys)) [
            | inl e ↦ rw (e, ih, g, sym same ∙ e) (ground arith)
            | inr e ↦ rw (e, g, sym same ∙ e) refl
          ]
      | inr g ↦ elim (Bool-cases (is_in x ys)) [
        | inl e ↦ rw (e, ih, g) refl
        | inr e ↦ rw (e, g, ih) refl
      ]
    ]

difference-HasNoRepeats : (xs ys : List Str) → HasNoRepeats xs → HasNoRepeats (difference xs ys)
unfolding difference
difference-HasNoRepeats [] ys h = tt
difference-HasNoRepeats (x ∷ xs) ys h = elim (Bool-cases (is_in x ys)) [
  | inl e ↦ rw e (difference-HasNoRepeats xs ys h.1)
  | inr e ↦ rw e (is_in-difference x xs ys ∙ rw h.0 refl, difference-HasNoRepeats xs ys h.1)
]

other : (x j : Str) (xs : List Str) → is_in x xs ≡ false → is_in j xs ≡ true → str_eq x j ≡ false
other x j xs n i = elim (Bool-cases (str_eq x j)) [
  | inl g ↦ cc (ap (λ y. is_in y xs) ((str_eq_iff x j).0 g))
  | inr g ↦ g
]

module _ (payload : Payload) (laws : MemberLaws payload) where
  open payload use {Content, Group, has_member, add_member, remove_member, members, rename}
  open laws use {members-has, has-add, has-remove, has-rename, has-attributes}

  has-add_members :
      (j : Str) (xs : List Str) (g : Group)
      → has_member j (add_members payload xs g) ≡ (is_in j xs || has_member j g)
  unfolding add_members
  has-add_members j [] g = refl
  has-add_members j (x ∷ xs) g =
      has-add_members j xs (add_member x g) ∙ (rw (has-add x j g) (ground arith))

  -- members can be removed, one after another, if no one is named twice
  remove_members-all :
      (xs : List Str) (g : Group)
      → HasNoRepeats xs
      → ((j : Str) → is_in j xs ≡ true → has_member j g ≡ true)
      → (h : Group) × (remove_members payload xs g ≡ ok h)
        × ((j : Str) → has_member j h ≡ (not (is_in j xs) && has_member j g))
  unfolding remove_members
  remove_members-all [] g s there = (g, refl, λ j. refl)
  remove_members-all (x ∷ xs) g s there =
      let (h, e, law) = has-remove x g (there x (rw ((str_eq_iff x x).1 refl) refl)) in
      let (k, f, rest) =
        remove_members-all xs h s.1
          (λ j i. law j ∙ rw (there j (ground arith), other x j xs s.0 i) refl) in
      (k, (rw e f), λ j. rest j ∙ rw (law j) (ground arith))

  is_in-existing :
      (c : Content) (j : Str) (xs : List Str)
      → is_in j (existing payload c xs) ≡ (is_in j xs && is_contact payload c j)
  unfolding existing
  is_in-existing c j [] = refl
  is_in-existing c j (x ∷ xs) =
      let ih = is_in-existing c j xs in
      elim (Bool-cases (str_eq x j)) [
        | inl g ↦
            let same = ap (λ y. is_contact payload c y) ((str_eq_iff x j).0 g) in
            elim (Bool-cases (is_contact payload c x)) [
              | inl e ↦ rw (e, g, sym same ∙ e) refl
              | inr e ↦ rw (e, ih, g, sym same ∙ e) (ground arith)
            ]
        | inr g ↦ elim (Bool-cases (is_contact payload c x)) [
          | inl e ↦ rw (e, g, ih) refl
          | inr e ↦ rw (e, ih, g) refl
        ]
      ]

  both : (d m k : Bool) → (k ≡ m) → (not (k && not d) && ((d && not k) || m)) ≡ d
  both d m k e = ground arith

  with_members-exact :
      (desired : List Str) (g : Group)
      → HasNoRepeats desired
      → (h : Group) × (with_members payload desired g ≡ ok h)
        × ((j : Str) → has_member j h ≡ is_in j desired)
  unfolding with_members
  with_members-exact desired g s =
      let current = as_set (members g) in
      let added = add_members payload (difference desired current) g in
      let now = λ (j : Str). is_in-as_set j (members g) ∙ members-has j g in
      let has = λ (j : Str).
        has-add_members j (difference desired current) g
        ∙ rw (is_in-difference j desired current) refl in
      let (h, e, law) =
        remove_members-all (difference current desired) added
          (difference-HasNoRepeats current desired (as_set-HasNoRepeats (members g)))
          (λ j i.
            let there = sym (is_in-difference j current desired) ∙ i in
            let n = now j in has j ∙ ground arith) in
      (
        h,
        e,
        λ j.
            law j
            ∙ rw (is_in-difference j current desired, has j)
                (both (is_in j desired) (has_member j g) (is_in j current) (now j)),
      )

  -- The group that update_group makes has exactly the contacts of the model that are in the address
  -- book as its members, and no KeyError is raised on the way.
  pub updated_group-members :
      (c : Content) (m : GroupModel) (g : Group)
      → (h : Group) × (updated_group payload c m g ≡ ok h)
        × ((j : Str) → has_member j h ≡ (is_in j m.contacts && is_contact payload c j))
  unfolding updated_group
  updated_group-members c m g =
      let desired = as_set (existing payload c m.contacts) in
      let (h, e, law) =
        with_members-exact desired (rename m.name g)
          (as_set-HasNoRepeats (existing payload c m.contacts)) in
      (
        payload.update_group_attributes m.attributes h,
        (rw e refl),
        λ j.
            has-attributes m.attributes j h
            ∙ law j
            ∙ is_in-as_set j (existing payload c m.contacts)
            ∙ is_in-existing c j m.contacts,
      )
