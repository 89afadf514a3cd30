-- ===== src/Thor/Profiles.antt =====
-- The documents in the profiles of accounts, before and after an update of one of them.
use openxcap.Prelude.{
  ◌≡◌, refl, ap, ◌∙◌, sym, Bool, ◌&&◌, Option, none, some, [], ◌∷◌, Str, str_eq, str_eq_iff,
  if◌then◌else◌, Dict, lookup, insert, remove, lookup-insert, lookup-remove, map, arith, Bool-cases,
  Option-cases, inl, inr,
}
use openxcap.Thor.{
  Docs, Profile, Account, Accounts, docs_of, app_docs, lookup_doc, select_accounts, set_profile,
}

abbrev in_app : Str → Option (Dict (Str × Str)) → Option (Str × Str)
in_app path none = none
in_app path (some d) = lookup path d

lookup_doc-in_app :
    (id path : Str) (docs : Docs) → lookup_doc id path docs ≡ in_app path (lookup id docs)
unfolding lookup_doc
lookup_doc-in_app id path docs = elim (Option-cases (lookup id docs)) [
  | inl e ↦ rw (e, lookup_doc) refl
  | inr (d, e) ↦ rw (e, lookup_doc) refl
]

lookup-app_docs :
    (id path : Str) (docs : Docs) → lookup path (app_docs id docs) ≡ lookup_doc id path docs
unfolding app_docs lookup_doc lookup
lookup-app_docs id path docs = elim (Option-cases (lookup id docs)) [
  | inl e ↦ rw (e, app_docs, lookup_doc) refl
  | inr (d, e) ↦ rw (e, app_docs, lookup_doc) refl
]

-- a change of the documents of one application
module _ (id path : Str) (change : Dict (Str × Str) → Dict (Str × Str)) (v : Option (Str × Str))
    (law : (path' : Str) (d : Dict (Str × Str))
      → lookup path' (change d) ≡ (if str_eq path path' then v else lookup path' d)) where
  lookup_doc-changed :
      (id' path' : Str) (docs : Docs)
      → lookup_doc id' path' (insert id (change (app_docs id docs)) docs)
        ≡ (if str_eq id id' && str_eq path path' then v else lookup_doc id' path' docs)
  lookup_doc-changed id' path' docs =
      lookup_doc-in_app id' path' (insert id (change (app_docs id docs)) docs)
      ∙ elim (Bool-cases (str_eq id id')) [
        | inl e ↦
            let same = (str_eq_iff id id').0 e in
            rw (lookup-insert id id' (change (app_docs id docs)) docs, e)
              (law path' (app_docs id docs)
                ∙ ap (λ (w : Option (Str × Str)). if str_eq path path' then v else w)
                    (lookup-app_docs id path' docs ∙ ap (λ j. lookup_doc j path' docs) same))
        | inr e ↦
            rw (lookup-insert id id' (change (app_docs id docs)) docs, e)
              (sym (lookup_doc-in_app id' path' docs))
      ]

-- A document that is put is found at its path, and all others are found as before.
pub lookup_doc-put :
    (id path id' path' : Str) (v : Str × Str) (docs : Docs)
    → lookup_doc id' path' (insert id (insert path v (app_docs id docs)) docs)
      ≡ (if str_eq id id' && str_eq path path' then some v else lookup_doc id' path' docs)
lookup_doc-put id path id' path' v docs =
    lookup_doc-changed id path (insert path v) (some v) (λ j d. lookup-insert path j v d) id' path'
      docs

pub lookup_doc-removed :
    (id path id' path' : Str) (docs : Docs)
    → lookup_doc id' path' (insert id (remove path (app_docs id docs)) docs)
      ≡ (if str_eq id id' && str_eq path path' then none else lookup_doc id' path' docs)
lookup_doc-removed id path id' path' docs =
    lookup_doc-changed id path (remove path) none (λ j d. lookup-remove path j d) id' path' docs

-- a document of an account
pub record DocKey : Type 0 where
  pub username : Str
  pub domain : Str
  pub application_id : Str
  pub document_path : Str

unfoldable pub same_doc : DocKey → DocKey → Bool
unfolding str_eq
same_doc k j =
    (str_eq k.username j.username && str_eq k.domain j.domain)
    && (str_eq k.application_id j.application_id && str_eq k.document_path j.document_path)

abbrev pub doc_of : Option Profile → DocKey → Option (Str × Str)
unfolding lookup_doc
doc_of none k = none
doc_of (some p) k = lookup_doc k.application_id k.document_path (docs_of p)

abbrev pub doc_in : Accounts → DocKey → Option (Str × Str)
doc_in [] k = none
doc_in (a ∷ accounts) k = doc_of a.profile k

abbrev pub accounts_of : DocKey → Accounts → Accounts
accounts_of k accounts = select_accounts (some k.username) (some k.domain) accounts

-- what is stored for each document
unfoldable pub view : Accounts → DocKey → Option (Str × Str)
unfolding select_accounts lookup_doc docs_of
view accounts k = doc_in (accounts_of k accounts) k

abbrev with_profile : Profile → Account → Account
with_profile p a = record a { profile = some p }

-- An update changes the accounts of its user and domain, and no others.
select_accounts-set_profile :
    (u d u' d' : Str) (p : Profile) (accounts : Accounts)
    → select_accounts (some u') (some d') (set_profile (some u) (some d) p accounts) ≡ (
        if str_eq u u' && str_eq d d'
        then map (with_profile p) (select_accounts (some u') (some d') accounts)
        else select_accounts (some u') (some d') accounts)
unfolding select_accounts set_profile
select_accounts-set_profile u d u' d' p [] = ground arith
select_accounts-set_profile u d u' d' p (a ∷ accounts) =
    let ih = select_accounts-set_profile u d u' d' p accounts in
    ground (
      arith,
      str_eq_iff u u',
      str_eq_iff d d',
      str_eq_iff u a.username,
      str_eq_iff d a.domain,
      str_eq_iff u' a.username,
      str_eq_iff d' a.domain,
    )

first_changed :
    (p : Profile) (l : Accounts) (a : Account) (k : DocKey)
    → l ≡ a ∷ []
    → doc_in (map (with_profile p) l) k ≡ doc_of (some p) k
first_changed p l a k e = rw e refl

-- what is stored after an update of the profile of the only account of a user
pub view-set_profile :
    (u d : Str) (p : Profile) (a : Account) (k : DocKey) (accounts : Accounts)
    → select_accounts (some u) (some d) accounts ≡ a ∷ []
    → view (set_profile (some u) (some d) p accounts) k
      ≡ (if str_eq u k.username && str_eq d k.domain then doc_of (some p) k else view accounts k)
unfolding view
view-set_profile u d p a k accounts one =
    ap (λ l. doc_in l k) (select_accounts-set_profile u d k.username k.domain p accounts)
    ∙ elim (Bool-cases (str_eq u k.username && str_eq d k.domain)) [
      | inl e ↦
          let name : u ≡ k.username = ground (arith, str_eq_iff u k.username) in
          let domain : d ≡ k.domain =
            ground (arith, str_eq_iff d k.domain, str_eq_iff u k.username) in
          rw e (
            first_changed p (accounts_of k accounts) a k (
              ap (λ x. select_accounts (some x) (some k.domain) accounts) (sym name)
              ∙ ap (λ x. select_accounts (some u) (some x) accounts) (sym domain)
              ∙ one))
      | inr e ↦ rw e refl
    ]
