-- ===== src/Thor/Stored.antt =====
-- The storage of SIP Thor implements a map from documents of users, for a user with one account.
use openxcap.Prelude.{
  ◌≡◌, refl, ap, ◌∙◌, sym, fun_ext, true, false, ◌&&◌, Option, none, some, Str, str_eq,
  if◌then◌else◌, Result, ok, ◌>>=◌, insert, remove, Bool-cases, Option-cases, Result-cases, inl,
  inr, of_option,
}
use openxcap.Errors.{Fault, http}
use openxcap.Element.Utf8.{utf8_decode}
use openxcap.Backend.{Target, Check, normalized}
use openxcap.Thor.{
  Docs, Profile, Accounts, docs_of, app_docs, lookup_doc, set_profile, one_account, checked_tag,
  put_operation, delete_operation, get_operation, read_profile, update_profile, database_get,
  get_document, answer_to_put, stored_put, put_document, deleted, delete_found, answer_to_delete,
  delete_document,
}
use openxcap.Thor.Profiles.{
  DocKey, same_doc, view, view-set_profile, lookup_doc-put, lookup_doc-removed,
}
use openxcap.Thor.Contents.{
  set, read_account, write_account, erase_account, seen_delete, seen, target_of, HasProfile,
  view-profile, same_account,
}

module _ (k : DocKey) (p : Profile) (accounts : Accounts) (has : HasProfile k p accounts) where
  read_profile-one :
      {R : Type 0} (operation : Option Profile → Result Fault R)
      → read_profile (some k.username) (some k.domain) operation accounts ≡ operation (some p)
  unfolding read_profile one_account
  read_profile-one operation = let (a, one, e) = has in rw (one, e) refl

  update_profile-one :
      {R : Type 0} (operation : Option Profile → Result Fault (R × Profile))
      → update_profile (some k.username) (some k.domain) operation accounts ≡ (do
        (r, p') ← operation (some p)
        ok (r, set_profile (some k.username) (some k.domain) p' accounts))
  unfolding update_profile one_account
  update_profile-one operation = let (a, one, e) = has in rw (one, e) refl

  get_operation-docs :
      get_operation (target_of k) (some p)
      ≡ of_option (http 404) (lookup_doc k.application_id k.document_path (docs_of p))
  unfolding get_operation docs_of lookup_doc
  get_operation-docs = elim (Option-cases p.xcap) [ inl e ↦ rw e refl | inr (docs, e) ↦ rw e refl ]

  database_get-view : database_get (target_of k) accounts ≡ of_option (http 404) (view accounts k)
  unfolding database_get
  database_get-view =
      read_profile-one (get_operation (target_of k))
      ∙ (get_operation-docs ∙ ap (of_option (http 404)) (sym (view-profile k p accounts has)))

  -- an update of the documents of this user
  view-updated :
      (docs : Docs) (v : Option (Str × Str))
      → ((j : DocKey)
          → lookup_doc j.application_id j.document_path docs ≡ (
              if str_eq k.application_id j.application_id && str_eq k.document_path j.document_path
              then v
              else lookup_doc j.application_id j.document_path (docs_of p)))
      → view
          (set_profile (some k.username) (some k.domain) (record p { xcap = some docs }) accounts)
        ≡ set k v (view accounts)
  unfolding same_doc docs_of lookup_doc
  view-updated docs v law = fun_ext (λ j.
      let (a, one, e) = has in
      view-set_profile k.username k.domain (record p { xcap = some docs }) a j accounts one
      ∙ elim (Bool-cases (str_eq k.username j.username && str_eq k.domain j.domain)) [
        | inl g ↦ rw g (
            law j
            ∙ ap
                (λ (w : Option (Str × Str)).
                  if str_eq k.application_id j.application_id
                    && str_eq k.document_path j.document_path
                  then v
                  else w)
                (sym (view-profile j p accounts (same_account k j p accounts g has))))
        | inr g ↦ rw g refl
      ])

  module _ (check : Check) (target : Target) (n : normalized target ≡ target_of k) where
    -- get_document answers as the map does.
    pub get_document-read_account :
        get_document check target accounts ≡ read_account check (view accounts k)
    unfolding get_document
    get_document-read_account =
        rw (n, database_get-view)
          (elim (Option-cases (view accounts k)) [
            | inl e ↦ rw e refl
            | inr ((doc, etag), e) ↦ rw e refl
          ])

    module _ (doc fresh text : Str) (utf_8 : utf8_decode doc ≡ some text) where
      put_docs : Docs
      put_docs =
          insert k.application_id
            (insert k.document_path (doc, fresh) (app_docs k.application_id (docs_of p)))
            (docs_of p)

      put_accounts : Accounts
      put_accounts =
          set_profile (some k.username) (some k.domain) (record p { xcap = some put_docs }) accounts

      view-put : view put_accounts ≡ set k (some (doc, fresh)) (view accounts)
      unfolding put_accounts put_docs
      view-put = view-updated put_docs (some (doc, fresh)) (λ j.
          lookup_doc-put k.application_id k.document_path j.application_id j.document_path
            (doc, fresh) (docs_of p))

      stored_put-one : stored_put check (target_of k) doc fresh accounts ≡ (do
        old ← checked_tag check (lookup_doc k.application_id k.document_path (docs_of p))
        ok ((answer_to_put old fresh).0, (answer_to_put old fresh).1, put_accounts))
      unfolding stored_put put_accounts put_docs put_operation
      stored_put-one =
          let (a, one, e) = has in
          rw (one, e)
            (elim (Result-cases
              (checked_tag check (lookup_doc k.application_id k.document_path (docs_of p)))) [
                | inl (x, c) ↦ rw c refl
                | inr (old, c) ↦ rw c refl
              ])

      stored_put-view : seen (stored_put check (target_of k) doc fresh accounts) ≡ (do
        old ← checked_tag check (view accounts k)
        ok (
          (answer_to_put old fresh).0,
          (answer_to_put old fresh).1,
          set k (some (doc, fresh)) (view accounts),
        ))
      stored_put-view =
          rw (stored_put-one, view-profile k p accounts has)
            (elim (Result-cases
              (checked_tag check (lookup_doc k.application_id k.document_path (docs_of p)))) [
                | inl (x, c) ↦ rw c refl
                | inr (old, c) ↦ rw (c, view-put) refl
              ])

      -- put_document answers as the map does, reports the change that it makes, and what it leaves is
      -- what the map leaves.
      pub put_document-write_account :
          seen (put_document check target doc fresh accounts)
          ≡ write_account check k doc fresh (view accounts) (view accounts k)
      unfolding put_document checked_tag
      put_document-write_account =
          rw (n, utf_8, database_get-view)
            (elim (Option-cases (view accounts k)) [
              | inl e ↦ rw e (
                  stored_put-view
                  ∙ rw e (elim (Result-cases (check none false)) [
                    | inl (x, c) ↦ rw c refl
                    | inr (done, c) ↦ rw c refl
                  ]))
              | inr ((old, etag), e) ↦ rw e (elim (Result-cases (check (some etag) true)) [
                | inl (x, c) ↦ rw c refl
                | inr (done, c) ↦ elim (Bool-cases (str_eq doc old)) [
                  | inl g ↦ rw (c, g) refl
                  | inr g ↦ rw (c, g) (stored_put-view ∙ rw (e, c) refl)
                ]
              ])
            ])

    removed_docs : Docs
    removed_docs =
        insert k.application_id (remove k.document_path (app_docs k.application_id (docs_of p)))
          (docs_of p)

    view-removed :
        view (
          set_profile
            (some k.username)
            (some k.domain)
            (record p { xcap = some removed_docs })
            accounts)
        ≡ set k none (view accounts)
    unfolding removed_docs
    view-removed = view-updated removed_docs none (λ j.
        lookup_doc-removed k.application_id k.document_path j.application_id j.document_path
          (docs_of p))

    found-view :
        (v : Option (Str × Str))
        → seen_delete (
            deleted accounts (do
              (r, p') ← delete_found check (target_of k) p v
              ok (r, set_profile (some k.username) (some k.domain) p' accounts)))
          ≡ erase_account check k (view accounts) v
    unfolding deleted delete_found removed_docs answer_to_delete
    found-view none = refl
    found-view (some (doc, etag)) = elim (Result-cases (check (some etag) true)) [
      | inl (x, c) ↦ rw (c, erase_account) refl
      | inr (done, c) ↦ rw (c, erase_account) (ap (λ m. (answer_to_delete etag, m)) view-removed)
    ]

    -- delete_document answers as the map does, and reports as the old tag what the map reports, and
    -- what it leaves is what the map leaves.
    pub delete_document-erase_account :
        seen_delete (delete_document check target accounts)
        ≡ erase_account check k (view accounts) (view accounts k)
    unfolding delete_document delete_operation
    delete_document-erase_account =
        rw (n, update_profile-one (delete_operation check (target_of k)))
          (rw (view-profile k p accounts has)
            (found-view (lookup_doc k.application_id k.document_path (docs_of p))))
