-- ===== src/Thor.antt =====
-- DatabaseConnection and Storage of xcap/backend/sipthor.py: the documents of a user are in the
-- profile of the SIP account. An operation on a profile is one transaction; a new tag is an argument.
pub mod Profiles
pub mod Contents
pub mod Stored
use openxcap.Prelude.{
  ℕ, zero, suc, Bool, true, false, ◌&&◌, Option, none, some, List, [], ◌∷◌, ◌++◌, Str, codes,
  str_eq, if◌then◌else◌, ◌==◌, Result, ok, err, ◌>>=◌, Dict, lookup, insert, remove, get_elem?,
  of_option, map,
}
use openxcap.Errors.{
  Fault, http, attribute_error, type_error, index_error, decode_error, multiple_results,
}
use openxcap.Element.Utf8.{utf8_decode}
use openxcap.Backend.{StatusResponse, Target, Check, Change, normalized}

-- profile["xcap"]: for each application, for each path, a document with its tag
abbrev pub Docs : Type 0
Docs = Dict (Dict (Str × Str))

-- the JSON object of an account: its documents, if it has any, and all else
pub record Profile : Type 0 where
  pub xcap : Option Docs
  pub others : Str

-- SipAccount of xcap/db/models/sipthor_db.py; an account without a row of data has no profile
pub record Account : Type 0 where
  pub username : Str
  pub domain : Str
  pub profile : Option Profile

abbrev pub Accounts : Type 0
Accounts = List Account

-- profile.setdefault("xcap", {})
unfoldable pub docs_of : Profile → Docs
docs_of p = elim p.xcap [ none ↦ [] | some docs ↦ docs ]

-- xcap_docs.setdefault(application_id, {})
unfoldable pub app_docs : Str → Docs → Dict (Str × Str)
unfolding lookup
app_docs id docs = elim (lookup id docs) [ none ↦ [] | some d ↦ d ]

-- xcap_docs[application_id][document_path], where `none` is a KeyError
unfoldable pub lookup_doc : Str → Str → Docs → Option (Str × Str)
unfolding lookup
lookup_doc id path docs = elim (lookup id docs) [ none ↦ none | some d ↦ lookup path d ]

-- `found` and the old tag, behind the check
checked_tag : Check → Option (Str × Str) → Result Fault (Option Str)
checked_tag check none = do done ← check none false; ok none
checked_tag check (some (doc, etag)) = do done ← check (some etag) true; ok (some etag)

-- _put_operation: the old tag, if there was a document
unfoldable pub put_operation :
    Check → Target → Str → Str → Option Profile → Result Fault (Option Str × Profile)
unfolding checked_tag lookup_doc docs_of app_docs insert
put_operation check t doc fresh none = err attribute_error
put_operation check t doc fresh (some p) = do
  old ← checked_tag check (lookup_doc t.application_id t.document_path (docs_of p))
  ok (
    old,
    record p {
      xcap = some (
          insert t.application_id
            (insert t.document_path (doc, fresh) (app_docs t.application_id (docs_of p)))
            (docs_of p));
    },
  )

-- behind `try` and `except KeyError`: the check and the deletion
delete_found : Check → Target → Profile → Option (Str × Str) → Result Fault (Str × Profile)
unfolding docs_of app_docs insert remove
delete_found check t p none = err (http 404)
delete_found check t p (some (doc, etag)) = do
  done ← check (some etag) true
  ok (
    etag,
    record p {
      xcap = some (
          insert t.application_id (remove t.document_path (app_docs t.application_id (docs_of p)))
            (docs_of p));
    },
  )

-- _delete_operation: the tag that was
unfoldable pub delete_operation : Check → Target → Option Profile → Result Fault (Str × Profile)
unfolding delete_found
delete_operation check t none = err attribute_error
delete_operation check t (some p) =
    delete_found check t p (lookup_doc t.application_id t.document_path (docs_of p))

-- _delete_all_operation
unfoldable pub delete_all_operation : Option Profile → Result Fault (Unit {0} × Profile)
delete_all_operation none = err attribute_error
delete_all_operation (some p) = ok (tt, record p { xcap = some [] })

-- _get_operation
unfoldable pub get_operation : Target → Option Profile → Result Fault (Str × Str)
unfolding lookup_doc
get_operation t none = err type_error
get_operation t (some p) = elim p.xcap [
  | none ↦ err (http 404)
  | some docs ↦ of_option (http 404) (lookup_doc t.application_id t.document_path docs)
]

-- _get_documents_list_operation
unfoldable pub get_documents_list_operation : Option Profile → Result Fault Docs
get_documents_list_operation none = err type_error
get_documents_list_operation (some p) = of_option (http 404) p.xcap

-- a column that is compared with None is in no row
abbrev pub column_is : Option Str → Str → Bool
unfolding str_eq
column_is none s = false
column_is (some t) s = str_eq t s

abbrev pub is_account : Option Str → Option Str → Account → Bool
is_account username domain a = column_is username a.username && column_is domain a.domain

-- the accounts of a query
unfoldable pub select_accounts : Option Str → Option Str → Accounts → Accounts
unfolding str_eq
select_accounts username domain [] = []
select_accounts username domain (a ∷ accounts) =
    let rest = select_accounts username domain accounts in
    if is_account username domain a then a ∷ rest else rest

-- set_profile, at the accounts of a query
unfoldable pub set_profile : Option Str → Option Str → Profile → Accounts → Accounts
unfolding str_eq
set_profile username domain p [] = []
set_profile username domain p (a ∷ accounts) =
    (if is_account username domain a then record a { profile = some p } else a)
    ∷ set_profile username domain p accounts

-- one_or_none(), and NotFound where there is none
unfoldable pub one_account : Accounts → Result Fault Account
one_account [] = err (http 404)
one_account (a ∷ []) = ok a
one_account (a ∷ b ∷ accounts) = err multiple_results

-- retrieve_profile without an update
unfoldable pub read_profile :
    {R : Type 0}
    → Option Str
    → Option Str
    → (Option Profile → Result Fault R)
    → Accounts
    → Result Fault R
unfolding select_accounts one_account
read_profile username domain operation accounts = do
  a ← one_account (select_accounts username domain accounts)
  operation a.profile

-- retrieve_profile with an update
unfoldable pub update_profile :
    {R : Type 0}
    → Option Str
    → Option Str
    → (Option Profile → Result Fault (R × Profile))
    → Accounts
    → Result Fault (R × Accounts)
unfolding select_accounts one_account set_profile
update_profile username domain operation accounts = do
  a ← one_account (select_accounts username domain accounts)
  (r, p) ← operation a.profile
  ok (r, set_profile username domain p accounts)

-- DatabaseConnection.get
unfoldable pub database_get : Target → Accounts → Result Fault (Str × Str)
unfolding read_profile get_operation
database_get t accounts = read_profile t.username t.domain (get_operation t) accounts

-- Storage.get_document, _got_document
unfoldable pub get_document : Check → Target → Accounts → Result Fault StatusResponse
get_document check target accounts = do
  (doc, etag) ← database_get (normalized target) accounts
  done ← check (some etag) true
  ok (record { code = 200; etag = some etag; body = some doc; old_etag = none })

-- the class of NotFound
abbrev is_not_found : Fault → Bool
is_not_found (http n) = n == 404
is_not_found _ = false

-- the code of _cb_put, and the change that its background task reports
abbrev answer_to_put : Option Str → Str → StatusResponse × Option Change
answer_to_put none fresh = (
  record { code = 201; etag = some fresh; body = none; old_etag = none },
  some (none, some fresh),
)
answer_to_put (some old) fresh = (
  record { code = 200; etag = some fresh; body = none; old_etag = none },
  some (some old, some fresh),
)

-- DatabaseConnection.put and _cb_put
unfoldable pub stored_put :
    Check → Target → Str → Str → Accounts → Result Fault (StatusResponse × Option Change × Accounts)
unfolding update_profile put_operation
stored_put check t doc fresh accounts = do
  (old, after) ← update_profile t.username t.domain (put_operation check t doc fresh) accounts
  let (r, change) = answer_to_put old fresh
  ok (r, change, after)

-- put_document behind its look at the document that is there
put_over :
    Check
    → Target
    → Str
    → Str
    → Accounts
    → Result Fault (Str × Str)
    → Result Fault (StatusResponse × Option Change × Accounts)
unfolding str_eq
put_over check t doc fresh accounts (err e) =
    if is_not_found e then stored_put check t doc fresh accounts else err e
put_over check t doc fresh accounts (ok (old, etag)) = do
  done ← check (some etag) true
  if str_eq doc old
      then ok (
        record { code = 200; etag = some etag; body = some old; old_etag = none },
        none,
        accounts,
      )
      else stored_put check t doc fresh accounts

-- Storage.put_document
unfoldable pub put_document :
    Check → Target → Str → Str → Accounts → Result Fault (StatusResponse × Option Change × Accounts)
unfolding put_over
put_document check target doc fresh accounts = do
  decoded ← of_option decode_error (utf8_decode doc)
  put_over check (normalized target) doc fresh accounts (database_get (normalized target) accounts)

-- the response of _cb_delete: `(etag)` is no tuple, so that `result[1]` is a character of the tag
unfoldable pub answer_to_delete : Str → Result Fault (StatusResponse × Option Change)
answer_to_delete etag = elim (get_elem? etag 1) [
  | none ↦ err index_error
  | some c ↦
      ok (
        record { code = 200; etag = none; body = none; old_etag = none },
        some (some (c ∷ []), none),
      )
]

-- what is stored is committed before the response is made
deleted :
    Accounts
    → Result Fault (Str × Accounts)
    → Result Fault (StatusResponse × Option Change) × Accounts
unfolding answer_to_delete
deleted accounts (err e) = (err e, accounts)
deleted accounts (ok (etag, after)) = (answer_to_delete etag, after)

-- Storage.delete_document
unfoldable pub delete_document :
    Check → Target → Accounts → Result Fault (StatusResponse × Option Change) × Accounts
unfolding deleted
delete_document check target accounts =
    let t = normalized target in
    deleted accounts (update_profile t.username t.domain (delete_operation check t) accounts)

-- Storage.delete_documents
unfoldable pub delete_documents : Target → Accounts → Result Fault (StatusResponse × Accounts)
unfolding update_profile delete_all_operation
delete_documents t accounts = do
  (done, after) ← update_profile t.username t.domain delete_all_operation accounts
  ok (record { code = 200; etag = none; body = none; old_etag = none }, after)

-- the paths of an application with their tags
abbrev entries : Dict (Str × Str) → List (Str × Str)
entries docs = map (λ e. (e.0, e.1.1)) docs

-- _got_documents_list: an application without documents is left out
unfoldable pub documents_list : Docs → Dict (List (Str × Str))
documents_list [] = []
documents_list ((id, []) ∷ docs) = documents_list docs
documents_list ((id, d ∷ ds) ∷ docs) = (id, entries (d ∷ ds)) ∷ documents_list docs

-- Storage.get_documents_list
unfoldable pub get_documents_list : Target → Accounts → Result Fault (Dict (List (Str × Str)))
unfolding read_profile get_documents_list_operation documents_list
get_documents_list t accounts = do
  docs ← read_profile t.username t.domain get_documents_list_operation accounts
  ok (documents_list docs)
