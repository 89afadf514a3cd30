-- ===== src/Tests/Accounts.antt =====
-- Runs of the storage of SIP Thor, and the theorems at them.
use openxcap.Prelude.{◌≡◌, refl, none, some, [], ◌∷◌, codes, ok, str_eq, insert, lookup, remove}
use openxcap.Element.Utf8.{utf8_decode}
use openxcap.Backend.{Target, Check, normalized}
use openxcap.Thor.{
  Profile, Accounts, select_accounts, get_document, put_document, delete_document, delete_documents,
  get_documents_list, delete_operation,
}
use openxcap.Thor.Profiles.{DocKey, view}
use openxcap.Thor.Contents.{write_account, erase_account, seen, seen_delete, target_of, HasProfile}
use openxcap.Thor.Stored.{put_document-write_account, delete_document-erase_account}

account_code : Unit {0}
unfolding select_accounts get_document put_document delete_document delete_documents
    get_documents_list view utf8_decode str_eq normalized insert lookup remove delete_operation
account_code = tt

abbrev target : Target
target = record {
  username = some (codes "alice");
  domain = some (codes "d");
  application_id = codes "app";
  document_path = codes "index";
}

abbrev key : DocKey
key = record {
  username = codes "alice";
  domain = codes "d";
  application_id = codes "app";
  document_path = codes "index";
}

abbrev profile : Profile
profile = record {
  xcap = some ((codes "app", (codes "index", (codes "<a/>", codes "e1")) ∷ []) ∷ []);
  others = [];
}

abbrev accounts : Accounts
accounts = record { username = codes "alice"; domain = codes "d"; profile = some profile } ∷ []

abbrev check : Check
check etag exists = ok tt

has_profile : HasProfile key profile accounts
unfolding account_code
has_profile =
    (record { username = codes "alice"; domain = codes "d"; profile = some profile }, refl, refl)

is_target : normalized target ≡ target_of key
unfolding account_code
is_target = refl

decoded : utf8_decode (codes "<b/>") ≡ some (codes "<b/>")
unfolding account_code
decoded = refl

-- the change that a DELETE reports has the second character of the tag
delete_run :
    (delete_document check target accounts).0
    ≡ ok (
      record { code = 200; etag = none; body = none; old_etag = none },
      some (some (codes "1"), none),
    )
unfolding account_code
delete_run = refl

-- behind the DELETE of all documents there is none
all_deleted_run :
    get_documents_list target (
      record {
        username = codes "alice";
        domain = codes "d";
        profile = some (record profile { xcap = some [] });
      }
      ∷ [])
    ≡ ok []
unfolding account_code
all_deleted_run = refl

put_document-write_account_example :
    seen (put_document check target (codes "<b/>") (codes "e2") accounts)
    ≡ write_account check key (codes "<b/>") (codes "e2") (view accounts) (view accounts key)
put_document-write_account_example =
    put_document-write_account key profile accounts has_profile check target is_target
      (codes "<b/>") (codes "e2") (codes "<b/>") decoded

delete_document-erase_account_example :
    seen_delete (delete_document check target accounts)
    ≡ erase_account check key (view accounts) (view accounts key)
delete_document-erase_account_example =
    delete_document-erase_account key profile accounts has_profile check target is_target
