-- ===== src/Thor/Contents.antt =====
-- What the storage of SIP Thor is to a client: a map from documents of users to their texts and tags.
use openxcap.Prelude.{
  ◌≡◌, refl, ap, ◌∙◌, sym, true, false, ◌&&◌, Option, none, some, [], ◌∷◌, Str, str_eq, str_eq_iff,
  if◌then◌else◌, Result, ok, err, ◌>>=◌, arith, get_elem?,
}
use openxcap.Errors.{Fault, http, index_error}
use openxcap.Backend.{StatusResponse, Target, Check, Change}
use openxcap.Thor.{Profile, Account, Accounts, docs_of, lookup_doc, select_accounts}
use openxcap.Thor.Profiles.{DocKey, same_doc, view}

abbrev pub Contents : Type 0
Contents = DocKey → Option (Str × Str)

abbrev pub set : DocKey → Option (Str × Str) → Contents → Contents
set k v m j = if same_doc k j then v else m j

-- GET: NotFound, or the document with its tag once the conditions on the tag hold
abbrev pub read_account : Check → Option (Str × Str) → Result Fault StatusResponse
read_account check none = err (http 404)
read_account check (some (doc, etag)) = do
  done ← check (some etag) true
  ok (record { code = 200; etag = some etag; body = some doc; old_etag = none })

-- PUT at `k`: 201 and a new tag; or, once the conditions on the tag hold, 200 and the old tag for the
-- document that is there, and 200 and the new tag for another. A change is reported with both tags.
abbrev pub write_account :
    Check
    → DocKey
    → Str
    → Str
    → Contents
    → Option (Str × Str)
    → Result Fault (StatusResponse × Option Change × Contents)
write_account check k doc fresh m none = do
  done ← check none false
  ok (
    record { code = 201; etag = some fresh; body = none; old_etag = none },
    some (none, some fresh),
    set k (some (doc, fresh)) m,
  )
write_account check k doc fresh m (some (old, etag)) = do
  done ← check (some etag) true
  if str_eq doc old
      then ok (record { code = 200; etag = some etag; body = some old; old_etag = none }, none, m)
      else ok (
        record { code = 200; etag = some fresh; body = none; old_etag = none },
        some (some etag, some fresh),
        set k (some (doc, fresh)) m,
      )

-- DELETE at `k`: NotFound, or 200 once the conditions on the tag hold. The document is gone then,
-- also where the tag has fewer than two characters and no response is made; the change that is
-- reported has the second character of the tag in the place of the tag.
abbrev pub erase_account :
    Check
    → DocKey
    → Contents
    → Option (Str × Str)
    → Result Fault (StatusResponse × Option Change) × Contents
erase_account check k m none = (err (http 404), m)
erase_account check k m (some (doc, etag)) = elim (check (some etag) true) [
  | err e ↦ (err e, m)
  | ok done ↦ (
    elim (get_elem? etag 1) [
      | none ↦ err index_error
      | some c ↦ ok (
        record { code = 200; etag = none; body = none; old_etag = none },
        some (some (c ∷ []), none),
      )
    ],
    set k none m,
  )
]

abbrev pub seen_delete :
    Result Fault (StatusResponse × Option Change) × Accounts
    → Result Fault (StatusResponse × Option Change) × Contents
seen_delete r = (r.0, view r.1)

-- a result with what is stored afterwards
abbrev pub seen :
    Result Fault (StatusResponse × Option Change × Accounts)
    → Result Fault (StatusResponse × Option Change × Contents)
seen r = do (response, change, accounts) ← r; ok (response, change, view accounts)

abbrev pub target_of : DocKey → Target
target_of k = record {
  username = some k.username;
  domain = some k.domain;
  application_id = k.application_id;
  document_path = k.document_path;
}

-- the user of a document has one account, with a profile
abbrev pub HasProfile : DocKey → Profile → Accounts → Type 0
HasProfile k p accounts =
    (a : Account) × (select_accounts (some k.username) (some k.domain) accounts ≡ a ∷ [])
    × (a.profile ≡ some p)

pub view-profile :
    (k : DocKey) (p : Profile) (accounts : Accounts)
    → HasProfile k p accounts
    → view accounts k ≡ lookup_doc k.application_id k.document_path (docs_of p)
unfolding view
view-profile k p accounts (a, one, e) = rw (one, e) refl

pub same_account :
    (k j : DocKey) (p : Profile) (accounts : Accounts)
    → str_eq k.username j.username && str_eq k.domain j.domain ≡ true
    → HasProfile k p accounts
    → HasProfile j p accounts
same_account k j p accounts g (a, one, e) =
    let name : k.username ≡ j.username = ground (arith, str_eq_iff k.username j.username) in
    let domain : k.domain ≡ j.domain =
      ground (arith, str_eq_iff k.username j.username, str_eq_iff k.domain j.domain) in
    (
      a,
      ap (λ x. select_accounts (some x) (some j.domain) accounts) (sym name)
          ∙ ap (λ x. select_accounts (some k.username) (some x) accounts) (sym domain)
          ∙ one,
      e,
    )
