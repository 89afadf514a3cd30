-- ===== src/Xpath/Document/Laws.antt =====
-- Which texts are document selectors, and what they select.
use openxcap.Prelude.{
  ℕ, ◌≡◌, ◌≢◌, refl, sym, ap, ◌∙◌, Option, none, some, List, [], ◌∷◌, ◌++◌, arith, Str, codes,
  str_eq, str_eq_iff, is_empty, split_on, join, ◌==◌, ok, Without, split_on-append, join-split_on,
  split_on-ne-nil, ==_iff, Bool-cases, inl, inr, ◌⊎◌,
}
use openxcap.Xpath.Document.{
  DocumentSelector, behind_slash, drop_last_slash, path_of, read_user, read_global, read_segments,
  document_selector,
}

abbrev user_and_path : Option Str → Str → Str
user_and_path none path = path
user_and_path (some u) path = u ++ b'/' ∷ path

-- the text of a document selector, behind its first slash
abbrev body : DocumentSelector → Str
body d = d.application_id ++ b'/' ∷ (d.context ++ b'/' ∷ user_and_path d.user_id d.document_path)

abbrev pub render : DocumentSelector → Str
render d = b'/' ∷ body d

-- what a document selector can be
abbrev pub HasContext : DocumentSelector → Type 0
HasContext d =
    ((d.context ≡ codes "users") × (d.user_id ≢ none))
    ⊎ ((d.context ≡ codes "global") × (d.user_id ≡ none))

path_of-join : (l : List Str) (s : Str) → l ≢ [] → join (codes "/") l ≡ s → path_of l ≡ ok s
unfolding path_of
path_of-join [] s h e = absurd (h refl)
path_of-join (x ∷ l) s h e = ap ok e

drop_last_slash_cases : (s : Str) → (s ≡ drop_last_slash s) ⊎ (s ≡ drop_last_slash s ++ b'/' ∷ [])
unfolding drop_last_slash
drop_last_slash_cases [] = inl refl
drop_last_slash_cases (c ∷ []) = ground arith
drop_last_slash_cases (c ∷ d ∷ s) = ground (arith, drop_last_slash_cases (d ∷ s))

read_user_sound :
    (auid : Str) (l : List Str) (d : DocumentSelector)
    → read_user auid l ≡ ok d
    → (join (codes "/") (auid ∷ codes "users" ∷ l) ≡ body d) × HasContext d
unfolding read_user join
read_user_sound auid [] d h = cc
read_user_sound auid (u ∷ []) d h = cc
read_user_sound auid (u ∷ s ∷ l) d h = ground arith

read_global_sound :
    (auid : Str) (l : List Str) (d : DocumentSelector)
    → read_global auid l ≡ ok d
    → (join (codes "/") (auid ∷ codes "global" ∷ l) ≡ body d) × HasContext d
unfolding read_global join
read_global_sound auid [] d h = cc
read_global_sound auid (s ∷ l) d h = ground arith

read_segments_sound :
    (l : List Str) (d : DocumentSelector)
    → read_segments l ≡ ok d
    → (join (codes "/") l ≡ body d) × HasContext d
unfolding read_segments
read_segments_sound [] d h = cc
read_segments_sound (a ∷ []) d h = cc
read_segments_sound (a ∷ c ∷ l) d h = elim (Bool-cases (str_eq c (codes "users"))) [
  | inl e ↦ rw ((str_eq_iff c (codes "users")).0 e) (read_user_sound a l d (rw e at h))
  | inr e ↦ elim (Bool-cases (str_eq c (codes "global"))) [
    | inl g ↦ rw ((str_eq_iff c (codes "global")).0 g) (read_global_sound a l d (rw (e, g) at h))
    | inr g ↦ cc (rw (e, g) at h)
  ]
]

trimmed_sound :
    (s : Str) (d : DocumentSelector)
    → read_segments (split_on b'/' (drop_last_slash s)) ≡ ok d
    → ((b'/' ∷ s ≡ render d) ⊎ (b'/' ∷ s ≡ render d ++ b'/' ∷ [])) × HasContext d
trimmed_sound s d h =
    let both = read_segments_sound (split_on b'/' (drop_last_slash s)) d h in
    let e = sym (join-split_on b'/' (drop_last_slash s)) ∙ both.0 in
    (
      elim (drop_last_slash_cases s) [
        | inl q ↦ inl (ap (λ t. b'/' ∷ t) (q ∙ e))
        | inr q ↦ inr (ap (λ t. b'/' ∷ t) (q ∙ ap (λ t. t ++ b'/' ∷ []) e))
      ],
      both.1,
    )

-- What is accepted as a document selector is the text of the selector that comes out, up to one
-- slash at the end, and its context is 'users' with a user or 'global' with none.
pub document_selector_sound :
    (s : Str) (d : DocumentSelector)
    → document_selector s ≡ ok d
    → ((s ≡ render d) ⊎ (s ≡ render d ++ b'/' ∷ [])) × HasContext d
unfolding document_selector behind_slash
document_selector_sound [] d h = cc
document_selector_sound (c ∷ s) d h = elim (Bool-cases (c == b'/')) [
  | inr e ↦ cc (rw e at h)
  | inl e ↦ elim (Bool-cases (is_empty (drop_last_slash s))) [
    | inl g ↦ cc (rw (e, g) at h)
    | inr g ↦ rw ((==_iff c b'/').0 e) (trimmed_sound s d (rw (e, g) at h))
  ]
]

abbrev pub user_document : Str → Str → Str → DocumentSelector
user_document auid user path = record {
  application_id = auid;
  context = codes "users";
  user_id = some user;
  document_path = path;
}

abbrev pub global_document : Str → Str → DocumentSelector
global_document auid path = record {
  application_id = auid;
  context = codes "global";
  user_id = none;
  document_path = path;
}

-- the path of a document: not empty, and no slash at the end
abbrev pub IsPath : Str → Type 0
IsPath path = (path ≢ []) × (drop_last_slash path ≡ path)

drop_last_slash-append : (a path : Str) → IsPath path → drop_last_slash (a ++ path) ≡ a ++ path
unfolding drop_last_slash
drop_last_slash-append [] path h = h.1
drop_last_slash-append (c ∷ []) [] h = absurd (h.0 refl)
drop_last_slash-append (c ∷ []) (x ∷ path) h = ap (λ t. c ∷ t) h.1
drop_last_slash-append (c ∷ d ∷ a) path h = ap (λ t. c ∷ t) (drop_last_slash-append (d ∷ a) path h)

append-ne-nil : (a path : Str) → path ≢ [] → (a ++ path) ≢ []
append-ne-nil [] path h = h
append-ne-nil (c ∷ a) path h = cc

IsPath-append : (a path : Str) → IsPath path → IsPath (a ++ path)
IsPath-append a path h = (append-ne-nil a path h.0, drop_last_slash-append a path h)

IsPath-cons : (c : ℕ) (path : Str) → IsPath path → IsPath (c ∷ path)
IsPath-cons c path h = IsPath-append (c ∷ []) path h

document_selector-IsPath :
    (s : Str) → IsPath s → document_selector (b'/' ∷ s) ≡ read_segments (split_on b'/' s)
unfolding document_selector behind_slash
document_selector-IsPath [] h = absurd (h.0 refl)
document_selector-IsPath (c ∷ s) h = rw h.1

path_of-split_on : (path : Str) → path_of (split_on b'/' path) ≡ ok path
path_of-split_on path =
    path_of-join (split_on b'/' path) path (split_on-ne-nil b'/' path) (join-split_on b'/' path)

segments-users :
    (auid user path : Str)
    → Without b'/' auid
    → Without b'/' user
    → split_on b'/' (body (user_document auid user path))
      ≡ auid ∷ codes "users" ∷ user ∷ split_on b'/' path
segments-users auid user path ha hu =
    split_on-append b'/' auid (codes "users" ++ b'/' ∷ (user ++ b'/' ∷ path)) ha
    ∙ ap (λ l. auid ∷ l)
        (split_on-append b'/' (codes "users") (user ++ b'/' ∷ path) (ground arith)
          ∙ ap (λ l. codes "users" ∷ l) (split_on-append b'/' user path hu))

segments-global :
    (auid path : Str)
    → Without b'/' auid
    → split_on b'/' (body (global_document auid path)) ≡ auid ∷ codes "global" ∷ split_on b'/' path
segments-global auid path ha =
    split_on-append b'/' auid (codes "global" ++ b'/' ∷ path) ha
    ∙ ap (λ l. auid ∷ l) (split_on-append b'/' (codes "global") path (ground arith))

-- A document of a user is selected by its text, where neither the application's id nor the user
-- has a slash.
pub document_selector-users :
    (auid user path : Str)
    → Without b'/' auid
    → Without b'/' user
    → IsPath path
    → document_selector (render (user_document auid user path)) ≡ ok (user_document auid user path)
unfolding read_segments read_user str_eq
document_selector-users auid user path ha hu hp = rw (
  document_selector-IsPath (body (user_document auid user path)) (
      IsPath-append auid _
        (IsPath-append (codes "/users/") _ (IsPath-append user _ (IsPath-cons b'/' path hp)))),
  segments-users auid user path ha hu,
  path_of-split_on path,
)

-- A global document is selected by its text, where the application's id has no slash.
pub document_selector-global :
    (auid path : Str)
    → Without b'/' auid
    → IsPath path
    → document_selector (render (global_document auid path)) ≡ ok (global_document auid path)
unfolding read_segments read_global str_eq
document_selector-global auid path ha hp = rw (
  document_selector-IsPath (body (global_document auid path))
      (IsPath-append auid _ (IsPath-append (codes "/global/") _ hp)),
  segments-global auid path ha,
  path_of-split_on path,
)
