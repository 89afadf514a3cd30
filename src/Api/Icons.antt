-- ===== src/Api/Icons.antt =====
-- The routes of the icon of a user.
use openxcap.Prelude.{
  ℕ, Bool, false, Option, none, some, Str, str_eq, if◌then◌else◌, Result, ok, err, ◌>>=◌, of_option,
}
use openxcap.Errors.{Fault, http, value_error}
use openxcap.Backend.{Table}
use openxcap.Api.{Store}

-- PresenceContent of sipsimple, and UserIconModel
pub record Icon : Type 0 where
  pub text : Str
  pub mime_type : Str
  pub description : Str
  pub encoding : Str

-- the payload: its parser, and its text
pub record IconPayload : Type 0 where
  pub parse : Str → Option Icon
  pub toxml : Icon → Str

module _ (payload : IconPayload) (store : Store) where
  load_icon : Table → Result Fault Icon
  load_icon rows = do text ← store.read rows; of_option value_error (payload.parse text)

  -- load_data(..., False)
  icon_read : Result Fault Str → Result Fault (Option Icon)
  icon_read (err e) = ok none
  icon_read (ok text) = do i ← of_option value_error (payload.parse text); ok (some i)

  -- get_icon
  unfoldable pub get_icon : Table → Result Fault Icon
  unfolding load_icon
  get_icon rows = load_icon rows

  -- document.content and content and document.content.data == content.data
  abbrev is_same : Option Icon → Icon → Bool
  is_same none icon = false
  is_same (some i) icon = str_eq i.text icon.text

  -- add_icon
  unfoldable pub add_icon : Icon → Str → Table → Result Fault (Icon × Table)
  unfolding icon_read str_eq
  add_icon icon fresh rows = do
    old ← icon_read (store.read rows)
    if is_same old icon
        then err (http 304)
        else (do (status, after) ← store.write (payload.toxml icon) fresh rows; ok (icon, after))

  -- delete_icon: the document is written again before it is deleted, and the status 204 of that
  -- answer is not used
  unfoldable pub delete_icon : Str → Str → Table → Result Fault (ℕ × Table)
  unfolding load_icon
  delete_icon fresh later rows = do
    icon ← load_icon rows
    (status, between) ← store.write (payload.toxml icon) fresh rows
    store.erase later between
