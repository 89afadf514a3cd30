-- ===== src/Api/Groups.antt =====
-- The routes of groups and of their members.
use openxcap.Prelude.{
  ℕ, Bool, true, false, none, some, List, [], ◌∷◌, Str, if◌then◌else◌, Result, ok, err, ◌>>=◌,
  of_option, Dict,
}
use openxcap.Errors.{Fault, http, key_error}
use openxcap.Backend.{Table}
use openxcap.Api.{Payload, Store, is_in, load_book, load_or_make, save, no_content}

-- GroupAddModel, without the id: its contacts are ids
pub record GroupModel : Type 0 where
  pub name : Str
  pub attributes : Dict Str
  pub contacts : List Str

-- desired - current and current - desired, in some order
unfoldable pub difference : List Str → List Str → List Str
difference [] ys = []
difference (x ∷ xs) ys = let rest = difference xs ys in if is_in x ys then rest else x ∷ rest

-- set(...)
unfoldable pub as_set : List Str → List Str
as_set [] = []
as_set (x ∷ xs) = let rest = as_set xs in if is_in x rest then rest else x ∷ rest

module _ (payload : Payload) where
  open payload use {
    Content, Group, contact, group, groups, store_group, delete_group, new_group, rename, members,
    has_member, add_member, remove_member, update_group_attributes,
  }

  abbrev pub is_contact : Content → Str → Bool
  is_contact c id = elim (contact id c) [ none ↦ false | some x ↦ true ]

  -- the contacts that there are; add_group keeps their order
  unfoldable pub existing : Content → List Str → List Str
  existing c [] = []
  existing c (id ∷ ids) = let rest = existing c ids in if is_contact c id then id ∷ rest else rest

  unfoldable pub add_members : List Str → Group → Group
  add_members [] g = g
  add_members (x ∷ xs) g = add_members xs (add_member x g)

  unfoldable pub remove_members : List Str → Group → Result Fault Group
  remove_members [] g = ok g
  remove_members (x ∷ xs) g = do h ← of_option key_error (remove_member x g); remove_members xs h

  -- update_group, on the group: its name, its members and its attributes
  unfoldable pub with_members : List Str → Group → Result Fault Group
  with_members desired g =
      let current = as_set (members g) in
      remove_members (difference current desired) (add_members (difference desired current) g)

  unfoldable pub updated_group : Content → GroupModel → Group → Result Fault Group
  updated_group c m g = do
    h ← with_members (as_set (existing c m.contacts)) (rename m.name g)
    ok (update_group_attributes m.attributes h)

  -- the group that add_group_member makes
  unfoldable pub with_member : Content → Str → Group → Result Fault Group
  with_member c id g =
      if has_member id g
      then err (http 409)
      else if is_contact c id
      then ok (add_member id g)
      else err (http 404)

  module _ (store : Store) where
    -- get_groups
    unfoldable pub get_groups : Table → Result Fault (List Group)
    get_groups rows = do c ← load_book payload store rows; ok (groups c)

    -- get_group
    unfoldable pub get_group : Str → Table → Result Fault Group
    get_group id rows = do c ← load_book payload store rows; of_option (http 404) (group id c)

    -- add_group
    unfoldable pub add_group : Str → GroupModel → Str → Table → Result Fault (Group × Table)
    add_group id m fresh rows = do
      c ← load_or_make payload store rows
      let g = new_group id m.name (existing c m.contacts) m.attributes
      (status, after) ← save payload store (store_group g c) fresh rows
      ok (g, after)

    -- update_group
    unfoldable pub update_group : Str → GroupModel → Str → Table → Result Fault (Group × Table)
    update_group id m fresh rows = do
      c ← load_book payload store rows
      g ← of_option (http 404) (group id c)
      h ← updated_group c m g
      (status, after) ← save payload store (store_group h c) fresh rows
      ok (h, after)

    -- delete_group
    unfoldable pub delete_group_route : Str → Str → Table → Result Fault (ℕ × Table)
    delete_group_route id fresh rows = do
      c ← load_book payload store rows
      g ← of_option (http 404) (group id c)
      (status, after) ← save payload store (delete_group id c) fresh rows
      ok (no_content status, after)

    -- add_group_member
    unfoldable pub add_group_member : Str → Str → Str → Table → Result Fault (Group × Table)
    add_group_member group_id id fresh rows = do
      c ← load_book payload store rows
      g ← of_option (http 404) (group group_id c)
      h ← with_member c id g
      (status, after) ← save payload store (store_group h c) fresh rows
      ok (h, after)

    -- delete_group_member
    unfoldable pub delete_group_member : Str → Str → Str → Table → Result Fault (ℕ × Table)
    delete_group_member group_id id fresh rows = do
      c ← load_book payload store rows
      g ← of_option (http 404) (group group_id c)
      h ← of_option (http 404) (remove_member id g)
      (status, after) ← save payload store (store_group h c) fresh rows
      ok (no_content status, after)
