-- ===== src/Api/Policies.antt =====
-- The routes of policies.
use openxcap.Prelude.{ℕ, List, Str, Result, ok, ◌>>=◌, of_option, Dict}
use openxcap.Errors.{Fault, http}
use openxcap.Backend.{Table}
use openxcap.Api.{Payload, Store, Handling, load_book, load_or_make, save, no_content}

-- PolicyModel, without the id
pub record PolicyModel : Type 0 where
  pub name : Str
  pub uri : Str
  pub presence : Handling
  pub dialog : Handling
  pub attributes : Dict Str

module _ (payload : Payload) (store : Store) where
  open payload use {Policy, policy, policies, store_policy, delete_policy, new_policy, set_policy}

  -- get_policies
  unfoldable pub get_policies : Table → Result Fault (List Policy)
  get_policies rows = do c ← load_book payload store rows; ok (policies c)

  -- get_policy
  unfoldable pub get_policy : Str → Table → Result Fault Policy
  get_policy id rows = do c ← load_book payload store rows; of_option (http 404) (policy id c)

  abbrev made_policy : Str → PolicyModel → Policy
  made_policy id m = new_policy id m.uri m.name m.presence m.dialog m.attributes

  -- add_policy
  unfoldable pub add_policy : Str → PolicyModel → Str → Table → Result Fault (Policy × Table)
  add_policy id m fresh rows = do
    c ← load_or_make payload store rows
    (status, after) ← save payload store (store_policy (made_policy id m) c) fresh rows
    ok (made_policy id m, after)

  -- what update_policy makes of a policy
  abbrev updated_policy : PolicyModel → Policy → Policy
  updated_policy m p = set_policy m.name m.uri m.presence m.dialog m.attributes p

  -- update_policy
  unfoldable pub update_policy : Str → PolicyModel → Str → Table → Result Fault (Policy × Table)
  update_policy id m fresh rows = do
    c ← load_book payload store rows
    p ← of_option (http 404) (policy id c)
    (status, after) ← save payload store (store_policy (updated_policy m p) c) fresh rows
    ok (updated_policy m p, after)

  -- delete_policy
  unfoldable pub delete_policy_route : Str → Str → Table → Result Fault (ℕ × Table)
  delete_policy_route id fresh rows = do
    c ← load_book payload store rows
    p ← of_option (http 404) (policy id c)
    (status, after) ← save payload store (delete_policy id c) fresh rows
    ok (no_content status, after)
