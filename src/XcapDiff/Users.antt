-- ===== src/XcapDiff/Users.antt =====
-- The notifier forgets a user, and with it the time of the last publication, as soon as no change
-- waits.
use openxcap.Prelude.{
  ℕ, ◌≤◌, ◌≡◌, refl, true, Option, List, [], ◌∷◌, Str, str_eq_refl, leb, Dict, lookup, insert,
  remove, arith, map, All,
}
use openxcap.XcapDiff.{
  Change, UserChanges, Users, min_wait, note_change, schedule, call_at_limited_rate, add_change,
  try_cleanup, after_change, on_change,
}

-- one change: when, whose, of which document, and its tags
pub record Report : Type 0 where
  pub now : ℕ
  pub key : Str
  pub uri : Str
  pub old : Option Str
  pub new : Option Str

-- what a change publishes by itself
abbrev pub alone : Report → Dict Change
alone r = (r.uri, (r.old, r.new)) ∷ []

insert-remove : (key : Str) (u : UserChanges) → remove key (insert key u []) ≡ []
unfolding insert remove
insert-remove key u = rw (str_eq_refl key) refl

enough : (now : ℕ) → min_wait ≤ now → leb min_wait now ≡ true
enough now h = ground arith

on_change-alone :
    (r : Report)
    → min_wait ≤ r.now
    → on_change r.now r.key r.uri r.old r.new [] ≡ (alone r ∷ [], [])
unfolding on_change add_change note_change call_at_limited_rate schedule after_change try_cleanup
    lookup insert
on_change-alone r h = rw (enough r.now h) (rw (str_eq_refl r.key) refl)

-- the publications of changes that come one after another to a notifier without users
abbrev pub published : List Report → Users → List (List (Dict Change)) × Users
published [] users = ([], users)
published (r ∷ rs) users =
    let (out, users1) = on_change r.now r.key r.uri r.old r.new users in
    let (outs, users2) = published rs users1 in (out ∷ outs, users2)

-- Changes that come one after another are each published at once and alone, whoever's they are and
-- however little time is between them, and the notifier keeps nothing: every change finds no user,
-- and so a last call at time 0.
pub published-alone :
    (rs : List Report)
    → All (λ r. min_wait ≤ r.now) rs
    → published rs [] ≡ (map (λ r. alone r ∷ []) rs, [])
published-alone [] h = refl
published-alone (r ∷ rs) h = rw (on_change-alone r h.0, published-alone rs h.1) refl
