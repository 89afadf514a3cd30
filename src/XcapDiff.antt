-- ===== src/XcapDiff.antt =====
-- xcap/xcapdiff.py: the changes of documents that wait for a publication, the limit on the rate of
-- publications, and the notifier that keeps both for each user. Nothing in a call of `on_change`
-- yields to other tasks before it is done, so that a call, and the end of the sleep of a delayed
-- call, is one event. Time is in seconds, and an event carries the time that `time()` returns.
pub mod Limit
pub mod Pending
pub mod Users
use openxcap.Prelude.{
  ℕ, ◌+◌, ◌-◌, Bool, true, false, not, Option, none, some, List, [], ◌∷◌, ◌++◌, map, Str, codes,
  is_empty, str_eq, join, if◌then◌else◌, leb, Dict, lookup, insert, remove,
}

-- the old tag and the new one, each of them None or a text
abbrev pub Change : Type 0
Change = Option Str × Option Str

-- ' name="%s"' % etag, if etag
unfoldable pub etag_attribute : Str → Option Str → Str
etag_attribute name none = []
etag_attribute name (some []) = []
etag_attribute name (some (c ∷ e)) = b' ' ∷ (name ++ (codes "=\"" ++ ((c ∷ e) ++ codes "\"")))

-- xml_document
unfoldable pub xml_document : Str → Change → Str
unfolding etag_attribute
xml_document sel (old, new) =
    codes "<document"
    ++ (etag_attribute (codes "new-etag") new
        ++ (codes " sel=\""
            ++ (sel ++ (codes "\"" ++ (etag_attribute (codes "previous-etag") old ++ codes "/>")))))

-- xml_xcapdiff
unfoldable pub xml_xcapdiff : Str → Str → Str
xml_xcapdiff root content =
    codes
      "<?xml version=\"1.0\" encoding=\"UTF-8\"?>\n<xcap-diff xmlns=\"urn:ietf:params:xml:ns:xcap-diff\" xcap-root=\""
    ++ (root ++ (codes "\">\n" ++ (content ++ codes "\n</xcap-diff>\n")))

-- the text that `unload_changes` makes
unfoldable pub changes_text : Str → Dict Change → Str
unfolding xml_document xml_xcapdiff join
changes_text root changes =
    xml_xcapdiff root (join (codes "\n") (map (λ c. xml_document c.0 c.1) changes))

-- UserChanges with its RateLimit; `delayed` is the time at which the delayed call ends its sleep
pub record UserChanges : Type 0 where
  pub changes : Dict Change
  pub last_call : ℕ
  pub delayed : Option ℕ

-- UserChanges.MIN_WAIT
abbrev pub min_wait : ℕ
min_wait = 30

abbrev pub new_user : UserChanges
new_user = record { changes = []; last_call = 0; delayed = none }

-- self.changes.setdefault(uri, [old_etag, etag])[1] = etag
unfoldable pub note_change : Str → Option Str → Option Str → Dict Change → Dict Change
unfolding lookup insert
note_change uri old new changes = elim (lookup uri changes) [
  | none ↦ insert uri (old, new) changes
  | some (first, last) ↦ insert uri (first, new) changes
]

-- UserChanges.publish: what is published, if there is anything, and no changes
abbrev pub publish : UserChanges → List (Dict Change) × UserChanges
publish u = (if is_empty u.changes then [] else u.changes ∷ [], record u { changes = [] })

-- RateLimit._schedule. `delta`, which callAtLimitedRate has as now - last_call, is negative where the
-- clock has gone back: the test `delta >= min_wait`, and the end now + (min_wait - delta) of the sleep,
-- are written with the last call added on both sides.
schedule : ℕ → UserChanges → List (Dict Change) × UserChanges
schedule now u =
    let wanted = u.last_call + min_wait in
    if leb wanted now
    then publish (record u { last_call = now })
    else ([], record u { delayed = some wanted })

-- RateLimit.callAtLimitedRate of UserChanges.publish
unfoldable pub call_at_limited_rate : ℕ → UserChanges → List (Dict Change) × UserChanges
unfolding schedule
call_at_limited_rate now u = elim u.delayed [ none ↦ schedule now u | some due ↦ ([], u) ]

-- UserChanges.add_change
unfoldable pub add_change :
    ℕ → Str → Option Str → Option Str → UserChanges → List (Dict Change) × UserChanges
unfolding note_change call_at_limited_rate
add_change now uri old new u =
    call_at_limited_rate now (record u { changes = note_change uri old new u.changes })

-- RateLimit._delayed_call behind its sleep
unfoldable pub end_of_sleep : ℕ → UserChanges → List (Dict Change) × UserChanges
end_of_sleep now u = publish (record u { last_call = now; delayed = none })

-- Notifier.users_changes
abbrev pub Users : Type 0
Users = Dict UserChanges

abbrev pub user_at : Option UserChanges → UserChanges
user_at none = new_user
user_at (some u) = u

-- the local function try_cleanup
unfoldable pub try_cleanup : Str → UserChanges → Users → Users
unfolding remove
try_cleanup key u users = if is_empty u.changes then remove key users else users

-- clean at once if there is no delayed call, and when it is done if there is
after_change : Str → UserChanges → Users → Users
unfolding try_cleanup
after_change key u users = elim u.delayed [ none ↦ try_cleanup key u users | some due ↦ users ]

-- Notifier.on_change
unfoldable pub on_change :
    ℕ → Str → Str → Option Str → Option Str → Users → List (Dict Change) × Users
unfolding add_change after_change lookup insert
on_change now key uri old new users =
    let (out, u) = add_change now uri old new (user_at (lookup key users)) in
    (out, after_change key u (insert key u users))

-- the delayed call of a user, and the callbacks behind it
unfoldable pub on_timer : ℕ → Str → Users → List (Dict Change) × Users
unfolding end_of_sleep try_cleanup lookup insert
on_timer now key users = elim (lookup key users) [
  | none ↦ ([], users)
  | some u ↦ let (out, v) = end_of_sleep now u in (out, try_cleanup key v (insert key v users))
]
