-- ===== src/Xpath/Document.antt =====
-- DocumentSelector of xcap/xpath.py.
pub mod Laws
use openxcap.Prelude.{
  Option, none, some, List, [], ◌∷◌, Str, codes, str_eq, is_empty, split_on, join, if◌then◌else◌,
  ◌==◌, Result, ok, err, ◌>>=◌,
}
use openxcap.Xpath.{XpathError, document_selector_error}

pub record DocumentSelector : Type 0 where
  pub application_id : Str
  pub context : Str
  pub user_id : Option Str
  pub document_path : Str

-- selector[1:], if selector[:1] == '/'
unfoldable pub behind_slash : Str → Result XpathError Str
behind_slash [] = err document_selector_error
behind_slash (c ∷ s) = if c == b'/' then ok s else err document_selector_error

-- selector[:-1], if selector[-1:] == '/'
unfoldable pub drop_last_slash : Str → Str
drop_last_slash [] = []
drop_last_slash (c ∷ []) = if c == b'/' then [] else c ∷ []
drop_last_slash (c ∷ d ∷ s) = c ∷ drop_last_slash (d ∷ s)

path_of : List Str → Result XpathError Str
path_of [] = err document_selector_error
path_of (s ∷ rest) = ok (join (codes "/") (s ∷ rest))

-- the part behind the context
read_user : Str → List Str → Result XpathError DocumentSelector
unfolding path_of
read_user auid [] = err document_selector_error
read_user auid (user ∷ segments) = do
  path ← path_of segments
  ok (record {
    application_id = auid;
    context = codes "users";
    user_id = some user;
    document_path = path;
  })

read_global : Str → List Str → Result XpathError DocumentSelector
unfolding path_of
read_global auid segments = do
  path ← path_of segments
  ok (record {
    application_id = auid;
    context = codes "global";
    user_id = none;
    document_path = path;
  })

read_segments : List Str → Result XpathError DocumentSelector
unfolding read_user read_global
read_segments (auid ∷ context ∷ segments) =
    if str_eq context (codes "users")
    then read_user auid segments
    else if str_eq context (codes "global")
    then read_global auid segments
    else err document_selector_error
read_segments _ = err document_selector_error

-- DocumentSelector(selector)
unfoldable pub document_selector : Str → Result XpathError DocumentSelector
unfolding behind_slash drop_last_slash read_segments split_on join
document_selector selector = do
  s ← behind_slash selector
  let trimmed = drop_last_slash s
  if is_empty trimmed then err document_selector_error else read_segments (split_on b'/' trimmed)
