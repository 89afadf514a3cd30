-- ===== src/AppUsage/Readers.antt =====
-- The applications of xcap/appusage that only answer GET: directory.py, capabilities.py, watchers.py
-- and purge.py. What lxml writes is a parameter.
use openxcap.Prelude.{
  ℕ, true, Option, none, some, List, [], ◌∷◌, ◌++◌, Str, codes, map, Dict, Result, ok, err, ◌>>=◌,
}
use openxcap.Errors.{Fault, http, attribute_error, type_error, value_error}
use openxcap.Uri.{XcapUri, shown}
use openxcap.Backend.{StatusResponse, Check}

-- a folder of the directory: an application, and the URI and the tag of each document
pub record Folder : Type 0 where
  pub auid : Str
  pub entries : List (Str × Str)

-- "%s/%s/users/%s/%s" % (uri.xcap_root, k, sip_uri, item[0])
unfoldable pub entry_uri : XcapUri → Str → Str → Str
entry_uri uri id path =
    uri.xcap_root
    ++ (codes "/"
        ++ (id
            ++ (codes "/users/sip:"
                ++ (shown uri.user.username
                    ++ (codes "@" ++ (shown uri.user.domain ++ (codes "/" ++ path)))))))

-- XCAPDirectoryApplication._docs_to_xml, up to the text of the tree
unfoldable pub folders : XcapUri → Dict (List (Str × Str)) → List Folder
unfolding entry_uri
folders uri docs =
    map (λ d. record { auid = d.0; entries = map (λ e. (entry_uri uri d.0 e.0, e.1)) d.1 }) docs

unfoldable pub docs_to_xml :
    (List Folder → Str) → XcapUri → Dict (List (Str × Str)) → StatusResponse
unfolding folders
docs_to_xml tostring uri docs = record {
  code = 200;
  etag = none;
  body = some (tostring (folders uri docs));
  old_etag = none;
}

-- addCallback, where the storage gives a coroutine, which has none: its body is not run
abbrev pub add_callback : Result Fault StatusResponse
add_callback = err attribute_error

-- XCAPDirectoryApplication.get_document_local, PurgeApplication.get_document_local
unfoldable pub get_document_local : Result Fault StatusResponse
get_document_local = add_callback

-- put_document of the four applications
unfoldable pub put_document : Result Fault StatusResponse
put_document = err (http 404)

-- PurgeApplication.delete_document, which wants one argument more than it is given
unfoldable pub delete_purge : Result Fault StatusResponse
delete_purge = err type_error

-- XCAPCapabilitiesApplication: `doc` and `etag`, once there are
abbrev pub Capabilities : Type 0
Capabilities = Option (Str × Str)

module _ (tostring : Dict (Option Str) → Str) (make_etag : Str → Str → Str)
    (applications : Dict (Option Str)) where
  -- _get_document, over the ids and namespaces of the applications
  unfoldable pub get_capabilities : Capabilities → (Str × Str) × Capabilities
  get_capabilities (some known) = (known, some known)
  get_capabilities none =
      let doc = tostring applications in
      let etag = make_etag (codes "xcap-caps") doc in ((doc, etag), some (doc, etag))

  -- get_document_global
  unfoldable pub get_document_global : Capabilities → StatusResponse × Capabilities
  unfolding get_capabilities
  get_document_global state =
      let ((doc, etag), after) = get_capabilities state in
      (record { code = 200; etag = some etag; body = some doc; old_etag = none }, after)

-- a row of the table of watchers
pub record Watcher : Type 0 where
  pub presentity_uri : Str
  pub watcher_username : Str
  pub watcher_domain : Str
  pub event : Str
  pub status : ℕ

-- DatabaseStorage.get_watchers, over the rows of its first query: each has one object in it, which
-- does not unpack into three; a query that is read to its end gives no active watchers
unfoldable pub get_watchers : List Watcher → Result Fault (List (Dict Str))
get_watchers [] = ok []
get_watchers (w ∷ ws) = err value_error

-- WatchersApplication._watchers_to_xml
unfoldable pub watchers_to_xml :
    (List (Dict Str) → Str) → (Str → Str) → Check → List (Dict Str) → Result Fault StatusResponse
watchers_to_xml tostring make_etag check watchers = do
  done ← check (some (make_etag (tostring watchers))) true
  ok (record {
    code = 200;
    etag = some (make_etag (tostring watchers));
    body = some (tostring watchers);
    old_etag = none;
  })
