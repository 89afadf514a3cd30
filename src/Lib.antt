-- ===== src/Lib.antt =====
-- OpenXCAP: an XCAP server (RFC 4825), which serves the XML documents of its users, and their parts,
-- over HTTP.
--
-- A request names a document, and in it an element, by its URL. xcap/authentication/auth.py parses
-- the URL and lets the owner of a document in; xcap/services/xcap_service.py holds the conditions
-- (If-Match and others) against the tag of the document; xcap/appusage/__init__.py reads, replaces
-- and deletes documents, elements and attributes, and its applications hold their own constraints
-- against what is PUT; xcap/backend/database.py stores documents, a row for each, and
-- xcap/backend/sipthor.py in the profiles of accounts; xcap/xcapdiff.py tells the watchers which
-- documents have changed; and xcap/routes/api_routes.py is a REST interface to the address book in the
-- resource lists of a user, which goes through the same PUT and GET.
--
-- Prelude: what the parts share. Texts are lists of the numbers of their characters or bytes, with
--   Python's tests and splits on them (Prelude/Text, Lists, Splitting, Stripping, Decimal); errors
--   are values of Result, raised and handled in do blocks (Prelude/Raising); a dict is an association
--   list in the order of insertion (Prelude/Maps).
-- Xpath: xcap/xpath.py. Xpath/Tokens is XPathTokenizer, over the scanner of lxml; Xpath/Reader the
--   readers of steps and read_node_selector; Xpath/Document DocumentSelector; Xpath/Quoting and
--   Xpath/Selector the texts of steps and of ElementSelector; Xpath/Node is NodeSelector, with the
--   bindings of a query and fix_star. Xpath/Reader/Written has the grammar of node selectors behind the
--   scanner, with its tokens, Xpath/Reader/Pairs the pairs that the scanner yields for it, and
--   Xpath/Node/Written selectors with prefixes, which the scanner resolves.
-- Element: xcap/element.py. Element holds the state of the content handlers (StackElement, XPathLocator),
--   Element/Find is ElementLocator, Element/Insert InsertPointLocator, Element/Splice find, get, delete
--   and put. Element/Tree has the tree of a document, and which elements of it a selector denotes;
--   Element/Find/Located compares the handler with it. Element/Utf8 is the decoding of a document.
-- Uri: xcap/uri.py, XCAPUser and XCAPUri.
-- HttpUtils: xcap/http_utils.py, tokenize, quoteString, parse_list_header and ETag.
-- Preconditions: checkPreconditions and check_etag of xcap/services/xcap_service.py.
-- Errors: xcap/errors.py, and the errors of the other files.
-- Backend: xcap/backend/__init__.py and xcap/backend/database.py, with what NotifyingStorage of
--   xcap/backend/opensips.py passes on. Backend/Refinement has the abstract storage, a map from keys
--   to documents with tags, and compares the table with it; Backend/Reached has the tables that the
--   operations make; Backend/Stored is for the applications. Backend/Transactions takes PUT and DELETE
--   apart into their query and their commit, for requests that overlap: Backend/Transactions/Runs has
--   every order of them, and Backend/Transactions/Isolated is about the commits in it, on the ground of
--   Sound, Owned, Fits and Made beside it. Backend/Transactions/Alone and Serial are about requests that
--   others leave alone, and Lost about those that they do not.
-- XcapDiff: xcap/xcapdiff.py, UserChanges, Notifier and RateLimitedFun. XcapDiff/Limit has sequences of
--   changes and of ends of delayed calls, in any order.
-- Auth: xcap/authentication/auth.py. Auth/Login is digest_auth and basic_auth with the cache of nonces,
--   Auth/Gate is authenticate_xcap_request, and Auth/ApiGate authenticate_api_request.
-- Configuration: XCAPRootURI and ResponseCodeList of xcap/configuration/datatypes.py.
-- AppUsage: xcap/appusage/__init__.py, the operations on documents and elements; AppUsage/Attributes those
--   on attributes and namespace bindings. AppUsage/Markup is the trees of lxml that the applications
--   walk: AppUsage/ResourceLists is resourcelists.py and rlsservices.py of xcap/appusage,
--   AppUsage/PresRules presrules.py, AppUsage/PresContent prescontent.py, and AppUsage/Readers
--   directory.py, capabilities.py, watchers.py, purge.py and get_watchers of xcap/backend/database.py.
-- Service: the resources of xcap/services/xcap_service.py, which bring Preconditions and AppUsage together:
--   get_data, update_data and delete_data of each, and handle_get, handle_update and handle_delete. They
--   call the methods of ApplicationUsage; the put_document of an application that has its own
--   constraints is in AppUsage/ResourceLists, AppUsage/PresRules or AppUsage/PresContent, and goes on to
--   the same storage where they are kept.
-- Thor: DatabaseConnection and Storage of xcap/backend/sipthor.py. Thor/Contents is the map from documents
--   of users that Thor/Stored compares with the profiles.
-- Api: xcap/routes/api_routes.py. Api/Contacts, Api/Policies, Api/Groups and Api/Icons are its routes; they
--   read and write through a Store, which store_of makes of a resource of Service. The record Payload
--   is what they call of sipsimple, and the records of laws next to the theorems are what they rely on.
-- Tests: runs of the definitions at concrete inputs.
--
-- State is passed on: the table of documents, the cache of nonces, the dict of a notifier's users and
-- the fields of a content handler are arguments and results. An awaited call is a call; each operation
-- of the storage is one step, and what two requests do in turn is a sequence of such steps. Only in
-- Backend/Transactions are an operation's two transactions two steps, with those of others between them.
--
-- Bounds and fuel. read_steps of Xpath/Reader gets one more than the number of tokens, and every round
-- takes a token at least, so that it does not run out. The digits of a number get as many rounds as the
-- number, and the fields of a split one more than the characters of the text. Everything else is structural. Python's numbers are unbounded
-- and so are those here; the clock counts seconds.
--
-- Parameters, since their code is not in this repository: the events that the SAX parser reports and
-- whether it fails, the scanner of lxml's tokenizer, the parser, the schema, the XPath and the trees of
-- lxml, unquote and urlparse of urllib, the payloads of sipsimple, the parser of dates, the clock, MD5,
-- base64, inet_aton, the query for a subscriber, the cache of nonces, and the tags and nonces that are
-- drawn at random.
--
-- Not modelled: the locks of the REST interface, and its conversions of payloads into answers; the
-- registry of applications and the reading of schemas; the provisioning client of SIP Thor and the
-- sending of PUBLISH requests, which call the network; the server, the other settings, the
-- database sessions and the logs, which start and call libraries.
mod Prelude
pub mod Xpath
pub mod Element
pub mod Uri
pub mod Errors
pub mod HttpUtils
pub mod Preconditions
pub mod Backend
pub mod XcapDiff
pub mod Auth
pub mod AppUsage
pub mod Tests
pub mod Service
pub mod Thor
pub mod Api
pub mod Configuration
