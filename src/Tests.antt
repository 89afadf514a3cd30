-- ===== src/Tests.antt =====
-- Runs on concrete inputs, and the theorems at them. The children are about xcap/xpath.py (Selectors),
-- the headers and users of a request (Headers), the storage (Storage, Overlaps, and Accounts for SIP
-- Thor), authentication (Access), the resources of a request (Services), the constraints of
-- applications (Applications), the REST interface (Addressbook), and the configuration (Settings).
mod Selectors
mod Headers
mod Storage
mod Access
mod Services
mod Accounts
mod Applications
mod Addressbook
mod Overlaps
mod Settings
