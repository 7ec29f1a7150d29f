-- ===== src/Grants.antt =====
-- internal/apiauth: API keys (apikey.go), derived addresses (subaccount.go) and the table of grants
-- (store.go). The table fmsg_api_sub_account is split by its column `agent`: rows with an agent are
-- grants, the others only hold an owner's limit. A database error ends an operation with no
-- effect; the operations here are the ones that the database answers.
pub mod Keys
pub mod Store
pub mod Invariant
pub mod Revocation
