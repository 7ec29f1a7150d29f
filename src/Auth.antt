-- ===== src/Auth.antt =====
-- internal/middleware/jwt.go and oauth.go: who a bearer token speaks for, and which routes it may
-- call. Tokens are parsed by golang-jwt and addresses are looked up in fmsgid: both are fields of
-- `Services`, as are the two checks of the key store that the verifier calls.
pub mod Scopes
pub mod Types
pub mod Config
pub mod Verify
pub mod Gate
pub mod Ends
pub mod Routes
pub mod Delegation
pub mod Sessions
pub mod Setup
pub mod Audience
pub mod Owner
