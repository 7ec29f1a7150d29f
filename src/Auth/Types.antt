-- ===== src/Auth/Types.antt =====
-- The data of internal/middleware/jwt.go: the verifier, what it asks of others, and its results.
use fmsg_webapi.Prelude.{ℕ, Bool, true, false, Option, none, some, List, Text}
use fmsg_webapi.Auth.Scopes.{Claims}

-- `OwnerIdentityKey` and the like name what the result holds.
pub data AuthType : Type 0 where
  idp api_token oauth : AuthType

-- The errors that the verifier tells apart. `unclassified` is any other, such as a token that does
-- not parse.
pub data AuthErr : Type 0 where
  auth_error : ℕ → Text → AuthErr
  cidr_denied key_expired key_revoked invalid_remote_ip not_found : AuthErr
  unclassified : AuthErr

pub data Result {ℓ} (A : Type ℓ) : Type ℓ where
  ok : A → Result A
  err : AuthErr → Result A

abbrev pub or_fail {ℓ} : {A : Type ℓ} → Option A → AuthErr → Result A
or_fail none e = err e
or_fail (some a) e = ok a

abbrev pub unless : Option AuthErr → Result (Unit {0})
unless none = ok tt
unless (some e) = err e

abbrev pub guard : Bool → AuthErr → Result (Unit {0})
guard false e = err e
guard true e = ok tt

infixl 5 ◌>>=◌
abbrev pub ◌>>=◌ {ℓ κ} : {A : Type ℓ} {B : Type κ} → Result A → (A → Result B) → Result B
err e >>= next = err e
ok a >>= next = next a

infixl 5 ◌>>◌
abbrev pub ◌>>◌ {ℓ} : {B : Type ℓ} → Result (Unit {0}) → Result B → Result B
first >> second = first >>= λ _. second

-- The provider mode; its parser checks signature, expiry, issued-at and issuer with this leeway.
pub record Idp : Type 0 where
  pub issuer : Text
  pub audience : Text
  pub oauth_aud : Text
  pub address_claim : Text
  pub leeway : ℕ

-- The first-party mode; its parser checks issuer and audience too.
pub record Api : Type 0 where
  pub issuer : Text
  pub audience : Text
  pub leeway : ℕ

-- The key store is there exactly in the first-party mode.
pub record Verifier : Type 0 where
  pub idp_mode : Option Idp
  pub api_mode : Option Api

pub record TokenClaims : Type 0 where
  pub subject : Text
  pub owner_addr : Text
  pub api_key_id : Text

-- What a lookup of an address in fmsgid gives: a failure, or a status and whether it accepts.
pub data Lookup : Type 0 where
  failed : Lookup
  answer : ℕ → Bool → Lookup

-- `none` from a check of the key store is success.
pub record Services : Type 0 where
  pub parse_idp : Idp → Text → Option Claims
  pub parse_api : Api → Text → Option TokenClaims
  pub get_audience : Claims → Option (List Text)
  pub get_expiration : Claims → Option ℕ
  pub check_fmsgid : Text → Lookup
  pub validate_token : Text → Text → Text → Text → Option AuthErr
  pub validate_act_as : Text → Text → Option AuthErr

pub record AuthResult : Type 0 where
  pub addr : Text
  pub owner_addr : Text
  pub auth_type : AuthType
  pub scopes : List Text
  pub expires : Option ℕ
