-- ===== src/Auth/Gate.antt =====
-- What a request passes before its handler runs: the bearer header and the middleware of
-- internal/middleware/jwt.go, the scope check of internal/middleware/oauth.go, and the owner check
-- of internal/handlers/subaccounts.go.
use fmsg_webapi.Prelude.{
  ℕ, Bool, true, false, not, ◌||◌, Option, none, some, [], ◌∷◌, ◌++◌, if◌then◌else◌, length, drop,
  ◌==◌, nat_eq, Text, codes, text_eq,
}
use fmsg_webapi.Strings.{contains, is_empty, trim_space, has_prefix}
use fmsg_webapi.Auth.Scopes.{oauth_route_scope}
use fmsg_webapi.Auth.Types.{AuthType, idp, oauth, Verifier, Services, AuthResult}
use fmsg_webapi.Auth.Verify.{accepted, refused, authenticate_request}

abbrev pub is_oauth : AuthType → Bool
is_oauth oauth = true
is_oauth _ = false

-- `none` if the token may call the route, otherwise the message.
unfoldable pub allows_route : AuthResult → Text → Text → Option Text
allows_route r method pattern =
    if not (is_oauth r.auth_type) then none else elim (oauth_route_scope method pattern) [
      | none ↦ some (codes "this operation is not available to delegated OAuth tokens")
      | some need ↦
          if not (contains need r.scopes)
          then some (codes "token lacks required scope " ++ need)
          else none
    ]

abbrev bearer_prefix : Text
bearer_prefix = codes "Bearer "

abbrev nonempty : Text → Option Text
nonempty [] = none
nonempty (c ∷ s) = some (c ∷ s)

-- The token of an Authorization header.
unfoldable pub extract_bearer : Text → Option Text
unfolding has_prefix trim_space
extract_bearer header =
    if is_empty header
    then none
    else if not (has_prefix header bearer_prefix)
    then none
    else nonempty (trim_space (drop (length bearer_prefix) header))

-- What the middleware looks at in a request.
pub record Request : Type 0 where
  pub authorization : Text
  pub act_as : Text
  pub client_ip : Text
  pub method : Text
  pub pattern : Text

-- The request is aborted, or the handler runs with what the context holds.
pub data Outcome : Type 0 where
  aborted : ℕ → Text → Outcome
  passed : AuthResult → Outcome

-- `CheckScope` on an accepted token.
unfoldable pub check_scope : Request → AuthResult → Outcome
check_scope req res = elim (allows_route res req.method req.pattern) [
  | none ↦ passed res
  | some msg ↦ aborted 403 msg
]

-- The handler that `New` returns.
unfoldable pub authenticate : Services → Verifier → Request → Outcome
authenticate s v req = elim (extract_bearer req.authorization) [
  | none ↦ aborted 401 (codes "missing or malformed Authorization header")
  | some token ↦ elim (authenticate_request s v token req.client_ip req.act_as) [
    | refused status msg ↦ aborted status msg
    | accepted res ↦ check_scope req res
  ]
]

abbrev pub is_idp : AuthType → Bool
is_idp idp = true
is_idp _ = false

-- The owner, if the request may administer API keys and grants.
unfoldable pub require_idp_owner : AuthResult → Option Text
require_idp_owner r =
    if not (is_idp r.auth_type) || not (r.addr == r.owner_addr) then none else some r.owner_addr
