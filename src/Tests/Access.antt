-- ===== src/Tests/Access.antt =====
-- Requests through the middleware of internal/middleware: an owner's token, and a delegated token
-- that acts for a listed identity.
use fmsg_webapi.Prelude.{
  ◌≡◌, refl, ◌≢◌, ◌↔◌, ◌⊎◌, true, false, ◌||◌, Option, none, some, List, [], ◌∷◌, if◌then◌else◌,
  ◌==◌, nat_eq, Text, codes, text_eq,
}
use fmsg_webapi.Strings.{trim_space, has_prefix, contains, contains_byte, fields}
use fmsg_webapi.Address.{is_valid_addr}
use fmsg_webapi.Auth.Scopes.{
  str, arr, item, Claims, lookup, oauth_route_scope, parse_scopes, delegated_identities,
}
use fmsg_webapi.Auth.Types.{
  ok, idp, oauth, unclassified, answer, Idp, Verifier, Services, AuthResult, Lookup,
}
use fmsg_webapi.Auth.Verify.{
  validate_identity, classify_audience, open_session, act_as_session, authenticate_idp, try_api,
  authenticate_request,
}
use fmsg_webapi.Auth.Gate.{
  allows_route, extract_bearer, Request, passed, aborted, check_scope, authenticate,
  require_idp_owner,
}
use fmsg_webapi.Auth.Config.{Config, new_verifier}
use fmsg_webapi.Auth.Setup.{TellsApart, new_verifier-TellsApart}
use fmsg_webapi.Auth.Routes.{HasScope, allows_route_iff}
use fmsg_webapi.Auth.Delegation.{Confined}
use fmsg_webapi.Auth.Sessions.{IsDelegated, delegated-Confined}
use fmsg_webapi.Auth.Owner.{OwnerSession, provider_session, owner_only}

middleware : Unit {0}
unfolding trim_space has_prefix contains contains_byte fields is_valid_addr lookup oauth_route_scope
    parse_scopes delegated_identities validate_identity classify_audience open_session
    act_as_session authenticate_idp try_api authenticate_request allows_route extract_bearer
    check_scope authenticate require_idp_owner
middleware = tt

abbrev ann : Text
ann = codes "@ann@host"

abbrev bot : Text
bot = codes "@ann_bot@host"

abbrev provider : Idp
provider = record {
  issuer = codes "https://id";
  audience = codes "web";
  oauth_aud = codes "api";
  address_claim = codes "fmsg";
  leeway = 0;
}

abbrev provider_only : Verifier
provider_only = record { idp_mode = some provider; api_mode = none }

abbrev both_modes : Verifier
both_modes = record {
  idp_mode = some provider;
  api_mode = some (record { issuer = codes "a"; audience = codes "b"; leeway = 0 });
}

abbrev owner_claims : Claims
owner_claims = (codes "fmsg", str ann) ∷ []

abbrev delegated_claims : Claims
delegated_claims =
    (codes "fmsg", str ann)
    ∷ (codes "scope", str (codes "openid fmsg:read"))
    ∷ (codes "fmsg_identities", arr (item bot ∷ []))
    ∷ []

-- The token "o" is the owner's, "d" a delegated one.
abbrev parse_token : Text → Option Claims
parse_token token =
    if token == codes "o"
    then some owner_claims
    else if token == codes "d"
    then some delegated_claims
    else none

abbrev audience_of : Claims → Option (List Text)
audience_of (_ ∷ []) = some (codes "web" ∷ [])
audience_of _ = some (codes "api" ∷ [])

abbrev known_addr : Text → Lookup
known_addr addr = if addr == ann || addr == bot then answer 200 true else answer 404 false

abbrev services : Services
services = record {
  parse_idp = λ _ t. parse_token t;
  parse_api = λ _ _. none;
  get_audience = audience_of;
  get_expiration = λ _. some 9;
  check_fmsgid = known_addr;
  validate_token = λ _ _ _ _. some unclassified;
  validate_act_as = λ _ _. none;
}

abbrev grants_request : Request
grants_request = record {
  authorization = codes "Bearer o";
  act_as = [];
  client_ip = codes "10.0.0.1";
  method = codes "GET";
  pattern = codes "/fmsg/sub-accounts";
}

abbrev owner_result : AuthResult
owner_result = record { addr = ann; owner_addr = ann; auth_type = idp; scopes = []; expires = none }

owner_passes : authenticate services provider_only grants_request ≡ passed owner_result
unfolding middleware
owner_passes = refl

owner_administers : require_idp_owner owner_result ≡ some ann
unfolding middleware
owner_administers = refl

provider_session_example :
    (i : Idp) × (token : Text) × (provider_only.idp_mode ≡ some i)
    × (extract_bearer grants_request.authorization ≡ some token)
    × OwnerSession services i token ann ann
provider_session_example =
    provider_session services provider_only grants_request owner_result owner_passes refl

owner_only_example :
    (i : Idp) × (token : Text) × (provider_only.idp_mode ≡ some i)
    × (extract_bearer grants_request.authorization ≡ some token)
    × OwnerSession services i token ann ann
owner_only_example =
    owner_only services provider_only grants_request owner_result owner_passes owner_administers

abbrev read_request : Request
read_request = record {
  authorization = codes "Bearer d";
  act_as = codes " @ann_bot@host ";
  client_ip = codes "10.0.0.1";
  method = codes "GET";
  pattern = codes "/fmsg/:id";
}

abbrev bot_result : AuthResult
bot_result = record {
  addr = bot;
  owner_addr = ann;
  auth_type = oauth;
  scopes = codes "openid" ∷ codes "fmsg:read" ∷ [];
  expires = some 9;
}

bot_passes : authenticate services both_modes read_request ≡ passed bot_result
unfolding middleware
bot_passes = refl

-- A delegated token cannot write with the scope to read, nor reach the grants.
bot_refused :
    (authenticate services both_modes (record read_request { method = codes "DELETE" })
      ≡ aborted 403 (codes "token lacks required scope fmsg:write"))
    × (authenticate services both_modes
          (record read_request { pattern = codes "/fmsg/sub-accounts" })
        ≡ aborted 403 (codes "this operation is not available to delegated OAuth tokens"))
unfolding middleware
bot_refused = (refl, refl)

bot_IsDelegated :
    IsDelegated services both_modes read_request provider
      (codes "d")
      delegated_claims
      (codes "api" ∷ [])
unfolding middleware
bot_IsDelegated = record {
  mode = refl;
  bearer = refl;
  parsed = refl;
  audiences = refl;
  checked = refl;
  enabled = refl;
  delegated = refl;
}

delegated-Confined_example :
    Confined services provider delegated_claims bot_result
    × HasScope bot_result (codes "GET") (codes "/fmsg/:id")
    × (require_idp_owner bot_result ≡ none)
delegated-Confined_example =
    delegated-Confined services both_modes read_request provider (codes "d") delegated_claims
      (codes "api" ∷ []) bot_IsDelegated bot_result bot_passes

allows_route_iff_example :
    (allows_route bot_result (codes "GET") (codes "/fmsg/ws") ≡ none)
    ↔ ((oauth ≢ oauth) ⊎ HasScope bot_result (codes "GET") (codes "/fmsg/ws"))
allows_route_iff_example = allows_route_iff bot_result (codes "GET") (codes "/fmsg/ws")

abbrev both_audiences : Config
both_audiences = record {
  jwks = true;
  issuer = codes "https://id";
  audience = codes "web";
  address_claim = codes "fmsg";
  oauth_audience = codes "api";
  api_public_key = [];
  api_issuer = [];
  api_audience = [];
  api_keys = false;
  clock_skew = 1;
}

made :
    new_verifier both_audiences
    ≡ ok (record { idp_mode = some (record provider { leeway = 1 }); api_mode = none })
unfolding new_verifier
made = refl

new_verifier-TellsApart_example : TellsApart (record provider { leeway = 1 })
new_verifier-TellsApart_example =
    new_verifier-TellsApart both_audiences
      (record { idp_mode = some (record provider { leeway = 1 }); api_mode = none })
      (record provider { leeway = 1 }) made refl
