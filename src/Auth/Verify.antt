-- ===== src/Auth/Verify.antt =====
-- internal/middleware/jwt.go: a request's token is tried as a provider token and then as a
-- first-party token.
use fmsg_webapi.Prelude.{
  ℕ, Bool, true, false, not, ◌&&◌, ◌||◌, Option, none, some, List, [], ◌∷◌, ◌++◌, if◌then◌else◌,
  ◌==◌, nat_eq, Text, codes, text_eq,
}
use fmsg_webapi.Strings.{contains, is_empty, trim_space}
use fmsg_webapi.Address.{is_valid_addr}
use fmsg_webapi.Auth.Scopes.{Claim, str, Claims, lookup, parse_scopes, delegated_identities}
use fmsg_webapi.Auth.Types.{
  idp, api_token, oauth, AuthErr, auth_error, cidr_denied, key_expired, key_revoked,
  invalid_remote_ip, not_found, unclassified, Result, ok, err, ◌>>=◌, ◌>>◌, guard, or_fail, unless,
  Idp, Api, Verifier, Lookup, failed, answer, Services, AuthResult,
}

abbrev pub claim_text : Option Claim → Text
claim_text (some (str s)) = s
claim_text _ = []

abbrev pub is_some {ℓ} : {A : Type ℓ} → Option A → Bool
is_some none = false
is_some (some _) = true

abbrev pub invalid_identity : Result (Unit {0})
invalid_identity = err (auth_error 401 (codes "invalid identity"))

abbrev pub unavailable : Result (Unit {0})
unavailable = err (auth_error 503 (codes "identity service unavailable"))

-- The `switch` of `classifyAudience`: whether the OAuth audience is unset, which audiences the token
-- has, and whether it has an actor.
abbrev pub audience_kind : Bool → Bool → Bool → Bool → Result Bool
audience_kind true oauth_aud owner_aud act = if not owner_aud then err unclassified else ok false
audience_kind false oauth_aud owner_aud act =
    if oauth_aud && owner_aud
    then err (auth_error 401 (codes "ambiguous token audience"))
    else if oauth_aud
    then ok true
    else if not owner_aud
    then err unclassified
    else if act
    then err (auth_error 401 (codes "delegated token presented with owner audience"))
    else ok false

module _ (s : Services) where
  -- The lookup's part of `validateIdentity`.
  abbrev pub lookup_identity : Text → Lookup → Result (Unit {0})
  lookup_identity addr failed = unavailable
  lookup_identity addr (answer code accepting) =
      if code == 404
      then err (auth_error 400 (codes "User " ++ (addr ++ codes " not found")))
      else if code == 200 && not accepting
      then err
          (auth_error 403 (codes "User " ++ (addr ++ codes " not authorised to send new messages")))
      else if not (code == 200)
      then unavailable
      else ok tt

  -- A status other than 200 is the error with that status.
  unfoldable pub validate_identity : Text → Result (Unit {0})
  validate_identity addr =
      if not (is_valid_addr addr)
      then invalid_identity
      else lookup_identity addr (s.check_fmsgid addr)

  -- Whether a provider token is a delegated one.
  unfoldable pub classify_audience : Idp → Claims → Result Bool
  classify_audience v claims = if is_empty v.audience then ok false else do
    aud ← or_fail (s.get_audience claims) unclassified
    audience_kind (is_empty v.oauth_aud) (contains v.oauth_aud aud) (contains v.audience aud)
        (is_some (lookup (codes "act") claims))

  -- The result before any act-as, with the identities that the token lists.
  unfoldable pub open_session : Claims → Bool → Text → Result (AuthResult × List Text)
  open_session claims false owner = ok (
    record { addr = owner; owner_addr = owner; auth_type = idp; scopes = []; expires = none },
    [],
  )
  open_session claims true owner = do
    scopes ← or_fail (parse_scopes claims) (auth_error 403 (codes "missing or malformed scope"))
    identities ←
        or_fail (delegated_identities claims) (auth_error 403 (codes "malformed identities claim"))
    ok (
      record {
        addr = owner;
        owner_addr = owner;
        auth_type = oauth;
        scopes = scopes;
        expires = s.get_expiration claims;
      },
      identities,
    )

  -- The part of `authenticateIdP` below the test for an act-as header.
  unfoldable pub act_as_session : Bool → Bool → AuthResult → List Text → Text → Result AuthResult
  act_as_session keys delegated res identities act_as = do
    guard keys (auth_error 403 (codes "act-as is not enabled"))
    guard (not (delegated && not (contains act_as identities)))
        (auth_error 403 (codes "act-as identity is not authorised for this token"))
    guard (is_valid_addr act_as) (auth_error 401 (codes "invalid act-as identity"))
    unless (s.validate_act_as res.owner_addr act_as)
    validate_identity act_as
    ok (record res { addr = act_as })

  -- The act-as header, trimmed: absent, or an address to speak for.
  abbrev pub select_address : Bool → Bool → AuthResult → List Text → Text → Result AuthResult
  select_address keys delegated res identities [] = ok res
  select_address keys delegated res identities (c ∷ act_as) =
      act_as_session keys delegated res identities (c ∷ act_as)

  unfoldable pub authenticate_idp : Bool → Idp → Text → Text → Result AuthResult
  authenticate_idp keys v token act_as = do
    claims ← or_fail (s.parse_idp v token) unclassified
    delegated ← classify_audience v claims
    let owner = claim_text (lookup v.address_claim claims)
    guard (not (is_empty owner)) (auth_error 403 (codes "no fmsg account for this identity"))
    validate_identity owner
    (res, identities) ← open_session claims delegated owner
    select_address keys delegated res identities (trim_space act_as)

  unfoldable pub authenticate_api_token : Api → Text → Text → Text → Result AuthResult
  authenticate_api_token v token remote_addr act_as = do
    guard (is_empty (trim_space act_as))
        (auth_error 403 (codes "act-as is only available with identity-provider authentication"))
    claims ← or_fail (s.parse_api v token) unclassified
    guard
        (not (
          not (is_valid_addr claims.subject)
          || not (is_valid_addr claims.owner_addr)
          || is_empty claims.api_key_id))
        (auth_error 401 (codes "invalid token identity"))
    unless (s.validate_token claims.api_key_id claims.owner_addr claims.subject remote_addr)
    validate_identity claims.subject
    ok (record {
      addr = claims.subject;
      owner_addr = claims.owner_addr;
      auth_type = api_token;
      scopes = [];
      expires = none;
    })

-- The answer for an error, if it has one of its own.
abbrev pub auth_failure : AuthErr → Option (ℕ × Text)
auth_failure (auth_error status msg) = some (status, msg)
auth_failure cidr_denied = some (403, codes "source IP not allowed")
auth_failure key_expired = some (401, codes "api key expired")
auth_failure key_revoked = some (401, codes "api key revoked")
auth_failure invalid_remote_ip = some (401, codes "invalid source IP")
auth_failure not_found = some (403, codes "grant not authorised")
auth_failure unclassified = none

pub data Reply : Type 0 where
  accepted : AuthResult → Reply
  refused : ℕ → Text → Reply

-- One attempt; an error without an answer of its own leaves the request to `more`.
abbrev pub attempt : Result AuthResult → Reply → Reply
attempt (ok res) more = accepted res
attempt (err e) more = elim (auth_failure e) [
  | none ↦ more
  | some (status, msg) ↦ refused status msg
]

abbrev pub invalid_token : Reply
invalid_token = refused 401 (codes "invalid token")

module _ (s : Services) (v : Verifier) where
  unfoldable pub try_api : Text → Text → Text → Reply
  try_api token remote_addr act_as = elim v.api_mode [
    | none ↦ invalid_token
    | some a ↦ attempt (authenticate_api_token s a token remote_addr act_as) invalid_token
  ]

  unfoldable pub authenticate_request : Text → Text → Text → Reply
  authenticate_request token remote_addr act_as = elim v.idp_mode [
    | none ↦ try_api token remote_addr act_as
    | some i ↦
        attempt (authenticate_idp s (is_some v.api_mode) i token act_as)
          (try_api token remote_addr act_as)
  ]
