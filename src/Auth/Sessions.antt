-- ===== src/Auth/Sessions.antt =====
-- What a request that passes the middleware has shown: for delegated tokens, and for the owner
-- sessions that may administer API keys and grants.
use fmsg_webapi.Prelude.{
  ◌≡◌, sym, ◌∙◌, subst, ◌≢◌, inl, inr, true, false, none, some, List, arith, Option-cases, some-eq,
  Text,
}
use fmsg_webapi.Strings.{contains, is_empty, trim_space}
use fmsg_webapi.Auth.Scopes.{Claims}
use fmsg_webapi.Auth.Types.{Idp, Verifier, Services, AuthResult}
use fmsg_webapi.Auth.Verify.{
  is_some, authenticate_idp, authenticate_api_token, accepted, attempt, try_api,
  authenticate_request,
}
use fmsg_webapi.Auth.Gate.{extract_bearer, Request, passed, authenticate, require_idp_owner}
use fmsg_webapi.Auth.Routes.{
  HasScope, allows-HasScope, authenticate-Passage, require_idp_owner-oauth,
}
use fmsg_webapi.Auth.Ends.{Ends-ok, Ends-err}
use fmsg_webapi.Auth.Delegation.{Confined, authenticate_idp-Ends, attempt-accepted}

-- A first-party token never comes with an act-as header.
try_api-ne :
    (s : Services) (v : Verifier) (token remote act_as : Text) (res : AuthResult)
    → is_empty (trim_space act_as) ≡ false
    → try_api s v token remote act_as ≢ accepted res
unfolding try_api authenticate_api_token
try_api-ne s v token remote act_as res h e = elim (Option-cases v.api_mode) [
  | inl n ↦ cc (rw (n, try_api) at e)
  | inr (a, m) ↦ cc (rw (m, h, try_api, authenticate_api_token) at e)
]

-- A request with a delegated token, and what the token's parts are.
pub record IsDelegated (s : Services) (v : Verifier) (req : Request) (i : Idp) (token : Text)
    (claims : Claims) (aud : List Text) : Type 0 where
  pub mode : v.idp_mode ≡ some i
  pub bearer : extract_bearer req.authorization ≡ some token
  pub parsed : s.parse_idp i token ≡ some claims
  pub audiences : s.get_audience claims ≡ some aud
  pub checked : is_empty i.audience ≡ false
  pub enabled : is_empty i.oauth_aud ≡ false
  pub delegated : contains i.oauth_aud aud ≡ true

module _ (s : Services) (v : Verifier) (req : Request) (i : Idp) (token : Text) (claims : Claims)
    (aud : List Text) (d : IsDelegated s v req i token claims aud) where
  request-Confined :
      (res : AuthResult)
      → authenticate_request s v token req.client_ip req.act_as ≡ accepted res
      → Confined s i claims res
  unfolding authenticate_request
  request-Confined res h =
      let keys = is_some v.api_mode in
      let m = authenticate_idp s keys i token req.act_as in
      let ends =
        authenticate_idp-Ends s i token req.act_as claims aud d.parsed d.audiences d.checked
          d.enabled d.delegated keys in
      let h' : attempt m (try_api s v token req.client_ip req.act_as) ≡ accepted res =
        rw (d.mode, authenticate_request) at h in
      elim (attempt-accepted m _ h') [
        | inl e ↦ Ends-ok _ _ m ends e
        | inr (e, is, unhandled, later) ↦ elim (Ends-err _ _ m ends is) [
          | inl handled ↦ absurd (ground arith)
          | inr given ↦ absurd (try_api-ne s v token req.client_ip req.act_as res given later)
        ]
      ]

  -- A provider token that contains the OAuth audience passes the middleware, if it passes at all,
  -- as a delegated token of the address in its claims, with the scopes of its claims; it speaks for
  -- that address, or for one that its claims list and the key store and fmsgid confirm; and the
  -- route is listed with a scope that the token has. It never administers keys or grants.
  pub delegated-Confined :
      (res : AuthResult)
      → authenticate s v req ≡ passed res
      → Confined s i claims res
        × HasScope res req.method req.pattern
        × (require_idp_owner res ≡ none)
  delegated-Confined res h =
      let p = authenticate-Passage s v req res h in
      let same : p.token ≡ token = some-eq (sym p.bearer ∙ d.bearer) in
      let c = request-Confined res (
        subst (λ t. authenticate_request s v t req.client_ip req.act_as ≡ accepted res) same
          p.verified) in
      (
        c,
        allows-HasScope res req.method req.pattern c.kind p.allowed,
        require_idp_owner-oauth res c.kind,
      )
