-- ===== src/Auth/Owner.antt =====
-- What the sessions that may administer API keys and grants have shown: internal/middleware/jwt.go
-- up to `requireIdPOwner` of internal/handlers/subaccounts.go.
use fmsg_webapi.Prelude.{
  ◌≡◌, refl, sym, ◌∙◌, subst, ◌⊎◌, inl, inr, Bool, true, false, not, ◌&&◌, ◌||◌, none, some, List,
  [], ◌∷◌, if◌then◌else◌, Option-cases, Text,
}
use fmsg_webapi.Strings.{contains, is_empty, trim_space}
use fmsg_webapi.Address.{is_valid_addr}
use fmsg_webapi.Auth.Scopes.{Claims, lookup, parse_scopes, delegated_identities}
use fmsg_webapi.Auth.Types.{idp, oauth, api_token, Idp, Api, Verifier, Services, AuthResult}
use fmsg_webapi.Auth.Verify.{
  claim_text, is_some, validate_identity, classify_audience, open_session, act_as_session,
  select_address, authenticate_idp, authenticate_api_token, accepted, try_api, authenticate_request,
}
use fmsg_webapi.Auth.Gate.{Request, authenticate, passed, require_idp_owner, extract_bearer}
use fmsg_webapi.Auth.Ends.{
  Ends, Ends-guard, Ends-or_fail, Ends-unless, Ends-bind, Ends-ok, Ends-weaken,
}
use fmsg_webapi.Auth.Routes.{authenticate-Passage, require_idp_owner-idp}
use fmsg_webapi.Auth.Delegation.{IsAccepting, validate_identity-Ends, attempt-accepted}
use fmsg_webapi.Auth.Audience.{AnyErr, IsOwnerAudience, KindOf, classify-KindOf}

-- A provider token that opens an owner session of `owner`, and the address it speaks for.
pub record OwnerSession (s : Services) (i : Idp) (token : Text) (owner addr : Text) : Type 0 where
  pub claims : Claims
  pub parsed : s.parse_idp i token ≡ some claims
  pub audience : IsOwnerAudience s i claims
  pub named : owner ≡ claim_text (lookup i.address_claim claims)
  pub accepting : IsAccepting s owner
  pub address : (addr ≡ owner) ⊎ ((s.validate_act_as owner addr ≡ none) × IsAccepting s addr)

-- Of a result of the provider mode: an owner session, unless it is delegated.
abbrev OfIdp : (s : Services) → Idp → Text → AuthResult → Type 0
OfIdp s i token r = r.auth_type ≡ idp → OwnerSession s i token r.owner_addr r.addr

-- An act-as header leaves all but the address.
record Kept (s : Services) (res : AuthResult) (r : AuthResult) : Type 0 where
  kind : r.auth_type ≡ res.auth_type
  owner : r.owner_addr ≡ res.owner_addr
  address :
      (r.addr ≡ res.addr)
      ⊎ ((s.validate_act_as res.owner_addr r.addr ≡ none) × IsAccepting s r.addr)

select_address-Kept :
    (s : Services) (keys d : Bool) (res : AuthResult) (ids : List Text) (a : Text)
    → Ends (Kept s res) AnyErr (select_address s keys d res ids a)
unfolding act_as_session
select_address-Kept s keys d res ids [] = record { kind = refl; owner = refl; address = inl refl }
select_address-Kept s keys d res ids (c ∷ a) =
    Ends-guard _ _ keys _ _ (λ _. tt)
      λ _.
        Ends-guard _ _ (not (d && not (contains (c ∷ a) ids))) _ _ (λ _. tt)
          λ _.
            Ends-guard _ _ (is_valid_addr (c ∷ a)) _ _ (λ _. tt)
              λ _.
                Ends-unless _ _ (s.validate_act_as res.owner_addr (c ∷ a)) _ (λ _ _. tt)
                  λ granted.
                    Ends-bind _ _ (λ _. IsAccepting s (c ∷ a)) (validate_identity s (c ∷ a)) _
                      (Ends-weaken _ _ _ _ (validate_identity s (c ∷ a)) (λ _ h. h) (λ _ _. tt)
                        (validate_identity-Ends s (c ∷ a)))
                      λ _ accepting. record {
                        kind = refl;
                        owner = refl;
                        address = inr (granted, accepting);
                      }

open_session-kind :
    (s : Services) (claims : Claims) (d : Bool) (owner : Text)
    → Ends
        (λ p.
          (p.0.auth_type ≡ (if d then oauth else idp))
          × (p.0.owner_addr ≡ owner)
          × (p.0.addr ≡ owner))
        AnyErr
        (open_session s claims d owner)
unfolding open_session
open_session-kind s claims false owner = (refl, refl, refl)
open_session-kind s claims true owner =
    Ends-or_fail _ _ (parse_scopes claims) _ _ (λ _. tt)
      λ _ _. Ends-or_fail _ _ (delegated_identities claims) _ _ (λ _. tt) λ _ _. (refl, refl, refl)

session_of :
    (s : Services) (i : Idp) (token : Text) (claims : Claims) (d : Bool) (owner : Text)
    → s.parse_idp i token ≡ some claims
    → KindOf s i claims d
    → owner ≡ claim_text (lookup i.address_claim claims)
    → IsAccepting s owner
    → (res r : AuthResult)
    → (res.auth_type ≡ (if d then oauth else idp)) × (res.owner_addr ≡ owner) × (res.addr ≡ owner)
    → Kept s res r
    → OfIdp s i token r
session_of s i token claims true owner parsed k named accepting res r p c e =
    cc (sym e ∙ c.kind ∙ p.0)
session_of s i token claims false owner parsed k named accepting res r p c e = record {
  claims = claims;
  parsed = parsed;
  audience = k;
  named = c.owner ∙ p.1 ∙ named;
  accepting = rw (c.owner ∙ p.1) accepting;
  address = elim c.address [
    | inl same ↦ inl (same ∙ p.2 ∙ sym p.1 ∙ sym c.owner)
    | inr q ↦ inr (rw c.owner q.0, q.1)
  ];
}

authenticate_idp-OfIdp :
    (s : Services) (keys : Bool) (i : Idp) (token act_as : Text)
    → Ends (OfIdp s i token) AnyErr (authenticate_idp s keys i token act_as)
unfolding authenticate_idp
authenticate_idp-OfIdp s keys i token act_as =
    Ends-or_fail _ _ (s.parse_idp i token) _ _ (λ _. tt)
      λ claims parsed.
        let owner = claim_text (lookup i.address_claim claims) in
        Ends-bind _ _ (KindOf s i claims) (classify_audience s i claims) _
          (classify-KindOf s i claims)
          λ d kind.
            Ends-guard _ _ (not (is_empty owner)) _ _ (λ _. tt)
              λ _.
                Ends-bind _ _ (λ _. IsAccepting s owner) (validate_identity s owner) _
                  (Ends-weaken _ _ _ _ (validate_identity s owner) (λ _ h. h) (λ _ _. tt)
                    (validate_identity-Ends s owner))
                  λ _ accepting.
                    Ends-bind _ _ _ (open_session s claims d owner) _
                      (open_session-kind s claims d owner)
                      λ p opened.
                        Ends-weaken (Kept s p.0) (OfIdp s i token) AnyErr AnyErr
                          (select_address s keys d p.0 p.1 (trim_space act_as))
                          (λ r c.
                            session_of s i token claims d owner parsed kind refl accepting p.0 r
                              opened c)
                          (λ _ _. tt) (select_address-Kept s keys d p.0 p.1 (trim_space act_as))

-- A first-party token opens no owner session.
authenticate_api_token-kind :
    (s : Services) (a : Api) (token remote act_as : Text)
    → Ends (λ r. r.auth_type ≡ api_token) AnyErr (authenticate_api_token s a token remote act_as)
unfolding authenticate_api_token
authenticate_api_token-kind s a token remote act_as =
    Ends-guard _ _ (is_empty (trim_space act_as)) _ _ (λ _. tt)
      λ _.
        Ends-or_fail _ _ (s.parse_api a token) _ _ (λ _. tt)
          λ claims _.
            Ends-guard _ _
              (not (
                not (is_valid_addr claims.subject)
                || not (is_valid_addr claims.owner_addr)
                || is_empty claims.api_key_id))
              _ _ (λ _. tt)
              λ _.
                Ends-unless _ _
                  (s.validate_token claims.api_key_id claims.owner_addr claims.subject remote) _
                  (λ _ _. tt)
                  λ _.
                    Ends-bind _ _ (λ _. Unit {0}) (validate_identity s claims.subject) _
                      (Ends-weaken _ _ _ _ (validate_identity s claims.subject) (λ _ _. tt)
                        (λ _ _. tt) (validate_identity-Ends s claims.subject))
                      λ _ _. refl

try_api-kind :
    (s : Services) (v : Verifier) (token remote act_as : Text) (res : AuthResult)
    → try_api s v token remote act_as ≡ accepted res
    → res.auth_type ≡ api_token
unfolding try_api
try_api-kind s v token remote act_as res h = elim (Option-cases v.api_mode) [
  | inl n ↦ cc (rw (n, try_api) at h)
  | inr (a, m) ↦
      let r = authenticate_api_token s a token remote act_as in
      elim (attempt-accepted r _ (rw (m, try_api) at h)) [
        | inl e ↦ Ends-ok _ _ r (authenticate_api_token-kind s a token remote act_as) e
        | inr (e, _, _, never) ↦ cc never
      ]
]

-- A request that passes the middleware with the auth type of the provider carries a bearer token
-- that the provider's parser accepts, whose audience is that of an owner session and whose address
-- claim names the owner, whom fmsgid knows and who accepts messages; it speaks for the owner, or
-- for an address that the key store grants the owner and that accepts messages.
pub provider_session :
    (s : Services) (v : Verifier) (req : Request) (res : AuthResult)
    → authenticate s v req ≡ passed res
    → res.auth_type ≡ idp
    → (i : Idp) × (token : Text) × (v.idp_mode ≡ some i)
      × (extract_bearer req.authorization ≡ some token)
      × OwnerSession s i token res.owner_addr res.addr
unfolding authenticate_request
provider_session s v req res h kind =
    let p = authenticate-Passage s v req res h in
    elim (Option-cases v.idp_mode) [
      | inl n ↦ cc (
          try_api-kind s v p.token req.client_ip req.act_as res
            (rw (n, authenticate_request) at (p.verified)))
      | inr (i, m) ↦
          let r = authenticate_idp s (is_some v.api_mode) i p.token req.act_as in
          elim (attempt-accepted r _ (rw (m, authenticate_request) at (p.verified))) [
            | inl e ↦ (
              i,
              p.token,
              m,
              p.bearer,
              Ends-ok _ _ r (authenticate_idp-OfIdp s (is_some v.api_mode) i p.token req.act_as) e
                  kind,
            )
            | inr (e, _, _, later) ↦
                cc (try_api-kind s v p.token req.client_ip req.act_as res later)
          ]
    ]

-- Whoever passes the middleware and then the owner check of the API-key and grant routes presented
-- a provider token of an owner session, and speaks for the owner named in it.
pub owner_only :
    (s : Services) (v : Verifier) (req : Request) (res : AuthResult) {owner : Text}
    → authenticate s v req ≡ passed res
    → require_idp_owner res ≡ some owner
    → (i : Idp) × (token : Text) × (v.idp_mode ≡ some i)
      × (extract_bearer req.authorization ≡ some token)
      × OwnerSession s i token owner owner
owner_only s v req res h o =
    let (kind, same, is) = require_idp_owner-idp res o in
    let (i, token, m, b, session) = provider_session s v req res h kind in
    (
      i,
      token,
      m,
      b,
      subst (λ x. OwnerSession s i token x x) is
          (subst (λ x. OwnerSession s i token res.owner_addr x) same session),
    )
