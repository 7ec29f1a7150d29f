-- ===== src/Auth/Routes.antt =====
-- The scope check and the middleware around it: internal/middleware/oauth.go and the handler that
-- `New` of internal/middleware/jwt.go returns.
use fmsg_webapi.Prelude.{
  ℕ, ◌≡◌, refl, ap, ◌∙◌, subst, ◌≢◌, ◌↔◌, ◌⊎◌, inl, inr, false, none, some, arith, Option-cases, In,
  Text, text_beq_iff,
}
use fmsg_webapi.Strings.Laws.{contains-In, In-contains}
use fmsg_webapi.Auth.Scopes.{oauth_route_scope}
use fmsg_webapi.Auth.Types.{AuthType, idp, oauth, api_token, Verifier, Services, AuthResult}
use fmsg_webapi.Auth.Verify.{Reply, accepted, refused, authenticate_request}
use fmsg_webapi.Auth.Gate.{
  is_oauth, allows_route, extract_bearer, Request, passed, check_scope, authenticate,
  require_idp_owner,
}

-- Whether the token of `r` has the scope that the table lists for the route.
pub record HasScope (r : AuthResult) (method pattern : Text) : Type 0 where
  pub need : Text
  pub listed : oauth_route_scope method pattern ≡ some need
  pub held : In need r.scopes

is_oauth-cases : (k : AuthType) → ((k ≢ oauth) × (is_oauth k ≡ false)) ⊎ (k ≡ oauth)
is_oauth-cases idp = inl (λ e. cc, refl)
is_oauth-cases api_token = inl (λ e. cc, refl)
is_oauth-cases oauth = inr refl

pub allows-HasScope :
    (r : AuthResult) (method pattern : Text)
    → r.auth_type ≡ oauth
    → allows_route r method pattern ≡ none
    → HasScope r method pattern
unfolding allows_route
allows-HasScope r method pattern k h = elim (Option-cases (oauth_route_scope method pattern)) [
  | inl n ↦ absurd (ground arith)
  | inr (need, listed) ↦ record {
    need = need;
    listed = listed;
    held = contains-In need r.scopes (ground arith);
  }
]

HasScope-allows :
    (r : AuthResult) (method pattern : Text)
    → HasScope r method pattern
    → allows_route r method pattern ≡ none
unfolding allows_route
HasScope-allows r method pattern h = ground (arith, h.listed, In-contains h.need r.scopes h.held)

-- A delegated token may call a route exactly when the table lists the route and the token has the
-- scope listed for it; other tokens are not restricted.
pub allows_route_iff :
    (r : AuthResult) (method pattern : Text)
    → (allows_route r method pattern ≡ none) ↔ ((r.auth_type ≢ oauth) ⊎ HasScope r method pattern)
unfolding allows_route
allows_route_iff r method pattern = (
  λ h. elim (is_oauth-cases r.auth_type) [
    | inl p ↦ inl p.0
    | inr k ↦ inr (allows-HasScope r method pattern k h)
  ],
  λ h. elim h [
    | inl other ↦ elim (is_oauth-cases r.auth_type) [
      | inl p ↦ ground (arith, p.1)
      | inr k ↦ absurd (other k)
    ]
    | inr has ↦ HasScope-allows r method pattern has
  ],
)

-- What a request that passes has been through.
pub record Passage (s : Services) (v : Verifier) (req : Request) (res : AuthResult) : Type 0 where
  pub token : Text
  pub bearer : extract_bearer req.authorization ≡ some token
  pub verified : authenticate_request s v token req.client_ip req.act_as ≡ accepted res
  pub allowed : allows_route res req.method req.pattern ≡ none

check_scope-passed :
    (req : Request) (a : AuthResult) (res : AuthResult)
    → check_scope req a ≡ passed res
    → (a ≡ res) × (allows_route a req.method req.pattern ≡ none)
unfolding check_scope
check_scope-passed req a res h = (ground arith, ground arith)

Reply-cases :
    (r : Reply)
    → ((a : AuthResult) × (r ≡ accepted a))
      ⊎ ((status : ℕ) × (msg : Text) × (r ≡ refused status msg))
Reply-cases (accepted a) = inl (a, refl)
Reply-cases (refused status msg) = inr (status, msg, refl)

pub authenticate-Passage :
    (s : Services) (v : Verifier) (req : Request) (res : AuthResult)
    → authenticate s v req ≡ passed res
    → Passage s v req res
unfolding authenticate
authenticate-Passage s v req res h = elim (Option-cases (extract_bearer req.authorization)) [
  | inl n ↦ absurd (ground arith)
  | inr (token, b) ↦ elim (Reply-cases (authenticate_request s v token req.client_ip req.act_as)) [
    | inl (a, verified) ↦
        let (same, allowed) = check_scope-passed req a res (rw (b, verified, authenticate) at h) in
        record {
          token = token;
          bearer = b;
          verified = verified ∙ ap accepted same;
          allowed = subst (λ r. allows_route r req.method req.pattern ≡ none) same allowed;
        }
    | inr (status, msg, denied) ↦ cc (rw (b, denied, authenticate) at h)
  ]
]

pub require_idp_owner-idp :
    (r : AuthResult) {owner : Text}
    → require_idp_owner r ≡ some owner
    → (r.auth_type ≡ idp) × (r.addr ≡ r.owner_addr) × (r.owner_addr ≡ owner)
unfolding require_idp_owner
require_idp_owner-idp r h =
    (ground arith, ground (arith, text_beq_iff r.addr r.owner_addr), ground arith)

pub require_idp_owner-oauth : (r : AuthResult) → r.auth_type ≡ oauth → require_idp_owner r ≡ none
unfolding require_idp_owner
require_idp_owner-oauth r k = ground arith
