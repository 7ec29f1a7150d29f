-- ===== src/Auth/Config.antt =====
-- `NewVerifier` of internal/middleware/jwt.go: which configurations are accepted.
use fmsg_webapi.Prelude.{
  ℕ, Bool, true, false, not, ◌||◌, Option, none, some, [], ◌∷◌, if◌then◌else◌, ◌==◌, nat_eq, Text,
  codes, text_eq,
}
use fmsg_webapi.Strings.{is_empty}
use fmsg_webapi.Auth.Types.{unclassified, Result, ok, ◌>>=◌, ◌>>◌, guard, Idp, Api, Verifier}

pub record Config : Type 0 where
  pub jwks : Bool
  pub issuer : Text
  pub audience : Text
  pub address_claim : Text
  pub oauth_audience : Text
  pub api_public_key : Text
  pub api_issuer : Text
  pub api_audience : Text
  pub api_keys : Bool
  pub clock_skew : ℕ

-- Ten seconds, in nanoseconds.
abbrev pub default_clock_skew : ℕ
default_clock_skew = 10_000_000_000

abbrev default_token_issuer : Text
default_token_issuer = codes "fmsg-webapi"

abbrev or_text : Text → Text → Text
or_text [] d = d
or_text (c ∷ s) d = c ∷ s

abbrev pub skew_of : Config → ℕ
skew_of cfg = if cfg.clock_skew == 0 then default_clock_skew else cfg.clock_skew

unfoldable pub idp_mode_of : Config → Result (Option Idp)
idp_mode_of cfg = if not cfg.jwks then ok none else do
  guard (not (is_empty cfg.issuer)) unclassified
  guard (not (is_empty cfg.address_claim)) unclassified
  guard
      (is_empty cfg.oauth_audience
        || not (is_empty cfg.audience || cfg.audience == cfg.oauth_audience))
      unclassified
  ok (
      some (record {
        issuer = cfg.issuer;
        audience = cfg.audience;
        oauth_aud = cfg.oauth_audience;
        address_claim = cfg.address_claim;
        leeway = skew_of cfg;
      }))

unfoldable pub api_mode_of : Config → Result (Option Api)
api_mode_of cfg = if is_empty cfg.api_public_key then ok none else do
  guard cfg.api_keys unclassified
  ok (
      some (record {
        issuer = or_text cfg.api_issuer default_token_issuer;
        audience = or_text cfg.api_audience default_token_issuer;
        leeway = skew_of cfg;
      }))

abbrev pub no_mode : Option Idp → Option Api → Bool
no_mode none none = true
no_mode _ _ = false

unfoldable pub new_verifier : Config → Result Verifier
unfolding idp_mode_of api_mode_of
new_verifier cfg = do
  i ← idp_mode_of cfg
  a ← api_mode_of cfg
  guard (not (no_mode i a)) unclassified
  ok (record { idp_mode = i; api_mode = a })
