-- ===== src/Auth/Setup.antt =====
-- What a configuration that `NewVerifier` of internal/middleware/jwt.go accepts ensures.
use fmsg_webapi.Prelude.{
  ◌≡◌, subst, ◌≢◌, ◌⊎◌, inl, inr, true, false, not, ◌||◌, Option, none, some, arith, Bool-cases,
  ◌==◌, nat_eq, Text, text_beq_iff, text_eq, Bool-cases,
}
use fmsg_webapi.Strings.{is_empty}
use fmsg_webapi.Auth.Types.{Result, ok, err, Idp, Verifier, AuthErr}
use fmsg_webapi.Auth.Config.{Config, idp_mode_of, api_mode_of, no_mode, new_verifier}
use fmsg_webapi.Auth.Ends.{Ends, Ends-if, Ends-guard, Ends-bind, Ends-ok}

-- The provider mode has what it needs to tell owner sessions from delegated tokens.
pub record TellsApart (i : Idp) : Type 0 where
  pub issuer : is_empty i.issuer ≡ false
  pub address_claim : is_empty i.address_claim ≡ false
  pub audiences :
      (is_empty i.oauth_aud ≡ true) ⊎ ((is_empty i.audience ≡ false) × (i.audience ≢ i.oauth_aud))

abbrev AnyError : AuthErr → Type 0
AnyError _ = Unit {0}

abbrev OfMode : Option Idp → Type 0
OfMode none = Unit
OfMode (some i) = TellsApart i

audiences_apart :
    (a o : Text)
    → (is_empty o || not (is_empty a || a == o)) ≡ true
    → (is_empty o ≡ true) ⊎ ((is_empty a ≡ false) × (a ≢ o))
audiences_apart a o h = elim (Bool-cases (is_empty o)) [
  | inl e ↦ inl e
  | inr e ↦
      inr (ground (arith, h, e), λ same. absurd (ground (arith, h, e, (text_beq_iff a o).1 same)))
]

idp_mode_of-TellsApart : (cfg : Config) → Ends OfMode AnyError (idp_mode_of cfg)
unfolding idp_mode_of
idp_mode_of-TellsApart cfg =
    Ends-if _ _ (not cfg.jwks) _ _ (λ _. tt)
      λ _.
        Ends-guard _ _ (not (is_empty cfg.issuer)) _ _ (λ _. tt)
          λ issued.
            Ends-guard _ _ (not (is_empty cfg.address_claim)) _ _ (λ _. tt)
              λ claimed.
                Ends-guard _ _
                  (is_empty cfg.oauth_audience
                    || not (is_empty cfg.audience || cfg.audience == cfg.oauth_audience))
                  _ _ (λ _. tt)
                  λ apart. record {
                    issuer = ground arith;
                    address_claim = ground arith;
                    audiences = audiences_apart cfg.audience cfg.oauth_audience apart;
                  }

Ends-any {ℓ} : {A : Type ℓ} (m : Result A) → Ends (λ _. Unit {0}) AnyError m
Ends-any (ok a) = tt
Ends-any (err e) = tt

new_verifier-Ends :
    (cfg : Config) → Ends (λ (v : Verifier). OfMode v.idp_mode) AnyError (new_verifier cfg)
unfolding new_verifier
new_verifier-Ends cfg =
    Ends-bind _ _ OfMode (idp_mode_of cfg) _ (idp_mode_of-TellsApart cfg) λ i apart.
      Ends-bind _ _ (λ _. Unit {0}) (api_mode_of cfg) _ (Ends-any (api_mode_of cfg))
        λ a _. Ends-guard _ _ (not (no_mode i a)) _ _ (λ _. tt) λ _. apart

-- A verifier that `NewVerifier` makes has, in its provider mode, an issuer and an address claim;
-- and if it has an OAuth audience, it has an owner audience as well, and the two differ.
pub new_verifier-TellsApart :
    (cfg : Config) (v : Verifier) (i : Idp)
    → new_verifier cfg ≡ ok v
    → v.idp_mode ≡ some i
    → TellsApart i
new_verifier-TellsApart cfg v i made mode =
    subst OfMode mode (Ends-ok _ _ (new_verifier cfg) (new_verifier-Ends cfg) made)
