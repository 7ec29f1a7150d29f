-- ===== src/Auth/Audience.antt =====
-- What `classifyAudience` of internal/middleware/jwt.go says of an owner session.
use fmsg_webapi.Prelude.{
  ◌≡◌, refl, Bool, true, false, not, ◌&&◌, Option, none, some, List, arith, In, Text, codes,
}
use fmsg_webapi.Strings.{contains, is_empty}
use fmsg_webapi.Strings.Laws.{contains-In}
use fmsg_webapi.Auth.Scopes.{Claims, lookup}
use fmsg_webapi.Auth.Types.{AuthErr, Idp, Services}
use fmsg_webapi.Auth.Verify.{is_some, audience_kind, classify_audience}
use fmsg_webapi.Auth.Ends.{Ends, Ends-if, Ends-or_fail}

abbrev pub AnyErr : AuthErr → Type 0
AnyErr _ = Unit {0}

-- The audience of an owner session: none is configured; or the token has the one that is, and
-- where an OAuth audience is configured too, has not that one and names no actor.
pub data IsOwnerAudience (s : Services) (i : Idp) (claims : Claims) : Type 0 where
  unchecked : is_empty i.audience ≡ true → IsOwnerAudience s i claims
  matched :
      (aud : List Text)
      → s.get_audience claims ≡ some aud
      → In i.audience aud
      → is_empty i.oauth_aud ≡ true
      → IsOwnerAudience s i claims
  told_apart :
      (aud : List Text)
      → s.get_audience claims ≡ some aud
      → In i.audience aud
      → contains i.oauth_aud aud ≡ false
      → lookup (codes "act") claims ≡ none
      → IsOwnerAudience s i claims

is_some-false {ℓ} : {A : Type ℓ} (o : Option A) → is_some o ≡ false → o ≡ none
is_some-false none h = refl
is_some-false (some a) h = cc

-- What the kind of a provider token says of its audience.
abbrev pub KindOf : (s : Services) → Idp → Claims → Bool → Type 0
KindOf s i claims true = Unit
KindOf s i claims false = IsOwnerAudience s i claims

audience_kind-Ends :
    (s : Services) (i : Idp) (claims : Claims) (aud : List Text)
    → s.get_audience claims ≡ some aud
    → (b : Bool) → is_empty i.oauth_aud ≡ b
    → Ends (KindOf s i claims) AnyErr (
        audience_kind b
          (contains i.oauth_aud aud)
          (contains i.audience aud)
          (is_some (lookup (codes "act") claims)))
audience_kind-Ends s i claims aud h true e =
    Ends-if _ _ (not (contains i.audience aud)) _ _ (λ _. tt)
      λ has. matched aud h (contains-In i.audience aud (ground arith)) e
audience_kind-Ends s i claims aud h false e =
    Ends-if _ _ (contains i.oauth_aud aud && contains i.audience aud) _ _ (λ _. tt)
      λ _.
        Ends-if _ _ (contains i.oauth_aud aud) _ _ (λ _. tt)
          λ other.
            Ends-if _ _ (not (contains i.audience aud)) _ _ (λ _. tt)
              λ has.
                Ends-if _ _ (is_some (lookup (codes "act") claims)) _ _ (λ _. tt)
                  λ alone.
                    told_apart aud h (contains-In i.audience aud (ground arith)) other
                      (is_some-false _ alone)

pub classify-KindOf :
    (s : Services) (i : Idp) (claims : Claims)
    → Ends (KindOf s i claims) AnyErr (classify_audience s i claims)
unfolding classify_audience
classify-KindOf s i claims =
    Ends-if _ _ (is_empty i.audience) _ _ (λ e. unchecked e)
      λ _.
        Ends-or_fail _ _ (s.get_audience claims) _ _ (λ _. tt)
          λ aud h. audience_kind-Ends s i claims aud h (is_empty i.oauth_aud) refl
