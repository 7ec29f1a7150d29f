-- ===== src/Auth/Delegation.antt =====
-- What a delegated OAuth token can and cannot obtain from the middleware.
use fmsg_webapi.Prelude.{
  ◌≡◌, refl, sym, ap, ◌∙◌, ◌⊎◌, inl, inr, Bool, true, false, not, ◌&&◌, none, some, List, [], ◌∷◌,
  arith, Option-cases, In, ◌==◌, nat_eq, Text, text_eq,
}
use fmsg_webapi.Strings.{contains, is_empty, trim_space}
use fmsg_webapi.Strings.Laws.{contains-In}
use fmsg_webapi.Address.{is_valid_addr}
use fmsg_webapi.Auth.Scopes.{Claims, lookup, parse_scopes, delegated_identities}
use fmsg_webapi.Auth.Ends.{
  Ends, Ends-if, Ends-guard, Ends-or_fail, Ends-unless, Ends-bind, Ends-weaken,
}
use fmsg_webapi.Auth.Types.{
  Lookup, oauth, AuthErr, Result, Idp, Services, AuthResult, failed, answer, ok, err,
}
use fmsg_webapi.Auth.Verify.{
  lookup_identity, select_address, claim_text, is_some, validate_identity, classify_audience,
  open_session, act_as_session, authenticate_idp, auth_failure, Reply, accepted, attempt,
}

-- An address that fmsgid knows and that accepts new messages.
pub record IsAccepting (s : Services) (addr : Text) : Type 0 where
  pub well_formed : is_valid_addr addr ≡ true
  pub known : s.check_fmsgid addr ≡ answer 200 true

-- An error that has an answer of its own.
abbrev pub IsHandled : AuthErr → Type 0
IsHandled e = is_some (auth_failure e) ≡ true

lookup_identity-Ends :
    (s : Services) (addr : Text) (l : Lookup)
    → Ends (λ _. l ≡ answer 200 true) IsHandled (lookup_identity s addr l)
lookup_identity-Ends s addr failed = refl
lookup_identity-Ends s addr (answer code accepting) =
    Ends-if _ _ (code == 404) _ _ (λ _. refl)
      λ _.
        Ends-if _ _ (code == 200 && not accepting) _ _ (λ _. refl)
          λ unclosed. Ends-if _ _ (not (code == 200)) _ _ (λ _. refl) λ found. ground arith

-- `validateIdentity` passes only such addresses, and its errors all have an answer of their own.
pub validate_identity-Ends :
    (s : Services) (addr : Text)
    → Ends (λ _. IsAccepting s addr) IsHandled (validate_identity s addr)
unfolding validate_identity
validate_identity-Ends s addr =
    Ends-if _ _ (not (is_valid_addr addr)) _ _ (λ _. refl)
      λ valid.
        Ends-weaken _ _ _ _ (lookup_identity s addr (s.check_fmsgid addr))
          (λ _ e. record { well_formed = ground arith; known = e }) (λ _ e. e)
          (lookup_identity-Ends s addr (s.check_fmsgid addr))

-- What the claims of a delegated token justify.
pub record Confined (s : Services) (i : Idp) (claims : Claims) (r : AuthResult) : Type 0 where
  pub kind : r.auth_type ≡ oauth
  pub owner : r.owner_addr ≡ claim_text (lookup i.address_claim claims)
  pub owner_accepting : IsAccepting s r.owner_addr
  pub scoped : parse_scopes claims ≡ some r.scopes
  pub address :
      (r.addr ≡ r.owner_addr)
      ⊎ ((ids : List Text) × (delegated_identities claims ≡ some ids)
          × In r.addr ids
          × (s.validate_act_as r.owner_addr r.addr ≡ none)
          × IsAccepting s r.addr)

open_session-Ends :
    (s : Services) (claims : Claims) (owner : Text)
    → Ends
        (λ p.
          (p.0.auth_type ≡ oauth)
          × (p.0.owner_addr ≡ owner)
          × (p.0.addr ≡ owner)
          × (parse_scopes claims ≡ some p.0.scopes)
          × (delegated_identities claims ≡ some p.1))
        IsHandled
        (open_session s claims true owner)
unfolding open_session
open_session-Ends s claims owner =
    Ends-or_fail _ _ (parse_scopes claims) _ _ (λ _. refl)
      λ scopes scoped.
        Ends-or_fail _ _ (delegated_identities claims) _ _ (λ _. refl)
          λ ids listed. (refl, refl, refl, scoped, listed)

-- What an act-as header changes, for a delegated token.
record Chosen (s : Services) (res : AuthResult) (ids : List Text) (r : AuthResult) : Type 0 where
  kind : r.auth_type ≡ res.auth_type
  owner : r.owner_addr ≡ res.owner_addr
  scopes : r.scopes ≡ res.scopes
  address :
      (r.addr ≡ res.addr)
      ⊎ (In r.addr ids × (s.validate_act_as res.owner_addr r.addr ≡ none) × IsAccepting s r.addr)

act_as_session-Ends :
    (s : Services) (keys : Bool) (res : AuthResult) (ids : List Text) (a : Text)
    → Ends (Chosen s res ids) (λ _. Unit {0}) (act_as_session s keys true res ids a)
unfolding act_as_session
act_as_session-Ends s keys res ids a =
    Ends-guard _ _ keys _ _ (λ _. tt)
      λ _.
        Ends-guard _ _ (not (not (contains a ids))) _ _ (λ _. tt)
          λ listed.
            Ends-guard _ _ (is_valid_addr a) _ _ (λ _. tt)
              λ _.
                Ends-unless _ _ (s.validate_act_as res.owner_addr a) _ (λ _ _. tt)
                  λ granted.
                    Ends-bind _ _ (λ _. IsAccepting s a) (validate_identity s a) _
                      (Ends-weaken _ _ _ _ (validate_identity s a) (λ _ h. h) (λ _ _. tt)
                        (validate_identity-Ends s a))
                      λ _ accepting. record {
                        kind = refl;
                        owner = refl;
                        scopes = refl;
                        address = inr (contains-In a ids (ground arith), granted, accepting);
                      }

select_address-Ends :
    (s : Services) (keys : Bool) (res : AuthResult) (ids : List Text) (a : Text)
    → Ends (Chosen s res ids) (λ _. is_empty a ≡ false) (select_address s keys true res ids a)
select_address-Ends s keys res ids [] = record {
  kind = refl;
  owner = refl;
  scopes = refl;
  address = inl refl;
}
select_address-Ends s keys res ids (c ∷ a) =
    Ends-weaken _ _ _ _ (act_as_session s keys true res ids (c ∷ a)) (λ _ h. h) (λ _ _. refl)
      (act_as_session-Ends s keys res ids (c ∷ a))

-- A provider token whose audience is the OAuth audience, presented with any act-as header.
module _ (s : Services) (i : Idp) (token act_as : Text) (claims : Claims) (aud : List Text)
    (parsed : s.parse_idp i token ≡ some claims) (audiences : s.get_audience claims ≡ some aud)
    (checked : is_empty i.audience ≡ false) (enabled : is_empty i.oauth_aud ≡ false)
    (delegated : contains i.oauth_aud aud ≡ true) where
  classify-Ends : Ends (λ d. d ≡ true) IsHandled (classify_audience s i claims)
  unfolding classify_audience
  classify-Ends =
      rw (checked, audiences, enabled, delegated, classify_audience)
        (Ends-if _ _ (contains i.audience aud) _ _ (λ _. refl) (λ _. refl))

  confine :
      (keys : Bool) (owner : Text)
      → owner ≡ claim_text (lookup i.address_claim claims)
      → IsAccepting s owner
      → (p : AuthResult × List Text)
      → (p.0.auth_type ≡ oauth)
        × (p.0.owner_addr ≡ owner)
        × (p.0.addr ≡ owner)
        × (parse_scopes claims ≡ some p.0.scopes)
        × (delegated_identities claims ≡ some p.1)
      → Ends
          (Confined s i claims)
          (λ e. IsHandled e ⊎ (is_empty (trim_space act_as) ≡ false))
          (select_address s keys true p.0 p.1 (trim_space act_as))
  confine keys owner is accepting (res, ids) (kind, same, own, scoped, listed) =
      Ends-weaken _ _ _ _ (select_address s keys true res ids (trim_space act_as))
        (λ r c. record {
          kind = c.kind ∙ kind;
          owner = c.owner ∙ same ∙ is;
          owner_accepting = rw (c.owner ∙ same) accepting;
          scoped = scoped ∙ ap some (sym c.scopes);
          address = elim c.address [
            | inl e ↦ inl (e ∙ own ∙ sym same ∙ sym c.owner)
            | inr q ↦ inr (ids, listed, q.0, rw c.owner q.1, q.2)
          ];
        })
        (λ _ e. inr e) (select_address-Ends s keys res ids (trim_space act_as))

  pub authenticate_idp-Ends :
      (keys : Bool)
      → Ends
          (Confined s i claims)
          (λ e. IsHandled e ⊎ (is_empty (trim_space act_as) ≡ false))
          (authenticate_idp s keys i token act_as)
  unfolding authenticate_idp
  authenticate_idp-Ends keys =
      let F : AuthErr → Type 0 = λ e. IsHandled e ⊎ (is_empty (trim_space act_as) ≡ false) in
      let owner = claim_text (lookup i.address_claim claims) in
      let lift = λ (A : Type 0) (P : A → Type 0) (m : Result A) (h : Ends P IsHandled m).
        Ends-weaken P P IsHandled F m (λ _ p. p) (λ _ e. inl e) h in
      rw (parsed, authenticate_idp)
        (Ends-bind _ F (λ d. d ≡ true) (classify_audience s i claims) _
          (lift _ _ (classify_audience s i claims) classify-Ends)
          λ d is_true. rw is_true (
            Ends-guard _ F (not (is_empty owner)) _ _ (λ _. inl refl)
              λ _.
                Ends-bind _ F (λ _. IsAccepting s owner) (validate_identity s owner) _
                  (lift _ _ (validate_identity s owner) (validate_identity-Ends s owner))
                  λ _ accepting.
                    Ends-bind _ F _ (open_session s claims true owner) _
                      (lift _ _ (open_session s claims true owner)
                        (open_session-Ends s claims owner))
                      λ p opened. confine keys owner refl accepting p opened))

-- An accepted attempt, or one whose error leaves the request to the next mode.
pub attempt-accepted :
    (r : Result AuthResult) (more : Reply) {res : AuthResult}
    → attempt r more ≡ accepted res
    → (r ≡ ok res) ⊎ ((e : AuthErr) × (r ≡ err e) × (auth_failure e ≡ none) × (more ≡ accepted res))
attempt-accepted (ok a) more h = inl (ground arith)
attempt-accepted (err e) more h = elim (Option-cases (auth_failure e)) [
  | inl n ↦ inr (e, refl, n, rw (n, attempt) at h)
  | inr (p, q) ↦ absurd (ground arith)
]
