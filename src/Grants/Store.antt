-- ===== src/Grants/Store.antt =====
-- internal/apiauth/store.go: the table of grants, and who may use a key or speak for an address.
-- Times are numbers on one scale. Hashing, IP addresses and CIDR prefixes are other packages':
-- the fields of `Platform`.
use fmsg_webapi.Prelude.{
  ℕ, Bool, not, ◌&&◌, ◌||◌, Option, none, some, List, [], ◌∷◌, map, ltb, leb, if◌then◌else◌, length,
  any, find, keep, ◌==◌, nat_eq, Text, text_eq,
}
use fmsg_webapi.Strings.{Casing, trim_space, is_empty, is_nil, contains_byte}
use fmsg_webapi.Grants.Keys.{parse_api_key, underscore}

pub data GrantType : Type 0 where
  derived_sub_account delegated_identity : GrantType

pub data StoreErr : Type 0 where
  not_found already_exists limit_exceeded cidr_denied key_expired key_revoked : StoreErr
  invalid_remote_ip invalid_api_key other : StoreErr

pub data Result {ℓ} (A : Type ℓ) : Type ℓ where
  ok : A → Result A
  err : StoreErr → Result A

-- A row with an agent.
pub record Grant : Type 0 where
  pub owner_addr : Text
  pub agent : Text
  pub sub_addr : Text
  pub grant_type : GrantType
  pub display_name : Text
  pub key_id : Text
  pub key_hash : Text
  pub allowed_cidrs : List Text
  pub key_expires_at : ℕ
  pub max_sub_accounts : ℕ

-- A row without one.
pub record OwnerLimit : Type 0 where
  pub owner_addr : Text
  pub max_sub_accounts : ℕ

pub record Store : Type 0 where
  pub limits : List OwnerLimit
  pub grants : List Grant

pub record Platform : Type 0 where
  pub hash : Text → Text
  pub split_host : Text → Option Text
  pub read_addr : Text → Option ℕ
  pub unmap : ℕ → ℕ
  pub parse_prefix : Text → Option (ℕ → Bool)

abbrev pub default_max_sub_accounts : ℕ
default_max_sub_accounts = 5

pub record ApiKeyIdentity : Type 0 where
  pub owner_addr : Text
  pub sub_addr : Text
  pub key_id : Text

module _ (cs : Casing) where
  -- lower(owner_addr) = lower($1)
  abbrev pub owned_by : Text → Grant → Bool
  owned_by owner g = cs.sql_lower g.owner_addr == cs.sql_lower owner

  -- lower(owner_addr) = lower($1) AND agent = $2
  abbrev pub is_named : Text → Text → Grant → Bool
  is_named owner agent g = owned_by owner g && g.agent == agent

  abbrev pub speaks_for : Text → Text → Grant → Bool
  speaks_for owner sub g = owned_by owner g && cs.sql_lower g.sub_addr == cs.sql_lower sub

  unfoldable pub max_sub_accounts : Store → Text → ℕ
  max_sub_accounts s owner =
      elim (find (λ (r : OwnerLimit). cs.sql_lower r.owner_addr == cs.sql_lower owner) s.limits) [
        | none ↦ default_max_sub_accounts
        | some r ↦ r.max_sub_accounts
      ]

  unfoldable pub get : Store → Text → Text → Result Grant
  get s owner agent = elim (find (is_named owner agent) s.grants) [
    | none ↦ err not_found
    | some g ↦ ok g
  ]

  -- The unique indexes: (owner_addr, agent), (key_id) and (lower(owner_addr), lower(sub_addr)).
  abbrev pub clashes : Grant → Grant → Bool
  clashes a b =
      (a.owner_addr == b.owner_addr && a.agent == b.agent)
      || a.key_id == b.key_id
      || (cs.sql_lower a.owner_addr == cs.sql_lower b.owner_addr
          && cs.sql_lower a.sub_addr == cs.sql_lower b.sub_addr)

  -- The table's CHECK on a row with a grant.
  abbrev pub is_malformed : Grant → Bool
  is_malformed g = is_empty g.agent || contains_byte underscore g.agent || is_nil g.allowed_cidrs

  -- `createGrant`; the row's own limit is the owner's. The lengths of the columns, and that the CIDRs
  -- can be read as such, are not checked here.
  unfoldable pub create_grant : Store → Grant → Result Store
  create_grant s g =
      let row = record g { max_sub_accounts = max_sub_accounts s g.owner_addr } in
      if leb (max_sub_accounts s g.owner_addr) (length (keep (owned_by g.owner_addr) s.grants))
      then err limit_exceeded
      else if is_malformed g
      then err other
      else if any (clashes row) s.grants
      then err already_exists
      else ok (record s { grants = row ∷ s.grants })

  -- UPDATE of the rows that pass; `f` changes no column of the test.
  abbrev pub update : (Grant → Bool) → (Grant → Grant) → List Grant → List Grant
  update p f gs = map (λ g. if p g then f g else g) gs

  abbrev pub new_key : Text → Text → ℕ → Grant → Grant
  new_key key_id key_hash expires g = record g {
    key_id = key_id;
    key_hash = key_hash;
    key_expires_at = expires;
  }

  -- `RotateKey`: the address of the grant. A key id that another row has violates its index, and so
  -- does one that two rows are given.
  unfoldable pub rotate_key : Store → Text → Text → Text → Text → ℕ → Result (Store × Text)
  rotate_key s owner agent key_id key_hash expires = elim (find (is_named owner agent) s.grants) [
    | none ↦ err not_found
    | some g ↦
        if any (λ (h : Grant). h.key_id == key_id && not (is_named owner agent h)) s.grants
          || ltb 1 (length (keep (is_named owner agent) s.grants))
        then err already_exists
        else ok (
          record s {
            grants = update (is_named owner agent) (new_key key_id key_hash expires) s.grants;
          },
          g.sub_addr,
        )
  ]

  abbrev pub new_cidrs : List Text → Grant → Grant
  new_cidrs cidrs g = record g { allowed_cidrs = cidrs }

  unfoldable pub update_cidrs : Store → Text → Text → List Text → Result (Store × Grant)
  update_cidrs s owner agent cidrs = elim (find (is_named owner agent) s.grants) [
    | none ↦ err not_found
    | some g ↦
        if is_nil cidrs
        then err other
        else ok (
          record s { grants = update (is_named owner agent) (new_cidrs cidrs) s.grants },
          new_cidrs cidrs g,
        )
  ]

  unfoldable pub delete : Store → Text → Text → Result Store
  delete s owner agent =
      if not (any (is_named owner agent) s.grants)
      then err not_found
      else ok (record s { grants = keep (λ g. not (is_named owner agent g)) s.grants })

module _ (p : Platform) where
  abbrev host_of : Text → Text
  host_of remote = elim (p.split_host remote) [ none ↦ remote | some host ↦ host ]

  -- `none` is `ErrInvalidRemoteIP`. Unmapping leaves an address that is not IPv4 in IPv6.
  unfoldable pub parse_remote_addr : Text → Option ℕ
  parse_remote_addr remote = elim (p.read_addr (host_of remote)) [
    | none ↦ none
    | some addr ↦ some (p.unmap addr)
  ]

  -- The loop over the CIDRs; `none` is no error.
  allowed_from : ℕ → List Text → Option StoreErr
  allowed_from addr [] = some cidr_denied
  allowed_from addr (raw ∷ cidrs) =
      let rest = allowed_from addr cidrs in
      elim (p.parse_prefix (trim_space raw)) [
        | none ↦ some other
        | some contains ↦ if contains addr then none else rest
      ]

  unfoldable pub remote_allowed : Text → List Text → Option StoreErr
  unfolding allowed_from
  remote_allowed remote cidrs = elim (parse_remote_addr remote) [
    | none ↦ some invalid_remote_ip
    | some addr ↦ allowed_from addr cidrs
  ]

  -- The tests on the row of a key: the hash, the expiry, the source.
  abbrev key_row : Text → Text → ℕ → Grant → Result ApiKeyIdentity
  key_row api_key remote now g =
      if not (p.hash api_key == g.key_hash)
      then err invalid_api_key
      else if ltb g.key_expires_at now
      then err key_expired
      else elim (remote_allowed remote g.allowed_cidrs) [
        | some e ↦ err e
        | none ↦ ok (record { owner_addr = g.owner_addr; sub_addr = g.sub_addr; key_id = g.key_id })
      ]

  -- `ValidateAPIKey`
  unfoldable pub validate_api_key : Store → Text → Text → ℕ → Result ApiKeyIdentity
  validate_api_key s api_key remote now = elim (parse_api_key api_key) [
    | none ↦ err invalid_api_key
    | some key ↦ elim (find (λ g. g.key_id == key.id) s.grants) [
      | none ↦ err invalid_api_key
      | some g ↦ key_row api_key remote now g
    ]
  ]

module _ (cs : Casing) (p : Platform) where
  -- The row that a first-party token names.
  abbrev pub token_row : Text → Text → Text → Grant → Bool
  token_row key_id owner sub g = g.key_id == key_id && speaks_for cs owner sub g

  -- `ValidateToken`; `none` is no error.
  unfoldable pub validate_token : Store → Text → Text → Text → Text → ℕ → Option StoreErr
  validate_token s key_id owner sub remote now = elim (find (token_row key_id owner sub) s.grants) [
    | none ↦ some key_revoked
    | some g ↦
        if ltb g.key_expires_at now
        then some key_expired
        else remote_allowed p remote g.allowed_cidrs
  ]

  -- `ValidateActAs`
  unfoldable pub validate_act_as : Store → Text → Text → Option StoreErr
  validate_act_as s owner sub = elim (find (speaks_for cs owner sub) s.grants) [
    | none ↦ some not_found
    | some _ ↦ none
  ]
