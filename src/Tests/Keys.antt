-- ===== src/Tests/Keys.antt =====
-- A grant is created, used and deleted: internal/apiauth.
use fmsg_webapi.Prelude.{
  ◌≡◌, refl, inl, none, some, [], ◌∷◌, arith, if◌then◌else◌, ◌==◌, nat_eq, Text, codes, text_eq,
}
use fmsg_webapi.Strings.{Casing, split, contains_byte, trim_space}
use fmsg_webapi.Grants.Keys.{ApiKey, generate_api_key, parse_api_key, parse-generate}
use fmsg_webapi.Grants.Store.{
  Grant, Store, Platform, delegated_identity, ok, err, not_found, key_revoked, invalid_api_key,
  max_sub_accounts, create_grant, delete, validate_api_key, validate_token, validate_act_as,
  remote_allowed, parse_remote_addr,
}
use fmsg_webapi.Grants.Invariant.{IsValid, create_grant-IsValid}
use fmsg_webapi.Grants.Revocation.{delete_revokes, create_usable}

store_ops : Unit {0}
unfolding split contains_byte trim_space parse_api_key max_sub_accounts create_grant delete
    remote_allowed parse_remote_addr
store_ops = tt

abbrev plain_case : Casing
plain_case = record { to_lower = λ s. s; equal_fold = λ s t. s == t; sql_lower = λ s. s }

-- One address, one prefix.
abbrev tiny_platform : Platform
tiny_platform = record {
  hash = λ s. s;
  split_host = λ _. none;
  read_addr = λ s. if s == codes "10.0.0.1" then some 1 else none;
  unmap = λ a. a;
  parse_prefix = λ s. if s == codes "10.0.0.0/8" then some (λ a. a == 1) else none;
}

parse-generate_example :
    parse_api_key (generate_api_key (codes "id1") (codes "s3cret")).value
    ≡ some (generate_api_key (codes "id1") (codes "s3cret"))
unfolding store_ops
parse-generate_example = parse-generate (codes "id1") (codes "s3cret") refl refl refl refl

abbrev bot_key : ApiKey
bot_key = generate_api_key (codes "id1") (codes "s3cret")

abbrev key_text : Text
key_text = codes "fmsgk_id1_s3cret"

abbrev bot_grant : Grant
bot_grant = record {
  owner_addr = codes "@ann@host";
  agent = codes "bot";
  sub_addr = codes "@bot@host";
  grant_type = delegated_identity;
  display_name = [];
  key_id = codes "id1";
  key_hash = key_text;
  allowed_cidrs = codes "10.0.0.0/8" ∷ [];
  key_expires_at = 100;
  max_sub_accounts = 5;
}

abbrev no_grants : Store
no_grants = record { limits = []; grants = [] }

abbrev one_grant : Store
one_grant = record { limits = []; grants = bot_grant ∷ [] }

no_grants-IsValid : IsValid plain_case no_grants
unfolding store_ops
no_grants-IsValid = record { distinct = tt; within = λ _. omega arith }

created : create_grant plain_case no_grants bot_grant ≡ ok one_grant
unfolding store_ops
created = refl

deleted : delete plain_case one_grant (codes "@ann@host") (codes "bot") ≡ ok no_grants
unfolding store_ops
deleted = refl

one_grant-IsValid : IsValid plain_case one_grant
one_grant-IsValid =
    create_grant-IsValid plain_case no_grants one_grant bot_grant no_grants-IsValid created

create_grant-IsValid_example : IsValid plain_case one_grant
create_grant-IsValid_example =
    create_grant-IsValid plain_case no_grants one_grant bot_grant no_grants-IsValid created

key_parses :
    parse_api_key key_text
    ≡ some (record { id = codes "id1"; secret = codes "s3cret"; value = key_text })
unfolding store_ops
key_parses = refl

source_allowed : remote_allowed tiny_platform (codes "10.0.0.1") (codes "10.0.0.0/8" ∷ []) ≡ none
unfolding store_ops
source_allowed = refl

delete_revokes_example :
    (validate_token plain_case tiny_platform no_grants
        (codes "id1")
        (codes "@ann@host")
        (codes "@bot@host")
        (codes "10.0.0.1")
        50
      ≡ some key_revoked)
    × (validate_api_key tiny_platform no_grants key_text (codes "10.0.0.1") 50
        ≡ err invalid_api_key)
    × (validate_act_as plain_case tiny_platform no_grants (codes "@ann@host") (codes "@bot@host")
        ≡ some not_found)
delete_revokes_example =
    delete_revokes plain_case tiny_platform one_grant no_grants (codes "@ann@host") (codes "bot")
      bot_grant (codes "@ann@host") (codes "@bot@host") (codes "10.0.0.1") key_text 50 _
      one_grant-IsValid (inl refl) refl deleted key_parses refl

create_usable_example :
    (validate_api_key tiny_platform one_grant key_text (codes "10.0.0.1") 50
      ≡ ok (record {
        owner_addr = codes "@ann@host";
        sub_addr = codes "@bot@host";
        key_id = codes "id1";
      }))
    × (validate_token plain_case tiny_platform one_grant
          (codes "id1")
          (codes "@ann@host")
          (codes "@bot@host")
          (codes "10.0.0.1")
          50
        ≡ none)
    × (validate_act_as plain_case tiny_platform one_grant (codes "@ann@host") (codes "@bot@host")
        ≡ none)
create_usable_example =
    create_usable plain_case tiny_platform no_grants one_grant bot_grant (codes "10.0.0.1") key_text
      50 _ created key_parses refl refl (omega arith) source_allowed
