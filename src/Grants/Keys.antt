-- ===== src/Grants/Keys.antt =====
-- internal/apiauth/apikey.go and subaccount.go.
use fmsg_webapi.Prelude.{
  ℕ, ◌≡◌, refl, ap, ◌∙◌, Bool, false, not, ◌||◌, Option, none, some, List, [], ◌∷◌, ◌++◌, arith,
  ltb, if◌then◌else◌, length, drop, all, ◌==◌, nat_eq, Text, codes, text_eq,
}
use fmsg_webapi.Strings.{contains_byte, has_prefix, is_empty, split, cut}
use fmsg_webapi.Strings.Laws.{split_piece, split_none}

abbrev pub underscore : ℕ
underscore = 95

abbrev pub key_prefix : Text
key_prefix = codes "fmsgk"

-- `APIKey`
pub record ApiKey : Type 0 where
  pub id : Text
  pub secret : Text
  pub value : Text

-- "%s_%s_%s"
abbrev key_value : Text → Text → Text
key_value id secret = key_prefix ++ (underscore ∷ (id ++ (underscore ∷ secret)))

-- `GenerateAPIKey`, given its two random tokens.
pub generate_api_key : Text → Text → ApiKey
generate_api_key id secret = record { id = id; secret = secret; value = key_value id secret }

abbrev key_of_parts : Text → List Text → Option ApiKey
key_of_parts value (p ∷ id ∷ secret ∷ []) =
    if not (p == key_prefix) || is_empty id || is_empty secret
    then none
    else some (record { id = id; secret = secret; value = value })
key_of_parts value _ = none

-- `ParseAPIKey`
unfoldable pub parse_api_key : Text → Option ApiKey
parse_api_key value = key_of_parts value (split underscore value)

-- A generated key parses to itself, if its tokens are not empty and have no underscore, as those of
-- standard base64 have none.
pub parse-generate :
    (id secret : Text)
    → is_empty id ≡ false
    → is_empty secret ≡ false
    → contains_byte underscore id ≡ false
    → contains_byte underscore secret ≡ false
    → parse_api_key (generate_api_key id secret).value ≡ some (generate_api_key id secret)
unfolding parse_api_key generate_api_key contains_byte
parse-generate id secret p q r s =
    let parts : split underscore (key_value id secret) ≡ key_prefix ∷ id ∷ secret ∷ [] =
      split_piece underscore key_prefix (id ++ (underscore ∷ secret)) refl
      ∙ ap (◌∷◌ key_prefix)
          (split_piece underscore id secret r ∙ ap (◌∷◌ id) (split_none underscore secret s)) in
    rw parts (ground arith)

-- unicode.IsLetter and unicode.IsDigit of the runes of a text; the tables are the standard
-- library's.
pub record Letters : Type 0 where
  pub runes : Text → List ℕ
  pub is_letter : ℕ → Bool
  pub is_digit : ℕ → Bool

module _ (u : Letters) where
  abbrev agent_rune : ℕ → Bool
  agent_rune r = u.is_letter r || u.is_digit r || r == b'-' || r == b'.'

  -- `ValidateAgent`: true is no error.
  unfoldable pub validate_agent : Text → Bool
  validate_agent agent =
      if is_empty agent
        || ltb 64 (length agent)
        || contains_byte underscore agent
        || contains_byte b'@' agent
      then false
      else all agent_rune (u.runes agent)

  -- `DeriveSubAccountAddr`
  unfoldable pub derive_sub_account_addr : Text → Text → Option Text
  derive_sub_account_addr owner_addr agent =
      if not (validate_agent agent)
      then none
      else if not (has_prefix owner_addr (b'@' ∷ []))
      then none
      else elim (cut b'@' (drop 1 owner_addr)) [
        | none ↦ none
        | some (user, domain) ↦
            if is_empty user || is_empty domain
            then none
            else some (b'@' ∷ (user ++ (underscore ∷ (agent ++ (b'@' ∷ domain)))))
      ]
