-- ===== src/Strings.antt =====
-- The functions of Go's package strings that the handlers and middleware call, on the bytes of a
-- string. Letter case depends on Unicode tables, so it is an interface: `Casing`.
pub mod Laws
use mathlib.Core.Option
use fmsg_webapi.Prelude.{
  ℕ, zero, suc, Bool, true, false, ◌&&◌, ◌||◌, Option, none, some, List, [], ◌∷◌, ◌++◌, map, leb,
  if◌then◌else◌, ◌==◌, nat_eq, Text, text_eq,
}

-- strings.ToLower, strings.EqualFold, and the database's lower(). The three need not agree outside
-- ASCII; every theorem holds for any three functions unless it says otherwise.
pub record Casing : Type 0 where
  pub to_lower : Text → Text
  pub equal_fold : Text → Text → Bool
  pub sql_lower : Text → Text

abbrev pub is_empty : Text → Bool
is_empty [] = true
is_empty (_ ∷ _) = false

abbrev pub is_nil {ℓ} : {A : Type ℓ} → List A → Bool
is_nil [] = true
is_nil (_ ∷ _) = false

-- strings.HasPrefix
unfoldable pub has_prefix : Text → Text → Bool
has_prefix s [] = true
has_prefix [] (p ∷ ps) = false
has_prefix (c ∷ s) (p ∷ ps) = c == p && has_prefix s ps

-- strings.Contains for one byte.
unfoldable pub contains_byte : ℕ → Text → Bool
contains_byte b [] = false
contains_byte b (c ∷ s) = c == b || contains_byte b s

-- slices.Contains, and the loops that do the same.
unfoldable pub contains : Text → List Text → Bool
contains x [] = false
contains x (y ∷ ys) = y == x || contains x ys

-- U+2000 to U+200A, U+2028, U+2029 and U+202F.
is_e280_space : Text → Bool
is_e280_space (a ∷ b ∷ d ∷ _) =
    a == 0xE2 && b == 0x80 && ((leb 0x80 d && leb d 0x8A) || d == 0xA8 || d == 0xA9 || d == 0xAF)
is_e280_space _ = false

-- The number of bytes of the white space character that a text begins with, 0 if there is none:
-- unicode.IsSpace on UTF-8.
space_len : Text → ℕ
space_len [] = 0
space_len (c ∷ s) =
    if (leb 9 c && leb c 13) || c == 32
    then 1
    else if has_prefix (c ∷ s) (0xC2 ∷ 0x85 ∷ []) || has_prefix (c ∷ s) (0xC2 ∷ 0xA0 ∷ [])
    then 2
    else if has_prefix (c ∷ s) (0xE1 ∷ 0x9A ∷ 0x80 ∷ [])
        || has_prefix (c ∷ s) (0xE2 ∷ 0x81 ∷ 0x9F ∷ [])
        || has_prefix (c ∷ s) (0xE3 ∷ 0x80 ∷ 0x80 ∷ [])
        || is_e280_space (c ∷ s)
    then 3
    else 0

-- The first argument is the number of bytes of a white space character still to be passed over.
trim_left_from : ℕ → Text → Text
trim_left_from k [] = []
trim_left_from (suc k) (c ∷ s) = trim_left_from k s
trim_left_from zero (c ∷ s) = elim (space_len (c ∷ s)) [ zero ↦ c ∷ s | suc k ↦ trim_left_from k s ]

trim_right : Text → Text
trim_right [] = []
trim_right (c ∷ s) = if is_empty (trim_left_from 0 (c ∷ s)) then [] else c ∷ trim_right s

-- strings.TrimSpace
unfoldable pub trim_space : Text → Text
unfolding trim_left_from trim_right space_len is_e280_space has_prefix
trim_space s = trim_right (trim_left_from 0 s)

abbrev field_end : Text → List Text → List Text
field_end [] fs = fs
field_end (c ∷ s) fs = (c ∷ s) ∷ fs

-- The field that is being read, and the rest.
fields_from : ℕ → Text → Text → List Text
fields_from k cur [] = field_end cur []
fields_from (suc k) cur (c ∷ s) = fields_from k cur s
fields_from zero cur (c ∷ s) = elim (space_len (c ∷ s)) [
  | zero ↦ fields_from zero (cur ++ c ∷ []) s
  | suc k ↦ field_end cur (fields_from k [] s)
]

-- strings.Fields
unfoldable pub fields : Text → List Text
unfolding fields_from space_len is_e280_space has_prefix
fields s = fields_from 0 [] s

-- strings.Split by one byte: the pieces between its occurrences.
split_from : ℕ → Text → Text → List Text
split_from b cur [] = cur ∷ []
split_from b cur (c ∷ s) = elim (c == b) [
  | true ↦ cur ∷ split_from b [] s
  | false ↦ split_from b (cur ++ c ∷ []) s
]

unfoldable pub split : ℕ → Text → List Text
unfolding split_from
split b s = split_from b [] s

-- strings.Cut by one byte: what stands before and after its first occurrence.
unfoldable pub cut : ℕ → Text → Option (Text × Text)
cut b [] = none
cut b (c ∷ s) =
    if c == b then some ([], s) else Option.map (λ (p : Text × Text). (c ∷ p.0, p.1)) (cut b s)

-- Before and after the last occurrence: strings.LastIndex and the two slices at it.
unfoldable pub cut_last : ℕ → Text → Option (Text × Text)
cut_last b [] = none
cut_last b (c ∷ s) = elim (cut_last b s) [
  | some p ↦ some (c ∷ p.0, p.1)
  | none ↦ if c == b then some ([], s) else none
]
