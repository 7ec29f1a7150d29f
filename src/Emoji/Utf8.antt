-- ===== src/Emoji/Utf8.antt =====
-- unicode/utf8 as internal/emoji/emoji.go uses it: ValidString and the conversion to []rune. The
-- bytes are read left to right; a multi-byte rune in progress is the number of bytes still due,
-- the range of the next one, and the bits so far.
use mathlib.Core.Option
use fmsg_webapi.Prelude.{
  ℕ, ◌+◌, ◌-◌, ◌*◌, Bool, true, false, ◌&&◌, Option, none, some, List, [], ◌∷◌, ltb, leb,
  if◌then◌else◌, Text,
}

pub record Partial : Type 0 where
  pub due : ℕ
  pub lowest : ℕ
  pub highest : ℕ
  pub bits : ℕ

abbrev within : ℕ → ℕ → ℕ → Bool
within lo hi c = leb lo c && leb c hi

abbrev expect : ℕ → ℕ → ℕ → ℕ → Option Partial
expect due lowest highest bits =
    some (record { due = due; lowest = lowest; highest = highest; bits = bits })

-- What a lead byte announces. Overlong forms, surrogates and runes above U+10FFFF are excluded by
-- the range of the second byte.
lead : ℕ → Option Partial
lead c =
    if within 0xC2 0xDF c
    then expect 1 0x80 0xBF (c - 0xC0)
    else if within 0xE0 0xE0 c
    then expect 2 0xA0 0xBF 0
    else if within 0xED 0xED c
    then expect 2 0x80 0x9F 0xD
    else if within 0xE1 0xEF c
    then expect 2 0x80 0xBF (c - 0xE0)
    else if within 0xF0 0xF0 c
    then expect 3 0x90 0xBF 0
    else if within 0xF1 0xF3 c
    then expect 3 0x80 0xBF (c - 0xF0)
    else if within 0xF4 0xF4 c
    then expect 3 0x80 0x8F 4
    else none

abbrev boundary : Partial
boundary = record { due = 0; lowest = 0; highest = 0; bits = 0 }

-- One continuation byte of a rune in progress.
continued : Partial → ℕ → Partial
continued p c = record {
  due = p.due - 1;
  lowest = 0x80;
  highest = 0xBF;
  bits = p.bits * 64 + (c - 0x80);
}

decode_from : Partial → Text → Option (List ℕ)
decode_from p [] = if leb p.due 0 then some [] else none
decode_from p (c ∷ s) = elim (leb p.due 0) [
  | true ↦ elim (ltb c 0x80) [
    | true ↦ Option.map (◌∷◌ c) (decode_from boundary s)
    | false ↦ elim (lead c) [ none ↦ none | some q ↦ decode_from q s ]
  ]
  | false ↦ elim (within p.lowest p.highest c) [
    | true ↦ elim (leb p.due 1) [
      | true ↦ Option.map (◌∷◌ (continued p c).bits) (decode_from boundary s)
      | false ↦ decode_from (continued p c) s
    ]
    | false ↦ none
  ]
]

-- `none` if the bytes are no valid UTF-8, otherwise the runes.
unfoldable pub decode : Text → Option (List ℕ)
unfolding decode_from lead continued
decode s = decode_from boundary s
