-- ===== src/Emoji.antt =====
-- internal/emoji/emoji.go: recognising one emoji. The property tables of tables.go are generated
-- data; the long ones are the fields of `Tables`, the one range of Emoji_Modifier is written out.
-- A slice of runes is the list that is left, so an index past its end is a missing element.
pub mod Utf8
pub mod Grammar
pub mod Soundness
pub mod Completeness
use fmsg_webapi.Prelude.{
  ℕ, zero, suc, Bool, true, false, not, ◌&&◌, ◌||◌, none, some, List, [], ◌∷◌, ltb, leb,
  if◌then◌else◌, length, drop, ◌==◌, nat_eq, Text, text_eq,
}
use Utf8.{decode}

abbrev pub zwj : ℕ
zwj = 0x200D

abbrev pub vs16 : ℕ
vs16 = 0xFE0F

abbrev pub keycap : ℕ
keycap = 0x20E3

abbrev pub tag_begin : ℕ
tag_begin = 0xE0020

abbrev pub tag_end : ℕ
tag_end = 0xE007E

abbrev pub tag_term : ℕ
tag_term = 0xE007F

abbrev pub ri_first : ℕ
ri_first = 0x1F1E6

abbrev pub ri_last : ℕ
ri_last = 0x1F1FF

abbrev pub black_flag : ℕ
black_flag = 0x1F3F4

-- Bytes.
abbrev pub max_reaction : ℕ
max_reaction = 64

-- Runes.
abbrev pub max_sequence_r : ℕ
max_sequence_r = 24

pub record Tables : Type 0 where
  pub rgi : Text → Bool
  pub emoji : ℕ → Bool
  pub emoji_presentation : ℕ → Bool
  pub emoji_modifier_base : ℕ → Bool

-- `propEmojiModifier`, whose table is one range.
abbrev pub is_modifier : ℕ → Bool
is_modifier r = leb 0x1F3FB r && leb r 0x1F3FF

abbrev pub is_ri : ℕ → Bool
is_ri r = leb ri_first r && leb r ri_last

abbrev pub is_tag : ℕ → Bool
is_tag r = leb tag_begin r && leb r tag_end

abbrev pub is_nil {ℓ} : {A : Type ℓ} → List A → Bool
is_nil [] = true
is_nil (_ ∷ _) = false

-- The loop over the tag characters, with the number of runes read so far.
pub tag_run : ℕ → List ℕ → ℕ × Bool
tag_run i [] = (0, false)
tag_run i (c ∷ s) =
    if is_tag c then tag_run (suc i) s else if c == tag_term then (suc i, true) else (0, false)

-- The length of a variation selector with the keycap that may follow it.
abbrev pub keycap_end : List ℕ → ℕ
keycap_end [] = 2
keycap_end (r ∷ _) = if r == keycap then 3 else 2

module _ (t : Tables) where
  -- The `switch` on the rune after the base.
  pub modification : ℕ → List ℕ → ℕ × Bool
  modification base [] = (1, t.emoji_presentation base)
  modification base (r ∷ rest) =
      if is_modifier r
      then if not (t.emoji_modifier_base base) then (0, false) else (2, true)
      else if r == vs16
      then (keycap_end rest, true)
      else if is_tag r
      then if not (base == black_flag) then (0, false) else tag_run 1 (r ∷ rest)
      else (1, t.emoji_presentation base)

  -- The number of runes consumed, and whether they are an element.
  pub zwj_element : List ℕ → ℕ × Bool
  zwj_element [] = (0, false)
  zwj_element (base ∷ rest) =
      if not (t.emoji base) || is_ri base then (0, false) else modification base rest

-- What follows an element: nothing, or a joiner and more elements.
pub joined : (List ℕ → Bool) → List ℕ → Bool
joined more [] = true
joined more (r ∷ rest) = if not (r == zwj) then false else if is_nil rest then false else more rest

module _ (t : Tables) where
  -- The loop of `IsPossible`, on fuel.
  pub elements : ℕ → List ℕ → Bool
  elements zero runes = false
  elements (suc fuel) runes =
      let (n, found) = zwj_element t runes in
      if not found then false else joined (elements fuel) (drop n runes)

  abbrev pub is_flag : List ℕ → Bool
  is_flag (a ∷ b ∷ []) = is_ri a && is_ri b
  is_flag _ = false

  pub possible_runes : List ℕ → Bool
  possible_runes runes =
      if ltb max_sequence_r (length runes)
      then false
      else if is_flag runes
      then true
      else elements (length runes) runes

  pub is_possible : Text → Bool
  is_possible s =
      if is_nil s || ltb max_reaction (length s)
      then false
      else elim (decode s) [ none ↦ false | some runes ↦ possible_runes runes ]

  pub is_rgi : Text → Bool
  is_rgi s = t.rgi s

  pub is_single : Text → Bool
  is_single s = is_rgi s || is_possible s
