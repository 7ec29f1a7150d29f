-- ===== src/Tests/Reaction.antt =====
-- One emoji as a reaction: internal/emoji/emoji.go.
use fmsg_webapi.Prelude.{
  ℕ, ◌≤◌, ◌≡◌, ◌≢◌, ◌↔◌, true, false, some, List, [], ◌∷◌, length, ◌==◌, nat_eq, Text, text_eq,
}
use fmsg_webapi.Emoji.{Tables, is_possible, max_reaction, max_sequence_r}
use fmsg_webapi.Emoji.Utf8.{decode}
use fmsg_webapi.Emoji.Grammar.{Possible}
use fmsg_webapi.Emoji.Completeness.{is_possible_iff}

-- U+1F600 presents as emoji.
abbrev faces : Tables
faces = record {
  rgi = λ _. false;
  emoji = λ r. r == 0x1F600;
  emoji_presentation = λ r. r == 0x1F600;
  emoji_modifier_base = λ _. false;
}

-- U+1F600 in UTF-8.
abbrev grin : Text
grin = 0xF0 ∷ 0x9F ∷ 0x98 ∷ 0x80 ∷ []

is_possible_iff_example :
    (is_possible faces grin ≡ true)
    ↔ (grin ≢ [])
      × (4 ≤ max_reaction)
      × ((runes : List ℕ) × (decode grin ≡ some runes)
          × (length runes ≤ max_sequence_r)
          × Possible faces runes)
is_possible_iff_example = is_possible_iff faces grin
