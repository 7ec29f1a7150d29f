-- ===== src/Emoji/Grammar.antt =====
-- The possible_emoji grammar of UTS #51, restricted to what presents as emoji, as the comment on
-- `IsPossible` in internal/emoji/emoji.go gives it. It is stated without the parser.
use fmsg_webapi.Prelude.{ℕ, ◌≡◌, true, false, List, [], ◌∷◌, ◌++◌}
use fmsg_webapi.Emoji.{zwj, vs16, keycap, tag_term, black_flag, Tables, is_modifier, is_ri, is_tag}

-- [E0020-E007E]+ E007F
pub data Tags : List ℕ → Type 0 where
  final : (c e : ℕ) → is_tag c ≡ true → e ≡ tag_term → Tags (c ∷ e ∷ [])
  tag : (c : ℕ) {s : List ℕ} → is_tag c ≡ true → Tags s → Tags (c ∷ s)

module _ (t : Tables) where
  -- A character that may begin an element.
  pub record IsBase (b : ℕ) : Type 0 where
    pub emoji : t.emoji b ≡ true
    pub no_indicator : is_ri b ≡ false

  pub data Element : List ℕ → Type 0 where
    plain : (b : ℕ) → IsBase b → t.emoji_presentation b ≡ true → Element (b ∷ [])
    modified :
        (b m : ℕ)
        → IsBase b
        → is_modifier m ≡ true
        → t.emoji_modifier_base b ≡ true
        → Element (b ∷ m ∷ [])
    varied : (b v : ℕ) → IsBase b → v ≡ vs16 → Element (b ∷ v ∷ [])
    capped : (b v k : ℕ) → IsBase b → v ≡ vs16 → k ≡ keycap → Element (b ∷ v ∷ k ∷ [])
    tagged : (b : ℕ) {s : List ℕ} → IsBase b → b ≡ black_flag → Tags s → Element (b ∷ s)

  pub data Sequence : List ℕ → Type 0 where
    one : {e : List ℕ} → Element e → Sequence e
    join : {e s : List ℕ} (z : ℕ) → Element e → z ≡ zwj → Sequence s → Sequence (e ++ z ∷ s)

  pub data Possible : List ℕ → Type 0 where
    flag : (a b : ℕ) → is_ri a ≡ true → is_ri b ≡ true → Possible (a ∷ b ∷ [])
    sequence : {r : List ℕ} → Sequence r → Possible r
