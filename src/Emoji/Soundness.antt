-- ===== src/Emoji/Soundness.antt =====
-- What the parser of internal/emoji/emoji.go accepts is in the grammar.
use fmsg_webapi.Prelude.{
  ℕ, zero, suc, ◌+◌, ◌≡◌, refl, sym, ap, ap₂, ◌∙◌, subst, inl, inr, true, List, [], ◌∷◌, ◌++◌,
  arith, Bool-cases, length, drop, drop-append, ◌==◌, nat_eq, text_eq,
}
use mathlib.Core.List.{append-nil}
use fmsg_webapi.Emoji.{
  Tables, is_modifier, is_tag, tag_run, keycap_end, modification, zwj_element, joined, elements,
  is_flag, vs16, keycap, black_flag,
}
use fmsg_webapi.Emoji.Grammar.{
  Tags, final, tag, IsBase, Element, plain, modified, varied, capped, tagged, Sequence, one, join,
  Possible, flag,
}

-- A prefix of the runes that satisfies `P`, and what is left.
pub record Prefix (P : List ℕ → Type 0) (n : ℕ) (runes : List ℕ) : Type 0 where
  pub consumed : List ℕ
  pub left : List ℕ
  pub split : runes ≡ consumed ++ left
  pub measured : length consumed ≡ n
  pub holds : P consumed

-- The runes after the base that the tag loop reads.
record Run (i n : ℕ) (runes : List ℕ) : Type 0 where
  tags : List ℕ
  left : List ℕ
  split : runes ≡ tags ++ left
  measured : i + length tags ≡ n
  holds : Tags tags

tag_run-Run :
    (i : ℕ) (c : ℕ) (s : List ℕ) (n : ℕ)
    → is_tag c ≡ true
    → tag_run i (c ∷ s) ≡ (n, true)
    → Run i n (c ∷ s)
unfolding tag_run
tag_run-Run i c [] n h e = ground arith
tag_run-Run i c (d ∷ s) n h e = elim (Bool-cases (is_tag d)) [
  | inl more ↦
      let r = tag_run-Run (suc i) d s n more (ground arith) in
      record {
        tags = c ∷ r.tags;
        left = r.left;
        split = ap (◌∷◌ c) r.split;
        measured = omega (arith, r.measured);
        holds = tag c h r.holds;
      }
  | inr stop ↦ record {
    tags = c ∷ d ∷ [];
    left = s;
    split = refl;
    measured = ground arith;
    holds = final c d h (ground arith);
  }
]

module _ (t : Tables) where
  -- The forms that an element with a rune after its base may take.
  tagged-Prefix :
      (b : ℕ) (r : ℕ) (rest : List ℕ) (n : ℕ)
      → IsBase t b
      → b ≡ black_flag
      → is_tag r ≡ true
      → tag_run 1 (r ∷ rest) ≡ (n, true)
      → Prefix (Element t) n (b ∷ r ∷ rest)
  tagged-Prefix b r rest n h black is e =
      let run = tag_run-Run 1 r rest n is e in
      record {
        consumed = b ∷ run.tags;
        left = run.left;
        split = ap (◌∷◌ b) run.split;
        measured = omega (arith, run.measured);
        holds = tagged b h black run.holds;
      }

  varied-Prefix :
      (b r : ℕ) (rest : List ℕ) (n : ℕ)
      → IsBase t b
      → r ≡ vs16
      → keycap_end rest ≡ n
      → Prefix (Element t) n (b ∷ r ∷ rest)
  varied-Prefix b r [] n h v e = record {
    consumed = b ∷ r ∷ [];
    left = [];
    split = refl;
    measured = e;
    holds = varied b r h v;
  }
  varied-Prefix b r (k ∷ rest) n h v e = elim (Bool-cases (k == keycap)) [
    | inl cap ↦ record {
      consumed = b ∷ r ∷ k ∷ [];
      left = rest;
      split = refl;
      measured = ground arith;
      holds = capped b r k h v (ground arith);
    }
    | inr bare ↦ record {
      consumed = b ∷ r ∷ [];
      left = k ∷ rest;
      split = refl;
      measured = ground arith;
      holds = varied b r h v;
    }
  ]

  plain-Prefix :
      (b : ℕ) (rest : List ℕ) (n : ℕ)
      → IsBase t b
      → t.emoji_presentation b ≡ true
      → 1 ≡ n
      → Prefix (Element t) n (b ∷ rest)
  plain-Prefix b rest n h p e = record {
    consumed = b ∷ [];
    left = rest;
    split = refl;
    measured = e;
    holds = plain b h p;
  }

  modification-Prefix :
      (b : ℕ) (rest : List ℕ) (n : ℕ)
      → IsBase t b
      → modification t b rest ≡ (n, true)
      → Prefix (Element t) n (b ∷ rest)
  unfolding modification
  modification-Prefix b [] n h e = plain-Prefix b [] n h (ground arith) (ground arith)
  modification-Prefix b (r ∷ rest) n h e = elim (Bool-cases (is_modifier r)) [
    | inl m ↦ record {
      consumed = b ∷ r ∷ [];
      left = rest;
      split = refl;
      measured = ground arith;
      holds = modified b r h m (ground arith);
    }
    | inr m ↦ elim (Bool-cases (r == vs16)) [
      | inl v ↦ varied-Prefix b r rest n h (ground arith) (ground arith)
      | inr v ↦ elim (Bool-cases (is_tag r)) [
        | inl is ↦ tagged-Prefix b r rest n h (ground arith) is (ground arith)
        | inr is ↦ plain-Prefix b (r ∷ rest) n h (ground arith) (ground arith)
      ]
    ]
  ]

  pub zwj_element-Prefix :
      (runes : List ℕ) (n : ℕ) → zwj_element t runes ≡ (n, true) → Prefix (Element t) n runes
  unfolding zwj_element
  zwj_element-Prefix [] n e = cc
  zwj_element-Prefix (b ∷ rest) n e =
      modification-Prefix b rest n (record { emoji = ground arith; no_indicator = ground arith })
        (ground arith)

  joined-Sequence :
      (fuel : ℕ) (e s : List ℕ)
      → ((r : List ℕ) → elements t fuel r ≡ true → Sequence t r)
      → Element t e
      → joined (elements t fuel) s ≡ true
      → Sequence t (e ++ s)
  unfolding joined
  joined-Sequence fuel e [] ih el h = rw append-nil (one el)
  joined-Sequence fuel e (z ∷ s) ih el h = join z el (ground arith) (ih s (ground arith))

  elements_step :
      (fuel : ℕ) (runes : List ℕ)
      → elements t (suc fuel) runes ≡ true
      → ((zwj_element t runes).1 ≡ true)
        × (joined (elements t fuel) (drop (zwj_element t runes).0 runes) ≡ true)
  unfolding elements
  elements_step fuel runes h = ground arith

  pub elements-Sequence :
      (fuel : ℕ) (runes : List ℕ) → elements t fuel runes ≡ true → Sequence t runes
  unfolding elements
  elements-Sequence zero runes h = cc
  elements-Sequence (suc fuel) runes h =
      let (found, rest) = elements_step fuel runes h in
      let n : ℕ = (zwj_element t runes).0 in
      let p = zwj_element-Prefix runes n (ground arith) in
      let at_left : drop n runes ≡ p.left =
        ap₂ drop (sym p.measured) p.split ∙ drop-append p.consumed p.left in
      rw p.split (
        joined-Sequence fuel p.consumed p.left (elements-Sequence fuel) p.holds
          (subst (λ s. joined (elements t fuel) s ≡ true) at_left rest))

  pub is_flag-Possible : (runes : List ℕ) → is_flag t runes ≡ true → Possible t runes
  is_flag-Possible [] h = cc
  is_flag-Possible (a ∷ []) h = cc
  is_flag-Possible (a ∷ b ∷ []) h = flag a b (ground arith) (ground arith)
  is_flag-Possible (a ∷ b ∷ c ∷ r) h = cc
