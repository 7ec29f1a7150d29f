-- ===== src/Emoji/Completeness.antt =====
-- What is in the grammar is accepted by the parser of internal/emoji/emoji.go, with the fuel that
-- `possible_runes` gives it; and the two directions joined, at the level of bytes.
use fmsg_webapi.Prelude.{
  ℕ, zero, suc, ◌+◌, ◌≤◌, ◌≡◌, refl, ap, ◌∙◌, subst, ◌≢◌, ◌↔◌, inl, inr, Bool, true, some, List, [],
  ◌∷◌, ◌++◌, arith, Bool-cases, Option-cases, length, length-append, drop-append, Text,
}
use fmsg_webapi.Emoji.Utf8.{decode}
use mathlib.Core.List.{append-nil}
use fmsg_webapi.Emoji.Soundness.{elements-Sequence, is_flag-Possible}
use fmsg_webapi.Emoji.{
  max_reaction, max_sequence_r, is_possible, Tables, tag_run, modification, zwj_element, joined,
  elements, is_flag, possible_runes, zwj,
}
use fmsg_webapi.Emoji.Grammar.{
  Tags, final, tag, Element, plain, modified, varied, capped, tagged, Sequence, one, join, Possible,
  flag, sequence,
}

-- What may stand behind an element: the end, or a joiner.
data IsClosed : List ℕ → Type 0 where
  end : IsClosed []
  joiner : (z : ℕ) (s : List ℕ) → z ≡ zwj → IsClosed (z ∷ s)

tag_run-Tags :
    (i : ℕ) {ts : List ℕ} (s : List ℕ) → Tags ts → tag_run i (ts ++ s) ≡ (i + length ts, true)
unfolding tag_run
tag_run-Tags i s (final c e h k) = ground arith
tag_run-Tags i s (tag c {s = ts} h k) = ground (arith, tag_run-Tags (suc i) s k)

module _ (t : Tables) where
  zwj_element-Element :
      {e : List ℕ} (s : List ℕ)
      → Element t e
      → IsClosed s
      → zwj_element t (e ++ s) ≡ (length e, true)
  unfolding zwj_element modification
  zwj_element-Element s (plain b h p) end = ground arith
  zwj_element-Element s (plain b h p) (joiner z r k) = ground arith
  zwj_element-Element s (modified b m h k q) c = ground arith
  zwj_element-Element s (varied b v h k) end = ground arith
  zwj_element-Element s (varied b v h k) (joiner z r q) = ground arith
  zwj_element-Element s (capped b v k h p q) c = ground arith
  zwj_element-Element s (tagged b h p (final c e q k)) d =
      ground (arith, tag_run-Tags 1 s (final c e q k))
  zwj_element-Element s (tagged b h p (tag c {s = ts} q k)) d =
      ground (arith, tag_run-Tags 1 s (tag c q k))

  length-Element : {e : List ℕ} → Element t e → 1 ≤ length e
  length-Element (plain b h p) = omega arith
  length-Element (modified b m h k q) = omega arith
  length-Element (varied b v h k) = omega arith
  length-Element (capped b v k h p q) = omega arith
  length-Element (tagged b h p k) = omega arith

  length-Sequence : {r : List ℕ} → Sequence t r → 1 ≤ length r
  length-Sequence (one e) = length-Element e
  length-Sequence (join {e = e} {s = s} z el k q) =
      omega (arith, length-append e (z ∷ s), length-Element el)

  -- One round of the loop over an element that is there.
  elements_round :
      (fuel : ℕ) {e : List ℕ} (s : List ℕ)
      → Element t e
      → IsClosed s
      → elements t (suc fuel) (e ++ s) ≡ joined (elements t fuel) s
  unfolding elements
  elements_round fuel {e = e} s el c =
      rw (zwj_element-Element s el c) (ap (joined (elements t fuel)) (drop-append e s))

  joined_more :
      (more : List ℕ → Bool) (z : ℕ) (s : List ℕ)
      → z ≡ zwj
      → 1 ≤ length s
      → joined more (z ∷ s) ≡ more s
  unfolding joined
  joined_more more z [] k h = absurd (omega arith)
  joined_more more z (c ∷ s) k h = ground arith

  -- Fuel for every rune is enough.
  pub elements_complete :
      (fuel : ℕ) {r : List ℕ} → Sequence t r → length r ≤ fuel → elements t fuel r ≡ true
  unfolding joined
  elements_complete zero q h = absurd (omega (arith, length-Sequence q))
  elements_complete (suc fuel) (one {e = e} el) h =
      subst (λ r. elements t (suc fuel) r ≡ true) (append-nil e) (elements_round fuel [] el end)
  elements_complete (suc fuel) (join {e = e} {s = s} z el k q) h =
      elements_round fuel (z ∷ s) el (joiner z s k)
      ∙ joined_more (elements t fuel) z s k (length-Sequence q)
      ∙ elements_complete fuel q (omega (arith, length-append e (z ∷ s), length-Element el))

  possible_runes_complete :
      (runes : List ℕ)
      → length runes ≤ max_sequence_r
      → Possible t runes
      → possible_runes t runes ≡ true
  unfolding possible_runes
  possible_runes_complete runes h (flag a b p q) = ground arith
  possible_runes_complete runes h (sequence q) =
      ground (arith, elements_complete (length runes) q (omega arith))

  possible_runes_iff :
      (runes : List ℕ)
      → (possible_runes t runes ≡ true) ↔ (length runes ≤ max_sequence_r) × Possible t runes
  unfolding possible_runes
  possible_runes_iff runes = (
    λ h. (
      ground arith,
      elim (Bool-cases (is_flag t runes)) [
        | inl f ↦ is_flag-Possible t runes f
        | inr f ↦ sequence (elements-Sequence t (length runes) runes (ground arith))
      ],
    ),
    λ p. possible_runes_complete runes p.0 p.1,
  )

  is_possible_complete :
      (s : Text)
      → s ≢ []
      → length s ≤ max_reaction
      → (runes : List ℕ) → decode s ≡ some runes
      → possible_runes t runes ≡ true
      → is_possible t s ≡ true
  unfolding is_possible
  is_possible_complete [] h l runes d p = absurd (h refl)
  is_possible_complete (c ∷ s) h l runes d p = rw (d, is_possible) (ground arith)

  -- `IsPossible` accepts a text exactly when it is not empty, has at most 64 bytes, is valid UTF-8
  -- of at most 24 runes, and those runes are in the possible_emoji grammar restricted to what
  -- presents as emoji, whatever the property tables say.
  pub is_possible_iff :
      (s : Text)
      → (is_possible t s ≡ true)
        ↔ (s ≢ [])
          × (length s ≤ max_reaction)
          × ((runes : List ℕ) × (decode s ≡ some runes)
              × (length runes ≤ max_sequence_r)
              × Possible t runes)
  unfolding is_possible
  is_possible_iff s = (
    λ h. (
      λ e. cc (subst (λ x. is_possible t x ≡ true) e h),
      ground arith,
      elim (Option-cases (decode s)) [
        | inl e ↦ absurd (ground arith)
        | inr (runes, e) ↦
            let p = (possible_runes_iff runes).0 (ground arith) in (runes, e, p.0, p.1)
      ],
    ),
    λ p. is_possible_complete s p.0 p.1 p.2.0 p.2.1 ((possible_runes_iff p.2.0).1 (p.2.2, p.2.3)),
  )
