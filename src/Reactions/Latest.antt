-- ===== src/Reactions/Latest.antt =====
-- The row that `effectiveReactions` of internal/handlers/reactions.go keeps for a reactor is the
-- latest, and who receives a reaction.
use mathlib.Core.Path.{◌∙◌}
use fmsg_webapi.Prelude.{
  ℕ, ◌≡◌, refl, sym, ap, ◌∙◌, subst, ◌⊎◌, inl, inr, Bool, true, false, ◌&&◌, Option, none, some,
  List, [], ◌∷◌, arith, nat_beq_iff, if◌then◌else◌, Bool-cases, some-eq, In, ◌==◌, nat_eq, Text,
  text_beq, text_beq-eq, text_eq, text_beq_sym, Bool-cases,
}
use fmsg_webapi.Auth.Scopes.{lookup}
use fmsg_webapi.Reactions.{
  ReactionRow, bytes_after, newer_reaction, put_reactor, Subjects, Reactors, Casing, put_row,
  gather,
}

bytes_after_trans :
    (a b c : Text) → bytes_after a b ≡ false → bytes_after b c ≡ false → bytes_after a c ≡ false
unfolding bytes_after
bytes_after_trans [] b c h k = refl
bytes_after_trans (x ∷ a) [] c h k = cc h
bytes_after_trans (x ∷ a) (y ∷ b) [] h k = cc k
bytes_after_trans (x ∷ a) (y ∷ b) (z ∷ c) h k = let rest = bytes_after_trans a b c in ground arith

-- Not newer is an order: what is not newer than the kept row, and the kept row's successor.
not_newer_trans :
    (a b c : ReactionRow)
    → newer_reaction a b ≡ false
    → newer_reaction b c ≡ false
    → newer_reaction a c ≡ false
unfolding newer_reaction
not_newer_trans a b c h k = let hashes = bytes_after_trans a.hash b.hash c.hash in ground arith

bytes_after_asym : (a b : Text) → bytes_after a b ≡ true → bytes_after b a ≡ false
unfolding bytes_after
bytes_after_asym [] b h = cc h
bytes_after_asym (x ∷ a) [] h = refl
bytes_after_asym (x ∷ a) (y ∷ b) h = let rest = bytes_after_asym a b in ground arith

newer_asym : (a b : ReactionRow) → newer_reaction a b ≡ true → newer_reaction b a ≡ false
unfolding newer_reaction
newer_asym a b h = let hashes = bytes_after_asym a.hash b.hash in ground arith

newer_irrefl : (a : ReactionRow) → newer_reaction a a ≡ false
newer_irrefl a = elim (Bool-cases (newer_reaction a a)) [ inl e ↦ newer_asym a a e | inr e ↦ e ]

-- What the first loop keeps for a reactor of a subject.
unfoldable pub reactor_of : ℕ → Text → Subjects → Option ReactionRow
reactor_of s k [] = none
reactor_of s k ((t, m) ∷ ss) = if t == s then lookup k m else reactor_of s k ss

abbrev merge : ReactionRow → Option ReactionRow → ReactionRow
merge r none = r
merge r (some cur) = if newer_reaction r cur then r else cur

apart_sym : (a b : Text) → (a == b) ≡ false → (b == a) ≡ false
apart_sym a b e = elim (Bool-cases (text_beq b a)) [
  | inl f ↦ absurd (ground (arith, text_beq_sym b a f))
  | inr f ↦ f
]

lookup-put_reactor :
    (j k : Text) (r : ReactionRow) (m : Reactors)
    → lookup j (put_reactor k r m) ≡ (if k == j then some (merge r (lookup j m)) else lookup j m)
unfolding lookup put_reactor
lookup-put_reactor j k r [] = refl
lookup-put_reactor j k r ((i, cur) ∷ m) = elim (Bool-cases (i == k)) [
  | inl e ↦
      let same : (k == j) ≡ (i == j) = ap (λ z. z == j) (sym (text_beq-eq i k e)) in
      elim (Bool-cases (i == j)) [ inl f ↦ rw (e, same, f) refl | inr f ↦ rw (e, same, f) refl ]
  | inr e ↦ elim (Bool-cases (i == j)) [
    | inl f ↦
        let apart : (k == j) ≡ false =
          ap (λ z. k == z) (sym (text_beq-eq i j f)) ∙ apart_sym i k e in
        rw (e, f, apart) refl
    | inr f ↦ rw (e, f) (lookup-put_reactor j k r m)
  ]
]

module _ (cs : Casing) (s : ℕ) (k : Text) where
  -- The row is a reaction of the reactor on the subject.
  abbrev pub is_by : ReactionRow → Bool
  is_by r = r.subject_id == s && cs.to_lower r.from == k

  abbrev merged : ReactionRow → Option ReactionRow → Option ReactionRow
  merged r o = if is_by r then some (merge r o) else o

  reactor_of-put_row :
      (r : ReactionRow) (acc : Subjects)
      → reactor_of s k (put_row cs r acc) ≡ merged r (reactor_of s k acc)
  unfolding put_row reactor_of lookup
  reactor_of-put_row r [] =
      rw (lookup-put_reactor k (cs.to_lower r.from) r [])
        (elim (Bool-cases (r.subject_id == s)) [ inl e ↦ rw e refl | inr e ↦ rw e refl ])
  reactor_of-put_row r ((t, m) ∷ ss) = elim (Bool-cases (t == r.subject_id)) [
    | inl e ↦
        let same : (r.subject_id == s) ≡ (t == s) =
          ap (λ z. z == s) (sym ((nat_beq_iff t r.subject_id).0 e)) in
        elim (Bool-cases (t == s)) [
          | inl f ↦ rw (e, f, same ∙ f) (lookup-put_reactor k (cs.to_lower r.from) r m)
          | inr f ↦ rw (e, f, same ∙ f) refl
        ]
    | inr e ↦ elim (Bool-cases (t == s)) [
      | inl f ↦ let apart : (r.subject_id == s) ≡ false = ground arith in rw (e, f, apart) refl
      | inr f ↦ rw (e, f) (reactor_of-put_row r ss)
    ]
  ]

  best : Option ReactionRow → List ReactionRow → Option ReactionRow
  best o [] = o
  best o (r ∷ rows) = best (merged r o) rows

  reactor_of-gather :
      (acc : Subjects) (rows : List ReactionRow)
      → reactor_of s k (gather cs acc rows) ≡ best (reactor_of s k acc) rows
  unfolding gather best
  reactor_of-gather acc [] = refl
  reactor_of-gather acc (r ∷ rows) =
      reactor_of-gather (put_row cs r acc) rows ∙ ap (λ o. best o rows) (reactor_of-put_row r acc)

  -- A row that counts for the reactor: one of the rows or the one before them, and none is newer.
  record IsBest (o : Option ReactionRow) (rows : List ReactionRow) (r : ReactionRow) : Type 0 where
    source : (o ≡ some r) ⊎ (In r rows × (is_by r ≡ true))
    before : (c : ReactionRow) → o ≡ some c → newer_reaction c r ≡ false
    among : (q : ReactionRow) → In q rows → is_by q ≡ true → newer_reaction q r ≡ false

  merge-IsBest :
      (q : ReactionRow) (o : Option ReactionRow)
      → ((merge q o ≡ q) ⊎ (o ≡ some (merge q o)))
        × (newer_reaction q (merge q o) ≡ false)
        × ((c : ReactionRow) → o ≡ some c → newer_reaction c (merge q o) ≡ false)
  merge-IsBest q none = (inl refl, newer_irrefl q, λ c e. cc e)
  merge-IsBest q (some cur) = elim (Bool-cases (newer_reaction q cur)) [
    | inl e ↦ rw e (
      inl refl,
      newer_irrefl q,
      λ c h. subst (λ x. newer_reaction x q ≡ false) (some-eq h) (newer_asym q cur e),
    )
    | inr e ↦ rw e (
      inr refl,
      e,
      λ c h. subst (λ x. newer_reaction x cur ≡ false) (some-eq h) (newer_irrefl cur),
    )
  ]

  best-IsBest :
      (o : Option ReactionRow) (rows : List ReactionRow) (r : ReactionRow)
      → best o rows ≡ some r
      → IsBest o rows r
  unfolding best
  best-IsBest o [] r h = record {
    source = inl h;
    before = λ c e. subst (λ x. newer_reaction x r ≡ false) (some-eq (sym h ∙ e)) (newer_irrefl r);
    among = λ q m. absurd m;
  }
  best-IsBest o (q ∷ rows) r h = elim (Bool-cases (is_by q)) [
    | inr e ↦
        let b = best-IsBest o rows r (rw e at h) in
        record {
          source = elim b.source [ inl s ↦ inl s | inr (m, y) ↦ inr (inr m, y) ];
          before = b.before;
          among = λ x m y. elim m [
            | inl is ↦ cc (sym (subst (λ z. is_by z ≡ false) is e) ∙ y)
            | inr later ↦ b.among x later y
          ];
        }
    | inl e ↦
        let c = merge q o in
        let b : IsBest (some c) rows r = best-IsBest (some c) rows r (rw e at h) in
        let (either, own, older) = merge-IsBest q o in
        record {
          source = elim b.source [
            | inl kept ↦ elim either [
              | inl new ↦
                  let is = sym new ∙ some-eq kept in inr (inl is, subst (λ x. is_by x ≡ true) is e)
              | inr old ↦ inl (old ∙ kept)
            ]
            | inr (m, y) ↦ inr (inr m, y)
          ];
          before = λ d ed. not_newer_trans d c r (older d ed) (b.before c refl);
          among = λ x m y. elim m [
            | inl is ↦
                subst (λ z. newer_reaction z r ≡ false) is
                  (not_newer_trans q c r own (b.before c refl))
            | inr later ↦ b.among x later y
          ];
        }
  ]

  best-none :
      (o : Option ReactionRow) (rows : List ReactionRow)
      → best o rows ≡ none
      → (o ≡ none) × ((q : ReactionRow) → In q rows → is_by q ≡ false)
  unfolding best
  best-none o [] h = (h, λ q m. absurd m)
  best-none o (q ∷ rows) h = elim (Bool-cases (is_by q)) [
    | inl e ↦
        let given : best (some (merge q o)) rows ≡ none = rw e at h in
        cc ((best-none (some (merge q o)) rows given).0)
    | inr e ↦
        let (start, others) = best-none o rows (rw e at h) in
        (
          start,
          λ x m. elim m [ inl is ↦ subst (λ z. is_by z ≡ false) is e | inr later ↦ others x later ],
        )
  ]

  same_best : (rows : List ReactionRow) → reactor_of s k (gather cs [] rows) ≡ best none rows
  unfolding reactor_of
  same_best rows = reactor_of-gather [] rows

  -- What `effectiveReactions` keeps for a reactor of a subject, addresses compared in lower case,
  -- is one of the reactor's rows on the subject, and none of these supersedes it by time or, at the
  -- same time, by hash.
  pub effective_latest :
      (rows : List ReactionRow) (r : ReactionRow)
      → reactor_of s k (gather cs [] rows) ≡ some r
      → In r rows
        × (is_by r ≡ true)
        × ((q : ReactionRow) → In q rows → is_by q ≡ true → newer_reaction q r ≡ false)
  effective_latest rows r h =
      let b = best-IsBest none rows r (sym (same_best rows) ∙ h) in
      let found : In r rows × (is_by r ≡ true) = elim b.source [ inl e ↦ cc e | inr p ↦ p ] in
      (found.0, found.1, b.among)

  -- The first loop of `effectiveReactions` keeps a row for every reactor of a subject, also one whose
  -- reaction is empty: where it keeps none, no row is the reactor's on that subject.
  pub gather_complete :
      (rows : List ReactionRow) (q : ReactionRow)
      → reactor_of s k (gather cs [] rows) ≡ none
      → In q rows
      → is_by q ≡ false
  gather_complete rows q h = (best-none none rows (sym (same_best rows) ∙ h)).1 q
