-- ===== src/Reactions/Recipients.antt =====
-- Who receives a reaction: `reactionRecipients` of internal/handlers/reactions.go.
use fmsg_webapi.Prelude.{
  ◌≡◌, refl, sym, ap, ◌∙◌, subst, ◌≢◌, ◌⊎◌, inl, inr, true, false, List, [], ◌∷◌, map, arith,
  Bool-cases, In, ◌==◌, nat_eq, Text, text_beq-eq, text_eq, Bool-cases,
}
use fmsg_webapi.Strings.{Casing, contains}
use fmsg_webapi.Strings.Laws.{In-contains}
use fmsg_webapi.Reactions.{Subject, participants, add_unseen, reaction_recipients}

In-map :
    (f : Text → Text) (xs : List Text) {b : Text}
    → In b (map f xs)
    → (a : Text) × In a xs × (f a ≡ b)
In-map f [] m = absurd m
In-map f (x ∷ xs) (inl e) = (x, inl refl, e)
In-map f (x ∷ xs) (inr m) = let (a, n, e) = In-map f xs m in (a, inr n, e)

module _ (cs : Casing) where
  abbrev pub keys : List Text → List Text
  keys as_given = map cs.to_lower as_given

  -- No key stands twice.
  abbrev pub IsDistinct : List Text → Type 0
  IsDistinct [] = Unit
  IsDistinct (k ∷ ks) = ¬ In k ks × IsDistinct ks

  nothing_seen : (x : Text) → contains x [] ≡ false
  unfolding contains
  nothing_seen x = refl

  unseen_tail :
      (seen : List Text) (a x : Text)
      → contains (cs.to_lower x) (cs.to_lower a ∷ seen) ≡ false
      → contains (cs.to_lower x) seen ≡ false
  unfolding contains
  unseen_tail seen a x h = ground arith

  unseen_split :
      (seen : List Text) (a x : Text)
      → contains (cs.to_lower x) (cs.to_lower a ∷ seen) ≡ true
      → (cs.to_lower a ≡ cs.to_lower x) ⊎ (contains (cs.to_lower x) seen ≡ true)
  unfolding contains
  unseen_split seen a x h = elim (Bool-cases (cs.to_lower a == cs.to_lower x)) [
    | inl e ↦ inl (text_beq-eq (cs.to_lower a) (cs.to_lower x) e)
    | inr e ↦ inr (rw e at h)
  ]

  unseen_sound :
      (seen given : List Text) (x : Text)
      → In x (add_unseen cs seen given)
      → In x given × (contains (cs.to_lower x) seen ≡ false)
  unfolding add_unseen
  unseen_sound seen [] x m = absurd m
  unseen_sound seen (a ∷ given) x m = elim (Bool-cases (contains (cs.to_lower a) seen)) [
    | inl e ↦
        let later : In x (add_unseen cs seen given) = rw (e, add_unseen) at m in
        let r = unseen_sound seen given x later in (inr r.0, r.1)
    | inr e ↦
        let n : In x (a ∷ add_unseen cs (cs.to_lower a ∷ seen) given) = rw (e, add_unseen) at m in
        elim n [
          | inl is ↦ (inl is, subst (λ y. contains (cs.to_lower y) seen ≡ false) is e)
          | inr later ↦
              let r = unseen_sound (cs.to_lower a ∷ seen) given x later in
              (inr r.0, unseen_tail seen a x r.1)
        ]
  ]

  unseen_all :
      (seen given : List Text) (x : Text)
      → In x given
      → (contains (cs.to_lower x) seen ≡ true)
        ⊎ In (cs.to_lower x) (keys (add_unseen cs seen given))
  unfolding add_unseen
  unseen_all seen [] x m = absurd m
  unseen_all seen (a ∷ given) x m = elim (Bool-cases (contains (cs.to_lower a) seen)) [
    | inl e ↦ elim m [
      | inl is ↦ inl (subst (λ y. contains (cs.to_lower y) seen ≡ true) is e)
      | inr later ↦ rw (e, add_unseen) (unseen_all seen given x later)
    ]
    | inr e ↦ elim m [
      | inl is ↦ rw (e, add_unseen) (inr (inl (ap cs.to_lower is)))
      | inr later ↦ elim (unseen_all (cs.to_lower a ∷ seen) given x later) [
        | inr k ↦ rw (e, add_unseen) (inr (inr k))
        | inl c ↦ elim (unseen_split seen a x c) [
          | inl same ↦ rw (e, add_unseen) (inr (inl same))
          | inr old ↦ inl old
        ]
      ]
    ]
  ]

  unseen_fresh :
      (seen : List Text) (a : Text) (given : List Text)
      → ¬ In (cs.to_lower a) (keys (add_unseen cs (cs.to_lower a ∷ seen) given))
  unseen_fresh seen a given m =
      let (x, n, same) = In-map cs.to_lower _ m in
      let out = (unseen_sound (cs.to_lower a ∷ seen) given x n).1 in
      cc (
        sym (subst (λ k. contains k (cs.to_lower a ∷ seen) ≡ false) same out)
        ∙ In-contains (cs.to_lower a) (cs.to_lower a ∷ seen) (inl refl))

  unseen-IsDistinct : (seen given : List Text) → IsDistinct (keys (add_unseen cs seen given))
  unfolding add_unseen
  unseen-IsDistinct seen [] = tt
  unseen-IsDistinct seen (a ∷ given) = elim (Bool-cases (contains (cs.to_lower a) seen)) [
    | inl e ↦ rw (e, add_unseen) (unseen-IsDistinct seen given)
    | inr e ↦
        rw (e, add_unseen)
          (unseen_fresh seen a given, unseen-IsDistinct (cs.to_lower a ∷ seen) given)
  ]

  -- A reaction goes to every participant of its subject but the reactor, to nobody else, and to
  -- none of them twice, addresses compared in lower case.
  pub recipients_exact :
      (s : Subject) (reactor : Text)
      → ((a : Text)
          → In a (participants s)
          → (cs.to_lower reactor ≡ cs.to_lower a)
            ⊎ In (cs.to_lower a) (keys (reaction_recipients cs s reactor)))
        × ((x : Text)
            → In x (reaction_recipients cs s reactor)
            → In x (participants s) × (cs.to_lower reactor ≢ cs.to_lower x))
        × IsDistinct (keys (reaction_recipients cs s reactor))
  unfolding reaction_recipients
  recipients_exact s reactor =
      let me = cs.to_lower reactor in
      (
        λ a m. elim (unseen_all (me ∷ []) (participants s) a m) [
          | inr k ↦ inr k
          | inl c ↦ elim (unseen_split [] reactor a c) [
            | inl e ↦ inl e
            | inr e ↦ cc (sym e ∙ nothing_seen (cs.to_lower a))
          ]
        ],
        λ x m.
            let (given, out) = unseen_sound (me ∷ []) (participants s) x m in
            (given, λ same. cc (sym out ∙ In-contains (cs.to_lower x) (me ∷ []) (inl same))),
        unseen-IsDistinct (me ∷ []) (participants s),
      )
