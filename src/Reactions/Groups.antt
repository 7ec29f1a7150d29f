-- ===== src/Reactions/Groups.antt =====
-- Every effective reaction is listed: the second half of `effectiveReactions` of
-- internal/handlers/reactions.go.
use mathlib.Core.Path.{◌∙◌}
use fmsg_webapi.Prelude.{
  ℕ, ◌≡◌, refl, sym, ap, subst, ◌⊎◌, inl, inr, true, false, not, some, List, [], ◌∷◌, ◌++◌, map,
  nat_beq_iff, Bool-cases, Option-cases, some-eq, In, ◌==◌, nat_eq, Text, text_beq_iff, text_eq,
  Bool-cases, In-keep,
}
use fmsg_webapi.Reactions.Latest.{reactor_of, is_by, gather_complete}
use fmsg_webapi.Auth.Scopes.{lookup}
use fmsg_webapi.Reactions.{
  effective_reactions, Reactors, ReactionRow, Casing, Subjects, Reaction, sort_rows, is_empty,
  insert_row, is_nil, comes_before, with_groups, group, groups_of, add_to_group, gather,
}

-- A group of the reaction's emoji has the reactor.
pub record IsListed (r : ReactionRow) (gs : List Reaction) : Type 0 where
  pub one : Reaction
  pub there : In one gs
  pub same_emoji : one.emoji ≡ r.emoji
  pub reactor : In r.from one.from

later-IsListed :
    (r : ReactionRow) (g : Reaction) (gs : List Reaction) → IsListed r gs → IsListed r (g ∷ gs)
later-IsListed r g gs h = record {
  one = h.one;
  there = inr h.there;
  same_emoji = h.same_emoji;
  reactor = h.reactor;
}

In-last : {A : Type 0} (xs : List A) (a : A) → In a (xs ++ a ∷ [])
In-last [] a = inl refl
In-last (x ∷ xs) a = inr (In-last xs a)

In-before : {A : Type 0} (xs ys : List A) (a : A) → In a xs → In a (xs ++ ys)
In-before [] ys a m = absurd m
In-before (x ∷ xs) ys a (inl e) = inl e
In-before (x ∷ xs) ys a (inr m) = inr (In-before xs ys a m)

added-IsListed : (r : ReactionRow) (gs : List Reaction) → IsListed r (add_to_group r gs)
added-IsListed r [] = record {
  one = record { emoji = r.emoji; from = r.from ∷ [] };
  there = inl refl;
  same_emoji = refl;
  reactor = inl refl;
}
added-IsListed r (g ∷ gs) = elim (Bool-cases (g.emoji == r.emoji)) [
  | inl e ↦ rw e (record {
    one = record g { from = g.from ++ r.from ∷ [] };
    there = inl refl;
    same_emoji = (text_beq_iff g.emoji r.emoji).0 e;
    reactor = In-last g.from r.from;
  })
  | inr e ↦ rw e (later-IsListed r g (add_to_group r gs) (added-IsListed r gs))
]

-- Another reaction takes nobody out.
kept-IsListed :
    (r x : ReactionRow) (gs : List Reaction) (g : Reaction)
    → In g gs
    → g.emoji ≡ r.emoji
    → In r.from g.from
    → IsListed r (add_to_group x gs)
kept-IsListed r x [] g m e f = absurd m
kept-IsListed r x (h ∷ gs) g (inl is) e f =
    let same : h.emoji ≡ r.emoji = ap (λ (y : Reaction). y.emoji) is ∙ e in
    let has : In r.from h.from = subst (λ (y : Reaction). In r.from y.from) (sym is) f in
    elim (Bool-cases (h.emoji == x.emoji)) [
      | inl q ↦ rw q (record {
        one = record h { from = h.from ++ x.from ∷ [] };
        there = inl refl;
        same_emoji = same;
        reactor = In-before h.from (x.from ∷ []) r.from has;
      })
      | inr q ↦ rw q (record { one = h; there = inl refl; same_emoji = same; reactor = has })
    ]
kept-IsListed r x (h ∷ gs) g (inr m) e f = elim (Bool-cases (h.emoji == x.emoji)) [
  | inl q ↦ rw q (record { one = g; there = inr m; same_emoji = e; reactor = f })
  | inr q ↦ rw q (later-IsListed r h (add_to_group x gs) (kept-IsListed r x gs g m e f))
]

group_on-IsListed :
    (r : ReactionRow) (rs : List ReactionRow) (gs : List Reaction)
    → IsListed r gs
    → IsListed r (group gs rs)
group_on-IsListed r [] gs h = h
group_on-IsListed r (x ∷ rs) gs h =
    group_on-IsListed r rs (add_to_group x gs)
      (kept-IsListed r x gs h.one h.there h.same_emoji h.reactor)

group-IsListed :
    (r : ReactionRow) (rs : List ReactionRow) (gs : List Reaction)
    → In r rs
    → IsListed r (group gs rs)
group-IsListed r [] gs m = absurd m
group-IsListed r (x ∷ rs) gs (inl e) =
    group_on-IsListed r rs (add_to_group x gs)
      (subst (λ y. IsListed y (add_to_group x gs)) e (added-IsListed x gs))
group-IsListed r (x ∷ rs) gs (inr m) = group-IsListed r rs (add_to_group x gs) m

In-insert_row : (r x : ReactionRow) (rs : List ReactionRow) → In r (x ∷ rs) → In r (insert_row x rs)
In-insert_row r x [] m = m
In-insert_row r x (y ∷ rs) m = elim (Bool-cases (comes_before x y)) [
  | inl e ↦ rw e m
  | inr e ↦ rw e (elim m [
    | inl is ↦ inr (In-insert_row r x rs (inl is))
    | inr (inl is) ↦ inl is
    | inr (inr n) ↦ inr (In-insert_row r x rs (inr n))
  ])
]

In-sort_rows : (r : ReactionRow) (rs : List ReactionRow) → In r rs → In r (sort_rows rs)
In-sort_rows r [] m = absurd m
In-sort_rows r (x ∷ rs) (inl e) = In-insert_row r x (sort_rows rs) (inl e)
In-sort_rows r (x ∷ rs) (inr m) = In-insert_row r x (sort_rows rs) (inr (In-sort_rows r rs m))

lookup-In :
    (k : Text) (m : Reactors) (r : ReactionRow)
    → lookup k m ≡ some r
    → In r (map (λ (p : Text × ReactionRow). p.1) m)
unfolding lookup
lookup-In k [] r h = cc h
lookup-In k ((j, cur) ∷ m) r h = elim (Bool-cases (j == k)) [
  | inl e ↦ inl (some-eq (rw e at h))
  | inr e ↦ inr (lookup-In k m r (rw e at h))
]

groups_of-IsListed :
    (k : Text) (m : Reactors) (r : ReactionRow)
    → lookup k m ≡ some r
    → is_empty r.emoji ≡ false
    → IsListed r (groups_of m)
groups_of-IsListed k m r h e = group-IsListed r _ [] (
    In-sort_rows r _ (
      In-keep (λ (x : ReactionRow). not (is_empty x.emoji))
        (map (λ (p : Text × ReactionRow). p.1) m) (lookup-In k m r h) (ap not e)))

listed-some : (r : ReactionRow) (gs : List Reaction) → IsListed r gs → is_nil gs ≡ false
listed-some r [] h = absurd h.there
listed-some r (g ∷ gs) h = refl

-- The reactions listed for a subject have the reactor.
pub record IsShownAs (s : ℕ) (r : ReactionRow) (out : List (ℕ × List Reaction)) : Type 0 where
  pub groups : List Reaction
  pub there : In (s, groups) out
  pub listed : IsListed r groups

with_groups-IsShownAs :
    (s : ℕ) (k : Text) (ss : Subjects) (r : ReactionRow)
    → reactor_of s k ss ≡ some r
    → is_empty r.emoji ≡ false
    → IsShownAs s r (with_groups ss)
unfolding reactor_of
with_groups-IsShownAs s k [] r h e = cc h
with_groups-IsShownAs s k ((t, m) ∷ ss) r h e = elim (Bool-cases (t == s)) [
  | inl q ↦
      let listed = groups_of-IsListed k m r (rw q at h) e in
      rw (listed-some r (groups_of m) listed) (record {
        groups = groups_of m;
        there = inl (ap (λ x. (x, groups_of m)) ((nat_beq_iff t s).0 q));
        listed = listed;
      })
  | inr q ↦
      let rest = with_groups-IsShownAs s k ss r (rw q at h) e in
      elim (Bool-cases (is_nil (groups_of m))) [
        | inl n ↦ rw n rest
        | inr n ↦
            rw n (record { groups = rest.groups; there = inr rest.there; listed = rest.listed })
      ]
]

-- `effectiveReactions` leaves no reactor out: of one with a reaction on a subject, it keeps one, and
-- lists the reactor for that subject under the emoji of the reaction that it keeps, unless this has
-- no emoji, which takes the reaction back.
pub effective_complete :
    (cs : Casing) (rows : List ReactionRow) (s : ℕ) (k : Text) (q : ReactionRow)
    → In q rows
    → is_by cs s k q ≡ true
    → (r : ReactionRow) × (reactor_of s k (gather cs [] rows) ≡ some r)
      × ((is_empty r.emoji ≡ true) ⊎ IsShownAs s r (effective_reactions cs rows))
unfolding effective_reactions
effective_complete cs rows s k q m by = elim (Option-cases (reactor_of s k (gather cs [] rows))) [
  | inl n ↦ cc (sym (gather_complete cs s k rows q n m) ∙ by)
  | inr (r, h) ↦ elim (Bool-cases (is_empty r.emoji)) [
    | inl e ↦ (r, h, inl e)
    | inr e ↦ (r, h, inr (with_groups-IsShownAs s k (gather cs [] rows) r h e))
  ]
]
