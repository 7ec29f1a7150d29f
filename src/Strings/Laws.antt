-- ===== src/Strings/Laws.antt =====
-- Laws of the string functions.
use fmsg_webapi.Prelude.{
  ℕ, ◌≡◌, inl, inr, true, false, List, [], ◌∷◌, ◌++◌, arith, Bool-cases, In, ◌==◌, nat_eq, Text,
  text_beq_refl, text_beq-eq, text_eq,
}
use mathlib.Core.List.{append-nil, append_assoc}
use fmsg_webapi.Strings.{contains, contains_byte, split, split_from}

-- Membership and its test agree.
pub contains-In : (x : Text) (ys : List Text) → contains x ys ≡ true → In x ys
unfolding contains
contains-In x [] h = cc
contains-In x (y ∷ ys) h = elim (Bool-cases (y == x)) [
  | inl e ↦ inl (text_beq-eq y x e)
  | inr e ↦ inr (contains-In x ys (rw e at h))
]

pub In-contains : (x : Text) (ys : List Text) → In x ys → contains x ys ≡ true
unfolding contains
In-contains x [] m = absurd m
In-contains x (y ∷ ys) (inl e) = rw (e, text_beq_refl x)
In-contains x (y ∷ ys) (inr m) = rw (In-contains x ys m) (ground arith)

-- A text without the separator is one piece.
split_from_none :
    (b : ℕ) (cur s : Text) → contains_byte b s ≡ false → split_from b cur s ≡ (cur ++ s) ∷ []
unfolding split_from contains_byte
split_from_none b cur [] h = rw (append-nil cur)
split_from_none b cur (c ∷ s) h =
    ground (arith, split_from_none b (cur ++ c ∷ []) s, append_assoc cur (c ∷ []) s)

-- The first separator ends the first piece.
split_from_piece :
    (b : ℕ) (cur s rest : Text)
    → contains_byte b s ≡ false
    → split_from b cur (s ++ b ∷ rest) ≡ (cur ++ s) ∷ split_from b [] rest
unfolding split_from contains_byte
split_from_piece b cur [] rest h = ground (arith, append-nil cur)
split_from_piece b cur (c ∷ s) rest h =
    ground (arith, split_from_piece b (cur ++ c ∷ []) s rest, append_assoc cur (c ∷ []) s)

pub split_none : (b : ℕ) (s : Text) → contains_byte b s ≡ false → split b s ≡ s ∷ []
unfolding split
split_none b s h = split_from_none b [] s h

pub split_piece :
    (b : ℕ) (s rest : Text) → contains_byte b s ≡ false → split b (s ++ b ∷ rest) ≡ s ∷ split b rest
unfolding split
split_piece b s rest h = split_from_piece b [] s rest h
