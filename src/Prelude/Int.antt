-- ===== src/Prelude/Int.antt =====
-- Signed integers over the native numbers, and Go's int64 sum.
use Prim.Native.Nat.{ℕ, suc, ◌+◌, ◌-◌, ◌≤◌}
use mathlib.Core.Path.{◌≡◌}
use mathlib.Core.Bool.{Bool, false}
use native.Mathlib.Omega.{arith}
use fmsg_webapi.Prelude.Tests.{nat_beq, ltb, leb, if◌then◌else◌}

-- `negsuc n` is -(n + 1).
pub data ℤ : Type 0 where
  pos : ℕ → ℤ
  negsuc : ℕ → ℤ

abbrev pub pos_part : ℤ → ℕ
pos_part (pos n) = n
pos_part (negsuc n) = 0

abbrev pub neg_part : ℤ → ℕ
neg_part (pos n) = 0
neg_part (negsuc n) = suc n

-- a - b, as an integer.
abbrev pub sub_ℕ : ℕ → ℕ → ℤ
sub_ℕ a b = if leb b a then pos (a - b) else negsuc (b - a - 1)

infixl 65 ◌+ℤ◌
infix 50 ◌≤ℤ◌ ◌<ℤ◌
unfoldable pub ◌+ℤ◌ : ℤ → ℤ → ℤ
a +ℤ b = sub_ℕ (pos_part a + pos_part b) (neg_part a + neg_part b)

abbrev pub ◌≤ℤ◌ : ℤ → ℤ → Type 0
a ≤ℤ b = pos_part a + neg_part b ≤ pos_part b + neg_part a

abbrev pub ◌<ℤ◌ : ℤ → ℤ → Type 0
a <ℤ b = suc (pos_part a + neg_part b) ≤ pos_part b + neg_part a

abbrev pub ltb_ℤ : ℤ → ℤ → Bool
ltb_ℤ a b = ltb (pos_part a + neg_part b) (pos_part b + neg_part a)

abbrev pub eqb_ℤ : ℤ → ℤ → Bool
eqb_ℤ (pos a) (pos b) = nat_beq a b
eqb_ℤ (negsuc a) (negsuc b) = nat_beq a b
eqb_ℤ _ _ = false

-- The sum of two int64 values wraps at most once.
abbrev pub wrap64 : ℤ → ℤ
wrap64 a =
    if ltb_ℤ a (pos 0x8000_0000_0000_0000)
    then if ltb_ℤ a (negsuc 0x7FFF_FFFF_FFFF_FFFF) then a +ℤ pos 0x1_0000_0000_0000_0000 else a
    else a +ℤ negsuc 0xFFFF_FFFF_FFFF_FFFF

unfoldable pub add64 : ℤ → ℤ → ℤ
add64 a b = wrap64 (a +ℤ b)

pub +ℤ_parts :
    (a b : ℤ)
    → pos_part (a +ℤ b) + neg_part a + neg_part b ≡ neg_part (a +ℤ b) + pos_part a + pos_part b
unfolding ◌+ℤ◌
+ℤ_parts a b = ground arith

pub eq_of_parts : (a b : ℤ) → pos_part a + neg_part b ≡ pos_part b + neg_part a → a ≡ b
eq_of_parts a b h = ground arith

-- In range the wrapped sum is the sum.
pub add64-eq :
    (a b : ℤ)
    → a +ℤ b <ℤ pos 0x8000_0000_0000_0000
    → negsuc 0x7FFF_FFFF_FFFF_FFFF ≤ℤ a +ℤ b
    → add64 a b ≡ a +ℤ b
unfolding add64
add64-eq a b h k = ground arith
