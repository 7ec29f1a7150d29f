-- ===== src/Prelude/Classes.antt =====
-- Equality tests as an interface: one operator for numbers, texts and pairs of these.
use Prim.Native.Nat.{ℕ}
use Prim.Native.Char.{code}
use Prim.Native.String.{String}
use mathlib.Core.Path.{◌≡◌, refl, sym, ap₂}
use mathlib.Core.Logic.{◌↔◌}
use mathlib.Core.Bool.{Bool, true, false, ◌&&◌}
use mathlib.Core.List.{List, [], ◌∷◌}
use native.Mathlib.Omega.{arith}
use fmsg_webapi.Prelude.Tests.{nat_beq, nat_beq_iff, &&_both}

-- A Go string: its bytes.
abbrev pub Text : Type 0
Text = List ℕ

-- The bytes of an ASCII literal.
abbrev pub codes : String → Text
codes String.[] = []
codes (String.◌∷◌ c s) = code c ∷ codes s

pub record Eq {ℓ} (A : Type ℓ) : Type ℓ where
  pub beq : A → A → Bool
  pub beq_iff : (a b : A) → (beq a b ≡ true) ↔ (a ≡ b)

instance abbrev pub nat_eq : Eq ℕ
nat_eq = record { beq = nat_beq; beq_iff = nat_beq_iff }

abbrev pub text_beq : Text → Text → Bool
text_beq [] [] = true
text_beq (a ∷ s) (b ∷ t) = nat_beq a b && text_beq s t
text_beq _ _ = false

pub text_beq_refl : (s : Text) → text_beq s s ≡ true
text_beq_refl [] = refl
text_beq_refl (a ∷ s) = ground (arith, text_beq_refl s)

pub text_beq-eq : (s t : Text) → text_beq s t ≡ true → s ≡ t
text_beq-eq [] [] h = refl
text_beq-eq (a ∷ s) (b ∷ t) h =
    let (same, rest) = &&_both (nat_beq a b) (text_beq s t) h in
    ap₂ ◌∷◌ ((nat_beq_iff a b).0 same) (text_beq-eq s t rest)
text_beq-eq [] (b ∷ t) h = cc
text_beq-eq (a ∷ s) [] h = cc

pub text_beq_iff : (s t : Text) → (text_beq s t ≡ true) ↔ (s ≡ t)
text_beq_iff s t = (text_beq-eq s t, λ e. rw e (text_beq_refl t))

infix 50 ◌==◌
abbrev pub ◌==◌ {ℓ} : {A : Type ℓ} ⦃e : Eq A⦄ → A → A → Bool
◌==◌ ⦃e⦄ = e.beq

instance abbrev pub text_eq : Eq Text
text_eq = record { beq = text_beq; beq_iff = text_beq_iff }

pub beq_self {ℓ} : {A : Type ℓ} ⦃e : Eq A⦄ (a : A) → (a == a) ≡ true
beq_self ⦃e⦄ a = (e.beq_iff a a).1 refl

pub text_beq_sym : (s t : Text) → text_beq s t ≡ true → text_beq t s ≡ true
text_beq_sym s t h = (text_beq_iff t s).1 (sym (text_beq-eq s t h))
