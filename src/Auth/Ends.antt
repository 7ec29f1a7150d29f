-- ===== src/Auth/Ends.antt =====
-- Reasoning about results of the verifier: what holds of a value, and what holds of an error.
use fmsg_webapi.Prelude.{◌≡◌, refl, subst, Bool, true, false, Option, none, some, if◌then◌else◌}
use fmsg_webapi.Auth.Types.{AuthErr, Result, ok, err, ◌>>=◌, guard, or_fail, unless}

-- `P` holds of the value, or `E` of the error.
abbrev pub Ends {ℓ} : {A : Type ℓ} → (A → Type 0) → (AuthErr → Type 0) → Result A → Type 0
Ends P E (ok a) = P a
Ends P E (err e) = E e

module _ {ℓ} {A : Type ℓ} (P : A → Type 0) (E : AuthErr → Type 0) where
  pub Ends-bind {κ} :
      {B : Type κ} (Q : B → Type 0) (m : Result B) (f : B → Result A)
      → Ends Q E m
      → ((b : B) → Q b → Ends P E (f b))
      → Ends P E (m >>= f)
  Ends-bind Q (ok b) f h k = k b h
  Ends-bind Q (err e) f h k = h

  pub Ends-if :
      (b : Bool) (x y : Result A)
      → (b ≡ true → Ends P E x)
      → (b ≡ false → Ends P E y)
      → Ends P E (if b then x else y)
  Ends-if true x y h k = h refl
  Ends-if false x y h k = k refl

  pub Ends-guard :
      (b : Bool) (e : AuthErr) (m : Result A)
      → (b ≡ false → E e)
      → (b ≡ true → Ends P E m)
      → Ends P E (guard b e >>= λ _. m)
  Ends-guard true e m h k = k refl
  Ends-guard false e m h k = h refl

  pub Ends-or_fail {κ} :
      {B : Type κ} (o : Option B) (e : AuthErr) (f : B → Result A)
      → (o ≡ none → E e)
      → ((b : B) → o ≡ some b → Ends P E (f b))
      → Ends P E (or_fail o e >>= f)
  Ends-or_fail none e f h k = h refl
  Ends-or_fail (some b) e f h k = k b refl

  pub Ends-unless :
      (o : Option AuthErr) (m : Result A)
      → ((e : AuthErr) → o ≡ some e → E e)
      → (o ≡ none → Ends P E m)
      → Ends P E (unless o >>= λ _. m)
  Ends-unless none m h k = k refl
  Ends-unless (some e) m h k = h e refl

  pub Ends-ok : (m : Result A) {a : A} → Ends P E m → m ≡ ok a → P a
  Ends-ok m h e = subst (Ends P E) e h

  pub Ends-err : (m : Result A) {e : AuthErr} → Ends P E m → m ≡ err e → E e
  Ends-err m h e = subst (Ends P E) e h

-- Stronger facts about the value and the error serve.
pub Ends-weaken {ℓ} :
    {A : Type ℓ} (P Q : A → Type 0) (E F : AuthErr → Type 0) (m : Result A)
    → ((a : A) → P a → Q a)
    → ((e : AuthErr) → E e → F e)
    → Ends P E m
    → Ends Q F m
Ends-weaken P Q E F (ok a) k l h = k a h
Ends-weaken P Q E F (err e) k l h = l e h
