-- ===== src/Hub/Registry.antt =====
-- The registry of internal/handlers/hub.go over any sequence of registrations.
use fmsg_webapi.Prelude.{
  ℕ, ◌≡◌, refl, sym, ap, ◌∙◌, subst, inl, inr, Bool, true, false, not, ◌&&◌, ◌||◌, none, some, List,
  [], ◌∷◌, arith, nat_beq_iff, Bool-cases, ◌==◌, nat_eq, Text, text_beq, text_beq_refl, text_beq-eq,
  text_eq, text_beq_sym, Bool-cases,
}
use fmsg_webapi.Strings.{is_nil}
use fmsg_webapi.Auth.Scopes.{lookup}
use fmsg_webapi.Hub.{
  from_entry, Registry, is_member, insert, without, register, unregister, clients_at,
}

pub data Event : Type 0 where
  registered unregistered : ℕ → Text → Event

-- The registry after some events, the latest first.
pub after_events : List Event → Registry
after_events [] = []
after_events (registered c addr ∷ es) = register c addr (after_events es)
after_events (unregistered c addr ∷ es) = unregister c addr (after_events es)

-- Whether the last event of a connection under an address registered it.
pub is_connected : ℕ → Text → List Event → Bool
is_connected c addr [] = false
is_connected c addr (registered d a ∷ es) = (d == c && a == addr) || is_connected c addr es
is_connected c addr (unregistered d a ∷ es) = not (d == c && a == addr) && is_connected c addr es

abbrev Unique : Registry → Type 0
Unique [] = Unit
Unique ((a, set) ∷ r) = (lookup a r ≡ none) × Unique r

is_member-insert : (c d : ℕ) (set : List ℕ) → is_member c (insert d set) ≡ d == c || is_member c set
is_member-insert c d set = elim (Bool-cases (is_member d set)) [
  | inl e ↦ elim (Bool-cases (d == c)) [
    | inl f ↦ rw (e, f) (subst (λ z. is_member z set ≡ true) ((nat_beq_iff d c).0 f) e)
    | inr f ↦ rw (e, f) refl
  ]
  | inr e ↦ rw e refl
]

is_member-without :
    (c d : ℕ) (set : List ℕ) → is_member c (without d set) ≡ not (d == c) && is_member c set
is_member-without c d [] = ground arith
is_member-without c d (x ∷ set) = let rest = is_member-without c d set in ground arith

beq_flip : (k b : Text) → (k == b) ≡ false → (b == k) ≡ false
beq_flip k b e = elim (Bool-cases (text_beq b k)) [
  | inl f ↦ absurd (ground (arith, text_beq_sym b k f))
  | inr f ↦ f
]

lookup-register :
    (d : ℕ) (a b : Text) (r : Registry) → (b == a) ≡ false → lookup a (register d b r) ≡ lookup a r
unfolding register lookup
lookup-register d a b [] h = rw h refl
lookup-register d a b ((k, set) ∷ r) h = elim (Bool-cases (k == b)) [
  | inl e ↦ let f : (k == a) ≡ false = ap (λ z. z == a) (text_beq-eq k b e) ∙ h in rw (e, f) refl
  | inr e ↦ elim (Bool-cases (k == a)) [
    | inl f ↦ rw (e, f) refl
    | inr f ↦ rw (e, f) (lookup-register d a b r h)
  ]
]

hit :
    (k b : Text) (set : List ℕ) (r : Registry)
    → (k == b) ≡ true
    → lookup b ((k, set) ∷ r) ≡ some set
unfolding lookup
hit k b set r e = rw e refl

at_of : (a : Text) (r : Registry) → clients_at a r ≡ from_entry (lookup a r)
at_of a r = refl

miss :
    (k b : Text) (set : List ℕ) (r : Registry)
    → (k == b) ≡ false
    → lookup b ((k, set) ∷ r) ≡ lookup b r
unfolding lookup
miss k b set r e = rw e refl

lookup-register_same :
    (d : ℕ) (b : Text) (r : Registry) → lookup b (register d b r) ≡ some (insert d (clients_at b r))
unfolding register lookup
lookup-register_same d b [] = rw (text_beq_refl b) refl
lookup-register_same d b ((k, set) ∷ r) = elim (Bool-cases (k == b)) [
  | inl e ↦
      let left : lookup b (register d b ((k, set) ∷ r)) ≡ some (insert d set) =
        rw (e, register) (hit k b (insert d set) r e) in
      left
      ∙ ap (λ o. some (insert d (from_entry o))) (sym (hit k b set r e))
      ∙ ap (λ l. some (insert d l)) (sym (at_of b ((k, set) ∷ r)))
  | inr e ↦
      let left : register d b ((k, set) ∷ r) ≡ (k, set) ∷ register d b r = rw (e, register) refl in
      ap (lookup b) left
      ∙ miss k b set (register d b r) e
      ∙ lookup-register_same d b r
      ∙ ap (λ o. some (insert d (from_entry o))) (sym (miss k b set r e))
]

lookup-unregister :
    (d : ℕ) (a b : Text) (r : Registry)
    → (b == a) ≡ false
    → lookup a (unregister d b r) ≡ lookup a r
unfolding unregister lookup
lookup-unregister d a b [] h = refl
lookup-unregister d a b ((k, set) ∷ r) h = elim (Bool-cases (k == b)) [
  | inl e ↦
      let f : (k == a) ≡ false = ap (λ z. z == a) (text_beq-eq k b e) ∙ h in
      elim (Bool-cases (is_nil (without d set))) [
        | inl g ↦ rw (e, g) (rw f refl)
        | inr g ↦ rw (e, g) (rw f refl)
      ]
  | inr e ↦ elim (Bool-cases (k == a)) [
    | inl f ↦ rw (e, f) refl
    | inr f ↦ rw (e, f) (lookup-unregister d a b r h)
  ]
]

nil_of : (set : List ℕ) → is_nil set ≡ true → set ≡ []
nil_of [] h = refl
nil_of (x ∷ set) h = cc h

clients-unregister :
    (d : ℕ) (b : Text) (r : Registry)
    → Unique r
    → clients_at b (unregister d b r) ≡ without d (clients_at b r)
unfolding unregister lookup
clients-unregister d b [] u = refl
clients-unregister d b ((k, set) ∷ r) (fresh, u) = elim (Bool-cases (k == b)) [
  | inl e ↦
      let before : clients_at b ((k, set) ∷ r) ≡ set =
        at_of b ((k, set) ∷ r) ∙ ap from_entry (hit k b set r e) in
      elim (Bool-cases (is_nil (without d set))) [
        | inl g ↦
            let gone : lookup b r ≡ none =
              subst (λ z. lookup z r ≡ none) (text_beq-eq k b e) fresh in
            let left : unregister d b ((k, set) ∷ r) ≡ r = rw (e, g, unregister) refl in
            ap (clients_at b) left
            ∙ at_of b r
            ∙ ap from_entry gone
            ∙ sym (nil_of (without d set) g)
            ∙ ap (without d) (sym before)
        | inr g ↦
            let left : unregister d b ((k, set) ∷ r) ≡ (k, without d set) ∷ r =
              rw (e, g, unregister) refl in
            ap (clients_at b) left
            ∙ at_of b ((k, without d set) ∷ r)
            ∙ ap from_entry (hit k b (without d set) r e)
            ∙ ap (without d) (sym before)
      ]
  | inr e ↦
      let left : unregister d b ((k, set) ∷ r) ≡ (k, set) ∷ unregister d b r =
        rw (e, unregister) refl in
      ap (clients_at b) left
      ∙ ap from_entry (miss k b set (unregister d b r) e)
      ∙ clients-unregister d b r u
      ∙ ap (λ o. without d (from_entry o)) (sym (miss k b set r e))
]

Unique-register : (d : ℕ) (b : Text) (r : Registry) → Unique r → Unique (register d b r)
unfolding register lookup
Unique-register d b [] u = (refl, tt)
Unique-register d b ((k, set) ∷ r) (fresh, u) = elim (Bool-cases (k == b)) [
  | inl e ↦ rw e (fresh, u)
  | inr e ↦ rw e (lookup-register d k b r (beq_flip k b e) ∙ fresh, Unique-register d b r u)
]

Unique-unregister : (d : ℕ) (b : Text) (r : Registry) → Unique r → Unique (unregister d b r)
unfolding unregister lookup
Unique-unregister d b [] u = tt
Unique-unregister d b ((k, set) ∷ r) (fresh, u) = elim (Bool-cases (k == b)) [
  | inl e ↦ elim (Bool-cases (is_nil (without d set))) [
    | inl g ↦ rw (e, g) u
    | inr g ↦ rw (e, g) (fresh, u)
  ]
  | inr e ↦ rw e (lookup-unregister d k b r (beq_flip k b e) ∙ fresh, Unique-unregister d b r u)
]

Unique-after : (es : List Event) → Unique (after_events es)
unfolding after_events
Unique-after [] = tt
Unique-after (registered d b ∷ es) = Unique-register d b (after_events es) (Unique-after es)
Unique-after (unregistered d b ∷ es) = Unique-unregister d b (after_events es) (Unique-after es)

-- After any registrations and unregistrations, the hub sends what is for an address to exactly the
-- connections whose last event under that address was a registration.
pub connected_lem :
    (es : List Event) (c : ℕ) (a : Text)
    → is_member c (clients_at a (after_events es)) ≡ is_connected c a es
unfolding after_events is_connected lookup
connected_lem [] c a = refl
connected_lem (registered d b ∷ es) c a =
    let rest = connected_lem es c a in
    let r = after_events es in
    elim (Bool-cases (b == a)) [
      | inr e ↦
          let same : clients_at a (register d b r) ≡ clients_at a r =
            at_of a (register d b r)
            ∙ ap from_entry (lookup-register d a b r e)
            ∙ sym (at_of a r) in
          let whole = ap (is_member c) same ∙ rest in rw e (whole ∙ ground arith)
      | inl e ↦
          let is = text_beq-eq b a e in
          let added : clients_at b (register d b r) ≡ insert d (clients_at b r) =
            at_of b (register d b r) ∙ ap from_entry (lookup-register_same d b r) in
          let moved =
            subst (λ z. clients_at z (register d b r) ≡ insert d (clients_at z r)) is added in
          let whole = ap (is_member c) moved ∙ is_member-insert c d (clients_at a r) in
          rw e (whole ∙ rw rest (ground arith))
    ]
connected_lem (unregistered d b ∷ es) c a =
    let rest = connected_lem es c a in
    let r = after_events es in
    elim (Bool-cases (b == a)) [
      | inr e ↦
          let same : clients_at a (unregister d b r) ≡ clients_at a r =
            at_of a (unregister d b r)
            ∙ ap from_entry (lookup-unregister d a b r e)
            ∙ sym (at_of a r) in
          let whole = ap (is_member c) same ∙ rest in rw e (whole ∙ ground arith)
      | inl e ↦
          let is = text_beq-eq b a e in
          let left = clients-unregister d b r (Unique-after es) in
          let moved =
            subst (λ z. clients_at z (unregister d b r) ≡ without d (clients_at z r)) is left in
          let whole = ap (is_member c) moved ∙ is_member-without c d (clients_at a r) in
          rw e (whole ∙ rw rest (ground arith))
    ]
