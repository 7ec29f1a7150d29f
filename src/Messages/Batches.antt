-- ===== src/Messages/Batches.antt =====
-- The recipients of a new batch: `AddRecipients` of internal/handlers/messages.go.
use mathlib.Core.List.{map-append}
use fmsg_webapi.Prelude.{
  ℕ, ◌<◌, ◌≡◌, refl, sym, ap, ap₂, ◌∙◌, inl, inr, Bool, true, false, ◌&&◌, ◌||◌, none, List, [],
  ◌∷◌, ◌++◌, map, arith, ltb, lt→ltb, &&_both, Bool-cases, Option-cases, length, any, keep, All,
  ◌==◌, nat_eq, Text, text_beq_iff, text_eq, beq_self, Bool-cases,
}
use fmsg_webapi.Request.Success.{Succeeds}
use fmsg_webapi.Request.{World, Answer}
use fmsg_webapi.Messages.Adding.{insert_added, added_row, roll_back}
use fmsg_webapi.Strings.{Casing, contains}
use fmsg_webapi.Address.{first_duplicate, check_distinct_recipients}
use fmsg_webapi.Db.{Db, Added, is_some}

-- What a row of msg_add_to says: the message, the batch and the address.
abbrev pub Entry : Type 0
Entry = ℕ × ℕ × Text

abbrev pub entries_of : List Added → List Entry
entries_of rows = map (λ (a : Added). (a.msg_id, a.batch_id, a.addr)) rows

abbrev pub entries : Db → List Entry
entries db = entries_of db.added

abbrev pub asked : ℕ → ℕ → List Text → List Entry
asked id batch add_to = map (λ addr. (id, batch, addr)) add_to

abbrev pub is_added : ℕ → Text → Added → Bool
is_added id addr a = a.msg_id == id && a.addr == addr

-- Each address is new to the message when its turn comes.
unfoldable pub IsFresh : ℕ → ℕ → List Text → List Added → Type 0
IsFresh batch id [] rows = Unit
IsFresh batch id (addr ∷ add_to) rows =
    (any (is_added id addr) rows ≡ false)
    × IsFresh batch id add_to (rows ++ added_row batch id addr ∷ [])

any-append :
    {A : Type 0} (test : A → Bool) (xs ys : List A)
    → any test (xs ++ ys) ≡ (any test xs || any test ys)
any-append test [] ys = refl
any-append test (x ∷ xs) ys = ground (arith, any-append test xs ys)

-- A new address is added as the last row.
pub insert_added-rows :
    (batch id : ℕ) (addr : Text) (db : Db)
    → any (is_added id addr) db.added ≡ false
    → (insert_added batch id addr db).added ≡ db.added ++ added_row batch id addr ∷ []
insert_added-rows batch id addr db h = rw h refl

pub insert_added-entries :
    (batch id : ℕ) (addr : Text) (db : Db)
    → any (is_added id addr) db.added ≡ false
    → entries (insert_added batch id addr db) ≡ entries db ++ (id, batch, addr) ∷ []
insert_added-entries batch id addr db h =
    ap entries_of (insert_added-rows batch id addr db h)
    ∙ map-append _ db.added (added_row batch id addr ∷ [])

-- An address that is not among the rows stays so when another is added.
added-other :
    (batch id : ℕ) (addr other : Text) (rows : List Added)
    → (addr == other) ≡ false
    → any (is_added id other) rows ≡ false
    → any (is_added id other) (rows ++ added_row batch id addr ∷ []) ≡ false
added-other batch id addr other rows ne h =
    rw (any-append (is_added id other) rows (added_row batch id addr ∷ []), h, ne, beq_self id) refl

module _ (cs : Casing) where
  -- What comes later is no address that was seen.
  differs-later :
      (key : Text) (add_to seen : List Text)
      → first_duplicate cs seen add_to ≡ none
      → contains key seen ≡ true
      → All (λ addr. (cs.to_lower addr == key) ≡ false) add_to
  unfolding first_duplicate contains
  differs-later key [] seen d h = tt
  differs-later key (addr ∷ add_to) seen d h =
      elim (Bool-cases (contains (cs.to_lower addr) seen)) [
        | inl e ↦ cc (rw e at d)
        | inr e ↦ (
          unseen (cs.to_lower addr) e,
          differs-later key add_to (cs.to_lower addr ∷ seen) (rw e at d) (ground (arith, h)),
        )
      ]
    where
      unseen : (a : Text) → contains a seen ≡ false → (a == key) ≡ false
      unseen a e = elim (Bool-cases (a == key)) [
        | inl q ↦ let same = (text_beq_iff a key).0 q in cc (sym h ∙ (rw same at e))
        | inr q ↦ q
      ]

  still-absent :
      (batch id : ℕ) (addr : Text) (add_to : List Text) (rows : List Added)
      → All (λ a. (cs.to_lower a == cs.to_lower addr) ≡ false) add_to
      → All (λ a. any (is_added id a) rows ≡ false) add_to
      → All (λ a. any (is_added id a) (rows ++ added_row batch id addr ∷ []) ≡ false) add_to
  still-absent batch id addr [] rows ds hs = tt
  still-absent batch id addr (a ∷ add_to) rows (d, ds) (h, hs) =
      (added-other batch id addr a rows (apart d) h, still-absent batch id addr add_to rows ds hs)
    where
      apart : (cs.to_lower a == cs.to_lower addr) ≡ false → (addr == a) ≡ false
      apart d = elim (Bool-cases (addr == a)) [
        | inl q ↦
            let same = (text_beq_iff addr a).0 q in
            let bad : false ≡ true =
              sym d
              ∙ ap (λ x. cs.to_lower x == cs.to_lower addr) (sym same)
              ∙ beq_self (cs.to_lower addr) in
            cc bad
        | inr q ↦ q
      ]

  -- The addresses differ when they are compared without case, and none is in the table.
  pub IsFresh-distinct :
      (batch id : ℕ) (add_to seen : List Text) (rows : List Added)
      → first_duplicate cs seen add_to ≡ none
      → All (λ addr. any (is_added id addr) rows ≡ false) add_to
      → IsFresh batch id add_to rows
  unfolding IsFresh first_duplicate contains
  IsFresh-distinct batch id [] seen rows d h = tt
  IsFresh-distinct batch id (addr ∷ add_to) seen rows d (h, hs) =
      elim (Bool-cases (contains (cs.to_lower addr) seen)) [
        | inl e ↦ cc (rw e at d)
        | inr e ↦
            let here : contains (cs.to_lower addr) (cs.to_lower addr ∷ seen) ≡ true =
              rw (beq_self (cs.to_lower addr)) refl in
            (
              h,
              IsFresh-distinct batch id add_to (cs.to_lower addr ∷ seen)
                  (rows ++ added_row batch id addr ∷ []) (rw e at d)
                  (still-absent batch id addr add_to rows
                    (differs-later (cs.to_lower addr) add_to (cs.to_lower addr ∷ seen) (rw e at d)
                      here)
                    hs),
            )
      ]

module _ (cs : Casing) (alike : (x : Text) → cs.sql_lower x ≡ cs.to_lower x) (id : ℕ) where
  abbrev conflicting : List Text → Added → Bool
  conflicting lowered a = a.msg_id == id && contains (cs.sql_lower a.addr) lowered

  none-added :
      (addr : Text) (lowered : List Text) (rows : List Added)
      → contains (cs.to_lower addr) lowered ≡ true
      → length (keep (conflicting lowered) rows) ≡ 0
      → any (is_added id addr) rows ≡ false
  none-added addr lowered [] m h = refl
  none-added addr lowered (a ∷ rows) m h = elim (Bool-cases (conflicting lowered a)) [
    | inl e ↦ absurd (omega (arith, rw e at h))
    | inr e ↦ elim (Bool-cases (is_added id addr a)) [
      | inl q ↦
          let (mine, named) = &&_both (a.msg_id == id) (a.addr == addr) q in
          let same = (text_beq_iff a.addr addr).0 named in
          let there : contains (cs.sql_lower a.addr) lowered ≡ true =
            ap (λ x. contains x lowered) (alike a.addr ∙ ap cs.to_lower same) ∙ m in
          let bad : false ≡ true = sym e ∙ ap₂ ◌&&◌ mine there in cc bad
      | inr q ↦ rw q (none-added addr lowered rows m (rw e at h))
    ]
  ]

  pub none_conflicting :
      (xs lowered : List Text) (rows : List Added)
      → ((a : Text) → contains a (map cs.to_lower xs) ≡ true → contains a lowered ≡ true)
      → length (keep (conflicting lowered) rows) ≡ 0
      → All (λ addr. any (is_added id addr) rows ≡ false) xs
  unfolding contains
  none_conflicting [] lowered rows m h = tt
  none_conflicting (x ∷ xs) lowered rows m h = (
    none-added x lowered rows (m (cs.to_lower x) (rw (beq_self (cs.to_lower x)) refl)) h,
    none_conflicting xs lowered rows (λ a k. m a (ground (arith, k))) h,
  )

pub not_positive : (n : ℕ) → ltb 0 n ≡ false → n ≡ 0
not_positive n h = ground arith

pub no_duplicate :
    (cs : Casing) (xs : List Text)
    → is_some (check_distinct_recipients cs xs []) ≡ false
    → first_duplicate cs [] xs ≡ none
unfolding check_distinct_recipients
no_duplicate cs xs h = elim (Option-cases (first_duplicate cs [] xs)) [
  | inl e ↦ e
  | inr (a, e) ↦ cc (rw (e, is_some) at h)
]

-- What is not an error is not rolled back.
pub roll_back-passed :
    (start : World) (r : Answer × World)
    → Succeeds (roll_back start r)
    → (roll_back start r ≡ r) × Succeeds r
roll_back-passed start (a, w) k = elim (Bool-cases (ltb a.status 400)) [
  | inl e ↦ (rw e refl, record { below = ground arith })
  | inr e ↦
      let low : a.status < 400 = (rw e at k).below in
      let bad : false ≡ true = sym e ∙ lt→ltb a.status 400 low in cc bad
]
