-- ===== src/Grants/Invariant.antt =====
-- What creating and changing rows of the table of internal/apiauth/store.go keeps: the unique
-- indexes, and an owner's limit.
use fmsg_webapi.Prelude.{
  ℕ, ◌≤◌, ◌<◌, ◌≡◌, refl, ap, subst, inl, inr, Bool, false, not, none, some, List, [], ◌∷◌, arith,
  leb, Bool-cases, length, any, find, keep, In, ◌==◌, nat_eq, Text, text_beq_iff, text_eq,
  Bool-cases,
}
use fmsg_webapi.Strings.{Casing, is_nil}
use fmsg_webapi.Grants.Store.{
  Grant, OwnerLimit, default_max_sub_accounts, Store, ok, owned_by, is_named, max_sub_accounts,
  clashes, is_malformed, create_grant,
}

pub any-false :
    {A : Type 0} (p : A → Bool) (xs : List A) {a : A} → any p xs ≡ false → In a xs → p a ≡ false
any-false p [] h m = absurd m
any-false p (x ∷ xs) h (inl e) = rw (← e) (ground arith)
any-false p (x ∷ xs) h (inr m) = any-false p xs (ground arith) m

pub ok-eq {ℓ} : {A : Type ℓ} {a b : A} → ok a ≡ ok b → a ≡ b
ok-eq e = cc

module _ (cs : Casing) where
  -- No two rows clash on an index.
  abbrev pub Distinct : List Grant → Type 0
  Distinct [] = Unit
  Distinct (g ∷ gs) = (any (clashes cs g) gs ≡ false) × Distinct gs

  abbrev pub owned : Text → List Grant → ℕ
  owned owner gs = length (keep (owned_by cs owner) gs)

  pub record IsValid (s : Store) : Type 0 where
    pub distinct : Distinct s.grants
    pub within : (owner : Text) → owned owner s.grants ≤ max_sub_accounts cs s owner

  -- The limit and the count of an owner go by the address without its case.
  max-lower :
      (s : Store) (a b : Text)
      → cs.sql_lower a ≡ cs.sql_lower b
      → max_sub_accounts cs s a ≡ max_sub_accounts cs s b
  unfolding max_sub_accounts
  max-lower s a b e =
      ap
        (λ l.
          elim (find (λ (r : OwnerLimit). cs.sql_lower r.owner_addr == l) s.limits) as (λ _. ℕ) [
            | none ↦ default_max_sub_accounts
            | some r ↦ r.max_sub_accounts
          ])
        e

  owned-lower :
      (gs : List Grant) (a b : Text) → cs.sql_lower a ≡ cs.sql_lower b → owned a gs ≡ owned b gs
  owned-lower gs a b e =
      ap (λ l. length (keep (λ (g : Grant). cs.sql_lower g.owner_addr == l) gs)) e

  create-within :
      (s : Store) (row : Grant) (owner : Text)
      → IsValid s
      → owned row.owner_addr s.grants < max_sub_accounts cs s row.owner_addr
      → owned owner (row ∷ s.grants) ≤ max_sub_accounts cs s owner
  create-within s row owner v h = elim (Bool-cases (owned_by cs owner row)) [
    | inl mine ↦
        let e = (text_beq_iff (cs.sql_lower row.owner_addr) (cs.sql_lower owner)).0 mine in
        rw mine (
          omega (
            arith,
            h,
            max-lower s row.owner_addr owner e,
            owned-lower s.grants row.owner_addr owner e,
          ))
    | inr theirs ↦ rw theirs (v.within owner)
  ]

  -- Creating a grant keeps the table valid: the indexes stay unique, and no owner is over the limit.
  pub create_grant-IsValid :
      (s s' : Store) (g : Grant) → IsValid s → create_grant cs s g ≡ ok s' → IsValid s'
  unfolding create_grant max_sub_accounts
  create_grant-IsValid s s' g v h =
      let most = max_sub_accounts cs s g.owner_addr in
      let row : Grant = record g { max_sub_accounts = most } in
      elim (Bool-cases (leb most (owned g.owner_addr s.grants))) [
        | inl full ↦ cc (rw (full, create_grant) at h)
        | inr room ↦ elim (Bool-cases (is_malformed cs g)) [
          | inl bad ↦ cc (rw (room, bad, create_grant) at h)
          | inr well ↦ elim (Bool-cases (any (clashes cs row) s.grants)) [
            | inl clash ↦ cc (rw (room, well, clash, create_grant) at h)
            | inr fresh ↦
                let same : ok (record s { grants = row ∷ s.grants }) ≡ ok s' =
                  rw (room, well, fresh, create_grant) at h in
                subst IsValid (ok-eq same) (record {
                  distinct = (fresh, v.distinct);
                  within = λ owner. create-within s row owner v (ground arith);
                })
          ]
        ]
      ]

  pub any-keep :
      (p q : Grant → Bool) (gs : List Grant) → any p gs ≡ false → any p (keep q gs) ≡ false
  any-keep p q [] h = refl
  any-keep p q (g ∷ gs) h = ground (arith, any-keep p q gs)

  -- The table after an update of CIDRs, and the grant in the answer.
  pub record IsNarrowed (s : Store) (owner agent : Text) (cidrs : List Text) (s' : Store)
      (g : Grant) : Type 0 where
    pub valid : IsValid s'
    pub some_given : is_nil cidrs ≡ false
    pub row : Grant
    pub was : find (is_named cs owner agent) s.grants ≡ some row
    pub answered : g ≡ record row { allowed_cidrs = cidrs }
    pub stored : find (is_named cs owner agent) s'.grants ≡ some g
    pub others :
        keep (λ h. not (is_named cs owner agent h)) s'.grants
        ≡ keep (λ h. not (is_named cs owner agent h)) s.grants
