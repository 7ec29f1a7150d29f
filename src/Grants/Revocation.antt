-- ===== src/Grants/Revocation.antt =====
-- Which keys, tokens and act-as requests internal/apiauth/store.go accepts after a grant was
-- created, deleted, or given a new key.
use fmsg_webapi.Prelude.{
  ℕ, ◌≤◌, ◌≡◌, refl, sym, ap, ◌∙◌, subst, inl, inr, Bool, true, false, not, none, some, List, [],
  ◌∷◌, arith, &&_both, Bool-cases, any, find, keep, In, ◌==◌, nat_eq, Text, text_beq, text_beq_refl,
  text_eq, text_beq_sym, Bool-cases,
}
use fmsg_webapi.Strings.{Casing}
use fmsg_webapi.Grants.Keys.{ApiKey, parse_api_key}
use fmsg_webapi.Grants.Store.{
  Grant, Store, Platform, ok, err, not_found, key_revoked, invalid_api_key, is_named, speaks_for,
  clashes, delete, token_row, validate_api_key, validate_token, validate_act_as, create_grant,
  max_sub_accounts, remote_allowed,
}
use fmsg_webapi.Grants.Invariant.{IsValid, Distinct, any-false, any-keep, ok-eq}

-- A test that no element passes finds none.
find-none : {A : Type 0} (p : A → Bool) (xs : List A) → any p xs ≡ false → find p xs ≡ none
find-none p [] h = refl
find-none p (x ∷ xs) h = ground (arith, find-none p xs)

any_implied :
    {A : Type 0} (p r : A → Bool) (xs : List A)
    → ((x : A) → p x ≡ true → r x ≡ true)
    → any r xs ≡ false
    → any p xs ≡ false
any_implied p r [] k h = refl
any_implied p r (x ∷ xs) k h = elim (Bool-cases (p x)) [
  | inl e ↦ absurd (ground (arith, k x e))
  | inr e ↦ rw e (any_implied p r xs k (ground arith))
]

module _ (cs : Casing) where
  -- Where a row that is not `g` is told apart from `g` by an index, a test that implies the same
  -- index value as `g` passes no row once those named as `g` are gone.
  delete_none :
      (owner agent : Text) (p : Grant → Bool) (gs : List Grant) (g : Grant)
      → Distinct cs gs
      → In g gs
      → is_named cs owner agent g ≡ true
      → ((h : Grant) → p h ≡ true → (clashes cs g h ≡ true) × (clashes cs h g ≡ true))
      → any p (keep (λ h. not (is_named cs owner agent h)) gs) ≡ false
  delete_none owner agent p [] g d m n k = refl
  delete_none owner agent p (x ∷ gs) g (f, d) (inl e) n k =
      let q : Grant → Bool = λ h. not (is_named cs owner agent h) in
      let gone : is_named cs owner agent x ≡ true =
        subst (λ y. is_named cs owner agent y ≡ true) (sym e) n in
      let apart : any (clashes cs g) gs ≡ false = subst (λ y. any (clashes cs y) gs ≡ false) e f in
      rw gone (any-keep cs p q gs (any_implied p (clashes cs g) gs (λ h ph. (k h ph).0) apart))
  delete_none owner agent p (x ∷ gs) g (f, d) (inr m) n k =
      let rest = delete_none owner agent p gs g d m n k in
      let other : clashes cs x g ≡ false = any-false (clashes cs x) gs f m in
      elim (Bool-cases (p x)) [
        | inl yes_x ↦ cc (sym ((k x yes_x).1) ∙ other)
        | inr px ↦ elim (Bool-cases (is_named cs owner agent x)) [
          | inl named ↦ rw named rest
          | inr unnamed ↦ rw (unnamed, px) rest
        ]
      ]

  same_key :
      (g h : Grant)
      → (h.key_id == g.key_id) ≡ true
      → (clashes cs g h ≡ true) × (clashes cs h g ≡ true)
  same_key g h e = let there = text_beq_sym h.key_id g.key_id e in (ground arith, ground arith)

  same_speaker :
      (g h : Grant)
      → speaks_for cs g.owner_addr g.sub_addr h ≡ true
      → (clashes cs g h ≡ true) × (clashes cs h g ≡ true)
  same_speaker g h e =
      let o : text_beq (cs.sql_lower h.owner_addr) (cs.sql_lower g.owner_addr) ≡ true =
        ground arith in
      let p : text_beq (cs.sql_lower h.sub_addr) (cs.sql_lower g.sub_addr) ≡ true = ground arith in
      let o' = text_beq_sym (cs.sql_lower h.owner_addr) (cs.sql_lower g.owner_addr) o in
      let p' = text_beq_sym (cs.sql_lower h.sub_addr) (cs.sql_lower g.sub_addr) p in
      (ground arith, ground arith)

  -- The grants that are left after a deletion.
  delete-grants :
      (s s' : Store) (owner agent : Text)
      → delete cs s owner agent ≡ ok s'
      → keep (λ h. not (is_named cs owner agent h)) s.grants ≡ s'.grants
  unfolding delete
  delete-grants s s' owner agent h = elim (Bool-cases (any (is_named cs owner agent) s.grants)) [
    | inr none_there ↦ cc (rw (none_there, delete) at h)
    | inl there ↦ ap (λ (r : Store). r.grants) (ok-eq (rw (there, delete) at h))
  ]

  -- Deleting a grant revokes it: in a valid table, a first-party token that names a deleted grant's
  -- key is answered as revoked whatever else it says, that key exchanges for nothing, and the owner
  -- can no longer speak for the grant's address.
  pub delete_revokes :
      (pf : Platform) (s s' : Store) (owner agent : Text) (g : Grant)
      (own sub remote api_key : Text) (now : ℕ) (key : ApiKey)
      → IsValid cs s
      → In g s.grants
      → is_named cs owner agent g ≡ true
      → delete cs s owner agent ≡ ok s'
      → parse_api_key api_key ≡ some key
      → key.id ≡ g.key_id
      → (validate_token cs pf s' g.key_id own sub remote now ≡ some key_revoked)
        × (validate_api_key pf s' api_key remote now ≡ err invalid_api_key)
        × (validate_act_as cs pf s' g.owner_addr g.sub_addr ≡ some not_found)
  unfolding validate_token validate_api_key validate_act_as
  delete_revokes pf s s' owner agent g own sub remote api_key now key v m n h parsed is =
      let gone : (p : Grant → Bool)
          → ((x : Grant) → p x ≡ true → (clashes cs g x ≡ true) × (clashes cs x g ≡ true))
          → find p s'.grants ≡ none =
        λ p k. find-none p s'.grants (
          subst (λ gs. any p gs ≡ false) (delete-grants s s' owner agent h)
            (delete_none owner agent p s.grants g v.distinct m n k)) in
      (
        rw (
          gone (token_row cs pf g.key_id own sub)
              (λ x e. same_key g x (&&_both (x.key_id == g.key_id) (speaks_for cs own sub x) e).0),
          validate_token,
        ),
        rw (
          parsed,
          gone (λ x. x.key_id == key.id)
              (λ x e. same_key g x (subst (λ k. text_beq x.key_id k ≡ true) is e)),
          validate_api_key,
        ),
        rw (
          gone (speaks_for cs g.owner_addr g.sub_addr) (λ x e. same_speaker g x e),
          validate_act_as,
        ),
      )

  -- The row that a creation adds stands first.
  create-grants :
      (s s' : Store) (g : Grant)
      → create_grant cs s g ≡ ok s'
      → s'.grants ≡ record g { max_sub_accounts = max_sub_accounts cs s g.owner_addr } ∷ s.grants
  unfolding create_grant
  create-grants s s' g h = ground arith

  -- Creating a grant makes it usable at once: until its key expires, from a source that its CIDRs
  -- allow, its API key is exchanged for the grant's owner, address and key id, a first-party token
  -- that names the three is accepted, and the owner may speak for the address.
  pub create_usable :
      (pf : Platform) (s s' : Store) (g : Grant) (remote api_key : Text) (now : ℕ) (key : ApiKey)
      → create_grant cs s g ≡ ok s'
      → parse_api_key api_key ≡ some key
      → key.id ≡ g.key_id
      → pf.hash api_key ≡ g.key_hash
      → now ≤ g.key_expires_at
      → remote_allowed pf remote g.allowed_cidrs ≡ none
      → (validate_api_key pf s' api_key remote now
          ≡ ok (record { owner_addr = g.owner_addr; sub_addr = g.sub_addr; key_id = g.key_id }))
        × (validate_token cs pf s' g.key_id g.owner_addr g.sub_addr remote now ≡ none)
        × (validate_act_as cs pf s' g.owner_addr g.sub_addr ≡ none)
  unfolding validate_token validate_api_key validate_act_as
  create_usable pf s s' g remote api_key now key h parsed is hashed time source =
      let e = create-grants s s' g h in
      let k = text_beq_refl g.key_id in
      let o = text_beq_refl (cs.sql_lower g.owner_addr) in
      let u = text_beq_refl (cs.sql_lower g.sub_addr) in
      let m = text_beq_refl g.key_hash in
      (
        rw (parsed, e, is, k, hashed, m, source, validate_api_key) (ground arith),
        rw (e, k, o, u, source, validate_token) (ground arith),
        rw (e, o, u, validate_act_as) refl,
      )
