-- ===== src/Trash/Marking.antt =====
-- The statement of `markPurged` of internal/handlers/trash.go that marks one message, and the reads
-- around it.
use fmsg_webapi.Prelude.{
  ℕ, ◌≡◌, refl, sym, ap, subst, ◌≢◌, inl, inr, Bool, true, false, not, ◌&&◌, ◌||◌, some, List, [],
  ◌∷◌, arith, &&_both, Bool-cases, some-eq, any, ◌==◌, nat_eq, Text, text_beq, text_beq_refl,
  text_beq-eq, text_eq, Bool-cases,
}
use fmsg_webapi.Db.{Db, Trash, is_some, msg_by}
use fmsg_webapi.Db.Queries.{has_purge, is_mark, upsert, purge_row, mark_purge}
use fmsg_webapi.Address.{domain_of}
use fmsg_webapi.Request.Frames.{Keeps, query-Keeps, bind-Keeps}
use fmsg_webapi.Trash.{Host, local_domains}
use fmsg_webapi.Trash.Storage.{usage_of, usage_for, recorded_size}

-- Reading what a message counted changes nothing.
recorded_size-Keeps :
    (P : Db → Type 0) (h : Host) (id : ℕ) (from : Text) → Keeps P (recorded_size h id from)
unfolding recorded_size
recorded_size-Keeps P h id from =
    elim (Bool-cases (any (λ d. h.casing.equal_fold (domain_of from) d) (local_domains h))) [
      | inl e ↦ rw (e, recorded_size) (record { run = λ w p. p })
      | inr e ↦
          rw (e, recorded_size)
            (bind-Keeps P _ _ (record { run = λ w p. p })
              λ m. bind-Keeps P _ _ (query-Keeps P _) λ parts. record { run = λ w p. p })
    ]

usage_for-Keeps :
    (P : Db → Type 0) (h : Host) (addr : Text) (id : ℕ) (row : Text × Bool × ℕ)
    → Keeps P (usage_for h addr id row)
usage_for-Keeps P h addr id (from, sent, n) =
    elim (Bool-cases (not (sent && h.casing.equal_fold from addr) && n == 0)) [
      | inl e ↦ rw e (record { run = λ w p. p })
      | inr e ↦
          rw e
            (bind-Keeps P _ _ (recorded_size-Keeps P h id from) λ size. record { run = λ w p. p })
    ]

pub usage_of-Keeps :
    (P : Db → Type 0) (h : Host) (addr : Text) (id : ℕ) → Keeps P (usage_of h addr id)
unfolding usage_of
usage_of-Keeps P h addr id =
    bind-Keeps P _ _ (record { run = λ w p. p }) λ row. usage_for-Keeps P h addr id row

any-upsert-kept :
    (p : Trash → Bool) (row : Trash) (change : Trash → Trash) (ts : List Trash)
    → ((t : Trash) → p t ≡ true → p (change t) ≡ true)
    → any p ts ≡ true
    → any p (upsert row change ts) ≡ true
unfolding upsert
any-upsert-kept p row change [] k h = cc h
any-upsert-kept p row change (t ∷ ts) k h = elim (Bool-cases (is_mark row.addr row.msg_id t)) [
  | inl e ↦ rw e (elim (Bool-cases (p t)) [ inl x ↦ rw (k t x) refl | inr x ↦ ground (arith, h) ])
  | inr e ↦ rw e (elim (Bool-cases (p t)) [
    | inl x ↦ rw x refl
    | inr x ↦ rw x (any-upsert-kept p row change ts k (ground arith))
  ])
]

any-upsert-hit :
    (p : Trash → Bool) (row : Trash) (change : Trash → Trash) (ts : List Trash)
    → p row ≡ true
    → ((t : Trash) → is_mark row.addr row.msg_id t ≡ true → p (change t) ≡ true)
    → any p (upsert row change ts) ≡ true
unfolding upsert
any-upsert-hit p row change [] h k = rw h refl
any-upsert-hit p row change (t ∷ ts) h k = elim (Bool-cases (is_mark row.addr row.msg_id t)) [
  | inl e ↦ rw (e, k t e) refl
  | inr e ↦ let rest = any-upsert-hit p row change ts h k in ground (arith, e, rest)
]

any-upsert-other :
    (p : Trash → Bool) (row : Trash) (change : Trash → Trash) (ts : List Trash)
    → p row ≡ false
    → ((t : Trash) → is_mark row.addr row.msg_id t ≡ true → p (change t) ≡ p t)
    → any p (upsert row change ts) ≡ any p ts
unfolding upsert
any-upsert-other p row change [] h k = rw h refl
any-upsert-other p row change (t ∷ ts) h k = elim (Bool-cases (is_mark row.addr row.msg_id t)) [
  | inl e ↦ rw (e, k t e) refl
  | inr e ↦ rw (e, any-upsert-other p row change ts h k) refl
]

apart_beq : (a b : Text) → a ≢ b → text_beq b a ≡ false
apart_beq a b apart = elim (Bool-cases (text_beq b a)) [
  | inl e ↦ absurd (apart (sym (text_beq-eq b a e)))
  | inr e ↦ e
]

-- The mark that a purge sets, and the marks that it leaves.
module _ (identity : Text) (id : ℕ) (thread : Bool) (now : ℕ) (db db' : Db)
    (ran : mark_purge identity id thread now db ≡ some db') where
  mark_purge-trash :
      upsert
        (purge_row identity id thread now)
        (λ t. record t { time_purged = some now; thread = t.thread || thread })
        db.trash
      ≡ db'.trash
  mark_purge-trash = elim (Bool-cases (is_some (msg_by id db.msgs))) [
    | inr gone ↦ cc (rw gone at ran)
    | inl there ↦ ap (λ (d : Db). d.trash) (some-eq (rw there at ran))
  ]

  pub mark_purge-kept : (a : Text) (i : ℕ) → has_purge a i db ≡ true → has_purge a i db' ≡ true
  mark_purge-kept a i h =
      subst (λ ts. any (λ t. is_mark a i t && is_some t.time_purged) ts ≡ true) mark_purge-trash
        (any-upsert-kept (λ t. is_mark a i t && is_some t.time_purged) _ _ db.trash
          (λ t e. ground arith) h)

  pub mark_purge-hit : has_purge identity id db' ≡ true
  mark_purge-hit =
      subst (λ ts. any (λ t. is_mark identity id t && is_some t.time_purged) ts ≡ true)
        mark_purge-trash
        (any-upsert-hit (λ t. is_mark identity id t && is_some t.time_purged) _ _ db.trash
          (ground (arith, text_beq_refl identity)) (λ t e. ground (arith, e)))

  pub mark_purge-other : (a : Text) (i : ℕ) → a ≢ identity → has_purge a i db' ≡ has_purge a i db
  mark_purge-other a i apart =
      subst (λ ts. any (λ t. is_mark a i t && is_some t.time_purged) ts ≡ has_purge a i db)
        mark_purge-trash
        (any-upsert-other (λ t. is_mark a i t && is_some t.time_purged) _ _ db.trash
          (let n = apart_beq a identity apart in ground (arith, n))
          λ t e.
            let same =
              text_beq-eq t.addr identity (&&_both (t.addr == identity) (t.msg_id == id) e).0 in
            let n : text_beq t.addr a ≡ false =
              subst (λ x. text_beq x a ≡ false) (sym same) (apart_beq a identity apart) in
            ground (arith, n))
