-- ===== src/Trash/Unheld.antt =====
-- When `removeIfUnheld` of internal/handlers/trash.go takes a message off the host, and what it
-- leaves.
use mathlib.Core.Option
use fmsg_webapi.Prelude.{
  ℕ, ◌≡◌, refl, sym, ap, ◌∙◌, subst, ◌≢◌, ◌⊎◌, inl, inr, Bool, true, false, not, none, some, List,
  [], ◌∷◌, map, arith, if◌then◌else◌, Bool-cases, Option-cases, some-eq, any, keep, ◌==◌, nat_eq,
  Text, text_eq, Bool-cases,
}
use fmsg_webapi.Db.{Db, Msg, Recipient, Added, Batch, Attachment, Notify, Trash}
use fmsg_webapi.Db.Queries.{removal, orphan_replies, is_batch_of}
use fmsg_webapi.Request.{World, pure}
use fmsg_webapi.Request.Frames.{Keeps, query-Keeps, bind-Keeps, bind-some, query-some, exec-some}
use fmsg_webapi.Trash.{Host, max_age_of}
use fmsg_webapi.Trash.Removal.{
  is_held, delivery_pending, keeps, run_all, unshared, remove_msg, remove_if_unheld,
}

-- The tables after some statements.
abbrev after_all : List (Db → Db) → Db → Db
after_all [] db = db
after_all (f ∷ fs) db = after_all fs (f db)

run_all-some :
    (fs : List (Db → Db)) (w : World) {u : Unit {0}} {v : World}
    → run_all fs w ≡ (some u, v)
    → v.db ≡ after_all fs w.db
run_all-some [] w h = sym (ap (λ p. p.1.db) h)
run_all-some (f ∷ fs) w h =
    let (x, m, first, rest) = bind-some _ _ w h in
    run_all-some fs m rest ∙ ap (after_all fs) (exec-some f w first)

unshared-Keeps : (P : Db → Type 0) (h : Host) (ps : List Text) → Keeps P (unshared h ps)
unfolding unshared
unshared-Keeps P h [] = record { run = λ w p. p }
unshared-Keeps P h (p ∷ ps) = elim (Option-cases (h.safe_path p)) [
  | inl e ↦ rw (e, unshared) (unshared-Keeps P h ps)
  | inr (clean, e) ↦
      rw (e, unshared)
        (bind-Keeps P _ _ (query-Keeps P _)
          λ shared. bind-Keeps P _ _ (unshared-Keeps P h ps) λ files. record { run = λ w p. p })
]

abbrev has_msg : ℕ → List Msg → Bool
has_msg id ms = any (λ (m : Msg). m.id == id) ms

-- No row is left of a message, and the other messages are still there.
pub record IsGone (id : ℕ) (before after : Db) : Type 0 where
  pub msgs : has_msg id after.msgs ≡ false
  pub recipients : any (λ (r : Recipient). r.msg_id == id) after.recipients ≡ false
  pub added : any (λ (a : Added). a.msg_id == id) after.added ≡ false
  pub batches : any (λ (b : Batch). b.msg_id == id) after.batches ≡ false
  pub notifies : any (λ (n : Notify). is_batch_of id before n.batch_id) after.notifies ≡ false
  pub attachments : any (λ (a : Attachment). a.msg_id == id) after.attachments ≡ false
  pub trash : any (λ (t : Trash). t.msg_id == id) after.trash ≡ false
  pub others : (other : ℕ) → other ≢ id → has_msg other after.msgs ≡ has_msg other before.msgs

any-keep-not {ℓ} :
    {A : Type ℓ} (p : A → Bool) (xs : List A) → any p (keep (λ x. not (p x)) xs) ≡ false
any-keep-not p [] = refl
any-keep-not p (x ∷ xs) = elim (Bool-cases (p x)) [
  | inl e ↦ rw e (any-keep-not p xs)
  | inr e ↦ rw e (rw e (any-keep-not p xs))
]

other-msgs :
    (id other : ℕ) (f : Msg → Msg) (ms : List Msg)
    → other ≢ id
    → ((m : Msg) → (f m).id ≡ m.id)
    → has_msg other (keep (λ (m : Msg). not (m.id == id)) (map f ms)) ≡ has_msg other ms
other-msgs id other f [] apart same = refl
other-msgs id other f (m ∷ ms) apart same =
    let rest = other-msgs id other f ms apart same in ground (arith, same m, rest)

orphan-id :
    (id : ℕ) (m : Msg)
    → (elim m.pid as (λ _. Msg) [
      | none ↦ m
      | some p ↦ if p == id then record m { pid = none } else m
    ]).id
      ≡ m.id
orphan-id id m = elim (Option-cases m.pid) [ inl e ↦ rw e refl | inr (p, e) ↦ rw e (ground arith) ]

removal-IsGone : (id : ℕ) (db : Db) → IsGone id db (after_all (removal id) db)
removal-IsGone id db = record {
  msgs = any-keep-not (λ (m : Msg). m.id == id) (orphan_replies id db).msgs;
  recipients = any-keep-not (λ (r : Recipient). r.msg_id == id) db.recipients;
  added = any-keep-not (λ (a : Added). a.msg_id == id) db.added;
  batches = any-keep-not (λ (b : Batch). b.msg_id == id) db.batches;
  notifies = any-keep-not (λ (n : Notify). is_batch_of id db n.batch_id) db.notifies;
  attachments = any-keep-not (λ (a : Attachment). a.msg_id == id) db.attachments;
  trash = any-keep-not (λ (t : Trash). t.msg_id == id) db.trash;
  others = λ other apart. other-msgs id other _ db.msgs apart (orphan-id id);
}

-- A removal that succeeds has run every statement, on the tables as they were.
remove_msg-some :
    (h : Host) (id : ℕ) (w : World) {gone : Bool} {files : List Text} {v : World}
    → remove_msg h id w ≡ (some (gone, files), v)
    → (gone ≡ true) × (v.db ≡ after_all (removal id) w.db)
remove_msg-some h id w {gone} {files} {v} e =
    let (body, w1, e1, r1) = bind-some _ _ w e in
    let (paths, w2, e2, r2) = bind-some _ _ w1 r1 in
    let (u, w3, e3, r3) = bind-some _ _ w2 r2 in
    let (left, w4, e4, r4) = bind-some _ _ w3 r3 in
    let unread : w2.db ≡ w.db = ap (λ p. p.1.db) (sym e2) ∙ ap (λ p. p.1.db) (sym e1) in
    let ran = run_all-some (removal id) w2 e3 in
    let read : w4.db ≡ w3.db =
      ap (λ p. p.1.db) (sym e4)
      ∙ (unshared-Keeps (λ db. db ≡ w3.db) h (body ∷ paths)).run w3 refl in
    let ended : v.db ≡ w4.db = ap (λ p. p.1.db) (sym r4) in
    (
      sym (some-eq (ap (λ p. Option.map (λ (q : Bool × List Text). q.0) p.0) r4)),
      ended ∙ read ∙ ran ∙ ap (after_all (removal id)) unread,
    )

branch-cases :
    (h : Host) (id : ℕ) (kept : Bool) (u : World) {gone : Bool} {files : List Text} {v : World}
    → (if kept then pure (false, []) else remove_msg h id) u ≡ (some (gone, files), v)
    → ((kept ≡ false) × (gone ≡ true) × (v.db ≡ after_all (removal id) u.db))
      ⊎ ((gone ≡ false) × (v.db ≡ u.db))
branch-cases h id true u e = inr (
  sym (some-eq (ap (λ p. Option.map (λ (q : Bool × List Text). q.0) p.0) e)),
  ap (λ p. p.1.db) (sym e),
)
branch-cases h id false u e = let r = remove_msg-some h id u e in inl (refl, r.0, r.1)

-- `removeIfUnheld` removes a message only where no address of this host that sent it or got it
-- delivered still holds it, and no delivery of it is pending; then no row of it is left, and every
-- other message is still there. Where it succeeds without removing, the tables are unchanged.
pub removes_unheld :
    (h : Host) (now id : ℕ) (w v : World) (gone : Bool) (files : List Text)
    → remove_if_unheld h now id w ≡ (some (gone, files), v)
    → ((gone ≡ true)
        × (is_held h id w.db ≡ false)
        × (delivery_pending id now (max_age_of h.retry_max_age) w.db ≡ false)
        × IsGone id w.db v.db)
      ⊎ ((gone ≡ false) × (v.db ≡ w.db))
unfolding remove_if_unheld
removes_unheld h now id w v gone files e =
    let (kept, u, asked, rest) = bind-some _ _ w e in
    let (is, same) = query-some (keeps h now id) w asked in
    elim (branch-cases h id kept u rest) [
      | inr (no_removal, unread) ↦ inr (no_removal, unread ∙ same)
      | inl (free, done, tables) ↦
          let unkept : keeps h now id w.db ≡ false = sym is ∙ free in
          inl (
            done,
            ground (arith, unkept),
            ground (arith, unkept),
            subst (IsGone id w.db) (sym (tables ∙ ap (after_all (removal id)) same))
                (removal-IsGone id w.db),
          )
    ]
