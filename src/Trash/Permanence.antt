-- ===== src/Trash/Permanence.antt =====
-- Deleted for good stays so: `Restore` and a plain delete of internal/handlers/trash.go change no
-- purge mark of any address.
use fmsg_webapi.Prelude.{
  ℕ, ◌≡◌, refl, sym, ◌∙◌, subst, inl, inr, Bool, true, false, not, ◌&&◌, ◌||◌, Option, none, some,
  List, [], ◌∷◌, arith, if◌then◌else◌, Bool-cases, some-eq, any, keep, Text, Bool-cases,
}
use fmsg_webapi.Db.{Db, Trash, is_some, msg_by, Msg}
use fmsg_webapi.Db.Queries.{has_purge, is_mark, upsert, mark_row, mark_deleted, unmark}
use fmsg_webapi.Request.Frames.{Keeps, or_answer-Keeps, exec-run, exec-Keeps, query-Keeps}
use fmsg_webapi.Request.{
  World, Handler, Answer, or_answer, exec, resolve_id, found_msg, IdParam, by_id, unreadable,
  by_hash,
}
use fmsg_webapi.Trash.{
  Host, notify_trash, noted, trash_state_q, purged_for, State, purged_result, is_purged,
}
use fmsg_webapi.Trash.Purge.{purge}
use fmsg_webapi.Trash.Handlers.{
  not_found, subtree_or_self, move_to_trash, marked_answer, take_out, restore_found, unless_purged,
  marked_result, restored_result, Flags, restore, delete_sent, trash_sent,
}

module _ (P : Db → Type 0) where
  noted-Keeps : (i : ℕ) (a : Text) (r : Option (Unit {0}) × World) → P r.1.db → P (noted i a r).db
  noted-Keeps i a (none, w) h = h
  noted-Keeps i a (some u, w) h = h

  pub notify_trash-Keeps :
      (a : Text) (ids : List ℕ) (w : World) → P w.db → P (notify_trash a ids w).db
  unfolding notify_trash
  notify_trash-Keeps a [] w h = h
  notify_trash-Keeps a (i ∷ ids) w h =
      notify_trash-Keeps a ids (noted i a (exec some w))
        (noted-Keeps i a (exec some w) (exec-run P some (λ db db' e p. subst P (some-eq e) p) w h))

abbrev is_purge_of : Text → ℕ → Trash → Bool
is_purge_of addr id t = is_mark addr id t && is_some t.time_purged

any-upsert :
    (p : Trash → Bool) (row : Trash) (change : Trash → Trash) (ts : List Trash)
    → p row ≡ false
    → ((t : Trash) → p (change t) ≡ p t)
    → any p (upsert row change ts) ≡ any p ts
unfolding upsert
any-upsert p row change [] h k = rw h refl
any-upsert p row change (t ∷ ts) h k = elim (Bool-cases (is_mark row.addr row.msg_id t)) [
  | inl e ↦ rw (e, k t) refl
  | inr e ↦ rw (e, any-upsert p row change ts h k) refl
]

any-keep-of :
    (p q : Trash → Bool) (ts : List Trash)
    → ((t : Trash) → p t ≡ true → q t ≡ true)
    → any p (keep q ts) ≡ any p ts
any-keep-of p q [] h = refl
any-keep-of p q (t ∷ ts) h = elim (Bool-cases (q t)) [
  | inl e ↦ rw (e, any-keep-of p q ts h) refl
  | inr e ↦ elim (Bool-cases (p t)) [
    | inl bad ↦ cc (rw (h t bad) at e)
    | inr other ↦ rw (e, other, any-keep-of p q ts h) refl
  ]
]

module _ (addr : Text) (id : ℕ) (b : Bool) where
  abbrev Purges : Db → Type 0
  Purges db = has_purge addr id db ≡ b

  mark_deleted-Purges :
      (identity : Text) (i : ℕ) (t : Bool) (now : ℕ) (db db' : Db)
      → mark_deleted identity i t now db ≡ some db'
      → Purges db
      → Purges db'
  mark_deleted-Purges identity i t now db db' e h =
      let row = mark_row identity i t now in
      let change : Trash → Trash = λ r. record r { thread = r.thread || t } in
      elim (Bool-cases (is_some (msg_by i db.msgs))) [
        | inr gone ↦ cc (rw gone at e)
        | inl there ↦
            let same : some (record db { trash = upsert row change db.trash }) ≡ some db' =
              rw there at e in
            subst Purges (some-eq same)
              (any-upsert (is_purge_of addr id) row change db.trash (ground arith) (λ _. refl) ∙ h)
      ]

  unmark-Purges :
      (identity : Text) (ids : List ℕ) (db : Db) → Purges db → Purges (unmark identity ids db)
  unmark-Purges identity ids db h =
      any-keep-of (is_purge_of addr id) _ db.trash (λ t e. ground arith) ∙ h

  module _ (h : Host) (identity : Text) (i : ℕ) where
    subtree-Keeps : (t : Bool) → Keeps Purges (subtree_or_self h identity i t)
    subtree-Keeps false = record { run = λ w p. p }
    subtree-Keeps true = query-Keeps Purges _

    marked_result-run :
        (r : Option (Option State) × World) → Purges r.1.db → Purges (marked_result i r).1.db
    marked_result-run (none, w) p = p
    marked_result-run (some state, w) p = p

    restored_result-run :
        (r : Option (Option State) × World) → Purges r.1.db → Purges (restored_result i r).1.db
    restored_result-run (none, w) p = p
    restored_result-run (some state, w) p = p

    marked-run : (t : Bool) (w : World) → Purges w.db → Purges (marked_answer h identity i t w).1.db
    marked-run true w p = p
    marked-run false w p = marked_result-run (trash_state_q h identity i w) p

    move-Keeps : (t : Bool) (now : ℕ) → Keeps Purges (move_to_trash h identity i t now)
    move-Keeps t now =
        or_answer-Keeps Purges _ _ _ (exec-Keeps Purges _ (mark_deleted-Purges identity i t now))
          λ _. or_answer-Keeps Purges _ _ _ (subtree-Keeps t) λ ids. record {
            run = λ w p. marked-run t _ (notify_trash-Keeps Purges identity ids w p);
          }

    out-Keeps : (t : Bool) → Keeps Purges (take_out h identity i t)
    out-Keeps t = or_answer-Keeps Purges _ _ _ (subtree-Keeps t) λ ids.
        or_answer-Keeps Purges _ _ _
          (exec-Keeps Purges _
            λ db db' e p. subst Purges (some-eq e) (unmark-Purges identity ids db p))
          λ _. record {
            run = λ w p.
                restored_result-run (trash_state_q h identity i (notify_trash identity ids w))
                  (notify_trash-Keeps Purges identity ids w p);
          }

    purged_result-run :
        (r : Option (Option State) × World) → Purges r.1.db → Purges (purged_result r).1.db
    purged_result-run (none, w) p = p
    purged_result-run (some state, w) p = p

    unless-run :
        (t : Bool) (r : Bool × World) → Purges r.1.db → Purges (unless_purged h identity i t r).1.db
    unless-run t (true, w) p = p
    unless-run t (false, w) p = (out-Keeps t).run w p

    found-Keeps : (t found : Bool) → Keeps Purges (restore_found h identity i t found)
    found-Keeps t false = record { run = λ w p. p }
    found-Keeps t true = record {
      run = λ w p.
          unless-run t (purged_for h identity i w)
            (purged_result-run (trash_state_q h identity i w) p);
    }

    if-run :
        (c : Bool) (x y : Answer × World)
        → Purges x.1.db
        → Purges y.1.db
        → Purges (if c then x else y).1.db
    if-run true x y p q = p
    if-run false x y p q = q

    sent-Keeps :
        (flags : Flags) (now : ℕ) (found : Bool) (state : Option State)
        → flags.permanent ≡ false
        → Keeps Purges (delete_sent h identity i flags now found state)
    sent-Keeps flags now found state plain = record {
      run = λ w p.
          if-run (not found || is_purged state) (not_found, w) _ p
            (subst
              (λ z.
                Purges
                  (if z
                    then purge h identity i flags.thread now w
                    else move_to_trash h identity i flags.thread now w).1.db)
              (sym plain) ((move-Keeps flags.thread now).run w p));
    }

  found_msg-Keeps :
      (next : ℕ → Handler)
      → ((i : ℕ) → Keeps Purges (next i))
      → (row : Option Msg) → Keeps Purges (found_msg next row)
  found_msg-Keeps next k none = record { run = λ w p. p }
  found_msg-Keeps next k (some m) = record { run = λ w p. (k m.id).run w p }

  resolve-Keeps :
      (param : IdParam) (next : ℕ → Handler)
      → ((i : ℕ) → Keeps Purges (next i))
      → Keeps Purges (resolve_id param next)
  unfolding resolve_id or_answer
  resolve-Keeps (by_id i) next k = record { run = λ w p. (k i).run w p }
  resolve-Keeps (unreadable text) next k = record { run = λ w p. p }
  resolve-Keeps (by_hash hash) next k =
      or_answer-Keeps Purges _ _ _ (query-Keeps Purges _) λ row. found_msg-Keeps next k row

-- Restoring a message, or deleting it without `permanent`, changes no purge mark: whatever fails,
-- each address has deleted for good exactly what it had before.
pub purges_stay :
    (addr : Text) (id : ℕ) (h : Host) (caller : Text) (param : IdParam) (flags : Flags) (now : ℕ)
    (msg : ℕ) (w : World)
    → flags.permanent ≡ false
    → (has_purge addr id (restore h caller param flags w).1.db ≡ has_purge addr id w.db)
      × (has_purge addr id (trash_sent h caller msg flags now w).1.db ≡ has_purge addr id w.db)
unfolding restore trash_sent
purges_stay addr id h caller param flags now msg w plain =
    let b = has_purge addr id w.db in
    let P = Purges addr id b in
    let identity = h.casing.to_lower caller in
    (
      (resolve-Keeps addr id b param _ λ i.
            or_answer-Keeps P _ _ _ (query-Keeps P _)
              λ found. found-Keeps addr id b h identity i flags.thread found).run
          w refl,
      (or_answer-Keeps P _ _ _ (query-Keeps P _) λ found.
            or_answer-Keeps P _ _ _ (query-Keeps P _)
              λ state. sent-Keeps addr id b h identity msg flags now found state plain).run
          w refl,
    )
