-- ===== src/Messages/Quoted.antt =====
-- The last steps of `Send` of internal/handlers/messages.go: the message's size, the sender's quota,
-- and the finalizing.
use fmsg_webapi.Prelude.{
  ℕ, ◌+◌, ◌≤◌, ◌≡◌, refl, sym, ap, ap₂, ◌∙◌, subst, Bool, true, false, Option, none, some, List, [],
  ◌∷◌, ◌++◌, map, arith, if◌then◌else◌, some-eq, Text, codes,
}
use fmsg_webapi.Request.Frames.{fetch-some}
use fmsg_webapi.Messages.Access.{retrieve_failed}
use fmsg_webapi.Prelude.Int.{ℤ, pos}
use fmsg_webapi.Trash.Storage.{total, message_stored_size}
use fmsg_webapi.Messages.Sending.{
  finalized, with_quota, check_size, finalize_send, run_finalize, sent_answer, deliver_batches,
}
use fmsg_webapi.Request.Success.{Succeeds, or_answer-passed}
use fmsg_webapi.Request.{
  Answer, answer, sent_body, clean_up, Effect, refusal, fails, after_statement, record_send,
  deliver_locally, additional, direct,
}
use fmsg_webapi.Messages.{Site, Fetched, Message, World, attachments_of, AddToBatch}
use fmsg_webapi.Quota.{
  fetch_error, check_send_quota, SendLimit, Verdict, may_send, refused, refusal_status, fetched,
  check_send_limits,
}
use fmsg_webapi.Db.{Db, msg_by, Attachment}

-- The stored size is what messageStoredSize says.
abbrev pub stored_size : ℕ → Db → Option ℕ
stored_size id db = elim (msg_by id db.msgs) [
  | none ↦ none
  | some m ↦ some (m.size + total (map (λ (a : Attachment). a.filesize) (attachments_of id db)))
]

limit_refusal :
    (o : Option SendLimit) (n : ℕ)
    → (elim o as (λ _. Verdict) [ none ↦ may_send | some limit ↦ refused (refusal_status limit) ])
      ≡ refused n
    → 400 ≤ n
limit_refusal none n h = cc h
limit_refusal (some limit) n h = ground arith

-- A refusal by the quota is an error.
quota_refusal : (f : Fetched) (size : ℤ) (n : ℕ) → check_send_quota f size ≡ refused n → 400 ≤ n
unfolding check_send_quota
quota_refusal fetch_error size n h = ground arith
quota_refusal (fetched status d) size n h =
    ground (arith, limit_refusal (check_send_limits d size) n)

module _ (s : Site) (id now : ℕ) (m : Message) where
  -- From the quota on.
  pub record IsFinalized (db : Db) (before : List Effect) (size : ℕ) (r : Answer × World)
      : Type 0 where
    pub hash : Text
    pub finalized_as : s.finalize id now db ≡ some (hash, r.1.db)
    pub answered : r.0 ≡ answer 200 (sent_body id now hash)
    pub effects :
        r.1.after_commit
        ≡ before
          ++ record_send m.from now size
            ∷ deliver_locally direct id m.to
            ∷ map (λ (b : AddToBatch). deliver_locally additional id b.to) m.add_to

  finalized-some :
      (o : Option (Text × Db)) (w v : World) (hash : Text)
      → finalized o w ≡ (some hash, v)
      → (o ≡ some (hash, v.db))
  finalized-some none w v hash h = cc (ap (λ p. p.0) h)
  finalized-some (some (x, db)) w v hash h =
      ap₂ (λ (a : Text) (d : Db). some (a, d)) (some-eq (ap (λ p. p.0) h)) (ap (λ p. p.1.db) h)

  run-from :
      (broken : Bool) (o : Option (Text × Db)) (w v : World) (hash : Text)
      → (if broken then (none, w) else finalized o w) ≡ (some hash, v)
      → o ≡ some (hash, v.db)
  run-from true o w v hash h = cc (ap (λ p. p.0) h)
  run-from false o w v hash h = finalized-some o w v hash h

  run-effects :
      (broken : Bool) (o : Option (Text × Db)) (w : World)
      → (if broken then (none, w) else finalized o w).1.after_commit ≡ w.after_commit
  run-effects true o w = refl
  run-effects false none w = refl
  run-effects false (some (hash, db)) w = refl

  batches-map :
      (bs : List AddToBatch)
      → deliver_batches id bs ≡ map (λ (b : AddToBatch). deliver_locally additional id b.to) bs
  batches-map [] = refl
  batches-map (b ∷ bs) = ap (λ es. deliver_locally additional id b.to ∷ es) (batches-map bs)

  finalize_send-IsFinalized :
      (size : ℕ) (w : World)
      → Succeeds (finalize_send s id now m size w)
      → IsFinalized w.db w.after_commit size (finalize_send s id now m size w)
  finalize_send-IsFinalized size w k =
      let u = record w { on_rollback = w.on_rollback ++ clean_up id ∷ [] } in
      let (hash, v, e, r, _) =
        or_answer-passed (run_finalize s id now) (refusal 500 (codes "failed to finalize message"))
          (sent_answer s id now m size) u (omega arith) k in
      subst (IsFinalized w.db w.after_commit size) (sym r) (record {
        hash = hash;
        finalized_as = run-from (fails u) (s.finalize id now w.db) (after_statement u) v hash e;
        answered = refl;
        effects =
            ap₂
              (λ (es later : List Effect).
                es ++ record_send m.from now size ∷ deliver_locally direct id m.to ∷ later)
              (ap (λ p. p.1.after_commit) (sym e)
                ∙ run-effects (fails u) (s.finalize id now w.db) (after_statement u))
              (batches-map m.add_to);
      })

  pub record IsMeasured (db : Db) (before : List Effect) (r : Answer × World) : Type 0 where
    pub size : ℕ
    pub measured : stored_size id db ≡ some size
    pub allowed : check_send_quota (s.ask m.from) (pos size) ≡ may_send
    pub final : IsFinalized db before size r

  quota-IsFinalized :
      (size : ℕ) (q : Verdict) (w : World)
      → ((n : ℕ) → q ≡ refused n → 400 ≤ n)
      → Succeeds (with_quota s id now m size q w)
      → (q ≡ may_send) × IsFinalized w.db w.after_commit size (with_quota s id now m size q w)
  quota-IsFinalized size may_send w h k = (refl, finalize_send-IsFinalized size w k)
  quota-IsFinalized size (refused status) w h k = absurd (omega (arith, h status refl, k.below))

  pub check_size-IsMeasured :
      (w : World)
      → Succeeds (check_size s id now m w)
      → IsMeasured w.db w.after_commit (check_size s id now m w)
  check_size-IsMeasured w k =
      let verdict = λ (size : ℕ). check_send_quota (s.ask m.from) (pos size) in
      let (size, v, e, r, k1) =
        or_answer-passed (message_stored_size id) retrieve_failed
          (λ size. with_quota s id now m size (verdict size)) w (omega arith) k in
      let (q, f) =
        quota-IsFinalized size (verdict size) v (quota_refusal (s.ask m.from) (pos size)) k1 in
      let (me, ev) = fetch-some (stored_size id) w e in
      subst (IsMeasured w.db w.after_commit) (sym r) (record {
        size = size;
        measured = me;
        allowed = q;
        final =
            subst (λ es. IsFinalized w.db es size (with_quota s id now m size (verdict size) v))
              (ap (λ p. p.1.after_commit) (sym e))
              (subst
                (λ (d : Db).
                  IsFinalized d v.after_commit size (with_quota s id now m size (verdict size) v))
                ev f);
      })
