-- ===== src/Attachments/Deleting.antt =====
-- `DeleteAttachment` of internal/handlers/attachments.go, on each of its branches.
use fmsg_webapi.Prelude.{
  ℕ, ◌≤◌, ◌≡◌, refl, sym, ap, ◌∙◌, Bool, true, false, not, Option, none, some, [], ◌∷◌, ◌++◌, arith,
  if◌then◌else◌, ◌==◌, nat_eq, Text, codes, text_eq,
}
use fmsg_webapi.Attachments.Files.{
  delete_attachment, drop_found, stored_path, drop_attachment, drop_file, attachment_failed,
  is_inside,
}
use fmsg_webapi.Attachments.{
  AttachmentSite, World, Db, Msg, msg_by, remove_later, is_some, refusal, query, invalid_filename,
  Handler, exec, retrieve_failed, is_empty, is_no_name, always,
}
use fmsg_webapi.Request.{
  or_answer, resolve_id, by_id, Answer, remove_file, proceed, after_statement, fails, stored,
}

module _ {ℓ} (R : Answer × World → Type ℓ) where
  -- A query either fails and is answered, or its result goes on.
  query_cases {κ} :
      {A : Type κ} (f : Db → A) (a : Answer) (next : A → Handler) (w : World)
      → ((v : World) → v.db ≡ w.db → R (a, v))
      → ((v : World) → v.db ≡ w.db → R (next (f w.db) v))
      → R (or_answer (query f) a next w)
  unfolding or_answer
  query_cases f a next w fail go = by_case (fails w)
    where
      by_case :
          (b : Bool) → R (proceed a next (if b then none else some (f w.db), after_statement w))
      by_case true = fail (after_statement w) refl
      by_case false = go (after_statement w) refl

  write_cases :
      (f : Db → Db) (a : Answer) (next : Unit {0} → Handler) (w : World)
      → ((v : World) → v.db ≡ w.db → R (a, v))
      → ((v : World) → v.db ≡ f w.db → R (next tt v))
      → R (or_answer (exec (always f)) a next w)
  unfolding or_answer
  write_cases f a next w fail go = by_case (fails w)
    where
      by_case :
          (b : Bool)
          → R (
              proceed a next (
                if b
                then (none, after_statement w)
                else stored (some (f w.db)) (after_statement w)))
      by_case true = fail (after_statement w) refl
      by_case false = go (record (after_statement w) { db = f w.db }) refl

module _ (st : AttachmentSite) (caller : Text) (id : ℕ) (name : Text) where
  -- An error and the tables as they were; or the row is gone, which was a file of a draft of the
  -- caller.
  pub data IsOutcome (db : Db) (r : Answer × World) : Type 0 where
    refused : 400 ≤ r.0.status → r.1.db ≡ db → IsOutcome db r
    deleted :
        (m : Msg) (path : Text)
        → r.0.status ≡ 204
        → msg_by id db.msgs ≡ some m
        → (m.from == caller) ≡ true
        → is_some m.time_sent ≡ false
        → stored_path id name db ≡ some path
        → r.1.db ≡ drop_attachment st caller id name db
        → IsOutcome db r

  remove_later_if-db :
      (b : Bool) (path : Text) (v : World) → (if b then remove_later path v else v).db ≡ v.db
  remove_later_if-db true path v = by_case (is_empty path)
    where
      by_case :
          (b : Bool)
          → (if b
              then v
              else record v { after_commit = v.after_commit ++ remove_file path ∷ [] }).db
            ≡ v.db
      by_case true = refl
      by_case false = refl
  remove_later_if-db false path v = refl

  drop_file-IsOutcome :
      (m : Msg) (o : Option Text) (w : World) (db : Db)
      → w.db ≡ db
      → msg_by id db.msgs ≡ some m
      → (m.from == caller) ≡ true
      → is_some m.time_sent ≡ false
      → stored_path id name db ≡ o
      → IsOutcome db (drop_file st caller id name o w)
  drop_file-IsOutcome m none w db e f h t p = refused (omega arith) e
  drop_file-IsOutcome m (some path) w db e f h t p =
      write_cases (IsOutcome db) (drop_attachment st caller id name)
        (refusal 500 (codes "failed to delete attachment")) _ w
        (λ v ev. refused (omega arith) (ev ∙ e))
        (λ v ev. deleted m path refl f h t p (
          remove_later_if-db (is_inside st caller id name path) (st.clean path) v
          ∙ ev
          ∙ ap (drop_attachment st caller id name) e))

  drop_found-IsOutcome :
      (o : Option Msg) (w : World) (db : Db)
      → w.db ≡ db
      → msg_by id db.msgs ≡ o
      → IsOutcome db (drop_found st caller id name o w)
  drop_found-IsOutcome none w db e f = refused (omega arith) e
  drop_found-IsOutcome (some m) w db e f =
      by_case (m.from == caller) refl (is_some m.time_sent) refl
    where
      by_case :
          (b : Bool)
          → (m.from == caller) ≡ b
          → (t : Bool) → is_some m.time_sent ≡ t
          → IsOutcome db (
              if not b
              then (refusal 403 (codes "only the owner may delete attachments"), w)
              else if t
              then (refusal 403 (codes "attachments of a sent message cannot be deleted"), w)
              else or_answer
                  (query (stored_path id name))
                  attachment_failed
                  (drop_file st caller id name)
                  w)
      by_case false h t p = refused (omega arith) e
      by_case true h true p = refused (omega arith) e
      by_case true h false p =
          query_cases (IsOutcome db) (stored_path id name) attachment_failed
            (drop_file st caller id name) w (λ v ev. refused (omega arith) (ev ∙ e))
            (λ v ev.
              drop_file-IsOutcome m (stored_path id name w.db) v db (ev ∙ e) f h p
                (ap (stored_path id name) (sym e)))

-- Whichever statements fail, `DeleteAttachment` ends in one of two ways. Either it answers with an
-- error and the tables are as they were. Or it answers 204, the message is the caller's own and is
-- not sent, it had an attachment under the last part of the name asked for, and the tables are as
-- they were without the attachments of the message under that name.
pub delete_attachment-IsOutcome :
    (st : AttachmentSite) (caller filename : Text) (id : ℕ) (w : World)
    → IsOutcome st caller id
        (st.base filename)
        w.db
        (delete_attachment st caller filename (by_id id) w)
unfolding delete_attachment resolve_id
delete_attachment-IsOutcome st caller filename id w = named_file (is_no_name (st.base filename))
  where
    named_file :
        (b : Bool)
        → IsOutcome st caller id (st.base filename) w.db (
            if b
            then (invalid_filename, w)
            else or_answer
                (query λ db. msg_by id db.msgs)
                retrieve_failed
                (drop_found st caller id (st.base filename))
                w)
    named_file true = refused (omega arith) refl
    named_file false =
        query_cases (IsOutcome st caller id (st.base filename) w.db) (λ db. msg_by id db.msgs)
          retrieve_failed (drop_found st caller id (st.base filename)) w
          (λ v ev. refused (omega arith) ev)
          (λ v ev.
            drop_found-IsOutcome st caller id (st.base filename) (msg_by id w.db.msgs) v w.db ev
              refl)
