-- ===== src/Attachments/Sizes.antt =====
-- What an upload has passed: internal/handlers/attachments.go.
use mathlib.Core.Path.{◌∙◌}
use fmsg_webapi.Prelude.{
  ℕ, ◌+◌, ◌≤◌, ◌≡◌, refl, sym, ap, subst, false, not, Option, none, some, arith, ltb, find, ◌==◌,
  nat_eq, Text, codes, text_beq_iff, text_eq,
}
use fmsg_webapi.Attachments.Saving.{
  save_attachment-le, other_files, free_candidate-free, put_attachment-find, put_attachment-others,
}
use fmsg_webapi.Request.Frames.{fetch-some, exec-some, query-some}
use fmsg_webapi.Messages.Batches.{roll_back-passed}
use fmsg_webapi.Request.{exec}
use fmsg_webapi.Request.Success.{Succeeds, or_answer-passed, guard-passed}
use fmsg_webapi.Messages.Quoted.{stored_size}
use fmsg_webapi.Attachments.{
  AttachmentSite, free_candidate, Msg, msg_by, save_attachment, is_some, World, insert_attachment,
  record_attachment, answer, or_answer, message_stored_size, stored_body, savepoint, refusal,
  record_failed, rolled_back, always, Answer, FormFile, copy_file, Handler, upload_by_id,
  upload_found, upload_file, created_file, write_upload, query, retrieve_failed, msg_data_dir,
  is_no_name, invalid_filename, upload_to, read_limited, is_file,
}
use fmsg_webapi.Db.{Db, Attachment}

-- The file is in the table, the other files are as they were, and the message is not too large.
record IsSaved (st : AttachmentSite) (id : ℕ) (name : Text) (bytes : ℕ) (path : Text) (db db' : Db)
    : Type 0 where
  size : ℕ
  measured : stored_size id db' ≡ some size
  within : size ≤ st.max_msg_size
  saved : Attachment
  stored : find (is_file id name) db'.attachments ≡ some saved
  whole : saved.filesize ≡ bytes
  at_path : saved.filepath ≡ path
  others : other_files id name db' ≡ other_files id name db

-- What an upload that succeeds has passed, and what it leaves.
pub record IsUploaded (st : AttachmentSite) (identity : Text) (id : ℕ) (asked : Option FormFile)
    (db db' : Db) : Type 0 where
  pub row : Msg
  pub found : msg_by id db.msgs ≡ some row
  pub owned : row.from ≡ identity
  pub draft : is_some row.time_sent ≡ false
  pub file : FormFile
  pub given : asked ≡ some file
  pub size : ℕ
  pub measured : stored_size id db' ≡ some size
  pub within : size ≤ st.max_msg_size
  pub saved : Attachment
  pub stored : find (is_file id (st.base file.filename)) db'.attachments ≡ some saved
  pub whole : saved.filesize ≡ file.bytes
  pub small : file.bytes ≤ st.max_attach_size
  pub new_path : st.exists saved.filepath ≡ false
  pub others :
      other_files id (st.base file.filename) db' ≡ other_files id (st.base file.filename) db

module _ (st : AttachmentSite) (identity : Text) (id : ℕ) (name : Text) (bytes : ℕ)
    (path : Text) where
  save-IsSaved :
      (current : ℕ) (db : Db)
      → stored_size id db ≡ some current
      → ltb st.max_msg_size (current + bytes) ≡ false
      → IsSaved st id name bytes path db (save_attachment id name bytes path db)
  save-IsSaved current db h b =
      let (n, m, le) = save_attachment-le id name bytes path db (msg_by id db.msgs) refl h in
      let (a, f, z, p) = put_attachment-find id name bytes path db.attachments in
      record {
        size = n;
        measured = m;
        within = ground (arith, b, le);
        saved = a;
        stored = f;
        whole = z;
        at_path = p;
        others = put_attachment-others id name bytes path db.attachments;
      }

  insert-IsSaved :
      (current : ℕ) (w : World)
      → stored_size id w.db ≡ some current
      → Succeeds (insert_attachment st identity id name bytes path current w)
      → IsSaved st id name bytes path w.db
          (insert_attachment st identity id name bytes path current w).1.db
  insert-IsSaved current w h k =
      let save = save_attachment id name bytes path in
      let last : Unit {0} → Handler = λ _ v. (answer 201 (stored_body name bytes), v) in
      let next : Unit {0} → Handler = λ _. or_answer savepoint record_failed last in
      let (b, r, k1) =
        guard-passed (ltb st.max_msg_size (current + bytes))
          (refusal 413 (codes "total message size exceeds limit")) w
          (or_answer (exec (always save)) record_failed next w) (omega arith) k in
      let (_, v, e, r', k2) =
        or_answer-passed (exec (always save)) record_failed next w (omega arith) k1 in
      let ev = exec-some save w e in
      let (_, u, e', r'', _) = or_answer-passed savepoint record_failed last v (omega arith) k2 in
      let (_, eu) = query-some (λ _. tt) v e' in
      subst (λ (q : Answer × World). IsSaved st id name bytes path w.db q.1.db) (sym (r ∙ r' ∙ r''))
        (subst (λ (d : Db). IsSaved st id name bytes path w.db d) (sym (eu ∙ ev))
          (save-IsSaved current w.db h b))

  record-IsSaved :
      (w : World)
      → Succeeds (record_attachment st identity id name bytes path w)
      → IsSaved st id name bytes path w.db (record_attachment st identity id name bytes path w).1.db
  record-IsSaved w k =
      let insert = insert_attachment st identity id name bytes path in
      let inner =
        or_answer (message_stored_size id) (refusal 500 (codes "failed to check message size"))
          insert in
      let (_, v, e, r, k1) =
        or_answer-passed savepoint record_failed (λ _. rolled_back inner) w (omega arith) k in
      let (_, ev) = query-some (λ _. tt) w e in
      let (same, k2) = roll_back-passed v (inner v) k1 in
      let (current, u, e', r', k3) =
        or_answer-passed (message_stored_size id)
          (refusal 500 (codes "failed to check message size")) insert v (omega arith) k2 in
      let (h, eu) = fetch-some (stored_size id) v e' in
      subst (λ (q : Answer × World). IsSaved st id name bytes path w.db q.1.db)
        (sym (r ∙ same ∙ r'))
        (subst (λ (d : Db). IsSaved st id name bytes path d (insert current u).1.db) (eu ∙ ev)
          (insert-IsSaved current u (ap (stored_size id) eu ∙ h) k3))

module _ (st : AttachmentSite) (identity : Text) (id : ℕ) where
  copy-IsSaved :
      (name : Text) (bytes : ℕ) (path : Text) (w : World)
      → Succeeds (copy_file st identity id name bytes path w)
      → (bytes ≤ st.max_attach_size)
        × IsSaved st id name bytes path w.db (copy_file st identity id name bytes path w).1.db
  copy-IsSaved name bytes path w k =
      let (_, r, k1) =
        guard-passed (not (st.opens_file path)) (refusal 500 (codes "failed to save attachment")) w
          _ (omega arith) k in
      let (_, r', k2) =
        guard-passed (not (st.writes_file path)) (refusal 500 (codes "failed to write attachment"))
          w _ (omega arith) k1 in
      let (b, r'', k3) =
        guard-passed (ltb st.max_attach_size bytes)
          (refusal 413 (codes "attachment exceeds maximum size")) w
          (record_attachment st identity id name bytes path (created_file path w)) (omega arith)
          k2 in
      (
        ground (arith, b),
        subst (λ (q : Answer × World). IsSaved st id name bytes path w.db q.1.db)
            (sym (r ∙ r' ∙ r''))
            (record-IsSaved st identity id name bytes path (created_file path w) k3),
      )

  -- What was read is the whole file when it is not too long.
  read_limited-whole :
      (bytes : ℕ)
      → read_limited st identity id bytes ≤ st.max_attach_size
      → read_limited st identity id bytes ≡ bytes
  read_limited-whole bytes h = ground arith

  upload_file-IsUploaded :
      (fuel : ℕ) (m : Msg) (o : Option FormFile) (w : World) (db : Db)
      → w.db ≡ db
      → msg_by id db.msgs ≡ some m
      → m.from ≡ identity
      → is_some m.time_sent ≡ false
      → Succeeds (upload_file st identity id fuel m o w)
      → IsUploaded st identity id o db (upload_file st identity id fuel m o w).1.db
  upload_file-IsUploaded fuel m none w db ev f own d k = absurd (omega (arith, k.below))
  upload_file-IsUploaded fuel m (some file) w db ev f own d k =
      let name = st.base file.filename in
      let dir = msg_data_dir st.site m.from id in
      let (_, r, k1) = guard-passed (is_no_name name) invalid_filename w _ (omega arith) k in
      let (_, r', k2) =
        guard-passed (not (st.makes_dir dir)) (refusal 500 (codes "failed to prepare storage")) w
          (write_upload st identity id fuel dir file name w) (omega arith) k1 in
      subst (λ (q : Answer × World). IsUploaded st identity id (some file) db q.1.db) (sym (r ∙ r'))
        (at_path (free_candidate st fuel dir name 0) refl k2)
    where
      at_path :
          (p : Option Text)
          → free_candidate st fuel (msg_data_dir st.site m.from id) (st.base file.filename) 0 ≡ p
          → Succeeds (upload_to st identity id file (st.base file.filename) p w)
          → IsUploaded st identity id
              (some file)
              db
              (upload_to st identity id file (st.base file.filename) p w).1.db
      at_path none e k = absurd (omega (arith, k.below))
      at_path (some path) e k =
          let name = st.base file.filename in
          let (b, v) = copy-IsSaved name (read_limited st identity id file.bytes) path w k in
          let all = read_limited-whole file.bytes b in
          record {
            row = m;
            found = f;
            owned = own;
            draft = d;
            file = file;
            given = refl;
            size = v.size;
            measured = v.measured;
            within = v.within;
            saved = v.saved;
            stored = v.stored;
            whole = v.whole ∙ all;
            small = subst (λ n. n ≤ st.max_attach_size) all b;
            new_path =
                subst (λ p. st.exists p ≡ false) (sym v.at_path)
                  (free_candidate-free st (msg_data_dir st.site m.from id) name fuel 0 path e);
            others = v.others ∙ ap (other_files id name) ev;
          }

  -- An upload that succeeds records the whole file in the table, under the last part of its name and
  -- with a path that no file had, for a draft whose sender is the caller, to the byte; it leaves the
  -- other attachments as they were. After it the stored size of the message, body and files, is at
  -- most the maximum, also where the file takes the place of one of the same name, and the file's
  -- size is at most that of an attachment.
  pub upload_by_id-IsUploaded :
      (fuel : ℕ) (file : Option FormFile) (w : World)
      → Succeeds (upload_by_id st identity id fuel file w)
      → IsUploaded st identity id file w.db (upload_by_id st identity id fuel file w).1.db
  unfolding upload_by_id
  upload_by_id-IsUploaded fuel file w k =
      let next = upload_found st identity id fuel file in
      let (o, v, e, r, k1) =
        or_answer-passed (query λ db. msg_by id db.msgs) retrieve_failed next w (omega arith) k in
      let (eo, ev) = query-some (λ db. msg_by id db.msgs) w e in
      subst (λ (q : Answer × World). IsUploaded st identity id file w.db q.1.db) (sym r)
        (at_row o v ev (sym eo) k1)
    where
      at_row :
          (o : Option Msg) (v : World)
          → v.db ≡ w.db
          → msg_by id w.db.msgs ≡ o
          → Succeeds (upload_found st identity id fuel file o v)
          → IsUploaded st identity id file w.db (upload_found st identity id fuel file o v).1.db
      at_row none v ev eo k = absurd (omega (arith, k.below))
      at_row (some m) v ev eo k =
          let (a, r, k1) =
            guard-passed (not (m.from == identity))
              (refusal 403 (codes "only the owner may upload attachments")) v _ (omega arith) k in
          let (b, r', k2) =
            guard-passed (is_some m.time_sent)
              (refusal 403 (codes "attachments cannot be added to a sent message")) v
              (upload_file st identity id fuel m file v) (omega arith) k1 in
          subst (λ (q : Answer × World). IsUploaded st identity id file w.db q.1.db) (sym (r ∙ r'))
            (upload_file-IsUploaded fuel m file v w.db ev eo
              ((text_beq_iff m.from identity).0 (ground arith)) b k2)
