-- ===== src/Messages/Editing.antt =====
-- `Update` and `Delete` of internal/handlers/messages.go.
use mathlib.Core.Option
use fmsg_webapi.Prelude.{
  ℕ, ◌+◌, false, not, Option, none, some, List, [], ◌∷◌, ◌++◌, map, ltb, if◌then◌else◌, length,
  ◌==◌, nat_eq, Text, codes, text_eq,
}
use fmsg_webapi.Messages.Delivery.{update_rows}
use fmsg_webapi.Trash.Storage.{total}
use fmsg_webapi.Address.{same_addr}
use fmsg_webapi.Messages.Access.{retrieve_failed}
use fmsg_webapi.Strings.{is_empty}
use fmsg_webapi.Db.Queries.{
  delete_added, always, delete_msg, delete_recipients, delete_notifies, delete_batches,
  delete_attachments,
}
use fmsg_webapi.Messages.Parents.{Parent, has_topic_conflict, validate_parent, resolve_parent}
use fmsg_webapi.Trash.Handlers.{not_found, Flags, trash_sent}
use fmsg_webapi.Messages.{Site, Message, or_default, fetch_message, attachments_of, query, fetch}
use fmsg_webapi.Messages.Drafts.{
  MessageInput, data_too_large, save_message_data, foreign_from, not_saved, created_file,
  has_bad_address, mime_to_ext, topic_on_reply, insert_recipients, bad_address,
}
use fmsg_webapi.Db.{Db, Attachment, Msg, is_some, msg_by}
use fmsg_webapi.Request.{
  World, Answer, exec, or_answer, Handler, IdParam, refusal, remove_file, resolve_id, answer,
  id_body, no_body,
}

abbrev pub attachment_total : ℕ → Db → ℕ
attachment_total id db = total (map (λ (a : Attachment). a.filesize) (attachments_of id db))

abbrev pub edited : MessageInput → Option Parent → Text → Msg → Msg
edited i parent path m = record m {
  version = i.version;
  pid = Option.map (λ (p : Parent). p.id) parent;
  psha256 = Option.map (λ (p : Parent). p.hash) parent;
  no_reply = i.no_reply;
  important = i.important;
  deflate = false;
  terminal = i.terminal;
  topic = i.topic;
  type = i.type;
  size = length i.contents;
  filepath = path;
}

abbrev pub edit_msg : ℕ → MessageInput → Option Parent → Text → Db → Db
edit_msg id i parent path db = record db {
  msgs = update_rows (λ (m : Msg). m.id == id) (edited i parent path) db.msgs;
}

-- `afterCommit` with the removal of a file, if there is one.
abbrev pub remove_later : Text → World → World
remove_later path w =
    if is_empty path then w else record w { after_commit = w.after_commit ++ remove_file path ∷ [] }

abbrev pub recipients_failed : Answer
recipients_failed = refusal 500 (codes "failed to update recipients")

module _ (s : Site) (identity : Text) (id : ℕ) (old_path : Text) (i : MessageInput) where
  abbrev pub replace_recipients : Handler
  replace_recipients = or_answer (exec (always (delete_recipients id))) recipients_failed λ _.
      insert_recipients id i.to recipients_failed
        λ w. (answer 200 (id_body id), remove_later old_path w)

  abbrev pub write_edit : Option Parent → Option Text → Handler
  write_edit parent none w = (not_saved, w)
  write_edit parent (some path) w =
      or_answer (exec (always (edit_msg id i parent path)))
        (refusal 500 (codes "failed to update message")) (λ _. replace_recipients)
        (created_file path w)

  abbrev pub sized_edit : Option Parent → ℕ → Handler
  sized_edit parent attached w =
      if ltb s.max_msg_size (length i.contents + attached)
      then (refusal 413 (codes "total message size exceeds limit"), w)
      else write_edit parent (save_message_data s i.from id (mime_to_ext s i.type) i.contents) w

  abbrev pub edit_size : Option Parent → Handler
  edit_size parent w =
      if ltb s.max_data_size (length i.contents)
      then (data_too_large, w)
      else or_answer (query (attachment_total id))
          (refusal 500 (codes "failed to check message size")) (sized_edit parent) w

  abbrev pub checked_edit : Option Parent → Handler
  checked_edit parent w =
      if has_topic_conflict parent i.topic
      then (topic_on_reply, w)
      else validate_parent parent (edit_size parent) w

  abbrev pub edit_from : Handler
  edit_from w =
      if not (same_addr s.casing i.from identity)
      then (foreign_from, w)
      else if has_bad_address i.from i.to
      then (bad_address, w)
      else resolve_parent s identity checked_edit i.parent w

module _ (s : Site) (identity : Text) (id : ℕ) where
  abbrev pub edit_input : Text → Option MessageInput → Handler
  edit_input old_path none w = (refusal 400 (codes "invalid request body"), w)
  edit_input old_path (some i) w = edit_from s identity id old_path i w

  abbrev pub update_found : Option MessageInput → Option (Message × Text) → Handler
  update_found input none w = (not_found, w)
  update_found input (some (existing, path)) w =
      if not (same_addr s.casing existing.from identity)
      then (refusal 403 (codes "only the owner may update a message"), w)
      else if is_some existing.time
      then (refusal 403 (codes "sent messages are immutable"), w)
      else edit_input path input w

  abbrev pub update_by_id : Option MessageInput → Handler
  update_by_id input = or_answer (fetch_message id) retrieve_failed (update_found input)

-- `Update`
unfoldable pub update_draft : Site → Text → Option MessageInput → IdParam → Handler
update_draft s caller input param = resolve_id param λ id. update_by_id s caller id input

abbrev pub remove_all_later : List Text → World → World
remove_all_later [] w = w
remove_all_later (p ∷ ps) w =
    remove_all_later ps (record w { after_commit = w.after_commit ++ remove_file p ∷ [] })

abbrev pub attachment_paths : ℕ → Db → List Text
attachment_paths id db = map (λ (a : Attachment). a.filepath) (attachments_of id db)

-- A statement whose error is only logged.
abbrev pub try_exec : (Db → Db) → World → World
try_exec f w = (exec (always f) w).1

module _ (s : Site) (identity : Text) (id : ℕ) where
  -- An error reading the attachments leaves their files.
  abbrev pub files_of_draft : World → World
  files_of_draft w =
      let r = or_default (query (attachment_paths id)) [] w in remove_all_later r.0 r.1

  abbrev pub parts_of_draft : World → World
  parts_of_draft w =
      try_exec (delete_added id)
        (try_exec (delete_recipients id) (try_exec (delete_attachments id) (files_of_draft w)))

  abbrev pub body_path : World → Text × World
  body_path = or_default (fetch λ db. Option.map (λ (m : Msg). m.filepath) (msg_by id db.msgs)) []

  abbrev pub delete_row : Text × World → Answer × World
  delete_row (path, w) =
      or_answer (exec (always (delete_msg id))) (refusal 500 (codes "failed to delete message"))
        (λ _ v. (answer 204 no_body, remove_later path v)) w

  abbrev pub delete_draft : Handler
  delete_draft w =
      or_answer (exec (always (delete_notifies id)))
        (refusal 500 (codes "failed to delete notifications"))
        (λ _.
          or_answer (exec (always (delete_batches id)))
            (refusal 500 (codes "failed to delete batches")) λ _ v. delete_row (body_path v))
        (parts_of_draft w)

  abbrev pub delete_found : Flags → ℕ → Option (Message × Text) → Handler
  delete_found flags now none w = (not_found, w)
  delete_found flags now (some (existing, _)) w =
      if is_some existing.time
      then trash_sent s.host identity id flags now w
      else if not (same_addr s.casing existing.from identity)
      then (refusal 403 (codes "only the owner may delete a message"), w)
      else delete_draft w

  abbrev pub delete_by_id : Flags → ℕ → Handler
  delete_by_id flags now = or_answer (fetch_message id) retrieve_failed (delete_found flags now)

-- `Delete`
unfoldable pub delete_message : Site → Text → Flags → ℕ → IdParam → Handler
delete_message s caller flags now param = resolve_id param λ id. delete_by_id s caller id flags now
