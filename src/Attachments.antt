-- ===== src/Attachments.antt =====
-- internal/handlers/attachments.go: the files of a message. This file has the upload. A new row has
-- the default of its column flags, which is taken to be 0.
pub mod Deleting
pub mod Files
pub mod Names
pub mod Saving
pub mod Serving
pub mod Sizes
use mathlib.Core.Option
use fmsg_webapi.Prelude.{
  ℕ, zero, suc, ◌+◌, ◌-◌, ◌*◌, Bool, not, ◌&&◌, ◌||◌, Option, none, some, List, [], ◌∷◌, ◌++◌, ltb,
  if◌then◌else◌, length, take, drop, ◌==◌, nat_eq, Text, codes, text_eq,
}
use fmsg_webapi.Trash.{purged_for}
use fmsg_webapi.Messages.Editing.{remove_later}
use fmsg_webapi.Trash.Storage.{message_stored_size}
use fmsg_webapi.Messages.MarkRead.{is_reader}
use fmsg_webapi.Address.{draft_hidden}
use fmsg_webapi.Messages.Adding.{savepoint, rolled_back}
use fmsg_webapi.Trash.Handlers.{not_found}
use fmsg_webapi.Messages.Drafts.{msg_data_dir, created_file}
use fmsg_webapi.Messages.Delivery.{count_rows}
use fmsg_webapi.Db.Queries.{always}
use fmsg_webapi.Messages.Access.{retrieve_failed, access_denied}
use fmsg_webapi.Strings.{is_empty, has_prefix, contains_byte}
use fmsg_webapi.Messages.{Site}
use fmsg_webapi.Db.{Msg, Db, Attachment, msg_by, is_some, Recipient, Added}
use fmsg_webapi.Request.{
  World, IdParam, Handler, Answer, or_answer, refusal, resolve_id, query, exec, or_default, answer,
  file_body, id_body, no_body, stored_body,
}

-- What the handlers are configured with, and the file system. `base`, `ext`, `clean` and `join` are
-- those of the package filepath; `exists` is os.Stat, and the next three tests say whether a step of
-- writing a file succeeds.
pub record AttachmentSite : Type 0 where
  pub site : Site
  pub open site use *
  pub max_attach_size : ℕ
  pub data_prefix : Text
  pub base : Text → Text
  pub ext : Text → Text
  pub clean : Text → Text
  pub join : Text → Text → Text
  pub exists : Text → Bool
  pub makes_dir : Text → Bool
  pub opens_file : Text → Bool
  pub writes_file : Text → Bool

-- A file of a multipart form, and its number of bytes.
pub record FormFile : Type 0 where
  pub filename : Text
  pub bytes : ℕ

abbrev pub dot : Text
dot = codes "."

abbrev pub is_no_name : Text → Bool
is_no_name name = name == dot || is_empty name

-- strings.TrimSuffix
abbrev pub trim_suffix : Text → Text → Text
trim_suffix name suffix =
    let n = length name - length suffix in if drop n name == suffix then take n name else name

module _ (st : AttachmentSite) where
  -- The candidate after `i` collisions.
  abbrev pub candidate : Text → Text → ℕ → Text
  candidate dir name zero = st.join dir name
  candidate dir name (suc i) =
      st.join dir (trim_suffix name (st.ext name) ++ codes "_" ++ st.decimal (suc i) ++ st.ext name)

  -- The loop of `resolveFilePath`, on fuel: the first free candidate from the i-th on.
  unfoldable pub free_candidate : ℕ → Text → Text → ℕ → Option Text
  free_candidate zero dir name i = none
  free_candidate (suc fuel) dir name i =
      if not (st.exists (candidate dir name i))
      then some (candidate dir name i)
      else free_candidate fuel dir name (suc i)

abbrev pub record_failed : Answer
record_failed = refusal 500 (codes "failed to record attachment")

abbrev pub invalid_filename : Answer
invalid_filename = refusal 400 (codes "invalid filename")

abbrev pub attachment_row : ℕ → Text → ℕ → Text → Attachment
attachment_row id name bytes path = record {
  msg_id = id;
  filename = name;
  flags = 0;
  filesize = bytes;
  filepath = path;
}

abbrev pub is_file : ℕ → Text → Attachment → Bool
is_file id name a = a.msg_id == id && a.filename == name

-- INSERT … ON CONFLICT (msg_id, filename) DO UPDATE.
unfoldable pub put_attachment : ℕ → Text → ℕ → Text → List Attachment → List Attachment
put_attachment id name bytes path [] = attachment_row id name bytes path ∷ []
put_attachment id name bytes path (a ∷ rows) =
    if is_file id name a
    then record a { filesize = bytes; filepath = path } ∷ rows
    else a ∷ put_attachment id name bytes path rows

abbrev pub save_attachment : ℕ → Text → ℕ → Text → Db → Db
save_attachment id name bytes path db = record db {
  attachments = put_attachment id name bytes path db.attachments;
}

module _ (st : AttachmentSite) (identity : Text) (id : ℕ) where
  -- The inner transaction's last steps; its rollback is as in Messages.Adding.
  abbrev pub insert_attachment : Text → ℕ → Text → ℕ → Handler
  insert_attachment name bytes path current w =
      if ltb st.max_msg_size (current + bytes)
      then (refusal 413 (codes "total message size exceeds limit"), w)
      else or_answer (exec (always (save_attachment id name bytes path))) record_failed
          (λ _. or_answer savepoint record_failed λ _ v. (answer 201 (stored_body name bytes), v)) w

  abbrev pub record_attachment : Text → ℕ → Text → Handler
  record_attachment name bytes path = or_answer savepoint record_failed λ _. rolled_back (
      or_answer (message_stored_size id) (refusal 500 (codes "failed to check message size"))
        (insert_attachment name bytes path))

  -- After the file is open: at most a byte more than the limit is read.
  abbrev pub copy_file : Text → ℕ → Text → Handler
  copy_file name bytes path w =
      if not (st.opens_file path)
      then (refusal 500 (codes "failed to save attachment"), w)
      else if not (st.writes_file path)
      then (refusal 500 (codes "failed to write attachment"), w)
      else if ltb st.max_attach_size bytes
      then (refusal 413 (codes "attachment exceeds maximum size"), w)
      else record_attachment name bytes path (created_file path w)

  abbrev pub read_limited : ℕ → ℕ
  read_limited bytes = if ltb st.max_attach_size bytes then st.max_attach_size + 1 else bytes

  -- Without a free path the code goes on searching; here the fuel has run out.
  abbrev pub upload_to : FormFile → Text → Option Text → Handler
  upload_to file name none w = (refusal 500 (codes "failed to save attachment"), w)
  upload_to file name (some path) w = copy_file name (read_limited file.bytes) path w

  abbrev pub write_upload : ℕ → Text → FormFile → Text → Handler
  write_upload fuel dir file name = upload_to file name (free_candidate st fuel dir name 0)

  abbrev pub upload_file : ℕ → Msg → Option FormFile → Handler
  upload_file fuel m none w = (refusal 400 (codes "file field required"), w)
  upload_file fuel m (some file) w =
      let name = st.base file.filename in
      let dir = msg_data_dir st.site m.from id in
      if is_no_name name
      then (invalid_filename, w)
      else if not (st.makes_dir dir)
      then (refusal 500 (codes "failed to prepare storage"), w)
      else write_upload fuel dir file name w

  -- The sender is compared byte by byte.
  abbrev pub upload_found : ℕ → Option FormFile → Option Msg → Handler
  upload_found fuel file none w = (not_found, w)
  upload_found fuel file (some m) w =
      if not (m.from == identity)
      then (refusal 403 (codes "only the owner may upload attachments"), w)
      else if is_some m.time_sent
      then (refusal 403 (codes "attachments cannot be added to a sent message"), w)
      else upload_file fuel m file w

  unfoldable pub upload_by_id : ℕ → Option FormFile → Handler
  upload_by_id fuel file =
      or_answer (query λ db. msg_by id db.msgs) retrieve_failed (upload_found fuel file)

-- `Upload`
unfoldable pub upload : AttachmentSite → Text → ℕ → Option FormFile → IdParam → Handler
upload st caller fuel file param = resolve_id param λ id. upload_by_id st caller id fuel file
