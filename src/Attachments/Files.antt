-- ===== src/Attachments/Files.antt =====
-- `Download` and `DeleteAttachment` of internal/handlers/attachments.go.
use mathlib.Core.Option
use fmsg_webapi.Prelude.{
  ℕ, ◌+◌, Bool, true, false, not, ◌&&◌, ◌||◌, Option, none, some, [], ◌∷◌, if◌then◌else◌, find,
  keep, ◌==◌, nat_eq, Text, codes, text_eq,
}
use fmsg_webapi.Strings.{contains_byte}
use fmsg_webapi.Db.{Db}
use fmsg_webapi.Attachments.{
  AttachmentSite, Handler, has_prefix, refusal, World, count_rows, is_file, IdParam, Msg,
  Attachment, access_denied, resolve_id, not_found, Recipient, or_answer, is_no_name, query,
  or_default, exec, is_some, answer, is_reader, draft_hidden, Added, file_body, purged_for,
  invalid_filename, always, msg_by, no_body, remove_later, retrieve_failed,
}
use fmsg_webapi.Request.{Answer}

abbrev pub stored_path : ℕ → Text → Db → Option Text
stored_path id name db =
    Option.map (λ (a : Attachment). a.filepath) (find (is_file id name) db.attachments)

abbrev pub attachment_missing : Answer
attachment_missing = refusal 404 (codes "attachment not found")

abbrev pub attachment_failed : Answer
attachment_failed = refusal 500 (codes "failed to retrieve attachment")

module _ (st : AttachmentSite) (identity : Text) (id : ℕ) (name : Text) where
  -- The cleaned path lies below the data directory.
  abbrev pub is_inside : Text → Bool
  is_inside path = has_prefix (st.clean path) st.data_prefix

  abbrev pub served_path : Option Text → Handler
  served_path none w = (attachment_missing, w)
  served_path (some path) w =
      (if not (is_inside path) then access_denied else answer 200 (file_body (st.clean path)), w)

  abbrev pub served_file : Handler
  served_file = or_answer (query (stored_path id name)) attachment_failed served_path

  abbrev pub participant_count : Db → ℕ
  participant_count db =
      count_rows (λ (r : Recipient). r.msg_id == id && is_reader st.casing identity r.addr)
        db.recipients
      + count_rows (λ (a : Added). a.msg_id == id && is_reader st.casing identity a.addr) db.added

  abbrev pub if_counted : ℕ × World → Answer × World
  if_counted (n, w) = if n == 0 then (access_denied, w) else served_file w

  abbrev pub file_unless_gone : Msg → Bool × World → Answer × World
  file_unless_gone m (true, w) = (not_found, w)
  file_unless_gone m (false, w) =
      if not (m.from == identity)
      then if_counted (or_default (query participant_count) 0 w)
      else served_file w

  abbrev pub attachment_found : Option Msg → Handler
  attachment_found none w = (not_found, w)
  attachment_found (some m) w =
      if draft_hidden st.casing (identity ∷ []) m.from m.time_sent
      then (not_found, w)
      else file_unless_gone m (purged_for st.host identity id w)

  abbrev pub drop_attachment : Db → Db
  drop_attachment db = record db {
    attachments = keep (λ a. not (is_file id name a)) db.attachments;
  }

  abbrev pub drop_file : Option Text → Handler
  drop_file none w = (attachment_missing, w)
  drop_file (some path) w =
      or_answer (exec (always drop_attachment)) (refusal 500 (codes "failed to delete attachment"))
        (λ _ v. (answer 204 no_body, if is_inside path then remove_later (st.clean path) v else v))
        w

  abbrev pub drop_found : Option Msg → Handler
  drop_found none w = (not_found, w)
  drop_found (some m) w =
      if not (m.from == identity)
      then (refusal 403 (codes "only the owner may delete attachments"), w)
      else if is_some m.time_sent
      then (refusal 403 (codes "attachments of a sent message cannot be deleted"), w)
      else or_answer (query (stored_path id name)) attachment_failed drop_file w

abbrev pub is_path : Text → Bool
is_path name = contains_byte b'/' name || contains_byte 92 name

-- `Download`, on the pool.
unfoldable pub download : AttachmentSite → Text → Text → IdParam → Handler
download st caller filename param = resolve_id param λ id w.
    let name = st.base filename in
    if is_no_name name || is_path name
    then (invalid_filename, w)
    else or_answer (query λ db. msg_by id db.msgs) retrieve_failed
        (attachment_found st caller id name) w

-- `DeleteAttachment`
unfoldable pub delete_attachment : AttachmentSite → Text → Text → IdParam → Handler
delete_attachment st caller filename param = resolve_id param λ id w.
    let name = st.base filename in
    if is_no_name name
    then (invalid_filename, w)
    else or_answer (query λ db. msg_by id db.msgs) retrieve_failed (drop_found st caller id name) w
