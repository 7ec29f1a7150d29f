-- ===== src/Messages/Drafts.antt =====
-- Drafts: `Create` of internal/handlers/messages.go with `validateAddresses`, `mimeToExt`,
-- `saveMessageData` and `msgDataDir`.
use mathlib.Core.Option
use fmsg_webapi.Prelude.{
  ℕ, Bool, false, not, ◌&&◌, ◌||◌, Option, none, some, List, [], ◌∷◌, ◌++◌, ltb, if◌then◌else◌,
  length, any, ◌==◌, nat_eq, Text, codes, text_eq,
}
use fmsg_webapi.Messages.Delivery.{update_rows}
use fmsg_webapi.Db.Queries.{always, delete_msg}
use fmsg_webapi.Prelude.Int.{ℤ}
use fmsg_webapi.Address.{is_valid_addr, parse_addr, same_addr}
use fmsg_webapi.Messages.{Site, is_nil}
use fmsg_webapi.Messages.Parents.{
  Parent, ParentRef, has_topic_conflict, validate_parent, resolve_parent,
}
use fmsg_webapi.Db.{Recipient, Msg, Db}
use fmsg_webapi.Request.{
  World, Answer, refusal, remove_file, Handler, exec, or_answer, answer, id_body,
}

-- The body of a request, decoded from JSON.
pub record MessageInput : Type 0 where
  pub version : ℤ
  pub no_reply : Bool
  pub important : Bool
  pub terminal : Bool
  pub parent : ParentRef
  pub from : Text
  pub to : List Text
  pub topic : Text
  pub type : Text
  pub contents : Text

-- `validateAddresses`
abbrev pub has_bad_address : Text → List Text → Bool
has_bad_address from to = not (is_valid_addr from) || any (λ a. not (is_valid_addr a)) to

abbrev pub known_extension : Text → Text
known_extension media =
    if media == codes "text/plain"
    then codes ".txt"
    else if media == codes "text/html"
    then codes ".html"
    else if media == codes "application/json"
    then codes ".json"
    else if media == codes "application/pdf"
    then codes ".pdf"
    else codes ".bin"

abbrev pub first_extension : Text → List Text → Text
first_extension media [] = known_extension media
first_extension media (ext ∷ _) = ext

module _ (s : Site) where
  abbrev pub mime_to_ext : Text → Text
  mime_to_ext mime = elim (s.media_type mime) [
    | none ↦ codes ".bin"
    | some media ↦ first_extension media (s.extensions media)
  ]

  abbrev pub msg_data_dir : Text → ℕ → Text
  msg_data_dir from id =
      let (user, domain) = parse_addr from in
      s.in_data_dir (domain ∷ user ∷ codes "out" ∷ s.decimal id ∷ [])

  -- `saveMessageData`: the path of the file, or an error.
  abbrev pub save_message_data : Text → ℕ → Text → Text → Option Text
  save_message_data from id ext contents = s.create_file (msg_data_dir from id) ext contents

-- `createdFile`: a rollback removes the file.
abbrev pub created_file : Text → World → World
created_file path w = record w { on_rollback = w.on_rollback ++ remove_file path ∷ [] }

abbrev pub draft_row : ℕ → MessageInput → Option Parent → Msg
draft_row id i parent = record {
  id = id;
  version = i.version;
  pid = Option.map (λ (p : Parent). p.id) parent;
  psha256 = Option.map (λ (p : Parent). p.hash) parent;
  no_reply = i.no_reply;
  important = i.important;
  deflate = false;
  terminal = i.terminal;
  time_sent = none;
  sha256 = none;
  from = i.from;
  topic = i.topic;
  type = i.type;
  size = length i.contents;
  filepath = [];
}

abbrev pub insert_msg : Msg → Db → Db
insert_msg m db = record db { msgs = db.msgs ++ m ∷ [] }

abbrev pub set_filepath : ℕ → Text → Db → Db
set_filepath id path db = record db {
  msgs = update_rows (λ (m : Msg). m.id == id) (λ m. record m { filepath = path }) db.msgs;
}

abbrev pub recipient_row : ℕ → Text → Recipient
recipient_row id addr = record {
  msg_id = id;
  addr = addr;
  time_read = none;
  time_delivered = none;
  response_code = none;
}

-- INSERT … ON CONFLICT DO NOTHING.
abbrev pub insert_recipient : ℕ → Text → Db → Db
insert_recipient id addr db =
    if any (λ (r : Recipient). r.msg_id == id && r.addr == addr) db.recipients
    then db
    else record db { recipients = db.recipients ++ recipient_row id addr ∷ [] }

-- The loop over the recipients.
unfoldable pub insert_recipients : ℕ → List Text → Answer → Handler → Handler
insert_recipients id [] failure next w = next w
insert_recipients id (addr ∷ to) failure next w =
    or_answer (exec (always (insert_recipient id addr))) failure
      (λ _. insert_recipients id to failure next) w

abbrev pub foreign_from : Answer
foreign_from = refusal 403 (codes "from address must match authenticated user")

abbrev pub bad_address : Answer
bad_address = refusal 400 (codes "invalid from or to address")

abbrev pub topic_on_reply : Answer
topic_on_reply = refusal 400 (codes "topic must be empty when pid is supplied")

abbrev pub data_too_large : Answer
data_too_large = refusal 413 (codes "message data exceeds maximum size")

abbrev pub not_saved : Answer
not_saved = refusal 500 (codes "failed to save message data")

-- The id is the next of the table's sequence.
module _ (s : Site) (identity : Text) (id : ℕ) (i : MessageInput) where
  -- The failed file: the message is deleted again, whether that works or not.
  abbrev pub stored_draft : Option Text → Handler
  stored_draft none w = (not_saved, (exec (always (delete_msg id)) w).1)
  stored_draft (some path) w =
      or_answer (exec (always (set_filepath id path)))
        (refusal 500 (codes "failed to save message"))
        (λ _.
          insert_recipients id i.to (refusal 500 (codes "failed to save recipients"))
            λ v. (answer 201 (id_body id), v))
        (created_file path w)

  abbrev pub insert_draft : Option Parent → Handler
  insert_draft parent =
      or_answer (exec (always (insert_msg (draft_row id i parent))))
        (refusal 500 (codes "failed to create message"))
        λ _. stored_draft (save_message_data s i.from id (mime_to_ext s i.type) i.contents)

  abbrev pub checked_draft : Option Parent → Handler
  checked_draft parent w =
      if has_topic_conflict parent i.topic
      then (topic_on_reply, w)
      else if ltb s.max_data_size (length i.contents)
      then (data_too_large, w)
      else validate_parent parent (insert_draft parent) w

  abbrev pub create_from : Handler
  create_from w =
      if not (same_addr s.casing i.from identity)
      then (foreign_from, w)
      else if is_nil i.to
      then (refusal 400 (codes "to list must not be empty"), w)
      else if has_bad_address i.from i.to
      then (bad_address, w)
      else resolve_parent s identity checked_draft i.parent w

-- `Create`; a body that cannot be decoded is `none`.
unfoldable pub create : Site → Text → ℕ → Option MessageInput → Handler
create s caller id none w = (refusal 400 (codes "invalid request body"), w)
create s caller id (some i) w = create_from s caller id i w
