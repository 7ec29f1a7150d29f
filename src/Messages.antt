-- ===== src/Messages.antt =====
-- internal/handlers/messages.go: the messages of an address. This file has what the handlers are
-- configured with and the loading of a message with its recipients, add-to batches and attachments:
-- `fetchMessage`, `loadRecipients` and `loadAddToBatches`.
pub mod Replies
pub mod Blocking
pub mod Delivery
pub mod ReceiptSizes
pub mod Receipts
pub mod Loading
pub mod MarkRead
pub mod Rereading
pub mod Parents
pub mod Drafts
pub mod Editing
pub mod Sending
pub mod Showing
pub mod Quoted
pub mod SendGate
pub mod Adding
pub mod ParentFrames
pub mod ParentChecks
pub mod Immutable
pub mod Bounds
pub mod Batches
pub mod BatchChecks
pub mod FullBatch
pub mod Access
pub mod Reading
use fmsg_webapi.Prelude.{
  ℕ, ◌*◌, false, not, Option, none, some, List, [], ◌∷◌, map, ltb, if◌then◌else◌, keep, ◌==◌,
  nat_eq, Text, text_eq,
}
use fmsg_webapi.Emoji.{is_nil}
use fmsg_webapi.Trash.Storage.{attachments_of}
use fmsg_webapi.Quota.{Fetched}
use fmsg_webapi.Models.{RecipientDelivery, Message, AttachmentInfo, AddToBatch}
use fmsg_webapi.Request.{World, Query, or_default, fetch, query, ◌>>=◌}
use fmsg_webapi.Trash.{Host}
use fmsg_webapi.Db.{Recipient, Msg, Db, Batch, Added, Attachment, msg_by, is_some}

-- What the handlers are configured with, and what they call: fmsgid (`ask`, a fresh lookup), the
-- file system, the package mime, and the package message of fmsgd. `in_data_dir` joins a path below
-- the data directory; `create_file` writes a new file in a directory, with a suffix, and gives its
-- path; `read_file` reads up to so many bytes. `finalize` and `finalize_batch` give a message or a
-- batch its hash, or fail.
pub record Site : Type 0 where
  pub host : Host
  pub open host use *
  pub max_data_size : ℕ
  pub max_msg_size : ℕ
  pub short_text_size : ℕ
  pub ask : Text → Fetched
  pub media_type : Text → Option Text
  pub extensions : Text → List Text
  pub in_data_dir : List Text → Text
  pub decimal : ℕ → Text
  pub create_file : Text → Text → Text → Option Text
  pub read_file : Text → ℕ → Option Text
  pub finalize : ℕ → ℕ → Db → Option (Text × Db)
  pub finalize_batch : ℕ → ℕ → Db → Option (Option Text × Db)

-- The one address that a caller sees the messages of.
abbrev pub visible_addrs : Site → Text → List Text
visible_addrs s identity = s.casing.to_lower identity ∷ []

abbrev pub recipient_rows : ℕ → Db → List Recipient
recipient_rows id db = keep (λ (r : Recipient). r.msg_id == id) db.recipients

abbrev pub delivery_to : Recipient → RecipientDelivery
delivery_to r = record {
  addr = r.addr;
  time_delivered = r.time_delivered;
  response_code = r.response_code;
}

abbrev pub delivery_added : Added → RecipientDelivery
delivery_added a = record {
  addr = a.addr;
  time_delivered = a.time_delivered;
  response_code = a.response_code;
}

-- `loadRecipients`
abbrev pub load_recipients : ℕ → World → List Recipient × World
load_recipients id = or_default (query (recipient_rows id)) []

-- ORDER BY b.id.
abbrev insert_batch : Batch → List Batch → List Batch
insert_batch b [] = b ∷ []
insert_batch b (c ∷ bs) = if ltb b.id c.id then b ∷ c ∷ bs else c ∷ insert_batch b bs

abbrev sort_batches : List Batch → List Batch
sort_batches [] = []
sort_batches (b ∷ bs) = insert_batch b (sort_batches bs)

abbrev pub added_rows : ℕ → Db → List Added
added_rows batch db = keep (λ (a : Added). a.batch_id == batch) db.added

abbrev pub batch_of : Db → Batch → AddToBatch
batch_of db b = record {
  batch_id = b.id;
  sha256 = b.sha256;
  add_to_from = b.add_to_from;
  time = b.time_added;
  to = map (λ (a : Added). a.addr) (added_rows b.id db);
  to_delivery = map delivery_added (added_rows b.id db);
}

abbrev pub batches_of : ℕ → Db → List AddToBatch
batches_of id db =
    map (batch_of db) (sort_batches (keep (λ (b : Batch). b.msg_id == id) db.batches))

-- `loadAddToBatches`
abbrev pub load_add_to_batches : ℕ → World → List AddToBatch × World
load_add_to_batches id = or_default (query (batches_of id)) []

abbrev pub attachment_infos : ℕ → Db → List AttachmentInfo
attachment_infos id db =
    map (λ (a : Attachment). record { size = a.filesize; filename = a.filename })
      (attachments_of id db)

abbrev pub load_attachments : ℕ → World → List AttachmentInfo × World
load_attachments id = or_default (query (attachment_infos id)) []

abbrev pub message_of : Msg → List Recipient → List AddToBatch → List AttachmentInfo → Message
message_of m rs bs atts = record {
  sha256 = m.sha256;
  psha256 = m.psha256;
  version = m.version;
  has_pid = is_some m.pid;
  has_add_to = not (is_nil bs);
  important = m.important;
  no_reply = m.no_reply;
  deflate = m.deflate;
  terminal = m.terminal;
  pid = m.pid;
  from = m.from;
  to = map (λ (r : Recipient). r.addr) rs;
  to_delivery = map delivery_to rs;
  add_to = bs;
  time = m.time_sent;
  topic = m.topic;
  type = m.type;
  size = m.size;
  short_text = [];
  read = false;
  time_read = none;
  attachments = atts;
  trash = none;
}

abbrev pub with_parts : Msg → World → Message × World
with_parts m w =
    let rs = load_recipients m.id w in
    let bs = load_add_to_batches m.id rs.1 in
    let atts = load_attachments m.id bs.1 in (message_of m rs.0 bs.0 atts.0, atts.1)

abbrev pub with_path : Option Msg → Query (Option (Message × Text))
with_path none w = (some none, w)
with_path (some m) w = let r = with_parts m w in (some (some (r.0, m.filepath)), r.1)

-- `fetchMessage`, with the path of the body; `some none` where there is no such message.
unfoldable pub fetch_message : ℕ → Query (Option (Message × Text))
fetch_message id = query (λ db. msg_by id db.msgs) >>= with_path
