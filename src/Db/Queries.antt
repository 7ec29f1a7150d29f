-- ===== src/Db/Queries.antt =====
-- Single statements on the tables, as the handlers send them.
use fmsg_webapi.Prelude.{
  ℕ, Bool, not, ◌&&◌, ◌||◌, Option, none, some, List, [], ◌∷◌, map, if◌then◌else◌, any, keep, ◌==◌,
  nat_eq, Text, text_eq,
}
use fmsg_webapi.Strings.{Casing}
use fmsg_webapi.Db.{Db, Msg, Recipient, Added, Batch, Notify, Attachment, Trash, msg_by, is_some}

-- Whether the message has the address among its participants; `participates`.
abbrev pub participates : Casing → Text → ℕ → Db → Bool
participates cs addr id db =
    any (λ (m : Msg). m.id == id && cs.sql_lower m.from == addr) db.msgs
    || any (λ (r : Recipient). r.msg_id == id && cs.sql_lower r.addr == addr) db.recipients
    || any (λ (a : Added). a.msg_id == id && cs.sql_lower a.addr == addr) db.added

abbrev pub is_mark : Text → ℕ → Trash → Bool
is_mark addr id t = t.addr == addr && t.msg_id == id

-- INSERT … ON CONFLICT (addr, msg_id) DO UPDATE.
unfoldable pub upsert : Trash → (Trash → Trash) → List Trash → List Trash
upsert row change [] = row ∷ []
upsert row change (t ∷ ts) =
    if is_mark row.addr row.msg_id t then change t ∷ ts else t ∷ upsert row change ts

abbrev pub mark_row : Text → ℕ → Bool → ℕ → Trash
mark_row addr id thread now = record {
  addr = addr;
  msg_id = id;
  thread = thread;
  time_deleted = now;
  time_purged = none;
}

abbrev pub purge_row : Text → ℕ → Bool → ℕ → Trash
purge_row addr id thread now = record {
  addr = addr;
  msg_id = id;
  thread = thread;
  time_deleted = now;
  time_purged = some now;
}

-- A statement's new tables, or none where a constraint refuses it.
abbrev pub Statement : Type 0
Statement = Db → Option Db

abbrev pub always : (Db → Db) → Statement
always f db = some (f db)

-- The statement that marks a message as deleted; its foreign key wants the message.
abbrev pub mark_deleted : Text → ℕ → Bool → ℕ → Statement
mark_deleted addr id thread now db =
    if not (is_some (msg_by id db.msgs))
    then none
    else some (record db {
      trash =
          upsert (mark_row addr id thread now) (λ t. record t { thread = t.thread || thread })
            db.trash;
    })

-- The statement that marks a message as deleted for good.
abbrev pub mark_purge : Text → ℕ → Bool → ℕ → Statement
mark_purge addr id thread now db =
    if not (is_some (msg_by id db.msgs))
    then none
    else some (record db {
      trash =
          upsert (purge_row addr id thread now)
            (λ t. record t { time_purged = some now; thread = t.thread || thread }) db.trash;
    })

abbrev pub has_purge : Text → ℕ → Db → Bool
has_purge addr id db = any (λ t. is_mark addr id t && is_some t.time_purged) db.trash

-- DELETE of the marks of an address on some messages, but for those deleted for good.
abbrev pub unmark : Text → List ℕ → Db → Db
unmark addr ids db = record db {
  trash =
      keep
        (λ t. not (t.addr == addr && any (λ i. i == t.msg_id) ids && not (is_some t.time_purged)))
        db.trash;
}

-- Batches of a message.
abbrev pub is_batch_of : ℕ → Db → ℕ → Bool
is_batch_of id db batch = any (λ (b : Batch). b.id == batch && b.msg_id == id) db.batches

-- The statements that take a message off the host, in their order. A row of fmsg_api_trash goes
-- with its message.
abbrev pub orphan_replies : ℕ → Db → Db
orphan_replies id db = record db {
  msgs =
      map
        (λ (m : Msg). elim m.pid as (λ _. Msg) [
          | none ↦ m
          | some p ↦ if p == id then record m { pid = none } else m
        ])
        db.msgs;
}

abbrev pub delete_notifies : ℕ → Db → Db
delete_notifies id db = record db {
  notifies = keep (λ (n : Notify). not (is_batch_of id db n.batch_id)) db.notifies;
}

abbrev pub delete_added : ℕ → Db → Db
delete_added id db = record db { added = keep (λ (a : Added). not (a.msg_id == id)) db.added }

abbrev pub delete_batches : ℕ → Db → Db
delete_batches id db = record db { batches = keep (λ (b : Batch). not (b.msg_id == id)) db.batches }

abbrev pub delete_recipients : ℕ → Db → Db
delete_recipients id db = record db {
  recipients = keep (λ (r : Recipient). not (r.msg_id == id)) db.recipients;
}

abbrev pub delete_attachments : ℕ → Db → Db
delete_attachments id db = record db {
  attachments = keep (λ (a : Attachment). not (a.msg_id == id)) db.attachments;
}

abbrev pub delete_msg : ℕ → Db → Db
delete_msg id db = record db {
  msgs = keep (λ (m : Msg). not (m.id == id)) db.msgs;
  trash = keep (λ (t : Trash). not (t.msg_id == id)) db.trash;
}

abbrev pub removal : ℕ → List (Db → Db)
removal id =
    (λ db. db)
    ∷ orphan_replies id
    ∷ delete_notifies id
    ∷ delete_added id
    ∷ delete_batches id
    ∷ delete_recipients id
    ∷ delete_attachments id
    ∷ delete_msg id
    ∷ []
