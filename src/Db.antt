-- ===== src/Db.antt =====
-- The tables of the database that the message handlers of internal/handlers read and write: those
-- of fmsgd, and fmsg_api_trash of dd.sql. A table is the list of its rows. Times are numbers on
-- one scale (the columns hold seconds as floats, written from whole microseconds).
pub mod Lineage
pub mod Queries
use fmsg_webapi.Prelude.{
  ℕ, Bool, true, false, Option, none, some, List, find, ◌==◌, nat_eq, Text, text_eq,
}
use fmsg_webapi.Prelude.Int.{ℤ}

pub record Msg : Type 0 where
  pub id : ℕ
  pub version : ℤ
  pub pid : Option ℕ
  pub psha256 : Option Text
  pub no_reply : Bool
  pub important : Bool
  pub deflate : Bool
  pub terminal : Bool
  pub time_sent : Option ℕ
  pub sha256 : Option Text
  pub from : Text
  pub topic : Text
  pub type : Text
  pub size : ℕ
  pub filepath : Text

-- A row of msg_to.
pub record Recipient : Type 0 where
  pub msg_id : ℕ
  pub addr : Text
  pub time_read : Option ℕ
  pub time_delivered : Option ℕ
  pub response_code : Option ℤ

-- A row of msg_add_to.
pub record Added : Type 0 where
  pub msg_id : ℕ
  pub batch_id : ℕ
  pub addr : Text
  pub time_read : Option ℕ
  pub time_delivered : Option ℕ
  pub response_code : Option ℤ

-- A row of msg_add_to_batch.
pub record Batch : Type 0 where
  pub id : ℕ
  pub msg_id : ℕ
  pub add_to_from : Text
  pub time_added : ℕ
  pub sha256 : Option Text

-- A row of msg_add_to_notify.
pub record Notify : Type 0 where
  pub batch_id : ℕ
  pub domain : Text
  pub time_notified : Option ℕ
  pub response_code : Option ℤ

pub record Attachment : Type 0 where
  pub msg_id : ℕ
  pub filename : Text
  pub flags : ℕ
  pub filesize : ℕ
  pub filepath : Text

-- A row of fmsg_api_trash.
pub record Trash : Type 0 where
  pub addr : Text
  pub msg_id : ℕ
  pub thread : Bool
  pub time_deleted : ℕ
  pub time_purged : Option ℕ

pub record Db : Type 0 where
  pub msgs : List Msg
  pub recipients : List Recipient
  pub added : List Added
  pub batches : List Batch
  pub notifies : List Notify
  pub attachments : List Attachment
  pub trash : List Trash

abbrev pub is_some {ℓ} : {A : Type ℓ} → Option A → Bool
is_some none = false
is_some (some _) = true

-- The row of a message; its id is the key.
abbrev pub msg_by : ℕ → List Msg → Option Msg
msg_by id ms = find (λ m. m.id == id) ms
