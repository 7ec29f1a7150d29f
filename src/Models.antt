-- ===== src/Models.antt =====
-- What the handlers show of a message: internal/models/models.go. Times are numbers on the scale of
-- the tables; `formatDeliveredISO` only prints them.
use fmsg_webapi.Prelude.{ℕ, Bool, Option, List, Text}
use fmsg_webapi.Prelude.Int.{ℤ}
use fmsg_webapi.Db.Lineage.{State}

-- models.Attachment
pub record AttachmentInfo : Type 0 where
  pub size : ℕ
  pub filename : Text

pub record RecipientDelivery : Type 0 where
  pub addr : Text
  pub time_delivered : Option ℕ
  pub response_code : Option ℤ

pub record AddToBatch : Type 0 where
  pub batch_id : ℕ
  pub sha256 : Option Text
  pub add_to_from : Text
  pub time : ℕ
  pub to : List Text
  pub to_delivery : List RecipientDelivery

-- Without the reactions on the message, which stand in other messages.
pub record Message : Type 0 where
  pub sha256 : Option Text
  pub psha256 : Option Text
  pub version : ℤ
  pub has_pid : Bool
  pub has_add_to : Bool
  pub important : Bool
  pub no_reply : Bool
  pub deflate : Bool
  pub terminal : Bool
  pub pid : Option ℕ
  pub from : Text
  pub to : List Text
  pub to_delivery : List RecipientDelivery
  pub add_to : List AddToBatch
  pub time : Option ℕ
  pub topic : Text
  pub type : Text
  pub size : ℕ
  pub short_text : Text
  pub read : Bool
  pub time_read : Option ℕ
  pub attachments : List AttachmentInfo
  pub trash : Option State
