-- ===== src/Tests/Uploads.antt =====
-- A file for a draft: internal/handlers/attachments.go.
use fmsg_webapi.Prelude.{
  ℕ, zero, suc, ◌≡◌, refl, true, false, Option, none, some, [], ◌∷◌, arith, ◌==◌, nat_eq, Text,
  codes, text_eq,
}
use fmsg_webapi.Attachments.Deleting.{IsOutcome, delete_attachment-IsOutcome}
use fmsg_webapi.Db.Lineage.{trash_state}
use fmsg_webapi.Attachments.Files.{download, delete_attachment}
use fmsg_webapi.Attachments.Serving.{IsServed, download-IsServed}
use fmsg_webapi.Messages.Delivery.{update_rows}
use fmsg_webapi.Request.{or_answer, opened, ◌>>=◌, resolve_id, by_id}
use fmsg_webapi.Prelude.Int.{pos, negsuc}
use fmsg_webapi.Address.{parse_addr}
use fmsg_webapi.Request.Success.{Succeeds}
use fmsg_webapi.Messages.{Site}
use fmsg_webapi.Attachments.Sizes.{IsUploaded, upload_by_id-IsUploaded}
use fmsg_webapi.Trash.{Host}
use fmsg_webapi.Quota.{FmsgIdDetail, fetched}
use fmsg_webapi.Db.{Msg, Db, Attachment}
use fmsg_webapi.Strings.{Casing, has_prefix, contains_byte}
use fmsg_webapi.Attachments.{
  free_candidate, FormFile, AttachmentSite, upload_by_id, upload, put_attachment,
}

abbrev sender : Text
sender = codes "@a@h"

abbrev reader : Text
reader = codes "@b@h"

abbrev fold : Casing
fold = record { to_lower = λ s. s; equal_fold = λ s t. s == t; sql_lower = λ s. s }

abbrev host : Host
host = record {
  casing = fold;
  local_domain = codes "h";
  id_url = codes "id";
  retry_max_age = 0;
  safe_path = λ p. some p;
  stat_size = λ _. none;
}

abbrev no_limits : FmsgIdDetail
no_limits = record {
  accepting_new = true;
  limit_recv_size_total = negsuc 0;
  limit_recv_size_per_1d = negsuc 0;
  limit_recv_count_per_1d = negsuc 0;
  limit_send_size_total = negsuc 0;
  limit_send_size_per_msg = pos 100;
  limit_send_size_per_1d = negsuc 0;
  limit_send_count_per_1d = negsuc 0;
  recv_size_total = pos 0;
  recv_size_per_1d = pos 0;
  recv_count_per_1d = pos 0;
  send_size_total = pos 0;
  send_size_per_1d = pos 0;
  send_count_per_1d = pos 0;
}

abbrev finish_row : ℕ → Msg → Msg
finish_row now m = record m { time_sent = some now; sha256 = some (codes "hash") }

-- A finalizing that sets the time and a hash.
abbrev finalize : ℕ → ℕ → Db → Option (Text × Db)
finalize id now db = some (
  codes "hash",
  record db { msgs = update_rows (λ (m : Msg). m.id == id) (finish_row now) db.msgs },
)

abbrev site : Site
site = record {
  host = host;
  max_data_size = 100;
  max_msg_size = 100;
  short_text_size = 10;
  ask = λ _. fetched 200 no_limits;
  media_type = λ m. some m;
  extensions = λ _. [];
  in_data_dir = λ _. codes "dir";
  decimal = λ _. codes "1";
  create_file = λ _ _ _. some (codes "new");
  read_file = λ _ _. some (codes "hi");
  finalize = finalize;
  finalize_batch = λ _ _ db. some (none, db);
}

abbrev sent_row : Msg
sent_row = record {
  id = 1;
  version = pos 1;
  pid = none;
  psha256 = none;
  no_reply = false;
  important = false;
  deflate = false;
  terminal = false;
  time_sent = some 4;
  sha256 = none;
  from = sender;
  topic = [];
  type = codes "text/plain";
  size = 10;
  filepath = codes "f";
}

abbrev draft : Msg
draft = record sent_row { id = 2; pid = some 1; time_sent = none; from = reader }

abbrev tables : Db
tables = record {
  msgs = sent_row ∷ draft ∷ [];
  recipients = [];
  added = [];
  batches = [];
  notifies = [];
  attachments = [];
  trash = [];
}

-- One file has the name already.
abbrev store : AttachmentSite
store = record {
  site = site;
  max_attach_size = 50;
  data_prefix = codes "/data/";
  base = λ name. name;
  ext = λ _. [];
  clean = λ path. path;
  join = λ dir name. name;
  exists = λ path. path == codes "a";
  makes_dir = λ _. true;
  opens_file = λ _. true;
  writes_file = λ _. true;
}

abbrev file : FormFile
file = record { filename = codes "a"; bytes = 20 }

upload_ops : Unit {0}
unfolding parse_addr or_answer ◌>>=◌ resolve_id upload upload_by_id free_candidate put_attachment
    download has_prefix contains_byte trash_state delete_attachment
upload_ops = tt

-- Numbers by strokes.
tally : ℕ → Text
tally zero = []
tally (suc n) = b'1' ∷ tally n

abbrev counting : AttachmentSite
counting = record store { site = record site { decimal = tally } }

upload_run : Succeeds (upload_by_id store reader 2 3 (some file) (opened tables []))
unfolding upload_ops
upload_run = record { below = omega arith }

upload_by_id-IsUploaded_example :
    IsUploaded store reader 2
      (some file)
      tables
      (upload_by_id store reader 2 3 (some file) (opened tables [])).1.db
upload_by_id-IsUploaded_example =
    upload_by_id-IsUploaded store reader 2 3 (some file) (opened tables []) upload_run

-- The draft has a file; its writer asks for it.
abbrev kept_file : Attachment
kept_file = record {
  msg_id = 2;
  flags = 0;
  filename = codes "a";
  filesize = 20;
  filepath = codes "/data/a";
}

abbrev file_tables : Db
file_tables = record tables { attachments = kept_file ∷ [] }

download_run : Succeeds (download store reader (codes "a") (by_id 2) (opened file_tables []))
unfolding upload_ops
download_run = record { below = omega arith }

download-IsServed_example :
    IsServed store reader 2
      (codes "a")
      file_tables
      (download store reader (codes "a") (by_id 2) (opened file_tables [])).0
download-IsServed_example =
    download-IsServed store reader (codes "a") 2 (opened file_tables []) download_run

delete_attachment-IsOutcome_example :
    IsOutcome store reader 2
      (codes "a")
      file_tables
      (delete_attachment store reader (codes "a") (by_id 2) (opened file_tables []))
delete_attachment-IsOutcome_example =
    delete_attachment-IsOutcome store reader (codes "a") 2 (opened file_tables [])

delete_run :
    (delete_attachment store reader (codes "a") (by_id 2) (opened file_tables [])).1.db.attachments
    ≡ []
unfolding upload_ops
delete_run = refl
