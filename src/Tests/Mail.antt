-- ===== src/Tests/Mail.antt =====
-- Two messages: one that was sent, and a reply to it that is a draft. The handlers of
-- internal/handlers/messages.go on them.
use fmsg_webapi.Prelude.{
  ℕ, ◌+◌, ◌≤◌, ◌≡◌, refl, ap, true, false, Option, none, some, [], ◌∷◌, arith, length, All, ◌==◌,
  nat_eq, Text, codes, text_eq,
}
use fmsg_webapi.Messages.Showing.{IsShownTo, get_message-IsShown}
use fmsg_webapi.Messages.ReceiptSizes.{IsReceipt}
use fmsg_webapi.Messages.ParentChecks.{IsAdmitted, create-IsAdmitted}
use fmsg_webapi.Messages.Adding.{add_by_id, insert_all_added}
use fmsg_webapi.Messages.Rereading.{mark_read_again}
use fmsg_webapi.Messages.Immutable.{IsRow, update_by_id-IsRow}
use fmsg_webapi.Db.Lineage.{trash_state}
use fmsg_webapi.Messages.Drafts.{insert_recipients, MessageInput, create}
use fmsg_webapi.Messages.Parents.{resolve_parent, no_parent, parent_id}
use fmsg_webapi.Messages.Editing.{update_draft, update_by_id}
use fmsg_webapi.Emoji.Utf8.{decode}
use fmsg_webapi.Messages.Bounds.{parse_limit_offset, number, no_param, parse_limit_offset-bounds}
use fmsg_webapi.Messages.Sending.{send_by_id, send_message}
use fmsg_webapi.Messages.Blocking.{reasons, undeliverable-eq-reasons}
use fmsg_webapi.Prelude.Int.{pos, negsuc, add64}
use fmsg_webapi.Messages.MarkRead.{mark_read_by_id, mark_read}
use fmsg_webapi.Messages.Access.{get_message, get_by_id, valid_prefix}
use fmsg_webapi.Request.{
  pooled, or_answer, direct, by_id, ◌>>=◌, resolve_id, opened, answer, read_body,
}
use fmsg_webapi.Messages.Replies.{
  undeliverable_reply_domains, by_domain, outcome_rows, never_addressed, remote_domains,
  parent_delivery_by_domain,
}
use fmsg_webapi.Address.{parse_addr, is_valid_addr, check_distinct_recipients, first_duplicate}
use fmsg_webapi.Messages.{Site, fetch_message}
use fmsg_webapi.Messages.Delivery.{resolve_local_delivery, Local, update_rows, deliver, deliver_all}
use fmsg_webapi.Messages.Receipts.{delivered_rows, IsKeyed, receipts-eq-deliveries, receipts_for}
use fmsg_webapi.Request.Success.{Succeeds, IsClean, named_id}
use fmsg_webapi.Trash.{Host}
use fmsg_webapi.Quota.{
  FmsgIdDetail, fetched, check_send_quota, check_send_limits, local_delivery_code,
  recv_limit_exceeded,
}
use fmsg_webapi.Db.{Recipient, Msg, Db}
use fmsg_webapi.Strings.{Casing, split, contains, contains_byte}

abbrev sender : Text
sender = codes "@a@h"

abbrev reader : Text
reader = codes "@b@h"

abbrev remote_addr : Text
remote_addr = codes "@c@r"

abbrev fold : Casing
fold = record { to_lower = λ s. s; equal_fold = λ s t. s == t; sql_lower = λ s. s }

abbrev host : Host
host = record {
  casing = fold;
  local_domain = codes "h";
  id_url = codes "id";
  retry_max_age = 0;
  safe_path = λ p. some p;
  stat_size = λ _. none;
}

abbrev no_limits : FmsgIdDetail
no_limits = record {
  accepting_new = true;
  limit_recv_size_total = negsuc 0;
  limit_recv_size_per_1d = negsuc 0;
  limit_recv_count_per_1d = negsuc 0;
  limit_send_size_total = negsuc 0;
  limit_send_size_per_msg = pos 100;
  limit_send_size_per_1d = negsuc 0;
  limit_send_count_per_1d = negsuc 0;
  recv_size_total = pos 0;
  recv_size_per_1d = pos 0;
  recv_count_per_1d = pos 0;
  send_size_total = pos 0;
  send_size_per_1d = pos 0;
  send_count_per_1d = pos 0;
}

abbrev finish_row : ℕ → Msg → Msg
finish_row now m = record m { time_sent = some now; sha256 = some (codes "hash") }

-- A finalizing that sets the time and a hash.
abbrev finalize : ℕ → ℕ → Db → Option (Text × Db)
finalize id now db = some (
  codes "hash",
  record db { msgs = update_rows (λ (m : Msg). m.id == id) (finish_row now) db.msgs },
)

abbrev site : Site
site = record {
  host = host;
  max_data_size = 100;
  max_msg_size = 100;
  short_text_size = 10;
  ask = λ _. fetched 200 no_limits;
  media_type = λ m. some m;
  extensions = λ _. [];
  in_data_dir = λ _. codes "dir";
  decimal = λ _. codes "1";
  create_file = λ _ _ _. some (codes "new");
  read_file = λ _ _. some (codes "hi");
  finalize = finalize;
  finalize_batch = λ _ _ db. some (none, db);
}

abbrev sent_row : Msg
sent_row = record {
  id = 1;
  version = pos 1;
  pid = none;
  psha256 = none;
  no_reply = false;
  important = false;
  deflate = false;
  terminal = false;
  time_sent = some 4;
  sha256 = none;
  from = sender;
  topic = [];
  type = codes "text/plain";
  size = 10;
  filepath = codes "f";
}

abbrev draft : Msg
draft = record sent_row { id = 2; pid = some 1; time_sent = none; from = reader }

abbrev open_row : ℕ → Text → Recipient
open_row id addr = record {
  msg_id = id;
  addr = addr;
  time_read = none;
  time_delivered = none;
  response_code = none;
}

abbrev tables : Db
tables = record {
  msgs = sent_row ∷ draft ∷ [];
  recipients = open_row 1 reader ∷ open_row 1 remote_addr ∷ open_row 2 remote_addr ∷ [];
  added = [];
  batches = [];
  notifies = [];
  attachments = [];
  trash = [];
}

mail_ops : Unit {0}
unfolding parse_addr split or_answer ◌>>=◌ resolve_id fetch_message get_message get_by_id
    mark_read_by_id mark_read send_by_id send_message undeliverable_reply_domains by_domain
    remote_domains parent_delivery_by_domain deliver deliver_all is_valid_addr contains
    contains_byte check_send_quota check_send_limits parse_limit_offset valid_prefix decode
    local_delivery_code update_draft resolve_parent add_by_id insert_all_added
    check_distinct_recipients first_duplicate insert_recipients add64 recv_limit_exceeded
    trash_state create
mail_ops = tt

-- The remote recipient of the parent has no outcome yet; another domain never had it.
undeliverable-eq-reasons_example :
    undeliverable_reply_domains fold
      (codes "r" ∷ codes "q" ∷ [])
      (codes "h")
      (by_domain fold [] (outcome_rows 1 tables))
    ≡ reasons fold (codes "r" ∷ codes "q" ∷ []) (codes "h") (outcome_rows 1 tables)
undeliverable-eq-reasons_example =
    undeliverable-eq-reasons fold (codes "r" ∷ codes "q" ∷ []) (codes "h") (outcome_rows 1 tables)

blocked_run :
    undeliverable_reply_domains fold
      (codes "r" ∷ codes "q" ∷ [])
      (codes "h")
      (by_domain fold [] (outcome_rows 1 tables))
    ≡ never_addressed (codes "q") ∷ []
unfolding mail_ops
blocked_run = refl

abbrev local : Local
local = record {
  casing = fold;
  local_domain = codes "h";
  ask = λ _ _. fetched 200 no_limits;
  table = direct;
  id = 1;
  now = 9;
}

tables-IsKeyed : IsKeyed direct 1 tables
tables-IsKeyed = record { at_most_one = λ addr. ground arith }

receipts-eq-deliveries_example :
    ((addr : Text)
      → delivered_rows direct 1 addr
          (resolve_local_delivery local
            (reader ∷ remote_addr ∷ reader ∷ [])
            (pooled tables [])).world.db
        ≡ delivered_rows direct 1 addr tables
          + receipts_for addr
              (resolve_local_delivery local
                (reader ∷ remote_addr ∷ reader ∷ [])
                (pooled tables [])).receipts)
    × All
        (IsReceipt local tables)
        (resolve_local_delivery local
          (reader ∷ remote_addr ∷ reader ∷ [])
          (pooled tables [])).receipts
receipts-eq-deliveries_example =
    receipts-eq-deliveries local (reader ∷ remote_addr ∷ reader ∷ []) (pooled tables [])
      tables-IsKeyed

-- The reader is delivered to once.
delivery_run :
    length
      (resolve_local_delivery local
        (reader ∷ remote_addr ∷ reader ∷ [])
        (pooled tables [])).receipts
    ≡ 1
unfolding mail_ops
delivery_run = refl

get_run : Succeeds (get_message site reader (by_id 1) (pooled tables []))
unfolding mail_ops
get_run = record { below = omega arith }

get_message-IsShown_example :
    (id : ℕ) × (named_id (by_id 1) tables ≡ some id)
    × IsShownTo site reader id tables (get_message site reader (by_id 1) (pooled tables [])).0
get_message-IsShown_example = get_message-IsShown site reader (by_id 1) (pooled tables []) get_run

pooled-IsClean : IsClean (pooled tables [])
pooled-IsClean = record { no_fault = refl; running = refl }

abbrev marked_tables : Db
marked_tables = (mark_read_by_id site reader 7 1 (pooled tables [])).1.db

marked_answer : (mark_read_by_id site reader 7 1 (pooled tables [])).0 ≡ answer 200 (read_body 1 7)
unfolding mail_ops
marked_answer = refl

mark_read_again_example :
    ((mark_read_by_id site reader 8 1 (pooled marked_tables [])).0
      ≡ (mark_read_by_id site reader 7 1 (pooled tables [])).0)
    × ((mark_read_by_id site reader 8 1 (pooled marked_tables [])).1.db
        ≡ (mark_read_by_id site reader 7 1 (pooled tables [])).1.db)
mark_read_again_example =
    mark_read_again site reader 7 8 1 (pooled tables []) (pooled marked_tables []) pooled-IsClean
      (record { no_fault = refl; running = refl }) (ap (λ a. a.status) marked_answer) refl

page_run : parse_limit_offset (number (pos 500)) (number (pos 3)) ≡ some (100, 3)
unfolding mail_ops
page_run = refl

parse_limit_offset-bounds_example :
    (1 ≤ 100)
    × (100 ≤ 100)
    × ((n : ℕ) → number (pos 500) ≡ number (pos n) → n ≤ 100 → ◌≡◌ {A = ℕ} 100 n)
    × (number (pos 500) ≡ no_param → ◌≡◌ {A = ℕ} 100 20)
parse_limit_offset-bounds_example =
    parse_limit_offset-bounds (number (pos 500)) (number (pos 3)) 100 3 page_run

prefix_run : valid_prefix site 3 (0xC3 ∷ 0xA9 ∷ 0xC3 ∷ []) ≡ 0xC3 ∷ 0xA9 ∷ []
unfolding mail_ops
prefix_run = refl

abbrev edit : MessageInput
edit = record {
  version = pos 1;
  no_reply = false;
  important = false;
  terminal = false;
  parent = no_parent;
  from = sender;
  to = reader ∷ [];
  topic = [];
  type = codes "text/plain";
  contents = codes "x";
}

update_by_id-IsRow_example :
    IsRow 1 sent_row (update_by_id site sender 1 (some edit) (opened tables [])).1.db
update_by_id-IsRow_example =
    update_by_id-IsRow site sender 1 sent_row 1 (some edit) (opened tables []) refl refl

update_refused : (update_by_id site sender 1 (some edit) (opened tables [])).0.status ≡ 403
unfolding mail_ops
update_refused = refl

-- The sent message with its hash, and a reply to it.
abbrev hashed_tables : Db
hashed_tables = record tables {
  msgs = record sent_row { sha256 = some (codes "0123456789abcdef0123456789abcdef") } ∷ [];
}

abbrev reply_input : MessageInput
reply_input = record edit { parent = parent_id 1; from = reader; to = sender ∷ [] }

create_run : Succeeds (create site reader 3 (some reply_input) (opened hashed_tables []))
unfolding mail_ops
create_run = record { below = omega arith }

create-IsAdmitted_example : IsAdmitted site reader reply_input hashed_tables
create-IsAdmitted_example =
    create-IsAdmitted site reader 3 reply_input (opened hashed_tables []) create_run
