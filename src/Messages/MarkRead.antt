-- ===== src/Messages/MarkRead.antt =====
-- `MarkRead` of internal/handlers/messages.go, which runs on the pool.
use fmsg_webapi.Prelude.{
  ℕ, Bool, true, false, not, ◌&&◌, ◌||◌, Option, none, some, [], ◌∷◌, ◌++◌, if◌then◌else◌, any,
  ◌==◌, nat_eq, Text, codes, text_eq,
}
use fmsg_webapi.Trash.{purged_for}
use fmsg_webapi.Messages.Delivery.{update_rows}
use fmsg_webapi.Messages.Access.{time_read_by}
use fmsg_webapi.Trash.Handlers.{not_found}
use fmsg_webapi.Db.Queries.{always}
use fmsg_webapi.Messages.{Site, World, fetch}
use fmsg_webapi.Strings.{Casing}
use fmsg_webapi.Request.{
  Answer, IdParam, Handler, answer, refusal, resolve_id, read_body, or_answer, exec,
}
use fmsg_webapi.Db.{Recipient, Db, Added, Msg, is_some}

-- lower(addr) = lower($2)
abbrev pub is_reader : Casing → Text → Text → Bool
is_reader cs identity addr = cs.sql_lower addr == cs.sql_lower identity

abbrev pub is_sent : ℕ → Db → Bool
is_sent id db = any (λ (m : Msg). m.id == id && is_some m.time_sent) db.msgs

abbrev pub lookup_row : Option (Option ℕ) → Bool → Option (Option ℕ × Bool)
lookup_row none recipient = none
lookup_row (some existing) recipient = some (existing, recipient)

-- The row of the lookup: when the caller read the message, and whether it is sent and the caller a
-- recipient.
abbrev pub read_lookup : Casing → Text → ℕ → Db → Option (Option ℕ × Bool)
read_lookup cs identity id db = lookup_row (time_read_by (is_reader cs identity) id db) (
    (any (λ (r : Recipient). r.msg_id == id && is_reader cs identity r.addr) db.recipients
      || any (λ (a : Added). a.msg_id == id && is_reader cs identity a.addr) db.added)
    && is_sent id db)

abbrev pub read_to : ℕ → Recipient → Recipient
read_to now r = if is_some r.time_read then r else record r { time_read = some now }

abbrev pub read_added : ℕ → Added → Added
read_added now a = if is_some a.time_read then a else record a { time_read = some now }

-- The two UPDATE statements; rows that have a time are left.
abbrev pub set_read_to : Casing → Text → ℕ → ℕ → Db → Db
set_read_to cs identity id now db = record db {
  recipients =
      update_rows (λ r. r.msg_id == id && is_reader cs identity r.addr) (read_to now) db.recipients;
}

abbrev pub set_read_added : Casing → Text → ℕ → ℕ → Db → Db
set_read_added cs identity id now db = record db {
  added =
      update_rows (λ a. a.msg_id == id && is_reader cs identity a.addr) (read_added now) db.added;
}

abbrev pub mark_failed : Answer
mark_failed = refusal 500 (codes "failed to mark message read")

abbrev pub read_answer : ℕ → ℕ → Answer
read_answer id t = answer 200 (read_body id t)

module _ (s : Site) (identity : Text) (now : ℕ) where
  -- An error of the notification is logged.
  abbrev pub read_noted : ℕ → Option (Unit {0}) × World → Answer × World
  read_noted id (none, w) = (read_answer id now, w)
  read_noted id (some _, w) =
      (read_answer id now, record w { reads = w.reads ++ (id, identity) ∷ [] })

  abbrev pub set_read : ℕ → Handler
  set_read id = or_answer (exec (always (set_read_to s.casing identity id now))) mark_failed λ _.
      or_answer (exec (always (set_read_added s.casing identity id now))) mark_failed
        λ _ w. read_noted id (exec some w)

  abbrev pub unless_read : ℕ → Option ℕ → Bool × World → Answer × World
  unless_read id existing (true, w) = (not_found, w)
  unless_read id (some t) (false, w) = (read_answer id t, w)
  unless_read id none (false, w) = set_read id w

  abbrev pub read_found : ℕ → Option ℕ × Bool → Handler
  read_found id (existing, recipient) w =
      if not recipient
      then (not_found, w)
      else unless_read id existing (purged_for s.host identity id w)

  unfoldable pub mark_read_by_id : ℕ → Handler
  mark_read_by_id id =
      or_answer (fetch (read_lookup s.casing identity id)) mark_failed (read_found id)

-- `MarkRead`
unfoldable pub mark_read : Site → Text → ℕ → IdParam → Handler
mark_read s caller now param = resolve_id param (mark_read_by_id s caller now)
