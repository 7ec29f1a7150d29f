-- ===== src/Messages/Access.antt =====
-- Reading a message: `Get`, `DownloadData` and `extractShortText` of internal/handlers/messages.go.
-- Both handlers run on the pool. The reaction that a message is, and those on it, are left out of
-- the answer.
use fmsg_webapi.Prelude.{
  ℕ, zero, suc, ◌+◌, Bool, true, false, not, ◌&&◌, ◌||◌, Option, none, some, List, [], ◌∷◌, map,
  if◌then◌else◌, length, take, keep, ◌==◌, nat_eq, Text, codes, text_eq,
}
use fmsg_webapi.Trash.{trash_state_q, purged_for, is_purged}
use fmsg_webapi.Trash.Handlers.{not_found}
use fmsg_webapi.Address.{is_recipient, draft_hidden, any_recipient, any_add_to_contains}
use fmsg_webapi.Emoji.Utf8.{decode}
use fmsg_webapi.Strings.{is_empty, contains, has_prefix}
use fmsg_webapi.Db.Lineage.{State}
use fmsg_webapi.Messages.{
  Site, Message, World, query, fetch_message, visible_addrs, fetch, or_default,
}
use fmsg_webapi.Db.{Db, Recipient, Msg, is_some, Added, msg_by}
use fmsg_webapi.Request.{
  Answer, refusal, IdParam, Handler, answer, resolve_id, or_answer, message_body, file_body,
}

module _ (s : Site) where
  -- `isTextMIME`
  abbrev pub is_text_mime : Text → Bool
  is_text_mime mime =
      not (is_empty mime)
      && elim (s.media_type mime) [ none ↦ false | some media ↦ has_prefix media (codes "text/") ]

  -- The loop that drops bytes until the rest is valid; the count is of the bytes left.
  unfoldable pub valid_prefix : ℕ → Text → Text
  valid_prefix zero buf = []
  valid_prefix (suc n) buf =
      if is_some (decode (take (suc n) buf)) then take (suc n) buf else valid_prefix n buf

  abbrev pub short_text_of_file : Option Text → Text
  short_text_of_file none = []
  short_text_of_file (some buf) = valid_prefix (length buf) buf

  abbrev pub short_text_at : Option Text → Text
  short_text_at none = []
  short_text_at (some path) = short_text_of_file (s.read_file path s.short_text_size)

  -- `extractShortText`
  abbrev pub extract_short_text : Text → Text → Text
  extract_short_text path mime =
      if s.short_text_size == 0 || not (is_text_mime mime)
      then []
      else short_text_at (s.safe_path path)

-- A scalar subquery: at most one row.
abbrev pub scalar {ℓ} : {A : Type ℓ} → List A → Option (Option A)
scalar [] = some none
scalar (a ∷ []) = some (some a)
scalar _ = none

-- COALESCE of two subqueries; the second runs when the first gives no value.
abbrev pub coalesce : Option (Option (Option ℕ)) → Option (Option (Option ℕ)) → Option (Option ℕ)
coalesce none b = none
coalesce (some (some (some t))) b = some (some t)
coalesce (some _) none = none
coalesce (some _) (some none) = some none
coalesce (some _) (some (some t)) = some t

-- When one of the addresses that the test accepts read the message.
abbrev pub time_read_by : (Text → Bool) → ℕ → Db → Option (Option ℕ)
time_read_by reader id db =
    coalesce
      (scalar (
        map (λ (r : Recipient). r.time_read)
          (keep (λ (r : Recipient). r.msg_id == id && reader r.addr) db.recipients)))
      (scalar (
        map (λ (a : Added). a.time_read)
          (keep (λ (a : Added). a.msg_id == id && reader a.addr) db.added)))

abbrev pub retrieve_failed : Answer
retrieve_failed = refusal 500 (codes "failed to retrieve message")

abbrev pub access_denied : Answer
access_denied = refusal 403 (codes "access denied")

module _ (s : Site) (addrs : List Text) where
  abbrev pub with_read_state : Message → Option (Option ℕ) × World → Answer × World
  with_read_state msg (none, w) = (answer 200 (message_body msg), w)
  with_read_state msg (some t, w) =
      (answer 200 (message_body (record msg { time_read = t; read = is_some t })), w)

  abbrev pub shown : ℕ → Bool → Message → Handler
  shown id is_sender msg w =
      if is_sender
      then (answer 200 (message_body msg), w)
      else with_read_state msg
          (fetch (time_read_by (λ addr. contains (s.casing.sql_lower addr) addrs) id) w)

  abbrev pub unless_gone : ℕ → Bool → Message → Text → Option State → Handler
  unless_gone id is_sender msg path state w =
      if is_purged state
      then (not_found, w)
      else shown id is_sender
          (record msg { trash = state; short_text = extract_short_text s path msg.type }) w

  abbrev pub may_see : Message → Bool
  may_see msg =
      is_recipient s.casing addrs msg.from
      || any_recipient s.casing addrs msg.to
      || any_add_to_contains s.casing addrs msg.add_to

  abbrev pub get_found : Text → ℕ → Option (Message × Text) → Handler
  get_found identity id none w = (not_found, w)
  get_found identity id (some (msg, path)) w =
      if draft_hidden s.casing addrs msg.from msg.time
      then (not_found, w)
      else if not (may_see msg)
      then (access_denied, w)
      else or_answer (trash_state_q s.host identity id) retrieve_failed
          (unless_gone id (is_recipient s.casing addrs msg.from) msg path) w

  unfoldable pub get_by_id : Text → ℕ → Handler
  get_by_id identity id = or_answer (fetch_message id) retrieve_failed (get_found identity id)

-- `Get`
unfoldable pub get_message : Site → Text → IdParam → Handler
get_message s caller param =
    let identity = s.casing.to_lower caller in
    resolve_id param (get_by_id s (visible_addrs s caller) identity)

module _ (s : Site) (addrs : List Text) where
  abbrev pub recipient_count : ℕ → Db → ℕ
  recipient_count id db =
      length (
        keep (λ (r : Recipient). r.msg_id == id && contains (s.casing.sql_lower r.addr) addrs)
          db.recipients)
      + length (
          keep (λ (a : Added). a.msg_id == id && contains (s.casing.sql_lower a.addr) addrs)
            db.added)

  abbrev pub file_answer : Text → Answer
  file_answer path =
      if is_empty path
      then refusal 404 (codes "message data not available")
      else elim (s.safe_path path) [
        | none ↦ access_denied
        | some clean ↦ answer 200 (file_body clean)
      ]

  -- An error counts as no recipient.
  abbrev pub counted_recipients : Text → ℕ × World → Answer × World
  counted_recipients path (n, w) = (if n == 0 then access_denied else file_answer path, w)

  abbrev pub authorized_file : ℕ → Msg → Handler
  authorized_file id m w =
      if is_recipient s.casing addrs m.from
      then (file_answer m.filepath, w)
      else counted_recipients m.filepath (or_default (query (recipient_count id)) 0 w)

  abbrev pub file_unless_purged : ℕ → Msg → Bool × World → Answer × World
  file_unless_purged id m (true, w) = (not_found, w)
  file_unless_purged id m (false, w) = authorized_file id m w

  abbrev pub download_found : Text → ℕ → Option Msg → Handler
  download_found identity id none w = (not_found, w)
  download_found identity id (some m) w =
      if draft_hidden s.casing addrs m.from m.time_sent
      then (not_found, w)
      else file_unless_purged id m (purged_for s.host identity id w)

  unfoldable pub download_by_id : Text → ℕ → Handler
  download_by_id identity id =
      or_answer (query λ db. msg_by id db.msgs) retrieve_failed (download_found identity id)

-- `DownloadData`
unfoldable pub download_data : Site → Text → IdParam → Handler
download_data s caller param =
    resolve_id param (download_by_id s (visible_addrs s caller) (s.casing.to_lower caller))
