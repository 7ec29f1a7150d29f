-- ===== src/Trash/Removal.antt =====
-- `removeIfUnheld` and `removeUnheld` of internal/handlers/trash.go, and fmsg_api_delivery_pending
-- of dd.sql.
use fmsg_webapi.Prelude.{
  ℕ, suc, ◌+◌, Bool, true, false, not, ◌&&◌, ◌||◌, Option, none, some, List, [], ◌∷◌, ◌++◌, map,
  ltb, if◌then◌else◌, any, keep, ◌==◌, nat_eq, Text, text_eq,
}
use fmsg_webapi.Prelude.Int.{ℤ, pos, negsuc}
use fmsg_webapi.Strings.{split}
use fmsg_webapi.Db.{Db, Msg, Recipient, Added, Batch, Notify, Attachment, msg_by, is_some}
use fmsg_webapi.Db.Queries.{has_purge, removal}
use fmsg_webapi.Request.{Query, query, fetch, exec, pure, ◌>>=◌, ◌>>◌}
use fmsg_webapi.Trash.{Host, local_domains, max_age_of}

-- split_part(s, '@', 3): the third piece, or nothing.
abbrev pub third : List Text → Text
third (_ ∷ _ ∷ s ∷ _) = s
third _ = []

abbrev pub sent_from : ℕ → Db → List Text
sent_from id db =
    map (λ (m : Msg). m.from) (keep (λ (m : Msg). m.id == id && is_some m.time_sent) db.msgs)

abbrev pub delivered_to : ℕ → Db → List Text
delivered_to id db =
    map (λ (r : Recipient). r.addr)
      (keep (λ (r : Recipient). r.msg_id == id && is_some r.time_delivered) db.recipients)
    ++ map (λ (a : Added). a.addr)
        (keep (λ (a : Added). a.msg_id == id && is_some a.time_delivered) db.added)

-- An address of this host that has not deleted the message for good.
abbrev pub holds : Host → ℕ → Db → Text → Bool
holds h id db addr =
    any (λ d. d == third (split b'@' (h.casing.sql_lower addr))) (local_domains h)
    && not (has_purge (h.casing.sql_lower addr) id db)

unfoldable pub is_held : Host → ℕ → Db → Bool
is_held h id db = any (holds h id db) (sent_from id db ++ delivered_to id db)

-- -1, 3, 5 and 101.
abbrev pub is_retryable : ℤ → Bool
is_retryable (negsuc n) = n == 0
is_retryable (pos n) = n == 3 || n == 5 || n == 101

-- Not delivered, not refused for good, and younger than the limit.
abbrev pub may_retry : ℕ → ℕ → Option ℕ → Option ℤ → ℕ → Bool
may_retry now max_age delivered code since =
    not (is_some delivered)
    && elim code [ none ↦ true | some c ↦ is_retryable c ]
    && ltb now (since + max_age)

abbrev pub since_sent : ℕ → Db → Option ℕ
since_sent id db = elim (msg_by id db.msgs) [ none ↦ none | some m ↦ m.time_sent ]

abbrev pub recipient_pending : ℕ → ℕ → ℕ → Db → Recipient → Bool
recipient_pending id now max_age db r = r.msg_id == id && elim (since_sent id db) [
  | none ↦ false
  | some sent ↦ may_retry now max_age r.time_delivered r.response_code sent
]

abbrev pub added_pending : ℕ → ℕ → ℕ → Db → Added → Bool
added_pending id now max_age db a =
    a.msg_id == id
    && any
        (λ (b : Batch).
          b.id == a.batch_id && may_retry now max_age a.time_delivered a.response_code b.time_added)
        db.batches

abbrev pub notify_pending : ℕ → ℕ → ℕ → Db → Notify → Bool
notify_pending id now max_age db n =
    any
      (λ (b : Batch).
        b.id == n.batch_id
        && b.msg_id == id
        && may_retry now max_age n.time_notified n.response_code b.time_added)
      db.batches

unfoldable pub delivery_pending : ℕ → ℕ → ℕ → Db → Bool
delivery_pending id now max_age db =
    any (recipient_pending id now max_age db) db.recipients
    || any (added_pending id now max_age db) db.added
    || any (notify_pending id now max_age db) db.notifies

abbrev pub keeps : Host → ℕ → ℕ → Db → Bool
keeps h now id db = is_held h id db || delivery_pending id now (max_age_of h.retry_max_age) db

-- The loop over the statements.
abbrev pub run_all : List (Db → Db) → Query (Unit {0})
run_all [] = pure tt
run_all (f ∷ fs) = exec (λ db. some (f db)) >> run_all fs

-- Whether a path is still the file of a message or an attachment.
abbrev pub is_shared : Text → Db → Bool
is_shared path db =
    any (λ (m : Msg). m.filepath == path) db.msgs
    || any (λ (a : Attachment). a.filepath == path) db.attachments

-- The files to delete, of those that the removed message named.
unfoldable pub unshared : Host → List Text → Query (List Text)
unshared h [] = pure []
unshared h (p ∷ ps) =
    let rest = unshared h ps in
    elim (h.safe_path p) [
      | none ↦ rest
      | some clean ↦ (do
        shared ← query (is_shared p)
        files ← rest
        pure (if shared then files else clean ∷ files))
    ]

abbrev pub remove_msg : Host → ℕ → Query (Bool × List Text)
remove_msg h id = do
  body ← fetch λ db. elim (msg_by id db.msgs) [ none ↦ none | some m ↦ some m.filepath ]
  paths ← query λ db.
      map (λ (a : Attachment). a.filepath)
        (keep (λ (a : Attachment). a.msg_id == id) db.attachments)
  run_all (removal id)
  files ← unshared h (body ∷ paths)
  pure (true, files)

-- `removeIfUnheld`: whether the message was removed, and the files to delete.
unfoldable pub remove_if_unheld : Host → ℕ → ℕ → Query (Bool × List Text)
remove_if_unheld h now id = do
  kept ← query (keeps h now id)
  if kept then pure (false, []) else remove_msg h id

abbrev pub count_removed : Bool × List Text → ℕ × List Text → ℕ × List Text
count_removed (gone, paths) (n, files) = if gone then (suc n, paths ++ files) else (n, files)

-- `removeUnheld`: how many were removed, and the files.
pub remove_unheld : Host → ℕ → List ℕ → Query (ℕ × List Text)
remove_unheld h now [] = pure (0, [])
remove_unheld h now (id ∷ ids) = do
  one ← remove_if_unheld h now id
  others ← remove_unheld h now ids
  pure (count_removed one others)
