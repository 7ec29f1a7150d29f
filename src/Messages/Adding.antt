-- ===== src/Messages/Adding.antt =====
-- `AddRecipients` of internal/handlers/messages.go. Its inner transaction is a savepoint of the
-- request's.
use fmsg_webapi.Prelude.{
  ℕ, Bool, true, false, not, ◌&&◌, Option, none, some, List, [], ◌∷◌, ◌++◌, map, ltb, if◌then◌else◌,
  length, any, keep, ◌==◌, nat_eq, Text, codes, text_eq,
}
use fmsg_webapi.Messages.Access.{retrieve_failed}
use fmsg_webapi.Trash.{purged_for}
use fmsg_webapi.Trash.Handlers.{not_found}
use fmsg_webapi.Messages.MarkRead.{is_reader}
use fmsg_webapi.Address.{
  same_addr, is_valid_addr, domain_of, check_distinct_recipients, at_sign, draft_hidden,
}
use fmsg_webapi.Db.Queries.{always}
use fmsg_webapi.Messages.{Site, query, is_nil, recipient_rows, or_default}
use fmsg_webapi.Strings.{split, Casing, contains}
use fmsg_webapi.Request.{
  World, Query, Handler, Answer, answer, fails, IdParam, or_answer, refusal, after_statement,
  resolve_id, exec, added_body, deliver_locally, additional,
}
use fmsg_webapi.Db.{Notify, Db, Added, is_some, Recipient, Msg, msg_by}

-- split_part(addr, '@', 3)
abbrev third : List Text → Text
third (_ ∷ _ ∷ d ∷ _) = d
third _ = []

abbrev pub domain_part : Text → Text
domain_part addr = third (split at_sign addr)

-- SELECT DISTINCT.
abbrev pub distinct_texts : List Text → List Text
distinct_texts [] = []
distinct_texts (x ∷ xs) = x ∷ keep (λ y. not (y == x)) (distinct_texts xs)

abbrev pub participant_addrs : ℕ → Db → List Text
participant_addrs id db =
    map (λ (m : Msg). m.from) (keep (λ (m : Msg). m.id == id) db.msgs)
    ++ map (λ (r : Recipient). r.addr) (recipient_rows id db)

-- The domains to notify: the participants', but for this host's and those that learn of the batch
-- by its delivery.
abbrev pub notify_domains : Casing → Text → List Text → ℕ → Db → List Text
notify_domains cs local_domain new_domains id db = distinct_texts (
    keep (λ d. not (d == cs.sql_lower local_domain) && not (contains d new_domains))
      (map (λ addr. cs.sql_lower (domain_part addr)) (participant_addrs id db)))

abbrev pub notify_row : ℕ → Text → Notify
notify_row batch domain = record {
  batch_id = batch;
  domain = domain;
  time_notified = none;
  response_code = none;
}

abbrev pub insert_notifies : Casing → Text → List Text → ℕ → ℕ → Db → Db
insert_notifies cs local_domain new_domains id batch db = record db {
  notifies =
      db.notifies ++ map (notify_row batch) (notify_domains cs local_domain new_domains id db);
}

abbrev pub insert_batch_row : ℕ → ℕ → Text → ℕ → Db → Db
insert_batch_row batch id identity now db = record db {
  batches =
      db.batches
      ++ record { id = batch; msg_id = id; add_to_from = identity; time_added = now; sha256 = none }
        ∷ [];
}

abbrev pub added_row : ℕ → ℕ → Text → Added
added_row batch id addr = record {
  msg_id = id;
  batch_id = batch;
  addr = addr;
  time_read = none;
  time_delivered = none;
  response_code = none;
}

-- INSERT … ON CONFLICT DO NOTHING; a message's added addresses are unique.
abbrev pub insert_added : ℕ → ℕ → Text → Db → Db
insert_added batch id addr db =
    if any (λ (a : Added). a.msg_id == id && a.addr == addr) db.added
    then db
    else record db { added = db.added ++ added_row batch id addr ∷ [] }

abbrev pub add_failed : Answer
add_failed = refusal 500 (codes "failed to add recipients")

unfoldable pub insert_all_added : ℕ → ℕ → List Text → Handler → Handler
insert_all_added batch id [] next w = next w
insert_all_added batch id (addr ∷ add_to) next w =
    or_answer (exec (always (insert_added batch id addr))) add_failed
      (λ _. insert_all_added batch id add_to next) w

-- BEGIN and COMMIT of the inner transaction are statements.
abbrev pub savepoint : Query (Unit {0})
savepoint = query λ _. tt

abbrev pub roll_back : World → Answer × World → Answer × World
roll_back start (a, w) =
    if ltb a.status 400 then (a, w) else (a, record w { db = start.db; aborted = start.aborted })

-- The deferred Rollback, which is taken to work, undoes an inner transaction that was not
-- committed.
abbrev pub rolled_back : Handler → Handler
rolled_back inner w = roll_back w (inner w)

abbrev pub batch_finalized : Option (Option Text × Db) → World → Option (Option Text) × World
batch_finalized none w = (none, w)
batch_finalized (some (hash, db)) w = (some hash, record w { db = db })

abbrev pub run_finalize_batch : Site → ℕ → ℕ → Query (Option Text)
run_finalize_batch s id batch w =
    if fails w
    then (none, after_statement w)
    else batch_finalized (s.finalize_batch id batch w.db) (after_statement w)

-- What the lookup of the message selects is its row.
module _ (s : Site) (identity : Text) (id batch now : ℕ) (add_to : List Text) where
  abbrev pub new_domains : List Text
  new_domains = map (λ addr. s.casing.to_lower (domain_of addr)) add_to

  abbrev pub added_answer : Option ℕ → Option Text → Handler
  added_answer time_sent hash w = (
    answer 200 (added_body id (length add_to) batch hash),
    if is_some time_sent
        then record w { after_commit = w.after_commit ++ deliver_locally additional id add_to ∷ [] }
        else w,
  )

  abbrev pub finish_batch : Option ℕ → Handler
  finish_batch time_sent =
      or_answer (run_finalize_batch s id batch)
        (refusal 500 (codes "failed to finalize add-to batch"))
        λ hash. or_answer savepoint add_failed λ _. added_answer time_sent hash

  abbrev pub write_batch : Option ℕ → Handler
  write_batch time_sent =
      or_answer (exec (always (insert_batch_row batch id identity now))) add_failed λ _.
        insert_all_added batch id add_to (
          or_answer (exec (always (insert_notifies s.casing s.local_domain new_domains id batch)))
            add_failed λ _. finish_batch time_sent)

  abbrev pub new_batch : Option ℕ → Handler
  new_batch time_sent = or_answer savepoint add_failed λ _. rolled_back (write_batch time_sent)

  abbrev pub already_added : Db → ℕ
  already_added db = length (
      keep
        (λ (a : Added).
          a.msg_id == id && contains (s.casing.sql_lower a.addr) (map s.casing.to_lower add_to))
        db.added)

  abbrev pub unless_added : Option ℕ → ℕ → Handler
  unless_added time_sent n w =
      if ltb 0 n
      then (refusal 400 (codes "address(es) already added to this message"), w)
      else new_batch time_sent w

  abbrev pub checked_batch : Option ℕ → Handler
  checked_batch time_sent w =
      if is_some (check_distinct_recipients s.casing add_to [])
      then (refusal 400 (codes "duplicate recipient"), w)
      else or_answer (query already_added) add_failed (unless_added time_sent) w

  abbrev pub own_rows : Db → ℕ
  own_rows db =
      length (
        keep (λ (r : Recipient). r.msg_id == id && is_reader s.casing identity r.addr)
          db.recipients)

  abbrev pub if_recipient : Option ℕ → ℕ × World → Answer × World
  if_recipient time_sent (n, w) =
      if n == 0
      then (refusal 403 (codes "only existing participants may add recipients"), w)
      else checked_batch time_sent w

  -- The sender and the direct recipients may add; an error counts as no recipient.
  abbrev pub if_participant : Msg → Handler
  if_participant m w =
      if not (same_addr s.casing m.from identity)
      then if_recipient m.time_sent (or_default (query own_rows) 0 w)
      else checked_batch m.time_sent w

  abbrev pub unless_leaf : Msg → Bool × World → Answer × World
  unless_leaf m (true, w) = (not_found, w)
  unless_leaf m (false, w) =
      if m.terminal
      then (refusal 409 (codes "message is terminal; recipients cannot be added to it"), w)
      else if_participant m w

  abbrev pub add_found : Option Msg → Handler
  add_found none w = (not_found, w)
  add_found (some m) w =
      if draft_hidden s.casing (identity ∷ []) m.from m.time_sent
      then (not_found, w)
      else unless_leaf m (purged_for s.host identity id w)

  unfoldable pub add_by_id : Handler
  add_by_id w =
      if is_nil add_to
      then (refusal 400 (codes "add_to list must not be empty"), w)
      else if any (λ a. not (is_valid_addr a)) add_to
      then (refusal 400 (codes "invalid add_to address"), w)
      else or_answer (query λ db. msg_by id db.msgs) retrieve_failed add_found w

abbrev pub add_input : Site → Text → ℕ → ℕ → ℕ → Option (List Text) → Handler
add_input s identity id batch now none w = (refusal 400 (codes "invalid request body"), w)
add_input s identity id batch now (some add_to) w = add_by_id s identity id batch now add_to w

-- `AddRecipients`; the batch's id is the next of its sequence.
unfoldable pub add_recipients : Site → Text → ℕ → ℕ → Option (List Text) → IdParam → Handler
add_recipients s caller batch now input param =
    resolve_id param λ id. add_input s caller id batch now input
