-- ===== src/Messages/Sending.antt =====
-- `Send` of internal/handlers/messages.go, with `sendableProblems`.
use fmsg_webapi.Prelude.{
  ℕ, Bool, true, false, not, Option, none, some, List, [], ◌∷◌, ◌++◌, if◌then◌else◌, Text, codes,
}
use fmsg_webapi.Messages.Access.{retrieve_failed}
use fmsg_webapi.Trash.Handlers.{not_found}
use fmsg_webapi.Trash.Storage.{message_stored_size}
use fmsg_webapi.Strings.{is_empty}
use fmsg_webapi.Quota.{may_send, Verdict, refused, check_send_quota}
use fmsg_webapi.Messages.Replies.{
  remote_recipient_domains, parent_delivery_by_domain, ByDomain, undeliverable_reply_domains,
}
use fmsg_webapi.Prelude.Int.{ℤ, eqb_ℤ, pos}
use fmsg_webapi.Address.{is_valid_addr, same_addr}
use fmsg_webapi.Messages.{Site, World, Query, is_nil, fetch_message}
use fmsg_webapi.Db.{Db, is_some}
use fmsg_webapi.Request.{
  Answer, Handler, Effect, refusal, IdParam, resolve_id, answer, or_answer, fails, record_send,
  deliver_locally, sent_body, direct, after_statement, clean_up, additional,
}
use fmsg_webapi.Models.{Message, AddToBatch}

-- What keeps a draft from being sent.
pub data Problem : Type 0 where
  unsupported_version : ℤ → Problem
  no_recipients : Problem
  invalid_recipient : Text → Problem
  no_type : Problem

abbrev pub when {ℓ} : {A : Type ℓ} → Bool → A → List A
when true a = a ∷ []
when false a = []

abbrev pub invalid_recipients : List Text → List Problem
invalid_recipients [] = []
invalid_recipients (addr ∷ to) =
    when (not (is_valid_addr addr)) (invalid_recipient addr) ++ invalid_recipients to

-- `sendableProblems`
abbrev pub sendable_problems : Message → List Problem
sendable_problems m =
    when (not (eqb_ℤ m.version (pos 1))) (unsupported_version m.version)
    ++ when (is_nil m.to) no_recipients
    ++ invalid_recipients m.to
    ++ when (is_empty m.type) no_type

abbrev pub deliver_batches : ℕ → List AddToBatch → List Effect
deliver_batches id [] = []
deliver_batches id (b ∷ bs) = deliver_locally additional id b.to ∷ deliver_batches id bs

-- What happens after the commit: the usage is recorded and the local recipients are delivered to.
abbrev pub send_effects : ℕ → Message → ℕ → ℕ → List Effect
send_effects id m now size =
    record_send m.from now size ∷ deliver_locally direct id m.to ∷ deliver_batches id m.add_to

-- The statements of `message.Finalize`, and its error.
abbrev pub finalized : Option (Text × Db) → World → Option Text × World
finalized none w = (none, w)
finalized (some (hash, db)) w = (some hash, record w { db = db })

abbrev pub run_finalize : Site → ℕ → ℕ → Query Text
run_finalize s id now w =
    if fails w
    then (none, after_statement w)
    else finalized (s.finalize id now w.db) (after_statement w)

abbrev pub reply_failed : Answer
reply_failed = refusal 500 (codes "failed to verify parent delivery")

abbrev pub reply_blocked : Answer
reply_blocked = refusal 409 (codes "reply cannot be accepted by recipient host(s)")

module _ (s : Site) (id now : ℕ) (m : Message) where
  abbrev pub sent_answer : ℕ → Text → Handler
  sent_answer size hash w = (
    answer 200 (sent_body id now hash),
    record w { after_commit = w.after_commit ++ send_effects id m now size },
  )

  abbrev pub finalize_send : ℕ → Handler
  finalize_send size w =
      or_answer (run_finalize s id now) (refusal 500 (codes "failed to finalize message"))
        (sent_answer size) (record w { on_rollback = w.on_rollback ++ clean_up id ∷ [] })

  -- `checkSendQuota`
  abbrev pub with_quota : ℕ → Verdict → Handler
  with_quota size (refused status) w = (refusal status (codes "sending refused"), w)
  with_quota size may_send w = finalize_send size w

  abbrev pub check_size : Handler
  check_size =
      or_answer (message_stored_size id) retrieve_failed
        λ size. with_quota size (check_send_quota (s.ask m.from) (pos size))

  abbrev pub check_blocked : List Text → Text × ByDomain → Handler
  check_blocked ds (parent_from, by_domains) w =
      if not (is_nil (undeliverable_reply_domains s.casing ds parent_from by_domains))
      then (reply_blocked, w)
      else check_size w

  abbrev pub check_domains : ℕ → List Text → Handler
  check_domains parent [] = check_size
  check_domains parent (d ∷ ds) =
      or_answer (parent_delivery_by_domain s.casing parent) reply_failed (check_blocked (d ∷ ds))

  abbrev pub check_reply : Option ℕ → Handler
  check_reply none = check_size
  check_reply (some parent) =
      check_domains parent (remote_recipient_domains s.casing m s.local_domain)

module _ (s : Site) (identity : Text) (id now : ℕ) where
  abbrev pub send_found : Option (Message × Text) → Handler
  send_found none w = (not_found, w)
  send_found (some (m, _)) w =
      if not (same_addr s.casing m.from identity)
      then (refusal 403 (codes "only the owner may send a message"), w)
      else if is_some m.time
      then (refusal 409 (codes "message already sent"), w)
      else if not (is_nil (sendable_problems m))
      then (refusal 400 (codes "message is not sendable"), w)
      else check_reply s id now m m.pid w

  unfoldable pub send_by_id : Handler
  send_by_id = or_answer (fetch_message id) retrieve_failed send_found

-- `Send`
unfoldable pub send_message : Site → Text → ℕ → IdParam → Handler
send_message s caller now param = resolve_id param λ id. send_by_id s caller id now
