-- ===== src/Messages/SendGate.antt =====
-- What a message that is sent has passed: `Send` of internal/handlers/messages.go.
use fmsg_webapi.Prelude.{ℕ, ◌≡◌, true, false, none, some, List, [], ◌∷◌, ◌++◌, map, Text}
use fmsg_webapi.Prelude.Int.{pos}
use fmsg_webapi.Quota.{check_send_quota, may_send}
use fmsg_webapi.Messages.Blocking.{reasons}
use fmsg_webapi.Address.{same_addr, domain_of}
use fmsg_webapi.Messages.Quoted.{IsMeasured, stored_size}
use fmsg_webapi.Messages.Sending.{sendable_problems}
use fmsg_webapi.Messages.Loading.{IsRead}
use fmsg_webapi.Messages.Replies.{remote_recipient_domains, outcome_rows}
use fmsg_webapi.Request.{
  Answer, answer, sent_body, Effect, record_send, deliver_locally, direct, additional,
}
use fmsg_webapi.Messages.{Site, Db, Message, World, Msg, msg_by, is_some, AddToBatch}

-- Every remote domain of a reply may accept it, by the outcomes of the parent's recipients.
pub data IsAcceptable (s : Site) (m : Message) (db : Db) : Type 0 where
  no_reply_to : m.pid ≡ none → IsAcceptable s m db
  only_local : remote_recipient_domains s.casing m s.local_domain ≡ [] → IsAcceptable s m db
  reply_to :
      (pid : ℕ) (parent : Msg)
      → m.pid ≡ some pid
      → msg_by pid db.msgs ≡ some parent
      → reasons s.casing
          (remote_recipient_domains s.casing m s.local_domain)
          (domain_of parent.from)
          (outcome_rows pid db)
        ≡ []
      → IsAcceptable s m db

-- What was sent, from these tables, with this put off to the commit before.
pub record IsSent (s : Site) (identity : Text) (id now : ℕ) (db : Db) (before : List Effect)
    (r : Answer × World) : Type 0 where
  pub draft : Message
  pub path : Text
  pub read : IsRead id db draft path
  pub owned : same_addr s.casing draft.from identity ≡ true
  pub unsent : is_some draft.time ≡ false
  pub sendable : sendable_problems draft ≡ []
  pub acceptable : IsAcceptable s draft db
  pub size : ℕ
  pub measured : stored_size id db ≡ some size
  pub allowed : check_send_quota (s.ask draft.from) (pos size) ≡ may_send
  pub hash : Text
  pub finalized_as : s.finalize id now db ≡ some (hash, r.1.db)
  pub answered : r.0 ≡ answer 200 (sent_body id now hash)
  pub effects :
      r.1.after_commit
      ≡ before
        ++ record_send draft.from now size
          ∷ deliver_locally direct id draft.to
          ∷ map (λ (b : AddToBatch). deliver_locally additional id b.to) draft.add_to

module _ (s : Site) (id now : ℕ) (m : Message) where
  IsCleared : Db → List Effect → Answer × World → Type 0
  IsCleared db before r = IsAcceptable s m db × IsMeasured s id now m db before r

  remote : List Text
  remote = remote_recipient_domains s.casing m s.local_domain
