-- ===== src/Trash/Storage.antt =====
-- What a message counted against an address's quota: `usageOf` and `recordedSize` of
-- internal/handlers/trash.go, and messageStoredSize of quota.go.
use fmsg_webapi.Prelude.{
  ℕ, zero, suc, ◌+◌, ◌/◌, ◌%◌, Bool, true, false, not, ◌&&◌, Option, none, some, List, [], ◌∷◌, map,
  if◌then◌else◌, length, any, keep, ◌==◌, nat_eq, Text, text_eq,
}
use fmsg_webapi.Strings.{Casing}
use fmsg_webapi.Address.{domain_of}
use fmsg_webapi.Db.{Db, Msg, Recipient, Added, Attachment, msg_by, is_some}
use fmsg_webapi.Request.{Query, query, fetch, pure, ◌>>=◌}
use fmsg_webapi.Trash.{Host, local_domains}

-- Storage to give back: sent or received, and its size.
pub record UsageRelease : Type 0 where
  pub is_send : Bool
  pub size : ℕ

abbrev pub attachments_of : ℕ → Db → List Attachment
attachments_of id db = keep (λ (a : Attachment). a.msg_id == id) db.attachments

abbrev pub total : List ℕ → ℕ
total [] = 0
total (n ∷ ns) = n + total ns

-- `messageStoredSize`
abbrev pub message_stored_size : ℕ → Query ℕ
message_stored_size id = fetch λ db. elim (msg_by id db.msgs) [
  | none ↦ none
  | some m ↦ some (m.size + total (map (λ (a : Attachment). a.filesize) (attachments_of id db)))
]

-- `fileSize`
abbrev pub file_size : Host → Text → ℕ → ℕ
file_size h path fallback = elim (h.safe_path path) [
  | none ↦ fallback
  | some clean ↦ elim (h.stat_size clean) [ none ↦ fallback | some n ↦ n ]
]

-- `flags & (1 << 1) != 0`
abbrev pub is_deflated : ℕ → Bool
is_deflated flags = (flags / 2) % 2 == 1

abbrev pub attachment_size : Host → Attachment → ℕ
attachment_size h a = if is_deflated a.flags then file_size h a.filepath a.filesize else a.filesize

abbrev pub body_size : Host → Msg → ℕ
body_size h m = if m.deflate then file_size h m.filepath m.size else m.size

-- `recordedSize`
unfoldable pub recorded_size : Host → ℕ → Text → Query ℕ
recorded_size h id from =
    if any (λ d. h.casing.equal_fold (domain_of from) d) (local_domains h)
    then message_stored_size id
    else (do
      m ← fetch λ db. msg_by id db.msgs
      parts ← query (attachments_of id)
      pure (body_size h m + total (map (attachment_size h) parts)))

abbrev pub deliveries : Casing → Text → ℕ → Db → ℕ
deliveries cs addr id db =
    length (
      keep
        (λ (r : Recipient).
          r.msg_id == id && cs.sql_lower r.addr == addr && is_some r.time_delivered)
        db.recipients)
    + length (
        keep
          (λ (a : Added). a.msg_id == id && cs.sql_lower a.addr == addr && is_some a.time_delivered)
          db.added)

-- The row that `usageOf` selects: the sender, whether it is sent, and the deliveries.
abbrev pub usage_row : Casing → Text → ℕ → Db → Option (Text × Bool × ℕ)
usage_row cs addr id db = elim (msg_by id db.msgs) [
  | none ↦ none
  | some m ↦ some (m.from, is_some m.time_sent, deliveries cs addr id db)
]

abbrev pub received : ℕ → ℕ → List UsageRelease
received zero size = []
received (suc n) size = record { is_send = false; size = size } ∷ received n size

abbrev pub releases_of : Bool → ℕ → ℕ → List UsageRelease
releases_of is_sender n size =
    if is_sender then record { is_send = true; size = size } ∷ received n size else received n size

abbrev pub usage_for : Host → Text → ℕ → Text × Bool × ℕ → Query (List UsageRelease)
usage_for h addr id (from, sent, n) =
    let is_sender = sent && h.casing.equal_fold from addr in
    if not is_sender && n == 0
    then pure []
    else recorded_size h id from >>= λ size. pure (releases_of is_sender n size)

-- `usageOf`
unfoldable pub usage_of : Host → Text → ℕ → Query (List UsageRelease)
usage_of h addr id = fetch (usage_row h.casing addr id) >>= usage_for h addr id
