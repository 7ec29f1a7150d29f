-- ===== src/Messages/Parents.antt =====
-- The message that a draft replies to: `resolveParent` of internal/handlers/references.go, and
-- `validateParent` and `validatePidRelations` of internal/handlers/messages.go. A hash is its bytes;
-- only requests and answers have it in hexadecimal.
use fmsg_webapi.Prelude.{
  ℕ, Bool, true, false, not, ◌&&◌, ◌||◌, Option, none, some, List, [], ◌∷◌, ◌++◌, ltb,
  if◌then◌else◌, length, any, keep, ◌==◌, nat_eq, Text, codes, text_eq,
}
use fmsg_webapi.Trash.{purged_for}
use fmsg_webapi.Messages.MarkRead.{is_reader}
use fmsg_webapi.Messages.{Site, World, query}
use fmsg_webapi.Db.{is_some, Msg, Db, msg_by, Batch, Recipient, Added}
use fmsg_webapi.Strings.{Casing, is_empty}
use fmsg_webapi.Request.{Handler, Answer, refusal, or_answer}

-- The member pid of a request: none or null, a number that is not zero, 64 hexadecimal digits, or
-- anything else.
pub data ParentRef : Type 0 where
  no_parent : ParentRef
  parent_id : ℕ → ParentRef
  parent_hash : Text → ParentRef
  bad_parent : ParentRef

-- A parent as it is looked up; the batch is the one whose hash was asked for.
pub record Candidate : Type 0 where
  pub row : Msg
  pub batch : Option ℕ

abbrev pub is_hash : Text → Option Text → Bool
is_hash hash none = false
is_hash hash (some h) = h == hash

abbrev pub batch_candidates : Msg → List Batch → List Candidate
batch_candidates m [] = []
batch_candidates m (b ∷ bs) = record { row = m; batch = some b.id } ∷ batch_candidates m bs

abbrev pub matching_batches : Text → Db → Msg → List Batch
matching_batches hash db m =
    keep (λ (b : Batch). b.msg_id == m.id && is_hash hash b.sha256) db.batches

-- The rows of the left join that pass its condition.
abbrev pub joined : Text → Msg → List Batch → List Candidate
joined hash m [] = if is_hash hash m.sha256 then record { row = m; batch = none } ∷ [] else []
joined hash m (b ∷ bs) = batch_candidates m (b ∷ bs)

abbrev pub candidates : Text → Db → List Msg → List Candidate
candidates hash db [] = []
candidates hash db (m ∷ ms) = joined hash m (matching_batches hash db m) ++ candidates hash db ms

-- ORDER BY b.id NULLS FIRST.
abbrev pub precedes : Option ℕ → Option ℕ → Bool
precedes none b = true
precedes (some x) none = false
precedes (some x) (some y) = ltb x y

abbrev pub earlier : Candidate → Option Candidate → Candidate
earlier c none = c
earlier c (some d) = if precedes c.batch d.batch then c else d

abbrev pub first_candidate : List Candidate → Option Candidate
first_candidate [] = none
first_candidate (c ∷ cs) = some (earlier c (first_candidate cs))

abbrev pub parent_by_hash : Text → Db → Option Candidate
parent_by_hash hash db = first_candidate (candidates hash db db.msgs)

abbrev pub parent_by_id : ℕ → Db → Option Candidate
parent_by_id id db = elim (msg_by id db.msgs) [
  | none ↦ none
  | some m ↦ some (record { row = m; batch = none })
]

abbrev pub in_batch : Option ℕ → ℕ → Bool
in_batch none id = false
in_batch (some b) id = b == id

-- Whether the address may reply: the sender, a recipient, or one added by the batch that was named.
abbrev pub may_reply : Casing → Text → Candidate → Db → Bool
may_reply cs identity c db =
    any (λ (m : Msg). m.id == c.row.id && is_reader cs identity m.from) db.msgs
    || any (λ (r : Recipient). r.msg_id == c.row.id && is_reader cs identity r.addr) db.recipients
    || any
        (λ (a : Added).
          a.msg_id == c.row.id && in_batch c.batch a.batch_id && is_reader cs identity a.addr)
        db.added

-- What a draft keeps of its parent.
pub record Parent : Type 0 where
  pub id : ℕ
  pub hash : Text

abbrev pub parent_missing : Answer
parent_missing = refusal 400 (codes "parent message not found")

abbrev pub parent_failed : Answer
parent_failed = refusal 500 (codes "failed to resolve parent")

abbrev pub identified : Option Text → ℕ → (Option Parent → Handler) → Handler
identified none id next w = (refusal 500 (codes "parent has no finalized identity"), w)
identified (some hash) id next w =
    if not (length hash == 32)
    then (refusal 500 (codes "parent has no finalized identity"), w)
    else next (some (record { id = id; hash = hash })) w

-- The hash that was asked for, or the message's own.
abbrev pub named_hash : Option Text → Candidate → Option Text
named_hash none c = c.row.sha256
named_hash (some hash) c = some hash

module _ (s : Site) (identity : Text) (next : Option Parent → Handler) where
  abbrev pub unless_parent_purged : Option Text → Candidate → Bool × World → Answer × World
  unless_parent_purged named c (true, w) = (parent_missing, w)
  unless_parent_purged named c (false, w) =
      if not (is_some c.row.time_sent) || c.row.terminal
      then (refusal 409 (codes "parent is a draft or terminal message"), w)
      else identified (named_hash named c) c.row.id next w

  abbrev pub parent_participant : Option Text → Candidate → Bool → Handler
  parent_participant named c participant w =
      if not participant
      then (refusal 403 (codes "not a participant of this parent"), w)
      else unless_parent_purged named c (purged_for s.host identity c.row.id w)

  abbrev pub parent_found : Option Text → Option Candidate → Handler
  parent_found named none w = (parent_missing, w)
  parent_found named (some c) w =
      or_answer (query (may_reply s.casing identity c))
        (refusal 500 (codes "failed to validate parent participation")) (parent_participant named c)
        w

  -- `resolveParent`
  unfoldable pub resolve_parent : ParentRef → Handler
  resolve_parent no_parent w = next none w
  resolve_parent bad_parent w =
      (refusal 400 (codes "pid must be a positive integer or a 64-character sha256 string"), w)
  resolve_parent (parent_id id) w =
      or_answer (query (parent_by_id id)) parent_failed (parent_found none) w
  resolve_parent (parent_hash hash) w =
      or_answer (query (parent_by_hash hash)) parent_failed (parent_found (some hash)) w

-- `validatePidRelations`: a reply has no topic.
abbrev pub has_topic_conflict : Option Parent → Text → Bool
has_topic_conflict parent topic = is_some parent && not (is_empty topic)

abbrev pub unless_terminal : Handler → Option Msg → Handler
unless_terminal next none w = (refusal 400 (codes "PID not found"), w)
unless_terminal next (some m) w =
    if m.terminal
    then (refusal 409 (codes "PID is terminal; it cannot be replied to"), w)
    else next w

-- `validateParent`
abbrev pub validate_parent : Option Parent → Handler → Handler
validate_parent none next w = next w
validate_parent (some p) next w =
    or_answer (query λ db. msg_by p.id db.msgs) (refusal 500 (codes "failed to validate pid"))
      (unless_terminal next) w
