-- ===== src/Tests/Bin.antt =====
-- A small message store: internal/handlers/trash.go and transaction.go on it.
use fmsg_webapi.Prelude.{
  ℕ, ◌≡◌, refl, subst, ◌≢◌, ◌⊎◌, inl, inr, true, false, none, some, List, [], ◌∷◌, In, ◌==◌, nat_eq,
  Text, codes, text_eq,
}
use fmsg_webapi.Prelude.Int.{pos}
use fmsg_webapi.Address.{parse_addr}
use fmsg_webapi.Strings.{split}
use fmsg_webapi.Db.{Db, Msg, Trash}
use fmsg_webapi.Db.Queries.{upsert, has_purge}
use fmsg_webapi.Request.{
  by_id, acknowledged, or_answer, ◌>>=◌, resolve_id, atomic, resolved, opened,
}
use fmsg_webapi.Request.Atomicity.{IsAtomic, atomic-IsAtomic}
use fmsg_webapi.Trash.{Host, max_age_of}
use fmsg_webapi.Trash.Storage.{usage_of, recorded_size, UsageRelease}
use fmsg_webapi.Trash.Removal.{is_held, delivery_pending, unshared, remove_if_unheld}
use fmsg_webapi.Trash.Purge.{mark_purged}
use fmsg_webapi.Trash.Handlers.{Flags, restore, trash_sent}
use fmsg_webapi.Trash.Permanence.{purges_stay}
use fmsg_webapi.Trash.Unheld.{IsGone, removes_unheld}
use fmsg_webapi.Trash.Marks.{repeat_releases_nothing, marks_purged}

trash_ops : Unit {0}
unfolding parse_addr upsert split or_answer ◌>>=◌ resolve_id usage_of recorded_size unshared
    remove_if_unheld is_held delivery_pending mark_purged restore trash_sent
trash_ops = tt

abbrev sender : Text
sender = codes "@a@h"

abbrev reader : Text
reader = codes "@b@h"

abbrev host : Host
host = record {
  casing = record { to_lower = λ s. s; equal_fold = λ s t. s == t; sql_lower = λ s. s };
  local_domain = codes "h";
  id_url = codes "id";
  retry_max_age = 0;
  safe_path = λ p. some p;
  stat_size = λ _. none;
}

-- One sent message that its sender has deleted for good and nobody else received.
abbrev purge_mark : Trash
purge_mark = record {
  addr = sender;
  msg_id = 1;
  thread = false;
  time_deleted = 5;
  time_purged = some 5;
}

abbrev msg_one : Msg
msg_one = record {
  id = 1;
  version = pos 1;
  pid = none;
  psha256 = none;
  no_reply = false;
  important = false;
  deflate = false;
  terminal = false;
  time_sent = some 4;
  sha256 = none;
  from = sender;
  topic = [];
  type = [];
  size = 10;
  filepath = codes "f";
}

abbrev store_with : List Trash → Db
store_with ts = record {
  msgs = msg_one ∷ [];
  recipients = [];
  added = [];
  batches = [];
  notifies = [];
  attachments = [];
  trash = ts;
}

abbrev emptied : Db
emptied = record (store_with []) { msgs = [] }

abbrev plain_flags : Flags
plain_flags = record { thread = false; permanent = false }

atomic-IsAtomic_example :
    IsAtomic
      (store_with [])
      (resolved
        (some (by_id 1))
        (restore host sender (by_id 1) plain_flags)
        (opened (store_with []) []))
      (atomic true [] acknowledged
        (some (by_id 1))
        (restore host sender (by_id 1) plain_flags)
        (store_with []))
atomic-IsAtomic_example =
    atomic-IsAtomic true [] acknowledged (some (by_id 1))
      (restore host sender (by_id 1) plain_flags) (store_with [])

purges_stay_example :
    (has_purge sender 1
        (restore host sender (by_id 1) plain_flags (opened (store_with (purge_mark ∷ [])) [])).1.db
      ≡ has_purge sender 1 (store_with (purge_mark ∷ [])))
    × (has_purge sender 1
          (trash_sent host sender 1 plain_flags 9 (opened (store_with (purge_mark ∷ [])) [])).1.db
        ≡ has_purge sender 1 (store_with (purge_mark ∷ [])))
purges_stay_example =
    purges_stay sender 1 host sender (by_id 1) plain_flags 9 1
      (opened (store_with (purge_mark ∷ [])) []) refl

removal_run :
    remove_if_unheld host 9 1 (opened (store_with (purge_mark ∷ [])) [])
    ≡ (some (true, codes "f" ∷ []), opened emptied [])
unfolding trash_ops
removal_run = refl

removes_unheld_example :
    ((true ≡ true)
      × (is_held host 1 (store_with (purge_mark ∷ [])) ≡ false)
      × (delivery_pending 1 9 (max_age_of 0) (store_with (purge_mark ∷ [])) ≡ false)
      × IsGone 1 (store_with (purge_mark ∷ [])) emptied)
    ⊎ ((true ≡ false) × (emptied ≡ store_with (purge_mark ∷ [])))
removes_unheld_example =
    removes_unheld host 9 1 (opened (store_with (purge_mark ∷ [])) []) (opened emptied []) true
      (codes "f" ∷ []) removal_run

purge_run : mark_purged host sender 0 5 (1 ∷ []) (opened (store_with []) []) ≡ (
  some (1, record { is_send = true; size = 10 } ∷ []),
  opened (store_with (purge_mark ∷ [])) [],
)
unfolding trash_ops
purge_run = refl

marks_purged_example :
    ((id : ℕ) → In id (1 ∷ []) → has_purge sender id (store_with (purge_mark ∷ [])) ≡ true)
    × ((a : Text) (i : ℕ)
        → has_purge a i (store_with []) ≡ true
        → has_purge a i (store_with (purge_mark ∷ [])) ≡ true)
    × ((a : Text) (i : ℕ)
        → a ≢ sender
        → has_purge a i (store_with (purge_mark ∷ [])) ≡ has_purge a i (store_with []))
marks_purged_example =
    marks_purged host sender 0 5 (1 ∷ []) (opened (store_with []) [])
      (opened (store_with (purge_mark ∷ [])) []) 1 (record { is_send = true; size = 10 } ∷ [])
      purge_run

purge_again :
    mark_purged host sender 0 6 (1 ∷ []) (opened (store_with (purge_mark ∷ [])) [])
    ≡ (some (0, []), opened (store_with (purge_mark ∷ [])) [])
unfolding trash_ops
purge_again = refl

has_purge_one :
    (id : ℕ) → In id (1 ∷ []) → has_purge sender id (store_with (purge_mark ∷ [])) ≡ true
has_purge_one id (inl e) =
    subst (λ i. has_purge sender i (store_with (purge_mark ∷ [])) ≡ true) e refl
has_purge_one id (inr m) = absurd m

abbrev no_releases : List UsageRelease
no_releases = []

abbrev counted_none : ℕ
counted_none = 0

repeat_releases_nothing_example :
    (counted_none ≡ 0)
    × (no_releases ≡ [])
    × (store_with (purge_mark ∷ []) ≡ store_with (purge_mark ∷ []))
repeat_releases_nothing_example =
    repeat_releases_nothing host sender 0 6 (1 ∷ []) (opened (store_with (purge_mark ∷ [])) [])
      (opened (store_with (purge_mark ∷ [])) []) 0 [] has_purge_one purge_again
