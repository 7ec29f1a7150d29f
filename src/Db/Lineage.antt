-- ===== src/Db/Lineage.antt =====
-- The recursive queries over `pid`: fmsg_api_trash_state of dd.sql, and `trashSubtree` of
-- internal/handlers/trash.go. Both stop after 1000 steps.
use fmsg_webapi.Prelude.{
  ℕ, zero, suc, Bool, false, not, ◌&&◌, ◌||◌, Option, none, some, List, [], ◌∷◌, ◌++◌, map, ltb,
  if◌then◌else◌, any, keep, ◌==◌, nat_eq, Text, text_eq,
}
use fmsg_webapi.Strings.{Casing}
use fmsg_webapi.Db.{Db, Msg, Recipient, Added, Trash, msg_by, is_some}

-- Where a message stands for an address that has something of it in its trash.
pub data State : Type 0 where
  message thread purged : State

abbrev pub pid_of : List Msg → ℕ → Option ℕ
pid_of ms id = elim (msg_by id ms) [ none ↦ none | some m ↦ m.pid ]

-- The message and its ancestors, nearest first.
unfoldable pub up : ℕ → List Msg → ℕ → List ℕ
up zero ms id = id ∷ []
up (suc depth) ms id = id ∷ elim (pid_of ms id) [ none ↦ [] | some p ↦ up depth ms p ]

abbrev pub max_depth : ℕ
max_depth = 1000

abbrev pub member : ℕ → List ℕ → Bool
member id ids = any (λ i. i == id) ids

-- The rows of an address's trash on some of the messages.
abbrev pub marks : Text → List ℕ → List Trash → List Trash
marks addr ids ts = keep (λ t. t.addr == addr && member t.msg_id ids) ts

abbrev pub is_purge : Trash → Bool
is_purge t = is_some t.time_purged

abbrev pub is_thread : Trash → Bool
is_thread t = t.thread

abbrev state_of_marks : ℕ → List Trash → Option State
state_of_marks id ts =
    if any is_purge ts
    then some purged
    else if any is_thread ts
    then some thread
    else if any (λ t. t.msg_id == id) ts
    then some message
    else none

-- fmsg_api_trash_state
unfoldable pub trash_state : Db → Text → ℕ → Option State
trash_state db addr id = state_of_marks id (marks addr (up max_depth db.msgs id) db.trash)

-- Whether the address sent the message or is one of its recipients.
abbrev pub takes_part : Casing → Db → Text → Msg → Bool
takes_part cs db addr m =
    cs.sql_lower m.from == addr
    || any (λ (r : Recipient). r.msg_id == m.id && cs.sql_lower r.addr == addr) db.recipients
    || any (λ (a : Added). a.msg_id == m.id && cs.sql_lower a.addr == addr) db.added

-- The replies to some messages.
abbrev pub replies : List Msg → List ℕ → List ℕ
replies ms level =
    map (λ (m : Msg). m.id)
      (keep (λ (m : Msg). elim m.pid [ none ↦ false | some p ↦ member p level ]) ms)

abbrev pub insert_desc : ℕ → List ℕ → List ℕ
insert_desc x [] = x ∷ []
insert_desc x (y ∷ ys) = if ltb y x then x ∷ y ∷ ys else y ∷ insert_desc x ys

abbrev pub sort_desc : List ℕ → List ℕ
sort_desc [] = []
sort_desc (x ∷ xs) = insert_desc x (sort_desc xs)

-- The levels below and including `level`, deepest first, each in descending order.
levels : ℕ → List Msg → List ℕ → List ℕ
levels zero ms level = sort_desc level
levels (suc depth) ms [] = []
levels (suc depth) ms (x ∷ level) =
    levels depth ms (replies ms (x ∷ level)) ++ sort_desc (x ∷ level)

-- GROUP BY id, at its greatest depth.
abbrev pub distinct : List ℕ → List ℕ
distinct [] = []
distinct (x ∷ xs) = x ∷ keep (λ y. not (y == x)) (distinct xs)

abbrev is_listed : Casing → Db → Text → ℕ → Bool
is_listed cs db addr id = elim (msg_by id db.msgs) [
  | none ↦ false
  | some m ↦ is_some m.time_sent && takes_part cs db addr m
]

-- The message and the sent messages below it that the address takes part in, deepest first.
unfoldable pub trash_subtree : Casing → Db → Text → ℕ → List ℕ
unfolding levels
trash_subtree cs db addr id =
    keep (is_listed cs db addr) (distinct (levels max_depth db.msgs (id ∷ [])))
