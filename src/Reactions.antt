-- ===== src/Reactions.antt =====
-- internal/handlers/reactions.go: which messages are reactions, and which reaction of a participant
-- counts. A Go map is an association list; where the code goes over one, it sorts what it takes.
pub mod Groups
pub mod Latest
pub mod Recipients
use fmsg_webapi.Prelude.{
  ℕ, Bool, true, false, not, ◌&&◌, ◌||◌, List, [], ◌∷◌, ◌++◌, map, ltb, leb, if◌then◌else◌, keep,
  ◌==◌, nat_eq, Text, codes, text_eq,
}
use fmsg_webapi.Strings.{Casing, is_empty, is_nil, contains}
use fmsg_webapi.Models.{AddToBatch}

abbrev pub reaction_media_type : Text
reaction_media_type = codes "text/plain;charset=UTF-8"

abbrev pub max_reaction_bytes : ℕ
max_reaction_bytes = 64

-- strings.ReplaceAll(s, " ", "")
abbrev pub without_spaces : Text → Text
without_spaces s = keep (λ c. not (c == 32)) s

abbrev pub is_reaction_media_type : Casing → Text → Bool
is_reaction_media_type cs t = cs.equal_fold (without_spaces t) reaction_media_type

-- The columns that `reactionShape` looks at; a size is never negative here.
pub record Shape : Type 0 where
  pub has_pid : Bool
  pub no_reply : Bool
  pub terminal : Bool
  pub important : Bool
  pub has_add_to : Bool
  pub media_type : Text
  pub size : ℕ
  pub attachments : ℕ

pub reaction_shape : Casing → Shape → Bool
reaction_shape cs m =
    m.has_pid
    && m.no_reply
    && m.terminal
    && not m.important
    && not m.has_add_to
    && leb m.size max_reaction_bytes
    && m.attachments == 0
    && is_reaction_media_type cs m.media_type

-- `reactionRow`; a hash that is not computed yet is empty.
pub record ReactionRow : Type 0 where
  pub subject_id : ℕ
  pub msg_id : ℕ
  pub from : Text
  pub time : ℕ
  pub hash : Text
  pub emoji : Text

-- bytes.Compare(a, b) > 0
unfoldable pub bytes_after : Text → Text → Bool
bytes_after [] b = false
bytes_after (x ∷ a) [] = true
bytes_after (x ∷ a) (y ∷ b) = ltb y x || (x == y && bytes_after a b)

unfoldable pub newer_reaction : ReactionRow → ReactionRow → Bool
newer_reaction a b = if not (a.time == b.time) then ltb b.time a.time else bytes_after a.hash b.hash

-- The reactors of one subject, by their addresses in lower case.
abbrev pub Reactors : Type 0
Reactors = List (Text × ReactionRow)

unfoldable pub put_reactor : Text → ReactionRow → Reactors → Reactors
put_reactor k r [] = (k, r) ∷ []
put_reactor k r ((j, cur) ∷ m) =
    if j == k
    then (j, if newer_reaction r cur then r else cur) ∷ m
    else (j, cur) ∷ put_reactor k r m

abbrev pub Subjects : Type 0
Subjects = List (ℕ × Reactors)

unfoldable pub put_row : Casing → ReactionRow → Subjects → Subjects
put_row cs r [] = (r.subject_id, put_reactor (cs.to_lower r.from) r []) ∷ []
put_row cs r ((s, m) ∷ ss) =
    if s == r.subject_id
    then (s, put_reactor (cs.to_lower r.from) r m) ∷ ss
    else (s, m) ∷ put_row cs r ss

-- The first loop of `effectiveReactions`.
unfoldable pub gather : Casing → Subjects → List ReactionRow → Subjects
gather cs acc [] = acc
gather cs acc (r ∷ rows) = gather cs (put_row cs r acc) rows

-- models.Reaction
pub record Reaction : Type 0 where
  pub emoji : Text
  pub from : List Text

-- The order of sort.Slice; message ids are distinct, so that it decides.
abbrev pub comes_before : ReactionRow → ReactionRow → Bool
comes_before a b = if not (a.time == b.time) then ltb a.time b.time else ltb a.msg_id b.msg_id

abbrev pub insert_row : ReactionRow → List ReactionRow → List ReactionRow
insert_row r [] = r ∷ []
insert_row r (x ∷ xs) = if comes_before r x then r ∷ x ∷ xs else x ∷ insert_row r xs

abbrev pub sort_rows : List ReactionRow → List ReactionRow
sort_rows [] = []
sort_rows (r ∷ rs) = insert_row r (sort_rows rs)

abbrev pub add_to_group : ReactionRow → List Reaction → List Reaction
add_to_group r [] = record { emoji = r.emoji; from = r.from ∷ [] } ∷ []
add_to_group r (g ∷ gs) =
    if g.emoji == r.emoji
    then record g { from = g.from ++ r.from ∷ [] } ∷ gs
    else g ∷ add_to_group r gs

abbrev pub group : List Reaction → List ReactionRow → List Reaction
group gs [] = gs
group gs (r ∷ rs) = group (add_to_group r gs) rs

abbrev pub groups_of : Reactors → List Reaction
groups_of m =
    group []
      (sort_rows (keep (λ r. not (is_empty r.emoji)) (map (λ (p : Text × ReactionRow). p.1) m)))

abbrev pub with_groups : Subjects → List (ℕ × List Reaction)
with_groups [] = []
with_groups ((s, m) ∷ ss) =
    if is_nil (groups_of m) then with_groups ss else (s, groups_of m) ∷ with_groups ss

-- `effectiveReactions`
pub effective_reactions : Casing → List ReactionRow → List (ℕ × List Reaction)
effective_reactions cs rows = with_groups (gather cs [] rows)

-- The part of models.Message that `reactionRecipients` reads.
pub record Subject : Type 0 where
  pub from : Text
  pub to : List Text
  pub add_to : List AddToBatch

-- Every address in message order.
abbrev pub batch_addrs : List AddToBatch → List Text
batch_addrs [] = []
batch_addrs (b ∷ bs) = b.add_to_from ∷ (b.to ++ batch_addrs bs)

abbrev pub participants : Subject → List Text
participants s = s.from ∷ (s.to ++ batch_addrs s.add_to)

-- The calls of `add`, with the keys seen so far.
unfoldable pub add_unseen : Casing → List Text → List Text → List Text
add_unseen cs seen [] = []
add_unseen cs seen (a ∷ as_left) =
    if contains (cs.to_lower a) seen
    then add_unseen cs seen as_left
    else a ∷ add_unseen cs (cs.to_lower a ∷ seen) as_left

unfoldable pub reaction_recipients : Casing → Subject → Text → List Text
reaction_recipients cs s reactor = add_unseen cs (cs.to_lower reactor ∷ []) (participants s)
