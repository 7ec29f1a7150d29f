-- ===== src/Tests/Live.antt =====
-- Reactions and connections on concrete data: internal/handlers/reactions.go and hub.go.
use fmsg_webapi.Prelude.{
  ℕ, ◌≡◌, refl, ◌≢◌, ◌⊎◌, inl, inr, true, false, none, some, List, [], ◌∷◌, In, ◌==◌, nat_eq, Text,
  codes, text_eq,
}
use fmsg_webapi.Reactions.Groups.{IsShownAs, effective_complete}
use fmsg_webapi.Strings.{Casing, contains, is_empty}
use fmsg_webapi.Auth.Scopes.{lookup}
use fmsg_webapi.Reactions.{
  ReactionRow, Subject, bytes_after, newer_reaction, put_reactor, put_row, gather, participants,
  add_unseen, reaction_recipients, effective_reactions,
}
use fmsg_webapi.Reactions.Latest.{reactor_of, is_by, effective_latest}
use fmsg_webapi.Reactions.Recipients.{keys, IsDistinct, recipients_exact}
use fmsg_webapi.Hub.{Sources, Registry, Envelope, new_msg, item, is_member, clients_at}
use fmsg_webapi.Hub.Registry.{
  Event, registered, unregistered, after_events, is_connected, connected_lem,
}

live_ops : Unit {0}
unfolding lookup contains bytes_after newer_reaction put_reactor put_row gather reactor_of
    add_unseen reaction_recipients
live_ops = tt

abbrev same_case : Casing
same_case = record { to_lower = λ s. s; equal_fold = λ s t. s == t; sql_lower = λ s. s }

abbrev ada : Text
ada = codes "@ada@h"

abbrev bob : Text
bob = codes "@bob@h"

abbrev row_at : ℕ → ℕ → Text → ReactionRow
row_at id time emoji = record {
  subject_id = 1;
  msg_id = id;
  from = ada;
  time = time;
  hash = [];
  emoji = emoji;
}

abbrev two_rows : List ReactionRow
two_rows = row_at 2 7 (codes "b") ∷ row_at 3 5 (codes "a") ∷ []

later_kept : reactor_of 1 ada (gather same_case [] two_rows) ≡ some (row_at 2 7 (codes "b"))
unfolding live_ops
later_kept = refl

effective_latest_example :
    In (row_at 2 7 (codes "b")) two_rows
    × (is_by same_case 1 ada (row_at 2 7 (codes "b")) ≡ true)
    × ((q : ReactionRow)
        → In q two_rows
        → is_by same_case 1 ada q ≡ true
        → newer_reaction q (row_at 2 7 (codes "b")) ≡ false)
effective_latest_example =
    effective_latest same_case 1 ada two_rows (row_at 2 7 (codes "b")) later_kept

ada_reacts : is_by same_case 1 ada (row_at 3 5 (codes "a")) ≡ true
ada_reacts = refl

-- Ada's later reaction is listed.
effective_complete_example :
    (r : ReactionRow) × (reactor_of 1 ada (gather same_case [] two_rows) ≡ some r)
    × ((is_empty r.emoji ≡ true) ⊎ IsShownAs 1 r (effective_reactions same_case two_rows))
effective_complete_example =
    effective_complete same_case two_rows 1 ada (row_at 3 5 (codes "a")) (inr (inl refl)) ada_reacts

abbrev subject_one : Subject
subject_one = record { from = ada; to = bob ∷ ada ∷ []; add_to = [] }

only_bob : reaction_recipients same_case subject_one ada ≡ bob ∷ []
unfolding live_ops
only_bob = refl

recipients_exact_example :
    ((a : Text)
      → In a (participants subject_one)
      → (ada ≡ a) ⊎ In a (keys same_case (reaction_recipients same_case subject_one ada)))
    × ((x : Text)
        → In x (reaction_recipients same_case subject_one ada)
        → In x (participants subject_one) × (ada ≢ x))
    × IsDistinct same_case (keys same_case (reaction_recipients same_case subject_one ada))
recipients_exact_example = recipients_exact same_case subject_one ada

abbrev comings : List Event
comings = registered 2 bob ∷ unregistered 1 ada ∷ registered 1 ada ∷ []

connected_lem_example :
    is_member 2 (clients_at bob (after_events comings)) ≡ is_connected 2 bob comings
connected_lem_example = connected_lem comings 2 bob

-- Bob's one connection, and a message that he may see.
abbrev one_message : Sources
one_message = record {
  casing = same_case;
  build_item = λ _ _. some (false, codes "m");
  reaction_subject = λ _. none;
  indicator_audience = λ _. none;
  is_full = λ _. false;
}

abbrev bob_online : Registry
bob_online = (bob, 2 ∷ []) ∷ []

abbrev frame : Envelope
frame = record { kind = new_msg; payload = item (codes "m") }
