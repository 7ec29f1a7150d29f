-- ===== src/Trash/Handlers.antt =====
-- `trashSent` and `Restore` of internal/handlers/trash.go.
use fmsg_webapi.Prelude.{
  ℕ, Bool, true, false, not, ◌||◌, Option, none, some, List, [], ◌∷◌, if◌then◌else◌, Text, codes,
}
use fmsg_webapi.Db.Lineage.{State, thread, message, trash_subtree}
use fmsg_webapi.Db.Queries.{participates, mark_deleted, unmark}
use fmsg_webapi.Request.{
  Query, query, exec, pure, World, Handler, Answer, answer, refusal, or_answer, trash_body, IdParam,
  resolve_id,
}
use fmsg_webapi.Trash.{Host, trash_state_q, is_purged, purged_for, notify_trash}
use fmsg_webapi.Trash.Purge.{purge}

-- The flags of the query string.
pub record Flags : Type 0 where
  pub thread : Bool
  pub permanent : Bool

abbrev pub not_found : Answer
not_found = refusal 404 (codes "message not found")

abbrev pub subtree_or_self : Host → Text → ℕ → Bool → Query (List ℕ)
subtree_or_self h identity id false = pure (id ∷ [])
subtree_or_self h identity id true = query λ db. trash_subtree h.casing db identity id

-- An error reads as deleted itself.
abbrev pub marked_result : ℕ → Option (Option State) × World → Answer × World
marked_result id (none, w) = (answer 200 (trash_body id (some message)), w)
marked_result id (some state, w) = (answer 200 (trash_body id state), w)

abbrev pub marked_answer : Host → Text → ℕ → Bool → Handler
marked_answer h identity id true w = (answer 200 (trash_body id (some thread)), w)
marked_answer h identity id false w = marked_result id (trash_state_q h identity id w)

abbrev pub delete_failed : Answer
delete_failed = refusal 500 (codes "failed to delete message")

abbrev pub move_to_trash : Host → Text → ℕ → Bool → ℕ → Handler
move_to_trash h identity id with_thread now =
    or_answer (exec (mark_deleted identity id with_thread now)) delete_failed λ _.
      or_answer (subtree_or_self h identity id with_thread) delete_failed
        λ ids w. marked_answer h identity id with_thread (notify_trash identity ids w)

-- After the checks: delete for good, or move to the trash.
abbrev pub delete_sent : Host → Text → ℕ → Flags → ℕ → Bool → Option State → Handler
delete_sent h identity id flags now found state w =
    if not found || is_purged state
    then (not_found, w)
    else if flags.permanent
    then purge h identity id flags.thread now w
    else move_to_trash h identity id flags.thread now w

-- `trashSent`
unfoldable pub trash_sent : Host → Text → ℕ → Flags → ℕ → Handler
trash_sent h caller id flags now =
    let identity = h.casing.to_lower caller in
    or_answer (query (participates h.casing identity id)) delete_failed λ found.
      or_answer (trash_state_q h identity id) delete_failed
        λ state. delete_sent h identity id flags now found state

abbrev pub restore_failed : Answer
restore_failed = refusal 500 (codes "failed to restore message")

-- An error reads as not deleted.
abbrev pub restored_result : ℕ → Option (Option State) × World → Answer × World
restored_result id (none, w) = (answer 200 (trash_body id none), w)
restored_result id (some state, w) = (answer 200 (trash_body id state), w)

abbrev pub take_out : Host → Text → ℕ → Bool → Handler
take_out h identity id with_thread =
    or_answer (subtree_or_self h identity id with_thread) restore_failed λ ids.
      or_answer (exec λ db. some (unmark identity ids db)) restore_failed
        λ _ w. restored_result id (trash_state_q h identity id (notify_trash identity ids w))

abbrev pub unless_purged : Host → Text → ℕ → Bool → Bool × World → Answer × World
unless_purged h identity id with_thread (true, w) = (not_found, w)
unless_purged h identity id with_thread (false, w) = take_out h identity id with_thread w

abbrev pub restore_found : Host → Text → ℕ → Bool → Bool → Handler
restore_found h identity id with_thread false w = (not_found, w)
restore_found h identity id with_thread true w =
    unless_purged h identity id with_thread (purged_for h identity id w)

-- `Restore`
unfoldable pub restore : Host → Text → IdParam → Flags → Handler
restore h caller param flags =
    let identity = h.casing.to_lower caller in
    resolve_id param λ id.
      or_answer (query (participates h.casing identity id)) restore_failed
        λ found. restore_found h identity id flags.thread found
