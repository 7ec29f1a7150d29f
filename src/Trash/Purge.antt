-- ===== src/Trash/Purge.antt =====
-- `markPurged` and `purge` of internal/handlers/trash.go.
use fmsg_webapi.Prelude.{
  ℕ, suc, Bool, not, ◌&&◌, List, [], ◌∷◌, ◌++◌, map, if◌then◌else◌, ◌==◌, nat_eq, Text, codes,
  text_eq,
}
use fmsg_webapi.Strings.{is_empty}
use fmsg_webapi.Db.Lineage.{trash_subtree}
use fmsg_webapi.Db.Queries.{has_purge, mark_purge}
use fmsg_webapi.Request.{
  Query, query, exec, pure, ◌>>=◌, ◌>>◌, Effect, remove_file, release_usage, Handler, Answer,
  answer, refusal, or_answer, purge_body,
}
use fmsg_webapi.Trash.{Host, notify_trash}
use fmsg_webapi.Trash.Storage.{UsageRelease, usage_of}
use fmsg_webapi.Trash.Removal.{remove_unheld}

abbrev pub counted : List UsageRelease → ℕ × List UsageRelease → ℕ × List UsageRelease
counted rel (n, releases) = (suc n, rel ++ releases)

-- Whether the row of a message marks its thread; the top is 0 when none does.
abbrev pub is_top : ℕ → ℕ → Bool
is_top top id = not (top == 0) && id == top

-- `markPurged`
unfoldable pub mark_purged : Host → Text → ℕ → ℕ → List ℕ → Query (ℕ × List UsageRelease)
mark_purged h identity top now [] = pure (0, [])
mark_purged h identity top now (id ∷ ids) =
    let rest = mark_purged h identity top now ids in
    query (has_purge identity id) >>= λ already. if already then rest else (do
      exec (mark_purge identity id (is_top top id) now)
      rel ← usage_of h identity id
      others ← rest
      pure (counted rel others))

abbrev pub release_effect : Text → ℕ → UsageRelease → Effect
release_effect identity now r = release_usage r.is_send identity now r.size

abbrev pub releases_after : Host → Text → ℕ → List UsageRelease → List Effect
releases_after h identity now releases =
    if is_empty h.id_url then [] else map (release_effect identity now) releases

abbrev pub purge_failed : Answer
purge_failed = refusal 500 (codes "failed to delete message")

-- The end of `purge`: the notifications, and what is to be done after the commit.
abbrev pub purge_done :
    Host → Text → ℕ → ℕ → List ℕ → ℕ × List UsageRelease → ℕ × List Text → Handler
purge_done h identity id now ids (purged, releases) (removed, files) w =
    let v = notify_trash identity ids w in
    (
      answer 200 (purge_body id purged removed),
      record v {
        after_commit =
            v.after_commit ++ map remove_file files ++ releases_after h identity now releases;
      },
    )

-- `purge`
pub purge : Host → Text → ℕ → Bool → ℕ → Handler
purge h identity id thread now =
    or_answer (query λ db. trash_subtree h.casing db identity id) purge_failed λ ids.
      or_answer (mark_purged h identity (if thread then id else 0) now ids) purge_failed λ marked.
        or_answer (remove_unheld h now ids) purge_failed
          λ gone. purge_done h identity id now ids marked gone
