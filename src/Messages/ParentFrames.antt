-- ===== src/Messages/ParentFrames.antt =====
-- The checks of a draft's parent write nothing: internal/handlers/references.go and messages.go.
use fmsg_webapi.Prelude.{
  ℕ, Bool, true, false, not, ◌||◌, Option, none, some, length, ◌==◌, nat_eq, Text, codes, text_eq,
}
use fmsg_webapi.Db.Lineage.{State}
use fmsg_webapi.Trash.{purged_for, purged_result, is_purged, trash_state_q}
use fmsg_webapi.Request.Frames.{Keeps, or_answer-Keeps, guard-Keeps, query-Keeps}
use fmsg_webapi.Messages.{Site, World, query}
use fmsg_webapi.Messages.Parents.{
  bad_parent, no_parent, Parent, identified, validate_parent, Candidate, resolve_parent,
  unless_terminal, unless_parent_purged, ParentRef, parent_found, parent_id, may_reply,
  parent_by_id, named_hash, parent_participant, parent_hash, parent_by_hash,
}
use fmsg_webapi.Request.{Handler, Answer, refusal}
use fmsg_webapi.Db.{Db, Msg, is_some, msg_by}

module _ (P : Db → Type 0) where
  unless_terminal-Keeps :
      (next : Handler) → Keeps P next → (o : Option Msg) → Keeps P (unless_terminal next o)
  unless_terminal-Keeps next k none = record { run = λ w p. p }
  unless_terminal-Keeps next k (some m) = record {
    run =
        (guard-Keeps P m.terminal (refusal 409 (codes "PID is terminal; it cannot be replied to"))
          next k).run;
  }

  pub validate_parent-Keeps :
      (parent : Option Parent) (next : Handler)
      → Keeps P next
      → Keeps P (validate_parent parent next)
  validate_parent-Keeps none next k = record { run = k.run }
  validate_parent-Keeps (some p) next k = record {
    run =
        (or_answer-Keeps P (query λ db. msg_by p.id db.msgs) _ (unless_terminal next)
          (query-Keeps P λ db. msg_by p.id db.msgs) (unless_terminal-Keeps next k)).run;
  }

  identified-Keeps :
      (o : Option Text) (id : ℕ) (next : Option Parent → Handler)
      → ((parent : Option Parent) → Keeps P (next parent))
      → Keeps P (identified o id next)
  identified-Keeps none id next k = record { run = λ w p. p }
  identified-Keeps (some hash) id next k = record {
    run = (guard-Keeps P (not (length hash == 32)) _ (next _) (k _)).run;
  }

  purged-Keeps :
      (s : Site) (identity : Text) (id : ℕ) (next : Bool × World → Answer × World)
      → ((b : Bool) (w : World) → P w.db → P (next (b, w)).1.db)
      → Keeps P (λ w. next (purged_for s.host identity id w))
  purged-Keeps s identity id next k = record {
    run = λ w p. at_result (trash_state_q s.host identity id w) p;
  }
    where
      at_result : (r : Option (Option State) × World) → P r.1.db → P (next (purged_result r)).1.db
      at_result (none, w) p = k false w p
      at_result (some state, w) p = k (is_purged state) w p

  module _ (s : Site) (identity : Text) (next : Option Parent → Handler)
      (k : (parent : Option Parent) → Keeps P (next parent)) where
    unless_parent_purged-Keeps :
        (named : Option Text) (c : Candidate) (b : Bool) (w : World)
        → P w.db
        → P (unless_parent_purged s identity next named c (b, w)).1.db
    unless_parent_purged-Keeps named c true w p = p
    unless_parent_purged-Keeps named c false w p =
        (guard-Keeps P (not (is_some c.row.time_sent) || c.row.terminal) _ _
            (identified-Keeps (named_hash named c) c.row.id next k)).run
          w p

    parent_found-Keeps :
        (named : Option Text) (o : Option Candidate)
        → Keeps P (parent_found s identity next named o)
    parent_found-Keeps named none = record { run = λ w p. p }
    parent_found-Keeps named (some c) = record {
      run =
          (or_answer-Keeps P (query (may_reply s.casing identity c)) _
            (parent_participant s identity next named c)
            (query-Keeps P (may_reply s.casing identity c))
            λ b. record {
              run =
                  (guard-Keeps P (not b) _ _ (
                    purged-Keeps s identity c.row.id (unless_parent_purged s identity next named c)
                      (unless_parent_purged-Keeps named c))).run;
            }).run;
    }

    pub resolve_parent-Keeps : (ref : ParentRef) → Keeps P (resolve_parent s identity next ref)
    unfolding resolve_parent
    resolve_parent-Keeps no_parent = record { run = (k none).run }
    resolve_parent-Keeps bad_parent = record { run = λ w p. p }
    resolve_parent-Keeps (parent_id id) = record {
      run =
          (or_answer-Keeps P (query (parent_by_id id)) _ _ (query-Keeps P (parent_by_id id))
            (parent_found-Keeps none)).run;
    }
    resolve_parent-Keeps (parent_hash hash) = record {
      run =
          (or_answer-Keeps P (query (parent_by_hash hash)) _ _ (query-Keeps P (parent_by_hash hash))
            (parent_found-Keeps (some hash))).run;
    }
