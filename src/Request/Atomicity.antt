-- ===== src/Request/Atomicity.antt =====
-- What a request leaves: internal/handlers/transaction.go.
use fmsg_webapi.Prelude.{
  ◌≤◌, ◌<◌, ◌≡◌, refl, ◌⊎◌, inl, inr, Bool, true, false, Option, List, [], arith, ltb,
  if◌then◌else◌, Bool-cases, Bool-cases,
}
use fmsg_webapi.Db.{Db}
use fmsg_webapi.Request.{
  resolved, opened, World, Answer, Commit, acknowledged, refused, unacknowledged, Finished,
  committed, finish, no_commit, atomic, IdParam, Handler, unchanged,
}

-- How a request may end, given the tables before it and the handler's end: all of what the handler
-- did took place, or none of it, or the database did not say and nothing outside was touched.
pub data IsAtomic (before : Db) (end : Answer × World) (r : Finished) : Type 0 where
  kept :
      400 ≤ r.answered.status
      → r.db ≡ before
      → r.published ≡ []
      → (r.performed ≡ []) ⊎ ((400 ≤ end.0.status) × (r.performed ≡ end.1.on_rollback))
      → IsAtomic before end r
  changed :
      end.0.status < 400
      → end.1.aborted ≡ false
      → r.answered ≡ end.0
      → r.db ≡ end.1.db
      → r.published ≡ end.1.notes
      → r.performed ≡ end.1.after_commit
      → IsAtomic before end r
  unknown :
      end.0.status < 400
      → end.1.aborted ≡ false
      → r.answered ≡ no_commit
      → r.db ≡ end.1.db
      → r.published ≡ end.1.notes
      → r.performed ≡ []
      → IsAtomic before end r

committed-IsAtomic :
    (before : Db) (a : Answer) (w : World) (c : Commit)
    → a.status < 400
    → w.aborted ≡ false
    → IsAtomic before (a, w) (committed before a w c)
committed-IsAtomic before a w acknowledged h k = changed h k refl refl refl refl
committed-IsAtomic before a w refused h k = kept (omega arith) refl refl (inl refl)
committed-IsAtomic before a w unacknowledged h k = unknown h k refl refl refl refl

asked-IsAtomic :
    (before : Db) (a : Answer) (w : World) (c : Commit) (broken : Bool)
    → a.status < 400
    → w.aborted ≡ broken
    → IsAtomic before
        (a, w)
        (if broken then unchanged before no_commit [] else committed before a w c)
asked-IsAtomic before a w c true h k = kept (omega arith) refl refl (inl refl)
asked-IsAtomic before a w c false h k = committed-IsAtomic before a w c h k

finish-IsAtomic :
    (before : Db) (c : Commit) (a : Answer) (w : World)
    → IsAtomic before (a, w) (finish before c (a, w))
unfolding finish
finish-IsAtomic before c a w = elim (Bool-cases (ltb a.status 400)) [
  | inr e ↦ rw (e, finish) (kept (ground arith) refl refl (inr (ground arith, refl)))
  | inl e ↦ rw (e, finish) (asked-IsAtomic before a w c w.aborted (ground arith) refl)
]

-- A request that changes messages is atomic, whatever its handler does and whichever statements
-- fail. It ends in one of three ways. It is answered with an error of at least 400, the tables are
-- as before and nothing is published; outside, nothing is done but what the handler registered for
-- a rollback, and that only when the handler itself answered with an error. Or the handler answered
-- below 400 with no statement failed, and its answer is given, its tables and notifications are
-- kept, and what it registered for after the commit is done. Or the commit is not acknowledged: the
-- handler's tables are kept, the answer is 500, and nothing outside is done.
pub atomic-IsAtomic :
    (begins : Bool) (faults : List Bool) (commit : Commit) (param : Option IdParam) (next : Handler)
    (db : Db)
    → IsAtomic db
        (resolved param next (opened db faults))
        (atomic begins faults commit param next db)
unfolding atomic
atomic-IsAtomic false faults commit param next db = kept (omega arith) refl refl (inl refl)
atomic-IsAtomic true faults commit param next db =
    let end = resolved param next (opened db faults) in finish-IsAtomic db commit end.0 end.1
