-- ===== src/Messages/Rereading.antt =====
-- Marking a message as read twice: `MarkRead` of internal/handlers/messages.go.
use fmsg_webapi.Prelude.{
  ℕ, ◌≡◌, refl, sym, ap, ap₂, ◌∙◌, inl, inr, Bool, true, false, not, ◌&&◌, ◌||◌, Option, none, some,
  List, [], ◌∷◌, map, arith, if◌then◌else◌, &&_both, Bool-cases, some-eq, any, keep, ◌==◌, nat_eq,
  Text, text_eq, Bool-cases,
}
use fmsg_webapi.Db.Lineage.{trash_state}
use fmsg_webapi.Messages.Delivery.{update_rows}
use fmsg_webapi.Messages.Access.{coalesce, scalar}
use fmsg_webapi.Trash.Handlers.{not_found}
use fmsg_webapi.Trash.{is_purged, state_in}
use fmsg_webapi.Messages.MarkRead.{
  read_noted, mark_read_by_id, read_lookup, read_answer, mark_failed, read_found, set_read,
  set_read_added, set_read_to, unless_read, read_to, read_added, is_reader, lookup_row, is_sent,
}
use fmsg_webapi.Request.Success.{
  IsClean, exec-IsClean, written, written-IsClean, fetch-IsClean, query-IsClean, after-IsClean,
}
use fmsg_webapi.Request.{or_answer, Answer, exec, proceed, after_statement}
use fmsg_webapi.Messages.{Site, World, Db, Added, Recipient, is_nil}

module _ {A : Type 0} (p : A → Bool) (change : A → A) (same : (a : A) → p (change a) ≡ p a) where
  -- An update of the selected rows, seen through the selection.
  keep-update : (rows : List A) → keep p (update_rows p change rows) ≡ map change (keep p rows)
  keep-update [] = refl
  keep-update (a ∷ rows) = elim (Bool-cases (p a)) [
    | inl e ↦ rw (e, same a, e) (ap (◌∷◌ (change a)) (keep-update rows))
    | inr e ↦ rw (e, e) (keep-update rows)
  ]

  any-update : (rows : List A) → any p (update_rows p change rows) ≡ any p rows
  any-update [] = refl
  any-update (a ∷ rows) = ground (arith, same a, any-update rows)

any-keep : {A : Type 0} (p : A → Bool) (rows : List A) → any p rows ≡ not (is_nil (keep p rows))
any-keep p [] = refl
any-keep p (a ∷ rows) = ground (arith, any-keep p rows)

abbrev times_to : List Recipient → List (Option ℕ)
times_to rs = map (λ (r : Recipient). r.time_read) rs

abbrev times_added : List Added → List (Option ℕ)
times_added ys = map (λ (a : Added). a.time_read) ys

-- One row without a time, and no other: it has the time after the update.
coalesce-read :
    (now : ℕ) (rs : List Recipient) (ys : List Added)
    → coalesce (scalar (times_to rs)) (scalar (times_added ys)) ≡ some none
    → (not (is_nil rs) || not (is_nil ys)) ≡ true
    → coalesce
        (scalar (times_to (map (read_to now) rs)))
        (scalar (times_added (map (read_added now) ys)))
      ≡ some (some now)
coalesce-read now [] [] h k = cc
coalesce-read now [] (y ∷ []) h k = ground arith
coalesce-read now [] (y ∷ z ∷ ys) h k = cc
coalesce-read now (r ∷ []) ys h k = ground arith
coalesce-read now (r ∷ q ∷ rs) ys h k = cc

-- The two columns of the lookup's row.
lookup-columns :
    (o : Option (Option ℕ)) (b : Bool) {x : Option ℕ} {c : Bool}
    → lookup_row o b ≡ some (x, c)
    → (o ≡ some x) × (b ≡ c)
lookup-columns none b h = cc h
lookup-columns (some y) b h = let e = some-eq h in (ap (λ p. some p.0) e, ap (λ p. p.1) e)

module _ (s : Site) (identity : Text) where
  -- What a request does when no statement fails: its answer, and the tables after it.
  abbrev pub read_effect : ℕ → ℕ → Option ℕ → Db → Answer × Db
  read_effect now id (some t) db = (read_answer id t, db)
  read_effect now id none db = (
    read_answer id now,
    set_read_added s.casing identity id now (set_read_to s.casing identity id now db),
  )

  abbrev pub lookup_effect : ℕ → ℕ → Db → Option (Option ℕ × Bool) → Answer × Db
  lookup_effect now id db none = (mark_failed, db)
  lookup_effect now id db (some (existing, recipient)) =
      if not recipient || is_purged (state_in (s.casing.to_lower identity) id db)
      then (not_found, db)
      else read_effect now id existing db

  abbrev pub mark_effect : ℕ → ℕ → Db → Answer × Db
  mark_effect now id db = lookup_effect now id db (read_lookup s.casing identity id db)

  abbrev outcome : Answer × World → Answer × Db
  outcome r = (r.0, r.1.db)

  noted-outcome :
      (now id : ℕ) (r : Option (Unit {0}) × World)
      → outcome (read_noted s identity now id r) ≡ (read_answer id now, r.1.db)
  noted-outcome now id (none, w) = refl
  noted-outcome now id (some _, w) = refl

  set_read-outcome :
      (now id : ℕ) (w : World)
      → IsClean w
      → outcome (set_read s identity now id w) ≡ read_effect now id none w.db
  unfolding or_answer
  set_read-outcome now id w c =
      let f = set_read_to s.casing identity id now in
      let g = set_read_added s.casing identity id now in
      let last = written g (written f w) in
      rw (exec-IsClean f w c, exec-IsClean g (written f w) (written-IsClean f w c))
        (noted-outcome now id (exec some last)
          ∙ ap (λ (r : Option (Unit {0}) × World). (read_answer id now, r.1.db))
              (exec-IsClean (λ db. db) last
                (written-IsClean g (written f w) (written-IsClean f w c))))

  unless-outcome :
      (now id : ℕ) (o : Option ℕ) (p : Bool) (w : World)
      → IsClean w
      → outcome (unless_read s identity now id o (p, w))
        ≡ (if p then (not_found, w.db) else read_effect now id o w.db)
  unless-outcome now id o true w c = refl
  unless-outcome now id (some t) false w c = refl
  unless-outcome now id none false w c = set_read-outcome now id w c

  found-outcome :
      (now id : ℕ) (o : Option ℕ) (b : Bool) (w : World)
      → IsClean w
      → outcome (read_found s identity now id (o, b) w) ≡ lookup_effect now id w.db (some (o, b))
  found-outcome now id o false w c = refl
  found-outcome now id o true w c =
      let state = state_in (s.casing.to_lower identity) id in
      rw (query-IsClean state w c)
        (unless-outcome now id o (is_purged (state w.db)) (after_statement w) (after-IsClean w c))

  lookup-outcome :
      (now id : ℕ) (o : Option (Option ℕ × Bool)) (w : World)
      → IsClean w
      → outcome (proceed mark_failed (read_found s identity now id) (o, w))
        ≡ lookup_effect now id w.db o
  lookup-outcome now id none w c = refl
  lookup-outcome now id (some (o, b)) w c = found-outcome now id o b w c

  mark-outcome :
      (now id : ℕ) (w : World)
      → IsClean w
      → outcome (mark_read_by_id s identity now id w) ≡ mark_effect now id w.db
  unfolding mark_read_by_id or_answer
  mark-outcome now id w c =
      let look = read_lookup s.casing identity id in
      rw (fetch-IsClean look w c)
        (lookup-outcome now id (look w.db) (after_statement w) (after-IsClean w c))

  -- After the first marking, the lookup finds the time.
  reread :
      (now id : ℕ) (db : Db) (existing : Option ℕ)
      → read_lookup s.casing identity id db ≡ some (existing, true)
      → read_lookup s.casing identity id (read_effect now id existing db).1
        ≡ some (some (elim existing [ none ↦ now | some t ↦ t ]), true)
  reread now id db (some t) e = e
  reread now id db none e =
      let to_me : Recipient → Bool = λ r. r.msg_id == id && is_reader s.casing identity r.addr in
      let added_me : Added → Bool = λ a. a.msg_id == id && is_reader s.casing identity a.addr in
      let (time, mine) = lookup-columns _ _ e in
      let same_to : (r : Recipient) → to_me (read_to now r) ≡ to_me r = λ r. ground arith in
      let same_added : (a : Added) → added_me (read_added now a) ≡ added_me a = λ a. ground arith in
      ap₂ lookup_row
        (ap₂ (λ rs ys. coalesce (scalar (times_to rs)) (scalar (times_added ys)))
            (keep-update to_me (read_to now) same_to db.recipients)
            (keep-update added_me (read_added now) same_added db.added)
          ∙ coalesce-read now (keep to_me db.recipients) (keep added_me db.added) time (
              rw (← any-keep to_me db.recipients, ← any-keep added_me db.added)
                (&&_both _ _ mine).0))
        (ap₂ (λ b c. (b || c) && is_sent id db)
            (any-update to_me (read_to now) same_to db.recipients)
            (any-update added_me (read_added now) same_added db.added)
          ∙ mine)

  same_purged :
      (now id : ℕ) (existing : Option ℕ) (db : Db)
      → state_in (s.casing.to_lower identity) id (read_effect now id existing db).1
        ≡ state_in (s.casing.to_lower identity) id db
  unfolding trash_state
  same_purged now id none db = refl
  same_purged now id (some t) db = refl

  same_answer :
      (now later_on id : ℕ) (existing : Option ℕ) (db : Db)
      → read_effect later_on id
          (some (elim existing [ none ↦ now | some t ↦ t ]))
          (read_effect now id existing db).1
        ≡ read_effect now id existing db
  same_answer now later_on id none db = refl
  same_answer now later_on id (some t) db = refl

  twice :
      (now later_on id : ℕ) (db : Db) (o : Option (Option ℕ × Bool))
      → read_lookup s.casing identity id db ≡ o
      → (lookup_effect now id db o).0.status ≡ 200
      → mark_effect later_on id (lookup_effect now id db o).1 ≡ lookup_effect now id db o
  twice now later_on id db none e h = absurd (omega (arith, h))
  twice now later_on id db (some (existing, false)) e h = absurd (omega (arith, h))
  twice now later_on id db (some (existing, true)) e h =
      elim (Bool-cases (is_purged (state_in (s.casing.to_lower identity) id db))) [
        | inl p ↦ absurd (omega (arith, rw p at h))
        | inr p ↦
            rw (p, reread now id db existing e)
              (rw (same_purged now id existing db, p) (same_answer now later_on id existing db))
      ]

  -- Marking a message as read once more, at any later time, answers with the first time and
  -- changes no table; this for a first request that was answered with 200 with no statement
  -- failing, and a second with none failing.
  pub mark_read_again :
      (now later_on id : ℕ) (w v : World)
      → IsClean w
      → IsClean v
      → (mark_read_by_id s identity now id w).0.status ≡ 200
      → v.db ≡ (mark_read_by_id s identity now id w).1.db
      → let first = mark_read_by_id s identity now id w in
        let second = mark_read_by_id s identity later_on id v in
        (second.0 ≡ first.0) × (second.1.db ≡ first.1.db)
  mark_read_again now later_on id w v c d h e =
      let a = mark-outcome now id w c in
      let b = mark-outcome later_on id v d in
      let again = twice now later_on id w.db _ refl (rw (← a) h) in
      let same = b ∙ ap (mark_effect later_on id) (e ∙ ap (λ r. r.1) a) ∙ again ∙ sym a in
      (ap (λ r. r.0) same, ap (λ r. r.1) same)
