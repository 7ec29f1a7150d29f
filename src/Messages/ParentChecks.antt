-- ===== src/Messages/ParentChecks.antt =====
-- What a draft that is created has passed: `Create` of internal/handlers/messages.go, with
-- `resolveParent` of references.go.
use fmsg_webapi.Prelude.{
  ℕ, ◌≤◌, ◌≡◌, refl, sym, ap, ◌∙◌, subst, Bool, true, false, not, ◌||◌, Option, none, some, arith,
  ltb, length, ◌==◌, nat_eq, Text, codes, text_eq,
}
use fmsg_webapi.Address.{same_addr}
use fmsg_webapi.Messages.Drafts.{
  create, MessageInput, foreign_from, has_bad_address, bad_address, checked_draft, topic_on_reply,
  data_too_large, insert_draft,
}
use fmsg_webapi.Messages.BatchChecks.{purged_for-db}
use fmsg_webapi.Trash.{purged_for}
use fmsg_webapi.Request.Frames.{query-some}
use fmsg_webapi.Request.Success.{Succeeds, or_answer-passed, guard-passed}
use fmsg_webapi.Request.{Handler, Answer, refusal}
use fmsg_webapi.Messages.{Site, Db, is_some, World, query, is_nil}
use fmsg_webapi.Messages.Parents.{
  validate_parent, bad_parent, ParentRef, parent_hash, Parent, no_parent, Candidate, parent_id,
  may_reply, parent_by_id, parent_by_hash, named_hash, resolve_parent, unless_parent_purged,
  identified, parent_found, parent_participant, parent_failed, has_topic_conflict,
}

-- The message that a reference names.
abbrev pub named : ParentRef → Db → Option Candidate
named no_parent db = none
named bad_parent db = none
named (parent_id id) db = parent_by_id id db
named (parent_hash hash) db = parent_by_hash hash db

abbrev pub hash_asked : ParentRef → Option Text
hash_asked (parent_hash hash) = some hash
hash_asked _ = none

-- The parent of a draft is sent and not terminal, and the caller takes part in it.
pub data IsParent (s : Site) (identity : Text) (db : Db) (ref : ParentRef) (o : Option Parent)
    : Type 0 where
  root : ref ≡ no_parent → o ≡ none → IsParent s identity db ref o
  reply :
      (c : Candidate) (p : Parent)
      → named ref db ≡ some c
      → may_reply s.casing identity c db ≡ true
      → is_some c.row.time_sent ≡ true
      → c.row.terminal ≡ false
      → p.id ≡ c.row.id
      → named_hash (hash_asked ref) c ≡ some p.hash
      → length p.hash ≡ 32
      → o ≡ some p
      → IsParent s identity db ref o

module _ (s : Site) (identity : Text) (next : Option Parent → Handler) where
  -- Where the handler goes on, with the parent.
  pub record IsResolved (db : Db) (ref : ParentRef) (r : Answer × World) : Type 0 where
    pub parent : Option Parent
    pub world : World
    pub same_db : world.db ≡ db
    pub checked : IsParent s identity db ref parent
    pub goes_on : r ≡ next parent world
    pub succeeded : Succeeds (next parent world)

  identified-hash :
      (h : Option Text) (id : ℕ) (v : World)
      → Succeeds (identified h id next v)
      → (p : Parent) × (p.id ≡ id)
        × (h ≡ some p.hash)
        × (length p.hash ≡ 32)
        × (identified h id next v ≡ next (some p) v)
        × Succeeds (next (some p) v)
  identified-hash none id v k = absurd (omega (arith, k.below))
  identified-hash (some hash) id v k =
      let p : Parent = record { id = id; hash = hash } in
      let (b, r, k1) =
        guard-passed (not (length hash == 32))
          (refusal 500 (codes "parent has no finalized identity")) v (next (some p) v) (omega arith)
          k in
      (p, refl, refl, ground (arith, b), r, k1)

  purged-IsResolved :
      (ref : ParentRef) (c : Candidate) (p : Bool × World) (db : Db)
      → p.1.db ≡ db
      → named ref db ≡ some c
      → may_reply s.casing identity c db ≡ true
      → Succeeds (unless_parent_purged s identity next (hash_asked ref) c p)
      → IsResolved db ref (unless_parent_purged s identity next (hash_asked ref) c p)
  purged-IsResolved ref c (true, v) db e n m k = absurd (omega (arith, k.below))
  purged-IsResolved ref c (false, v) db e n m k =
      let (b, r, k1) =
        guard-passed (not (is_some c.row.time_sent) || c.row.terminal)
          (refusal 409 (codes "parent is a draft or terminal message")) v
          (identified (named_hash (hash_asked ref) c) c.row.id next v) (omega arith) k in
      let (p, ei, eh, len, r', k2) =
        identified-hash (named_hash (hash_asked ref) c) c.row.id v k1 in
      record {
        parent = some p;
        world = v;
        same_db = e;
        checked = reply c p n m (ground (arith, b)) (ground (arith, b)) ei eh len refl;
        goes_on = r ∙ r';
        succeeded = k2;
      }

  found-IsResolved :
      (ref : ParentRef) (o : Option Candidate) (w : World) (db : Db)
      → w.db ≡ db
      → named ref db ≡ o
      → Succeeds (parent_found s identity next (hash_asked ref) o w)
      → IsResolved db ref (parent_found s identity next (hash_asked ref) o w)
  found-IsResolved ref none w db e n k = absurd (omega (arith, k.below))
  found-IsResolved ref (some c) w db e n k =
      let go = parent_participant s identity next (hash_asked ref) c in
      let (b, v, eb, r, k1) =
        or_answer-passed (query (may_reply s.casing identity c))
          (refusal 500 (codes "failed to validate parent participation")) go w (omega arith) k in
      let (em, ev) = query-some (may_reply s.casing identity c) w eb in
      let (ok, r', k2) =
        guard-passed (not b) (refusal 403 (codes "not a participant of this parent")) v
          (unless_parent_purged s identity next (hash_asked ref) c
            (purged_for s.host identity c.row.id v))
          (omega arith) k1 in
      let at_db = ap (may_reply s.casing identity c) (sym e) in
      subst (IsResolved db ref) (sym (r ∙ r')) (
        purged-IsResolved ref c (purged_for s.host identity c.row.id v) db
          (purged_for-db s identity c.row.id v ∙ ev ∙ e) n (at_db ∙ sym em ∙ ground (arith, ok)) k2)

  pub resolve_parent-IsResolved :
      (ref : ParentRef) (w : World)
      → Succeeds (resolve_parent s identity next ref w)
      → IsResolved w.db ref (resolve_parent s identity next ref w)
  unfolding resolve_parent
  resolve_parent-IsResolved no_parent w k = record {
    parent = none;
    world = w;
    same_db = refl;
    checked = root refl refl;
    goes_on = refl;
    succeeded = k;
  }
  resolve_parent-IsResolved bad_parent w k = absurd (omega (arith, k.below))
  resolve_parent-IsResolved (parent_id id) w k =
      let (o, v, e, r, k1) =
        or_answer-passed (query (parent_by_id id)) parent_failed (parent_found s identity next none)
          w (omega arith) k in
      let (eo, ev) = query-some (parent_by_id id) w e in
      subst (IsResolved w.db (parent_id id)) (sym r)
        (found-IsResolved (parent_id id) o v w.db ev (sym eo) k1)
  resolve_parent-IsResolved (parent_hash hash) w k =
      let (o, v, e, r, k1) =
        or_answer-passed (query (parent_by_hash hash)) parent_failed
          (parent_found s identity next (some hash)) w (omega arith) k in
      let (eo, ev) = query-some (parent_by_hash hash) w e in
      subst (IsResolved w.db (parent_hash hash)) (sym r)
        (found-IsResolved (parent_hash hash) o v w.db ev (sym eo) k1)

-- A draft that may be created. A reply's parent is sent, the caller takes part in it.
pub record IsAdmitted (s : Site) (identity : Text) (i : MessageInput) (db : Db) : Type 0 where
  pub owned : same_addr s.casing i.from identity ≡ true
  pub addressed : is_nil i.to ≡ false
  pub well_formed : has_bad_address i.from i.to ≡ false
  pub parent : Option Parent
  pub allowed : IsParent s identity db i.parent parent
  pub topic_free : has_topic_conflict parent i.topic ≡ false
  pub fits : length i.contents ≤ s.max_data_size

-- A draft is created with success only for the caller's own address, with a recipient and with
-- well-formed addresses, with data within the limit, and, when it names a parent, only when that
-- parent is stored, sent and not terminal, the caller takes part in it, its hash has 32 bytes and
-- the draft has no topic of its own.
pub create-IsAdmitted :
    (s : Site) (identity : Text) (id : ℕ) (i : MessageInput) (w : World)
    → Succeeds (create s identity id (some i) w)
    → IsAdmitted s identity i w.db
unfolding create
create-IsAdmitted s identity id i w k =
    let (b1, r1, k1) =
      guard-passed (not (same_addr s.casing i.from identity)) foreign_from w _ (omega arith) k in
    let (b2, r2, k2) =
      guard-passed (is_nil i.to) (refusal 400 (codes "to list must not be empty")) w _ (omega arith)
        k1 in
    let (b3, r3, k3) =
      guard-passed (has_bad_address i.from i.to) bad_address w _ (omega arith) k2 in
    let p = resolve_parent-IsResolved s identity (checked_draft s identity id i) i.parent w k3 in
    let (b4, r4, k4) =
      guard-passed (has_topic_conflict p.parent i.topic) topic_on_reply p.world _ (omega arith)
        p.succeeded in
    let (b5, r5, k5) =
      guard-passed (ltb s.max_data_size (length i.contents)) data_too_large p.world
        (validate_parent p.parent (insert_draft s identity id i p.parent) p.world) (omega arith)
        k4 in
    record {
      owned = ground (arith, b1);
      addressed = b2;
      well_formed = b3;
      parent = p.parent;
      allowed = p.checked;
      topic_free = b4;
      fits = ground (arith, b5);
    }
