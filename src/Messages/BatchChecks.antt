-- ===== src/Messages/BatchChecks.antt =====
-- The checks of `AddRecipients` of internal/handlers/messages.go, as far as they are passed.
use fmsg_webapi.Prelude.{
  ℕ, ◌≡◌, refl, sym, ap, ◌∙◌, subst, Bool, true, false, not, Option, none, some, List, [], ◌∷◌,
  arith, if◌then◌else◌, any, ◌==◌, nat_eq, Text, codes, text_eq,
}
use fmsg_webapi.Request.Frames.{query-some}
use fmsg_webapi.Messages.Access.{retrieve_failed}
use fmsg_webapi.Trash.Handlers.{not_found}
use fmsg_webapi.Messages.Loading.{or_default-cases}
use fmsg_webapi.Address.{same_addr, is_valid_addr, draft_hidden}
use fmsg_webapi.Trash.{purged_result, purged_for, trash_state_q}
use fmsg_webapi.Messages.Adding.{
  if_recipient, add_by_id, add_found, unless_leaf, checked_batch, own_rows, if_participant,
}
use fmsg_webapi.Request.Success.{Succeeds, guard-passed, or_answer-passed}
use fmsg_webapi.Request.{Answer, refusal, or_answer}
use fmsg_webapi.Db.Lineage.{State}
use fmsg_webapi.Messages.{Site, Msg, World, or_default, is_nil, query, msg_by}

purged_result-world : (r : Option (Option State) × World) → (purged_result r).1 ≡ r.1
purged_result-world (none, w) = refl
purged_result-world (some state, w) = refl

-- Looking at the trash writes nothing.
pub purged_for-db :
    (s : Site) (identity : Text) (id : ℕ) (w : World)
    → (purged_for s.host identity id w).1.db ≡ w.db
purged_for-db s identity id w =
    ap (λ (v : World). v.db) (purged_result-world (trash_state_q s.host identity id w))

module _ (s : Site) (identity : Text) (id batch now : ℕ) (add_to : List Text) where
  -- Where the checks end.
  pub record IsChecked (w : World) (r : Answer × World) : Type 0 where
    pub time_sent : Option ℕ
    pub world : World
    pub same_db : world.db ≡ w.db
    pub goes_on : r ≡ checked_batch s identity id batch now add_to time_sent world
    pub succeeded : Succeeds (checked_batch s identity id batch now add_to time_sent world)

  recipient-IsChecked :
      (o : Option ℕ) (n : ℕ) (v w : World)
      → v.db ≡ w.db
      → Succeeds (if_recipient s identity id batch now add_to o (n, v))
      → IsChecked w (if_recipient s identity id batch now add_to o (n, v))
  recipient-IsChecked o n v w e k =
      let (_, r, k1) =
        guard-passed (n == 0) (refusal 403 (codes "only existing participants may add recipients"))
          v (checked_batch s identity id batch now add_to o v) (omega arith) k in
      record { time_sent = o; world = v; same_db = e; goes_on = r; succeeded = k1 }

  participant-IsChecked :
      (m : Msg) (b : Bool) (v w : World)
      → v.db ≡ w.db
      → let r =
          if b
          then if_recipient s identity id batch now add_to m.time_sent
              (or_default (query (own_rows s identity id batch now add_to)) 0 v)
          else checked_batch s identity id batch now add_to m.time_sent v in
        Succeeds r → IsChecked w r
  participant-IsChecked m true v w e k =
      let d = or_default (query (own_rows s identity id batch now add_to)) 0 v in
      let (_, ed) = or_default-cases (own_rows s identity id batch now add_to) 0 v in
      recipient-IsChecked m.time_sent d.0 d.1 w (ed ∙ e) k
  participant-IsChecked m false v w e k = record {
    time_sent = m.time_sent;
    world = v;
    same_db = e;
    goes_on = refl;
    succeeded = k;
  }

  leaf-IsChecked :
      (m : Msg) (p : Bool × World) (w : World)
      → p.1.db ≡ w.db
      → Succeeds (unless_leaf s identity id batch now add_to m p)
      → IsChecked w (unless_leaf s identity id batch now add_to m p)
  leaf-IsChecked m (true, v) w e k = absurd (omega (arith, k.below))
  leaf-IsChecked m (false, v) w e k =
      let (_, r, k1) =
        guard-passed m.terminal
          (refusal 409 (codes "message is terminal; recipients cannot be added to it")) v
          (if_participant s identity id batch now add_to m v) (omega arith) k in
      subst (IsChecked w) (sym r)
        (participant-IsChecked m (not (same_addr s.casing m.from identity)) v w e k1)

  found-IsChecked :
      (o : Option Msg) (v w : World)
      → v.db ≡ w.db
      → Succeeds (add_found s identity id batch now add_to o v)
      → IsChecked w (add_found s identity id batch now add_to o v)
  found-IsChecked none v w e k = absurd (omega (arith, k.below))
  found-IsChecked (some m) v w e k =
      let (_, r, k1) =
        guard-passed (draft_hidden s.casing (identity ∷ []) m.from m.time_sent) not_found v
          (unless_leaf s identity id batch now add_to m (purged_for s.host identity id v))
          (omega arith) k in
      subst (IsChecked w) (sym r) (
        leaf-IsChecked m (purged_for s.host identity id v) w (purged_for-db s identity id v ∙ e) k1)

  pub add_by_id-IsChecked :
      (w : World)
      → Succeeds (add_by_id s identity id batch now add_to w)
      → (is_nil add_to ≡ false) × IsChecked w (add_by_id s identity id batch now add_to w)
  unfolding add_by_id
  add_by_id-IsChecked w k =
      let next = add_found s identity id batch now add_to in
      let (a, ra, ka) =
        guard-passed (is_nil add_to) (refusal 400 (codes "add_to list must not be empty")) w _
          (omega arith) k in
      let (_, rb, kb) =
        guard-passed (any (λ a. not (is_valid_addr a)) add_to)
          (refusal 400 (codes "invalid add_to address")) w
          (or_answer (query λ db. msg_by id db.msgs) retrieve_failed next w) (omega arith) ka in
      let (o, v, e, r, kc) =
        or_answer-passed (query λ db. msg_by id db.msgs) retrieve_failed next w (omega arith) kb in
      let (_, ev) = query-some (λ db. msg_by id db.msgs) w e in
      (a, subst (IsChecked w) (sym (ra ∙ rb ∙ r)) (found-IsChecked o v w ev kc))
