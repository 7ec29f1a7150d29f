-- ===== src/Messages/Showing.antt =====
-- What `Get` of internal/handlers/messages.go shows, and to whom.
use fmsg_webapi.Prelude.{
  ℕ, ◌≡◌, refl, sym, ap, ◌∙◌, subst, ◌⊎◌, inl, inr, Bool, true, false, not, Option, none, some,
  List, arith, if◌then◌else◌, Text,
}
use fmsg_webapi.Request.Frames.{query-some}
use fmsg_webapi.Trash.{state_in, trash_state_q, is_purged}
use fmsg_webapi.Trash.Handlers.{not_found}
use fmsg_webapi.Strings.{contains}
use fmsg_webapi.Messages.Reading.{CanRead, seen-participant}
use fmsg_webapi.Address.{is_recipient, draft_hidden}
use fmsg_webapi.Messages.Access.{
  retrieve_failed, time_read_by, shown, get_message, get_by_id, extract_short_text, get_found,
  with_read_state, may_see, unless_gone, access_denied,
}
use fmsg_webapi.Db.Lineage.{State}
use fmsg_webapi.Messages.Loading.{
  IsRead, whole, IsFetched, missing, fetched_row, fetch_message-IsFetched,
}
use fmsg_webapi.Request.Success.{
  Succeeds, named_id, resolve_id-passed, guard-passed, or_answer-passed,
}
use fmsg_webapi.Request.{Answer, answer, or_answer, IdParam, message_body, after_statement, fails}
use fmsg_webapi.Messages.{Site, Db, is_some, World, Msg, visible_addrs, fetch_message, query}
use fmsg_webapi.Models.{Message}

-- The message with the caller's mark in the trash and the text of its body.
abbrev pub marked : Site → Option State → Message → Text → Message
marked s state msg path = record msg {
  trash = state;
  short_text = extract_short_text s path msg.type;
}

-- The message with when the caller read it; a sender has read nothing.
abbrev pub read_for : Bool → Option (Option ℕ) → Message → Message
read_for true o msg = msg
read_for false none msg = msg
read_for false (some t) msg = record msg { time_read = t; read = is_some t }

module _ (s : Site) (addrs : List Text) (identity : Text) where
  abbrev state_of : ℕ → Db → Option State
  state_of id db = state_in (s.casing.to_lower identity) id db

  abbrev pub read_times : ℕ → Db → Option (Option ℕ)
  read_times id db = time_read_by (λ addr. contains (s.casing.sql_lower addr) addrs) id db

  -- The answer is the message of this id, as it was read, for one who may read it.
  pub record IsShown (id : ℕ) (db : Db) (a : Answer) : Type 0 where
    pub can : CanRead s addrs identity id db
    pub msg : Message
    pub path : Text
    pub read : IsRead id db msg path
    pub out : Message
    pub answered : a ≡ answer 200 (message_body out)
    pub same :
        (out ≡ marked s (state_of id db) msg path)
        ⊎ (out
            ≡ read_for
                (is_recipient s.casing addrs msg.from)
                (read_times id db)
                (marked s (state_of id db) msg path))

  shown_as :
      (id : ℕ) (b : Bool) (msg : Message) (v : World)
      → (out : Message) × ((shown s addrs id b msg v).0 ≡ answer 200 (message_body out))
        × ((out ≡ msg) ⊎ (out ≡ read_for b (read_times id v.db) msg))
  shown_as id true msg v = (msg, refl, inl refl)
  shown_as id false msg v = by_case (fails v) (read_times id v.db)
    where
      by_case :
          (broken : Bool) (o : Option (Option ℕ))
          → (out : Message) × ((with_read_state s addrs msg
                (if broken then none else o, after_statement v)).0
              ≡ answer 200 (message_body out))
            × ((out ≡ msg) ⊎ (out ≡ read_for false o msg))
      by_case true o = (msg, refl, inl refl)
      by_case false none = (msg, refl, inl refl)
      by_case false (some t) = (record msg { time_read = t; read = is_some t }, refl, inr refl)

  found-IsShown :
      (id : ℕ) (msg : Message) (path : Text) (w : World)
      → IsRead id w.db msg path
      → Succeeds (get_found s addrs identity id (some (msg, path)) w)
      → IsShown id w.db (get_found s addrs identity id (some (msg, path)) w).0
  found-IsShown id msg path w r k =
      let sender = is_recipient s.casing addrs msg.from in
      let (hd, r1, k1) =
        guard-passed (draft_hidden s.casing addrs msg.from msg.time) not_found w _ (omega arith)
          k in
      let (ns, r2, k2) =
        guard-passed (not (may_see s addrs msg)) access_denied w
          (or_answer (trash_state_q s.host identity id) retrieve_failed
            (unless_gone s addrs id sender msg path) w)
          (omega arith) k1 in
      let (state, v, e, r3, k3) =
        or_answer-passed (query (state_of id)) retrieve_failed
          (unless_gone s addrs id sender msg path) w (omega arith) k2 in
      let (es, ev) = query-some (state_of id) w e in
      let (p, r4, _) =
        guard-passed (is_purged state) not_found v
          (shown s addrs id sender (marked s state msg path) v) (omega arith) k3 in
      let (out, ea, c) = shown_as id sender (marked s state msg path) v in
      record {
        can = record {
          row = r.row;
          found = r.found;
          no_draft = rw r.shape at hd;
          takes_part = seen-participant s addrs identity id w.db msg path r (ground (arith, ns));
          kept = ap is_purged (sym es) ∙ p;
        };
        msg = msg;
        path = path;
        read = r;
        out = out;
        answered = ap (λ (q : Answer × World). q.0) (r1 ∙ r2 ∙ r3 ∙ r4) ∙ ea;
        same =
            subst
              (λ t.
                (out ≡ marked s t msg path)
                ⊎ (out ≡ read_for sender (read_times id w.db) (marked s t msg path)))
              es
              (subst
                (λ (d : Db).
                  (out ≡ marked s state msg path)
                  ⊎ (out ≡ read_for sender (read_times id d) (marked s state msg path)))
                ev c);
      }

  get_by_id-IsShown :
      (id : ℕ) (w : World)
      → Succeeds (get_by_id s addrs identity id w)
      → IsShown id w.db (get_by_id s addrs identity id w).0
  unfolding get_by_id
  get_by_id-IsShown id w k =
      let (o, v, e, r, k1) =
        or_answer-passed (fetch_message id) retrieve_failed (get_found s addrs identity id) w
          (omega arith) k in
      let (f, ev) = fetch_message-IsFetched id w e in
      subst (λ (q : Answer × World). IsShown id w.db q.0) (sym r) (at_row o v w.db ev f k1)
    where
      at_row :
          (o : Option (Message × Text)) (v : World) (db : Db)
          → v.db ≡ db
          → IsFetched id db o
          → Succeeds (get_found s addrs identity id o v)
          → IsShown id db (get_found s addrs identity id o v).0
      at_row o v db ev (missing e eo) k = absurd (omega (arith, (rw eo at k).below))
      at_row o v db ev (fetched_row msg path eo r) k =
          subst (λ x. IsShown id db (get_found s addrs identity id x v).0) (sym eo)
            (subst (λ (d : Db). IsShown id d (get_found s addrs identity id (some (msg, path)) v).0)
              ev
              (found-IsShown id msg path v (subst (λ (d : Db). IsRead id d msg path) (sym ev) r)
                (subst (λ x. Succeeds (get_found s addrs identity id x v)) eo k)))

  -- What is shown of a row when every statement succeeds.
  abbrev pub seen : ℕ → Db → Msg → Message
  seen id db row =
      read_for (is_recipient s.casing addrs row.from) (read_times id db)
        (marked s (state_of id db) (whole db row) row.filepath)

module _ (s : Site) (caller : Text) where
  abbrev pub IsShownTo : ℕ → Db → Answer → Type 0
  IsShownTo = IsShown s (visible_addrs s caller) (s.casing.to_lower caller)

  -- An answer of `Get` with success is the message that the parameter names, by number or by hash,
  -- with its fields from the tables, the caller's mark in the trash and read state, and the shown
  -- text (recipients, batches, attachments and the read state may be missing where their query
  -- failed). And only who may read that message gets it, whichever statements fail: it is not
  -- another address's draft, the caller sent it or is one of its recipients, and has not deleted it
  -- for good.
  pub get_message-IsShown :
      (param : IdParam) (w : World)
      → Succeeds (get_message s caller param w)
      → (id : ℕ) × (named_id param w.db ≡ some id)
        × IsShownTo id w.db (get_message s caller param w).0
  unfolding get_message
  get_message-IsShown param w k =
      let addrs = visible_addrs s caller in
      let identity = s.casing.to_lower caller in
      let (id, v, n, e, r, k1) = resolve_id-passed param (get_by_id s addrs identity) w k in
      (
        id,
        n,
        subst (λ (q : Answer × World). IsShownTo id w.db q.0) (sym r)
            (subst (λ (d : Db). IsShownTo id d (get_by_id s addrs identity id v).0) e
              (get_by_id-IsShown s addrs identity id v k1)),
      )
