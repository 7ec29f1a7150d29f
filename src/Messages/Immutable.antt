-- ===== src/Messages/Immutable.antt =====
-- A sent message does not change: `Update` of internal/handlers/messages.go.
use fmsg_webapi.Prelude.{
  ℕ, ◌+◌, ◌≡◌, refl, sym, ap, ◌∙◌, subst, ◌≢◌, inl, inr, Bool, true, false, not, ◌&&◌, Option, none,
  some, List, [], ◌∷◌, arith, ltb, if◌then◌else◌, Bool-cases, some-eq, length, any, ◌==◌, nat_eq,
  Text, codes, text_eq, Bool-cases,
}
use fmsg_webapi.Messages.ParentFrames.{validate_parent-Keeps, resolve_parent-Keeps}
use fmsg_webapi.Messages.Access.{retrieve_failed}
use fmsg_webapi.Messages.Loading.{
  IsRead, fetch_message-IsFetched, missing, fetched_row, fetch_message-db,
}
use fmsg_webapi.Address.{same_addr}
use fmsg_webapi.Db.Queries.{always, delete_recipients}
use fmsg_webapi.Request.Frames.{Keeps, or_answer-Keeps, write-Keeps, guard-Keeps, query-Keeps}
use fmsg_webapi.Messages.Editing.{
  edited, write_edit, edit_msg, replace_recipients, recipients_failed, edit_size, checked_edit,
  sized_edit, edit_from, remove_later, attachment_total, edit_input, update_found, update_by_id,
}
use fmsg_webapi.Messages.Delivery.{update_rows}
use fmsg_webapi.Messages.Parents.{Parent, has_topic_conflict}
use fmsg_webapi.Request.{Answer, Handler, exec, refusal, proceed, or_answer}
use fmsg_webapi.Messages.{Site, World, query, Message, fetch_message}
use fmsg_webapi.Db.{Msg, Db, msg_by, Recipient, is_some}
use fmsg_webapi.Messages.Drafts.{
  MessageInput, insert_recipients, insert_recipient, created_file, save_message_data, mime_to_ext,
  has_bad_address,
}

-- The message with this id is this one.
abbrev pub IsRow : ℕ → Msg → Db → Type 0
IsRow id row db = msg_by id db.msgs ≡ some row

msg_by-edit :
    (id other : ℕ) (i : MessageInput) (parent : Option Parent) (path : Text) (ms : List Msg)
    → id ≢ other
    → msg_by id (update_rows (λ (m : Msg). m.id == other) (edited i parent path) ms) ≡ msg_by id ms
msg_by-edit id other i parent path [] ne = refl
msg_by-edit id other i parent path (m ∷ ms) ne =
    ground (arith, msg_by-edit id other i parent path ms ne)

insert_recipient-IsRow :
    (sent : ℕ) (row : Msg) (id : ℕ) (addr : Text) (db : Db)
    → IsRow sent row db
    → IsRow sent row (insert_recipient id addr db)
insert_recipient-IsRow sent row id addr db p =
    elim (Bool-cases (any (λ (r : Recipient). r.msg_id == id && r.addr == addr) db.recipients)) [
      | inl e ↦ rw e p
      | inr e ↦ rw e p
    ]

remove_later-db : (path : Text) (w : World) → (remove_later path w).db ≡ w.db
remove_later-db [] w = refl
remove_later-db (c ∷ path) w = refl

module _ (s : Site) (caller : Text) (sent : ℕ) (row : Msg) where
  insert_recipients-Keeps :
      (id : ℕ) (to : List Text) (a : Answer) (next : Handler)
      → Keeps (IsRow sent row) next
      → Keeps (IsRow sent row) (insert_recipients id to a next)
  unfolding insert_recipients
  insert_recipients-Keeps id [] a next k = record { run = k.run }
  insert_recipients-Keeps id (addr ∷ to) a next k = record {
    run =
        (or_answer-Keeps (IsRow sent row) (exec (always (insert_recipient id addr))) a _
          (write-Keeps (IsRow sent row) (insert_recipient id addr)
            λ db p. insert_recipient-IsRow sent row id addr db p)
          λ _. insert_recipients-Keeps id to a next k).run;
  }

  edited-Keeps :
      (id : ℕ) (path : Text) (i : MessageInput) (parent : Option Parent) (o : Option Text)
      → sent ≢ id
      → Keeps (IsRow sent row) (write_edit s caller id path i parent o)
  edited-Keeps id path i parent none ne = record { run = λ w p. p }
  edited-Keeps id path i parent (some new_path) ne = record {
    run = λ w p.
        (or_answer-Keeps (IsRow sent row) (exec (always (edit_msg id i parent new_path)))
            (refusal 500 (codes "failed to update message"))
            (λ _. replace_recipients s caller id path i)
            (write-Keeps (IsRow sent row) (edit_msg id i parent new_path)
              λ db q. msg_by-edit sent id i parent new_path db.msgs ne ∙ q)
            λ _.
              or_answer-Keeps (IsRow sent row) (exec (always (delete_recipients id)))
                recipients_failed _ (write-Keeps (IsRow sent row) (delete_recipients id) λ db q. q)
                λ _. insert_recipients-Keeps id i.to recipients_failed _ (record {
                  run = λ v q. subst (IsRow sent row) (sym (remove_later-db path v)) q;
                })).run
          (created_file new_path w) p;
  }

  module _ (id : ℕ) (ne : sent ≢ id) (path : Text) (i : MessageInput) where
    sized-Keeps :
        (parent : Option Parent) (n : ℕ)
        → Keeps (IsRow sent row) (sized_edit s caller id path i parent n)
    sized-Keeps parent n = record {
      run =
          (guard-Keeps (IsRow sent row) (ltb s.max_msg_size (length i.contents + n)) _ _ (
            edited-Keeps id path i parent
              (save_message_data s i.from id (mime_to_ext s i.type) i.contents) ne)).run;
    }

    edit_size-Keeps :
        (parent : Option Parent) → Keeps (IsRow sent row) (edit_size s caller id path i parent)
    edit_size-Keeps parent = record {
      run =
          (guard-Keeps (IsRow sent row) (ltb s.max_data_size (length i.contents)) _ _ (
            or_answer-Keeps (IsRow sent row) (query (attachment_total id)) _ _
              (query-Keeps (IsRow sent row) (attachment_total id)) (sized-Keeps parent))).run;
    }

    checked_edit-Keeps :
        (parent : Option Parent) → Keeps (IsRow sent row) (checked_edit s caller id path i parent)
    checked_edit-Keeps parent = record {
      run =
          (guard-Keeps (IsRow sent row) (has_topic_conflict parent i.topic) _ _
            (validate_parent-Keeps (IsRow sent row) parent _ (edit_size-Keeps parent))).run;
    }

    edit_from-Keeps : Keeps (IsRow sent row) (edit_from s caller id path i)
    edit_from-Keeps = record {
      run =
          (guard-Keeps (IsRow sent row) (not (same_addr s.casing i.from caller)) _ _ (record {
            run =
                (guard-Keeps (IsRow sent row) (has_bad_address i.from i.to) _ _ (
                  resolve_parent-Keeps (IsRow sent row) s caller (checked_edit s caller id path i)
                    checked_edit-Keeps i.parent)).run;
          })).run;
    }

  edit_input-Keeps :
      (id : ℕ)
      → sent ≢ id
      → (path : Text) (input : Option MessageInput)
      → Keeps (IsRow sent row) (edit_input s caller id path input)
  edit_input-Keeps id ne path none = record { run = λ w p. p }
  edit_input-Keeps id ne path (some i) = record { run = (edit_from-Keeps id ne path i).run }

  kept_if :
      (b : Bool) (a : Answer) (w : World) (r : Answer × World)
      → IsRow sent row w.db
      → (b ≡ false → IsRow sent row r.1.db)
      → IsRow sent row (if b then (a, w) else r).1.db
  kept_if true a w r p k = p
  kept_if false a w r p k = k refl

  -- A message that is found is the draft that changes, so not the sent one.
  found-IsRow :
      (id : ℕ) (input : Option MessageInput) (m : Message) (path : Text) (w : World)
      → is_some row.time_sent ≡ true
      → IsRead id w.db m path
      → IsRow sent row w.db
      → IsRow sent row (update_found s caller id input (some (m, path)) w).1.db
  found-IsRow id input m path w h r p =
      kept_if (not (same_addr s.casing m.from caller)) _ w _ p λ _.
        kept_if (is_some m.time) _ w _ p
          λ unsent. (edit_input-Keeps id (λ e. other e unsent) path input).run w p
    where
      other : sent ≡ id → is_some m.time ≡ false → ⊥
      other e unsent =
          let same : row ≡ r.row = some-eq (sym p ∙ ap (λ i. msg_by i w.db.msgs) e ∙ r.found) in
          let late = rw r.shape at unsent in
          cc (sym h ∙ ap (λ (x : Msg). is_some x.time_sent) same ∙ late)

  update_result-IsRow :
      (id : ℕ) (input : Option MessageInput) (w : World)
      (r : Option (Option (Message × Text)) × World)
      → is_some row.time_sent ≡ true
      → fetch_message id w ≡ r
      → (r.1.db ≡ w.db)
      → IsRow sent row w.db
      → IsRow sent row (proceed retrieve_failed (update_found s caller id input) r).1.db
  update_result-IsRow id input w (none, v) h e ev p = subst (IsRow sent row) (sym ev) p
  update_result-IsRow id input w (some none, v) h e ev p = subst (IsRow sent row) (sym ev) p
  update_result-IsRow id input w (some (some (m, path)), v) h e ev p =
      elim (fetch_message-IsFetched id w e).0 [
        | missing e' eo ↦ cc eo
        | fetched_row m' path' eo r' ↦
            let q = some-eq eo in
            found-IsRow id input m path v h
              (subst (λ (d : Db). IsRead id d m path) (sym ev)
                (subst (λ (x : Message × Text). IsRead id w.db x.0 x.1) (sym q) r'))
              (subst (IsRow sent row) (sym ev) p)
      ]

  -- An update changes no sent message: the row of one is the same after the request, whichever
  -- message the request names, whatever it asks for, and whichever statements fail.
  pub update_by_id-IsRow :
      (id : ℕ) (input : Option MessageInput) (w : World)
      → is_some row.time_sent ≡ true
      → IsRow sent row w.db
      → IsRow sent row (update_by_id s caller id input w).1.db
  unfolding or_answer
  update_by_id-IsRow id input w h p =
      update_result-IsRow id input w (fetch_message id w) h refl (fetch_message-db id w) p
