-- ===== src/Messages/Loading.antt =====
-- What `fetchMessage` of internal/handlers/messages.go gives: a message as the tables have it, but
-- for parts whose query failed, which are empty.
use fmsg_webapi.Prelude.{
  ℕ, ◌≡◌, refl, sym, ap, ◌∙◌, subst, ◌⊎◌, inl, inr, Bool, true, false, Option, none, some, List, [],
  if◌then◌else◌, some-eq, Text,
}
use fmsg_webapi.Request.Success.{IsClean, after-IsClean, query-IsClean, or_default-IsClean}
use fmsg_webapi.Request.Frames.{bind-some, query-some}
use fmsg_webapi.Messages.{
  fetch_message, Message, or_default, query, with_path, with_parts, AddToBatch, recipient_rows,
  load_recipients, AttachmentInfo, message_of, batches_of, load_add_to_batches, attachment_infos,
  load_attachments,
}
use fmsg_webapi.Request.{◌>>=◌, World, defaulted, after_statement, fails, chain}
use fmsg_webapi.Db.{Msg, Db, msg_by, Recipient}

defaulted-cases {ℓ} :
    {A : Type ℓ} (a x : A) (w : World) (broken : Bool)
    → let r = defaulted a (if broken then none else some x, w) in
      ((r.0 ≡ a) ⊎ (r.0 ≡ x)) × (r.1 ≡ w)
defaulted-cases a x w true = (inl refl, refl)
defaulted-cases a x w false = (inr refl, refl)

-- A list that is read or, after an error, empty.
pub or_default-cases {ℓ} :
    {A : Type ℓ} (f : Db → A) (a : A) (w : World)
    → let r = or_default (query f) a w in ((r.0 ≡ a) ⊎ (r.0 ≡ f w.db)) × (r.1.db ≡ w.db)
or_default-cases f a w =
    let (c, e) = defaulted-cases a (f w.db) (after_statement w) (fails w) in (c, ap (λ v. v.db) e)

-- A message with parts of what the tables have.
pub record IsRead (id : ℕ) (db : Db) (msg : Message) (path : Text) : Type 0 where
  pub row : Msg
  pub found : msg_by id db.msgs ≡ some row
  pub recipients : List Recipient
  pub batches : List AddToBatch
  pub infos : List AttachmentInfo
  pub shape : msg ≡ message_of row recipients batches infos
  pub body_path : path ≡ row.filepath
  pub some_recipients : (recipients ≡ []) ⊎ (recipients ≡ recipient_rows row.id db)
  pub some_batches : (batches ≡ []) ⊎ (batches ≡ batches_of row.id db)
  pub some_infos : (infos ≡ []) ⊎ (infos ≡ attachment_infos row.id db)

pub data IsFetched (id : ℕ) (db : Db) (o : Option (Message × Text)) : Type 0 where
  missing : msg_by id db.msgs ≡ none → o ≡ none → IsFetched id db o
  fetched_row :
      (msg : Message) (path : Text)
      → o ≡ some (msg, path)
      → IsRead id db msg path
      → IsFetched id db o

with_parts-IsRead :
    (id : ℕ) (m : Msg) (w : World)
    → msg_by id w.db.msgs ≡ some m
    → IsRead id w.db (with_parts m w).0 m.filepath × ((with_parts m w).1.db ≡ w.db)
with_parts-IsRead id m w e =
    let (c, f) = or_default-cases (recipient_rows m.id) [] w in
    let rs = load_recipients m.id w in
    let (d, g) = or_default-cases (batches_of m.id) [] rs.1 in
    let bs = load_add_to_batches m.id rs.1 in
    let (h, k) = or_default-cases (attachment_infos m.id) [] bs.1 in
    (
      record {
        row = m;
        found = e;
        recipients = rs.0;
        batches = bs.0;
        infos = (load_attachments m.id bs.1).0;
        shape = refl;
        body_path = refl;
        some_recipients = c;
        some_batches = subst (λ (x : Db). (bs.0 ≡ []) ⊎ (bs.0 ≡ batches_of m.id x)) f d;
        some_infos =
            subst
              (λ (x : Db).
                ((load_attachments m.id bs.1).0 ≡ [])
                ⊎ ((load_attachments m.id bs.1).0 ≡ attachment_infos m.id x))
              (g ∙ f) h;
      },
      k ∙ g ∙ f,
    )

pub with_path-IsFetched :
    (id : ℕ) (m : Option Msg) (w : World) {o : Option (Message × Text)} {v : World}
    → msg_by id w.db.msgs ≡ m
    → with_path m w ≡ (some o, v)
    → IsFetched id w.db o × (v.db ≡ w.db)
with_path-IsFetched id none w e h =
    (missing e (sym (some-eq (ap (λ p. p.0) h))), ap (λ p. p.1.db) (sym h))
with_path-IsFetched id (some m) w e h =
    let (r, k) = with_parts-IsRead id m w e in
    (fetched_row _ _ (sym (some-eq (ap (λ p. p.0) h))) r, ap (λ p. p.1.db) (sym h) ∙ k)

pub fetch_message-IsFetched :
    (id : ℕ) (w : World) {o : Option (Message × Text)} {v : World}
    → fetch_message id w ≡ (some o, v)
    → IsFetched id w.db o × (v.db ≡ w.db)
unfolding fetch_message
fetch_message-IsFetched id w {o} h =
    let (m, u, e, n) = bind-some (query λ db. msg_by id db.msgs) with_path w h in
    let (em, eu) = query-some (λ db. msg_by id db.msgs) w e in
    let (r, k) = with_path-IsFetched id m u (rw (eu, em) refl) n in
    (subst (λ (d : Db). IsFetched id d o) eu r, k ∙ eu)

-- The message as the tables have it.
abbrev pub whole : Db → Msg → Message
whole db m = message_of m (recipient_rows m.id db) (batches_of m.id db) (attachment_infos m.id db)

pub fetch_message-IsClean :
    (id : ℕ) (m : Msg) (w : World)
    → IsClean w
    → msg_by id w.db.msgs ≡ some m
    → (v : World) × IsClean v
      × (v.db ≡ w.db)
      × (fetch_message id w ≡ (some (some (whole w.db m, m.filepath)), v))
unfolding fetch_message ◌>>=◌
fetch_message-IsClean id m w c e =
    let w1 = after_statement w in
    let w2 = after_statement w1 in
    let w3 = after_statement w2 in
    let c1 = after-IsClean w c in
    let c2 = after-IsClean w1 c1 in
    let c3 = after-IsClean w2 c2 in
    (
      after_statement w3,
      after-IsClean w3 c3,
      refl,
      rw
          (
            query-IsClean (λ db. msg_by id db.msgs) w c,
            e,
            or_default-IsClean (recipient_rows m.id) [] w1 c1,
            or_default-IsClean (batches_of m.id) [] w2 c2,
            or_default-IsClean (attachment_infos m.id) [] w3 c3,
          )
          refl,
    )

-- Loading a message puts off nothing to the commit.
with_path-effects : (m : Option Msg) (w : World) → (with_path m w).1.after_commit ≡ w.after_commit
with_path-effects none w = refl
with_path-effects (some m) w =
    let rs = load_recipients m.id w in
    let bs = load_add_to_batches m.id rs.1 in
    or_default-effects (attachment_infos m.id) [] bs.1
    ∙ or_default-effects (batches_of m.id) [] rs.1
    ∙ or_default-effects (recipient_rows m.id) [] w
  where
    or_default-effects :
        {A : Type 0} (f : Db → A) (a : A) (w : World)
        → (or_default (query f) a w).1.after_commit ≡ w.after_commit
    or_default-effects f a w =
        ap (λ (v : World). v.after_commit)
          (defaulted-cases a (f w.db) (after_statement w) (fails w)).1

pub fetch_message-effects :
    (id : ℕ) (w : World) → (fetch_message id w).1.after_commit ≡ w.after_commit
unfolding fetch_message ◌>>=◌
fetch_message-effects id w = by_case (fails w) (msg_by id w.db.msgs)
  where
    by_case :
        (broken : Bool) (m : Option Msg)
        → (chain with_path (if broken then none else some m, after_statement w)).1.after_commit
          ≡ w.after_commit
    by_case true m = refl
    by_case false m = with_path-effects m (after_statement w)

with_path-db : (m : Option Msg) (w : World) → (with_path m w).1.db ≡ w.db
with_path-db none w = refl
with_path-db (some m) w =
    let rs = load_recipients m.id w in
    let bs = load_add_to_batches m.id rs.1 in
    (or_default-cases (attachment_infos m.id) [] bs.1).1
    ∙ (or_default-cases (batches_of m.id) [] rs.1).1
    ∙ (or_default-cases (recipient_rows m.id) [] w).1

chained-db :
    (broken : Bool) (m : Option Msg) (w : World)
    → (chain with_path (if broken then none else some m, w)).1.db ≡ w.db
chained-db true m w = refl
chained-db false m w = with_path-db m w

-- Loading a message writes nothing.
pub fetch_message-db : (id : ℕ) (w : World) → (fetch_message id w).1.db ≡ w.db
unfolding fetch_message ◌>>=◌
fetch_message-db id w = chained-db (fails w) (msg_by id w.db.msgs) (after_statement w)
