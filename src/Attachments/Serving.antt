-- ===== src/Attachments/Serving.antt =====
-- Which file `Download` serves, and to whom: internal/handlers/attachments.go.
use fmsg_webapi.Prelude.{
  ℕ, ◌≡◌, refl, sym, ap, ◌∙◌, subst, Bool, true, false, not, ◌||◌, Option, none, some, [], ◌∷◌,
  arith, if◌then◌else◌, ◌==◌, nat_eq, Text, text_eq,
}
use fmsg_webapi.Request.Frames.{query-some}
use fmsg_webapi.Messages.BatchChecks.{purged_for-db}
use fmsg_webapi.Request.{resolve_id, defaulted, by_id}
use fmsg_webapi.Request.Success.{Succeeds, or_answer-passed, guard-passed}
use fmsg_webapi.Attachments.Files.{
  download, stored_path, participant_count, served_path, served_file, if_counted, attachment_found,
  file_unless_gone, attachment_failed, is_path,
}
use fmsg_webapi.Attachments.{
  AttachmentSite, World, Msg, Db, query, msg_by, Answer, draft_hidden, has_prefix, answer,
  file_body, purged_for, or_default, access_denied, not_found, is_no_name, invalid_filename,
  or_answer, retrieve_failed,
}

-- A file is served: it belongs to a message that the caller sent or received, which is not another
-- address's draft, and its cleaned path lies below the data directory.
pub record IsServed (st : AttachmentSite) (identity : Text) (id : ℕ) (name : Text) (db : Db)
    (a : Answer) : Type 0 where
  pub row : Msg
  pub found : msg_by id db.msgs ≡ some row
  pub no_draft : draft_hidden st.casing (identity ∷ []) row.from row.time_sent ≡ false
  pub takes_part :
      ((row.from == identity) || not (participant_count st identity id name db == 0)) ≡ true
  pub path : Text
  pub stored : stored_path id name db ≡ some path
  pub inside : has_prefix (st.clean path) st.data_prefix ≡ true
  pub served : a ≡ answer 200 (file_body (st.clean path))

module _ (st : AttachmentSite) (identity : Text) (id : ℕ) (name : Text) where
  record IsSent (db : Db) (a : Answer) : Type 0 where
    path : Text
    stored : stored_path id name db ≡ some path
    inside : has_prefix (st.clean path) st.data_prefix ≡ true
    served : a ≡ answer 200 (file_body (st.clean path))

  path-IsSent :
      (o : Option Text) (v : World) (db : Db)
      → stored_path id name db ≡ o
      → Succeeds (served_path st identity id name o v)
      → IsSent db (served_path st identity id name o v).0
  path-IsSent none v db e k = absurd (omega (arith, k.below))
  path-IsSent (some path) v db e k =
      inside-IsSent (has_prefix (st.clean path) st.data_prefix) refl k
    where
      inside-IsSent :
          (b : Bool)
          → has_prefix (st.clean path) st.data_prefix ≡ b
          → Succeeds (if not b then access_denied else answer 200 (file_body (st.clean path)), v)
          → IsSent db (if not b then access_denied else answer 200 (file_body (st.clean path)))
      inside-IsSent true eb k = record { path = path; stored = e; inside = eb; served = refl }
      inside-IsSent false eb k = absurd (omega (arith, k.below))

  file-IsSent :
      (w : World)
      → Succeeds (served_file st identity id name w)
      → IsSent w.db (served_file st identity id name w).0
  file-IsSent w k =
      let (o, v, e, r, k1) =
        or_answer-passed (query (stored_path id name)) attachment_failed
          (served_path st identity id name) w (omega arith) k in
      let (eo, ev) = query-some (stored_path id name) w e in
      subst (IsSent w.db) (ap (λ (p : Answer × World). p.0) (sym r))
        (path-IsSent o v w.db (sym eo) k1)

  count-IsSent :
      (p : Option ℕ × World) (w : World)
      → query (participant_count st identity id name) w ≡ p
      → Succeeds (if_counted st identity id name (defaulted 0 p))
      → ((participant_count st identity id name w.db == 0) ≡ false)
        × IsSent w.db (if_counted st identity id name (defaulted 0 p)).0
  count-IsSent (none, v) w e k = absurd (omega (arith, k.below))
  count-IsSent (some n, v) w e k =
      let (b, r, k1) =
        guard-passed (n == 0) access_denied v (served_file st identity id name v) (omega arith) k in
      let (en, ev) = query-some (participant_count st identity id name) w e in
      (
        ap (λ (c : ℕ). c == 0) (sym en) ∙ b,
        subst (IsSent w.db) (ap (λ (p : Answer × World). p.0) (sym r)) (
            subst (λ (db : Db). IsSent db (served_file st identity id name v).0) ev
              (file-IsSent v k1)),
      )

  taking_part-IsSent :
      (from : Text) (w : World)
      → Succeeds (
          if not (from == identity)
          then if_counted st identity id name
              (or_default (query (participant_count st identity id name)) 0 w)
          else served_file st identity id name w)
      → (((from == identity) || not (participant_count st identity id name w.db == 0)) ≡ true)
        × IsSent w.db
            (if not (from == identity)
              then if_counted st identity id name
                  (or_default (query (participant_count st identity id name)) 0 w)
              else served_file st identity id name w).0
  taking_part-IsSent from w = by_case (from == identity)
    where
      by_case :
          (b : Bool)
          → Succeeds (
              if not b
              then if_counted st identity id name
                  (or_default (query (participant_count st identity id name)) 0 w)
              else served_file st identity id name w)
          → ((b || not (participant_count st identity id name w.db == 0)) ≡ true)
            × IsSent w.db
                (if not b
                  then if_counted st identity id name
                      (or_default (query (participant_count st identity id name)) 0 w)
                  else served_file st identity id name w).0
      by_case true k = (refl, file-IsSent w k)
      by_case false k =
          let (c, d) = count-IsSent (query (participant_count st identity id name) w) w refl k in
          (ap not c, d)

  gone-IsServed :
      (m : Msg) (p : Bool × World) (db : Db)
      → p.1.db ≡ db
      → msg_by id db.msgs ≡ some m
      → draft_hidden st.casing (identity ∷ []) m.from m.time_sent ≡ false
      → Succeeds (file_unless_gone st identity id name m p)
      → IsServed st identity id name db (file_unless_gone st identity id name m p).0
  gone-IsServed m (true, v) db e f h k = absurd (omega (arith, k.below))
  gone-IsServed m (false, v) db e f h k =
      let (t, d) = taking_part-IsSent m.from v k in
      record {
        row = m;
        found = f;
        no_draft = h;
        takes_part =
            subst
              (λ (db : Db).
                ((m.from == identity) || not (participant_count st identity id name db == 0))
                ≡ true)
              e t;
        path = d.path;
        stored = subst (λ (db : Db). stored_path id name db ≡ some d.path) e d.stored;
        inside = d.inside;
        served = d.served;
      }

  found-IsServed :
      (o : Option Msg) (w : World) (db : Db)
      → w.db ≡ db
      → msg_by id db.msgs ≡ o
      → Succeeds (attachment_found st identity id name o w)
      → IsServed st identity id name db (attachment_found st identity id name o w).0
  found-IsServed none w db e f k = absurd (omega (arith, k.below))
  found-IsServed (some m) w db e f k =
      let gone = file_unless_gone st identity id name m (purged_for st.host identity id w) in
      let (b, r, k1) =
        guard-passed (draft_hidden st.casing (identity ∷ []) m.from m.time_sent) not_found w gone
          (omega arith) k in
      subst (IsServed st identity id name db) (ap (λ (p : Answer × World). p.0) (sym r)) (
        gone-IsServed m (purged_for st.host identity id w) db
          (purged_for-db st.site identity id w ∙ e) f b k1)

-- `Download` serves a file only when it is an attachment, under the last part of the name asked
-- for, of a message that is stored and is not another address's draft, when the caller sent that
-- message or is one of its recipients, and when the cleaned path lies below the data directory;
-- and then it is the file at that path.
pub download-IsServed :
    (st : AttachmentSite) (caller filename : Text) (id : ℕ) (w : World)
    → Succeeds (download st caller filename (by_id id) w)
    → IsServed st caller id (st.base filename) w.db (download st caller filename (by_id id) w).0
unfolding download resolve_id
download-IsServed st caller filename id w k =
    let name = st.base filename in
    let next = attachment_found st caller id name in
    let (b, r, k1) =
      guard-passed (is_no_name name || is_path name) invalid_filename w
        (or_answer (query λ db. msg_by id db.msgs) retrieve_failed next w) (omega arith) k in
    let (o, v, e, r', k2) =
      or_answer-passed (query λ db. msg_by id db.msgs) retrieve_failed next w (omega arith) k1 in
    let (eo, ev) = query-some (λ db. msg_by id db.msgs) w e in
    subst (IsServed st caller id name w.db) (ap (λ (p : Answer × World). p.0) (sym (r ∙ r')))
      (found-IsServed st caller id name o v w.db ev (sym eo) k2)
