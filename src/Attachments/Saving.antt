-- ===== src/Attachments/Saving.antt =====
-- The row that an upload writes: internal/handlers/attachments.go.
use fmsg_webapi.Prelude.{
  ℕ, zero, suc, ◌+◌, ◌≤◌, ◌≡◌, refl, ap, subst, inl, inr, Bool, false, not, Option, none, some,
  List, [], ◌∷◌, map, arith, Bool-cases, some-eq, find, keep, ◌==◌, nat_eq, Text, text_eq, beq_self,
  Bool-cases,
}
use fmsg_webapi.Trash.Storage.{total}
use fmsg_webapi.Messages.Quoted.{stored_size}
use fmsg_webapi.Attachments.{
  put_attachment, free_candidate, Msg, AttachmentSite, is_file, msg_by, attachment_row, candidate,
  save_attachment,
}
use fmsg_webapi.Db.{Db, Attachment}

abbrev sizes : List Attachment → ℕ
sizes rows = total (map (λ (a : Attachment). a.filesize) rows)

abbrev of_msg : ℕ → Attachment → Bool
of_msg id a = a.msg_id == id

-- A file that is put counts at most its size more.
put_attachment-le :
    (id : ℕ) (name : Text) (bytes : ℕ) (path : Text) (rows : List Attachment)
    → sizes (keep (of_msg id) (put_attachment id name bytes path rows))
      ≤ sizes (keep (of_msg id) rows) + bytes
unfolding put_attachment
put_attachment-le id name bytes path [] = rw (beq_self id) (omega arith)
put_attachment-le id name bytes path (a ∷ rows) =
    ground (arith, put_attachment-le id name bytes path rows)

pub save_attachment-le :
    (id : ℕ) (name : Text) (bytes : ℕ) (path : Text) (db : Db) (o : Option Msg) {current : ℕ}
    → msg_by id db.msgs ≡ o
    → stored_size id db ≡ some current
    → (n : ℕ) × (stored_size id (save_attachment id name bytes path db) ≡ some n)
      × (n ≤ current + bytes)
save_attachment-le id name bytes path db none e h = cc (rw (e, stored_size) at h)
save_attachment-le id name bytes path db (some m) e h =
    let same = some-eq (rw (e, stored_size) at h) in
    (
      m.size + sizes (keep (of_msg id) (put_attachment id name bytes path db.attachments)),
      rw (e, stored_size) refl,
      omega (arith, same, put_attachment-le id name bytes path db.attachments),
    )

pub put_attachment-find :
    (id : ℕ) (name : Text) (bytes : ℕ) (path : Text) (rows : List Attachment)
    → (a : Attachment) × (find (is_file id name) (put_attachment id name bytes path rows) ≡ some a)
      × (a.filesize ≡ bytes)
      × (a.filepath ≡ path)
unfolding put_attachment
put_attachment-find id name bytes path [] =
    (attachment_row id name bytes path, rw (beq_self id, beq_self name) refl, refl, refl)
put_attachment-find id name bytes path (a ∷ rows) = elim (Bool-cases (is_file id name a)) [
  | inl e ↦ rw e (record a { filesize = bytes; filepath = path }, rw e refl, refl, refl)
  | inr e ↦ let (b, f, n, p) = put_attachment-find id name bytes path rows in (b, rw (e, e) f, n, p)
]

-- The files that a file of this name leaves alone.
abbrev pub other_files : ℕ → Text → Db → List Attachment
other_files id name db = keep (λ a. not (is_file id name a)) db.attachments

pub put_attachment-others :
    (id : ℕ) (name : Text) (bytes : ℕ) (path : Text) (rows : List Attachment)
    → keep (λ a. not (is_file id name a)) (put_attachment id name bytes path rows)
      ≡ keep (λ a. not (is_file id name a)) rows
unfolding put_attachment
put_attachment-others id name bytes path [] = rw (beq_self id, beq_self name) refl
put_attachment-others id name bytes path (a ∷ rows) = elim (Bool-cases (is_file id name a)) [
  | inl e ↦ rw (e, e) refl
  | inr e ↦ rw (e, e) (ap (λ r. a ∷ r) (put_attachment-others id name bytes path rows))
]

pub free_candidate-free :
    (st : AttachmentSite) (dir name : Text) (fuel i : ℕ) (path : Text)
    → free_candidate st fuel dir name i ≡ some path
    → st.exists path ≡ false
unfolding free_candidate
free_candidate-free st dir name zero i path h = cc h
free_candidate-free st dir name (suc fuel) i path h =
    elim (Bool-cases (st.exists (candidate st dir name i))) [
      | inl e ↦ free_candidate-free st dir name fuel (suc i) path (rw e at h)
      | inr e ↦ subst (λ p. st.exists p ≡ false) (some-eq (rw e at h)) e
    ]
