-- ===== src/Messages/FullBatch.antt =====
-- The recipients that a batch adds: `AddRecipients` of
-- internal/handlers/messages.go.
use fmsg_webapi.Prelude.{ℕ, ◌≡◌, Option, some, List, Text}
use fmsg_webapi.Messages.Batches.{insert_added-entries, Entry, entries, insert_added-entries}
use fmsg_webapi.Request.{Answer}
use fmsg_webapi.Messages.{Site, Db, World}

module _ (s : Site) (identity : Text) (id batch now : ℕ) (add_to : List Text) where
  -- The rows of msg_add_to are these.
  IsAdded : List Entry → Answer × World → Type 0
  IsAdded es r = entries r.1.db ≡ es

  -- Finalizing a batch changes no recipient.
  abbrev pub KeepsAdded : Type 0
  KeepsAdded =
      (db db' : Db) (hash : Option Text)
      → s.finalize_batch id batch db ≡ some (hash, db')
      → db'.added ≡ db.added
