-- ===== src/Lib.antt =====
-- fmsg-webapi is an HTTP and WebSocket service over the message store of an fmsg host. A request
-- passes the authentication middleware, which says who the caller is and which address it speaks for;
-- a handler then reads and writes the database, and may ask the identity service fmsgid about an
-- address or record usage there.
--
-- The files and what they model:
--   Auth        internal/middleware/jwt.go, internal/middleware/oauth.go, and requireIdPOwner of
--               internal/handlers/subaccounts.go: Config (NewVerifier), Scopes (claims of delegated
--               tokens and the route table), Verify (AuthenticateRequest and all below it), Gate (the
--               middleware as a function from a request to an outcome). Routes, Delegation, Sessions,
--               Owner and Setup hold the proofs, Audience and Ends the lemmas that they share.
--   Grants      internal/apiauth: Keys (apikey.go, subaccount.go) and Store (store.go), a table of
--               rows with the unique indexes and checks of dd.sql. Invariant and Revocation hold the
--               proofs.
--   Quota       internal/handlers/quota.go on the numbers that fmsgid reports; its int64 sums wrap.
--   Emoji       internal/emoji/emoji.go, with UTF-8 decoding (Utf8) and the grammar (Grammar).
--   Address     the address tests of internal/handlers/messages.go and IsValidAddr.
--   Db          the tables of the message store and fmsg_api_trash of dd.sql, the recursive queries
--               (Lineage) and the statements (Queries) of internal/handlers/trash.go.
--   Request     internal/handlers/transaction.go and resolveID: a handler is a function on a world, the
--               tables with what is to happen at the end of its transaction. Frames and Success hold
--               the rules for steps, Atomicity the proof.
--   Models      internal/models/models.go.
--   Messages    internal/handlers/messages.go, with resolveParent of references.go (Parents): loading a
--               message (Messages), reading it (Access, MarkRead), drafts (Drafts, Editing), sending
--               (Replies, Sending), adding recipients (Adding), the delivery on this host after the
--               commit (Delivery), and the bounds of lists and shown texts (Bounds). Showing, Rereading,
--               Immutable, Quoted, SendGate, ParentChecks, FullBatch, Blocking, Receipts and
--               ReceiptSizes hold the proofs, Loading, Reading, Batches, BatchChecks and ParentFrames
--               their lemmas.
--   Attachments internal/handlers/attachments.go: the upload (Attachments), Download and DeleteAttachment
--               (Files). Names, Serving, Deleting and Sizes (with Saving) hold the proofs.
--   Trash       internal/handlers/trash.go: Storage (usageOf), Removal (removeIfUnheld), Purge and
--               Handlers. Permanence, Unheld and Marks hold the proofs (Marking the lemmas of one mark).
--   Reactions   internal/handlers/reactions.go without the handler; Latest, Groups and Recipients hold
--               proofs.
--   Hub         internal/handlers/hub.go: the registry and the routing; Registry and Privacy hold the
--               proofs.
--   Strings     the functions of Go's package strings that these use, on bytes.
--   Tests       runs on concrete data.
--
-- Parsed tokens, fmsgid's answers, the key checker of the verifier, hashing, IP addresses and prefixes,
-- Unicode case and the generated emoji tables are arguments: records of functions. A request sees one
-- answer of fmsgid for an address while it is authenticated. Texts are lists of bytes. Numbers are
-- natural numbers where the code's are never negative, and integers with the wrap of int64 elsewhere.
--
-- Bounds and fuel: the recursive queries stop after 1000 steps, as in the source. The loop of
-- IsPossible runs on fuel of the number of runes; each pass consumes a rune, and the equivalence with
-- the grammar shows that this is enough. The search for a free file name has no bound in the source;
-- here it runs on fuel that is an argument, and more than the number of files and one is enough, since
-- the candidates differ from each other.
--
-- Not modelled: the transport (Gin, WebSocket, Web Push), start-up, logging, the command line, the
-- lists of messages, threads, the reactions in an answer of Get, and the generated tables
-- themselves. Files, the media types of the package mime, and the finalizing of messages by fmsgd are
-- arguments of the handlers (Site).
pub mod Prelude
pub mod Strings
pub mod Address
pub mod Models
pub mod Auth
pub mod Grants
pub mod Db
pub mod Quota
pub mod Request
pub mod Trash
pub mod Messages
pub mod Attachments
pub mod Reactions
pub mod Hub
pub mod Emoji
pub mod Tests
