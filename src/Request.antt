-- ===== src/Request.antt =====
-- A request's transaction: internal/handlers/transaction.go, and resolveID of references.go. A
-- handler runs on a world: the tables as its transaction sees them, and what is to happen when the
-- transaction ends. Any statement may fail; a failed one aborts the transaction, as in PostgreSQL,
-- so that every later one fails and it cannot commit. A handler without a transaction runs on the
-- pool, where nothing is aborted.
pub mod Atomicity
pub mod Frames
pub mod Success
use fmsg_webapi.Prelude.{
  ℕ, Bool, true, false, not, ◌&&◌, ◌||◌, Option, none, some, List, [], ◌∷◌, ltb, if◌then◌else◌,
  find, ◌==◌, nat_eq, Text, codes, text_eq,
}
use fmsg_webapi.Db.{Db, Msg}
use fmsg_webapi.Db.Lineage.{State}
use fmsg_webapi.Models.{Message}

-- The tables of recipients, msg_to and msg_add_to.
pub data Table : Type 0 where
  direct additional : Table

-- What is done outside the database's transaction; `clean_up` removes the files that finalizing a
-- message made, `deliver_locally` is `resolveLocalDelivery`.
pub data Effect : Type 0 where
  remove_file : Text → Effect
  release_usage : Bool → Text → ℕ → ℕ → Effect
  record_send : Text → ℕ → ℕ → Effect
  deliver_locally : Table → ℕ → List Text → Effect
  clean_up : ℕ → Effect

pub record World : Type 0 where
  pub db : Db
  pub in_tx : Bool
  pub faults : List Bool
  pub aborted : Bool
  pub notes : List (ℕ × Text)
  pub reads : List (ℕ × Text)
  pub on_rollback : List Effect
  pub after_commit : List Effect

-- `notes` are the notifications on the channel of the trash, `reads` those on the channel msg_read.
-- A fault per statement that fails; none is left when all the rest succeed.
abbrev pub fails : World → Bool
fails w = w.aborted || elim w.faults [ [] ↦ false | b ∷ _ ↦ b ]

abbrev pub later : List Bool → List Bool
later [] = []
later (_ ∷ bs) = bs

abbrev pub after_statement : World → World
after_statement w = record w { faults = later w.faults; aborted = w.in_tx && fails w }

-- `none` is an error.
abbrev pub Query {ℓ} : Type ℓ → Type ℓ
Query A = World → Option A × World

abbrev pub pure {ℓ} : {A : Type ℓ} → A → Query A
pure a w = (some a, w)

abbrev pub failed {ℓ} : {A : Type ℓ} → Query A
failed w = (none, w)

abbrev pub chain {ℓ κ} :
    {A : Type ℓ} {B : Type κ} → (A → Query B) → Option A × World → Option B × World
chain next (none, w) = (none, w)
chain next (some a, w) = next a w

infixl 5 ◌>>=◌
unfoldable pub ◌>>=◌ {ℓ κ} : {A : Type ℓ} {B : Type κ} → Query A → (A → Query B) → Query B
(m >>= next) w = chain next (m w)

infixl 5 ◌>>◌
abbrev pub ◌>>◌ {ℓ κ} : {A : Type ℓ} {B : Type κ} → Query A → Query B → Query B
m >> n = m >>= λ _. n

-- A row, or an error where there is none; a missing row does not abort the transaction.
abbrev pub fetch {ℓ} : {A : Type ℓ} → (Db → Option A) → Query A
fetch f w = (if fails w then none else f w.db, after_statement w)

abbrev pub query {ℓ} : {A : Type ℓ} → (Db → A) → Query A
query f = fetch λ db. some (f db)

abbrev pub stored : Option Db → World → Option (Unit {0}) × World
stored none w = (none, record w { aborted = w.in_tx })
stored (some db) w = (some tt, record w { db = db })

-- A statement that writes.
abbrev pub exec : (Db → Option Db) → Query (Unit {0})
exec f w = if fails w then (none, after_statement w) else stored (f w.db) (after_statement w)

-- A statement that writes and says how many rows it changed.
abbrev pub counted : (Db → Db) → (Db → ℕ) → Query ℕ
counted f n w =
    if fails w
    then (none, after_statement w)
    else (some (n w.db), record (after_statement w) { db = f w.db })

abbrev pub defaulted {ℓ} : {A : Type ℓ} → A → Option A × World → A × World
defaulted a (none, w) = (a, w)
defaulted a (some x, w) = (x, w)

-- The result of a query, or a value in its place when it fails; the error is logged.
abbrev pub or_default {ℓ} : {A : Type ℓ} → Query A → A → World → A × World
or_default m a w = defaulted a (m w)

pub data Body : Type 0 where
  error_body : Text → Body
  trash_body : ℕ → Option State → Body
  purge_body : ℕ → ℕ → ℕ → Body
  stored_body : Text → ℕ → Body
  id_body : ℕ → Body
  sent_body : ℕ → ℕ → Text → Body
  read_body : ℕ → ℕ → Body
  added_body : ℕ → ℕ → ℕ → Option Text → Body
  message_body : Message → Body
  file_body : Text → Body
  no_body : Body

pub record Answer : Type 0 where
  pub status : ℕ
  pub body : Body

abbrev pub Handler : Type 0
Handler = World → Answer × World

abbrev pub answer : ℕ → Body → Answer
answer status body = record { status = status; body = body }

abbrev pub refusal : ℕ → Text → Answer
refusal status text = answer status (error_body text)

abbrev pub proceed {ℓ} : {A : Type ℓ} → Answer → (A → Handler) → Option A × World → Answer × World
proceed failure next (none, w) = (failure, w)
proceed failure next (some a, w) = next a w

-- Go on with the result of a query, or answer its failure.
unfoldable pub or_answer {ℓ} : {A : Type ℓ} → Query A → Answer → (A → Handler) → Handler
or_answer m failure next w = proceed failure next (m w)

-- The `id` of a route: a number, a hash, or neither, with the answer to that.
pub data IdParam : Type 0 where
  by_id : ℕ → IdParam
  by_hash : Text → IdParam
  unreadable : Text → IdParam

abbrev pub has_hash : Text → Msg → Bool
has_hash hash m = elim m.sha256 [ none ↦ false | some h ↦ h == hash ]

abbrev pub found_msg : (ℕ → Handler) → Option Msg → Handler
found_msg next none w = (refusal 404 (codes "message not found"), w)
found_msg next (some m) w = next m.id w

-- `resolveID`: the handler continues with the id.
unfoldable pub resolve_id : IdParam → (ℕ → Handler) → Handler
resolve_id (by_id id) next w = next id w
resolve_id (unreadable text) next w = (refusal 400 text, w)
resolve_id (by_hash hash) next w =
    or_answer (query λ db. find (has_hash hash) db.msgs)
      (refusal 500 (codes "failed to resolve message")) (found_msg next) w

-- How the database ends a commit that it was asked for; an unacknowledged one has happened.
pub data Commit : Type 0 where
  acknowledged refused unacknowledged : Commit

-- What is left of a request.
pub record Finished : Type 0 where
  pub answered : Answer
  pub db : Db
  pub published : List (ℕ × Text)
  pub performed : List Effect

abbrev pub no_commit : Answer
no_commit = refusal 500 (codes "failed to commit message mutation")

abbrev pub unchanged : Db → Answer → List Effect → Finished
unchanged db a effects = record { answered = a; db = db; published = []; performed = effects }

abbrev pub committed : Db → Answer → World → Commit → Finished
committed db a w acknowledged = record {
  answered = a;
  db = w.db;
  published = w.notes;
  performed = w.after_commit;
}
committed db a w refused = unchanged db no_commit []
committed db a w unacknowledged = record {
  answered = no_commit;
  db = w.db;
  published = w.notes;
  performed = [];
}

-- The end of `atomic`; an aborted transaction does not commit.
pub finish : Db → Commit → Answer × World → Finished
finish db commit (a, w) =
    if ltb a.status 400
    then if w.aborted then unchanged db no_commit [] else committed db a w commit
    else unchanged db a w.on_rollback

abbrev pub opened : Db → List Bool → World
opened db faults = record {
  db = db;
  in_tx = true;
  faults = faults;
  aborted = false;
  notes = [];
  reads = [];
  on_rollback = [];
  after_commit = [];
}

-- A handler that runs outside a transaction: each statement stands alone, and a failed one stops
-- no later one.
abbrev pub pooled : Db → List Bool → World
pooled db faults = record {
  db = db;
  in_tx = false;
  faults = faults;
  aborted = false;
  notes = [];
  reads = [];
  on_rollback = [];
  after_commit = [];
}

-- The lock on the message; a message that does not exist needs none.
abbrev pub lock : ℕ → Query (Unit {0})
lock id = query λ _. tt

-- The handler, after the message is resolved and locked.
abbrev pub resolved : Option IdParam → Handler → Handler
resolved none next = next
resolved (some param) next =
    resolve_id param
      λ id. or_answer (lock id) (refusal 500 (codes "failed to lock message")) λ _. next

-- `atomic`; the first argument is whether the transaction begins.
pub atomic : Bool → List Bool → Commit → Option IdParam → Handler → Db → Finished
atomic false faults commit param next db =
    unchanged db (refusal 500 (codes "failed to begin message transaction")) []
atomic true faults commit param next db = finish db commit (resolved param next (opened db faults))
