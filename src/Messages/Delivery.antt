-- ===== src/Messages/Delivery.antt =====
-- `resolveLocalDelivery` of internal/handlers/messages.go: the delivery of a message to the
-- recipients of this host, which runs after the commit, on the pool.
use fmsg_webapi.Prelude.{
  ℕ, Bool, true, false, not, ◌&&◌, Option, none, some, List, [], ◌∷◌, ◌++◌, map, ltb, if◌then◌else◌,
  length, keep, ◌==◌, nat_eq, Text, text_eq,
}
use fmsg_webapi.Trash.Storage.{message_stored_size}
use fmsg_webapi.Prelude.Int.{ℤ, negsuc, pos}
use fmsg_webapi.Address.{domain_of}
use fmsg_webapi.Request.{additional, direct, World, Table, counted}
use fmsg_webapi.Quota.{
  fetch_error, accept, ResponseCode, FmsgIdDetail, Fetched, local_delivery_code, fetched, code_of,
}
use fmsg_webapi.Strings.{Casing}
use fmsg_webapi.Db.{is_some, Recipient, Added, Db}

-- A call of RecordFmsgIDRecv.
pub record Receipt : Type 0 where
  pub addr : Text
  pub time : ℕ
  pub size : Option ℕ

-- What a run works with. `ask` is a fresh lookup with fmsgid, whose answer depends on what was
-- received before.
pub record Local : Type 0 where
  pub casing : Casing
  pub local_domain : Text
  pub ask : List Receipt → Text → Fetched
  pub table : Table
  pub id : ℕ
  pub now : ℕ

-- The variables of the loop; the size is `none` until it is loaded.
pub record Loop : Type 0 where
  pub size : Option ℕ
  pub receipts : List Receipt
  pub world : World

abbrev pub size_of : Option ℕ → ℤ
size_of none = negsuc 0
size_of (some n) = pos n

module _ {A : Type 0} where
  -- UPDATE … WHERE: the rows that the test selects change.
  abbrev pub update_rows : (A → Bool) → (A → A) → List A → List A
  update_rows test change rows = map (λ a. if test a then change a else a) rows

  abbrev pub count_rows : (A → Bool) → List A → ℕ
  count_rows test rows = length (keep test rows)

-- The rows that the statement selects: the address's, with no outcome yet.
abbrev pub is_open_to : ℕ → Text → Recipient → Bool
is_open_to id addr r =
    r.msg_id == id
    && r.addr == addr
    && not (is_some r.time_delivered)
    && not (is_some r.response_code)

abbrev pub is_open_added : ℕ → Text → Added → Bool
is_open_added id addr a =
    a.msg_id == id
    && a.addr == addr
    && not (is_some a.time_delivered)
    && not (is_some a.response_code)

abbrev pub settle_to : Option ℕ → ResponseCode → Recipient → Recipient
settle_to delivered code r = record r {
  time_delivered = delivered;
  response_code = some (pos (code_of code));
}

abbrev pub settle_added : Option ℕ → ResponseCode → Added → Added
settle_added delivered code a = record a {
  time_delivered = delivered;
  response_code = some (pos (code_of code));
}

abbrev pub settle : Table → ℕ → Text → Option ℕ → ResponseCode → Db → Db
settle direct id addr delivered code db = record db {
  recipients = update_rows (is_open_to id addr) (settle_to delivered code) db.recipients;
}
settle additional id addr delivered code db = record db {
  added = update_rows (is_open_added id addr) (settle_added delivered code) db.added;
}

abbrev pub open_rows : Table → ℕ → Text → Db → ℕ
open_rows direct id addr db = count_rows (is_open_to id addr) db.recipients
open_rows additional id addr db = count_rows (is_open_added id addr) db.added

abbrev pub is_accept : ResponseCode → Bool
is_accept accept = true
is_accept _ = false

module _ (l : Local) where
  abbrev pub delivered_at : ResponseCode → Option ℕ
  delivered_at code = if is_accept code then some l.now else none

  -- After the UPDATE: an error, or the number of rows that it changed.
  abbrev pub recorded : Text → ResponseCode → Loop → Option ℕ × World → Loop
  recorded addr code s (none, w) = record s { world = w }
  recorded addr code s (some n, w) = record s {
    world = w;
    receipts =
        if is_accept code && ltb 0 n
        then s.receipts ++ record { addr = addr; time = l.now; size = s.size } ∷ []
        else s.receipts;
  }

  abbrev pub write_outcome : Text → Option ResponseCode → Loop → Loop
  write_outcome addr none s = s
  write_outcome addr (some code) s = recorded addr code s (
      counted (settle l.table l.id addr (delivered_at code) code) (open_rows l.table l.id addr)
        s.world)

  abbrev pub sized : Loop → Option ℕ × World → Bool × Loop
  sized s (none, w) = (false, record s { world = w })
  sized s (some n, w) = (true, record s { size = some n; world = w })

  -- The size is loaded once, when the first address that fmsgid knows is met.
  abbrev pub load_size : ℕ → Loop → Bool × Loop
  load_size status s =
      if not (is_some s.size) && status == 200
      then sized s (message_stored_size l.id s.world)
      else (true, s)

  abbrev pub after_size : Text → ℕ → FmsgIdDetail → Bool × Loop → Loop
  after_size addr status d (false, s) = s
  after_size addr status d (true, s) =
      write_outcome addr (local_delivery_code status (some d) (size_of s.size)) s

  abbrev pub after_lookup : Text → Loop → Fetched → Loop
  after_lookup addr s fetch_error = s
  after_lookup addr s (fetched status d) = after_size addr status d (load_size status s)

  -- The body of the loop.
  unfoldable pub deliver : Text → Loop → Loop
  deliver addr s =
      if not (l.casing.equal_fold (domain_of addr) l.local_domain)
      then s
      else after_lookup addr s (l.ask s.receipts addr)

  unfoldable pub deliver_all : List Text → Loop → Loop
  deliver_all [] s = s
  deliver_all (addr ∷ addrs) s = deliver_all addrs (deliver addr s)

  -- `resolveLocalDelivery`
  abbrev pub resolve_local_delivery : List Text → World → Loop
  resolve_local_delivery addrs w =
      deliver_all addrs (record { size = none; receipts = []; world = w })
