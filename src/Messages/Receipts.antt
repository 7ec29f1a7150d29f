-- ===== src/Messages/Receipts.antt =====
-- The receipts that `resolveLocalDelivery` of internal/handlers/messages.go records with fmsgid.
use fmsg_webapi.Prelude.{
  ℕ, ◌+◌, ◌≤◌, ◌≡◌, refl, ap, inl, inr, Bool, true, false, not, ◌&&◌, Option, none, some, List, [],
  ◌∷◌, ◌++◌, arith, if◌then◌else◌, Bool-cases, All, ◌==◌, nat_eq, Text, text_beq_iff, text_eq,
  Bool-cases,
}
use fmsg_webapi.Messages.ReceiptSizes.{IsReceipt, deliver_all-IsReceipt}
use fmsg_webapi.Trash.Storage.{message_stored_size}
use fmsg_webapi.Address.{domain_of}
use fmsg_webapi.Quota.{fetch_error, ResponseCode, FmsgIdDetail, Fetched, fetched}
use fmsg_webapi.Messages.Delivery.{
  open_rows, settle, is_open_to, settle_to, is_open_added, settle_added, count_rows, update_rows,
  Local, Loop, recorded, delivered_at, deliver, load_size, deliver_all, sized, write_outcome,
  after_lookup, after_size, resolve_local_delivery, Receipt, is_accept,
}
use fmsg_webapi.Request.{additional, direct, Table, World, after_statement, fails}
use fmsg_webapi.Db.{Recipient, Added, Db, is_some}

module _ {A : Type 0} (test : A → Bool) (change : A → A) where
  -- An update moves as many rows into a class as it selects, or none.
  count_rows-update :
      (done : A → Bool) (moves : Bool)
      → ((a : A) → test a ≡ true → (done a ≡ false) × (done (change a) ≡ moves))
      → (rows : List A)
      → count_rows done (update_rows test change rows)
        ≡ count_rows done rows + (if moves then count_rows test rows else 0)
  count_rows-update done moves h [] = ground arith
  count_rows-update done moves h (a ∷ rows) =
      ground (arith, h a, count_rows-update done moves h rows)

  count_rows-update-le :
      (other : A → Bool)
      → ((a : A) → test a ≡ true → other (change a) ≡ false)
      → (rows : List A) → count_rows other (update_rows test change rows) ≤ count_rows other rows
  count_rows-update-le other h [] = omega arith
  count_rows-update-le other h (a ∷ rows) = ground (arith, h a, count_rows-update-le other h rows)

abbrev is_delivered_to : ℕ → Text → Recipient → Bool
is_delivered_to id addr r = r.msg_id == id && r.addr == addr && is_some r.time_delivered

abbrev is_delivered_added : ℕ → Text → Added → Bool
is_delivered_added id addr a = a.msg_id == id && a.addr == addr && is_some a.time_delivered

-- The delivered rows of an address of the message.
abbrev pub delivered_rows : Table → ℕ → Text → Db → ℕ
delivered_rows direct id addr db = count_rows (is_delivered_to id addr) db.recipients
delivered_rows additional id addr db = count_rows (is_delivered_added id addr) db.added

abbrev pub receipts_for : Text → List Receipt → ℕ
receipts_for addr rs = count_rows (λ (r : Receipt). r.addr == addr) rs

receipts_for-append :
    (addr : Text) (rs : List Receipt) (r : Receipt)
    → receipts_for addr (rs ++ r ∷ []) ≡ receipts_for addr rs + (if r.addr == addr then 1 else 0)
receipts_for-append addr [] r = ground arith
receipts_for-append addr (q ∷ rs) r = ground (arith, receipts_for-append addr rs r)

alike : (a b x : Text) → (a == b) ≡ true → (a == x) ≡ (b == x)
alike a b x h = ap (λ z. z == x) ((text_beq_iff a b).0 h)

settle-delivered :
    (t : Table) (id : ℕ) (addr x : Text) (o : Option ℕ) (c : ResponseCode) (db : Db)
    → delivered_rows t id x (settle t id addr o c db)
      ≡ delivered_rows t id x db + (if addr == x && is_some o then open_rows t id addr db else 0)
settle-delivered direct id addr x o c db =
    count_rows-update (is_open_to id addr) (settle_to o c) (is_delivered_to id x)
      (addr == x && is_some o) (λ r h. ground (arith, alike r.addr addr x)) db.recipients
settle-delivered additional id addr x o c db =
    count_rows-update (is_open_added id addr) (settle_added o c) (is_delivered_added id x)
      (addr == x && is_some o) (λ r h. ground (arith, alike r.addr addr x)) db.added

settle-open-le :
    (t : Table) (id : ℕ) (addr other : Text) (o : Option ℕ) (c : ResponseCode) (db : Db)
    → open_rows t id other (settle t id addr o c db) ≤ open_rows t id other db
settle-open-le direct id addr other o c db =
    count_rows-update-le (is_open_to id addr) (settle_to o c) (is_open_to id other)
      (λ r h. ground arith) db.recipients
settle-open-le additional id addr other o c db =
    count_rows-update-le (is_open_added id addr) (settle_added o c) (is_open_added id other)
      (λ r h. ground arith) db.added

-- No address has two rows of the message without an outcome; the tables' unique keys say so.
pub record IsKeyed (t : Table) (id : ℕ) (db : Db) : Type 0 where
  pub at_most_one : (addr : Text) → open_rows t id addr db ≤ 1

module _ (l : Local) where
  abbrev delivered : Text → Loop → ℕ
  delivered addr s = delivered_rows l.table l.id addr s.world.db

  -- A step keeps the balance of deliveries and receipts, and the keys.
  record IsBalanced (s s' : Loop) : Type 0 where
    balance :
        (x : Text)
        → delivered x s' + receipts_for x s.receipts ≡ delivered x s + receipts_for x s'.receipts
    keyed : (addr : Text) → open_rows l.table l.id addr s'.world.db ≤ 1

  Keyed-same :
      (s s' : Loop)
      → s'.world.db ≡ s.world.db
      → s'.receipts ≡ s.receipts
      → IsKeyed l.table l.id s.world.db
      → IsBalanced s s'
  Keyed-same s s' e f k = record {
    balance = λ x. rw (e, f) refl;
    keyed = λ addr. rw e (k.at_most_one addr);
  }

  accepted : (code : ResponseCode) → is_some (delivered_at l code) ≡ is_accept code
  accepted code = elim (Bool-cases (is_accept code)) [ inl e ↦ rw e refl | inr e ↦ rw e refl ]

  settled-IsBalanced :
      (addr : Text) (code : ResponseCode) (s : Loop) (w : World)
      → w.db ≡ settle l.table l.id addr (delivered_at l code) code s.world.db
      → IsKeyed l.table l.id s.world.db
      → IsBalanced s (recorded l addr code s (some (open_rows l.table l.id addr s.world.db), w))
  settled-IsBalanced addr code s w e k = record {
    balance = λ x.
        rw (e, settle-delivered l.table l.id addr x (delivered_at l code) code s.world.db)
          (recorded-balance (open_rows l.table l.id addr s.world.db) x (k.at_most_one addr));
    keyed = λ other. rw e (
        omega (
          arith,
          settle-open-le l.table l.id addr other (delivered_at l code) code s.world.db,
          k.at_most_one other,
        ));
  }
    where
      recorded-balance :
          (n : ℕ) (x : Text)
          → n ≤ 1
          → delivered x s
              + (if addr == x && is_some (delivered_at l code) then n else 0)
              + receipts_for x s.receipts
            ≡ delivered x s + receipts_for x (recorded l addr code s (some n, w)).receipts
      recorded-balance n x h =
          let sent : Receipt = record { addr = addr; time = l.now; size = s.size } in
          rw (accepted code) (ground (arith, receipts_for-append x s.receipts sent, h))

  written-IsBalanced :
      (addr : Text) (code : ResponseCode) (s : Loop) (broken : Bool)
      → IsKeyed l.table l.id s.world.db
      → IsBalanced s (
          recorded l addr code s (
            if broken then (none, after_statement s.world) else (
              some (open_rows l.table l.id addr s.world.db),
              record (after_statement s.world) {
                db = settle l.table l.id addr (delivered_at l code) code s.world.db;
              },
            )))
  written-IsBalanced addr code s true k = Keyed-same s _ refl refl k
  written-IsBalanced addr code s false k = settled-IsBalanced addr code s _ refl k

  write_outcome-IsBalanced :
      (addr : Text) (c : Option ResponseCode) (s : Loop)
      → IsKeyed l.table l.id s.world.db
      → IsBalanced s (write_outcome l addr c s)
  write_outcome-IsBalanced addr none s k = Keyed-same s s refl refl k
  write_outcome-IsBalanced addr (some code) s k = written-IsBalanced addr code s (fails s.world) k

  -- Loading the size changes nothing else.
  IsLoaded : Loop → Loop → Type 0
  IsLoaded s s' = (s'.world.db ≡ s.world.db) × (s'.receipts ≡ s.receipts)

  sized-IsLoaded :
      (s : Loop) (r : Option ℕ × World) → r.1.db ≡ s.world.db → IsLoaded s (sized l s r).1
  unfolding IsLoaded
  sized-IsLoaded s (none, w) e = (e, refl)
  sized-IsLoaded s (some n, w) e = (e, refl)

  load_size-IsLoaded : (status : ℕ) (s : Loop) → IsLoaded s (load_size l status s).1
  unfolding IsLoaded
  load_size-IsLoaded status s = elim (Bool-cases (not (is_some s.size) && status == 200)) [
    | inl e ↦ rw e (sized-IsLoaded s (message_stored_size l.id s.world) refl)
    | inr e ↦ rw e (refl, refl)
  ]

  from_loaded : (s u s' : Loop) → IsLoaded s u → IsBalanced u s' → IsBalanced s s'
  unfolding IsLoaded
  from_loaded s u s' (e, f) b = record {
    balance = λ x. rw (← e, ← f) (b.balance x);
    keyed = b.keyed;
  }

  after_size-IsBalanced :
      (addr : Text) (status : ℕ) (d : FmsgIdDetail) (s : Loop) (r : Bool × Loop)
      → IsLoaded s r.1
      → IsKeyed l.table l.id s.world.db
      → IsBalanced s (after_size l addr status d r)
  unfolding IsLoaded
  after_size-IsBalanced addr status d s (false, u) (e, f) k = Keyed-same s u e f k
  after_size-IsBalanced addr status d s (true, u) (e, f) k =
      from_loaded s u _ (e, f) (write_outcome-IsBalanced addr _ u (rw e k))

  after_lookup-IsBalanced :
      (addr : Text) (s : Loop) (r : Fetched)
      → IsKeyed l.table l.id s.world.db
      → IsBalanced s (after_lookup l addr s r)
  after_lookup-IsBalanced addr s fetch_error k = Keyed-same s s refl refl k
  after_lookup-IsBalanced addr s (fetched status d) k =
      after_size-IsBalanced addr status d s (load_size l status s) (load_size-IsLoaded status s) k

  deliver-IsBalanced :
      (addr : Text) (s : Loop) → IsKeyed l.table l.id s.world.db → IsBalanced s (deliver l addr s)
  unfolding deliver
  deliver-IsBalanced addr s k =
      elim (Bool-cases (l.casing.equal_fold (domain_of addr) l.local_domain)) [
        | inl e ↦ rw e (after_lookup-IsBalanced addr s (l.ask s.receipts addr) k)
        | inr e ↦ rw e (Keyed-same s s refl refl k)
      ]

  run-balance :
      (addrs : List Text) (s : Loop) (x : Text)
      → IsKeyed l.table l.id s.world.db
      → delivered x (deliver_all l addrs s) + receipts_for x s.receipts
        ≡ delivered x s + receipts_for x (deliver_all l addrs s).receipts
  unfolding deliver_all
  run-balance [] s x k = refl
  run-balance (addr ∷ addrs) s x k =
      let step = deliver-IsBalanced addr s k in
      omega (
        arith,
        step.balance x,
        run-balance addrs (deliver l addr s) x (record { at_most_one = step.keyed }),
      )

  -- Every delivery of a run is reported to fmsgid as received, once, and nothing else is: after the
  -- run each address has as many more delivered rows of the message in the table as there are
  -- receipts for it, and every receipt has the time of the run and the message's stored size. This
  -- holds whatever the order of the addresses, with repeated ones among them, whatever fmsgid
  -- answers and whichever statements fail. It needs that no address has two rows of the message
  -- without an outcome.
  pub receipts-eq-deliveries :
      (addrs : List Text) (w : World)
      → IsKeyed l.table l.id w.db
      → let end = resolve_local_delivery l addrs w in
        ((addr : Text)
          → delivered_rows l.table l.id addr end.world.db
            ≡ delivered_rows l.table l.id addr w.db + receipts_for addr end.receipts)
        × All (IsReceipt l w.db) end.receipts
  receipts-eq-deliveries addrs w k =
      let start : Loop = record { size = none; receipts = []; world = w } in
      (λ x. omega (arith, run-balance addrs start x k), deliver_all-IsReceipt l w.db addrs w refl)
