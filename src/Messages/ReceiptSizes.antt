-- ===== src/Messages/ReceiptSizes.antt =====
-- What the receipts of `resolveLocalDelivery` of internal/handlers/messages.go say: the time of the
-- run and the message's stored size.
use fmsg_webapi.Prelude.{
  ℕ, ◌≡◌, refl, sym, ap, ◌∙◌, inl, inr, Bool, true, false, not, ◌&&◌, Option, none, some, List, [],
  ◌∷◌, ◌++◌, arith, ltb, if◌then◌else◌, Bool-cases, some-eq, All, ◌==◌, nat_eq, Text, text_eq,
  Bool-cases,
}
use fmsg_webapi.Request.Frames.{fetch-some}
use fmsg_webapi.Messages.Quoted.{stored_size}
use fmsg_webapi.Trash.Storage.{message_stored_size}
use fmsg_webapi.Address.{domain_of}
use fmsg_webapi.Prelude.Int.{ℤ}
use fmsg_webapi.Db.{Db, is_some}
use fmsg_webapi.Quota.{
  fetch_error, local_delivery_code, ResponseCode, FmsgIdDetail, Fetched, fetched,
}
use fmsg_webapi.Request.{additional, direct, Table, World, after_statement, fails}
use fmsg_webapi.Messages.Delivery.{
  delivered_at, Local, deliver_all, Loop, Receipt, deliver, is_accept, load_size, write_outcome,
  after_size, resolve_local_delivery, recorded, after_lookup, size_of, open_rows, settle, sized,
}

-- A receipt of a run over these tables.
pub record IsReceipt (l : Local) (db : Db) (r : Receipt) : Type 0 where
  pub now : r.time ≡ l.now
  pub bytes : ℕ
  pub measured : stored_size l.id db ≡ some bytes
  pub reported : r.size ≡ some bytes

All-snoc {ℓ κ} :
    {A : Type ℓ} (P : A → Type κ) (xs : List A) (y : A) → All P xs → P y → All P (xs ++ y ∷ [])
All-snoc P [] y a p = (p, tt)
All-snoc P (x ∷ xs) y (q, a) p = (q, All-snoc P xs y a p)

settle-stored_size :
    (t : Table) (id : ℕ) (addr : Text) (o : Option ℕ) (c : ResponseCode) (db : Db)
    → stored_size id (settle t id addr o c db) ≡ stored_size id db
settle-stored_size direct id addr o c db = refl
settle-stored_size additional id addr o c db = refl

-- An address is accepted only with the answer 200.
accepted_status :
    (status : ℕ) (d : FmsgIdDetail) (size : ℤ) (code : ResponseCode)
    → local_delivery_code status (some d) size ≡ some code
    → is_accept code ≡ true
    → status ≡ 200
unfolding local_delivery_code
accepted_status status d size code e a = elim (Bool-cases (status == 404)) [
  | inl f ↦ let bad : false ≡ true = ap is_accept (some-eq (rw f at e)) ∙ a in cc bad
  | inr f ↦ elim (Bool-cases (status == 200)) [
    | inl g ↦ ground (arith, g)
    | inr g ↦ cc (rw (f, g) at e)
  ]
]

module _ (l : Local) (db : Db) where
  -- The loop has no size yet, or the stored one, which no step changes.
  data IsLoaded (o : Option ℕ) : Type 0 where
    not_yet : o ≡ none → IsLoaded o
    loaded : (n : ℕ) → o ≡ some n → stored_size l.id db ≡ some n → IsLoaded o

  record IsKept (s : Loop) : Type 0 where
    size : IsLoaded s.size
    same : stored_size l.id s.world.db ≡ stored_size l.id db
    all : All (IsReceipt l db) s.receipts

  receipt :
      (addr : Text) (o : Option ℕ)
      → IsLoaded o
      → is_some o ≡ true
      → IsReceipt l db (record { addr = addr; time = l.now; size = o })
  receipt addr o (not_yet e) h = cc (rw e at h)
  receipt addr o (loaded n e m) h = record { now = refl; bytes = n; measured = m; reported = e }

  recorded-IsKept :
      (addr : Text) (code : ResponseCode) (s : Loop) (r : Option ℕ × World)
      → stored_size l.id r.1.db ≡ stored_size l.id db
      → (is_accept code ≡ true → is_some s.size ≡ true)
      → IsKept s
      → IsKept (recorded l addr code s r)
  recorded-IsKept addr code s (none, w) e h k = record { size = k.size; same = e; all = k.all }
  recorded-IsKept addr code s (some n, w) e h k = record {
    size = k.size;
    same = e;
    all = by_case (is_accept code) h (ltb 0 n);
  }
    where
      by_case :
          (b : Bool)
          → (b ≡ true → is_some s.size ≡ true)
          → (c : Bool)
          → All (IsReceipt l db) (
              if b && c
              then s.receipts ++ record { addr = addr; time = l.now; size = s.size } ∷ []
              else s.receipts)
      by_case true h true =
          All-snoc (IsReceipt l db) s.receipts _ k.all (receipt addr s.size k.size (h refl))
      by_case true h false = k.all
      by_case false h c = k.all

  write_outcome-IsKept :
      (addr : Text) (c : Option ResponseCode) (s : Loop)
      → ((code : ResponseCode) → c ≡ some code → is_accept code ≡ true → is_some s.size ≡ true)
      → IsKept s
      → IsKept (write_outcome l addr c s)
  write_outcome-IsKept addr none s h k = k
  write_outcome-IsKept addr (some code) s h k = by_case (fails s.world)
    where
      by_case :
          (broken : Bool)
          → IsKept (
              recorded l addr code s (
                if broken then (none, after_statement s.world) else (
                  some (open_rows l.table l.id addr s.world.db),
                  record (after_statement s.world) {
                    db = settle l.table l.id addr (delivered_at l code) code s.world.db;
                  },
                )))
      by_case true =
          recorded-IsKept addr code s (none, after_statement s.world) k.same (h code refl) k
      by_case false =
          recorded-IsKept addr code s
            (
              some (open_rows l.table l.id addr s.world.db),
              record (after_statement s.world) {
                db = settle l.table l.id addr (delivered_at l code) code s.world.db;
              },
            )
            (settle-stored_size l.table l.id addr (delivered_at l code) code s.world.db ∙ k.same)
            (h code refl) k

  -- After the size is loaded.
  IsReady : ℕ → Bool × Loop → Type 0
  IsReady status (ok, s) = IsKept s × (ok ≡ true → status ≡ 200 → is_some s.size ≡ true)

  sized-IsReady :
      (status : ℕ) (s : Loop) (r : Option ℕ × World)
      → r.1.db ≡ s.world.db
      → ((n : ℕ) → r.0 ≡ some n → stored_size l.id s.world.db ≡ some n)
      → IsKept s
      → IsReady status (sized l s r)
  unfolding IsReady
  sized-IsReady status s (none, w) e h k = (
    record { size = k.size; same = ap (stored_size l.id) e ∙ k.same; all = k.all },
    λ bad. cc bad,
  )
  sized-IsReady status s (some n, w) e h k = (
    record {
      size = loaded n refl (sym k.same ∙ h n refl);
      same = ap (stored_size l.id) e ∙ k.same;
      all = k.all;
    },
    λ _ _. refl,
  )

  load_size-IsReady : (status : ℕ) (s : Loop) → IsKept s → IsReady status (load_size l status s)
  unfolding IsReady
  load_size-IsReady status s k = elim (Bool-cases (not (is_some s.size) && status == 200)) [
    | inl e ↦ rw e (
        sized-IsReady status s (message_stored_size l.id s.world) refl
          (λ n h. (fetch-some (stored_size l.id) s.world (pair h)).0) k)
    | inr e ↦ rw e (k, λ _ q. ground (arith, e, q))
  ]
    where
      pair :
          {n : ℕ}
          → (message_stored_size l.id s.world).0 ≡ some n
          → message_stored_size l.id s.world ≡ (some n, after_statement s.world)
      pair h = ap (λ o. (o, after_statement s.world)) h

  after_size-IsKept :
      (addr : Text) (status : ℕ) (d : FmsgIdDetail) (r : Bool × Loop)
      → IsReady status r
      → IsKept (after_size l addr status d r)
  unfolding IsReady
  after_size-IsKept addr status d (false, s) (k, h) = k
  after_size-IsKept addr status d (true, s) (k, h) =
      write_outcome-IsKept addr _ s
        (λ code e a. h refl (accepted_status status d (size_of s.size) code e a)) k

  after_lookup-IsKept :
      (addr : Text) (s : Loop) (r : Fetched) → IsKept s → IsKept (after_lookup l addr s r)
  after_lookup-IsKept addr s fetch_error k = k
  after_lookup-IsKept addr s (fetched status d) k =
      after_size-IsKept addr status d (load_size l status s) (load_size-IsReady status s k)

  deliver-IsKept : (addr : Text) (s : Loop) → IsKept s → IsKept (deliver l addr s)
  unfolding deliver
  deliver-IsKept addr s k =
      elim (Bool-cases (l.casing.equal_fold (domain_of addr) l.local_domain)) [
        | inl e ↦ rw e (after_lookup-IsKept addr s (l.ask s.receipts addr) k)
        | inr e ↦ rw e k
      ]

  deliver_all-IsKept : (addrs : List Text) (s : Loop) → IsKept s → IsKept (deliver_all l addrs s)
  unfolding deliver_all
  deliver_all-IsKept [] s k = k
  deliver_all-IsKept (addr ∷ addrs) s k =
      deliver_all-IsKept addrs (deliver l addr s) (deliver-IsKept addr s k)

  pub deliver_all-IsReceipt :
      (addrs : List Text) (w : World)
      → w.db ≡ db
      → All (IsReceipt l db) (resolve_local_delivery l addrs w).receipts
  deliver_all-IsReceipt addrs w e =
      (deliver_all-IsKept addrs (record { size = none; receipts = []; world = w })
        (record { size = not_yet refl; same = ap (stored_size l.id) e; all = tt })).all
