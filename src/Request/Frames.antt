-- ===== src/Request/Frames.antt =====
-- Steps of internal/handlers/transaction.go: what a step keeps of the tables, and what its success
-- says.
use fmsg_webapi.Prelude.{
  ℕ, ◌≡◌, refl, sym, ap, subst, Bool, true, false, Option, none, some, if◌then◌else◌, some-eq, find,
}
use fmsg_webapi.Db.{Db, Msg}
use fmsg_webapi.Request.{
  World, Query, Handler, Answer, proceed, or_answer, exec, stored, query, fails, after_statement,
  chain, ◌>>=◌, fetch, resolve_id, found_msg, IdParam, by_id, unreadable, by_hash, has_hash,
}

-- A step keeps a property of the tables.
pub record Keeps {ℓ} {A : Type ℓ} (P : Db → Type 0) (m : World → A × World) : Type ℓ where
  pub run : (w : World) → P w.db → P (m w).1.db

module _ (P : Db → Type 0) where
  proceed-Keeps {ℓ} :
      {A : Type ℓ} (a : Answer) (next : A → Handler)
      → ((x : A) → Keeps P (next x))
      → (r : Option A × World) → P r.1.db
      → P (proceed a next r).1.db
  proceed-Keeps a next k (none, w) h = h
  proceed-Keeps a next k (some x, w) h = (k x).run w h

  pub or_answer-Keeps {ℓ} :
      {A : Type ℓ} (m : Query A) (a : Answer) (next : A → Handler)
      → Keeps P m
      → ((x : A) → Keeps P (next x))
      → Keeps P (or_answer m a next)
  unfolding or_answer
  or_answer-Keeps m a next h k = record { run = λ w p. proceed-Keeps a next k (m w) (h.run w p) }

  stored-Keeps :
      (o : Option Db) (w : World) → ((db : Db) → o ≡ some db → P db) → P w.db → P (stored o w).1.db
  stored-Keeps none w h p = p
  stored-Keeps (some db) w h p = h db refl

  failing-Keeps :
      (o : Option Db) (w : World) (broken : Bool)
      → ((db : Db) → o ≡ some db → P db)
      → P w.db
      → P (if broken then (none, w) else stored o w).1.db
  failing-Keeps o w true h p = p
  failing-Keeps o w false h p = stored-Keeps o w h p

  pub exec-run :
      (f : Db → Option Db)
      → ((db db' : Db) → f db ≡ some db' → P db → P db')
      → (w : World) → P w.db
      → P (exec f w).1.db
  exec-run f h w p = failing-Keeps (f w.db) (after_statement w) (fails w) (λ db e. h w.db db e p) p

  pub exec-Keeps :
      (f : Db → Option Db) → ((db db' : Db) → f db ≡ some db' → P db → P db') → Keeps P (exec f)
  exec-Keeps f h = record { run = exec-run f h }

  pub query-Keeps {ℓ} : {A : Type ℓ} (f : Db → A) → Keeps P (query f)
  query-Keeps f = record { run = λ w p. p }

  chain-Keeps {ℓ κ} :
      {A : Type ℓ} {B : Type κ} (next : A → Query B)
      → ((x : A) → Keeps P (next x))
      → (r : Option A × World) → P r.1.db
      → P (chain next r).1.db
  chain-Keeps next k (none, w) h = h
  chain-Keeps next k (some x, w) h = (k x).run w h

  pub bind-Keeps {ℓ κ} :
      {A : Type ℓ} {B : Type κ} (m : Query A) (next : A → Query B)
      → Keeps P m
      → ((x : A) → Keeps P (next x))
      → Keeps P (m >>= next)
  unfolding ◌>>=◌
  bind-Keeps m next h k = record { run = λ w p. chain-Keeps next k (m w) (h.run w p) }

-- A chain that succeeds has passed its first step.
chain-some {ℓ κ} :
    {A : Type ℓ} {B : Type κ} (next : A → Query B) (r : Option A × World) {b : B} {v : World}
    → chain next r ≡ (some b, v)
    → (a : A) × (u : World) × (r ≡ (some a, u)) × (next a u ≡ (some b, v))
chain-some next (none, w) h = cc (ap (λ p. p.0) h)
chain-some next (some a, w) h = (a, w, refl, h)

pub bind-some {ℓ κ} :
    {A : Type ℓ} {B : Type κ} (m : Query A) (next : A → Query B) (w : World) {b : B} {v : World}
    → (m >>= next) w ≡ (some b, v)
    → (a : A) × (u : World) × (m w ≡ (some a, u)) × (next a u ≡ (some b, v))
unfolding ◌>>=◌
bind-some m next w h = chain-some next (m w) h

read-some {ℓ} :
    {A : Type ℓ} {x a : A} (broken : Bool) → (if broken then none else some x) ≡ some a → a ≡ x
read-some true h = cc h
read-some false h = sym (some-eq h)

write-some :
    (broken : Bool) (db : Db) (w : World) {u : Unit {0}} {v : World}
    → (if broken then (none, w) else stored (some db) w) ≡ (some u, v)
    → v.db ≡ db
write-some true db w h = cc (ap (λ p. p.0) h)
write-some false db w h = sym (ap (λ p. p.1.db) h)

-- A read that succeeds gives what the tables say, and leaves them.
pub query-some {ℓ} :
    {A : Type ℓ} (f : Db → A) (w : World) {a : A} {v : World}
    → query f w ≡ (some a, v)
    → (a ≡ f w.db) × (v.db ≡ w.db)
query-some f w h = (read-some (fails w) (ap (λ p. p.0) h), ap (λ p. p.1.db) (sym h))

stored-some :
    (o : Option Db) (w : World) {u : Unit {0}} {v : World}
    → stored o w ≡ (some u, v)
    → o ≡ some v.db
stored-some none w h = cc (ap (λ p. p.0) h)
stored-some (some db) w h = ap (λ p. some p.1.db) h

failing-some :
    (broken : Bool) (o : Option Db) (w : World) {u : Unit {0}} {v : World}
    → (if broken then (none, w) else stored o w) ≡ (some u, v)
    → o ≡ some v.db
failing-some true o w h = cc (ap (λ p. p.0) h)
failing-some false o w h = stored-some o w h

-- A statement that succeeds has changed the tables.
pub exec-ran :
    (f : Db → Option Db) (w : World) {u : Unit {0}} {v : World}
    → exec f w ≡ (some u, v)
    → f w.db ≡ some v.db
exec-ran f w h = failing-some (fails w) (f w.db) (after_statement w) h

-- A statement that succeeds.
pub exec-some :
    (f : Db → Db) (w : World) {u : Unit {0}} {v : World}
    → exec (λ db. some (f db)) w ≡ (some u, v)
    → v.db ≡ f w.db
exec-some f w h = write-some (fails w) (f w.db) (after_statement w) h

fetched-some {ℓ} :
    {A : Type ℓ} (broken : Bool) (o : Option A) {a : A}
    → (if broken then none else o) ≡ some a
    → o ≡ some a
fetched-some true o h = cc h
fetched-some false o h = h

-- A row that was read is the tables'.
pub fetch-some {ℓ} :
    {A : Type ℓ} (f : Db → Option A) (w : World) {a : A} {v : World}
    → fetch f w ≡ (some a, v)
    → (f w.db ≡ some a) × (v.db ≡ w.db)
fetch-some f w h = (fetched-some (fails w) (f w.db) (ap (λ p. p.0) h), ap (λ p. p.1.db) (sym h))

module _ (P : Db → Type 0) where
  pub guard-Keeps :
      (b : Bool) (a : Answer) (next : Handler)
      → Keeps P next
      → Keeps P (λ w. if b then (a, w) else next w)
  guard-Keeps true a next k = record { run = λ w p. p }
  guard-Keeps false a next k = record { run = k.run }

  -- A statement that always has new tables.
  pub write-Keeps : (f : Db → Db) → ((db : Db) → P db → P (f db)) → Keeps P (exec λ db. some (f db))
  write-Keeps f h = exec-Keeps P (λ db. some (f db)) λ db db' e p. subst P (some-eq e) (h db p)

  found_msg-Keeps :
      (next : ℕ → Handler)
      → ((id : ℕ) → Keeps P (next id))
      → (o : Option Msg) → Keeps P (found_msg next o)
  found_msg-Keeps next k none = record { run = λ w p. p }
  found_msg-Keeps next k (some m) = record { run = (k m.id).run }

  pub resolve_id-Keeps :
      (param : IdParam) (next : ℕ → Handler)
      → ((id : ℕ) → Keeps P (next id))
      → Keeps P (resolve_id param next)
  unfolding resolve_id
  resolve_id-Keeps (by_id id) next k = record { run = (k id).run }
  resolve_id-Keeps (unreadable text) next k = record { run = λ w p. p }
  resolve_id-Keeps (by_hash hash) next k = record {
    run =
        (or_answer-Keeps P (query λ db. find (has_hash hash) db.msgs) _ (found_msg next)
          (query-Keeps P λ db. find (has_hash hash) db.msgs) (found_msg-Keeps next k)).run;
  }
