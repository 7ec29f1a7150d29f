-- ===== src/Request/Success.antt =====
-- What a handler has passed when it answers without an error: steps of
-- internal/handlers/transaction.go and of the handlers that run in it.
use mathlib.Core.Option
use fmsg_webapi.Prelude.{
  ℕ, ◌≤◌, ◌<◌, ◌≡◌, refl, sym, ap, ◌∙◌, subst, Bool, true, false, Option, none, some, [], arith,
  if◌then◌else◌, find, codes,
}
use fmsg_webapi.Request.Frames.{query-some}
use fmsg_webapi.Db.{Db, Msg}
use fmsg_webapi.Request.{
  resolve_id, or_answer, Handler, Answer, World, IdParam, Query, by_id, query, proceed, found_msg,
  unreadable, by_hash, has_hash, or_default, fails, after_statement, fetch, exec, refusal,
}

pub record Succeeds (r : Answer × World) : Type 0 where
  pub below : r.0.status < 400

-- An early return with an error was not taken.
pub guard-Succeeds :
    (b : Bool) (a : Answer) (w : World) (r : Answer × World)
    → 400 ≤ a.status
    → Succeeds (if b then (a, w) else r)
    → (b ≡ false) × Succeeds r
guard-Succeeds true a w r h k = absurd (omega (arith, h, k.below))
guard-Succeeds false a w r h k = (refl, k)

pub proceed-Succeeds {ℓ} :
    {A : Type ℓ} (a : Answer) (next : A → Handler) (r : Option A × World)
    → 400 ≤ a.status
    → Succeeds (proceed a next r)
    → (x : A) × (v : World) × (r ≡ (some x, v)) × Succeeds (next x v)
proceed-Succeeds a next (none, v) h k = absurd (omega (arith, h, k.below))
proceed-Succeeds a next (some x, v) h k = (x, v, refl, k)

-- The step before went well.
pub or_answer-Succeeds {ℓ} :
    {A : Type ℓ} (m : Query A) (a : Answer) (next : A → Handler) (w : World)
    → 400 ≤ a.status
    → Succeeds (or_answer m a next w)
    → (x : A) × (v : World) × (m w ≡ (some x, v)) × Succeeds (next x v)
unfolding or_answer
or_answer-Succeeds m a next w h k = proceed-Succeeds a next (m w) h k

-- A read that went well.
pub query-Succeeds {ℓ} :
    {A : Type ℓ} (f : Db → A) (a : Answer) (next : A → Handler) (w : World)
    → 400 ≤ a.status
    → Succeeds (or_answer (query f) a next w)
    → (v : World) × (v.db ≡ w.db) × Succeeds (next (f w.db) v)
query-Succeeds f a next w h k =
    let (x, v, e, n) = or_answer-Succeeds (query f) a next w h k in
    let (ex, ev) = query-some f w e in (v, ev, subst (λ y. Succeeds (next y v)) ex n)

-- No statement fails any more.
pub record IsClean (w : World) : Type 0 where
  pub no_fault : w.faults ≡ []
  pub running : w.aborted ≡ false

pub fails-IsClean : (w : World) → IsClean w → fails w ≡ false
fails-IsClean w c = rw (c.running, c.no_fault) refl

pub after-IsClean : (w : World) → IsClean w → IsClean (after_statement w)
after-IsClean w c = record {
  no_fault = rw c.no_fault refl;
  running = rw (c.running, c.no_fault) (ground arith);
}

pub query-IsClean {ℓ} :
    {A : Type ℓ} (f : Db → A) (w : World)
    → IsClean w
    → query f w ≡ (some (f w.db), after_statement w)
query-IsClean f w c = rw (fails-IsClean w c) refl

pub or_answer-IsClean {ℓ} :
    {A : Type ℓ} (f : Db → A) (a : Answer) (next : A → Handler) (w : World)
    → IsClean w
    → or_answer (query f) a next w ≡ next (f w.db) (after_statement w)
unfolding or_answer
or_answer-IsClean f a next w c = rw (query-IsClean f w c) refl

pub or_default-IsClean {ℓ} :
    {A : Type ℓ} (f : Db → A) (a : A) (w : World)
    → IsClean w
    → or_default (query f) a w ≡ (f w.db, after_statement w)
or_default-IsClean f a w c = rw (query-IsClean f w c) refl

pub fetch-IsClean {ℓ} :
    {A : Type ℓ} (f : Db → Option A) (w : World)
    → IsClean w
    → fetch f w ≡ (f w.db, after_statement w)
fetch-IsClean f w c = rw (fails-IsClean w c) refl

abbrev pub written : (Db → Db) → World → World
written f w = record (after_statement w) { db = f w.db }

pub exec-IsClean :
    (f : Db → Db) (w : World) → IsClean w → exec (λ db. some (f db)) w ≡ (some tt, written f w)
exec-IsClean f w c = rw (fails-IsClean w c) refl

pub written-IsClean : (f : Db → Db) (w : World) → IsClean w → IsClean (written f w)
written-IsClean f w c =
    let a = after-IsClean w c in record { no_fault = a.no_fault; running = a.running }

-- The same, with where the handler went on.
pub guard-passed :
    (b : Bool) (a : Answer) (w : World) (r : Answer × World)
    → 400 ≤ a.status
    → Succeeds (if b then (a, w) else r)
    → (b ≡ false) × ((if b then (a, w) else r) ≡ r) × Succeeds r
guard-passed true a w r h k = absurd (omega (arith, h, k.below))
guard-passed false a w r h k = (refl, refl, k)

pub or_answer-passed {ℓ} :
    {A : Type ℓ} (m : Query A) (a : Answer) (next : A → Handler) (w : World)
    → 400 ≤ a.status
    → Succeeds (or_answer m a next w)
    → (x : A) × (v : World) × (m w ≡ (some x, v))
      × (or_answer m a next w ≡ next x v)
      × Succeeds (next x v)
unfolding or_answer
or_answer-passed m a next w h k =
    let (x, v, e, n) = proceed-Succeeds a next (m w) h k in (x, v, e, ap (proceed a next) e, n)

-- The id that the parameter of a route stands for.
abbrev pub named_id : IdParam → Db → Option ℕ
named_id (by_id id) db = some id
named_id (by_hash hash) db = Option.map (λ (m : Msg). m.id) (find (has_hash hash) db.msgs)
named_id (unreadable text) db = none

found_msg-passed :
    (next : ℕ → Handler) (o : Option Msg) (v : World)
    → Succeeds (found_msg next o v)
    → (id : ℕ) × (Option.map (λ (m : Msg). m.id) o ≡ some id)
      × (found_msg next o v ≡ next id v)
      × Succeeds (next id v)
found_msg-passed next none v k = absurd (omega (arith, k.below))
found_msg-passed next (some m) v k = (m.id, refl, refl, k)

pub resolve_id-passed :
    (param : IdParam) (next : ℕ → Handler) (w : World)
    → Succeeds (resolve_id param next w)
    → (id : ℕ) × (v : World) × (named_id param w.db ≡ some id)
      × (v.db ≡ w.db)
      × (resolve_id param next w ≡ next id v)
      × Succeeds (next id v)
unfolding resolve_id
resolve_id-passed (by_id id) next w k = (id, w, refl, refl, refl, k)
resolve_id-passed (unreadable text) next w k = absurd (omega (arith, k.below))
resolve_id-passed (by_hash hash) next w k =
    let hashed : Db → Option Msg = λ db. find (has_hash hash) db.msgs in
    let (o, v, e, r, k1) =
      or_answer-passed (query hashed) (refusal 500 (codes "failed to resolve message"))
        (found_msg next) w (omega arith) k in
    let (eo, ev) = query-some hashed w e in
    let (id, f, r', k2) = found_msg-passed next o v k1 in
    (id, v, ap (Option.map (λ (m : Msg). m.id)) (sym eo) ∙ f, ev, r ∙ r', k2)
