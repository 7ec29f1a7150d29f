-- ===== src/Trash/Marks.antt =====
-- What `markPurged` of internal/handlers/trash.go does to the trash of each address.
use fmsg_webapi.Prelude.{
  ℕ, ◌≡◌, refl, sym, ap, ◌∙◌, subst, ◌≢◌, inl, inr, Bool, true, false, some, List, [], ◌∷◌,
  if◌then◌else◌, some-eq, In, Text,
}
use fmsg_webapi.Db.{Db}
use fmsg_webapi.Db.Queries.{has_purge, mark_purge}
use fmsg_webapi.Request.{World, Query, exec, pure, ◌>>=◌, ◌>>◌}
use fmsg_webapi.Request.Frames.{
  Keeps, query-Keeps, bind-Keeps, bind-some, query-some, exec-Keeps, exec-ran,
}
use fmsg_webapi.Trash.{Host}
use fmsg_webapi.Trash.Storage.{UsageRelease, usage_of}
use fmsg_webapi.Trash.Purge.{mark_purged, is_top, counted}
use fmsg_webapi.Trash.Marking.{usage_of-Keeps, mark_purge-kept, mark_purge-hit, mark_purge-other}

either-Keeps {ℓ} :
    {A : Type ℓ} (P : Db → Type 0) (b : Bool) {x y : Query A}
    → Keeps P x
    → Keeps P y
    → Keeps P (if b then x else y)
either-Keeps P true k l = k
either-Keeps P false k l = l

module _ (h : Host) (identity : Text) (top now : ℕ) where
  -- A property that every purge mark of the address keeps is kept by the whole loop.
  mark_purged-Keeps :
      (P : Db → Type 0)
      → ((id : ℕ) (db db' : Db)
          → mark_purge identity id (is_top top id) now db ≡ some db'
          → P db
          → P db')
      → (ids : List ℕ) → Keeps P (mark_purged h identity top now ids)
  unfolding mark_purged
  mark_purged-Keeps P k [] = record { run = λ w p. p }
  mark_purged-Keeps P k (id ∷ ids) =
      let rest = mark_purged-Keeps P k ids in
      bind-Keeps P _ _ (query-Keeps P _) λ already. either-Keeps P already rest (
        bind-Keeps P _ _ (exec-Keeps P _ (k id)) λ _.
          bind-Keeps P _ _ (usage_of-Keeps P h identity id)
            λ rel. bind-Keeps P _ _ rest λ others. record { run = λ w p. p })

  -- What is left of the loop after its first message, which is marked by then.
  record Stepped (id : ℕ) (ids : List ℕ) (v : World) : Type 0 where
    start : World
    releases : ℕ × List UsageRelease
    end : World
    rest : mark_purged h identity top now ids start ≡ (some releases, end)
    same : end.db ≡ v.db
    marked : has_purge identity id start.db ≡ true

  step-cases :
      (id : ℕ) (ids : List ℕ) (u v : World) (already : Bool) {r : ℕ × List UsageRelease}
      → already ≡ has_purge identity id u.db
      → (if already then mark_purged h identity top now ids else (do
        exec (mark_purge identity id (is_top top id) now)
        rel ← usage_of h identity id
        others ← mark_purged h identity top now ids
        pure (counted rel others)))
          u
        ≡ (some r, v)
      → Stepped id ids v
  step-cases id ids u v true is e = record {
    start = u;
    releases = _;
    end = v;
    rest = e;
    same = refl;
    marked = sym is;
  }
  step-cases id ids u v false is e =
      let (x, u1, e1, r1) = bind-some _ _ u e in
      let (rel, u2, e2, r2) = bind-some _ _ u1 r1 in
      let (others, u3, e3, r3) = bind-some _ _ u2 r2 in
      let P : Db → Type 0 = λ db. has_purge identity id db ≡ true in
      let hit =
        mark_purge-hit identity id (is_top top id) now u.db u1.db
          (exec-ran (mark_purge identity id (is_top top id) now) u e1) in
      record {
        start = u2;
        releases = others;
        end = u3;
        rest = e3;
        same = ap (λ p. p.1.db) r3;
        marked = subst (λ p. P p.1.db) e2 ((usage_of-Keeps P h identity id).run u1 hit);
      }

  mark_purged-Stepped :
      (id : ℕ) (ids : List ℕ) (w v : World) {r : ℕ × List UsageRelease}
      → mark_purged h identity top now (id ∷ ids) w ≡ (some r, v)
      → Stepped id ids v
  unfolding mark_purged
  mark_purged-Stepped id ids w v e =
      let (already, u, asked, more) = bind-some _ _ w e in
      let (is, same) = query-some (has_purge identity id) w asked in
      step-cases id ids u v already (is ∙ ap (has_purge identity id) (sym same)) more

  kept_by :
      (P : Db → Type 0)
      → ((id : ℕ) (db db' : Db)
          → mark_purge identity id (is_top top id) now db ≡ some db'
          → P db
          → P db')
      → (ids : List ℕ) (w v : World) {r : ℕ × List UsageRelease}
      → mark_purged h identity top now ids w ≡ (some r, v)
      → P w.db
      → P v.db
  kept_by P k ids w v e p = subst (λ r. P r.1.db) e ((mark_purged-Keeps P k ids).run w p)

  kept_mark :
      (a : Text) (i : ℕ) (ids : List ℕ) (w v : World) {r : ℕ × List UsageRelease}
      → mark_purged h identity top now ids w ≡ (some r, v)
      → has_purge a i w.db ≡ true
      → has_purge a i v.db ≡ true
  kept_mark a i =
      kept_by (λ db. has_purge a i db ≡ true)
        λ id db db' ran p. mark_purge-kept identity id (is_top top id) now db db' ran a i p

  every_mark :
      (ids : List ℕ) (w v : World) {r : ℕ × List UsageRelease}
      → mark_purged h identity top now ids w ≡ (some r, v)
      → (id : ℕ) → In id ids
      → has_purge identity id v.db ≡ true
  every_mark [] w v e id m = absurd m
  every_mark (x ∷ ids) w v e id m =
      let s = mark_purged-Stepped x ids w v e in
      subst (λ db. has_purge identity id db ≡ true) s.same
        (elim m [
          | inl is ↦
              kept_mark identity id ids s.start s.end s.rest
                (subst (λ y. has_purge identity y s.start.db ≡ true) is s.marked)
          | inr later ↦ every_mark ids s.start s.end s.rest id later
        ])

  -- Marking messages as deleted for good succeeds only with every one of them marked for the
  -- address; no mark of deletion for good that there was is lost, and none of another address
  -- changes.
  pub marks_purged :
      (ids : List ℕ) (w v : World) (n : ℕ) (releases : List UsageRelease)
      → mark_purged h identity top now ids w ≡ (some (n, releases), v)
      → ((id : ℕ) → In id ids → has_purge identity id v.db ≡ true)
        × ((a : Text) (i : ℕ) → has_purge a i w.db ≡ true → has_purge a i v.db ≡ true)
        × ((a : Text) (i : ℕ) → a ≢ identity → has_purge a i v.db ≡ has_purge a i w.db)
  marks_purged ids w v n releases e = (
    every_mark ids w v e,
    λ a i. kept_mark a i ids w v e,
    λ a i apart.
        kept_by (λ db. has_purge a i db ≡ has_purge a i w.db)
          (λ id db db' ran p.
            mark_purge-other identity id (is_top top id) now db db' ran a i apart ∙ p)
          ids w v e refl,
  )

  repeat-cases :
      (id : ℕ) (ids : List ℕ) (u v : World) (already : Bool) {r : ℕ × List UsageRelease}
      → already ≡ true
      → (if already then mark_purged h identity top now ids else (do
        exec (mark_purge identity id (is_top top id) now)
        rel ← usage_of h identity id
        others ← mark_purged h identity top now ids
        pure (counted rel others)))
          u
        ≡ (some r, v)
      → mark_purged h identity top now ids u ≡ (some r, v)
  repeat-cases id ids u v true is e = e
  repeat-cases id ids u v false is e = cc is

  -- Marking only messages that the address has deleted for good before counts none, gives back no
  -- storage, and leaves the tables as they are.
  pub repeat_releases_nothing :
      (ids : List ℕ) (w v : World) (n : ℕ) (releases : List UsageRelease)
      → ((id : ℕ) → In id ids → has_purge identity id w.db ≡ true)
      → mark_purged h identity top now ids w ≡ (some (n, releases), v)
      → (n ≡ 0) × (releases ≡ []) × (v.db ≡ w.db)
  unfolding mark_purged
  repeat_releases_nothing [] w v n releases purged e =
      let r = some-eq (ap (λ p. p.0) e) in
      (ap (λ q. q.0) (sym r), ap (λ q. q.1) (sym r), ap (λ p. p.1.db) (sym e))
  repeat_releases_nothing (x ∷ ids) w v n releases purged e =
      let (already, u, asked, more) = bind-some _ _ w e in
      let (is, same) = query-some (has_purge identity x) w asked in
      let rest = repeat-cases x ids u v already (is ∙ purged x (inl refl)) more in
      let still : (id : ℕ) → In id ids → has_purge identity id u.db ≡ true =
        λ id m. subst (λ db. has_purge identity id db ≡ true) (sym same) (purged id (inr m)) in
      let (a, b, c) = repeat_releases_nothing ids u v n releases still rest in (a, b, c ∙ same)
