-- ===== src/Trash/Accounting/Loop.antt =====
-- The loop of RestoreAllAssets and EmptyTrash over the listing of a user's trash.
use immich_go_backend.Base.{
  ℕ, suc, ◌+◌, ◌≡◌, refl, sym, subst, ◌∙◌, ap, ◌≢◌, Bool, true, false, ◌&&◌, List, [], ◌∷◌, arith,
  ◌==◌, if◌then◌else◌, length,
}
use immich_go_backend.Db.{Asset, Db, Outcome, ok, M, statement, succeeds, attempt, settle, continue}
use immich_go_backend.Db.Assets.{update_where, update_assets, is_trashed_of}
use immich_go_backend.Db.Rows.{All, All-zip, identities, Keyed, identities-update_where}
use immich_go_backend.Trash.{each_counted}
use immich_go_backend.Trash.Accounting.{number, HasIn, Distinct, number-step, any-step}

-- The result of a loop: what it counted is what has left the trash.
pub record Counted (user : ℕ) (start : Db) (n : ℕ) (o : Outcome ℕ) : Type 0 where
  pub count : ℕ
  pub final : Db
  pub gives : o ≡ ok (n + count) final
  pub leaves : count + number user final.assets ≡ number user start.assets

Counted-none : (user n : ℕ) (db : Db) → Counted user db n (ok n db)
Counted-none user n db = record {
  count = 0;
  final = db;
  gives = ap (λ k. ok k db) (omega arith);
  leaves = omega arith;
}

module _ (user : ℕ) (db before : Db) (n : ℕ) (o : Outcome ℕ) where
  Counted-one :
      suc (number user db.assets) ≡ number user before.assets
      → Counted user db (n + 1) o
      → Counted user before n o
  Counted-one e h = record {
    count = suc h.count;
    final = h.final;
    gives = h.gives ∙ ap (λ k. ok k h.final) (omega arith);
    leaves = omega (arith, e, h.leaves);
  }

  Counted-same :
      number user db.assets ≡ number user before.assets
      → Counted user db n o
      → Counted user before n o
  Counted-same e h = record {
    count = h.count;
    final = h.final;
    gives = h.gives;
    leaves = h.leaves ∙ e;
  }

module _ (user : ℕ) (c : Asset → Bool) (f : ℕ → Asset → Asset)
    (matches : (a : Asset) → is_trashed_of user a ≡ true → c a ≡ true)
    (keeps_id : (n : ℕ) (a : Asset) → (f n a).id ≡ a.id)
    (keeps_owner : (n : ℕ) (a : Asset) → (f n a).owner_id ≡ a.owner_id)
    (leaves : (n : ℕ) (a : Asset) → is_trashed_of user (f n a) ≡ false) where
  abbrev act : ℕ → M (Unit {0})
  act id = statement (update_assets (λ a. a.id == id && c a) f)

  abbrev written : ℕ → Db → Db
  written id db = record db {
    assets =
        update_where (λ a. a.id == id && c a) (λ a. record (f db.clock a) { updated_at = db.clock })
          db.assets;
  }

  -- All rows of the listing still to come are in the trash.
  pub record Ready (rows : List Asset) (db : Db) : Type 0 where
    pub distinct : Distinct rows
    pub there : All (λ (r : Asset). HasIn user r.id db.assets) rows
    pub keyed : Keyed (identities db.assets)

  HasIn-written :
      (id : ℕ) (rows : List Asset) (db : Db)
      → All (λ (r : Asset). r.id ≢ id) rows
      → All (λ (r : Asset). HasIn user r.id db.assets) rows
      → All (λ (r : Asset). HasIn user r.id (written id db).assets) rows
  HasIn-written id rows db =
      All-zip (λ (r : Asset). r.id ≢ id) (λ (r : Asset). HasIn user r.id db.assets)
        (λ (r : Asset). HasIn user r.id (written id db).assets) rows
        (λ r ne h.
          any-step user c (λ a. record (f db.clock a) { updated_at = db.clock }) matches
            (keeps_id db.clock) (leaves db.clock) id r.id db.assets ne h)

  Ready-written :
      (r : Asset) (rows : List Asset) (db : Db) → Ready (r ∷ rows) db → Ready rows (written r.id db)
  Ready-written r rows db h = record {
    distinct = h.distinct.1;
    there = HasIn-written r.id rows db h.distinct.0 h.there.1;
    keyed =
        subst Keyed
          (sym
            (identities-update_where user _ _ (keeps_id db.clock) (keeps_owner db.clock) db.assets))
          h.keyed;
  }

  number-written :
      (r : Asset) (rows : List Asset) (db : Db)
      → Ready (r ∷ rows) db
      → suc (number user (written r.id db).assets) ≡ number user db.assets
  number-written r rows db h =
      number-step user c _ matches (keeps_id db.clock) (leaves db.clock) r.id db.assets h.keyed
        h.there.0

  Ready-free :
      (rows : List Asset) (db : Db) (later : List Bool)
      → Ready rows db
      → Ready rows (record db { outages = later })
  Ready-free rows db later h = record { distinct = h.distinct; there = h.there; keyed = h.keyed }

  Ready-rest : (r : Asset) (rows : List Asset) (db : Db) → Ready (r ∷ rows) db → Ready rows db
  Ready-rest r rows db h = record { distinct = h.distinct.1; there = h.there.1; keyed = h.keyed }

  -- One statement, then the rest of the loop.
  row-Counted :
      (r : Asset) (rows : List Asset) (n : ℕ) (db : Db) (outages : List Bool)
      → Ready (r ∷ rows) db
      → ((k : ℕ) (next : Db) → Ready rows next → Counted user next k (each_counted act rows k next))
      → Counted user db n (
          continue
            (settle (attempt outages (update_assets (λ a. a.id == r.id && c a) f) db))
            (λ done. each_counted act rows (if done then n + 1 else n)))
  row-Counted r rows n db [] h again =
      Counted-one user _ _ n _
        (number-written r rows (record db { outages = [] }) (Ready-free _ db [] h))
        (again (n + 1) _ (Ready-written r rows _ (Ready-free _ db [] h)))
  row-Counted r rows n db (true ∷ later) h again =
      Counted-same user _ _ n _ refl (again n _ (Ready-free rows db later (Ready-rest r rows db h)))
  row-Counted r rows n db (false ∷ later) h again =
      Counted-one user _ _ n _
        (number-written r rows (record db { outages = later }) (Ready-free _ db later h))
        (again (n + 1) _ (Ready-written r rows _ (Ready-free _ db later h)))

  -- Whatever statements fail, the loop counts the assets that have left the trash.
  pub each-Counted :
      (rows : List Asset) (n : ℕ) (db : Db)
      → Ready rows db
      → Counted user db n (each_counted act rows n db)
  unfolding each_counted succeeds statement
  each-Counted [] n db h = Counted-none user n db
  each-Counted (r ∷ rows) n db h =
      row-Counted r rows n db db.outages h (λ k next g. each-Counted rows k next g)

  -- Without outages it counts every row of the listing.
  pub each_calm :
      (rows : List Asset) (n : ℕ) (db : Db)
      → db.outages ≡ []
      → (final : Db) × (each_counted act rows n db ≡ ok (n + length rows) final)
  unfolding each_counted succeeds statement
  each_calm [] n db h = (db, ap (λ k. ok k db) (omega arith))
  each_calm (r ∷ rows) n db h =
      let (final, e) = each_calm rows (n + 1) (record (written r.id db) { outages = [] }) refl in
      (final, rw (h, e) (ap (λ k. ok k final) (omega arith)))
