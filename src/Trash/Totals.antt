-- ===== src/Trash/Totals.antt =====
-- What RestoreAllAssets and EmptyTrash of internal/trash/service.go return and leave behind.
use immich_go_backend.Base.{
  ℕ, ◌+◌, ◌≡◌, refl, sym, subst, String, Bool, true, false, ◌&&◌, some, List, [], ◌∷◌, arith, ◌==◌,
  length, select,
}
use immich_go_backend.Db.{
  active, trashed, Asset, Db, Outcome, ok, err, M, continue, ◌>>=◌, need, wrap, rewrap, statement,
  attempt, UuidLib,
}
use immich_go_backend.Db.Assets.{
  update_assets, is_trashed_of, same_asset_status, sort_by, get_trashed_assets_by_user,
  restore_asset_from_trash, permanently_delete_asset, set_status, set_deleted,
}
use immich_go_backend.Db.Rows.{identities, Keyed, All-sort_by}
use immich_go_backend.Trash.{restore_all_assets, empty_trash, each_counted}
use immich_go_backend.Trash.Accounting.{
  number, HasIn, HasIn-select, Distinct-select, Distinct-sort_by, length-sort_by,
}
use immich_go_backend.Trash.Accounting.Loop.{Counted, Ready, each-Counted, each_calm}

-- A count and what is left in the trash add up to what was there; an error leaves the trash as it
-- was.
abbrev pub Accounts : ℕ → Db → Outcome ℕ → Type 0
Accounts user db (ok n final) = n + number user final.assets ≡ number user db.assets
Accounts user db (err e final) = final.assets ≡ db.assets

-- Everything in the trash was counted and nothing is left in it.
abbrev pub Clears : ℕ → Db → Outcome ℕ → Type 0
Clears user db (ok n final) = (n ≡ number user db.assets) × (number user final.assets ≡ 0)
Clears user db (err e final) = ⊥

Counted-Accounts : (user : ℕ) (db : Db) (o : Outcome ℕ) → Counted user db 0 o → Accounts user db o
Counted-Accounts user db o h = subst (Accounts user db) (sym h.gives) (omega (arith, h.leaves))

-- The operations on a user's whole trash, over their statement on one asset.
abbrev whole : UuidLib → String → (ℕ → M (Unit {0})) → M ℕ
whole u user_id act = need "invalid user ID" (u.parse user_id) >>= λ user.
    wrap "failed to get trashed assets" (get_trashed_assets_by_user user) >>= λ rows.
    each_counted act rows 0

module _ (user : ℕ) (c : Asset → Bool) (f : ℕ → Asset → Asset)
    (matches : (a : Asset) → is_trashed_of user a ≡ true → c a ≡ true)
    (keeps_id : (n : ℕ) (a : Asset) → (f n a).id ≡ a.id)
    (keeps_owner : (n : ℕ) (a : Asset) → (f n a).owner_id ≡ a.owner_id)
    (leaves : (n : ℕ) (a : Asset) → is_trashed_of user (f n a) ≡ false) where
  abbrev act : ℕ → M (Unit {0})
  act id = statement (update_assets (λ a. a.id == id && c a) f)

  abbrev listing : Db → List Asset
  listing db = sort_by (λ a. a.updated_at) (select (is_trashed_of user) db.assets)

  listing-Ready :
      (db : Db)
      → Keyed (identities db.assets)
      → Ready user c f matches keeps_id keeps_owner leaves (listing db) db
  listing-Ready db keyed = record {
    distinct = Distinct-sort_by _ _ (Distinct-select (is_trashed_of user) db.assets keyed);
    there =
        All-sort_by (λ (r : Asset). HasIn user r.id db.assets) _ _ (HasIn-select user db.assets);
    keyed = keyed;
  }

  loop-Accounts :
      (db : Db)
      → Keyed (identities db.assets)
      → Accounts user db (each_counted act (listing db) 0 db)
  loop-Accounts db keyed = Counted-Accounts user db _ (
      each-Counted user c f matches keeps_id keeps_owner leaves (listing db) 0 db
        (listing-Ready db keyed))

  listed-Accounts :
      (db : Db) (outages : List Bool)
      → Keyed (identities db.assets)
      → Accounts user db (
          continue
            (rewrap "failed to get trashed assets" (attempt outages (λ d. ok (listing d) d) db))
            (λ rows. each_counted act rows 0))
  listed-Accounts db [] keyed = loop-Accounts _ keyed
  listed-Accounts db (true ∷ later) keyed = refl
  listed-Accounts db (false ∷ later) keyed = loop-Accounts _ keyed

  pub whole-Accounts :
      (u : UuidLib) (user_id : String) (db : Db)
      → u.parse user_id ≡ some user
      → Keyed (identities db.assets)
      → Accounts user db (whole u user_id act db)
  unfolding need wrap get_trashed_assets_by_user statement
  whole-Accounts u user_id db parsed keyed = rw parsed (listed-Accounts db db.outages keyed)

  pub whole-Clears :
      (u : UuidLib) (user_id : String) (db : Db)
      → u.parse user_id ≡ some user
      → Keyed (identities db.assets)
      → db.outages ≡ []
      → Clears user db (whole u user_id act db)
  unfolding need wrap get_trashed_assets_by_user statement
  whole-Clears u user_id db parsed keyed calm =
      let d = record db { outages = [] } in
      let (final, e) =
        each_calm user c f matches keeps_id keeps_owner leaves (listing db) 0 d refl in
      let all = loop-Accounts d keyed in
      let len = length-sort_by (λ a. a.updated_at) (select (is_trashed_of user) db.assets) in
      let left : (0 + length (listing db)) + number user final.assets ≡ number user db.assets =
        subst (Accounts user d) e all in
      rw (parsed, calm, e) (omega (arith, len), omega (arith, len, left))

is_trashed_of-set_status :
    (user n : ℕ) (a : Asset) → is_trashed_of user (set_status active n a) ≡ false
is_trashed_of-set_status user n a = ground arith

is_trashed_of-set_deleted : (user n : ℕ) (a : Asset) → is_trashed_of user (set_deleted n a) ≡ false
is_trashed_of-set_deleted user n a = ground arith

&&_true : (b : Bool) → (b && true) ≡ b
&&_true true = refl
&&_true false = refl

-- The statement of EmptyTrash with a condition like that of the others.
delete_act :
    (λ (id : ℕ). statement (update_assets (λ a. a.id == id && true) set_deleted))
    ≡ permanently_delete_asset
unfolding permanently_delete_asset
delete_act = λ i id. statement (update_assets (λ a. &&_true (a.id == id) i) set_deleted)

-- Restoring everything counts exactly the assets that leave the user's trash, whatever statements
-- fail: the count and what is left add up to what was there, and if the listing fails no row has
-- changed. The ids of the assets are distinct and the user's id parses.
pub restore_all_assets-Accounts :
    (u : UuidLib) (user_id : String) (user : ℕ) (db : Db)
    → u.parse user_id ≡ some user
    → Keyed (identities db.assets)
    → Accounts user db (restore_all_assets u user_id db)
unfolding restore_all_assets restore_asset_from_trash
restore_all_assets-Accounts u user_id user db parsed keyed =
    whole-Accounts user (λ a. same_asset_status a.status trashed) (set_status active)
      (λ a e. ground arith) (λ n a. refl) (λ n a. refl) (is_trashed_of-set_status user) u user_id db
      parsed keyed

-- Without outages restoring everything succeeds, counts every asset that was in the user's trash and
-- leaves none there. The ids of the assets are distinct and the user's id parses.
pub restore_all_assets-Clears :
    (u : UuidLib) (user_id : String) (user : ℕ) (db : Db)
    → u.parse user_id ≡ some user
    → Keyed (identities db.assets)
    → db.outages ≡ []
    → Clears user db (restore_all_assets u user_id db)
unfolding restore_all_assets restore_asset_from_trash
restore_all_assets-Clears u user_id user db parsed keyed calm =
    whole-Clears user (λ a. same_asset_status a.status trashed) (set_status active)
      (λ a e. ground arith) (λ n a. refl) (λ n a. refl) (is_trashed_of-set_status user) u user_id db
      parsed keyed calm

-- Emptying the trash counts exactly the assets that leave it, whatever statements fail, and if the
-- listing fails no row has changed. The ids of the assets are distinct and the user's id parses.
pub empty_trash-Accounts :
    (u : UuidLib) (user_id : String) (user : ℕ) (db : Db)
    → u.parse user_id ≡ some user
    → Keyed (identities db.assets)
    → Accounts user db (empty_trash u user_id db)
unfolding empty_trash
empty_trash-Accounts u user_id user db parsed keyed =
    subst (λ act. Accounts user db (whole u user_id act db)) delete_act
      (whole-Accounts user (λ a. true) set_deleted (λ a e. refl) (λ n a. refl) (λ n a. refl)
        (is_trashed_of-set_deleted user) u user_id db parsed keyed)

-- Without outages emptying the trash succeeds, counts every asset that was in it and leaves none
-- there. The ids of the assets are distinct and the user's id parses.
pub empty_trash-Clears :
    (u : UuidLib) (user_id : String) (user : ℕ) (db : Db)
    → u.parse user_id ≡ some user
    → Keyed (identities db.assets)
    → db.outages ≡ []
    → Clears user db (empty_trash u user_id db)
unfolding empty_trash
empty_trash-Clears u user_id user db parsed keyed calm =
    subst (λ act. Clears user db (whole u user_id act db)) delete_act
      (whole-Clears user (λ a. true) set_deleted (λ a e. refl) (λ n a. refl) (λ n a. refl)
        (is_trashed_of-set_deleted user) u user_id db parsed keyed calm)
