-- ===== src/Trash/Recovery.antt =====
-- TrashAsset followed by RestoreAsset of internal/trash/service.go.
use immich_go_backend.Base.{
  ℕ, ◌≡◌, refl, ap, ◌≢◌, inl, inr, String, Bool, true, false, ◌&&◌, some, List, [], ◌∷◌, arith,
  ◌==◌, Bool-cases,
}
use immich_go_backend.Db.{
  after, active, trashed, Asset, Db, ok, need, wrap, check, statement, UuidLib,
}
use immich_go_backend.Db.Assets.{
  find, update_where, is_null, is_live, same_asset_status, set_status, get_asset,
  move_asset_to_trash, restore_asset_from_trash,
}
use immich_go_backend.Db.Rows.{All, identities, Keyed, find-All}
use immich_go_backend.Trash.{owned_asset, trash_asset, restore_asset}

-- What the two UPDATEs write, at a time.
abbrev binned : ℕ → Asset → Asset
binned now a = record (set_status trashed now a) { updated_at = now }

abbrev pub revived : ℕ → Asset → Asset
revived now a = record (set_status active now a) { updated_at = now }

abbrev is_binned : ℕ → Asset → Bool
is_binned id a = a.id == id && same_asset_status a.status trashed

module _ (id now : ℕ) where
  -- No row with the id: neither statement changes anything.
  absent :
      (xs : List Asset)
      → All (λ (i : ℕ × ℕ). i.0 ≢ id) (identities xs)
      → update_where (is_binned id) (revived now) (update_where (is_live id) (binned now) xs)
        ≡ update_where (is_live id) (revived now) xs
  absent [] h = refl
  absent (a ∷ xs) (h, hs) =
      let miss : (a.id == id) ≡ false = ground arith in rw (miss, miss, absent xs hs) refl

  -- A row with the id before the one that is found has its id too.
  not_before :
      (x a : Asset) (xs : List Asset)
      → Keyed (identities (x ∷ xs))
      → find (is_live id) xs ≡ some a
      → (x.id == id) ≡ false
  not_before x a xs (k, ks) e = elim (Bool-cases (x.id == id)) [
    | inl q ↦
        let (ne, live) = find-All (λ (i : ℕ × ℕ). i.0 ≢ x.id) (is_live id) xs k e in
        let same : a.id ≡ x.id = ground arith in absurd (ne same)
    | inr q ↦ q
  ]

  update_where-update_where :
      (xs : List Asset) (a : Asset)
      → Keyed (identities xs)
      → find (is_live id) xs ≡ some a
      → update_where (is_binned id) (revived now) (update_where (is_live id) (binned now) xs)
        ≡ update_where (is_live id) (revived now) xs
  update_where-update_where [] a k e = cc
  update_where-update_where (x ∷ xs) a k e = elim (Bool-cases (is_live id x)) [
    | inl q ↦
        let hit : (x.id == id) ≡ true = ground arith in
        let at : x.id ≡ id = ground arith in
        let away : All (λ (i : ℕ × ℕ). i.0 ≢ id) (identities xs) = rw (← at) k.0 in
        let alive : is_null x.deleted_at ≡ true = ground arith in
        rw (hit, alive, hit, absent xs away) refl
    | inr q ↦
        let later : find (is_live id) xs ≡ some a = rw q at e in
        let miss = not_before x a xs k later in
        rw (miss, miss, update_where-update_where xs a k.1 later) refl
  ]

  find-update_where :
      (xs : List Asset) (a : Asset)
      → find (is_live id) xs ≡ some a
      → find (is_live id) (update_where (is_live id) (binned now) xs) ≡ some (binned now a)
  find-update_where [] a e = cc
  find-update_where (x ∷ xs) a e = elim (Bool-cases (is_live id x)) [
    | inl q ↦
        let same : some x ≡ some a = rw q at e in
        let x≡a : x ≡ a = cc in
        let hit : (x.id == id) ≡ true = ground arith in
        let alive : is_null x.deleted_at ≡ true = ground arith in
        rw (hit, alive, hit, alive) (ap (λ t. some (binned now t)) x≡a)
    | inr q ↦
        let later : find (is_live id) xs ≡ some a = rw q at e in
        rw (q, q) (find-update_where xs a later)
  ]

-- An asset in use that its owner puts in the trash and then restores is as it was, but for the time
-- of its last change, and so is every other row; both calls succeed. There are no outages, the ids
-- parse, the ids of the assets are distinct, and the asset is in use and its owner's.
pub restore_asset-trash_asset :
    (u : UuidLib) (user_id asset_id : String) (user id : ℕ) (asset : Asset) (db : Db)
    → u.parse user_id ≡ some user
    → u.parse asset_id ≡ some id
    → Keyed (identities db.assets)
    → find (is_live id) db.assets ≡ some asset
    → asset.owner_id ≡ user
    → db.outages ≡ []
    → restore_asset u user_id asset_id (after (trash_asset u user_id asset_id db))
      ≡ ok tt (record db {
        assets = update_where (is_live id) (revived db.clock) db.assets;
        outages = [];
      })
unfolding restore_asset trash_asset owned_asset need wrap get_asset move_asset_to_trash
    restore_asset_from_trash statement check
restore_asset-trash_asset u user_id asset_id user id asset db e f keyed found own calm =
    let mine : (asset.owner_id == user) ≡ true = ground arith in
    rw (e, f, calm, found, mine, find-update_where id db.clock db.assets asset found, mine)
      (ap (λ xs. ok tt (record db { assets = xs; outages = [] }))
        (update_where-update_where id db.clock db.assets asset keyed found))
