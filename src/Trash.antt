-- ===== src/Trash.antt =====
-- internal/trash/service.go: moving assets to the trash, restoring them and deleting them for good.
--
-- User and asset ids arrive as texts; `uuid.Parse` is a parameter. A row in a reply keeps its id as
-- a text. The wrapped cause of an error is dropped and its message kept.
pub mod Requests
pub mod Ownership
pub mod Isolation
pub mod Histories
pub mod Accounting
pub mod Totals
pub mod Recovery
pub mod Server
mod Tests
use immich_go_backend.Base.{
  ℕ, ◌+◌, String, Bool, true, false, Option, none, some, List, [], ◌∷◌, map, length, ◌==◌,
  if◌then◌else◌,
}
use immich_go_backend.Db.{
  Asset, Db, M, ok, continue, ◌>>=◌, ◌>>◌, return, fail, wrap, succeeds, need, check, UuidLib,
}
use immich_go_backend.Db.Assets.{
  get_asset, get_trashed_assets_by_user, move_asset_to_trash, move_assets_to_trash,
  restore_asset_from_trash, restore_assets, permanently_delete_asset,
}

pub record TrashedAsset : Type 0 where
  pub id : String
  pub device_id : String
  pub original_path : String
  pub kind : String

-- The statement on each row of a listing, and how many of them succeeded.
unfoldable pub each_counted : (ℕ → M (Unit {0})) → List Asset → ℕ → M ℕ
each_counted act [] count = return count
each_counted act (asset ∷ rest) count =
    succeeds (act asset.id) >>= λ done. each_counted act rest (if done then count + 1 else count)

-- The two operations on a list of ids, over their statement.
unfoldable pub batch : (List ℕ → ℕ → M (Unit {0})) → String → List ℕ → ℕ → M ℕ
batch act message [] user = return 0
batch act message (id ∷ ids) user = wrap message (act (id ∷ ids) user) >> return (length (id ∷ ids))

module _ (u : UuidLib) where
  to_trashed_asset : Asset → TrashedAsset
  to_trashed_asset asset = record {
    id = u.format asset.id;
    device_id = asset.device_id;
    original_path = asset.original_path;
    kind = asset.kind;
  }

  unfoldable pub get_trashed_assets : String → M (List TrashedAsset)
  unfolding to_trashed_asset
  get_trashed_assets user_id = do
    user ← need "invalid user ID" (u.parse user_id)
    assets ← wrap "failed to get trashed assets" (get_trashed_assets_by_user user)
    return (map to_trashed_asset assets)

  -- The first half of the operations on one asset: the ids are parsed and the owner is checked.
  unfoldable pub owned_asset : String → String → M ℕ
  owned_asset user_id asset_id = do
    uid ← need "invalid user ID" (u.parse user_id)
    aid ← need "invalid asset ID" (u.parse asset_id)
    asset ← wrap "asset not found" (get_asset aid)
    check (asset.owner_id == uid) "access denied: asset does not belong to user"
    return aid

  unfoldable pub trash_asset : String → String → M (Unit {0})
  trash_asset user_id asset_id = do
    aid ← owned_asset user_id asset_id
    wrap "failed to trash asset" (move_asset_to_trash aid)

  unfoldable pub restore_asset : String → String → M (Unit {0})
  restore_asset user_id asset_id = do
    aid ← owned_asset user_id asset_id
    wrap "failed to restore asset" (restore_asset_from_trash aid)

  unfoldable pub permanently_delete : String → String → M (Unit {0})
  permanently_delete user_id asset_id = do
    aid ← owned_asset user_id asset_id
    wrap "failed to permanently delete asset" (permanently_delete_asset aid)

  -- Ids that do not parse are skipped.
  unfoldable pub parse_all : List String → List ℕ
  parse_all [] = []
  parse_all (s ∷ rest) =
      let ids = parse_all rest in elim (u.parse s) [ none ↦ ids | some id ↦ id ∷ ids ]

  unfoldable pub trash_assets : String → List String → M ℕ
  unfolding batch parse_all
  trash_assets user_id asset_ids = do
    user ← need "invalid user ID" (u.parse user_id)
    batch move_assets_to_trash "failed to trash assets" (parse_all asset_ids) user

  unfoldable pub restore_assets_of : String → List String → M ℕ
  unfolding batch parse_all
  restore_assets_of user_id asset_ids = do
    user ← need "invalid user ID" (u.parse user_id)
    batch restore_assets "failed to restore assets" (parse_all asset_ids) user

  unfoldable pub restore_all_assets : String → M ℕ
  restore_all_assets user_id = do
    user ← need "invalid user ID" (u.parse user_id)
    assets ← wrap "failed to get trashed assets" (get_trashed_assets_by_user user)
    each_counted restore_asset_from_trash assets 0

  unfoldable pub empty_trash : String → M ℕ
  empty_trash user_id = do
    user ← need "invalid user ID" (u.parse user_id)
    assets ← wrap "failed to get trashed assets" (get_trashed_assets_by_user user)
    each_counted permanently_delete_asset assets 0
