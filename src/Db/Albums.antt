-- ===== src/Db/Albums.antt =====
-- The statements on albums that downloads use, in internal/db/sqlc/queries.sql.go.
use immich_go_backend.Base.{
  ℕ, Bool, ◌&&◌, Option, none, some, List, [], ◌∷◌, ◌++◌, ◌==◌, select, any,
}
use immich_go_backend.Db.{Asset, Album, AlbumAsset, Db, M, ok, statement}
use immich_go_backend.Db.Assets.{find, sort_by, is_null, is_live, row}

-- A live album with the asset, shared with the user.
abbrev pub shares : Db → ℕ → ℕ → AlbumAsset → Bool
shares db asset user r =
    r.asset_id == asset
    && (any (λ p. p.0 == r.album_id && p.1 == user) db.album_users
        && any (λ a. a.id == r.album_id && is_null a.deleted_at) db.albums)

abbrev pub is_shared : Db → ℕ → ℕ → Bool
is_shared db asset user = any (shares db asset user) db.album_assets

unfoldable pub check_asset_shared_with_user : ℕ → ℕ → M Bool
check_asset_shared_with_user asset user = statement λ db. ok (is_shared db asset user) db

abbrev pub to_list : {A : Type 0} → Option A → List A
to_list none = []
to_list (some a) = a ∷ []

-- The join of the rows with the live assets.
abbrev pub join_assets : List Asset → List AlbumAsset → List Asset
join_assets assets [] = []
join_assets assets (r ∷ rest) =
    to_list (find (is_live r.asset_id) assets) ++ join_assets assets rest

unfoldable pub get_album_assets : ℕ → M (List Asset)
get_album_assets album = statement λ db.
    ok
      (join_assets db.assets
        (sort_by (λ r. r.created_at) (select (λ r. r.album_id == album) db.album_assets)))
      db

unfoldable pub get_album : ℕ → M Album
get_album id = statement λ db. row (find (λ a. a.id == id && is_null a.deleted_at) db.albums) db

-- The ids of the users.
unfoldable pub get_album_shared_users : ℕ → M (List ℕ)
get_album_shared_users album =
    statement
      λ db. ok (select (λ u. any (λ p. p.0 == album && p.1 == u) db.album_users) db.users) db

abbrev pub size_of : List (ℕ × Option ℕ) → ℕ → Option (ℕ × Option ℕ)
size_of rows asset = find (λ p. p.0 == asset) rows

unfoldable pub get_exif_by_asset_id : ℕ → M (ℕ × Option ℕ)
get_exif_by_asset_id asset = statement λ db. row (size_of db.exif_sizes asset) db
