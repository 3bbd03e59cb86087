-- ===== src/Downloads.antt =====
-- internal/download/service.go: single files and ZIP archives of the assets that a user may see.
--
-- User ids arrive parsed. `DownloadLib` has what the service takes from Go's libraries and from the
-- storage: a file that cannot be read gives `none`. The archive is the list of its entries in order,
-- one whose file cannot be read being empty; an interrupted copy is not told from a whole one. An
-- int64 is its bits, and a zero `time.Time` is NULL.
pub mod Access
pub mod Names
pub mod Archives
mod Tests
use Prim.Native.String.{slice, len}
use immich_go_backend.Base.{
  ℕ, zero, suc, ◌+◌, ◌-◌, ◌*◌, ◌%◌, ◌^◌, String, ◌<>◌, Bool, true, false, ◌&&◌, ◌||◌, Option, none,
  some, List, [], ◌∷◌, map, length, ◌==◌, ◌=ₛ◌, if◌then◌else◌, any,
}
use immich_go_backend.Db.{
  Asset, Album, Db, Outcome, ok, err, M, continue, ◌>>=◌, ◌>>◌, return, fail, wrap, need, check,
  UuidLib,
}
use immich_go_backend.Db.Assets.{get_asset, is_among}
use immich_go_backend.Db.Albums.{
  check_asset_shared_with_user, get_album_assets, get_album, get_album_shared_users,
  get_exif_by_asset_id,
}

pub record DownloadLib : Type 0 where
  pub uuids : UuidLib
  -- `filepath.Ext`, `%d`, `path.Join` of the year, the month and a name of a time
  pub ext : String → String
  pub itoa : ℕ → String
  pub join_date : ℕ → String → String
  -- the truncated product of a size and 0.95
  pub estimate : ℕ → ℕ
  -- the storage, and whether the archive takes an entry of a name
  pub read : String → Option String
  pub presign : String → ℕ → Option String
  pub takes : String → Bool

pub record DownloadInfo : Type 0 where
  pub total_size : ℕ
  pub archive_size : ℕ
  pub asset_count : ℕ
  pub asset_ids : List String

pub record DownloadRequest : Type 0 where
  pub asset_ids : List String
  pub album_id : Option String

pub record Entry : Type 0 where
  pub name : String
  pub content : Option String

-- `if err != nil || !access`
abbrev pub granted : Outcome Bool → Outcome Bool
granted (ok b db) = ok b db
granted (err e db) = ok false db

unfoldable pub check_shared_access : ℕ → ℕ → M Bool
check_shared_access user asset =
    wrap "failed to check asset access" (check_asset_shared_with_user asset user)

unfoldable pub user_can_access_asset : ℕ → Asset → M Bool
user_can_access_asset user asset =
    if asset.owner_id == user then return true else check_shared_access user asset.id

unfoldable pub can_access : ℕ → Asset → M Bool
can_access user asset db = granted (user_can_access_asset user asset db)

unfoldable pub get_accessible_asset : ℕ → ℕ → M Asset
get_accessible_asset user id = do
  asset ← wrap "asset not found" (get_asset id)
  access ← can_access user asset
  check access "access denied"
  return asset

-- The asset, or nothing on an error.
abbrev pub found_or_not : Outcome Asset → Outcome (Option Asset)
found_or_not (ok a db) = ok (some a) db
found_or_not (err e db) = ok none db

unfoldable pub try_asset : ℕ → Option ℕ → M (Option Asset)
try_asset user none db = ok none db
try_asset user (some id) db = found_or_not (get_accessible_asset user id db)

abbrev pub add_found : Option Asset → List Asset → List Asset
add_found none rest = rest
add_found (some a) rest = a ∷ rest

-- The assets of an album that the user may see.
unfoldable pub accessible_of : ℕ → List Asset → M (List Asset)
accessible_of user [] = return []
accessible_of user (a ∷ assets) = can_access user a >>= λ access.
    accessible_of user assets >>= λ rest. return (if access then a ∷ rest else rest)

unfoldable pub check_album_access : ℕ → ℕ → M Bool
check_album_access user album =
    get_album_shared_users album >>= λ users. return (is_among users user)

unfoldable pub user_can_access_album : ℕ → Album → M Bool
user_can_access_album user album db =
    if album.owner_id == user then ok true db else granted (check_album_access user album.id db)

module _ (lib : DownloadLib) where
  unfoldable pub resolve_each : ℕ → List String → M (List Asset)
  resolve_each user [] = return []
  resolve_each user (s ∷ ids) = try_asset user (lib.uuids.parse s) >>= λ found.
      resolve_each user ids >>= λ rest. return (add_found found rest)

  unfoldable pub resolve_album_download_assets : ℕ → String → M (List Asset)
  resolve_album_download_assets user album_id = do
    id ← need "invalid album ID" (lib.uuids.parse album_id)
    assets ← wrap "failed to get album assets" (get_album_assets id)
    accessible_of user assets

  abbrev pub resolve_by : ℕ → List String → Option String → M (List Asset)
  resolve_by user ids none = resolve_each user ids
  resolve_by user ids (some id) = resolve_album_download_assets user id

  unfoldable pub resolve_download_assets : ℕ → DownloadRequest → M (List Asset)
  resolve_download_assets user req = resolve_by user req.asset_ids req.album_id

  abbrev pub size_or_estimate : Outcome (ℕ × Option ℕ) → Outcome ℕ
  size_or_estimate (ok (asset, some n) db) = ok n db
  size_or_estimate (ok (asset, none) db) = ok (1024 * 1024) db
  size_or_estimate (err e db) = ok (1024 * 1024) db

  unfoldable pub asset_download_size : Asset → M ℕ
  asset_download_size asset db = size_or_estimate (get_exif_by_asset_id asset.id db)

  unfoldable pub sum_sizes : List Asset → ℕ → M ℕ
  sum_sizes [] total = return total
  sum_sizes (a ∷ assets) total =
      asset_download_size a >>= λ n. sum_sizes assets ((total + n) % 2 ^ 64)

  unfoldable pub get_download_info : ℕ → DownloadRequest → M DownloadInfo
  get_download_info user req = do
    assets ← resolve_download_assets user req
    total ← sum_sizes assets 0
    return (record {
      total_size = total;
      archive_size = lib.estimate total;
      asset_count = length assets;
      asset_ids = map (λ a. lib.uuids.format a.id) assets;
    })

  unfoldable pub asset_storage_path : Asset → String
  asset_storage_path a =
      if a.original_path =ₛ ""
      then lib.uuids.format a.id <> ("/" <> a.original_file_name)
      else a.original_path

  unfoldable pub download_asset : ℕ → ℕ → M (String × String)
  download_asset user id = do
    asset ← get_accessible_asset user id
    content ← need "failed to get file" (lib.read (asset_storage_path asset))
    return (
      content,
      if asset.original_file_name =ₛ ""
          then lib.uuids.format id <> ".jpg"
          else asset.original_file_name,
    )

  abbrev pub or_else : Option String → Option String → Option String
  or_else none b = b
  or_else (some a) b = some a

  unfoldable pub get_thumbnail : ℕ → ℕ → String → M (String × String)
  get_thumbnail user id size = do
    asset ← get_accessible_asset user id
    content ← need "failed to get thumbnail" (
        or_else (lib.read ("thumbnails/" <> (lib.uuids.format id <> ("/" <> (size <> ".webp")))))
          (lib.read (asset_storage_path asset)))
    return (content, "image/webp")

  unfoldable pub get_presigned_url : ℕ → ℕ → ℕ → M String
  get_presigned_url user id expiry = do
    asset ← get_accessible_asset user id
    need "failed to generate presigned URL" (lib.presign (asset_storage_path asset) expiry)

  unfoldable pub generate_archive_path : Asset → String
  generate_archive_path a =
      if a.original_file_name =ₛ ""
      then lib.uuids.format a.id <> (if a.kind =ₛ "VIDEO" then ".mp4" else ".jpg")
      else lib.join_date (date a.file_created_at) a.original_file_name
    where
      date : Option ℕ → ℕ
      date none = a.created_at
      date (some t) = t

  -- `fmt.Sprintf("%s_%d%s", name, counter, ext)`
  unfoldable pub numbered : String → ℕ → String
  numbered base counter =
      let ext = lib.ext base in
      (slice base 0 (len base - len ext) <> "_") <> (lib.itoa counter <> ext)

  -- The loop for an unused name; `none` where it has not ended within the rounds.
  unfoldable pub unique_name : ℕ → List String → String → ℕ → String → Option String
  unique_name zero added base counter path = none
  unique_name (suc rounds) added base counter path =
      let rest = unique_name rounds added base (counter + 1) (numbered base counter) in
      if any (λ t. t =ₛ path) added then rest else some path

  abbrev pub add_entry : Bool → Entry → Option (List Entry) → Option (List Entry)
  add_entry takes e none = none
  add_entry false e (some rest) = some rest
  add_entry true e (some rest) = some (e ∷ rest)

  abbrev pub archive_next :
      Option String → (String → Option (List Entry)) → Option String → Option (List Entry)
  archive_next none rest content = none
  archive_next (some name) rest content =
      add_entry (lib.takes name) (record { name = name; content = content }) (rest name)

  -- The loop over the assets, with the names already in use.
  unfoldable pub archive_all : List String → List Asset → Option (List Entry)
  archive_all added [] = some []
  archive_all added (a ∷ assets) =
      let path = generate_archive_path a in
      archive_next (unique_name (length added + 2) added path 1 path)
        (λ name. archive_all (name ∷ added) assets) (lib.read (asset_storage_path a))

  unfoldable pub download_archive : ℕ → DownloadRequest → M (Option (List Entry))
  download_archive user req = do
    assets ← wrap "failed to get download assets" (resolve_download_assets user req)
    return (archive_all [] assets)

  unfoldable pub download_album : ℕ → ℕ → M (Option (List Entry))
  download_album user id = do
    album ← wrap "album not found" (get_album id)
    access ← user_can_access_album user album
    check access "access denied"
    download_archive user (record { asset_ids = []; album_id = some (lib.uuids.format id) })
