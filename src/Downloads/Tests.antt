-- ===== src/Downloads/Tests.antt =====
-- Two users with photos and a shared album, and the theorems of Downloads at concrete inputs.
use immich_go_backend.Base.{
  ℕ, ◌≡◌, refl, String, ◌<>◌, true, Option, none, some, List, [], ◌∷◌, map, ◌=ₛ◌, if◌then◌else◌,
}
use immich_go_backend.Base.Strokes.{strokes, strokes-inj}
use immich_go_backend.Db.{active, Asset, Db, Outcome, ok, err, wrap, statement, check}
use immich_go_backend.Db.Assets.{get_asset}
use immich_go_backend.Db.Albums.{check_asset_shared_with_user}
use immich_go_backend.Db.Triples.{Post}
use immich_go_backend.Db.Rows.{All}
use immich_go_backend.Downloads.{
  DownloadLib, DownloadRequest, Entry, resolve_download_assets, download_archive, download_asset,
  get_thumbnail, get_presigned_url, numbered, resolve_each, try_asset, get_accessible_asset,
  can_access, user_can_access_asset, check_shared_access, archive_all, unique_name,
  generate_archive_path,
}
use immich_go_backend.Downloads.Access.{
  Visible, Sees, resolve_download_assets-Visible, single_downloads-Sees,
}
use immich_go_backend.Downloads.Names.{IsDownloadLib}
use immich_go_backend.Downloads.Archives.{Archive, download_archive-Archive}

abbrev files : DownloadLib
files = record {
  uuids = record {
    parse = λ s.
        if s =ₛ "10"
        then some 10
        else if s =ₛ "12"
        then some 12
        else if s =ₛ "13"
        then some 13
        else none;
    format = strokes;
  };
  ext = λ s. ".jpg";
  itoa = strokes;
  join_date = λ t name. "2024/" <> name;
  estimate = λ n. n;
  read = λ path. some path;
  presign = λ path expiry. some path;
  takes = λ name. true;
}

files-IsDownloadLib : IsDownloadLib files
files-IsDownloadLib = record { itoa-inj = strokes-inj }

numbered_test : numbered files "2024/photo.jpg" 2 ≡ "2024/photo_xx.jpg"
unfolding numbered
numbered_test = refl

abbrev photo : ℕ → ℕ → Asset
photo id owner = record {
  id = id;
  owner_id = owner;
  device_id = "phone";
  original_path = "/photo";
  kind = "IMAGE";
  updated_at = id;
  created_at = id;
  file_created_at = none;
  original_file_name = "photo.jpg";
  deleted_at = none;
  local_date_time = id;
  stack_id = none;
  status = active;
}

-- User 1 owns asset 10, user 2 assets 12 and 13, of which 12 is in an album shared with user 1.
abbrev galleries : Db
galleries = record {
  users = 1 ∷ 2 ∷ [];
  albums = record { id = 30; owner_id = 2; deleted_at = none } ∷ [];
  album_assets = record { album_id = 30; asset_id = 12; created_at = 5 } ∷ [];
  album_users = (30, 1) ∷ [];
  exif_sizes = [];
  assets = photo 10 1 ∷ photo 12 2 ∷ photo 13 2 ∷ [];
  stacks = [];
  links = [];
  link_assets = [];
  workflows = [];
  executions = [];
  clock = 100;
  outages = [];
}

abbrev three : DownloadRequest
three = record { asset_ids = "10" ∷ "12" ∷ "13" ∷ []; album_id = none }

-- User 1 gets two entries, since asset 13 is not shared; their names differ.
abbrev names_of : Outcome (Option (List Entry)) → List String
names_of (ok (some entries) db) = map (λ (e : Entry). e.name) entries
names_of (ok none db) = []
names_of (err e db) = []

download_archive_test :
    names_of (download_archive files 1 three galleries)
    ≡ ("2024/photo.jpg" ∷ "2024/photo_x.jpg" ∷ [])
unfolding download_archive wrap resolve_download_assets resolve_each try_asset get_accessible_asset
    get_asset statement can_access user_can_access_asset check check_shared_access
    check_asset_shared_with_user archive_all unique_name generate_archive_path numbered
download_archive_test = refl

download_archive-Archive_example :
    Post (λ r final. Archive [] r) (λ final. Unit) (download_archive files 1 three galleries)
download_archive-Archive_example =
    download_archive-Archive files 1 three galleries files-IsDownloadLib

resolve_download_assets-Visible_example :
    Post
      (λ assets final. All (Visible galleries 1) assets)
      (λ final. Unit)
      (resolve_download_assets files 1 three galleries)
resolve_download_assets-Visible_example = resolve_download_assets-Visible files 1 three galleries

single_downloads-Sees_example :
    Post (λ r final. Sees 1 galleries 12) (λ final. Unit) (download_asset files 1 12 galleries)
    × Post
        (λ r final. Sees 1 galleries 12)
        (λ final. Unit)
        (get_thumbnail files 1 12 "preview" galleries)
    × Post
        (λ r final. Sees 1 galleries 12)
        (λ final. Unit)
        (get_presigned_url files 1 12 60 galleries)
single_downloads-Sees_example = single_downloads-Sees files 1 12 60 "preview" galleries
