-- ===== src/Trash/Tests.antt =====
-- The trash with two users, and the theorems of Trash at concrete inputs.
use immich_go_backend.Db.Assets.{update_where, is_live}
use immich_go_backend.Trash.{trash_asset, restore_asset}
use immich_go_backend.Trash.Recovery.{revived, restore_asset-trash_asset}
use immich_go_backend.Base.{
  ℕ, ◌≡◌, refl, true, false, Option, none, some, [], ◌∷◌, arith, ◌==◌, ◌=ₛ◌, if◌then◌else◌,
}
use immich_go_backend.Db.{
  after, active, trashed, Asset, Db, Outcome, ok, err, UuidLib, need, wrap, statement, succeeds,
}
use immich_go_backend.Db.Assets.{
  get_trashed_assets_by_user, restore_asset_from_trash, restore_assets,
}
use immich_go_backend.Db.Rows.{identities, Keyed}
use immich_go_backend.Trash.{restore_all_assets, restore_assets_of, empty_trash, each_counted}
use immich_go_backend.Trash.Requests.{restore_all, empty, trash, perform, perform_all}
use immich_go_backend.Trash.Ownership.{Isolated}
use immich_go_backend.Trash.Histories.{perform-Isolated, perform_all-Untouched, NotBy, rows_of}
use immich_go_backend.Trash.Totals.{
  Accounts, Clears, restore_all_assets-Accounts, restore_all_assets-Clears, empty_trash-Accounts,
  empty_trash-Clears,
}
use immich_go_backend.Trash.Server.{
  Same, server-Same, server_empty_trash, server_restore_trash, server_restore_assets,
}

abbrev uuids : UuidLib
uuids = record {
  parse = λ s.
      if s =ₛ "1"
      then some 1
      else if s =ₛ "2"
      then some 2
      else if s =ₛ "10"
      then some 10
      else if s =ₛ "11"
      then some 11
      else none;
  format = λ n. if n == 1 then "1" else if n == 2 then "2" else if n == 10 then "10" else "11";
}

abbrev photo : ℕ → ℕ → Asset
photo id owner = record {
  id = id;
  owner_id = owner;
  device_id = "phone";
  original_path = "/photo";
  kind = "IMAGE";
  updated_at = id;
  created_at = id;
  file_created_at = none;
  original_file_name = "photo.jpg";
  deleted_at = none;
  local_date_time = id;
  stack_id = none;
  status = active;
}

abbrev binned : ℕ → ℕ → Asset
binned id owner = record (photo id owner) { status = trashed }

-- Users 1 and 2; the second statement to come fails.
abbrev shared : Db
shared = record {
  assets = photo 10 1 ∷ binned 11 1 ∷ binned 12 2 ∷ binned 13 1 ∷ [];
  stacks = [];
  users = 1 ∷ 2 ∷ [];
  albums = [];
  album_assets = [];
  album_users = [];
  exif_sizes = [];
  links = [];
  link_assets = [];
  workflows = [];
  executions = [];
  clock = 100;
  outages = false ∷ true ∷ [];
}

abbrev calm : Db
calm = record shared { outages = [] }

shared-Keyed : Keyed (identities shared.assets)
shared-Keyed = (
  (omega arith, (omega arith, (omega arith, tt))),
  ((omega arith, (omega arith, tt)), ((omega arith, tt), (tt, tt))),
)

-- The number in a result.
abbrev count_of : Outcome ℕ → Option ℕ
count_of (ok n db) = some n
count_of (err e db) = none

-- With an outage one of the two rows stays in the trash and is not counted.
restore_all_assets_test : count_of (restore_all_assets uuids "1" shared) ≡ some 1
unfolding restore_all_assets need wrap get_trashed_assets_by_user statement each_counted succeeds
    restore_asset_from_trash
restore_all_assets_test = refl

-- RestoreAssets counts ids that parse, not rows that change: 10 is not in the trash.
restore_assets_of_test :
    count_of (restore_assets_of uuids "1" ("10" ∷ "x" ∷ "11" ∷ []) calm) ≡ some 2
unfolding restore_assets_of need wrap restore_assets statement
restore_assets_of_test = refl

perform-Isolated_example : Isolated 1 shared (perform uuids "1" empty shared)
perform-Isolated_example = perform-Isolated uuids "1" 1 empty shared refl shared-Keyed

by_the_first : NotBy uuids 2 (("1", empty) ∷ ("1", trash "10") ∷ ("nobody", restore_all) ∷ [])
by_the_first = ((λ e. cc), ((λ e. cc), ((λ e. cc), tt)))

perform_all-Untouched_example :
    rows_of 2
      (perform_all uuids
        (("1", empty) ∷ ("1", trash "10") ∷ ("nobody", restore_all) ∷ [])
        shared).assets
    ≡ rows_of 2 shared.assets
perform_all-Untouched_example =
    perform_all-Untouched uuids 2 (("1", empty) ∷ ("1", trash "10") ∷ ("nobody", restore_all) ∷ [])
      shared by_the_first shared-Keyed

restore_all_assets-Accounts_example : Accounts 1 shared (restore_all_assets uuids "1" shared)
restore_all_assets-Accounts_example =
    restore_all_assets-Accounts uuids "1" 1 shared refl shared-Keyed

restore_all_assets-Clears_example : Clears 1 calm (restore_all_assets uuids "1" calm)
restore_all_assets-Clears_example =
    restore_all_assets-Clears uuids "1" 1 calm refl shared-Keyed refl

empty_trash-Accounts_example : Accounts 1 shared (empty_trash uuids "1" shared)
empty_trash-Accounts_example = empty_trash-Accounts uuids "1" 1 shared refl shared-Keyed

empty_trash-Clears_example : Clears 1 calm (empty_trash uuids "1" calm)
empty_trash-Clears_example = empty_trash-Clears uuids "1" 1 calm refl shared-Keyed refl

server-Same_example :
    Same (server_empty_trash uuids (some "1") shared) (empty_trash uuids "1" shared)
    × Same (server_restore_trash uuids (some "1") shared) (restore_all_assets uuids "1" shared)
    × Same
        (server_restore_assets uuids (some "1") ("10" ∷ "11" ∷ []) shared)
        (restore_assets_of uuids "1" ("10" ∷ "11" ∷ []) shared)
server-Same_example = server-Same uuids "1" ("10" ∷ "11" ∷ []) shared

restore_asset-trash_asset_example :
    restore_asset uuids "1" "10" (after (trash_asset uuids "1" "10" calm))
    ≡ ok tt (record calm {
      assets = update_where (is_live 10) (revived calm.clock) calm.assets;
      outages = [];
    })
restore_asset-trash_asset_example =
    restore_asset-trash_asset uuids "1" "10" 1 10 (photo 10 1) calm refl refl shared-Keyed refl refl
      refl
