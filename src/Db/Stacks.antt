-- ===== src/Db/Stacks.antt =====
-- The statements on `asset_stack` in internal/db/sqlc/queries.sql.go, with the constraints of
-- sqlc/schema.sql: the primary key, UNIQUE ("primaryAssetId"), the reference of "primaryAssetId" to
-- `assets`, and that of `assets`."stackId", which is ON DELETE SET NULL.
use immich_go_backend.Base.{
  ℕ, Bool, true, false, not, ◌&&◌, ◌||◌, Option, none, some, List, ◌∷◌, map, ◌==◌, if◌then◌else◌,
  select, any, take, drop, length,
}
use immich_go_backend.Base.Int.{ℤ, pos}
use immich_go_backend.Db.{Asset, AssetStack, Db, M, ok, err, no_rows, conflict, refused, statement}
use immich_go_backend.Db.Assets.{find, update_where, sort_by, is_null, is_among, row, update_assets}

abbrev pub is_some : Option ℕ → ℕ → Bool
is_some none id = false
is_some (some s) id = s == id

-- The asset is in the stack and not deleted.
abbrev pub is_member : ℕ → Asset → Bool
is_member id a = is_some a.stack_id id && is_null a.deleted_at

abbrev pub has_stack_id : ℕ → AssetStack → Bool
has_stack_id id s = s.id == id

abbrev pub has_primary : ℕ → AssetStack → Bool
has_primary asset s = s.primary_asset_id == asset

abbrev pub has_asset_id : ℕ → Asset → Bool
has_asset_id id a = a.id == id

abbrev pub set_stack : Option ℕ → ℕ → Asset → Asset
set_stack id now a = record a { stack_id = id }

unfoldable pub get_stack_row : ℕ → M AssetStack
get_stack_row id = statement λ db. row (find (has_stack_id id) db.stacks) db

-- A stack with the number of its assets.
abbrev pub with_count : Db → AssetStack → AssetStack × ℕ
with_count db s = (s, length (select (is_member s.id) db.assets))

abbrev pub counted : Db → Option AssetStack → Option (AssetStack × ℕ)
counted db none = none
counted db (some s) = some (with_count db s)

unfoldable pub get_stack_with_assets : ℕ → M (AssetStack × ℕ)
get_stack_with_assets id = statement λ db. row (counted db (find (has_stack_id id) db.stacks)) db

unfoldable pub get_stack_assets : ℕ → M (List Asset)
get_stack_assets id =
    statement λ db. ok (sort_by (λ a. a.local_date_time) (select (is_member id) db.assets)) db

abbrev pub insert_stack : Bool → AssetStack → M AssetStack
insert_stack true stack db = ok stack (record db { stacks = stack ∷ db.stacks })
insert_stack false stack db = err conflict db

-- The database generates the new id.
unfoldable pub create_stack_row : ℕ → ℕ → ℕ → M AssetStack
create_stack_row id primary owner = statement λ db.
    insert_stack
      (not (any (has_stack_id id) db.stacks || any (has_primary primary) db.stacks)
        && any (has_asset_id primary) db.assets)
      (record { id = id; primary_asset_id = primary; owner_id = owner }) db

unfoldable pub add_assets_to_stack_rows : ℕ → List ℕ → M (Unit {0})
add_assets_to_stack_rows id ids = statement λ db.
    if any (has_stack_id id) db.stacks
    then update_assets (λ a. is_among ids a.id && is_null a.deleted_at) (set_stack (some id)) db
    else if any (λ a. is_among ids a.id && is_null a.deleted_at) db.assets
    then err conflict db
    else ok tt db

abbrev pub set_primary : ℕ → AssetStack → AssetStack
set_primary asset s = record s { primary_asset_id = asset }

abbrev pub write_primary : Bool → ℕ → ℕ → Option AssetStack → M AssetStack
write_primary allowed id primary none db = err no_rows db
write_primary true id primary (some s) db =
    ok (set_primary primary s)
      (record db { stacks = update_where (has_stack_id id) (set_primary primary) db.stacks })
write_primary false id primary (some s) db = err conflict db

unfoldable pub update_stack_primary_asset : ℕ → ℕ → M AssetStack
update_stack_primary_asset id primary = statement λ db.
    write_primary
      (not (any (λ s. has_primary primary s && not (has_stack_id id s)) db.stacks)
        && any (has_asset_id primary) db.assets)
      id primary (find (has_stack_id id) db.stacks) db

unfoldable pub clear_stack_assets : ℕ → M (Unit {0})
clear_stack_assets id = statement (update_assets (is_member id) (set_stack none))

abbrev pub refers : (ℕ → Bool) → Option ℕ → Bool
refers p none = false
refers p (some s) = p s

-- ON DELETE SET NULL updates the assets of the deleted stacks, deleted assets included.
abbrev pub delete_stacks_where : (ℕ → Bool) → M (Unit {0})
delete_stacks_where p db = ok tt (record db {
  stacks = select (λ s. not (p s.id)) db.stacks;
  assets =
      update_where (λ a. refers p a.stack_id)
        (λ a. record a { stack_id = none; updated_at = db.clock }) db.assets;
})

unfoldable pub delete_stack_row : ℕ → M (Unit {0})
delete_stack_row id = statement (delete_stacks_where (λ s. s == id))

unfoldable pub delete_stacks_by_ids : List ℕ → M (Unit {0})
delete_stacks_by_ids ids = statement (delete_stacks_where (is_among ids))

abbrev pub has_primary_of : Option ℕ → AssetStack → Bool
has_primary_of none s = true
has_primary_of (some asset) s = has_primary asset s

abbrev pub stacks_of : Db → ℕ → Option ℕ → List (AssetStack × ℕ)
stacks_of db owner primary =
    sort_by (λ s. s.0.id)
      (map (with_count db)
        (select (λ s. s.owner_id == owner && has_primary_of primary s) db.stacks))

-- LIMIT and OFFSET, which must not be negative.
abbrev pub page : {A : Type 0} → ℤ → ℤ → List A → M (List A)
page (pos limit) (pos offset) rows db = ok (take limit (drop offset rows)) db
page _ _ rows db = err refused db

unfoldable pub search_stack_rows : ℕ → ℤ → ℤ → Option ℕ → M (List (AssetStack × ℕ))
search_stack_rows owner limit offset primary =
    statement λ db. page limit offset (stacks_of db owner primary) db

unfoldable pub get_user_stack_rows : ℕ → ℤ → ℤ → M (List (AssetStack × ℕ))
get_user_stack_rows owner limit offset =
    statement λ db. page limit offset (stacks_of db owner none) db

unfoldable pub remove_assets_from_stack_rows : List ℕ → M (Unit {0})
remove_assets_from_stack_rows ids =
    statement (update_assets (λ a. is_among ids a.id && is_null a.deleted_at) (set_stack none))
