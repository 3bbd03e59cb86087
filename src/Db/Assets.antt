-- ===== src/Db/Assets.antt =====
-- The statements on `assets` in internal/db/sqlc/queries.sql.go, with the trigger
-- `assets_updated_at`: every UPDATE writes the time of the statement.
use immich_go_backend.Base.{
  ℕ, Bool, true, false, ◌&&◌, Option, none, some, List, [], ◌∷◌, ◌==◌, leb, if◌then◌else◌, select,
  any,
}
use immich_go_backend.Db.{
  AssetStatus, active, trashed, deleted, Asset, M, ok, err, no_rows, statement,
}

abbrev pub find : {A : Type 0} → (A → Bool) → List A → Option A
find p [] = none
find p (x ∷ xs) = let rest = find p xs in if p x then some x else rest

-- UPDATE … SET … WHERE …
abbrev pub update_where : {A : Type 0} → (A → Bool) → (A → A) → List A → List A
update_where p f [] = []
update_where p f (x ∷ xs) = (if p x then f x else x) ∷ update_where p f xs

abbrev pub insert_by : {A : Type 0} → (A → ℕ) → A → List A → List A
insert_by key x [] = x ∷ []
insert_by key x (y ∷ ys) = if leb (key y) (key x) then x ∷ y ∷ ys else y ∷ insert_by key x ys

-- ORDER BY key DESC
abbrev pub sort_by : {A : Type 0} → (A → ℕ) → List A → List A
sort_by key [] = []
sort_by key (x ∷ xs) = insert_by key x (sort_by key xs)

abbrev pub is_null : {A : Type 0} → Option A → Bool
is_null none = true
is_null (some a) = false

abbrev pub same_asset_status : AssetStatus → AssetStatus → Bool
same_asset_status active active = true
same_asset_status trashed trashed = true
same_asset_status deleted deleted = true
same_asset_status _ _ = false

-- id = ANY(…)
abbrev pub is_among : List ℕ → ℕ → Bool
is_among ids id = any (λ i. i == id) ids

abbrev pub row : {A : Type 0} → Option A → M A
row none db = err no_rows db
row (some a) db = ok a db

abbrev pub update_assets : (Asset → Bool) → (ℕ → Asset → Asset) → M (Unit {0})
update_assets p f db = ok tt (record db {
  assets = update_where p (λ a. record (f db.clock a) { updated_at = db.clock }) db.assets;
})

abbrev pub is_live : ℕ → Asset → Bool
is_live id a = a.id == id && is_null a.deleted_at

unfoldable pub get_asset : ℕ → M Asset
get_asset id = statement λ db. row (find (is_live id) db.assets) db

abbrev pub is_trashed_of : ℕ → Asset → Bool
is_trashed_of user a =
    a.owner_id == user && (is_null a.deleted_at && same_asset_status a.status trashed)

unfoldable pub get_trashed_assets_by_user : ℕ → M (List Asset)
get_trashed_assets_by_user user =
    statement λ db. ok (sort_by (λ a. a.updated_at) (select (is_trashed_of user) db.assets)) db

abbrev pub set_status : AssetStatus → ℕ → Asset → Asset
set_status status now a = record a { status = status }

unfoldable pub move_asset_to_trash : ℕ → M (Unit {0})
move_asset_to_trash id = statement (update_assets (is_live id) (set_status trashed))

abbrev pub is_owned_among : List ℕ → ℕ → Asset → Bool
is_owned_among ids user a = is_among ids a.id && a.owner_id == user

unfoldable pub move_assets_to_trash : List ℕ → ℕ → M (Unit {0})
move_assets_to_trash ids user =
    statement
      (update_assets (λ a. is_owned_among ids user a && is_null a.deleted_at) (set_status trashed))

unfoldable pub restore_asset_from_trash : ℕ → M (Unit {0})
restore_asset_from_trash id =
    statement
      (update_assets (λ a. a.id == id && same_asset_status a.status trashed) (set_status active))

unfoldable pub restore_assets : List ℕ → ℕ → M (Unit {0})
restore_assets ids user = statement (update_assets (is_owned_among ids user) (set_status active))

abbrev pub set_deleted : ℕ → Asset → Asset
set_deleted now a = record a { deleted_at = some now }

unfoldable pub permanently_delete_asset : ℕ → M (Unit {0})
permanently_delete_asset id = statement (update_assets (λ a. a.id == id) set_deleted)
