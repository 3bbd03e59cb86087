-- ===== src/Db/Links.antt =====
-- The statements on `shared_links` and `shared_link__asset` in internal/db/sqlc/queries.sql.go, with
-- the constraints of sqlc/schema.sql: the primary keys, UNIQUE (key), and the references to users,
-- albums, assets and links; that of an attachment to its link is ON DELETE CASCADE.
use immich_go_backend.Base.{
  ℕ, String, Bool, true, false, not, ◌&&◌, Option, none, some, List, ◌∷◌, ◌==◌, ◌=ₛ◌, select, any,
}
use immich_go_backend.Db.{Asset, Album, SharedLink, Db, M, ok, err, no_rows, conflict, statement}
use immich_go_backend.Db.Assets.{find, update_where, sort_by, is_null, is_among, row}

abbrev pub has_link_id : ℕ → SharedLink → Bool
has_link_id id l = l.id == id

abbrev pub has_link_key : String → SharedLink → Bool
has_link_key key l = l.key =ₛ key

abbrev pub same_pair : ℕ → ℕ → ℕ × ℕ → Bool
same_pair asset link p = p.0 == asset && p.1 == link

abbrev pub is_owned_live : ℕ → ℕ → Asset → Bool
is_owned_live id user a = a.id == id && (a.owner_id == user && is_null a.deleted_at)

unfoldable pub get_asset_by_id_and_user : ℕ → ℕ → M Asset
get_asset_by_id_and_user id user = statement λ db. row (find (is_owned_live id user) db.assets) db

abbrev pub insert_pair : Bool → Bool → ℕ × ℕ → M (Unit {0})
insert_pair false there p db = err conflict db
insert_pair true true p db = ok tt db
insert_pair true false p db = ok tt (record db { link_assets = p ∷ db.link_assets })

-- INSERT … ON CONFLICT DO NOTHING
unfoldable pub add_asset_to_shared_link : ℕ → ℕ → M (Unit {0})
add_asset_to_shared_link asset link = statement λ db.
    insert_pair (any (λ a. a.id == asset) db.assets && any (has_link_id link) db.links)
      (any (same_pair asset link) db.link_assets) (asset, link) db

abbrev pub fits_album : List Album → Option ℕ → Bool
fits_album albums none = true
fits_album albums (some id) = any (λ a. a.id == id) albums

abbrev pub insert_link : Bool → SharedLink → M SharedLink
insert_link true link db = ok link (record db { links = link ∷ db.links })
insert_link false link db = err conflict db

-- The database generates the id and the time of creation.
unfoldable pub create_shared_link_row : ℕ → SharedLink → M SharedLink
create_shared_link_row new_id params = statement λ db.
    insert_link
      (not (any (has_link_id new_id) db.links)
        && (not (any (has_link_key params.key) db.links)
            && (is_among db.users params.user_id && fits_album db.albums params.album_id)))
      (record params { id = new_id; created_at = db.clock }) db

unfoldable pub delete_shared_link_row : ℕ → M (Unit {0})
delete_shared_link_row id = statement λ db. ok tt (record db {
  links = select (λ l. not (l.id == id)) db.links;
  link_assets = select (λ p. not (p.1 == id)) db.link_assets;
})

unfoldable pub get_shared_link_row : ℕ → M SharedLink
get_shared_link_row id = statement λ db. row (find (has_link_id id) db.links) db

unfoldable pub get_shared_link_row_by_key : String → M SharedLink
get_shared_link_row_by_key key = statement λ db. row (find (has_link_key key) db.links) db

unfoldable pub get_shared_link_rows : ℕ → M (List SharedLink)
get_shared_link_rows user =
    statement λ db. ok (sort_by (λ l. l.created_at) (select (λ l. l.user_id == user) db.links)) db

-- A live asset attached to the link; the primary key of the attachments makes the join unique.
abbrev pub is_attached : Db → ℕ → Asset → Bool
is_attached db link a = any (same_pair a.id link) db.link_assets && is_null a.deleted_at

unfoldable pub get_shared_link_asset_rows : ℕ → M (List Asset)
get_shared_link_asset_rows link =
    statement
      λ db. ok (sort_by (λ a. a.local_date_time) (select (is_attached db link) db.assets)) db

unfoldable pub remove_asset_from_shared_link : ℕ → ℕ → M (Unit {0})
remove_asset_from_shared_link asset link = statement λ db.
    ok tt (record db { link_assets = select (λ p. not (same_pair asset link p)) db.link_assets })

-- The arguments of UpdateSharedLink; `none` is NULL.
pub record LinkUpdate : Type 0 where
  pub expires_at : Option ℕ
  pub allow_upload : Option Bool
  pub allow_download : Option Bool
  pub description : Option String
  pub password : Option String
  pub show_exif : Option Bool

abbrev pub coalesce : {A : Type 0} → Option A → A → A
coalesce none a = a
coalesce (some b) a = b

abbrev pub coalesce_null : {A : Type 0} → Option A → Option A → Option A
coalesce_null none a = a
coalesce_null (some b) a = some b

abbrev pub write_link : LinkUpdate → SharedLink → SharedLink
write_link p l = record l {
  expires_at = coalesce_null p.expires_at l.expires_at;
  allow_upload = coalesce p.allow_upload l.allow_upload;
  allow_download = coalesce p.allow_download l.allow_download;
  description = coalesce_null p.description l.description;
  password = coalesce_null p.password l.password;
  show_exif = coalesce p.show_exif l.show_exif;
}

abbrev pub update_found : ℕ → LinkUpdate → Option SharedLink → M SharedLink
update_found id p none db = err no_rows db
update_found id p (some l) db =
    ok (write_link p l)
      (record db { links = update_where (has_link_id id) (write_link p) db.links })

unfoldable pub update_shared_link_row : ℕ → LinkUpdate → M SharedLink
update_shared_link_row id p = statement λ db. update_found id p (find (has_link_id id) db.links) db
