-- ===== src/SharedLinks.antt =====
-- internal/sharedlinks/service.go: links by which a user shows assets to whoever has the key.
--
-- User and link ids arrive parsed, asset and album ids as texts. bcrypt, the random key and the id
-- that the database generates are parameters, and `now` is the time at which a key is used. Texts of
-- errors lose their wrapped cause. The log is left out.
pub mod Attachments
pub mod Writes
pub mod Operations
pub mod Requests
pub mod Access
pub mod Calm
pub mod Updates
mod Tests
use immich_go_backend.Base.{
  ℕ, ◌+◌, String, Bool, true, false, not, ◌&&◌, Option, none, some, List, [], ◌∷◌, map, length,
  ◌==◌, ◌=ₛ◌, ltb, if◌then◌else◌,
}
use immich_go_backend.Db.{
  Asset, SharedLink, Db, Outcome, ok, err, M, continue, ◌>>=◌, ◌>>◌, return, fail, wrap, succeeds,
  need, check, UuidLib,
}
use immich_go_backend.Db.Links.{
  get_asset_by_id_and_user, add_asset_to_shared_link, create_shared_link_row,
  delete_shared_link_row, get_shared_link_row, get_shared_link_row_by_key, get_shared_link_rows,
  get_shared_link_asset_rows, remove_asset_from_shared_link, LinkUpdate, update_shared_link_row,
  coalesce,
}

-- `golang.org/x/crypto/bcrypt`: hashing may fail, as for a password of more than 72 bytes.
pub record BcryptLib : Type 0 where
  pub hash : String → Option String
  pub matches : String → String → Bool

-- The link in a reply.
pub record LinkDto : Type 0 where
  pub id : ℕ
  pub user_id : ℕ
  pub key : String
  pub kind : String
  pub description : String
  pub password : String
  pub expires_at : Option ℕ
  pub allow_download : Bool
  pub allow_upload : Bool
  pub show_exif : Bool
  pub asset_count : ℕ
  pub asset_ids : List ℕ
  pub album_id : Option ℕ
  pub created_at : ℕ
  pub updated_at : ℕ

pub record CreateRequest : Type 0 where
  pub kind : String
  pub asset_ids : List String
  pub album_id : Option String
  pub description : String
  pub password : String
  pub expires_at : Option ℕ
  pub allow_download : Bool
  pub allow_upload : Bool
  pub show_exif : Bool

pub record UpdateRequest : Type 0 where
  pub description : Option String
  pub password : Option String
  pub expires_at : Option ℕ
  pub allow_download : Option Bool
  pub allow_upload : Option Bool
  pub show_exif : Option Bool
  pub change_expiry_time : Bool

abbrev pub filled : String → Option String
filled s = if s =ₛ "" then none else some s

abbrev pub is_protected : Option String → Bool
is_protected none = false
is_protected (some s) = not (s =ₛ "")

unfoldable pub convert_shared_link : SharedLink → ℕ → LinkDto
convert_shared_link link count = record {
  id = link.id;
  user_id = link.user_id;
  key = link.key;
  kind = link.kind;
  description = coalesce link.description "";
  password = if is_protected link.password then "[PROTECTED]" else "";
  expires_at = link.expires_at;
  allow_download = link.allow_download;
  allow_upload = link.allow_upload;
  show_exif = link.show_exif;
  asset_count = count;
  asset_ids = [];
  album_id = link.album_id;
  created_at = link.created_at;
  updated_at = link.created_at;
}

-- Where the query of the assets fails, there are none.
abbrev pub or_none : {A : Type 0} → Outcome (List A) → Outcome (List A)
or_none (ok rows db) = ok rows db
or_none (err e db) = ok [] db

unfoldable pub assets_or_none : ℕ → M (List Asset)
assets_or_none link db = or_none (get_shared_link_asset_rows link db)

unfoldable pub with_count : SharedLink → M LinkDto
with_count link = do
  assets ← assets_or_none link.id
  return (convert_shared_link link (length assets))

unfoldable pub get_shared_link_with_assets : SharedLink → M LinkDto
get_shared_link_with_assets link = do
  assets ← assets_or_none link.id
  return (record (convert_shared_link link (length assets)) { asset_ids = map (λ a. a.id) assets })

-- The link, if it is the user's.
unfoldable pub owned_link : ℕ → ℕ → M SharedLink
owned_link user link_id = do
  link ← wrap "shared link not found" (get_shared_link_row link_id)
  check (link.user_id == user) "access denied"
  return link

abbrev pub discard : {A : Type 0} → A → M (Unit {0})
discard a = return tt

unfoldable pub ensure_owned_asset : ℕ → ℕ → M (Unit {0})
ensure_owned_asset user asset =
    wrap "asset not owned by user" (get_asset_by_id_and_user asset user) >>= discard

-- One asset of a request: whether it is the user's, and then whether it could be attached.
unfoldable pub attach_owned : ℕ → ℕ → Bool → M Bool
attach_owned link asset true = succeeds (add_asset_to_shared_link asset link)
attach_owned link asset false = return false

unfoldable pub attach_parsed : ℕ → ℕ → Option ℕ → M Bool
attach_parsed user link none = return false
attach_parsed user link (some asset) =
    succeeds (ensure_owned_asset user asset) >>= attach_owned link asset

unfoldable pub detach_parsed : ℕ → Option ℕ → M Bool
detach_parsed link none = return false
detach_parsed link (some asset) = succeeds (remove_asset_from_shared_link asset link)

module _ (u : UuidLib) where
  -- The assets of a request, those that cannot be attached skipped, with the number attached.
  unfoldable pub attach_all : ℕ → ℕ → List String → ℕ → M ℕ
  attach_all user link [] added = return added
  attach_all user link (s ∷ rest) added = attach_parsed user link (u.parse s) >>= λ done.
      attach_all user link rest (if done then added + 1 else added)

  unfoldable pub detach_all : ℕ → List String → M (Unit {0})
  detach_all link [] = return tt
  detach_all link (s ∷ rest) = detach_parsed link (u.parse s) >>= λ done. detach_all link rest

  unfoldable pub parse_album : Option String → M (Option ℕ)
  parse_album none = return none
  parse_album (some s) = need "invalid album ID" (u.parse s) >>= λ id. return (some id)

-- `link.ExpiresAt.Valid && link.ExpiresAt.Time.Before(time.Now())`
abbrev pub is_expired : Option ℕ → ℕ → Bool
is_expired none now = false
is_expired (some t) now = ltb t now

module _ (b : BcryptLib) where
  -- No hash of an empty password.
  unfoldable pub hash_password : String → M (Option String)
  hash_password password =
      if password =ₛ ""
      then return none
      else need "failed to hash password" (b.hash password) >>= λ h. return (some h)

  unfoldable pub create_shared_link : UuidLib → ℕ → String → ℕ → CreateRequest → M LinkDto
  create_shared_link u new_id key user req = do
    hashed ← hash_password req.password
    album ← parse_album u req.album_id
    link ← wrap "failed to create shared link" (
        create_shared_link_row new_id (record {
          id = new_id;
          description = filled req.description;
          user_id = user;
          key = key;
          kind = req.kind;
          created_at = 0;
          expires_at = req.expires_at;
          allow_upload = req.allow_upload;
          album_id = album;
          allow_download = req.allow_download;
          show_exif = req.show_exif;
          password = hashed;
        }))
    added ← attach_all u user link.id req.asset_ids 0
    return (convert_shared_link link added)

  unfoldable pub check_password : Option String → String → M (Unit {0})
  check_password none password = return tt
  check_password (some hashed) password =
      if hashed =ₛ ""
      then return tt
      else check (not (password =ₛ "")) "password required"
        >> check (b.matches hashed password) "invalid password"

  unfoldable pub get_shared_link_by_key : ℕ → String → String → M LinkDto
  get_shared_link_by_key now key password = do
    link ← wrap "shared link not found" (get_shared_link_row_by_key key)
    check (not (is_expired link.expires_at now)) "shared link has expired"
    check_password link.password password
    with_count link

  unfoldable pub get_shared_link_assets : ℕ → String → String → M (List Asset)
  get_shared_link_assets now key password = do
    link ← get_shared_link_by_key now key password
    wrap "failed to get shared link assets" (get_shared_link_asset_rows link.id)

  -- The password argument of the update: kept, cleared or hashed.
  unfoldable pub new_password : Option String → Option String → M (Option String)
  new_password none existing = return existing
  new_password (some password) existing = hash_password password

  unfoldable pub update_shared_link : ℕ → ℕ → UpdateRequest → M LinkDto
  update_shared_link user link_id req = do
    existing ← owned_link user link_id
    password ← new_password req.password existing.password
    updated ← wrap "failed to update shared link" (
        update_shared_link_row link_id (record {
          expires_at = if req.change_expiry_time then req.expires_at else existing.expires_at;
          allow_upload = some (coalesce req.allow_upload existing.allow_upload);
          allow_download = some (coalesce req.allow_download existing.allow_download);
          description = new_description req.description existing.description;
          password = password;
          show_exif = some (coalesce req.show_exif existing.show_exif);
        }))
    with_count updated
    where
      new_description : Option String → Option String → Option String
      new_description none existing = existing
      new_description (some d) existing = filled d

unfoldable pub get_shared_link : ℕ → ℕ → M LinkDto
get_shared_link user link_id = do link ← owned_link user link_id; with_count link

unfoldable pub with_counts : List SharedLink → M (List LinkDto)
with_counts [] = return []
with_counts (link ∷ rest) =
    with_count link >>= λ dto. with_counts rest >>= λ later. return (dto ∷ later)

unfoldable pub get_shared_links : ℕ → M (List LinkDto)
get_shared_links user = do
  links ← wrap "failed to get shared links" (get_shared_link_rows user)
  with_counts links

unfoldable pub delete_shared_link : ℕ → ℕ → M (Unit {0})
delete_shared_link user link_id = do
  link ← owned_link user link_id
  wrap "failed to delete shared link" (delete_shared_link_row link_id)

abbrev pub only_individual : String
only_individual = "asset modification is only supported for individual shared links"

unfoldable pub add_assets_to_shared_link : UuidLib → ℕ → ℕ → List String → M LinkDto
add_assets_to_shared_link u user link_id asset_ids = do
  link ← owned_link user link_id
  check (link.kind =ₛ "INDIVIDUAL") only_individual
  added ← attach_all u user link.id asset_ids 0
  get_shared_link_with_assets link

unfoldable pub remove_assets_from_shared_link : UuidLib → ℕ → ℕ → List String → M LinkDto
remove_assets_from_shared_link u user link_id asset_ids = do
  link ← owned_link user link_id
  check (link.kind =ₛ "INDIVIDUAL") only_individual
  done ← detach_all u link.id asset_ids
  get_shared_link_with_assets link
