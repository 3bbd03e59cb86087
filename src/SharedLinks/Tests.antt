-- ===== src/SharedLinks/Tests.antt =====
-- A link of one user's photo, and the theorems of SharedLinks at concrete inputs.
use immich_go_backend.Base.{
  ℕ, ◌≡◌, refl, none, some, List, [], ◌∷◌, arith, ◌=ₛ◌, if◌then◌else◌, true, false, select,
}
use immich_go_backend.Db.{
  after, active, Asset, SharedLink, Db, Outcome, ok, err, UuidLib, wrap, check, statement, succeeds,
}
use immich_go_backend.Db.Assets.{sort_by}
use immich_go_backend.Db.Links.{
  is_attached, get_shared_link_row, get_asset_by_id_and_user, add_asset_to_shared_link,
  get_shared_link_asset_rows,
}
use immich_go_backend.Db.Triples.{Post}
use immich_go_backend.Db.Rows.{identities, Keyed}
use immich_go_backend.SharedLinks.{
  BcryptLib, LinkDto, UpdateRequest, get_shared_link_assets, add_assets_to_shared_link,
  update_shared_link, owned_link, attach_all, attach_parsed, attach_owned, ensure_owned_asset,
  get_shared_link_with_assets, assets_or_none, convert_shared_link,
}
use immich_go_backend.SharedLinks.Attachments.{Honest, Safe}
use immich_go_backend.SharedLinks.Requests.{add, ask, ask-Safe}
use immich_go_backend.SharedLinks.Access.{Granted, get_shared_link_assets-Granted}
use immich_go_backend.SharedLinks.Calm.{
  Refuses, get_shared_link_assets_opened, get_shared_link_assets_refused,
}
use immich_go_backend.SharedLinks.Updates.{
  HasPassword, HasExpiry, HasPassword-update_shared_link, HasExpiry-update_shared_link,
}

abbrev uuids : UuidLib
uuids = record {
  parse = λ s.
      if s =ₛ "10"
      then some 10
      else if s =ₛ "11"
      then some 11
      else if s =ₛ "12"
      then some 12
      else none;
  format = λ n. "10";
}

abbrev bcrypt : BcryptLib
bcrypt = record { hash = λ s. some s; matches = λ h s. h =ₛ s }

abbrev photo : ℕ → ℕ → Asset
photo id owner = record {
  id = id;
  owner_id = owner;
  device_id = "phone";
  original_path = "/photo";
  kind = "IMAGE";
  updated_at = id;
  created_at = id;
  file_created_at = none;
  original_file_name = "photo.jpg";
  deleted_at = none;
  local_date_time = id;
  stack_id = none;
  status = active;
}

abbrev party : SharedLink
party = record {
  id = 7;
  description = none;
  user_id = 1;
  key = "key";
  kind = "INDIVIDUAL";
  created_at = 50;
  expires_at = some 200;
  allow_upload = false;
  album_id = none;
  allow_download = true;
  show_exif = true;
  password = some "secret";
}

-- User 1 shows asset 10 and owns asset 11; user 2 owns asset 12.
abbrev shared : Db
shared = record {
  users = 1 ∷ 2 ∷ [];
  albums = [];
  album_assets = [];
  album_users = [];
  exif_sizes = [];
  assets = photo 10 1 ∷ photo 11 1 ∷ photo 12 2 ∷ [];
  stacks = [];
  links = party ∷ [];
  link_assets = (10, 7) ∷ [];
  workflows = [];
  executions = [];
  clock = 100;
  outages = [];
}

shared-Keyed : Keyed (identities shared.assets)
shared-Keyed = ((omega arith, (omega arith, tt)), ((omega arith, tt), (tt, tt)))

shared-Honest : Honest shared
shared-Honest = record {
  keyed = (tt, tt);
  attached =
      (((λ e. ((λ q. refl), ((λ q. refl), ((λ q. absurd (omega (arith, q))), tt)))), tt), tt);
  linked = (refl, tt);
}

-- The asset of another user and the text that is no id are skipped.
abbrev asset_ids_of : Outcome LinkDto → List ℕ
asset_ids_of (ok r db) = r.asset_ids
asset_ids_of (err e db) = []

add_assets_test :
    asset_ids_of (add_assets_to_shared_link uuids 1 7 ("12" ∷ "x" ∷ "11" ∷ []) shared)
    ≡ (11 ∷ 10 ∷ [])
unfolding add_assets_to_shared_link owned_link wrap get_shared_link_row statement check attach_all
    attach_parsed attach_owned ensure_owned_asset get_asset_by_id_and_user succeeds
    add_asset_to_shared_link get_shared_link_with_assets assets_or_none get_shared_link_asset_rows
    convert_shared_link
add_assets_test = refl

ask-Safe_example : Safe 2 shared (ask bcrypt uuids 2 (add 7 ("12" ∷ [])) shared)
ask-Safe_example = ask-Safe bcrypt uuids 2 (add 7 ("12" ∷ [])) shared shared-Keyed shared-Honest

get_shared_link_assets-Granted_example :
    Post
      (λ rows final. Granted bcrypt 150 "key" "secret" shared rows)
      (λ final. Unit)
      (get_shared_link_assets bcrypt 150 "key" "secret" shared)
get_shared_link_assets-Granted_example =
    get_shared_link_assets-Granted bcrypt 150 "key" "secret" shared shared-Honest

get_shared_link_assets_opened_example :
    get_shared_link_assets bcrypt 150 "key" "secret" shared
    ≡ ok (sort_by (λ a. a.local_date_time) (select (is_attached shared 7) shared.assets)) shared
get_shared_link_assets_opened_example =
    get_shared_link_assets_opened bcrypt 150 "key" "secret" party shared refl refl refl

get_shared_link_assets_refused_example :
    Refuses shared (get_shared_link_assets bcrypt 201 "key" "secret" shared)
get_shared_link_assets_refused_example =
    get_shared_link_assets_refused bcrypt 201 "key" "secret" party shared refl refl refl

-- A request to clear the password and the time of expiry.
abbrev clear : UpdateRequest
clear = record {
  description = none;
  password = some "";
  expires_at = none;
  allow_download = none;
  allow_upload = none;
  show_exif = none;
  change_expiry_time = true;
}

-- A link with a password that does not expire, and one that expires and has no password.
abbrev secret_only : SharedLink
secret_only = record party { expires_at = none }

abbrev expiring : SharedLink
expiring = record party { password = none }

HasPassword-update_shared_link_example :
    HasPassword 7
      (after
        (update_shared_link bcrypt 1 7 clear (record shared { links = secret_only ∷ [] }))).links
HasPassword-update_shared_link_example =
    HasPassword-update_shared_link bcrypt 1 7 7 clear (record shared { links = secret_only ∷ [] })
      (record { link = secret_only; found = refl; hashed = "secret"; is_set = refl })

HasExpiry-update_shared_link_example :
    HasExpiry 7
      (after (update_shared_link bcrypt 1 7 clear (record shared { links = expiring ∷ [] }))).links
HasExpiry-update_shared_link_example =
    HasExpiry-update_shared_link bcrypt 1 7 7 clear (record shared { links = expiring ∷ [] })
      (record { link = expiring; found = refl; time = 200; is_set = refl })
