-- ===== src/Stacks/Tests.antt =====
-- Two users with their stacks, and the theorems of Stacks at concrete inputs.
use immich_go_backend.Base.{
  true, ℕ, ◌≡◌, refl, Option, none, some, [], ◌∷◌, arith, ◌==◌, ◌=ₛ◌, if◌then◌else◌, length,
}
use immich_go_backend.Db.{
  active, Asset, Db, Outcome, ok, err, UuidLib, need, wrap, check, statement,
}
use immich_go_backend.Db.Assets.{get_asset}
use immich_go_backend.Db.Stacks.{create_stack_row, add_assets_to_stack_rows}
use immich_go_backend.Db.Triples.{Post}
use immich_go_backend.Db.Rows.{identities, Keyed}
use immich_go_backend.Stacks.{
  StackResponse, create_stack, delete_stack, strings_to_uuids, stack_of, own_assets, write_stack,
}
use immich_go_backend.Stacks.Coherence.{owners, Coherent}
use immich_go_backend.Stacks.Statements.{Safe}
use immich_go_backend.Stacks.Requests.{create, perform, Allowed, perform-Safe}
use immich_go_backend.Stacks.Deletion.{
  Gone, delete_stack-Gone, stack_keys, Decides, delete_stack-is_stack_of,
}

abbrev uuids : UuidLib
uuids = record {
  parse = λ s.
      if s =ₛ "1"
      then some 1
      else if s =ₛ "2"
      then some 2
      else if s =ₛ "10"
      then some 10
      else if s =ₛ "11"
      then some 11
      else if s =ₛ "50"
      then some 50
      else none;
  format = λ n. if n == 10 then "10" else if n == 11 then "11" else if n == 50 then "50" else "51";
}

abbrev photo : ℕ → ℕ → Option ℕ → Asset
photo id owner stack = record {
  id = id;
  owner_id = owner;
  device_id = "phone";
  original_path = "/photo";
  kind = "IMAGE";
  updated_at = id;
  created_at = id;
  file_created_at = none;
  original_file_name = "photo.jpg";
  deleted_at = none;
  local_date_time = id;
  stack_id = stack;
  status = active;
}

-- User 1 owns assets 10 and 11; user 2 owns asset 12 and the stack 50 with it.
abbrev albums : Db
albums = record {
  assets = photo 10 1 none ∷ photo 11 1 none ∷ photo 12 2 (some 50) ∷ [];
  stacks = record { id = 50; primary_asset_id = 12; owner_id = 2 } ∷ [];
  users = 1 ∷ 2 ∷ [];
  albums = [];
  album_assets = [];
  album_users = [];
  exif_sizes = [];
  links = [];
  link_assets = [];
  workflows = [];
  executions = [];
  clock = 100;
  outages = [];
}

albums-Keyed : Keyed (identities albums.assets)
albums-Keyed = ((omega arith, (omega arith, tt)), ((omega arith, tt), (tt, tt)))

albums-Coherent : Coherent albums.assets (owners albums.stacks)
albums-Coherent = (((λ e. cc), tt), (((λ e. cc), tt), (((λ e. refl), tt), tt)))

-- CreateStack counts the ids of the request, here one asset named twice.
abbrev asset_count_of : Outcome StackResponse → Option ℕ
asset_count_of (ok r db) = some (length r.asset_ids)
asset_count_of (err e db) = none

create_stack_test : asset_count_of (create_stack uuids 51 "1" ("10" ∷ "10" ∷ []) albums) ≡ some 2
unfolding create_stack check need strings_to_uuids stack_of wrap get_asset statement own_assets
    write_stack create_stack_row add_assets_to_stack_rows
create_stack_test = refl

unreferenced : Allowed (create 51 ("10" ∷ "11" ∷ [])) albums
unreferenced = ((λ e. cc), ((λ e. cc), ((λ e. elsewhere e), tt)))
  where
    elsewhere : ◌≡◌ {A = Option ℕ} (some 50) (some 51) → ⊥
    elsewhere e = let same : ◌≡◌ {A = ℕ} 50 51 = cc in absurd (omega (arith, same))

perform-Safe_example : Safe 1 albums (perform uuids "1" (create 51 ("10" ∷ "11" ∷ [])) albums)
perform-Safe_example =
    perform-Safe uuids "1" 1 (create 51 ("10" ∷ "11" ∷ [])) albums refl albums-Keyed (tt, tt)
      albums-Coherent unreferenced

delete_stack-Gone_example :
    Post
      (λ done. Gone 50)
      (λ final. final.stacks ≡ albums.stacks)
      (delete_stack uuids "2" "50" albums)
delete_stack-Gone_example = delete_stack-Gone uuids "2" "50" 50 albums refl

albums-stack_keys-Keyed : Keyed (stack_keys albums.stacks)
albums-stack_keys-Keyed = (tt, tt)

delete_stack-is_stack_of_example : Decides albums true (delete_stack uuids "2" "50" albums)
delete_stack-is_stack_of_example =
    delete_stack-is_stack_of uuids "2" "50" albums refl albums-stack_keys-Keyed
