-- ===== src/Trash/Requests.antt =====
-- The operations of internal/trash/service.go as requests, and any sequence of them.
use immich_go_backend.Base.{String, List, [], ◌∷◌}
use immich_go_backend.Db.{after, Db, UuidLib}
use immich_go_backend.Trash.{
  get_trashed_assets, trash_asset, restore_asset, permanently_delete, trash_assets,
  restore_assets_of, restore_all_assets, empty_trash,
}

pub data Request : Type 0 where
  listing restore_all empty : Request
  trash restore delete : String → Request
  trash_many restore_many : List String → Request

abbrev pub perform : UuidLib → String → Request → Db → Db
perform u user_id listing db = after (get_trashed_assets u user_id db)
perform u user_id (trash id) db = after (trash_asset u user_id id db)
perform u user_id (restore id) db = after (restore_asset u user_id id db)
perform u user_id (delete id) db = after (permanently_delete u user_id id db)
perform u user_id (trash_many ids) db = after (trash_assets u user_id ids db)
perform u user_id (restore_many ids) db = after (restore_assets_of u user_id ids db)
perform u user_id restore_all db = after (restore_all_assets u user_id db)
perform u user_id empty db = after (empty_trash u user_id db)

-- Requests by several users, in order.
abbrev pub perform_all : UuidLib → List (String × Request) → Db → Db
perform_all u [] db = db
perform_all u ((user_id, r) ∷ rest) db = perform_all u rest (perform u user_id r db)
