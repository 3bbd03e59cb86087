-- ===== src/Trash/Server.antt =====
-- internal/trash/server.go: the gRPC operations on the trash. They repeat the service's queries.
--
-- The claims of the caller are the user id in them, `none` where the caller is not authenticated.
use immich_go_backend.Base.{
  ℕ, ◌≡◌, refl, String, Option, none, some, List, [], ◌∷◌, ◌+◌, length, if◌then◌else◌,
}
use immich_go_backend.Db.{
  Asset, Db, Outcome, ok, err, M, continue, ◌>>=◌, return, need, wrap, rewrap, reply, answer,
  status, Code, unauthenticated, internal, succeeds, settle, UuidLib,
}
use immich_go_backend.Db.Assets.{
  get_trashed_assets_by_user, restore_asset_from_trash, restore_assets, permanently_delete_asset,
}
use immich_go_backend.Trash.{
  each_counted, batch, parse_all, restore_assets_of, restore_all_assets, empty_trash,
}

abbrev deny : {A : Type 0} → Code → String → M A
deny code message db = err (status code message) db

-- The statement on each row of a listing, its errors ignored.
unfoldable pub each_ignored : (ℕ → M (Unit {0})) → List Asset → M (Unit {0})
each_ignored act [] = return tt
each_ignored act (asset ∷ rest) = succeeds (act asset.id) >>= λ done. each_ignored act rest

-- The statement on the ids of a request, if there are any.
unfoldable pub on_some : (List ℕ → ℕ → M (Unit {0})) → String → List ℕ → ℕ → M (Unit {0})
on_some act message [] user = return tt
on_some act message (id ∷ ids) user = reply internal message (act (id ∷ ids) user)

module _ (u : UuidLib) where
  -- The claims, and the user id that they hold.
  unfoldable pub caller : Option String → M ℕ
  caller none = deny unauthenticated "unauthorized"
  caller (some user_id) = reply internal "invalid user ID" (need "invalid UUID" (u.parse user_id))

  unfoldable pub server_empty_trash : Option String → M (Unit {0})
  server_empty_trash claims = do
    user ← caller claims
    assets ← reply internal "failed to get trashed assets" (get_trashed_assets_by_user user)
    each_ignored permanently_delete_asset assets

  unfoldable pub server_restore_trash : Option String → M (Unit {0})
  server_restore_trash claims = do
    user ← caller claims
    assets ← reply internal "failed to get trashed assets" (get_trashed_assets_by_user user)
    each_ignored restore_asset_from_trash assets

  unfoldable pub server_restore_assets : Option String → List String → M (Unit {0})
  server_restore_assets claims asset_ids = do
    user ← caller claims
    on_some restore_assets "failed to restore assets" (parse_all u asset_ids) user

-- The two results leave the same rows, and both are errors or neither is.
abbrev pub Same : {A B : Type 0} → Outcome A → Outcome B → Type 0
Same (ok a db) (ok b db') = db ≡ db'
Same (err e db) (err e' db') = db ≡ db'
Same _ _ = ⊥

continue-Same :
    {A B C : Type 0} (o : Outcome A) (f : A → M B) (g : A → M C)
    → ((a : A) (db : Db) → Same (f a db) (g a db))
    → Same (continue o f) (continue o g)
continue-Same (ok a db) f g h = h a db
continue-Same (err e db) f g h = refl

answer-Same :
    {A B C : Type 0} (o : Outcome A) (code : Code) (s s' : String) (f : A → M B) (g : A → M C)
    → ((a : A) (db : Db) → Same (f a db) (g a db))
    → Same (continue (answer code s o) f) (continue (rewrap s' o) g)
answer-Same (ok a db) code s s' f g h = h a db
answer-Same (err e db) code s s' f g h = refl

each-Same :
    (act : ℕ → M (Unit {0})) (rows : List Asset) (n : ℕ) (db : Db)
    → Same (each_ignored act rows db) (each_counted act rows n db)
unfolding each_ignored each_counted succeeds
each-Same act [] n db = refl
each-Same act (r ∷ rows) n db =
    continue-Same (settle (act r.id db)) _ _
      λ done next. each-Same act rows (if done then n + 1 else n) next

batch-Same :
    (act : List ℕ → ℕ → M (Unit {0})) (message message' : String) (ids : List ℕ) (user : ℕ)
    (db : Db)
    → Same (on_some act message ids user db) (batch act message' ids user db)
unfolding on_some batch reply wrap
batch-Same act message message' [] user db = refl
batch-Same act message message' (id ∷ ids) user db = done-Same (act (id ∷ ids) user db)
  where
    done-Same :
        (o : Outcome (Unit {0}))
        → Same
            (answer internal message o)
            (continue (rewrap message' o) (λ u. return (length (id ∷ ids))))
    done-Same (ok a next) = refl
    done-Same (err e next) = refl

-- The user id, then the listing, then the loop.
module _ (u : UuidLib) (user_id : String) where
  user-Same :
      {B C : Type 0} (o : Option ℕ) (f : ℕ → M B) (g : ℕ → M C) (db : Db)
      → ((user : ℕ) (next : Db) → Same (f user next) (g user next))
      → Same
          (continue (reply internal "invalid user ID" (need "invalid UUID" o) db) f)
          (continue (need "invalid user ID" o db) g)
  unfolding reply need
  user-Same none f g db h = refl
  user-Same (some user) f g db h = h user db

  whole-Same :
      (act : ℕ → M (Unit {0})) (db : Db)
      → Same
          ((caller u (some user_id) >>= λ user.
              reply internal "failed to get trashed assets" (get_trashed_assets_by_user user)
              >>= λ rows. each_ignored act rows)
            db)
          ((need "invalid user ID" (u.parse user_id) >>= λ user.
              wrap "failed to get trashed assets" (get_trashed_assets_by_user user) >>= λ rows.
              each_counted act rows 0)
            db)
  unfolding caller reply wrap
  whole-Same act db = user-Same (u.parse user_id) _ _ db λ user next.
      answer-Same (get_trashed_assets_by_user user next) internal _ _ _ _
        λ rows later. each-Same act rows 0 later

-- For an authenticated caller each of the three gRPC operations succeeds when the service's
-- operation of that name does, and leaves the same database, whatever statements fail.
pub server-Same :
    (u : UuidLib) (user_id : String) (asset_ids : List String) (db : Db)
    → Same (server_empty_trash u (some user_id) db) (empty_trash u user_id db)
      × Same (server_restore_trash u (some user_id) db) (restore_all_assets u user_id db)
      × Same
          (server_restore_assets u (some user_id) asset_ids db)
          (restore_assets_of u user_id asset_ids db)
unfolding server_empty_trash server_restore_trash server_restore_assets empty_trash
    restore_all_assets restore_assets_of caller
server-Same u user_id asset_ids db = (
  whole-Same u user_id permanently_delete_asset db,
  whole-Same u user_id restore_asset_from_trash db,
  user-Same u user_id (u.parse user_id) _ _ db
      λ user next. batch-Same restore_assets _ _ (parse_all u asset_ids) user next,
)
