-- ===== src/Stacks/Requests.antt =====
-- The operations of internal/stacks/service.go that act for a user, and what every one of them keeps.
-- AddAssetsToStack and RemoveAssetsFromStack name no user, and no handler calls them.
use immich_go_backend.Base.{ℕ, ◌≡◌, refl, ◌≢◌, String, Option, none, some, List, [], ◌∷◌}
use immich_go_backend.Base.Int.{ℤ, pos, negsuc}
use immich_go_backend.Db.{after, Asset, AssetStack, Db, M, ◌>>=◌, need, UuidLib}
use immich_go_backend.Db.Stacks.{search_stack_rows, get_user_stack_rows, page}
use immich_go_backend.Db.Triples.{
  Post-after, Post, Triple, bind-Triple, wrap-Triple, need-Triple, pre-Triple, return-Triple,
  statement-Triple,
}
use immich_go_backend.Db.Rows.{All, identities, Keyed}
use immich_go_backend.Stacks.{
  SearchRequest, create_stack, get_stack, update_stack, delete_stack, delete_stacks, search_stacks,
  get_user_stacks, remove_asset_from_stack, responses, parse_filter,
}
use immich_go_backend.Stacks.Coherence.{owners, Coherent}
use immich_go_backend.Stacks.Statements.{Safe, free, assets-Triple}
use immich_go_backend.Stacks.Operations.{
  get-Triple, delete-Triple, delete_many_stacks-Triple, create_stack-Triple, update_stack-Triple,
  remove_asset-Triple,
}

pub data Request : Type 0 where
  create : ℕ → List String → Request
  get delete : String → Request
  update : String → Option String → Request
  delete_many : List String → Request
  search : SearchRequest → Request
  listing : ℤ → ℤ → Request
  remove : String → String → Request

abbrev pub perform : UuidLib → String → Request → Db → Db
perform u user_id (create new_id ids) db = after (create_stack u new_id user_id ids db)
perform u user_id (get id) db = after (get_stack u user_id id db)
perform u user_id (update id primary) db = after (update_stack u user_id id primary db)
perform u user_id (delete id) db = after (delete_stack u user_id id db)
perform u user_id (delete_many ids) db = after (delete_stacks u user_id ids db)
perform u user_id (search req) db = after (search_stacks u req db)
perform u user_id (listing limit offset) db = after (get_user_stacks u user_id limit offset db)
perform u user_id (remove id asset) db = after (remove_asset_from_stack u user_id id asset db)

-- The id that the database generates for a new stack is one that no asset refers to.
abbrev pub Allowed : Request → Db → Type 0
Allowed (create new_id ids) db = All (λ (a : Asset). a.stack_id ≢ some new_id) db.assets
Allowed _ db = Unit

module _ (u : UuidLib) (user : ℕ) (start : Db) where
  abbrev K : Db → Type 0
  K = Safe user start

  page-Post :
      {A : Type 0} (limit offset : ℤ) (rows : List A) (db : Db)
      → K db
      → Post (λ (r : List A). K) K (page limit offset rows db)
  page-Post (pos limit) (pos offset) rows db k = k
  page-Post (pos limit) (negsuc offset) rows db k = k
  page-Post (negsuc limit) offset rows db k = k

  search_rows-Triple :
      (owner : ℕ) (limit offset : ℤ) (primary : Option ℕ)
      → Triple K (search_stack_rows owner limit offset primary) (λ r. K) K
  unfolding search_stack_rows
  search_rows-Triple owner limit offset primary =
      statement-Triple (free user start) (λ db k. k)
        (record { run = λ db k. page-Post limit offset _ db k })

  user_rows-Triple :
      (owner : ℕ) (limit offset : ℤ) → Triple K (get_user_stack_rows owner limit offset) (λ r. K) K
  unfolding get_user_stack_rows
  user_rows-Triple owner limit offset =
      statement-Triple (free user start) (λ db k. k)
        (record { run = λ db k. page-Post limit offset _ db k })

  responses-Triple : (rows : List (AssetStack × ℕ)) → Triple K (responses u rows) (λ r. K) K
  unfolding responses
  responses-Triple [] = return-Triple _
  responses-Triple (s ∷ rest) =
      bind-Triple (wrap-Triple _ (assets-Triple user start K s.0.id (free user start) (λ db k. k)))
        λ assets. bind-Triple (responses-Triple rest) λ later. return-Triple _

  text-Triple :
      {A B : Type 0} (message : String) (o : Option A) (f : A → M B)
      → ((a : A) → Triple K (f a) (λ b. K) K)
      → Triple K (need message o >>= f) (λ b. K) K
  text-Triple message o f h =
      bind-Triple (need-Triple message o (λ db k. k)) λ a. pre-Triple (λ db p. p.0) (h a)

  filter-Triple : (o : Option String) → Triple K (parse_filter u o) (λ r. K) K
  unfolding parse_filter
  filter-Triple none = return-Triple none
  filter-Triple (some s) = text-Triple _ (u.parse s) _ λ id. return-Triple (some id)

  search-Triple : (req : SearchRequest) → Triple K (search_stacks u req) (λ r. K) K
  unfolding search_stacks
  search-Triple req = text-Triple _ req.user_id _ λ user_id.
      text-Triple _ (u.parse user_id) _ λ owner.
        bind-Triple (filter-Triple req.primary_asset_id) λ primary.
          bind-Triple (wrap-Triple _ (search_rows-Triple owner (pos 100) (pos 0) primary))
            λ rows. responses-Triple rows

  listing-Triple :
      (user_id : String) (limit offset : ℤ)
      → Triple K (get_user_stacks u user_id limit offset) (λ r. K) K
  unfolding get_user_stacks
  listing-Triple user_id limit offset = text-Triple _ (u.parse user_id) _ λ owner.
      bind-Triple (wrap-Triple _ (user_rows-Triple owner limit offset))
        λ rows. responses-Triple rows

run-Safe :
    {A : Type 0} {P : Db → Type 0} {user : ℕ} {db : Db} {m : M A}
    → Triple P m (λ a. Safe user db) (Safe user db)
    → P db
    → Safe user db (after (m db))
run-Safe {user} {db} {m} h p = Post-after (Safe user db) (m db) (h.run db p)

Safe-refl :
    (user : ℕ) (db : Db)
    → Keyed (owners db.stacks)
    → Coherent db.assets (owners db.stacks)
    → Safe user db db
Safe-refl user db keyed coherent = record {
  others_kept = refl;
  identities_kept = refl;
  stacks_kept = refl;
  keyed = keyed;
  coherent = coherent;
}

-- Whatever a user asks of the stacks, by any operation of the service that takes a user, with
-- whatever outages: no asset and no stack of another user changes, no asset comes, goes or changes
-- its owner, the ids of the stacks stay distinct, and every asset in a stack still belongs to the
-- stack's owner. The ids of the assets and of the stacks are distinct and every asset in a stack
-- belongs to its owner before, the user's id parses, and the id generated for a new stack is one that
-- no asset refers to.
pub perform-Safe :
    (u : UuidLib) (user_id : String) (user : ℕ) (r : Request) (db : Db)
    → u.parse user_id ≡ some user
    → Keyed (identities db.assets)
    → Keyed (owners db.stacks)
    → Coherent db.assets (owners db.stacks)
    → Allowed r db
    → Safe user db (perform u user_id r db)
perform-Safe u user_id user (create new_id ids) db e k ks c a =
    run-Safe (create_stack-Triple u user_id user e db k new_id ids) (Safe-refl user db ks c, a)
perform-Safe u user_id user (get id) db e k ks c a =
    run-Safe (get-Triple u user_id user e db k id) (Safe-refl user db ks c)
perform-Safe u user_id user (update id primary) db e k ks c a =
    run-Safe (update_stack-Triple u user_id user e db k id primary) (Safe-refl user db ks c)
perform-Safe u user_id user (delete id) db e k ks c a =
    run-Safe (delete-Triple u user_id user e db k id) (Safe-refl user db ks c)
perform-Safe u user_id user (delete_many ids) db e k ks c a =
    run-Safe (delete_many_stacks-Triple u user_id user e db k ids) (Safe-refl user db ks c)
perform-Safe u user_id user (search req) db e k ks c a =
    run-Safe (search-Triple u user db req) (Safe-refl user db ks c)
perform-Safe u user_id user (listing limit offset) db e k ks c a =
    run-Safe (listing-Triple u user db user_id limit offset) (Safe-refl user db ks c)
perform-Safe u user_id user (remove id asset) db e k ks c a =
    run-Safe (remove_asset-Triple u user_id user e db k id asset) (Safe-refl user db ks c)
