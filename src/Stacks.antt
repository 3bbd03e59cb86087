-- ===== src/Stacks.antt =====
-- internal/stacks/service.go: stacks of assets, over the tables of Db.
--
-- User, stack and asset ids arrive as texts; `uuid.Parse` is a parameter. `strings.Contains` of the
-- servers is not modelled here, so an error keeps its message and loses its wrapped cause, and a
-- message with an index is without the index. The times in a reply are those of the call and are
-- left out, and so are spans and metrics. The id of a new stack, which the database generates, is an
-- argument.
pub mod Coherence
pub mod Statements
pub mod Writes
pub mod Rows
pub mod Checks
pub mod Operations
pub mod Requests
pub mod Deletion
mod Tests
use immich_go_backend.Base.{
  ℕ, String, Bool, true, false, not, Option, none, some, List, [], ◌∷◌, map, length, any, ◌==◌,
  if◌then◌else◌,
}
use immich_go_backend.Base.Int.{ℤ, pos, negsuc, to_int32}
use immich_go_backend.Db.{
  Asset, AssetStack, Db, M, ok, continue, ◌>>=◌, ◌>>◌, return, fail, wrap, need, check, UuidLib,
}
use immich_go_backend.Db.Assets.{get_asset}
use immich_go_backend.Db.Stacks.{
  get_stack_row, get_stack_with_assets, get_stack_assets, create_stack_row,
  add_assets_to_stack_rows, update_stack_primary_asset, clear_stack_assets, delete_stack_row,
  delete_stacks_by_ids, search_stack_rows, get_user_stack_rows, remove_assets_from_stack_rows,
  has_asset_id,
}

pub record StackResponse : Type 0 where
  pub id : String
  pub primary_asset_id : String
  pub asset_ids : List String
  pub asset_count : ℤ

pub record SearchRequest : Type 0 where
  pub user_id : Option String
  pub primary_asset_id : Option String

abbrev pub denied_stack : String
denied_stack = "access denied: stack is not owned by the user"

abbrev pub denied_asset : String
denied_asset = "access denied: asset is not owned by the user"

abbrev pub not_in_stack : String
not_in_stack = "asset not found: asset is not part of this stack"

-- The assets of a new stack after the first belong to the user.
unfoldable pub own_assets : ℕ → List ℕ → M (Unit {0})
own_assets user [] = return tt
own_assets user (id ∷ rest) = wrap "failed to get stack asset" (get_asset id) >>= λ asset.
    check (asset.owner_id == user) denied_asset >> own_assets user rest

-- The stacks of a list belong to the user.
unfoldable pub own_stacks : ℕ → List ℕ → M (Unit {0})
own_stacks user [] = return tt
own_stacks user (id ∷ rest) = wrap "stack not found" (get_stack_row id) >>= λ stack.
    check (stack.owner_id == user) denied_stack >> own_stacks user rest

unfoldable pub clear_all : List ℕ → M (Unit {0})
clear_all [] = return tt
clear_all (id ∷ rest) =
    wrap "failed to clear stack assets" (clear_stack_assets id) >> clear_all rest

-- The part of CreateStack that writes.
unfoldable pub write_stack : ℕ → ℕ → ℕ → List ℕ → M AssetStack
write_stack new_id user primary ids = do
  stack ← wrap "failed to create stack" (create_stack_row new_id primary user)
  done ← wrap "failed to add assets to stack" (add_assets_to_stack_rows stack.id ids)
  return stack

module _ (u : UuidLib) where
  -- Every text parses, or none is returned.
  unfoldable pub strings_to_uuids : List String → Option (List ℕ)
  strings_to_uuids [] = some []
  strings_to_uuids (s ∷ rest) = push (u.parse s) (strings_to_uuids rest)
    where
      push : Option ℕ → Option (List ℕ) → Option (List ℕ)
      push (some id) (some ids) = some (id ∷ ids)
      push _ _ = none

  unfoldable pub owned_stack : String → String → M ℕ
  owned_stack stack_id user_id = do
    id ← need "invalid stack ID" (u.parse stack_id)
    user ← need "invalid user ID" (u.parse user_id)
    stack ← wrap "stack not found" (get_stack_row id)
    check (stack.owner_id == user) denied_stack
    return id

  -- The checks and the writes of CreateStack on the parsed ids; there is at least one.
  unfoldable pub stack_of : ℕ → ℕ → List ℕ → M AssetStack
  stack_of new_id user [] = fail "at least one asset ID is required"
  stack_of new_id user (primary ∷ rest) = do
    asset ← wrap "failed to get primary asset" (get_asset primary)
    check (asset.owner_id == user) denied_asset
    own_assets user rest
    write_stack new_id user primary (primary ∷ rest)

  abbrev pub created : List String → AssetStack → StackResponse
  created asset_ids stack = record {
    id = u.format stack.id;
    primary_asset_id = u.format stack.primary_asset_id;
    asset_ids = asset_ids;
    asset_count = to_int32 (pos (length asset_ids));
  }

  abbrev pub is_empty : List String → Bool
  is_empty [] = true
  is_empty (s ∷ rest) = false

  unfoldable pub create_stack : ℕ → String → List String → M StackResponse
  create_stack new_id user_id asset_ids = do
    check (not (is_empty asset_ids)) "at least one asset ID is required"
    user ← need "invalid user ID" (u.parse user_id)
    ids ← need "invalid asset IDs" (strings_to_uuids asset_ids)
    stack ← stack_of new_id user ids
    return (created asset_ids stack)

  abbrev pub response : AssetStack × ℕ → List Asset → StackResponse
  response stack assets = record {
    id = u.format stack.0.id;
    primary_asset_id = u.format stack.0.primary_asset_id;
    asset_ids = map (λ a. u.format a.id) assets;
    asset_count = to_int32 (pos stack.1);
  }

  unfoldable pub get_stack : String → String → M StackResponse
  get_stack user_id stack_id = do
    id ← need "invalid stack ID" (u.parse stack_id)
    user ← need "invalid user ID" (u.parse user_id)
    stack ← wrap "failed to get stack" (get_stack_with_assets id)
    check (stack.0.owner_id == user) denied_stack
    assets ← wrap "failed to get stack assets" (get_stack_assets id)
    return (response stack assets)

  -- The new primary asset is the user's and in the stack.
  unfoldable pub change_primary : ℕ → ℕ → String → M (Unit {0})
  change_primary user id primary_id = do
    primary ← need "invalid primary asset ID" (u.parse primary_id)
    asset ← wrap "failed to get primary asset" (get_asset primary)
    check (asset.owner_id == user) denied_asset
    assets ← wrap "failed to get stack assets" (get_stack_assets id)
    check (any (has_asset_id primary) assets) not_in_stack
    stack ← wrap "failed to update stack primary asset" (update_stack_primary_asset id primary)
    return tt

  unfoldable pub change_primary_if : ℕ → ℕ → Option String → M (Unit {0})
  change_primary_if user id none = return tt
  change_primary_if user id (some primary_id) = change_primary user id primary_id

  unfoldable pub update_stack : String → String → Option String → M StackResponse
  update_stack user_id stack_id primary_id = do
    id ← owned_stack stack_id user_id
    user ← need "invalid user ID" (u.parse user_id)
    done ← change_primary_if user id primary_id
    get_stack user_id stack_id

  unfoldable pub delete_stack : String → String → M (Unit {0})
  delete_stack user_id stack_id = do
    id ← owned_stack stack_id user_id
    wrap "failed to clear stack assets" (clear_stack_assets id)
    wrap "failed to delete stack" (delete_stack_row id)

  unfoldable pub delete_parsed : String → List String → M (Unit {0})
  delete_parsed user_id stack_ids = do
    user ← need "invalid user ID" (u.parse user_id)
    ids ← need "invalid stack IDs" (strings_to_uuids stack_ids)
    own_stacks user ids
    clear_all ids
    wrap "failed to delete stacks" (delete_stacks_by_ids ids)

  unfoldable pub delete_stacks : String → List String → M (Unit {0})
  delete_stacks user_id [] = return tt
  delete_stacks user_id (s ∷ rest) = delete_parsed user_id (s ∷ rest)

  unfoldable pub responses : List (AssetStack × ℕ) → M (List StackResponse)
  responses [] = return []
  responses (stack ∷ rest) =
      wrap "failed to get stack assets" (get_stack_assets stack.0.id) >>= λ assets.
      responses rest >>= λ later. return (response stack assets ∷ later)

  unfoldable pub parse_filter : Option String → M (Option ℕ)
  parse_filter none = return none
  parse_filter (some s) = need "invalid primary asset ID" (u.parse s) >>= λ id. return (some id)

  unfoldable pub search_stacks : SearchRequest → M (List StackResponse)
  search_stacks req = do
    user_id ← need "user ID is required for search" req.user_id
    user ← need "invalid user ID" (u.parse user_id)
    primary ← parse_filter req.primary_asset_id
    stacks ← wrap "failed to search stacks" (search_stack_rows user (pos 100) (pos 0) primary)
    responses stacks

  unfoldable pub get_user_stacks : String → ℤ → ℤ → M (List StackResponse)
  get_user_stacks user_id limit offset = do
    user ← need "invalid user ID" (u.parse user_id)
    stacks ← wrap "failed to get user stacks" (get_user_stack_rows user limit offset)
    responses stacks

  unfoldable pub add_assets_to_stack : String → List String → M (Unit {0})
  add_assets_to_stack stack_id asset_ids = do
    id ← need "invalid stack ID" (u.parse stack_id)
    ids ← need "invalid asset IDs" (strings_to_uuids asset_ids)
    wrap "failed to add assets to stack" (add_assets_to_stack_rows id ids)

  unfoldable pub remove_assets_from_stack : List String → M (Unit {0})
  remove_assets_from_stack asset_ids = do
    ids ← need "invalid asset IDs" (strings_to_uuids asset_ids)
    wrap "failed to remove assets from stack" (remove_assets_from_stack_rows ids)

  unfoldable pub remove_asset_from_stack : String → String → String → M (Unit {0})
  remove_asset_from_stack user_id stack_id asset_id = do
    id ← need "invalid stack ID" (u.parse stack_id)
    asset ← need "invalid asset ID" (u.parse asset_id)
    user ← need "invalid user ID" (u.parse user_id)
    stack ← wrap "stack not found" (get_stack_row id)
    check (stack.owner_id == user) denied_stack
    assets ← wrap "failed to load stack assets" (get_stack_assets id)
    check (any (has_asset_id asset) assets) not_in_stack
    wrap "failed to remove asset from stack" (remove_assets_from_stack_rows (asset ∷ []))
