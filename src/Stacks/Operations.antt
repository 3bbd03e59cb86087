-- ===== src/Stacks/Operations.antt =====
-- What the operations of internal/stacks/service.go that a user can ask for keep.
use immich_go_backend.Base.{
  ℕ, ◌≡◌, subst, String, false, Option, none, some, List, [], ◌∷◌, arith, ◌==◌, ==_refl, any,
}
use immich_go_backend.Db.{Asset, Db, UuidLib}
use immich_go_backend.Db.Assets.{is_among}
use immich_go_backend.Db.Stacks.{has_asset_id}
use immich_go_backend.Db.Triples.{
  Triple, bind-Triple, wrap-Triple, check-Triple, pre-Triple, return-Triple,
}
use immich_go_backend.Db.Rows.{All, identities, Keyed, any-All}
use immich_go_backend.Stacks.{
  strings_to_uuids, write_stack, stack_of, create_stack, get_stack, change_primary,
  change_primary_if, update_stack, delete_stack, delete_parsed, delete_stacks,
  remove_asset_from_stack,
}
use immich_go_backend.Stacks.Coherence.{Mine-none}
use immich_go_backend.Stacks.Statements.{
  Safe, free, Checked, Checked-free, Own, assets-Triple, counted-Triple, clear-Triple,
  delete_one-Triple, delete_many-Triple,
}
use immich_go_backend.Stacks.Writes.{members-Triple, remove-Triple, add-Triple}
use immich_go_backend.Stacks.Rows.{Unused, create-Triple, primary-Triple}
use immich_go_backend.Stacks.Checks.{
  Kept, among, user-Triple, parse-Triple, fact-Triple, checked_stack-Triple, checked_asset-Triple,
  owned_stack-Triple, own_stacks-Triple, clear_all-Triple, own_assets-Triple,
}

module _ (u : UuidLib) (user_id : String) (user : ℕ) (parsed : u.parse user_id ≡ some user)
    (start : Db) (keyed : Keyed (identities start.assets)) where
  abbrev K : Db → Type 0
  K = Safe user start

  pub get-Triple : (stack_id : String) → Triple K (get_stack u user_id stack_id) (λ r. K) K
  unfolding get_stack
  get-Triple stack_id =
      parse-Triple u user_id user parsed start keyed _ (λ db k. k) (u.parse stack_id) _
        λ id.
          user-Triple u user_id user parsed start keyed _ (λ db k. k) _
            (bind-Triple (wrap-Triple _ (counted-Triple user start id)) λ stack.
              bind-Triple (check-Triple _ _ (λ db k. k)) λ done.
                pre-Triple (λ db p. p.0)
                  (bind-Triple
                    (wrap-Triple _ (assets-Triple user start K id (free user start) (λ db k. k)))
                    λ assets. return-Triple _))

  pub delete-Triple : (stack_id : String) → Triple K (delete_stack u user_id stack_id) (λ r. K) K
  unfolding delete_stack
  delete-Triple stack_id =
      bind-Triple (owned_stack-Triple u user_id user parsed start keyed stack_id) λ id.
        bind-Triple (wrap-Triple _ (clear-Triple user start (λ t. t == id) id (==_refl id)))
          λ done. wrap-Triple _ (delete_one-Triple user start id)

  -- The stacks of a list that pass the test.
  delete_parsed-Triple :
      (stack_ids : List String) → Triple K (delete_parsed u user_id stack_ids) (λ r. K) K
  unfolding delete_parsed
  delete_parsed-Triple stack_ids =
      user-Triple u user_id user parsed start keyed _ (λ db k. k) _
        (parse-Triple u user_id user parsed start keyed _ (λ db k. k) (strings_to_uuids u stack_ids)
          _
          λ ids.
            bind-Triple
              (pre-Triple (λ db k. (k, Mine-none user db k.keyed k.coherent))
                (own_stacks-Triple u user_id user parsed start keyed (λ t. false) ids))
              λ done.
                bind-Triple
                  (clear_all-Triple u user_id user parsed start keyed (is_among ids) ids
                    (among u user_id user parsed start keyed (is_among ids) ids (λ t e. e)))
                  λ cleared. wrap-Triple _ (delete_many-Triple user start ids))

  pub delete_many_stacks-Triple :
      (stack_ids : List String) → Triple K (delete_stacks u user_id stack_ids) (λ r. K) K
  unfolding delete_stacks
  delete_many_stacks-Triple [] = return-Triple tt
  delete_many_stacks-Triple (s ∷ rest) = delete_parsed-Triple (s ∷ rest)

  write_stack-Triple :
      (new_id primary : ℕ) (ids : List ℕ)
      → All (Own user start) ids
      → Triple
          (λ db. K db × Unused user start new_id db)
          (write_stack new_id user primary ids)
          (λ s. K)
          K
  unfolding write_stack
  write_stack-Triple new_id primary ids own =
      bind-Triple (wrap-Triple _ (create-Triple user start new_id primary)) λ stack.
        bind-Triple (wrap-Triple _ (add-Triple user start stack.id ids own))
          λ done. return-Triple stack

  stack_of-Triple :
      (new_id : ℕ) (ids : List ℕ)
      → Triple (λ db. K db × Unused user start new_id db) (stack_of u new_id user ids) (λ s. K) K
  unfolding stack_of
  stack_of-Triple new_id [] = record { run = λ db p. p.0 }
  stack_of-Triple new_id (primary ∷ rest) =
      checked_asset-Triple u user_id user parsed start keyed P primary _ _ _ keep (λ db p. p.0)
        λ own.
          bind-Triple
            (own_assets-Triple u user_id user parsed start keyed P rest keep (λ db p. p.0))
            λ done.
              fact-Triple u user_id user parsed start keyed
                λ owns. write_stack-Triple new_id primary (primary ∷ rest) (own, owns)
    where
      P : Db → Type 0
      P db = K db × Unused user start new_id db

      keep : Kept u user_id user parsed start keyed P
      keep db later (k, h) = (free user start db later k, h)

  pub create_stack-Triple :
      (new_id : ℕ) (asset_ids : List String)
      → Triple
          (λ db. K db × Unused user start new_id db)
          (create_stack u new_id user_id asset_ids)
          (λ s. K)
          K
  unfolding create_stack
  create_stack-Triple new_id asset_ids = bind-Triple (check-Triple _ _ (λ db p. p.0)) λ done.
      pre-Triple (λ db p. p.0)
        (user-Triple u user_id user parsed start keyed _ (λ db p. p.0) _
          (parse-Triple u user_id user parsed start keyed _ (λ db p. p.0)
            (strings_to_uuids u asset_ids) _
            λ ids. bind-Triple (stack_of-Triple new_id ids) λ stack. return-Triple _))

  change_primary-Triple :
      (id : ℕ) (primary_id : String)
      → Triple (Checked user start (λ t. t == id)) (change_primary u user id primary_id) (λ r. K) K
  unfolding change_primary
  change_primary-Triple id primary_id =
      parse-Triple u user_id user parsed start keyed _ (λ db p. p.0) (u.parse primary_id) _
        λ primary.
          checked_asset-Triple u user_id user parsed start keyed (Checked user start (λ t. t == id))
            primary _ _ _ (Checked-free user start (λ t. t == id)) (λ db p. p.0)
            λ own.
              bind-Triple
                (wrap-Triple _ (
                  assets-Triple user start (Checked user start (λ t. t == id)) id
                    (Checked-free user start (λ t. t == id)) (λ db p. p.0)))
                λ assets. bind-Triple (check-Triple _ _ (λ db p. p.0)) λ done.
                  pre-Triple (λ db p. p.0)
                    (bind-Triple (wrap-Triple _ (primary-Triple user start id primary))
                      λ stack. return-Triple tt)

  change_primary_if-Triple :
      (id : ℕ) (primary_id : Option String)
      → Triple
          (Checked user start (λ t. t == id))
          (change_primary_if u user id primary_id)
          (λ r. K)
          K
  unfolding change_primary_if
  change_primary_if-Triple id none = record { run = λ db p. p.0 }
  change_primary_if-Triple id (some primary_id) = change_primary-Triple id primary_id

  pub update_stack-Triple :
      (stack_id : String) (primary_id : Option String)
      → Triple K (update_stack u user_id stack_id primary_id) (λ r. K) K
  unfolding update_stack
  update_stack-Triple stack_id primary_id =
      bind-Triple (owned_stack-Triple u user_id user parsed start keyed stack_id) λ id.
        user-Triple u user_id user parsed start keyed _ (λ db p. p.0) _
          (bind-Triple (change_primary_if-Triple id primary_id) λ done. get-Triple stack_id)

  pub remove_asset-Triple :
      (stack_id asset_id : String)
      → Triple K (remove_asset_from_stack u user_id stack_id asset_id) (λ r. K) K
  unfolding remove_asset_from_stack
  remove_asset-Triple stack_id asset_id =
      parse-Triple u user_id user parsed start keyed _ (λ db k. k) (u.parse stack_id) _
        λ id.
          parse-Triple u user_id user parsed start keyed _ (λ db k. k) (u.parse asset_id) _
            λ asset.
              user-Triple u user_id user parsed start keyed _ (λ db k. k) _
                (checked_stack-Triple u user_id user parsed start keyed K id _ _ _ (free user start)
                  (λ db k. k)
                  (bind-Triple (wrap-Triple _ (members-Triple user start keyed id)) λ assets.
                    bind-Triple (check-Triple _ (any (has_asset_id asset) assets) (λ db p. p.0.0))
                      λ done. record {
                        run = λ db ((k, own), e).
                            (wrap-Triple "failed to remove asset from stack" (
                                remove-Triple user start (asset ∷ []) (
                                  any-All (λ (r : Asset). Own user start r.id)
                                      (Own user start asset) (has_asset_id asset) assets
                                      (λ r h q.
                                        let same : r.id ≡ asset = ground arith in
                                        subst (Own user start) same h)
                                      own e,
                                  tt,
                                ))).run
                              db k.0;
                      }))
