-- ===== src/Trash/Ownership.antt =====
-- Whose rows the statements of internal/trash/service.go change.
use immich_go_backend.Base.{ℕ, ◌≡◌, refl, sym, subst, ◌∙◌, Bool, true, List, arith}
use immich_go_backend.Db.{active, trashed, Asset, Db, statement}
use immich_go_backend.Db.Assets.{
  find, update_assets, is_live, get_asset, get_trashed_assets_by_user, move_asset_to_trash,
  move_assets_to_trash, restore_asset_from_trash, restore_assets, permanently_delete_asset,
  set_status, set_deleted, is_trashed_of,
}
use immich_go_backend.Db.Triples.{Triple, row-Post, statement-Triple}
use immich_go_backend.Db.Rows.{
  All, All-map, All-sort_by, identities, Keyed, Owns, Owns-All, All-always, others,
  others-update_where, identities-update_where, Keyed-Owns, find-All, select-All,
}

-- Since `start` only rows of the user have changed, no row has come, gone or changed its id or owner,
-- and no stack has changed.
pub record Isolated (user : ℕ) (start db : Db) : Type 0 where
  pub others_kept : others user db.assets ≡ others user start.assets
  pub identities_kept : identities db.assets ≡ identities start.assets
  pub stacks_kept : db.stacks ≡ start.stacks

pub Isolated-refl : (user : ℕ) (db : Db) → Isolated user db db
Isolated-refl user db = record { others_kept = refl; identities_kept = refl; stacks_kept = refl }

module _ (user : ℕ) (start : Db) where
  abbrev I : Db → Type 0
  I = Isolated user start

  -- The user owns the id, in `start` as in all later states.
  abbrev pub Own : ℕ → Type 0
  Own id = Owns user id (identities start.assets)

  free : (db : Db) (later : List Bool) → I db → I (record db { outages = later })
  free db later h = record {
    others_kept = h.others_kept;
    identities_kept = h.identities_kept;
    stacks_kept = h.stacks_kept;
  }

  update-Triple :
      (p : Asset → Bool) (f : ℕ → Asset → Asset)
      → ((n : ℕ) (a : Asset) → (f n a).id ≡ a.id)
      → ((n : ℕ) (a : Asset) → (f n a).owner_id ≡ a.owner_id)
      → ((db : Db) → I db → All (λ a. p a ≡ true → a.owner_id ≡ user) db.assets)
      → Triple I (statement (update_assets p f)) (λ u. I) I
  update-Triple p f ids owners own =
      statement-Triple free (λ db h. h)
        (record {
          run = λ db h. record {
            others_kept =
                others-update_where user p _ (ids db.clock) (owners db.clock) db.assets (own db h)
                ∙ h.others_kept;
            identities_kept =
                identities-update_where user p _ (ids db.clock) (owners db.clock) db.assets
                ∙ h.identities_kept;
            stacks_kept = h.stacks_kept;
          };
        })

  -- A statement on one row, by its id.
  module _ (id : ℕ) (own : Own id) where
    one-Triple :
        (p : Asset → Bool) (f : ℕ → Asset → Asset)
        → ((n : ℕ) (a : Asset) → (f n a).id ≡ a.id)
        → ((n : ℕ) (a : Asset) → (f n a).owner_id ≡ a.owner_id)
        → ((a : Asset) → p a ≡ true → a.id ≡ id)
        → Triple I (statement (update_assets p f)) (λ u. I) I
    one-Triple p f ids owners at =
        update-Triple p f ids owners
          λ db h. Owns-All user id p db.assets at (subst (Owns user id) (sym h.identities_kept) own)

    pub move-Triple : Triple I (move_asset_to_trash id) (λ u. I) I
    unfolding move_asset_to_trash
    move-Triple =
        one-Triple _ (set_status trashed) (λ n a. refl) (λ n a. refl) (λ a e. ground arith)

    pub restore-Triple : Triple I (restore_asset_from_trash id) (λ u. I) I
    unfolding restore_asset_from_trash
    restore-Triple =
        one-Triple _ (set_status active) (λ n a. refl) (λ n a. refl) (λ a e. ground arith)

    pub delete-Triple : Triple I (permanently_delete_asset id) (λ u. I) I
    unfolding permanently_delete_asset
    delete-Triple = one-Triple _ set_deleted (λ n a. refl) (λ n a. refl) (λ a e. ground arith)

  -- A statement on several rows, with the owner in its condition.
  pub moves-Triple : (ids : List ℕ) → Triple I (move_assets_to_trash ids user) (λ u. I) I
  unfolding move_assets_to_trash
  moves-Triple ids =
      update-Triple _ (set_status trashed) (λ n a. refl) (λ n a. refl)
        λ db h. All-always user _ db.assets (λ a e. ground arith)

  pub restores-Triple : (ids : List ℕ) → Triple I (restore_assets ids user) (λ u. I) I
  unfolding restore_assets
  restores-Triple ids =
      update-Triple _ (set_status active) (λ n a. refl) (λ n a. refl)
        λ db h. All-always user _ db.assets (λ a e. ground arith)

  module _ (keyed : Keyed (identities start.assets)) where
    keys :
        (db : Db)
        → I db
        → All (λ (i : ℕ × ℕ). Owns i.1 i.0 (identities start.assets)) (identities db.assets)
    keys db h =
        subst (All (λ (i : ℕ × ℕ). Owns i.1 i.0 (identities start.assets))) (sym h.identities_kept)
          (Keyed-Owns (identities start.assets) keyed)

    pub get-Triple :
        (id : ℕ)
        → Triple I (get_asset id) (λ r db. I db × Owns r.owner_id id (identities start.assets)) I
    unfolding get_asset
    get-Triple id =
        statement-Triple free (λ db h. h)
          (record {
            run = λ db h.
                row-Post _ _ db (find (is_live id) db.assets)
                  (λ r e.
                    let (own, q) =
                      find-All (λ (i : ℕ × ℕ). Owns i.1 i.0 (identities start.assets)) (is_live id)
                        db.assets (keys db h) e in
                    let at : r.id ≡ id = ground arith in
                    (h, subst (λ t. Owns r.owner_id t (identities start.assets)) at own))
                  h;
          })

    pub list-Triple :
        Triple I
          (get_trashed_assets_by_user user)
          (λ rows db. I db × All (λ (r : Asset). Own r.id) rows)
          I
    unfolding get_trashed_assets_by_user
    list-Triple =
        statement-Triple free (λ db h. h)
          (record {
            run = λ db h. (
              h,
              All-sort_by (λ (r : Asset). Own r.id) _ _
                  (All-map
                    (λ (r : Asset).
                      Owns r.owner_id r.id (identities start.assets)
                      × (is_trashed_of user r ≡ true))
                    (λ (r : Asset). Own r.id) _
                    (λ r (own, q).
                      let mine : r.owner_id ≡ user = ground arith in
                      subst (λ t. Owns t r.id (identities start.assets)) mine own)
                    (select-All (λ (i : ℕ × ℕ). Owns i.1 i.0 (identities start.assets))
                      (is_trashed_of user) db.assets (keys db h))),
            );
          })
