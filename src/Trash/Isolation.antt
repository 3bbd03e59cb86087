-- ===== src/Trash/Isolation.antt =====
-- No operation of internal/trash/service.go changes a row of another user.
use immich_go_backend.Base.{ℕ, ◌≡◌, sym, subst, ◌∙◌, String, some, List, [], ◌∷◌, ◌==◌, ==_iff}
use immich_go_backend.Db.{Asset, Db, M, ◌>>=◌, wrap, need, UuidLib}
use immich_go_backend.Db.Assets.{get_trashed_assets_by_user}
use immich_go_backend.Db.Triples.{
  Post, Triple, bind-Triple, wrap-Triple, succeeds-Triple, pre-Triple, return-Triple, need-Triple,
  check-Triple,
}
use immich_go_backend.Db.Rows.{All, identities, Keyed, Owns}
use immich_go_backend.Trash.{owned_asset, each_counted, batch}
use immich_go_backend.Trash.Ownership.{Isolated, Own, get-Triple, list-Triple}

module _ (u : UuidLib) (user_id : String) (user : ℕ) (parsed : u.parse user_id ≡ some user)
    (start : Db) (keyed : Keyed (identities start.assets)) where
  abbrev K : Db → Type 0
  K = Isolated user start

  -- The user id parses to the user.
  pub user-Triple :
      {A : Type 0} (f : ℕ → M A) {Q : A → Db → Type 0}
      → Triple K (f user) Q K
      → Triple K (need "invalid user ID" (u.parse user_id) >>= f) Q K
  user-Triple f {Q} h =
      bind-Triple (need-Triple "invalid user ID" (u.parse user_id) (λ db k. k)) λ a. record {
        run = λ db p.
            let same : some user ≡ some a = sym parsed ∙ p.1 in
            let user≡a : user ≡ a = cc in subst (λ t. Post Q K (f t db)) user≡a (h.run db p.0);
      }

  pub owned-Triple :
      (asset_id : String)
      → Triple K (owned_asset u user_id asset_id) (λ id db. K db × Own user start id) K
  unfolding owned_asset
  owned-Triple asset_id = user-Triple _ (
      bind-Triple (need-Triple "invalid asset ID" (u.parse asset_id) (λ db k. k)) λ id.
        pre-Triple (λ db h. h.0)
          (bind-Triple (wrap-Triple "asset not found" (get-Triple user start keyed id)) λ asset.
            bind-Triple (check-Triple _ (asset.owner_id == user) (λ db h. h.0)) λ done. record {
              run = λ db h.
                  let own : asset.owner_id ≡ user = (==_iff asset.owner_id user).0 h.1 in
                  (h.0.0, subst (λ t. Owns t id (identities start.assets)) own h.0.1);
            }))

  pub fact-Triple :
      {A : Type 0} {F : Type 0} {m : M A} {Q : A → Db → Type 0}
      → (F → Triple K m Q K)
      → Triple (λ db. K db × F) m Q K
  fact-Triple h = record { run = λ db p. (h p.1).run db p.0 }

  -- The operations on one asset.
  pub single-Triple :
      (asset_id message : String) (act : ℕ → M (Unit {0}))
      → ((id : ℕ) → Own user start id → Triple K (act id) (λ done. K) K)
      → Triple K (owned_asset u user_id asset_id >>= λ id. wrap message (act id)) (λ done. K) K
  single-Triple asset_id message act h =
      bind-Triple (owned-Triple asset_id) λ id. fact-Triple λ own. wrap-Triple message (h id own)

  -- The operations on a list of ids.
  pub batch-Triple :
      (act : List ℕ → ℕ → M (Unit {0})) (message : String) (ids : List ℕ)
      → ((is : List ℕ) → Triple K (act is user) (λ done. K) K)
      → Triple K (batch act message ids user) (λ n. K) K
  unfolding batch
  batch-Triple act message [] h = return-Triple 0
  batch-Triple act message (i ∷ is) h =
      bind-Triple (wrap-Triple message (h (i ∷ is))) λ done. return-Triple _

  -- The operations on every asset in the user's trash.
  pub each-Triple :
      (act : ℕ → M (Unit {0})) (rows : List Asset) (n : ℕ)
      → ((id : ℕ) → Own user start id → Triple K (act id) (λ done. K) K)
      → All (λ (r : Asset). Own user start r.id) rows
      → Triple K (each_counted act rows n) (λ n. K) K
  unfolding each_counted
  each-Triple act [] n h own = return-Triple n
  each-Triple act (r ∷ rows) n h (own, owns) =
      bind-Triple (succeeds-Triple (h r.id own)) λ done. each-Triple act rows _ h owns

  pub whole-Triple :
      (act : ℕ → M (Unit {0}))
      → ((id : ℕ) → Own user start id → Triple K (act id) (λ done. K) K)
      → Triple K
          (need "invalid user ID" (u.parse user_id) >>= λ user'.
            wrap "failed to get trashed assets" (get_trashed_assets_by_user user') >>= λ rows.
            each_counted act rows 0)
          (λ n. K)
          K
  whole-Triple act h = user-Triple _ (
      bind-Triple (wrap-Triple _ (list-Triple user start keyed))
        λ rows. fact-Triple λ own. each-Triple act rows 0 h own)
