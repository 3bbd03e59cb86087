-- ===== src/Stacks/Statements.antt =====
-- What the statements of internal/stacks/service.go keep when they are on a user's own rows.
use immich_go_backend.Base.{
  ℕ, ◌≡◌, refl, ◌∙◌, Bool, true, not, ◌&&◌, Option, none, some, List, arith, ◌==◌, select,
}
use immich_go_backend.Db.{Asset, Db, statement}
use immich_go_backend.Db.Assets.{find, is_null, is_among, update_assets}
use immich_go_backend.Db.Stacks.{
  refers, is_some, is_member, set_stack, has_stack_id, get_stack_row, get_stack_with_assets,
  get_stack_assets, counted, clear_stack_assets, delete_stacks_where, delete_stack_row,
  delete_stacks_by_ids,
}
use immich_go_backend.Db.Triples.{Triple, row-Post, statement-Triple}
use immich_go_backend.Db.Rows.{
  All, All-map, identities, Keyed, Owns, others, others-update_where, identities-update_where,
}
use immich_go_backend.Stacks.Coherence.{
  owners, Fits, Coherent, Mine, find-Mine, All-update_where, unstacked, other_stacks,
  other_stacks-select, Keyed-select, All-owners-select,
}

-- Since `start` no asset or stack of another user has changed, no asset has come, gone or changed
-- its owner, the ids of the stacks are distinct, and all assets in a stack are its owner's.
pub record Safe (user : ℕ) (start db : Db) : Type 0 where
  pub others_kept : others user db.assets ≡ others user start.assets
  pub identities_kept : identities db.assets ≡ identities start.assets
  pub stacks_kept : other_stacks user db.stacks ≡ other_stacks user start.stacks
  pub keyed : Keyed (owners db.stacks)
  pub coherent : Coherent db.assets (owners db.stacks)

module _ (user : ℕ) (start : Db) where
  abbrev K : Db → Type 0
  K = Safe user start

  pub free : (db : Db) (later : List Bool) → K db → K (record db { outages = later })
  free db later h = record {
    others_kept = h.others_kept;
    identities_kept = h.identities_kept;
    stacks_kept = h.stacks_kept;
    keyed = h.keyed;
    coherent = h.coherent;
  }

  Mine-free :
      (p : ℕ → Bool) (db : Db) (later : List Bool)
      → Mine user p db
      → Mine user p (record db { outages = later })
  Mine-free p db later h = record { stacks_mine = h.stacks_mine; assets_mine = h.assets_mine }

  -- With a fact on some stacks that an operation has checked.
  abbrev pub Checked : (ℕ → Bool) → Db → Type 0
  Checked p db = K db × Mine user p db

  pub Checked-free :
      (p : ℕ → Bool) (db : Db) (later : List Bool)
      → Checked p db
      → Checked p (record db { outages = later })
  Checked-free p db later (h, m) = (free db later h, Mine-free p db later m)

  pub stack-Triple :
      (P : Db → Type 0) (id : ℕ)
      → ((db : Db) (later : List Bool) → P db → P (record db { outages = later }))
      → ((db : Db) → P db → K db)
      → Triple P (get_stack_row id) (λ s db. P db × Mine s.owner_id (λ t. t == id) db) K
  unfolding get_stack_row
  stack-Triple P id keep safe = statement-Triple keep safe (record {
    run = λ db h.
        row-Post _ _ db (find (has_stack_id id) db.stacks)
          (λ s e. (h, find-Mine id db s (safe db h).keyed (safe db h).coherent e)) (safe db h);
  })

  -- Queries that only read.
  pub assets-Triple :
      (P : Db → Type 0) (id : ℕ)
      → ((db : Db) (later : List Bool) → P db → P (record db { outages = later }))
      → ((db : Db) → P db → K db)
      → Triple P (get_stack_assets id) (λ rows. P) K
  unfolding get_stack_assets
  assets-Triple P id keep safe = statement-Triple keep safe (record { run = λ db h. h })

  pub counted-Triple : (id : ℕ) → Triple K (get_stack_with_assets id) (λ s. K) K
  unfolding get_stack_with_assets
  counted-Triple id =
      statement-Triple free (λ db h. h)
        (record {
          run =
              λ db h. row-Post _ _ db (counted db (find (has_stack_id id) db.stacks)) (λ s e. h) h;
        })

  -- An UPDATE that takes the user's assets out of their stacks.
  none-Triple :
      (m : ℕ → Bool) (p : Asset → Bool)
      → ((db : Db) → Checked m db → All (λ a. p a ≡ true → a.owner_id ≡ user) db.assets)
      → Triple (Checked m) (statement (update_assets p (set_stack none))) (λ u. Checked m) K
  none-Triple m p own =
      statement-Triple (Checked-free m) (λ db h. h.0)
        (record {
          run = λ db h.
              let k = h.0 in
              (
                record {
                  others_kept =
                      others-update_where user p _ (λ a. refl) (λ a. refl) db.assets (own db h)
                      ∙ k.others_kept;
                  identities_kept =
                      identities-update_where user p _ (λ a. refl) (λ a. refl) db.assets
                      ∙ k.identities_kept;
                  stacks_kept = k.stacks_kept;
                  keyed = k.keyed;
                  coherent =
                      All-update_where (λ a. All (Fits a) (owners db.stacks)) p _ db.assets
                        k.coherent
                        (All-map _ _ db.assets
                          (λ (a : Asset) g e. unstacked a.owner_id (owners db.stacks)) (own db h));
                },
                record {
                  stacks_mine = h.1.stacks_mine;
                  assets_mine =
                      All-update_where (λ a. refers m a.stack_id ≡ true → a.owner_id ≡ user) p _
                        db.assets h.1.assets_mine
                        (All-map _ _ db.assets (λ (a : Asset) g e q. g e) (own db h));
                },
              );
        })

  pub clear-Triple :
      (m : ℕ → Bool) (id : ℕ)
      → m id ≡ true
      → Triple (Checked m) (clear_stack_assets id) (λ u. Checked m) K
  unfolding clear_stack_assets
  clear-Triple m id h = none-Triple m (is_member id) λ db k.
      All-map _ _ db.assets (λ (a : Asset) g e. g (member a.stack_id (is_null a.deleted_at) e))
        k.1.assets_mine
    where
      member : (o : Option ℕ) (b : Bool) → (is_some o id && b) ≡ true → refers m o ≡ true
      member none b e = cc
      member (some s) b e = let same : id ≡ s = ground arith in rw (← same) h

  -- DELETE of the user's stacks.
  delete-Triple : (p : ℕ → Bool) → Triple (Checked p) (statement (delete_stacks_where p)) (λ u. K) K
  delete-Triple p =
      statement-Triple (Checked-free p) (λ db h. h.0)
        (record {
          run = λ db (k, m). record {
            others_kept =
                others-update_where user _ _ (λ a. refl) (λ a. refl) db.assets m.assets_mine
                ∙ k.others_kept;
            identities_kept =
                identities-update_where user _ _ (λ a. refl) (λ a. refl) db.assets
                ∙ k.identities_kept;
            stacks_kept = other_stacks-select user p db.stacks m.stacks_mine ∙ k.stacks_kept;
            keyed = Keyed-select _ db.stacks k.keyed;
            coherent =
                All-update_where (λ a. All (Fits a) (owners (select (λ s. not (p s.id)) db.stacks)))
                  (λ a. refers p a.stack_id)
                  (λ a. record a { stack_id = none; updated_at = db.clock }) db.assets
                  (All-map _ _ db.assets (λ (a : Asset) g. All-owners-select _ (Fits a) db.stacks g)
                    k.coherent)
                  (All-map _ _ db.assets (λ (a : Asset) g e. unstacked a.owner_id _) k.coherent);
          };
        })

  pub delete_one-Triple :
      (id : ℕ) → Triple (Checked (λ t. t == id)) (delete_stack_row id) (λ u. K) K
  unfolding delete_stack_row
  delete_one-Triple id = delete-Triple (λ t. t == id)

  pub delete_many-Triple :
      (ids : List ℕ) → Triple (Checked (is_among ids)) (delete_stacks_by_ids ids) (λ u. K) K
  unfolding delete_stacks_by_ids
  delete_many-Triple ids = delete-Triple (is_among ids)

  -- Who owns an asset, by its id.
  abbrev pub Own : ℕ → Type 0
  Own id = Owns user id (identities start.assets)
