-- ===== src/SharedLinks/Writes.antt =====
-- What the statements that write shared links keep.
use immich_go_backend.Base.{
  ℕ, ◌≡◌, refl, sym, subst, ◌∙◌, ◌≢◌, inl, inr, Bool, true, false, not, ◌&&◌, ◌||◌, Option, none,
  some, List, ◌∷◌, arith, ◌==◌, select, any, Bool-cases,
}
use immich_go_backend.Db.{SharedLink, Db}
use immich_go_backend.Db.Assets.{find}
use immich_go_backend.Db.Links.{
  has_link_id, same_pair, insert_pair, add_asset_to_shared_link, insert_link,
  create_shared_link_row, delete_shared_link_row, remove_asset_from_shared_link, LinkUpdate,
  write_link, update_found, update_shared_link_row,
}
use immich_go_backend.Db.Triples.{Post, Triple, statement-Triple}
use immich_go_backend.Db.Rows.{All, All-map, All-zip, identities, Keyed, Owns, any-All, All-select}
use immich_go_backend.Db.Owned.{
  rows_but-select, rows_but-update_where, keys_of-update_where, Keyed-select, All-keys_of-select,
  absent_id,
}
use immich_go_backend.SharedLinks.Attachments.{
  link_keys, is_foreign, select-select, WithLink-is_foreign, Fits, IsLinked, Safe, any-link_keys,
  any-select, free, WithLink, WithLink-free, Own,
}

module _ (user : ℕ) (start : Db) where
  abbrev K : Db → Type 0
  K = Safe user start

  add-Post :
      (there dup : Bool) (asset link : ℕ) (db : Db)
      → any (has_link_id link) db.links ≡ true
      → Own user start asset
      → WithLink user start link db
      → Post
          (λ u. WithLink user start link)
          (WithLink user start link)
          (insert_pair there dup (asset, link) db)
  add-Post false dup asset link db e own k = k
  add-Post true true asset link db e own k = k
  add-Post true false asset link db e own (k, o) = (
    record {
      assets_kept = k.assets_kept;
      others_kept = k.others_kept;
      pairs_kept = attach_pairs db k o;
      honest = record {
        keyed = k.honest.keyed;
        attached = (
          All-map _ _ (link_keys db.links)
              (λ (l : ℕ × ℕ) same z.
                subst (λ t. Owns t asset (identities db.assets)) (sym (same z))
                  (subst (λ xs. Owns user asset (identities xs)) (sym k.assets_kept) own))
              o,
          k.honest.attached,
        );
        linked = (sym (any-link_keys link db.links) ∙ e, k.honest.linked);
      };
    },
    o,
  )
    where
      attach_pairs :
          (db : Db)
          → K db
          → Owns user link (link_keys db.links)
          → select (is_foreign user start.links) ((asset, link) ∷ db.link_assets)
            ≡ select (is_foreign user start.links) start.link_assets
      attach_pairs db k o = elim (Bool-cases (is_foreign user start.links (asset, link))) [
        | inl f ↦ absurd (WithLink-is_foreign user start link db (k, o) (asset, link) f refl)
        | inr f ↦ rw f k.pairs_kept
      ]

  pub add-Triple :
      (asset link : ℕ)
      → Own user start asset
      → Triple
          (WithLink user start link)
          (add_asset_to_shared_link asset link)
          (λ u. WithLink user start link)
          (WithLink user start link)
  unfolding add_asset_to_shared_link
  add-Triple asset link own =
      statement-Triple (WithLink-free user start link) (λ db k. k)
        (record {
          run = λ db k. elim (Bool-cases (any (has_link_id link) db.links)) [
            | inl e ↦ add-Post _ _ asset link db e own k
            | inr e ↦ rw e (
                refused (any (λ a. a.id == asset) db.assets)
                  (any (same_pair asset link) db.link_assets) db k)
          ];
        })
    where
      refused :
          (there dup : Bool) (db : Db)
          → WithLink user start link db
          → Post
              (λ u. WithLink user start link)
              (WithLink user start link)
              (insert_pair (there && false) dup (asset, link) db)
      refused true dup db k = k
      refused false dup db k = k

  -- What holds of all attachments holds of those that are left.
  kept_pairs :
      (P : ℕ × ℕ → Type 0) (p : ℕ × ℕ → Bool) (xs : List (ℕ × ℕ)) → All P xs → All P (select p xs)
  kept_pairs P p xs h = All-map _ _ (select p xs) (λ (i : ℕ × ℕ) q. q.0) (All-select P p xs h)

  -- The statements that delete attachments to a link of the user spare those to links of others.
  spared :
      (link : ℕ) (db : Db)
      → WithLink user start link db
      → (asset : ℕ) (p : ℕ × ℕ) → is_foreign user start.links p ≡ true
      → not (same_pair asset link p) ≡ true
  spared link db k asset p f = let ne = WithLink-is_foreign user start link db k p f in ground arith

  pub remove-Triple :
      (asset link : ℕ)
      → Triple
          (WithLink user start link)
          (remove_asset_from_shared_link asset link)
          (λ u. WithLink user start link)
          (WithLink user start link)
  unfolding remove_asset_from_shared_link
  remove-Triple asset link =
      statement-Triple (WithLink-free user start link) (λ db k. k)
        (record {
          run = λ db (k, o). (
            record {
              assets_kept = k.assets_kept;
              others_kept = k.others_kept;
              pairs_kept =
                  select-select _ _ db.link_assets (spared link db (k, o) asset) ∙ k.pairs_kept;
              honest = record {
                keyed = k.honest.keyed;
                attached = kept_pairs _ _ db.link_assets k.honest.attached;
                linked = kept_pairs _ _ db.link_assets k.honest.linked;
              };
            },
            o,
          );
        })

  -- A new link has no attachments.
  unattached :
      (id : ℕ) (is : List (ℕ × ℕ)) (ps : List (ℕ × ℕ))
      → All (λ (j : ℕ × ℕ). j.0 ≢ id) is
      → All (IsLinked is) ps
      → All (λ (p : ℕ × ℕ). p.1 ≢ id) ps
  unattached id is ps away linked =
      All-map _ _ ps
        (λ (p : ℕ × ℕ) h e.
          any-All (λ (j : ℕ × ℕ). j.0 ≢ id) ⊥ (λ (j : ℕ × ℕ). j.0 == p.1) is
            (λ j ne q. let same : j.0 ≡ p.1 = ground arith in ne (same ∙ e)) away h)
        linked

  insert-Post :
      (allowed : Bool) (l : SharedLink) (db : Db)
      → l.user_id ≡ user
      → any (has_link_id l.id) db.links ≡ false
      → K db
      → Post (λ (r : SharedLink). WithLink user start r.id) K (insert_link allowed l db)
  insert-Post false l db mine e k = k
  insert-Post true l db mine e k =
      let away =
        absent_id (λ (x : SharedLink). x.id) (λ (x : SharedLink). x.user_id) l.id db.links e in
      let own : (l.user_id == user) ≡ true = ground arith in
      (
        record {
          assets_kept = k.assets_kept;
          others_kept = rw own k.others_kept;
          pairs_kept = k.pairs_kept;
          honest = record {
            keyed = (away, k.honest.keyed);
            attached =
                All-zip _ _ _ db.link_assets
                  (λ (p : ℕ × ℕ) ne fits. ((λ z. absurd (ne (sym z))), fits))
                  (unattached l.id (link_keys db.links) db.link_assets away k.honest.linked)
                  k.honest.attached;
            linked =
                All-map _ _ db.link_assets (λ (p : ℕ × ℕ) h. later (l.id == p.1) _ h)
                  k.honest.linked;
          };
        },
        ((λ z. mine), All-map _ _ (link_keys db.links) (λ (i : ℕ × ℕ) ne z. absurd (ne z)) away),
      )
    where
      later : (a b : Bool) → b ≡ true → (a || b) ≡ true
      later true b h = refl
      later false b h = h

  pub create-Triple :
      (id : ℕ) (params : SharedLink)
      → params.user_id ≡ user
      → Triple K (create_shared_link_row id params) (λ r. WithLink user start r.id) K
  unfolding create_shared_link_row
  create-Triple id params mine =
      statement-Triple (free user start) (λ db k. k)
        (record {
          run = λ db k. elim (Bool-cases (any (has_link_id id) db.links)) [
            | inl e ↦ rw e k
            | inr e ↦ insert-Post _ (record params { id = id; created_at = db.clock }) db mine e k
          ];
        })

  pub delete-Triple :
      (id : ℕ) → Triple (WithLink user start id) (delete_shared_link_row id) (λ u. K) K
  unfolding delete_shared_link_row
  delete-Triple id =
      statement-Triple (WithLink-free user start id) (λ db k. k.0)
        (record {
          run = λ db (k, o). record {
            assets_kept = k.assets_kept;
            others_kept =
                rows_but-select (λ (x : SharedLink). x.id) (λ (x : SharedLink). x.user_id) user id
                  db.links o
                ∙ k.others_kept;
            pairs_kept =
                select-select _ _ db.link_assets (λ p f.
                  let ne : p.1 ≢ id = WithLink-is_foreign user start id db (k, o) p f in
                  ground arith)
                ∙ k.pairs_kept;
            honest = record {
              keyed =
                  Keyed-select (λ (x : SharedLink). x.id) (λ (x : SharedLink). x.user_id) _ db.links
                    k.honest.keyed;
              attached = kept_pairs _ _ db.link_assets (
                  All-map _ _ db.link_assets
                    (λ (p : ℕ × ℕ) fits.
                      All-keys_of-select (λ (x : SharedLink). x.id) (λ (x : SharedLink). x.user_id)
                        _ _ db.links fits)
                    k.honest.attached);
              linked =
                  All-map _ _ (select (λ p. not (p.1 == id)) db.link_assets)
                    (λ (p : ℕ × ℕ) (h, q).
                      let ne : p.1 ≢ id = ground arith in any-select id p.1 db.links ne h)
                    (All-select (IsLinked (link_keys db.links)) (λ p. not (p.1 == id))
                      db.link_assets k.honest.linked);
            };
          };
        })

  update-Post :
      (id : ℕ) (p : LinkUpdate) (found : Option SharedLink) (db : Db)
      → WithLink user start id db
      → Post (λ (l : SharedLink). K) K (update_found id p found db)
  update-Post id p none db k = k.0
  update-Post id p (some l) db (k, o) =
      let same = sym (
        keys_of-update_where (λ (x : SharedLink). x.id) (λ (x : SharedLink). x.user_id) user id
          (write_link p) (λ r. refl) (λ r. refl) (has_link_id id) db.links) in
      record {
        assets_kept = k.assets_kept;
        others_kept =
            rows_but-update_where (λ (x : SharedLink). x.id) (λ (x : SharedLink). x.user_id) user id
              (write_link p) (λ r. refl) (λ r. refl) db.links o
            ∙ k.others_kept;
        pairs_kept = k.pairs_kept;
        honest = record {
          keyed = subst Keyed same k.honest.keyed;
          attached =
              subst (λ is. All (Fits (identities db.assets) is) db.link_assets) same
                k.honest.attached;
          linked = subst (λ is. All (IsLinked is) db.link_assets) same k.honest.linked;
        };
      }

  pub update-Triple :
      (id : ℕ) (p : LinkUpdate)
      → Triple (WithLink user start id) (update_shared_link_row id p) (λ l. K) K
  unfolding update_shared_link_row
  update-Triple id p =
      statement-Triple (WithLink-free user start id) (λ db k. k.0)
        (record { run = λ db k. update-Post id p (find (has_link_id id) db.links) db k })
