-- ===== src/Downloads/Access.antt =====
-- Which assets internal/download/service.go gives to a user.
use immich_go_backend.Base.{
  ℕ, ◌≡◌, refl, sym, subst, ◌∙◌, ap, inl, inr, String, Bool, true, false, ◌||◌, Option, none, some,
  List, [], ◌∷◌, ◌++◌, arith, ◌==◌, if◌then◌else◌, select, Bool-cases,
}
use immich_go_backend.Db.{Asset, AlbumAsset, Db, Outcome, ok, err, M, continue, ◌>>=◌}
use immich_go_backend.Db.Assets.{find, is_null, is_live, get_asset, sort_by}
use immich_go_backend.Db.Albums.{
  is_shared, check_asset_shared_with_user, to_list, join_assets, get_album_assets,
}
use immich_go_backend.Db.Owned.{find-holds}
use immich_go_backend.Db.Triples.{
  Post, Triple, row-Post, bind-Triple, wrap-Triple, need-Triple, check-Triple, pre-Triple,
  post-Triple, statement-Triple,
}
use immich_go_backend.Db.Rows.{All}
use immich_go_backend.Downloads.{
  DownloadLib, DownloadRequest, granted, check_shared_access, user_can_access_asset, can_access,
  get_accessible_asset, found_or_not, try_asset, add_found, accessible_of, download_asset,
  get_thumbnail, get_presigned_url, resolve_each, resolve_by, resolve_album_download_assets,
  resolve_download_assets,
}

-- The user owns the asset, or a live album with it is shared with the user.
abbrev pub may_see : Db → ℕ → Asset → Bool
may_see db user a = (a.owner_id == user) || is_shared db a.id user

-- The asset is not deleted, and the user may see it.
abbrev pub Visible : Db → ℕ → Asset → Type 0
Visible db user a = (is_null a.deleted_at ≡ true) × (may_see db user a ≡ true)

abbrev Live : Asset → Type 0
Live a = is_null a.deleted_at ≡ true

All-append : {A : Type 0} (P : A → Type 0) (xs ys : List A) → All P xs → All P ys → All P (xs ++ ys)
All-append P [] ys h k = k
All-append P (x ∷ xs) ys (p, h) k = (p, All-append P xs ys h k)

find-Live : (id : ℕ) (xs : List Asset) (a : Asset) → find (is_live id) xs ≡ some a → Live a
find-Live id xs a e = let live = find-holds (is_live id) xs e in ground arith

to_list-Live :
    (id : ℕ) (xs : List Asset) (o : Option Asset) → find (is_live id) xs ≡ o → All Live (to_list o)
to_list-Live id xs none e = tt
to_list-Live id xs (some a) e = (find-Live id xs a e, tt)

join_assets-Live : (xs : List Asset) (rows : List AlbumAsset) → All Live (join_assets xs rows)
join_assets-Live xs [] = tt
join_assets-Live xs (r ∷ rows) =
    All-append Live _ _ (to_list-Live r.asset_id xs _ refl) (join_assets-Live xs rows)

module _ (user : ℕ) (start : Db) where
  -- Only the list of outages changes.
  pub record Same (db : Db) : Type 0 where
    pub kept : is_shared db ≡ is_shared start
    pub assets_kept : db.assets ≡ start.assets

  free : (db : Db) (later : List Bool) → Same db → Same (record db { outages = later })
  free db later h = record { kept = h.kept; assets_kept = h.assets_kept }

  shared-Triple :
      (asset : ℕ)
      → Triple Same
          (check_shared_access user asset)
          (λ b db. Same db × (b ≡ is_shared start asset user))
          Same
  unfolding check_shared_access check_asset_shared_with_user
  shared-Triple asset = wrap-Triple _ (
      statement-Triple free (λ db k. k)
        (record { run = λ db k. (k, ap (λ f. f asset user) k.kept) }))

  granted-Post :
      (P : Bool → Type 0) (o : Outcome Bool)
      → Post (λ b db. Same db × (b ≡ true → P true)) Same o
      → Post (λ b db. Same db × (b ≡ true → P true)) Same (granted o)
  granted-Post P (ok b db) h = h
  granted-Post P (err e db) h = (h, λ q. absurd cc)

  access-Triple :
      (a : Asset)
      → Triple Same
          (user_can_access_asset user a)
          (λ b db. Same db × (b ≡ true → may_see start user a ≡ true))
          Same
  unfolding user_can_access_asset
  access-Triple a = elim (Bool-cases (a.owner_id == user)) [
    | inl e ↦ rw e (record { run = λ db k. (k, λ q. refl) })
    | inr e ↦ rw e (post-Triple (λ b db (k, q). (k, λ p. sym q ∙ p)) (shared-Triple a.id))
  ]

  pub can_access-Triple :
      (a : Asset)
      → Triple Same
          (can_access user a)
          (λ b db. Same db × (b ≡ true → may_see start user a ≡ true))
          Same
  unfolding can_access
  can_access-Triple a = record {
    run = λ db k.
        granted-Post (λ b. may_see start user a ≡ true) (user_can_access_asset user a db)
          ((access-Triple a).run db k);
  }

  asset-Triple :
      (id : ℕ)
      → Triple Same
          (get_asset id)
          (λ a db. Same db × Live a × (find (is_live id) start.assets ≡ some a))
          Same
  unfolding get_asset
  asset-Triple id =
      statement-Triple free (λ db k. k)
        (record {
          run = λ db k.
              row-Post _ _ db (find (is_live id) db.assets)
                (λ a e. (
                  k,
                  find-Live id db.assets a e,
                  subst (λ xs. find (is_live id) xs ≡ some a) k.assets_kept e,
                ))
                k;
        })

  pub get-Triple :
      (id : ℕ)
      → Triple Same
          (get_accessible_asset user id)
          (λ a db. Same db × Visible start user a × (find (is_live id) start.assets ≡ some a))
          Same
  unfolding get_accessible_asset
  get-Triple id = bind-Triple (wrap-Triple _ (asset-Triple id)) λ a. record {
    run = λ db (k, live, found).
        (bind-Triple (can_access-Triple a) λ access. record {
          run = λ next (h, sees).
              (bind-Triple (check-Triple {P = Same} _ access (λ db k. k))
                  λ done. record { run = λ final (q, e). (q, (live, sees e), found) }).run
                next h;
        }).run
          db k;
  }

  abbrev AllVisible : List Asset → Type 0
  AllVisible = All (Visible start user)

  found-Post :
      (id : ℕ) (o : Outcome Asset)
      → Post
          (λ a db. Same db × Visible start user a × (find (is_live id) start.assets ≡ some a))
          Same
          o
      → Post (λ r db. Same db × AllVisible (to_list r)) Same (found_or_not o)
  found-Post id (ok a db) (k, v, e) = (k, (v, tt))
  found-Post id (err e db) k = (k, tt)

  try-Triple :
      (o : Option ℕ)
      → Triple Same (try_asset user o) (λ r db. Same db × AllVisible (to_list r)) Same
  unfolding try_asset
  try-Triple none = record { run = λ db k. (k, tt) }
  try-Triple (some id) = record {
    run = λ db k. found-Post id (get_accessible_asset user id db) ((get-Triple id).run db k);
  }

  add_found-All :
      (o : Option Asset) (rest : List Asset)
      → AllVisible (to_list o)
      → AllVisible rest
      → AllVisible (add_found o rest)
  add_found-All none rest h k = k
  add_found-All (some a) rest (h, u) k = (h, k)

  each-Triple :
      (lib : DownloadLib) (ids : List String)
      → Triple Same (resolve_each lib user ids) (λ r db. Same db × AllVisible r) Same
  unfolding resolve_each
  each-Triple lib [] = record { run = λ db k. (k, tt) }
  each-Triple lib (s ∷ ids) = bind-Triple (try-Triple (lib.uuids.parse s)) λ found. record {
    run = λ db (k, v).
        (bind-Triple (each-Triple lib ids)
            λ rest. record { run = λ next (h, vs). (h, add_found-All found rest v vs) }).run
          db k;
  }

  keep_if :
      (b : Bool) (a : Asset) (rest : List Asset)
      → (b ≡ true → Visible start user a)
      → AllVisible rest
      → AllVisible (if b then a ∷ rest else rest)
  keep_if true a rest h k = (h refl, k)
  keep_if false a rest h k = k

  of-Triple :
      (assets : List Asset)
      → All Live assets
      → Triple Same (accessible_of user assets) (λ r db. Same db × AllVisible r) Same
  unfolding accessible_of
  of-Triple [] h = record { run = λ db k. (k, tt) }
  of-Triple (a ∷ assets) (live, h) = bind-Triple (can_access-Triple a) λ access. record {
    run = λ db (k, sees).
        (bind-Triple (of-Triple assets h) λ rest. record {
          run = λ next (q, vs). (q, keep_if access a rest (λ e. (live, sees e)) vs);
        }).run
          db k;
  }

  album_assets-Triple :
      (album : ℕ)
      → Triple Same (get_album_assets album) (λ assets db. Same db × All Live assets) Same
  unfolding get_album_assets
  album_assets-Triple album =
      statement-Triple free (λ db k. k)
        (record {
          run = λ db k. (
            k,
            join_assets-Live db.assets
                (sort_by (λ r. r.created_at) (select (λ r. r.album_id == album) db.album_assets)),
          );
        })

  album-Triple :
      (lib : DownloadLib) (id : String)
      → Triple Same
          (resolve_album_download_assets lib user id)
          (λ r db. Same db × AllVisible r)
          Same
  unfolding resolve_album_download_assets
  album-Triple lib id = bind-Triple (need-Triple _ (lib.uuids.parse id) (λ db k. k)) λ album.
      pre-Triple (λ db p. p.0)
        (bind-Triple (wrap-Triple _ (album_assets-Triple album))
          λ assets. record { run = λ db (k, live). (of-Triple assets live).run db k })

  pub resolve-Triple :
      (lib : DownloadLib) (req : DownloadRequest)
      → Triple Same (resolve_download_assets lib user req) (λ r db. Same db × AllVisible r) Same
  unfolding resolve_download_assets
  resolve-Triple lib req = resolve (req.album_id)
    where
      resolve :
          (o : Option String)
          → Triple Same (resolve_by lib user req.asset_ids o) (λ r db. Same db × AllVisible r) Same
      resolve none = each-Triple lib req.asset_ids
      resolve (some id) = album-Triple lib id

  -- The user may see the live asset with the id.
  pub record Sees (id : ℕ) : Type 0 where
    pub asset : Asset
    pub found : find (is_live id) start.assets ≡ some asset
    pub sees : may_see start user asset ≡ true

  seen :
      {A : Type 0} (id : ℕ) (f : Asset → M A)
      → Post (λ r final. Sees id) (λ final. Unit) ((get_accessible_asset user id >>= f) start)
  seen {A} id f = go _ ((get-Triple id).run start (record { kept = refl; assets_kept = refl }))
    where
      keep :
          (a : Asset) (o : Outcome A) → Sees id → Post (λ (r : A) final. Sees id) (λ final. Unit) o
      keep a (ok r db) h = h
      keep a (err e db) h = tt

      go :
          (o : Outcome Asset)
          → Post
              (λ a db. Same db × Visible start user a × (find (is_live id) start.assets ≡ some a))
              Same
              o
          → Post (λ (r : A) final. Sees id) (λ final. Unit) (continue o f)
      go (ok a db) (k, v, e) = keep a (f a db) (record { asset = a; found = e; sees = v.1 })
      go (err e db) k = tt

-- What a request for several assets or for an album resolves to is not deleted, and the user owns it or
-- a live album with it is shared with the user, whatever statements fail.
pub resolve_download_assets-Visible :
    (lib : DownloadLib) (user : ℕ) (req : DownloadRequest) (db : Db)
    → Post
        (λ assets final. All (Visible db user) assets)
        (λ final. Unit)
        (resolve_download_assets lib user req db)
resolve_download_assets-Visible lib user req db =
    weaken _ ((resolve-Triple user db lib req).run db (record { kept = refl; assets_kept = refl }))
  where
    weaken :
        (o : Outcome (List Asset))
        → Post (λ r final. Same user db final × All (Visible db user) r) (Same user db) o
        → Post (λ (r : List Asset) final. All (Visible db user) r) (λ final. Unit) o
    weaken (ok r final) (h, v) = v
    weaken (err e final) h = tt

-- Who gets a file, a thumbnail or a presigned URL by the id of an asset owns it, or a live album with it
-- is shared with the user; the asset is there and not deleted. Any statement may fail.
pub single_downloads-Sees :
    (lib : DownloadLib) (user id expiry : ℕ) (size : String) (db : Db)
    → Post (λ r final. Sees user db id) (λ final. Unit) (download_asset lib user id db)
      × Post (λ r final. Sees user db id) (λ final. Unit) (get_thumbnail lib user id size db)
      × Post (λ r final. Sees user db id) (λ final. Unit) (get_presigned_url lib user id expiry db)
unfolding download_asset get_thumbnail get_presigned_url
single_downloads-Sees lib user id expiry size db =
    (seen user db id _, seen user db id _, seen user db id _)
