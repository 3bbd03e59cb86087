-- ===== src/SharedLinks/Operations.antt =====
-- What the operations of internal/sharedlinks/service.go keep.
use immich_go_backend.Base.{
  ℕ, ◌≡◌, refl, sym, subst, inl, inr, String, Bool, true, false, Option, none, some, List, [], ◌∷◌,
  ◌==◌, ==_iff, ◌=ₛ◌, Bool-cases,
}
use immich_go_backend.Db.{SharedLink, Db, Outcome, ok, err, M, ◌>>=◌, ◌>>◌, need, check, UuidLib}
use immich_go_backend.Db.Links.{get_shared_link_asset_rows}
use immich_go_backend.Db.Triples.{
  Post, Triple, Settled, Settled-Triple, bind-Triple, wrap-Triple, need-Triple, check-Triple,
  pre-Triple, post-Triple, return-Triple,
}
use immich_go_backend.Db.Rows.{identities, Keyed, Owns}
use immich_go_backend.SharedLinks.{
  BcryptLib, CreateRequest, UpdateRequest, or_none, assets_or_none, with_count, with_counts,
  get_shared_link_with_assets, owned_link, ensure_owned_asset, attach_owned, attach_parsed,
  attach_all, detach_parsed, detach_all, parse_album, hash_password, create_shared_link,
  new_password, update_shared_link, get_shared_link, get_shared_links, delete_shared_link,
  add_assets_to_shared_link, remove_assets_from_shared_link,
}
use immich_go_backend.SharedLinks.Attachments.{
  Safe, link_keys, WithLink, Own, free, link-Triple, rows-Triple, list-Triple, asset_query-Triple,
}
use immich_go_backend.SharedLinks.Writes.{
  add-Triple, remove-Triple, create-Triple, delete-Triple, update-Triple,
}

module _ (user : ℕ) (start : Db) where
  abbrev K : Db → Type 0
  K = Safe user start

  or_none-Post :
      {A : Type 0} (P E : Db → Type 0) (o : Outcome (List A))
      → Post (λ r. P) P o
      → Post (λ (r : List A). P) E (or_none o)
  or_none-Post P E (ok r db) h = h
  or_none-Post P E (err e db) h = h

  assets-Triple :
      (P E : Db → Type 0) (id : ℕ)
      → ((db : Db) (later : List Bool) → P db → P (record db { outages = later }))
      → Triple P (assets_or_none id) (λ r. P) E
  unfolding assets_or_none
  assets-Triple P E id keep = record {
    run = λ db p.
        or_none-Post P E (get_shared_link_asset_rows id db)
          ((rows-Triple user start P id keep).run db p);
  }

  count-Triple : (l : SharedLink) → Triple K (with_count l) (λ r. K) K
  unfolding with_count
  count-Triple l = bind-Triple (assets-Triple K K l.id (free user start)) λ rows. return-Triple _

  dto-Triple : (l : SharedLink) → Triple K (get_shared_link_with_assets l) (λ r. K) K
  unfolding get_shared_link_with_assets
  dto-Triple l = bind-Triple (assets-Triple K K l.id (free user start)) λ rows. return-Triple _

  -- The owner of the link is checked.
  owned-Triple :
      (id : ℕ) → Triple K (owned_link user id) (λ l db. WithLink user start id db × (l.id ≡ id)) K
  unfolding owned_link
  owned-Triple id = bind-Triple (wrap-Triple _ (link-Triple user start id)) λ l.
      bind-Triple (check-Triple _ (l.user_id == user) (λ db k. k.0)) λ done. record {
        run = λ db ((k, (own, same)), e).
            let mine : l.user_id ≡ user = (==_iff l.user_id user).0 e in
            ((k, subst (λ t. Owns t id (link_keys db.links)) mine own), same);
      }

  parse-Triple :
      {A B : Type 0} {P : Db → Type 0} {Q : B → Db → Type 0} (message : String) (o : Option A)
      (f : A → M B)
      → ((db : Db) → P db → K db)
      → ((a : A) → Triple P (f a) Q K)
      → Triple P (need message o >>= f) Q K
  parse-Triple message o f safe h =
      bind-Triple (need-Triple message o safe) λ a. pre-Triple (λ db p. p.0) (h a)

  -- Attaching: an asset is added only after its owner is checked.
  module _ (keyed : Keyed (identities start.assets)) (link : ℕ) where
    abbrev Held : Db → Type 0
    Held = WithLink user start link

    ensure-Triple :
        (asset : ℕ)
        → Triple Held (ensure_owned_asset user asset) (λ u db. Held db × Own user start asset) Held
    unfolding ensure_owned_asset
    ensure-Triple asset =
        bind-Triple (wrap-Triple _ (asset_query-Triple user start link asset keyed))
          λ r. record { run = λ db p. p }

    attach_owned-Triple :
        (asset : ℕ) (b : Bool)
        → Triple
            (Settled (λ db. Held db × Own user start asset) Held b)
            (attach_owned link asset b)
            (λ done. Held)
            K
    unfolding attach_owned
    attach_owned-Triple asset true = record {
      run = λ db (k, own).
          (post-Triple (λ b next h. either b next h)
              (Settled-Triple {F = K} (add-Triple user start asset link own))).run
            db k;
    }
      where
        either : (b : Bool) (next : Db) → Settled Held Held b next → Held next
        either true next h = h
        either false next h = h
    attach_owned-Triple asset false = return-Triple false

    attach_parsed-Triple : (o : Option ℕ) → Triple Held (attach_parsed user link o) (λ done. Held) K
    unfolding attach_parsed
    attach_parsed-Triple none = return-Triple false
    attach_parsed-Triple (some asset) =
        bind-Triple (Settled-Triple (ensure-Triple asset)) λ b. attach_owned-Triple asset b

    attach_all-Triple :
        (u : UuidLib) (ids : List String) (n : ℕ)
        → Triple Held (attach_all u user link ids n) (λ r. Held) K
    unfolding attach_all
    attach_all-Triple u [] n = return-Triple n
    attach_all-Triple u (s ∷ rest) n =
        bind-Triple (attach_parsed-Triple (u.parse s)) λ done. attach_all-Triple u rest _

  settled_both : (P : Db → Type 0) (b : Bool) (db : Db) → Settled P P b db → P db
  settled_both P true db h = h
  settled_both P false db h = h

  detach_parsed-Triple :
      (link : ℕ) (o : Option ℕ)
      → Triple
          (WithLink user start link)
          (detach_parsed link o)
          (λ done. WithLink user start link)
          K
  unfolding detach_parsed
  detach_parsed-Triple link none = return-Triple false
  detach_parsed-Triple link (some asset) =
      post-Triple (λ b next h. settled_both (WithLink user start link) b next h)
        (Settled-Triple {F = K} (remove-Triple user start asset link))

  detach_all-Triple :
      (u : UuidLib) (link : ℕ) (ids : List String)
      → Triple (WithLink user start link) (detach_all u link ids) (λ r. WithLink user start link) K
  unfolding detach_all
  detach_all-Triple u link [] = return-Triple tt
  detach_all-Triple u link (s ∷ rest) =
      bind-Triple (detach_parsed-Triple link (u.parse s)) λ done. detach_all-Triple u link rest

  pub get-Triple : (id : ℕ) → Triple K (get_shared_link user id) (λ r. K) K
  unfolding get_shared_link
  get-Triple id = bind-Triple (owned-Triple id) λ l. pre-Triple (λ db p. p.0.0) (count-Triple l)

  with_counts-Triple : (ls : List SharedLink) → Triple K (with_counts ls) (λ r. K) K
  unfolding with_counts
  with_counts-Triple [] = return-Triple _
  with_counts-Triple (l ∷ rest) =
      bind-Triple (count-Triple l)
        λ dto. bind-Triple (with_counts-Triple rest) λ later. return-Triple _

  pub links-Triple : Triple K (get_shared_links user) (λ r. K) K
  unfolding get_shared_links
  links-Triple =
      bind-Triple (wrap-Triple _ (list-Triple user start user)) λ ls. with_counts-Triple ls

  pub delete_link-Triple : (id : ℕ) → Triple K (delete_shared_link user id) (λ r. K) K
  unfolding delete_shared_link
  delete_link-Triple id =
      bind-Triple (owned-Triple id)
        λ l. pre-Triple (λ db p. p.0) (wrap-Triple _ (delete-Triple user start id))

  hash-Triple :
      {P : Db → Type 0} (b : BcryptLib) (password : String)
      → ((db : Db) → P db → K db)
      → Triple P (hash_password b password) (λ h. P) K
  unfolding hash_password
  hash-Triple {P} b password safe = elim (Bool-cases (password =ₛ "")) [
    | inl e ↦ rw e (return-Triple none)
    | inr e ↦ rw e (parse-Triple _ (b.hash password) _ safe λ h. return-Triple (some h))
  ]

  album-Triple : (u : UuidLib) (o : Option String) → Triple K (parse_album u o) (λ r. K) K
  unfolding parse_album
  album-Triple u none = return-Triple none
  album-Triple u (some s) = parse-Triple _ (u.parse s) _ (λ db k. k) λ id. return-Triple (some id)

  pub create_link-Triple :
      (b : BcryptLib) (u : UuidLib) (new_id : ℕ) (key : String) (req : CreateRequest)
      → Keyed (identities start.assets)
      → Triple K (create_shared_link b u new_id key user req) (λ r. K) K
  unfolding create_shared_link
  create_link-Triple b u new_id key req keyed =
      bind-Triple (hash-Triple b req.password (λ db k. k)) λ hashed.
        bind-Triple (album-Triple u req.album_id) λ album.
          bind-Triple (wrap-Triple _ (create-Triple user start new_id _ refl)) λ link.
            bind-Triple (attach_all-Triple keyed link.id u req.asset_ids 0)
              λ added. pre-Triple (λ db p. p.0) (return-Triple _)

  new_password-Triple :
      (b : BcryptLib) (link : ℕ) (o existing : Option String)
      → Triple
          (WithLink user start link)
          (new_password b o existing)
          (λ r. WithLink user start link)
          K
  unfolding new_password
  new_password-Triple b link none existing = return-Triple existing
  new_password-Triple b link (some p) existing = hash-Triple b p (λ db k. k.0)

  pub update_link-Triple :
      (b : BcryptLib) (id : ℕ) (req : UpdateRequest)
      → Triple K (update_shared_link b user id req) (λ r. K) K
  unfolding update_shared_link
  update_link-Triple b id req = bind-Triple (owned-Triple id) λ l.
      pre-Triple (λ db p. p.0)
        (bind-Triple (new_password-Triple b id req.password l.password) λ password.
          bind-Triple (wrap-Triple _ (update-Triple user start id _))
            λ updated. count-Triple updated)

  -- The checked link has the id of the request.
  at_link :
      {A : Type 0} {Q : A → Db → Type 0} (id : ℕ) (l : SharedLink) (m : M A)
      → Triple (WithLink user start l.id) m Q K
      → Triple (λ db. WithLink user start id db × (l.id ≡ id)) m Q K
  at_link id l m h = pre-Triple (λ db (p, e). subst (λ t. WithLink user start t db) (sym e) p) h

  individual-Triple :
      {A : Type 0} {Q : A → Db → Type 0} (id : ℕ) (l : SharedLink) (m : M A)
      → Triple (WithLink user start l.id) m Q K
      → Triple
          (λ db. WithLink user start id db × (l.id ≡ id))
          (check
              (l.kind =ₛ "INDIVIDUAL")
              "asset modification is only supported for individual shared links"
            >> m)
          Q
          K
  individual-Triple id l m h =
      bind-Triple (check-Triple _ _ (λ db p. p.0.0))
        λ done. pre-Triple (λ db p. p.0) (at_link id l m h)

  pub add_assets-Triple :
      (u : UuidLib) (id : ℕ) (ids : List String)
      → Keyed (identities start.assets)
      → Triple K (add_assets_to_shared_link u user id ids) (λ r. K) K
  unfolding add_assets_to_shared_link
  add_assets-Triple u id ids keyed = bind-Triple (owned-Triple id) λ l. individual-Triple id l _ (
      bind-Triple (attach_all-Triple keyed l.id u ids 0)
        λ added. pre-Triple (λ db p. p.0) (dto-Triple l))

  pub remove_assets-Triple :
      (u : UuidLib) (id : ℕ) (ids : List String)
      → Triple K (remove_assets_from_shared_link u user id ids) (λ r. K) K
  unfolding remove_assets_from_shared_link
  remove_assets-Triple u id ids = bind-Triple (owned-Triple id) λ l.
      individual-Triple id l _
        (bind-Triple (detach_all-Triple u l.id ids) λ done. pre-Triple (λ db p. p.0) (dto-Triple l))
