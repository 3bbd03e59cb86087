-- ===== src/Trash/Histories.antt =====
-- Any request, and any sequence of requests by several users, on internal/trash/service.go.
use immich_go_backend.Base.{
  ℕ, ◌≡◌, refl, sym, subst, ◌∙◌, ap, ◌≢◌, inl, inr, String, false, none, some, List, [], ◌∷◌, arith,
  ◌==◌, select, Bool-cases, Option-cases,
}
use immich_go_backend.Db.{after, Asset, Db, M, need, UuidLib}
use immich_go_backend.Db.Assets.{move_assets_to_trash, restore_assets}
use immich_go_backend.Db.Triples.{Post-after, Triple, bind-Triple, wrap-Triple, return-Triple}
use immich_go_backend.Db.Rows.{All, identities, Keyed, others}
use immich_go_backend.Trash.{
  get_trashed_assets, trash_asset, restore_asset, permanently_delete, trash_assets,
  restore_assets_of, restore_all_assets, empty_trash, parse_all, owned_asset,
}
use immich_go_backend.Trash.Requests.{
  Request, listing, restore_all, empty, trash, restore, delete, trash_many, restore_many, perform,
  perform_all,
}
use immich_go_backend.Trash.Ownership.{
  Isolated, Isolated-refl, move-Triple, restore-Triple, delete-Triple, moves-Triple,
  restores-Triple, list-Triple,
}
use immich_go_backend.Trash.Isolation.{
  user-Triple, single-Triple, batch-Triple, whole-Triple, fact-Triple,
}

run-Isolated :
    {A : Type 0} {user : ℕ} {db : Db} {m : M A}
    → Triple (Isolated user db) m (λ a. Isolated user db) (Isolated user db)
    → Isolated user db (after (m db))
run-Isolated {user} {db} {m} h =
    Post-after (Isolated user db) (m db) (h.run db (Isolated-refl user db))

-- Whatever a user asks of the trash service, with whatever outages, only rows of that user change,
-- no row comes, goes or changes its id or owner, and no stack changes. The ids of the assets are
-- distinct and the user's id parses.
pub perform-Isolated :
    (u : UuidLib) (user_id : String) (user : ℕ) (r : Request) (db : Db)
    → u.parse user_id ≡ some user
    → Keyed (identities db.assets)
    → Isolated user db (perform u user_id r db)
unfolding get_trashed_assets trash_asset restore_asset permanently_delete trash_assets
    restore_assets_of restore_all_assets empty_trash
perform-Isolated u user_id user listing db parsed keyed = run-Isolated (
    user-Triple u user_id user parsed db keyed _ (
      bind-Triple (wrap-Triple _ (list-Triple user db keyed))
        λ rows. fact-Triple u user_id user parsed db keyed λ own. return-Triple _))
perform-Isolated u user_id user (trash id) db parsed keyed =
    run-Isolated (single-Triple u user_id user parsed db keyed id _ _ (move-Triple user db))
perform-Isolated u user_id user (restore id) db parsed keyed =
    run-Isolated (single-Triple u user_id user parsed db keyed id _ _ (restore-Triple user db))
perform-Isolated u user_id user (delete id) db parsed keyed =
    run-Isolated (single-Triple u user_id user parsed db keyed id _ _ (delete-Triple user db))
perform-Isolated u user_id user (trash_many ids) db parsed keyed = run-Isolated (
    user-Triple u user_id user parsed db keyed _ (
      batch-Triple u user_id user parsed db keyed move_assets_to_trash _ (parse_all u ids)
        (moves-Triple user db)))
perform-Isolated u user_id user (restore_many ids) db parsed keyed = run-Isolated (
    user-Triple u user_id user parsed db keyed _ (
      batch-Triple u user_id user parsed db keyed restore_assets _ (parse_all u ids)
        (restores-Triple user db)))
perform-Isolated u user_id user restore_all db parsed keyed =
    run-Isolated (whole-Triple u user_id user parsed db keyed _ (restore-Triple user db))
perform-Isolated u user_id user empty db parsed keyed =
    run-Isolated (whole-Triple u user_id user parsed db keyed _ (delete-Triple user db))

-- A user id that does not parse changes nothing.
perform_unparsed :
    (u : UuidLib) (user_id : String) (r : Request) (db : Db)
    → u.parse user_id ≡ none
    → perform u user_id r db ≡ db
unfolding get_trashed_assets trash_asset restore_asset permanently_delete trash_assets
    restore_assets_of restore_all_assets empty_trash owned_asset need
perform_unparsed u user_id listing db h = rw h refl
perform_unparsed u user_id (trash id) db h = rw h refl
perform_unparsed u user_id (restore id) db h = rw h refl
perform_unparsed u user_id (delete id) db h = rw h refl
perform_unparsed u user_id (trash_many ids) db h = rw h refl
perform_unparsed u user_id (restore_many ids) db h = rw h refl
perform_unparsed u user_id restore_all db h = rw h refl
perform_unparsed u user_id empty db h = rw h refl

abbrev pub rows_of : ℕ → List Asset → List Asset
rows_of user = select (λ a. a.owner_id == user)

-- The rows of a user are among those that are not another's.
rows_of-others :
    (user v : ℕ) (xs : List Asset) → v ≢ user → rows_of v (others user xs) ≡ rows_of v xs
rows_of-others user v [] ne = refl
rows_of-others user v (a ∷ xs) ne = elim (Bool-cases (a.owner_id == user)) [
  | inl e ↦
      let other : (a.owner_id == v) ≡ false = ground arith in
      rw (e, other) (rows_of-others user v xs ne)
  | inr e ↦ elim (Bool-cases (a.owner_id == v)) [
    | inl q ↦ rw (e, q, rows_of-others user v xs ne)
    | inr q ↦ rw (e, q) (rows_of-others user v xs ne)
  ]
]

-- No request of the sequence is by the user.
abbrev pub NotBy : UuidLib → ℕ → List (String × Request) → Type 0
NotBy u v = All (λ (r : String × Request). u.parse r.0 ≢ some v)

-- A user's assets are exactly as they were after any sequence of trash requests by others, whatever
-- ids those requests name and whatever statements fail. The ids of the assets are distinct.
pub perform_all-Untouched :
    (u : UuidLib) (v : ℕ) (requests : List (String × Request)) (db : Db)
    → NotBy u v requests
    → Keyed (identities db.assets)
    → rows_of v (perform_all u requests db).assets ≡ rows_of v db.assets
perform_all-Untouched u v [] db h keyed = refl
perform_all-Untouched u v ((user_id, r) ∷ rest) db (h, hs) keyed =
    elim (Option-cases (u.parse user_id)) [
      | inl e ↦
          rw (perform_all, perform_unparsed u user_id r db e)
            (perform_all-Untouched u v rest db hs keyed)
      | inr (user, e) ↦
          let i = perform-Isolated u user_id user r db e keyed in
          let next = perform u user_id r db in
          let ne : v ≢ user = λ q. h (e ∙ ap some (sym q)) in
          perform_all-Untouched u v rest next hs (subst Keyed (sym i.identities_kept) keyed)
          ∙ sym (rows_of-others user v next.assets ne)
          ∙ ap (rows_of v) i.others_kept
          ∙ rows_of-others user v db.assets ne
    ]
