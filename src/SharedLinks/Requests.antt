-- ===== src/SharedLinks/Requests.antt =====
-- The operations of internal/sharedlinks/service.go as requests, and any sequence of them.
use immich_go_backend.Base.{ℕ, refl, sym, subst, String, List, [], ◌∷◌}
use immich_go_backend.Db.{after, Db, M, UuidLib}
use immich_go_backend.Db.Triples.{Post-after, Triple}
use immich_go_backend.Db.Rows.{identities, Keyed}
use immich_go_backend.SharedLinks.{
  BcryptLib, CreateRequest, UpdateRequest, create_shared_link, update_shared_link, get_shared_link,
  get_shared_links, delete_shared_link, add_assets_to_shared_link, remove_assets_from_shared_link,
}
use immich_go_backend.SharedLinks.Attachments.{Safe, Honest}
use immich_go_backend.SharedLinks.Operations.{
  get-Triple, links-Triple, delete_link-Triple, create_link-Triple, update_link-Triple,
  add_assets-Triple, remove_assets-Triple,
}

pub data Request : Type 0 where
  create : ℕ → String → CreateRequest → Request
  get delete : ℕ → Request
  listing : Request
  update : ℕ → UpdateRequest → Request
  add remove : ℕ → List String → Request

abbrev pub ask : BcryptLib → UuidLib → ℕ → Request → Db → Db
ask b u user (create new_id key req) db = after (create_shared_link b u new_id key user req db)
ask b u user (get id) db = after (get_shared_link user id db)
ask b u user (delete id) db = after (delete_shared_link user id db)
ask b u user listing db = after (get_shared_links user db)
ask b u user (update id req) db = after (update_shared_link b user id req db)
ask b u user (add id ids) db = after (add_assets_to_shared_link u user id ids db)
ask b u user (remove id ids) db = after (remove_assets_from_shared_link u user id ids db)

abbrev pub ask_all : BcryptLib → UuidLib → List (ℕ × Request) → Db → Db
ask_all b u [] db = db
ask_all b u ((user, r) ∷ rest) db = ask_all b u rest (ask b u user r db)

run-Safe :
    {A : Type 0} {user : ℕ} {db : Db} {m : M A}
    → Triple (Safe user db) m (λ a. Safe user db) (Safe user db)
    → Honest db
    → Safe user db (after (m db))
run-Safe {user} {db} {m} h honest = Post-after (Safe user db) (m db) (
    h.run db
      (record { assets_kept = refl; others_kept = refl; pairs_kept = refl; honest = honest }))

-- Whatever a user asks of the shared links, with whatever outages: no asset and no link of another
-- user changes, no attachment to a link of another user comes or goes, the ids of the links stay
-- distinct, every attachment is to a link that is there, and every link still shows assets of its own
-- owner only. Distinct ids, attachments to links that are there and links that show assets of their
-- owners only are there before, and the ids of the assets are distinct.
pub ask-Safe :
    (b : BcryptLib) (u : UuidLib) (user : ℕ) (r : Request) (db : Db)
    → Keyed (identities db.assets)
    → Honest db
    → Safe user db (ask b u user r db)
ask-Safe b u user (create new_id key req) db k h =
    run-Safe (create_link-Triple user db b u new_id key req k) h
ask-Safe b u user (get id) db k h = run-Safe (get-Triple user db id) h
ask-Safe b u user (delete id) db k h = run-Safe (delete_link-Triple user db id) h
ask-Safe b u user listing db k h = run-Safe (links-Triple user db) h
ask-Safe b u user (update id req) db k h = run-Safe (update_link-Triple user db b id req) h
ask-Safe b u user (add id ids) db k h = run-Safe (add_assets-Triple user db u id ids k) h
ask-Safe b u user (remove id ids) db k h = run-Safe (remove_assets-Triple user db u id ids) h

-- Whatever users ask of the shared links, one after another and with whatever outages: every link
-- still shows assets of its own owner only, if it holds before and the ids of the assets are distinct.
pub ask_all-Honest :
    (b : BcryptLib) (u : UuidLib) (requests : List (ℕ × Request)) (db : Db)
    → Keyed (identities db.assets)
    → Honest db
    → Honest (ask_all b u requests db)
ask_all-Honest b u [] db k h = h
ask_all-Honest b u ((user, r) ∷ rest) db k h =
    let step = ask-Safe b u user r db k h in
    ask_all-Honest b u rest _ (subst (λ xs. Keyed (identities xs)) (sym step.assets_kept) k)
      step.honest
