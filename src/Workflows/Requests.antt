-- ===== src/Workflows/Requests.antt =====
-- Any sequence of requests to internal/workflow/service.go keeps the workflows and their runs consistent.
use immich_go_backend.Base.{ℕ, ◌≡◌, refl, String, Option, List, [], ◌∷◌}
use immich_go_backend.Db.{Workflow, Db, UuidLib}
use immich_go_backend.Db.Workflows.{WorkflowUpdate}
use immich_go_backend.Db.Triples.{
  Triple, bind-Triple, wrap-Triple, check-Triple, pre-Triple, return-Triple,
}
use immich_go_backend.Workflows.Reading.{need_kept}
use immich_go_backend.Workflows.{JsonLib, trigger_workflow, status_of}
use immich_go_backend.Workflows.Statements.{
  Consistent, Fits, rows-Triple, row-Triple, count-Triple, list-Triple, create-Triple,
  update-Triple, increment-Triple, run-Triple, delete-Triple,
}
use immich_go_backend.Workflows.Operations.{
  Request, listing, get, delete, create, update, trigger, executions, enable, perform_all, Kept,
  get-Triple, Permitted, perform_kept,
}

abbrev K : Db → Type 0
K = Consistent

abbrev HasStatus : Workflow → Type 0
HasStatus w = w.status ≡ status_of w.enabled

abbrev FitsAt : ℕ → WorkflowUpdate → Type 0
FitsAt id p = Fits p

kept : Kept Consistent HasStatus FitsAt
kept = record {
  rows = rows-Triple;
  row = row-Triple;
  count = count-Triple;
  list = list-Triple;
  create_row = create-Triple;
  update_row = update-Triple;
  delete_row = delete-Triple;
}

module _ {V : Type 0} (u : UuidLib) (j : JsonLib V) where
  trigger-Triple :
      (new_id now : ℕ) (id : String) (value : Option V)
      → Triple K (trigger_workflow u j new_id now id value) (λ r. K) K
  unfolding trigger_workflow
  trigger-Triple new_id now id value = bind-Triple (get-Triple u j K HasStatus FitsAt kept id) λ w.
      bind-Triple (check-Triple _ w.enabled (λ db k. k)) λ done.
        pre-Triple (λ db p. p.0)
          (bind-Triple (need_kept u j K _ (u.parse id)) λ n.
            bind-Triple (wrap-Triple _ (run-Triple _))
              λ e. bind-Triple (wrap-Triple _ (increment-Triple n)) λ counted. return-Triple _)

  permitted : (r : Request V) → Permitted u j K HasStatus FitsAt kept r
  permitted listing = tt
  permitted (get id) = tt
  permitted (delete id) = tt
  permitted (create new_id name description t actions enabled created_by) = λ w e s. s
  permitted (update id name description t actions) =
      λ n p e s. record { fits = λ b t h. rw (e, s) h }
  permitted (trigger new_id now id value) = trigger-Triple new_id now id value
  permitted (executions id limit offset status) = tt
  permitted (enable id enabled) = λ n p q e s. record { fits = λ b t h. rw (e, s) refl }

  -- After any requests to the workflows, one after another and with whatever outages: a workflow has the
  -- status "active" if it is enabled and "disabled" if not, it counts no run that is not recorded, and
  -- every recorded run is one of a workflow that is there. It holds before.
  pub perform_all-Consistent :
      (requests : List (Request V)) (db : Db)
      → Consistent db
      → Consistent (perform_all u j requests db)
  perform_all-Consistent [] db k = k
  perform_all-Consistent (r ∷ rest) db k =
      perform_all-Consistent rest _ (perform_kept u j K HasStatus FitsAt kept r db (permitted r) k)
