-- ===== src/Workflows/Operations.antt =====
-- The operations of internal/workflow/service.go as requests, and what they keep where their statements
-- keep it.
use immich_go_backend.Base.{ℕ, ◌≡◌, refl, String, Bool, Option, none, some, List, [], ◌∷◌}
use immich_go_backend.Base.Int.{ℤ}
use immich_go_backend.Db.{after, Workflow, Db, M, need, UuidLib}
use immich_go_backend.Db.Workflows.{
  list_workflow_rows, get_workflow_by_id, create_workflow_row, WorkflowUpdate, update_workflow_row,
  delete_workflow_row, list_workflow_executions, count_workflow_executions,
}
use immich_go_backend.Db.Triples.{
  Post-after, Triple, bind-Triple, wrap-Triple, need-Triple, post-Triple, return-Triple,
}
use immich_go_backend.Workflows.Reading.{need_kept, info_kept}
use immich_go_backend.Workflows.{
  JsonLib, Trigger, Action, marshal_some, some_unless_empty, workflow_from_db, workflows_from_db,
  list_workflows, get_workflow, create_workflow, update_workflow, delete_workflow, trigger_workflow,
  get_workflow_executions, set_workflow_enabled, status_of,
}

-- The statements keep a property, those that write under a condition on what they write.
pub record Kept (K : Db → Type 0) (MayCreate : Workflow → Type 0)
    (MayUpdate : ℕ → WorkflowUpdate → Type 0) : Type 0 where
  pub rows : Triple K list_workflow_rows (λ ws. K) K
  pub row : (id : ℕ) → Triple K (get_workflow_by_id id) (λ w. K) K
  pub count :
      (id : ℕ) (status : Option String) → Triple K (count_workflow_executions id status) (λ n. K) K
  pub list :
      (id : ℕ) (status : Option String) (limit offset : ℤ)
      → Triple K (list_workflow_executions id status limit offset) (λ es. K) K
  pub create_row : (w : Workflow) → MayCreate w → Triple K (create_workflow_row w) (λ r. K) K
  pub update_row :
      (id : ℕ) (p : WorkflowUpdate)
      → MayUpdate id p
      → Triple K (update_workflow_row id p) (λ w. K) K
  pub delete_row : (id : ℕ) → Triple K (delete_workflow_row id) (λ d. K) K

pub data Request (V : Type 0) : Type 0 where
  listing : Request V
  get delete : String → Request V
  create : ℕ → String → String → Trigger V → List (Action V) → Bool → String → Request V
  update : String → Option String → Option String → Option (Trigger V) → List (Action V) → Request V
  trigger : ℕ → ℕ → String → Option V → Request V
  executions : String → ℤ → ℤ → Option String → Request V
  enable : String → Bool → Request V

module _ {V : Type 0} (u : UuidLib) (j : JsonLib V) where
  -- The database after a request, whether it failed or not.
  abbrev pub perform : Request V → Db → Db
  perform listing db = after (list_workflows u j db)
  perform (get id) db = after (get_workflow u j id db)
  perform (delete id) db = after (delete_workflow u j id db)
  perform (create new_id name description t actions enabled created_by) db =
      after (create_workflow u j new_id name description t actions enabled created_by db)
  perform (update id name description t actions) db =
      after (update_workflow u j id name description t actions db)
  perform (trigger new_id now id value) db = after (trigger_workflow u j new_id now id value db)
  perform (executions id limit offset status) db =
      after (get_workflow_executions u j id limit offset status db)
  perform (enable id enabled) db = after (set_workflow_enabled u j id enabled db)

  abbrev pub perform_all : List (Request V) → Db → Db
  perform_all [] db = db
  perform_all (r ∷ rest) db = perform_all rest (perform r db)

module _ {V : Type 0} (u : UuidLib) (j : JsonLib V) (K : Db → Type 0)
    (MayCreate : Workflow → Type 0) (MayUpdate : ℕ → WorkflowUpdate → Type 0)
    (kept : Kept K MayCreate MayUpdate) where
  needed : {A : Type 0} (message : String) (o : Option A) → Triple K (need message o) (λ a. K) K
  needed = need_kept u j K

  info-Triple : (w : Workflow) → Triple K (workflow_from_db u j w) (λ i. K) K
  info-Triple w = post-Triple (λ i db p. p.0) (info_kept u j K w)

  infos-Triple : (ws : List Workflow) → Triple K (workflows_from_db u j ws) (λ is. K) K
  unfolding workflows_from_db
  infos-Triple [] = return-Triple []
  infos-Triple (w ∷ ws) =
      bind-Triple (info-Triple w) λ i. bind-Triple (infos-Triple ws) λ is. return-Triple (i ∷ is)

  marshal-Triple :
      {A : Type 0} (message : String) (marshal : A → Option String) (o : Option A)
      → Triple K (marshal_some message marshal o) (λ s. K) K
  marshal-Triple message marshal none = return-Triple none
  marshal-Triple message marshal (some a) =
      bind-Triple (needed message (marshal a)) λ s. return-Triple (some s)

  pub get-Triple : (id : String) → Triple K (get_workflow u j id) (λ i. K) K
  unfolding get_workflow
  get-Triple id =
      bind-Triple (needed _ (u.parse id))
        λ n. bind-Triple (wrap-Triple _ (kept.row n)) λ w. info-Triple w

  listing-Triple : Triple K (list_workflows u j) (λ is. K) K
  unfolding list_workflows
  listing-Triple = bind-Triple (wrap-Triple _ kept.rows) λ ws. infos-Triple ws

  deletion-Triple : (id : String) → Triple K (delete_workflow u j id) (λ r. K) K
  unfolding delete_workflow
  deletion-Triple id =
      bind-Triple (needed _ (u.parse id))
        λ n. bind-Triple (wrap-Triple _ (kept.row n)) λ w. wrap-Triple _ (kept.delete_row n)

  creation-Triple :
      (new_id : ℕ) (name description : String) (t : Trigger V) (actions : List (Action V))
      (enabled : Bool) (created_by : String)
      → ((w : Workflow) → w.id ≡ new_id → w.status ≡ status_of w.enabled → MayCreate w)
      → Triple K
          (create_workflow u j new_id name description t actions enabled created_by)
          (λ r. K)
          K
  unfolding create_workflow
  creation-Triple new_id name description t actions enabled created_by may =
      bind-Triple (needed _ (u.parse created_by)) λ owner.
        bind-Triple (needed _ (j.marshal_trigger t)) λ trigger_json.
          bind-Triple (needed _ (j.marshal_actions actions)) λ actions_json.
            bind-Triple (wrap-Triple _ (kept.create_row _ (may _ refl refl))) λ w. info-Triple w

  edit-Triple :
      (id : String) (name description : Option String) (t : Option (Trigger V))
      (actions : List (Action V))
      → ((n : ℕ) (p : WorkflowUpdate) → p.enabled ≡ none → p.status ≡ none → MayUpdate n p)
      → Triple K (update_workflow u j id name description t actions) (λ r. K) K
  unfolding update_workflow
  edit-Triple id name description t actions may = bind-Triple (needed _ (u.parse id)) λ n.
      bind-Triple (marshal-Triple _ j.marshal_trigger t) λ trigger_json.
        bind-Triple (marshal-Triple _ j.marshal_actions (some_unless_empty actions)) λ actions_json.
          bind-Triple (wrap-Triple _ (kept.update_row n _ (may n _ refl refl))) λ w. info-Triple w

  enabling-Triple :
      (id : String) (enabled : Bool)
      → ((n : ℕ) (p : WorkflowUpdate)
          → u.parse id ≡ some n
          → p.enabled ≡ some enabled
          → p.status ≡ some (status_of enabled)
          → MayUpdate n p)
      → Triple K (set_workflow_enabled u j id enabled) (λ r. K) K
  unfolding set_workflow_enabled
  enabling-Triple id enabled may = bind-Triple (need-Triple _ (u.parse id) (λ db k. k)) λ n.
      record {
        run = λ db (k, e).
            (bind-Triple (wrap-Triple _ (kept.update_row n _ (may n _ e refl refl)))
                λ w. info-Triple w).run
              db k;
      }

  executions-Triple :
      (id : String) (limit offset : ℤ) (status : Option String)
      → Triple K (get_workflow_executions u j id limit offset status) (λ r. K) K
  unfolding get_workflow_executions
  executions-Triple id limit offset status = bind-Triple (get-Triple id) λ w.
      bind-Triple (needed _ (u.parse id)) λ n.
        bind-Triple (wrap-Triple _ (kept.list n status _ _))
          λ rows. bind-Triple (wrap-Triple _ (kept.count n status)) λ total. return-Triple _

  after-Triple : {A : Type 0} {m : M A} {db : Db} → Triple K m (λ a. K) K → K db → K (after (m db))
  after-Triple {m} {db} h k = Post-after K (m db) (h.run db k)

  -- What a request has to satisfy.
  abbrev pub Permitted : Request V → Type 0
  Permitted listing = Unit
  Permitted (get id) = Unit
  Permitted (delete id) = Unit
  Permitted (create new_id name description t actions enabled created_by) =
      (w : Workflow) → w.id ≡ new_id → w.status ≡ status_of w.enabled → MayCreate w
  Permitted (update id name description t actions) =
      (n : ℕ) (p : WorkflowUpdate) → p.enabled ≡ none → p.status ≡ none → MayUpdate n p
  Permitted (trigger new_id now id value) =
      Triple K (trigger_workflow u j new_id now id value) (λ r. K) K
  Permitted (executions id limit offset status) = Unit
  Permitted (enable id enabled) =
      (n : ℕ) (p : WorkflowUpdate)
      → u.parse id ≡ some n
      → p.enabled ≡ some enabled
      → p.status ≡ some (status_of enabled)
      → MayUpdate n p

  pub perform_kept : (r : Request V) (db : Db) → Permitted r → K db → K (perform u j r db)
  perform_kept listing db p k = after-Triple listing-Triple k
  perform_kept (get id) db p k = after-Triple (get-Triple id) k
  perform_kept (delete id) db p k = after-Triple (deletion-Triple id) k
  perform_kept (create new_id name description t actions enabled created_by) db p k =
      after-Triple (creation-Triple new_id name description t actions enabled created_by p) k
  perform_kept (update id name description t actions) db p k =
      after-Triple (edit-Triple id name description t actions p) k
  perform_kept (trigger new_id now id value) db p k = after-Triple p k
  perform_kept (executions id limit offset status) db p k =
      after-Triple (executions-Triple id limit offset status) k
  perform_kept (enable id enabled) db p k = after-Triple (enabling-Triple id enabled p) k
